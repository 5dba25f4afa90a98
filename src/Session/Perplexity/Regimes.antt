-- ===== src/Session/Perplexity/Regimes.antt =====
-- engine/session.cpp, Session::perplexity: what either regime scores.
use franken_mo_e_cuda.Prelude.{List}
