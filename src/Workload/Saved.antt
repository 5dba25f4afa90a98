-- ===== src/Workload/Saved.antt =====
-- moe/deterministic_workload.cpp: a recording, its file, and the file loaded.
use franken_mo_e_cuda.Prelude.{
  ℕ, ◌<◌, ◌^◌, ◌≡◌, arith, true, some, ◌∷◌, inr, refl, sym, All, length, subst,
}
use franken_mo_e_cuda.Prelude.Int.{pos}
use franken_mo_e_cuda.Workload.{Workload, capturing}
use franken_mo_e_cuda.Workload.Text.{
  Bytes, is_space, get_word, get_int, get_size, put_int, put_size,
}
use franken_mo_e_cuda.Workload.Digits.{
  Stops, Solid, InInt, get_word-append, get_size-put_size, get_int-put_int,
}
use franken_mo_e_cuda.Workload.Format.{
  magic, arch_key, layers_key, top_k_key, prompt_key, output_key, routes_key, put_tokens,
  put_counted, put_routes, put_lists, put_workload, save, load, get_workload, unsupported_header,
  invalid_metadata, missing_prompt, truncated_prompt, missing_output, truncated_output,
  missing_routes, put,
}
use franken_mo_e_cuda.Workload.RoundTrip.{
  got-some, keyed-append, keyed_first, get_tokens-put_tokens, Stops-tokens, IsRoute,
  get_routes-put_routes, space, newline,
}
use franken_mo_e_cuda.Workload.Replay.{replay_of}

-- A recording that the file can hold: its architecture is a word, and its numbers fit their types.
pub record IsSaveable (w : Workload) : Type 0 where
  pub first : ℕ
  pub others : Bytes
  pub arch : w.arch ≡ first ∷ others
  pub solid : Solid (first ∷ others)
  pub n_layer : InInt w.n_layer
  pub n_expert_used : InInt w.n_expert_used
  pub prompt : All InInt w.prompt_tokens
  pub output : All InInt w.output_tokens
  pub routes : All IsRoute w.routes
  pub prompt_size : length w.prompt_tokens < 2 ^ 64
  pub output_size : length w.output_tokens < 2 ^ 64
  pub routes_size : length w.routes < 2 ^ 64

get_arch :
    (w : Workload) (v : IsSaveable w) (rest : Bytes)
    → Stops rest
    → get_word (put 32 w.arch rest) ≡ some (w.arch, rest)
get_arch w v rest h =
    subst (λ a. get_word (put 32 a rest) ≡ some (a, rest)) (sym v.arch)
      (get_word-append 32 v.first v.others rest space v.solid h)

magic-Solid : Solid magic
unfolding is_space
magic-Solid = (
  refl,
  (
    refl,
    (
      refl,
      (
        refl,
        (
          refl,
          (
            refl,
            (
              refl,
              (
                refl,
                (
                  refl,
                  (
                    refl,
                    (
                      refl,
                      (
                        refl,
                        (
                          refl,
                          (
                            refl,
                            (
                              refl,
                              (
                                refl,
                                (
                                  refl,
                                  (
                                    refl,
                                    (
                                      refl,
                                      (
                                        refl,
                                        (refl, (refl, (refl, (refl, (refl, (refl, (refl, tt))))))),
                                      ),
                                    ),
                                  ),
                                ),
                              ),
                            ),
                          ),
                        ),
                      ),
                    ),
                  ),
                ),
              ),
            ),
          ),
        ),
      ),
    ),
  ),
)

arch-Solid : Solid arch_key
unfolding is_space
arch-Solid = (refl, (refl, (refl, (refl, tt))))

layers-Solid : Solid layers_key
unfolding is_space
layers-Solid = (refl, (refl, (refl, (refl, (refl, (refl, tt))))))

top_k-Solid : Solid top_k_key
unfolding is_space
top_k-Solid = (refl, (refl, (refl, (refl, (refl, tt)))))

prompt-Solid : Solid prompt_key
unfolding is_space
prompt-Solid = (refl, (refl, (refl, (refl, (refl, (refl, tt))))))

output-Solid : Solid output_key
unfolding is_space
output-Solid = (refl, (refl, (refl, (refl, (refl, (refl, tt))))))

routes-Solid : Solid routes_key
unfolding is_space
routes-Solid = (refl, (refl, (refl, (refl, (refl, (refl, tt))))))

pub get_workload-put_workload :
    (w : Workload) → IsSaveable w → get_workload (put_workload w) ≡ inr (replay_of w)
unfolding get_workload put_workload put_lists replay_of
get_workload-put_workload w v =
    let t9 : Bytes = 10 ∷ put_routes w.routes in
    let t8 : Bytes = put 10 routes_key (put 32 (put_size (length w.routes)) t9) in
    let t7 : Bytes = put_tokens w.output_tokens t8 in
    let t6 : Bytes = put 10 output_key (put_counted w.output_tokens t8) in
    let t5 : Bytes = put_tokens w.prompt_tokens t6 in
    let t4 : Bytes = put 10 prompt_key (put_counted w.prompt_tokens t6) in
    let t3 : Bytes = put 10 top_k_key (put 32 (put_int w.n_expert_used) t4) in
    let t2 : Bytes = put 10 layers_key (put 32 (put_int w.n_layer) t3) in
    let t1 : Bytes = put 10 arch_key (put 32 w.arch t2) in
    let out_stops = Stops-tokens w.output_tokens t8 newline in
    let prompt_stops = Stops-tokens w.prompt_tokens t6 newline in
    got-some unsupported_header _ (pos 1) t1 _ _
      (keyed_first 66 _ (put 32 (put_int (pos 1)) t1) t1 get_int (pos 1) magic-Solid space
        (get_int-put_int 32 (pos 1) t1 space (omega arith) newline))
      (got-some invalid_metadata _ w.arch t2 _ _
        (keyed-append 10 97 _ (put 32 w.arch t2) t2 get_word w.arch newline arch-Solid space
          (get_arch w v t2 newline))
        (got-some invalid_metadata _ w.n_layer t3 _ _
          (keyed-append 10 108 _ (put 32 (put_int w.n_layer) t3) t3 get_int w.n_layer newline
            layers-Solid space (get_int-put_int 32 w.n_layer t3 space v.n_layer newline))
          (got-some invalid_metadata _ w.n_expert_used t4 _ _
            (keyed-append 10 116 _ (put 32 (put_int w.n_expert_used) t4) t4 get_int w.n_expert_used
              newline top_k-Solid space
              (get_int-put_int 32 w.n_expert_used t4 space v.n_expert_used newline))
            (got-some missing_prompt _ (length w.prompt_tokens) t5 _ _
              (keyed-append 10 112 _ (put_counted w.prompt_tokens t6) t5 get_size
                (length w.prompt_tokens) newline prompt-Solid space
                (get_size-put_size 32 (length w.prompt_tokens) t5 space v.prompt_size prompt_stops))
              (got-some truncated_prompt _ w.prompt_tokens t6 _ _
                (get_tokens-put_tokens w.prompt_tokens t6 v.prompt newline)
                (got-some missing_output _ (length w.output_tokens) t7 _ _
                  (keyed-append 10 111 _ (put_counted w.output_tokens t8) t7 get_size
                    (length w.output_tokens) newline output-Solid space
                    (get_size-put_size 32 (length w.output_tokens) t7 space v.output_size
                      out_stops))
                  (got-some truncated_output _ w.output_tokens t8 _ _
                    (get_tokens-put_tokens w.output_tokens t8 v.output newline)
                    (got-some missing_routes _ (length w.routes) t9 _ _
                      (keyed-append 10 114 _ (put 32 (put_size (length w.routes)) t9) t9 get_size
                        (length w.routes) newline routes-Solid space
                        (get_size-put_size 32 (length w.routes) t9 space v.routes_size newline))
                      (rw (get_routes-put_routes w.routes 0 v.routes) refl)))))))))

-- load() of the file that save() wrote gives the recording's data in a replay that has consumed
-- nothing. The hypotheses are that the workload is a recording, that its architecture is a word
-- without white space, that its numbers fit their types, and that every routing has as many ids as
-- its shape says.
pub load-save :
    (w : Workload)
    → w.mode ≡ capturing
    → IsSaveable w
    → load (save true true w).2 ≡ inr (replay_of w)
unfolding load save
load-save w m v = simp (m, save, load) (get_workload-put_workload w v)
