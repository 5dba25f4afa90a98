-- ===== src/Expert/Sample.antt =====
-- The small model of the tests: two layers of four experts, slices of 40 bytes and pages of 16, and a
-- source with nothing in its cache.
use franken_mo_e_cuda.Prelude.{◌+◌, ◌*◌, refl, true, false, none, []}
use franken_mo_e_cuda.Prelude.Int.{pos, negsuc}
use franken_mo_e_cuda.Expert.Layout.{Layout, ExpertTensorRef}
use franken_mo_e_cuda.Expert.State.{Cache, Commits}
use franken_mo_e_cuda.Expert.Sequence.{has, total}
use franken_mo_e_cuda.Expert.Invariant.{IsValid}
use franken_mo_e_cuda.Expert.Spec.{Spec}
use franken_mo_e_cuda.Expert.Load.{Source, Reads}

abbrev slices : ExpertTensorRef
slices = record { tensor = true; file_off = 4096; nb2 = 40; file_idx = pos 0 }

abbrev pub small : Layout
small = record {
  n_expert = 4;
  n_layer = 2;
  layers = λ _. record { bound = true; proj = λ _. slices };
  lbuf = λ p il. 1024 * (p + 3 * il);
  slot = λ p. 1024 * p;
  page = 16;
  load_all = false;
  io_threads = 1;
}

abbrev pub grants : Commits
grants _ _ _ = true

abbrev pub reads_all : Reads
reads_all _ _ = true

-- An empty cache with room for two entries of 120 bytes.
abbrev pub cold : Cache
cold = record {
  links = record { prev = λ _. none; next = λ _. none; head = none; tail = none };
  valid = λ _. false;
  spec = λ _. false;
  ever_evicted = λ _. false;
  stamp = λ _. 0;
  gen = 0;
  resident = 0;
  cache_max = 240;
  hits = 0;
  lookups = 0;
  evictions = 0;
  rereads = 0;
  spec_useful = 0;
  vm = [];
}

abbrev pub quiet : Spec
quiet = record {
  jobs = [];
  next = 0;
  gen = 0;
  inflight = 0;
  done = [];
  touched = [];
  remaining = λ _. 0;
  read_bytes = 0;
  experts = 0;
}

abbrev pub fresh : Source
fresh = record {
  active = true;
  cache = cold;
  spec = quiet;
  demand = record { last_il = negsuc 0; accum = 0; layer_accum = 0; token = 0; layer = 0 };
  tick = 0;
  batch_gen = 0;
  resizes = 0;
  reads = [];
}

pub cold-IsValid : IsValid small cold
unfolding has total
cold-IsValid = record {
  order = [];
  inv = record {
    holds = record { linked = tt; first = refl; final = refl; distinct = tt };
    listed = λ _. refl;
    bytes = refl;
    range = tt;
  };
}
