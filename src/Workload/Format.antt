-- ===== src/Workload/Format.antt =====
-- DeterministicWorkload::save() and load(): the workload file, byte by byte. Whether the file opens and
-- is written is given. A count that no memory holds is read like any other.
use franken_mo_e_cuda.Prelude.{
  ℕ, zero, suc, ◌+◌, ◌*◌, ◌%◌, ◌^◌, ◌-◌, Bool, true, false, not, Option, none, some, List, [], ◌∷◌,
  ◌++◌, ◌==◌, ◌⊎◌, inl, inr, if◌then◌else◌, length,
}
use franken_mo_e_cuda.Prelude.Int.{ℤ, pos, negsuc, ◌==ℤ◌}
use franken_mo_e_cuda.Workload.{
  Workload, capturing, replaying, Route, not_captured, cannot_write, fresh, fail, eq_bytes,
}
use franken_mo_e_cuda.Workload.Text.{Bytes, put_size, put_int, get_word, get_int, get_size}

-- The words of the file, in ASCII.
abbrev pub magic : Bytes
magic =
    66 ∷ 77 ∷ 79 ∷ 69 ∷ 95 ∷ 68 ∷ 69 ∷ 84 ∷ 69 ∷ 82 ∷ 77 ∷ 73 ∷ 78 ∷ 73 ∷ 83 ∷ 84 ∷ 73 ∷ 67 ∷ 95
    ∷ 87 ∷ 79 ∷ 82 ∷ 75 ∷ 76 ∷ 79 ∷ 65 ∷ 68 ∷ []

abbrev pub arch_key : Bytes
arch_key = 97 ∷ 114 ∷ 99 ∷ 104 ∷ []

abbrev pub layers_key : Bytes
layers_key = 108 ∷ 97 ∷ 121 ∷ 101 ∷ 114 ∷ 115 ∷ []

abbrev pub top_k_key : Bytes
top_k_key = 116 ∷ 111 ∷ 112 ∷ 95 ∷ 107 ∷ []

abbrev pub prompt_key : Bytes
prompt_key = 112 ∷ 114 ∷ 111 ∷ 109 ∷ 112 ∷ 116 ∷ []

abbrev pub output_key : Bytes
output_key = 111 ∷ 117 ∷ 116 ∷ 112 ∷ 117 ∷ 116 ∷ []

abbrev pub routes_key : Bytes
routes_key = 114 ∷ 111 ∷ 117 ∷ 116 ∷ 101 ∷ 115 ∷ []

abbrev pub route_key : Bytes
route_key = 114 ∷ 111 ∷ 117 ∷ 116 ∷ 101 ∷ []

-- Each writes in front of what follows; `put` a separator and an item.
abbrev pub put : ℕ → Bytes → Bytes → Bytes
put separator item rest = separator ∷ (item ++ rest)

unfoldable pub put_tokens : List ℤ → Bytes → Bytes
put_tokens [] rest = rest
put_tokens (t ∷ ts) rest = put 32 (put_int t) (put_tokens ts rest)

-- A count and as many tokens.
abbrev pub put_counted : List ℤ → Bytes → Bytes
put_counted ts rest = put 32 (put_size (length ts)) (put_tokens ts rest)

unfoldable pub put_route : Route → Bytes → Bytes
put_route r rest =
    route_key
    ++ put 32 (put_int r.phase) (
        put 32 (put_int r.base_pos) (
          put 32 (put_int r.batch_n) (
            put 32 (put_int r.layer) (
              put 32 (put_int r.top_k)
                (put 32 (put_int r.token_n) (put_counted r.ids (10 ∷ rest)))))))

unfoldable pub put_routes : List Route → Bytes
put_routes [] = []
put_routes (r ∷ rs) = put_route r (put_routes rs)

-- The lines of the tokens and the routes.
unfoldable pub put_lists : Workload → Bytes
put_lists w = put 10 prompt_key (
    put_counted w.prompt_tokens (
      put 10 output_key (
        put_counted w.output_tokens
          (put 10 routes_key (put 32 (put_size (length w.routes)) (10 ∷ put_routes w.routes))))))

unfoldable pub put_workload : Workload → Bytes
put_workload w =
    magic
    ++ put 32 (put_int (pos 1)) (
        put 10 arch_key (
          put 32 w.arch (
            put 10 layers_key (
              put 32 (put_int w.n_layer)
                (put 10 top_k_key (put 32 (put_int w.n_expert_used) (put_lists w)))))))

-- The answer, the workload, and what was written when all of it was.
unfoldable pub save : Bool → Bool → Workload → Bool × Workload × Option Bytes
save opened written w = elim w.mode [
  | replaying ↦ (false, fail not_captured w, none)
  | capturing ↦
      if not opened
      then (false, fail cannot_write w, none)
      else if written
      then (true, w, some (put_workload w))
      else (false, fail cannot_write w, none)
]

pub data LoadError : Type 0 where
  cannot_open : LoadError
  unsupported_header : LoadError
  invalid_metadata : LoadError
  missing_prompt : LoadError
  truncated_prompt : LoadError
  missing_output : LoadError
  truncated_output : LoadError
  missing_routes : LoadError
  invalid_route : ℕ → LoadError
  truncated_route : ℕ → LoadError

-- What is read and what is left; the early returns.
abbrev pub Got : Type 0 → Type 0
Got A = LoadError ⊎ A × Bytes

unfoldable pub got :
    {A B : Type 0} → LoadError → Option (A × Bytes) → (A → Bytes → LoadError ⊎ B) → LoadError ⊎ B
got e none next = inl e
got e (some (a, rest)) next = next a rest

unfoldable pub after : {A B : Type 0} → Option (A × Bytes) → (A → Bytes → Option B) → Option B
after none next = none
after (some (a, rest)) next = next a rest

-- `in >> key >> x || key != ...`: an item behind its key.
unfoldable pub keyed :
    {A : Type 0} → Bytes → (Bytes → Option (A × Bytes)) → Bytes → Option (A × Bytes)
keyed key item cs =
    after (get_word cs)
      (λ k rest. after (item rest) (λ x left. if eq_bytes k key then some (x, left) else none))

unfoldable pub get_tokens : ℕ → Bytes → Option (List ℤ × Bytes)
get_tokens zero cs = some ([], cs)
get_tokens (suc n) cs =
    after (get_int cs) (λ t rest. after (get_tokens n rest) (λ ts left. some (t ∷ ts, left)))

-- `(size_t) x`.
unfoldable pub to_size : ℤ → ℕ
to_size (pos n) = n % 2 ^ 64
to_size (negsuc n) = (2 ^ 64 - suc n) % 2 ^ 64

-- The header of a route: its record without the ids, and their count.
unfoldable pub get_shape : Bytes → Option ((Route × ℕ) × Bytes)
get_shape cs = after (keyed route_key get_int cs) (λ phase c1. after (get_int c1) (λ base_pos c2.
    after (get_int c2) (λ batch_n c3. after (get_int c3) (λ layer c4.
      after (get_int c4) (λ top_k c5. after (get_int c5) (λ token_n c6.
        after (get_size c6) (λ n_ids c7.
          let r : Route = record {
            phase = phase;
            base_pos = base_pos;
            batch_n = batch_n;
            layer = layer;
            top_k = top_k;
            token_n = token_n;
            ids = [];
          } in
          if n_ids == (to_size top_k * to_size token_n) % 2 ^ 64
          then some ((r, n_ids), c7)
          else none)))))))

-- The routes from the i-th on.
unfoldable pub get_routes : ℕ → ℕ → Bytes → LoadError ⊎ List Route
get_routes zero i cs = inr []
get_routes (suc n) i cs = got (invalid_route i) (get_shape cs) (λ (r, n_ids) c1.
    got (truncated_route i) (get_tokens n_ids c1) (λ ids c2. elim (get_routes n (i + 1) c2) [
      | inl e ↦ inl e
      | inr rs ↦ inr (record r { ids = ids } ∷ rs)
    ]))

unfoldable pub get_workload : Bytes → LoadError ⊎ Workload
get_workload c0 = got unsupported_header (keyed magic get_int c0) (λ version c1.
    if not (version ==ℤ pos 1)
    then inl unsupported_header
    else got invalid_metadata (keyed arch_key get_word c1) (λ arch c2.
      got invalid_metadata (keyed layers_key get_int c2) (λ n_layer c3.
        got invalid_metadata (keyed top_k_key get_int c3) (λ n_expert_used c4.
          got missing_prompt (keyed prompt_key get_size c4) (λ n_prompt c5.
            got truncated_prompt (get_tokens n_prompt c5) (λ prompt_tokens c6.
              got missing_output (keyed output_key get_size c6) (λ n_output c7.
                got truncated_output (get_tokens n_output c7) (λ output_tokens c8.
                  got missing_routes (keyed routes_key get_size c8) (λ n_routes c9.
                    elim (get_routes n_routes 0 c9) [
                      | inl e ↦ inl e
                      | inr routes ↦ inr (record (fresh replaying) {
                        arch = arch;
                        n_layer = n_layer;
                        n_expert_used = n_expert_used;
                        prompt_tokens = prompt_tokens;
                        output_tokens = output_tokens;
                        routes = routes;
                      })
                    ])))))))))

-- `none` for a file that does not open.
unfoldable pub load : Option Bytes → LoadError ⊎ Workload
load none = inl cannot_open
load (some text) = get_workload text
