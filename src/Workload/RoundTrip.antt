-- ===== src/Workload/RoundTrip.antt =====
-- Reading the lists of the workload file back.
use franken_mo_e_cuda.Prelude.{
  ℕ, ◌+◌, ◌*◌, ◌%◌, ◌^◌, ◌≡◌, ◌<◌, Bool, true, Option, none, some, List, [], ◌∷◌, ◌++◌, ◌==◌, ◌⊎◌,
  inr, refl, ap, ◌∙◌, All, length, if◌then◌else◌, ==_iff,
}
use franken_mo_e_cuda.Prelude.Int.{ℤ}
use franken_mo_e_cuda.Workload.{Route, eq_bytes}
use franken_mo_e_cuda.Workload.Text.{Bytes, is_space, get_int, put_int, put_size}
use franken_mo_e_cuda.Workload.Digits.{
  Stops, Solid, InInt, get_word-append, get_size-put_size, get_int-put_int, first_word,
}
use franken_mo_e_cuda.Workload.Format.{
  route_key, put_tokens, put_route, put_routes, LoadError, got, after, keyed, get_tokens, to_size,
  get_shape, get_routes, invalid_route, truncated_route,
}

pub got-some :
    {A B : Type 0} (e : LoadError) (o : Option (A × Bytes)) (a : A) (rest : Bytes)
    (next : A → Bytes → LoadError ⊎ B) (y : LoadError ⊎ B)
    → o ≡ some (a, rest)
    → next a rest ≡ y
    → got e o next ≡ y
unfolding got
got-some e o a rest next y h k = ap (λ o. got e o next) h ∙ k

after-some :
    {A B : Type 0} (o : Option (A × Bytes)) (a : A) (rest : Bytes) (next : A → Bytes → Option B)
    (y : Option B)
    → o ≡ some (a, rest)
    → next a rest ≡ y
    → after o next ≡ y
unfolding after
after-some o a rest next y h k = ap (λ o. after o next) h ∙ k

eq_bytes_refl : (k : Bytes) → eq_bytes k k ≡ true
unfolding eq_bytes
eq_bytes_refl [] = refl
eq_bytes_refl (c ∷ k) =
    let here : (c == c) ≡ true = (==_iff c c).1 refl in simp (here, eq_bytes) (eq_bytes_refl k)

-- An item behind its key.
pub keyed-append :
    {A : Type 0} (s c : ℕ) (k rest left : Bytes) (item : Bytes → Option (A × Bytes)) (x : A)
    → is_space s ≡ true
    → Solid (c ∷ k)
    → Stops rest
    → item rest ≡ some (x, left)
    → keyed (c ∷ k) item (s ∷ (c ∷ k) ++ rest) ≡ some (x, left)
unfolding keyed
keyed-append s c k rest left item x sp solid h e =
    after-some _ (c ∷ k) rest _ _ (get_word-append s c k rest sp solid h)
      (after-some _ x left _ _ e (simp (eq_bytes_refl (c ∷ k)) refl))

-- An item behind the first key of the file.
pub keyed_first :
    {A : Type 0} (c : ℕ) (k rest left : Bytes) (item : Bytes → Option (A × Bytes)) (x : A)
    → Solid (c ∷ k)
    → Stops rest
    → item rest ≡ some (x, left)
    → keyed (c ∷ k) item ((c ∷ k) ++ rest) ≡ some (x, left)
unfolding keyed
keyed_first c k rest left item x solid h e =
    after-some _ (c ∷ k) rest _ _ (first_word c k rest solid h)
      (after-some _ x left _ _ e (simp (eq_bytes_refl (c ∷ k)) refl))

pub Stops-tokens : (ts : List ℤ) (rest : Bytes) → Stops rest → Stops (put_tokens ts rest)
unfolding put_tokens is_space
Stops-tokens [] rest h = h
Stops-tokens (t ∷ ts) rest h = refl

pub space : is_space 32 ≡ true
unfolding is_space
space = refl

pub newline : is_space 10 ≡ true
unfolding is_space
newline = refl

pub get_tokens-put_tokens :
    (ts : List ℤ) (rest : Bytes)
    → All InInt ts
    → Stops rest
    → get_tokens (length ts) (put_tokens ts rest) ≡ some (ts, rest)
unfolding get_tokens put_tokens
get_tokens-put_tokens [] rest a h = refl
get_tokens-put_tokens (t ∷ ts) rest a h =
    after-some _ t (put_tokens ts rest) _ _
      (get_int-put_int 32 t (put_tokens ts rest) space a.0 (Stops-tokens ts rest h))
      (after-some _ ts rest _ _ (get_tokens-put_tokens ts rest a.1 h) refl)

-- A route that fits its types and has as many ids as its shape says.
pub record IsRoute (r : Route) : Type 0 where
  pub phase : InInt r.phase
  pub base_pos : InInt r.base_pos
  pub batch_n : InInt r.batch_n
  pub layer : InInt r.layer
  pub top_k : InInt r.top_k
  pub token_n : InInt r.token_n
  pub ids : All InInt r.ids
  pub count : length r.ids ≡ (to_size r.top_k * to_size r.token_n) % 2 ^ 64
  pub size : length r.ids < 2 ^ 64

route_key-Solid : Solid route_key
unfolding is_space
route_key-Solid = (refl, (refl, (refl, (refl, (refl, tt)))))

shape_done : {A : Type 0} {b : Bool} {x : A} → b ≡ true → (if b then some x else none) ≡ some x
shape_done h = simp h refl

get_shape-put_route :
    (r : Route) (rest : Bytes)
    → IsRoute r
    → get_shape (10 ∷ put_route r rest)
      ≡ some ((record r { ids = [] }, length r.ids), put_tokens r.ids (10 ∷ rest))
unfolding get_shape put_route after
get_shape-put_route r rest v =
    let ids = put_tokens r.ids (10 ∷ rest) in
    let counted : (length r.ids == (to_size r.top_k * to_size r.token_n) % 2 ^ 64) ≡ true =
      (==_iff _ _).1 v.count in
    let t7 : Bytes = 32 ∷ put_size (length r.ids) ++ ids in
    let t6 : Bytes = 32 ∷ put_int r.token_n ++ t7 in
    let t5 : Bytes = 32 ∷ put_int r.top_k ++ t6 in
    let t4 : Bytes = 32 ∷ put_int r.layer ++ t5 in
    let t3 : Bytes = 32 ∷ put_int r.batch_n ++ t4 in
    let t2 : Bytes = 32 ∷ put_int r.base_pos ++ t3 in
    let t1 : Bytes = 32 ∷ put_int r.phase ++ t2 in
    let e0 =
      keyed-append 10 114 (111 ∷ 117 ∷ 116 ∷ 101 ∷ []) t1 t2 get_int r.phase newline route_key-Solid
        space (get_int-put_int 32 r.phase t2 space v.phase space) in
    let e1 = get_int-put_int 32 r.base_pos t3 space v.base_pos space in
    let e2 = get_int-put_int 32 r.batch_n t4 space v.batch_n space in
    let e3 = get_int-put_int 32 r.layer t5 space v.layer space in
    let e4 = get_int-put_int 32 r.top_k t6 space v.top_k space in
    let e5 = get_int-put_int 32 r.token_n t7 space v.token_n space in
    let e6 =
      get_size-put_size 32 (length r.ids) ids space v.size
        (Stops-tokens r.ids (10 ∷ rest) newline) in
    let all : get_shape ((10 ∷ route_key) ++ t1)
        ≡ some ((record r { ids = [] }, length r.ids), ids) =
      rw e0 (rw e1 (rw e2 (rw e3 (rw e4 (rw e5 (rw e6 (shape_done counted))))))) in
    all

Stops-routes : (rs : List Route) → Stops (10 ∷ put_routes rs)
Stops-routes rs = newline

pub get_routes-put_routes :
    (rs : List Route) (i : ℕ)
    → All IsRoute rs
    → get_routes (length rs) i (10 ∷ put_routes rs) ≡ inr rs
unfolding get_routes put_routes
get_routes-put_routes [] i a = refl
get_routes-put_routes (r ∷ rs) i a =
    let shape = get_shape-put_route r (put_routes rs) a.0 in
    let ids = get_tokens-put_tokens r.ids (10 ∷ put_routes rs) a.0.ids newline in
    let others = get_routes-put_routes rs (i + 1) a.1 in
    got-some (invalid_route i) _ (record r { ids = [] }, length r.ids)
      (put_tokens r.ids (10 ∷ put_routes rs)) _ _ shape
      (got-some (truncated_route i) _ r.ids (10 ∷ put_routes rs) _ _ ids (rw others refl))
