-- ===== src/Router/Drop.antt =====
-- moe/router_hook.cpp, apply_drop(): the experts that are not read. The weights and the ids of a node
-- are functions of the token and the slot; the arithmetic of floats is given.
use franken_mo_e_cuda.Prelude.{
  ℕ, zero, suc, ◌+◌, ◌*◌, Bool, true, false, ◌&&◌, ◌||◌, not, none, some, List, [], ◌∷◌, ◌++◌, ltb,
  ◌==◌, if◌then◌else◌, update, get_elem?,
}
use franken_mo_e_cuda.Prelude.Int.{ℤ}
use franken_mo_e_cuda.Config.Float.{Float32, ltb_f, zero_f}

-- The operations of binary32 that the policy uses; `of_nat` is the conversion of an int.
pub record Arithmetic : Type 0 where
  pub add : Float32 → Float32 → Float32
  pub mul : Float32 → Float32 → Float32
  pub div : Float32 → Float32 → Float32
  pub of_nat : ℕ → Float32

-- What the hook calls of the expert source, on a state of it.
pub record ExpertSource (S : Type 0) : Type 0 where
  pub settle_spec : S → S
  pub query_residency : ℕ → List ℤ → S → List ℕ
  pub load_layer : ℕ → List ℤ → S → Bool × S

-- route_miss.
abbrev pub route_miss : ℕ
route_miss = 0

-- An array of rows, one for each token: drop_w_, drop_ids_, drop_mask_ and the nodes.
abbrev pub Slots {ℓ} : Type ℓ → Type ℓ
Slots A = ℕ → ℕ → A

abbrev pub put {ℓ} : {A : Type ℓ} → Slots A → ℕ → ℕ → A → Slots A
put f j k v = update f j (update (f j) k v)

-- PendingDrop, the policy, and what apply_drop() writes; `weights` is the node `wt`, `ids` the node D.ids.
pub record Drop : Type 0 where
  pub layer : ℕ
  pub nu : ℕ
  pub nt : ℕ
  pub drop_frac : Float32
  pub drop_renorm : Bool
  pub weights : Slots Float32
  pub ids : Slots ℤ
  pub drop_ids : Slots ℤ
  pub drop_mask : Slots Bool
  pub experts_dropped : ℕ
  pub fatal : Bool
  pub deferred : Bool

-- The row-major vector of `n` rows of `m` slots.
unfoldable pub row_from {ℓ} : {A : Type ℓ} → (ℕ → A) → ℕ → ℕ → List A
row_from f zero k = []
row_from f (suc m) k = f k ∷ row_from f m (suc k)

unfoldable pub rows_from {ℓ} : {A : Type ℓ} → Slots A → ℕ → ℕ → ℕ → List A
rows_from f m zero j = []
rows_from f m (suc n) j = row_from (f j) m 0 ++ rows_from f m n (suc j)

abbrev pub vector {ℓ} : {A : Type ℓ} → Slots A → ℕ → ℕ → List A
vector f nu nt = rows_from f nu nt 0

-- drop_res_[j * nu + k], 0 where the answer has no such element.
unfoldable pub entry : List ℕ → ℕ → ℕ → ℕ → ℕ
entry res nu j k = elim (get_elem? res (j * nu + k)) [ none ↦ 0 | some r ↦ r ]

-- The two loops over the `m` slots from `k` on: the best slot and the total.
unfoldable pub best_from : (ℕ → Float32) → ℕ → ℕ → ℕ → ℕ
best_from w zero k best = best
best_from w (suc m) k best = best_from w m (suc k) (if ltb_f (w best) (w k) then k else best)

unfoldable pub best_slot : (ℕ → Float32) → ℕ → ℕ
best_slot w nu = best_from w nu 0 0

unfoldable pub total_from : Arithmetic → (ℕ → Float32) → ℕ → ℕ → Float32 → Float32
total_from a w zero k total = total
total_from a w (suc m) k total = total_from a w m (suc k) (a.add total (w k))

-- The test of a slot: `w` and `miss` are its row of drop_w_ and whether each slot's expert is a miss.
unfoldable pub drops : Float32 → (ℕ → Float32) → (ℕ → Bool) → ℕ → ℕ → Bool
drops thr w miss best k = not (k == best) && miss k && ltb_f (w k) thr

-- The state, with the locals `kept` and `n_dropped`.
pub record Row : Type 0 where
  pub at : Drop
  pub kept : Float32
  pub n_dropped : ℕ

-- The loop over the slots of token `j`.
unfoldable pub drop_slot : Arithmetic → (ℕ → Float32) → (ℕ → Bool) → ℤ → ℕ → ℕ → Row → Row
drop_slot a w drop best_id j k r =
    if drop k
    then record r {
      at = record r.at {
        weights = put r.at.weights j k zero_f;
        ids = put r.at.ids j k best_id;
        drop_ids = put r.at.drop_ids j k best_id;
        drop_mask = put r.at.drop_mask j k true;
      };
      n_dropped = r.n_dropped + 1;
    }
    else record r { kept = a.add r.kept (w k) }

unfoldable pub drop_row : Arithmetic → (ℕ → Float32) → (ℕ → Bool) → ℤ → ℕ → ℕ → ℕ → Row → Row
drop_row a w drop best_id j zero k r = r
drop_row a w drop best_id j (suc m) k r =
    drop_row a w drop best_id j m (suc k) (drop_slot a w drop best_id j k r)

-- The slots that are left, scaled by `g`.
unfoldable pub scale_slots : Arithmetic → Float32 → ℕ → ℕ → ℕ → Drop → Drop
scale_slots a g j zero k d = d
scale_slots a g j (suc m) k d = scale_slots a g j m (suc k) (
    if d.drop_mask j k
    then d
    else record d { weights = put d.weights j k (a.mul (d.weights j k) g) })

unfoldable pub renorm : Arithmetic → Float32 → ℕ → Row → Drop
renorm a total j r =
    let counted = record r.at { experts_dropped = r.at.experts_dropped + r.n_dropped } in
    if counted.drop_renorm && ltb 0 r.n_dropped && ltb_f zero_f r.kept
    then scale_slots a (a.div total r.kept) j counted.nu 0 counted
    else counted

-- The body of the loop over the tokens: `w` is drop_w_.
unfoldable pub drop_token : Arithmetic → Float32 → Slots Float32 → Slots Bool → ℕ → Drop → Drop
drop_token a thr w miss j d =
    let best = best_slot (w j) d.nu in
    renorm a (total_from a (w j) d.nu 0 zero_f) j (
      drop_row a (w j) (drops thr (w j) (miss j) best) (d.drop_ids j best) j d.nu 0
        (record { at = d; kept = zero_f; n_dropped = 0 }))

unfoldable pub drop_tokens : Arithmetic → Float32 → Slots Float32 → Slots Bool → ℕ → ℕ → Drop → Drop
drop_tokens a thr w miss zero j d = d
drop_tokens a thr w miss (suc n) j d =
    drop_tokens a thr w miss n (suc j) (drop_token a thr w miss j d)

-- The decision: the threshold, the mask, and the loop. drop_w_ is read from the node before it.
unfoldable pub decide : Arithmetic → List ℕ → Drop → Drop
decide a res d =
    drop_tokens a (a.div d.drop_frac (a.of_nat d.nu)) d.weights
      (λ j k. entry res d.nu j k == route_miss) d.nt 0 (record d { drop_mask = λ j k. false })

-- The load: an empty vector of ids loads nothing.
unfoldable pub load_ids : {S : Type 0} → ExpertSource S → List ℤ → S → Drop → Drop × S
load_ids src [] s d = (record d { deferred = false }, s)
load_ids src (i ∷ is) s d =
    let loaded = src.load_layer d.layer (i ∷ is) s in
    (record d { deferred = false; fatal = d.fatal || not loaded.0 }, loaded.1)

-- apply_drop() up to the load; the trace and the predictions that follow are not part of the model.
unfoldable pub apply_drop : {S : Type 0} → Arithmetic → ExpertSource S → S → Drop → Drop × S
apply_drop a src s d =
    let settled = src.settle_spec s in
    let res = src.query_residency d.layer (vector d.drop_ids d.nu d.nt) settled in
    let v = decide a res d in load_ids src (vector v.drop_ids v.nu v.nt) settled v
