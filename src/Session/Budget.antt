-- ===== src/Session/Budget.antt =====
-- engine/session.cpp, hot_slots_from_budget: the number of experts that a budget of VRAM holds. The
-- sizes of the file's tensors are given by name; `int` has 32 bits and `uint64_t` has 64.
use Prim.Native.Char.{code}
use Prim.Native.String.{String}
use franken_mo_e_cuda.Prelude.{
  ℕ, ◌+◌, ◌-◌, ◌*◌, ◌/◌, ◌%◌, ◌^◌, ◌≡◌, ◌≤◌, ◌<◌, ◌⊎◌, max, min, refl, ap, Bool, true, false, ◌&&◌,
  ◌||◌, not, inl, inr, Option, none, some, List, [], ◌∷◌, ltb, leb, ◌==◌, if◌then◌else◌, arith,
  Bool-cases,
}
use franken_mo_e_cuda.Prelude.Int.{ℤ, pos, negsuc, pos_part, leb_ℤ, ltb_ℤ, ◌-ℤ◌}
use franken_mo_e_cuda.Workload.{eq_bytes}
use franken_mo_e_cuda.Workload.Text.{is_digit}

abbrev pub codes : String → List ℕ
codes String.[] = []
codes (String.◌∷◌ c s) = code c ∷ codes s

-- What is left of a text behind a first part, if it starts with that.
unfoldable pub strip : List ℕ → List ℕ → Option (List ℕ)
strip [] s = some s
strip (x ∷ xs) [] = none
strip (x ∷ xs) (c ∷ s) = let rest = strip xs s in if x == c then rest else none

unfoldable pub skip_digits : List ℕ → List ℕ
unfolding is_digit
skip_digits [] = []
skip_digits (c ∷ s) = let rest = skip_digits s in if is_digit c then rest else c ∷ s

unfoldable pub starts_with_digit : List ℕ → Bool
unfolding is_digit
starts_with_digit [] = false
starts_with_digit (c ∷ s) = is_digit c

unfoldable pub one_of : List ℕ → List String → Bool
unfolding eq_bytes
one_of s [] = false
one_of s (t ∷ ts) = eq_bytes (codes t) s || one_of s ts

-- The texts that the regular expression allows behind the layer's number.
abbrev suffixes : List String
suffixes =
    ".ffn_up_exps.weight" ∷ ".ffn_down_exps.weight" ∷ ".ffn_gate_exps.weight"
    ∷ ".ffn_gate_up_exps.weight" ∷ ".ffn_up_chexps.weight" ∷ ".ffn_down_chexps.weight"
    ∷ ".ffn_gate_chexps.weight" ∷ ".ffn_gate_up_chexps.weight" ∷ []

-- The match of `^blk\\.[0-9]+\\.ffn_(up|down|gate|gate_up)_(ch|)exps\\.weight$`; no suffix starts with a
-- digit, so the digits are all taken.
unfoldable pub is_expert_weight : List ℕ → Bool
unfolding strip skip_digits starts_with_digit one_of
is_expert_weight name = elim (strip (codes "blk.") name) [
  | none ↦ false
  | some s ↦ starts_with_digit s && one_of (skip_digits s) suffixes
]

-- A layer's slot is one expert of each tensor.
unfoldable pub bytes_per_slot : ℕ → List (List ℕ × ℕ) → ℕ
bytes_per_slot n_expert [] = 0
bytes_per_slot n_expert ((name, size) ∷ items) =
    let rest = bytes_per_slot n_expert items in
    if is_expert_weight name then (rest + size / n_expert) % 2 ^ 64 else rest

pub data HotSlots : Type 0 where
  slots : ℤ → HotSlots
  no_metadata : HotSlots
  no_expert_weights : HotSlots
  too_small : ℕ → HotSlots

abbrev pub mib : ℕ
mib = 1048576

-- A cast to `int`.
unfoldable pub to_int : ℕ → ℤ
to_int n = let m = n % 2 ^ 32 in if ltb m (2 ^ 31) then pos m else negsuc (2 ^ 32 - 1 - m)

-- The slots of a budget in bytes, where a slot takes `per_slot` of them.
unfoldable pub slots_within : ℕ → ℕ → ℕ → ℕ → HotSlots
unfolding to_int
slots_within n_expert per_slot sentinels budget =
    let total = budget / per_slot in
    let left = to_int total -ℤ pos sentinels in
    if leb total sentinels
    then too_small ((per_slot * sentinels + mib - 1) % 2 ^ 64 / mib)
    else slots (if ltb_ℤ left (pos n_expert) then left else pos n_expert)

unfoldable pub hot_slots_from_budget : Bool → ℤ → List (List ℕ × ℕ) → ℤ → ℤ → HotSlots
unfolding slots_within
hot_slots_from_budget meta_ok n_expert items budget_mb top_k =
    let per_slot = bytes_per_slot (pos_part n_expert) items in
    if leb_ℤ budget_mb (pos 0)
    then slots (pos 0)
    else if not meta_ok || leb_ℤ n_expert (pos 0)
    then no_metadata
    else if per_slot == 0
    then no_expert_weights
    else slots_within (pos_part n_expert) per_slot (max 8 (pos_part top_k))
        (pos_part budget_mb * mib)

-- A number of slots that fits a budget, and is all the experts or the most that fit.
pub record FitsBudget (n_expert per_slot sentinels budget k : ℕ) : Type 0 where
  pub some_slots : 0 < k
  pub at_most : k ≤ n_expert
  pub fits : (k + sentinels) * per_slot ≤ budget
  pub most : (k ≡ n_expert) ⊎ (budget < (k + 1 + sentinels) * per_slot)

quotient_fits : (b p : ℕ) → 0 < p → (b / p * p ≤ b) × (b < (b / p + 1) * p)
quotient_fits b p h = (grind arith, grind arith)

to_int-pos : (n : ℕ) → n < 2 ^ 31 → to_int n ≡ pos n
unfolding to_int
to_int-pos n h = ground arith

mul_mono : (a b p : ℕ) → a ≤ b → a * p ≤ b * p
mul_mono a b p h = grind arith

below_of_mul : (a b p : ℕ) → a * p < b * p → a < b
below_of_mul a b p h = elim (Bool-cases (ltb a b)) [
  | inl e ↦ ground arith
  | inr e ↦ absurd (omega (arith, mul_mono b a p (ground arith)))
]

slots_below :
    (total sentinels n_expert : ℕ)
    → total < 2 ^ 31
    → sentinels < total
    → slots (
        if ltb_ℤ (to_int total -ℤ pos sentinels) (pos n_expert)
        then to_int total -ℤ pos sentinels
        else pos n_expert)
      ≡ slots (pos (min (total - sentinels) n_expert))
unfolding ◌-ℤ◌
slots_below total sentinels n_expert small h = rw (to_int-pos total small) (ap slots (ground arith))

min-FitsBudget :
    (n_expert p sentinels budget total : ℕ)
    → 0 < n_expert
    → sentinels < total
    → total * p ≤ budget
    → budget < (total + 1) * p
    → FitsBudget n_expert p sentinels budget (min (total - sentinels) n_expert)
min-FitsBudget n_expert p sentinels budget total hn h low high =
    let k = min (total - sentinels) n_expert in
    record {
      some_slots = ground arith;
      at_most = ground arith;
      fits = omega (arith, mul_mono (k + sentinels) total p (ground arith));
      most = elim (Bool-cases (ltb (total - sentinels) n_expert)) [
        | inl e ↦ inr (omega (arith, mul_mono (total + 1) (k + 1 + sentinels) p (ground arith)))
        | inr e ↦ inl (ground arith)
      ];
    }

-- With metadata, experts whose slot takes some bytes, and a positive budget of fewer than 2 ^ 31
-- slots, the answer is exact. Either the budget does not hold a slot beyond the sentinels, of which
-- there are the larger of 8 and top_k, and the answer is the error that says so; or it is the number of
-- slots that, with the sentinels, fit the budget: all the experts, or the most that fit, and never none.
pub hot_slots_from_budget-FitsBudget :
    (n_expert : ℕ) (items : List (List ℕ × ℕ)) (budget_mb : ℕ) (top_k : ℤ)
    → 0 < n_expert
    → 0 < bytes_per_slot n_expert items
    → 0 < budget_mb
    → budget_mb * mib < 2 ^ 31 * bytes_per_slot n_expert items
    → let p = bytes_per_slot n_expert items in
      let s = max 8 (pos_part top_k) in
      let answer = hot_slots_from_budget true (pos n_expert) items (pos budget_mb) top_k in
      ((budget_mb * mib < (s + 1) * p) × (answer ≡ too_small ((p * s + mib - 1) % 2 ^ 64 / mib)))
      ⊎ ((k : ℕ) × (answer ≡ slots (pos k)) × FitsBudget n_expert p s (budget_mb * mib) k)
unfolding hot_slots_from_budget slots_within
hot_slots_from_budget-FitsBudget n_expert items budget_mb top_k hn hp hb small =
    let p = bytes_per_slot n_expert items in
    let s = max 8 (pos_part top_k) in
    let total = budget_mb * mib / p in
    let q = quotient_fits (budget_mb * mib) p hp in
    let budget = budget_mb * mib in
    let some_budget : leb_ℤ (pos budget_mb) (pos 0) ≡ false = ground arith in
    let some_experts : leb_ℤ (pos n_expert) (pos 0) ≡ false = ground arith in
    let some_bytes : (p == 0) ≡ false = ground arith in
    let few : total < 2 ^ 31 = below_of_mul total (2 ^ 31) p (omega (arith, q.0)) in
    elim (Bool-cases (leb total s)) [
      | inl e ↦ inl (
        omega (arith, q.1, mul_mono (total + 1) (s + 1) p (ground arith)),
        rw (some_budget, some_experts, some_bytes, e, hot_slots_from_budget) refl,
      )
      | inr e ↦ inr (
        min (total - s) n_expert,
        rw (some_budget, some_experts, some_bytes, e, hot_slots_from_budget)
            (slots_below total s n_expert few (ground arith)),
        min-FitsBudget n_expert p s budget total hn (ground arith) q.0 q.1,
      )
    ]
