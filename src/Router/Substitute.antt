-- ===== src/Router/Substitute.antt =====
-- moe/router_hook.cpp, apply_substitute(): the routing of a token taken again with a margin for the
-- resident experts. The ids of the node are a function of the token and the slot.
use franken_mo_e_cuda.Prelude.{
  ℕ, zero, suc, ◌+◌, Bool, true, false, ◌&&◌, ◌||◌, not, Option, none, some, List, [], ◌∷◌, ltb,
  leb, ◌==◌, if◌then◌else◌, length, get_elem?,
}
use franken_mo_e_cuda.Prelude.Int.{ℤ, pos, ◌==ℤ◌}
use franken_mo_e_cuda.Config.Float.{Float32, ltb_f, zero_f, magnitude}
use franken_mo_e_cuda.Router.Rank.{rank_top_k}
use franken_mo_e_cuda.Router.Drop.{Arithmetic, ExpertSource, Slots, put, route_miss, row_from}

-- What the walk from the ids looks at.
pub data Op : Type 0 where
  view argsort top_k soft_max other : Op

pub data Tensor : Type 0 where
  null : Tensor
  tensor :
      (op : Op) (has_data f32 : Bool) (ne0 ne1 : ℕ) (values : Slots Float32) (src : Tensor) → Tensor

-- std::log and the subtraction.
pub record Logs : Type 0 where
  pub log : Float32 → Float32
  pub sub : Float32 → Float32 → Float32

abbrev pub minus_infinity : Float32
minus_infinity = record { bits = 4286578688 }

-- std::isfinite.
unfoldable pub is_finite : Float32 → Bool
is_finite x = ltb (magnitude x) 2139095040

abbrev pub is_selection : Op → Bool
is_selection op = elim op [ view ↦ true | argsort ↦ true | top_k ↦ true | _ ↦ false ]

unfoldable pub walk : Tensor → Tensor
walk null = null
walk (tensor op has_data f32 ne0 ne1 values src) =
    let further = walk src in
    if is_selection op then further else tensor op has_data f32 ne0 ne1 values src

-- The scores of the experts, in logarithms where the node is a softmax.
pub record Scores : Type 0 where
  pub ne : ℕ
  pub row : Slots Float32

unfoldable pub log_score : Logs → Op → Float32 → Float32
log_score l soft_max v = if ltb_f zero_f v then l.log v else minus_infinity
log_score l op v = v

unfoldable pub scores_of : Logs → ℕ → ℕ → Tensor → Option Scores
scores_of l nu nt null = none
scores_of l nu nt (tensor op has_data f32 ne0 ne1 values src) =
    if not has_data || (not f32 || not (ne1 == nt))
    then none
    else if leb ne0 nu
    then none
    else some (record { ne = ne0; row = λ j e. log_score l op (values j e) })

-- The locals lo, hi and any.
pub record Span : Type 0 where
  pub lo : Float32
  pub hi : Float32
  pub any : Bool

unfoldable pub widen : Float32 → Span → Span
widen v s =
    if is_finite v
    then record {
      lo = if not s.any || ltb_f v s.lo then v else s.lo;
      hi = if not s.any || ltb_f s.hi v then v else s.hi;
      any = true;
    }
    else s

unfoldable pub span_from : (ℕ → Float32) → ℕ → ℕ → Span → Span
span_from scores zero e s = s
span_from scores (suc m) e s = span_from scores m (suc e) (widen (scores e) s)

unfoldable pub boost : Arithmetic → Logs → Float32 → Span → Float32
boost a l lambda s = if s.any then a.mul lambda (l.sub s.hi s.lo) else zero_f

unfoldable pub boosted : Arithmetic → (ℕ → Bool) → Float32 → (ℕ → Float32) → ℕ → Float32
boosted a resident b scores e =
    if resident e && is_finite (scores e) then a.add (scores e) b else scores e

-- Whether one of the `m` slots from `k` on names the expert.
unfoldable pub had_from : (ℕ → ℤ) → ℕ → ℕ → ℕ → Bool
had_from row zero k e = false
had_from row (suc m) k e = let rest = had_from row m (suc k) e in (row k ==ℤ pos e) || rest

unfoldable pub changed : (ℕ → ℤ) → ℕ → List ℕ → ℕ
changed row nu [] = 0
changed row nu (e ∷ es) = (if had_from row nu 0 e then 0 else 1) + changed row nu es

-- The writes of the picks to the slots of token `j` from `k` on.
unfoldable pub write_picks : ℕ → List ℕ → ℕ → Slots ℤ → Slots ℤ
write_picks j [] k ids = ids
write_picks j (e ∷ es) k ids = write_picks j es (suc k) (put ids j k (pos e))

pub record Routing : Type 0 where
  pub ids : Slots ℤ
  pub experts_reranked : ℕ
  pub experts_substituted : ℕ

-- A ranking that has as many experts as the routing has slots.
unfoldable pub place : ℕ → ℕ → List ℕ → Routing → Routing
place nu j picks r =
    let counted = record r { experts_reranked = r.experts_reranked + nu } in
    let n = changed (r.ids j) nu picks in
    if not (length picks == nu) then r else if n == 0 then counted else record counted {
      experts_substituted = r.experts_substituted + n;
      ids = write_picks j picks 0 r.ids;
    }

module _ (a : Arithmetic) (l : Logs) (lambda : Float32) (resident : ℕ → Bool) (s : Scores)
    (nu : ℕ) where
  abbrev pub margin : ℕ → Float32
  margin j =
      boost a l lambda
        (span_from (s.row j) s.ne 0 (record { lo = zero_f; hi = zero_f; any = false }))

  abbrev pub ranking : ℕ → List ℕ
  ranking j = rank_top_k (boosted a resident (margin j) (s.row j)) s.ne nu

  unfoldable pub substitute_token : ℕ → Routing → Routing
  substitute_token j r =
      let placed = place nu j (ranking j) r in if ltb_f zero_f (margin j) then placed else r

  unfoldable pub substitute_tokens : ℕ → ℕ → Routing → Routing
  substitute_tokens zero j r = r
  substitute_tokens (suc n) j r = substitute_tokens n (suc j) (substitute_token j r)

-- sub_all_: every expert of the layer.
abbrev pub all_experts : ℕ → List ℤ
all_experts ne = row_from pos ne 0

unfoldable pub is_resident : List ℕ → ℕ → Bool
is_resident res e = elim (get_elem? res e) [ none ↦ false | some r ↦ not (r == route_miss) ]

-- apply_substitute() on the node `t` of a layer of the model; `n_layer` is n_layer_.
unfoldable pub apply_substitute :
    {S : Type 0}
    → Arithmetic
    → Logs
    → ExpertSource S
    → ℕ
    → Float32
    → ℕ
    → ℕ
    → ℕ
    → Tensor
    → Routing
    → S
    → Routing × S
apply_substitute a l src n_layer lambda il nu nt t r x =
    elim (not (ltb il n_layer) || ((nu == 0) || (nt == 0))) [
      | true ↦ (r, x)
      | false ↦ elim (scores_of l nu nt (walk t)) [
        | none ↦ (r, x)
        | some s ↦
            let settled = src.settle_spec x in
            let res = src.query_residency il (all_experts s.ne) settled in
            (substitute_tokens a l lambda (is_resident res) s nu nt 0 r, settled)
      ]
    ]
