-- ===== src/Expert/Layout.antt =====
-- What moe/expert_stream_source.h fixes for a run: the bound layers, their expert tensors and the
-- reserved buffers. An entry is one expert of one layer; its id is il * n_expert + e.
use franken_mo_e_cuda.Prelude.{ℕ, ◌+◌, ◌*◌, Bool, Option, List, [], ◌∷◌}
use franken_mo_e_cuda.Prelude.Int.{ℤ}

-- `tensor` says whether the slot names a tensor at all; an absent slot keeps nb2 = 0.
pub record ExpertTensorRef : Type 0 where
  pub tensor : Bool
  pub file_off : ℕ
  pub nb2 : ℕ
  pub file_idx : ℤ

pub record LayerExperts : Type 0 where
  pub bound : Bool
  pub proj : ℕ → ExpertTensorRef

-- `lbuf p il` and `slot p` are addresses; `page` is the size of a page of the OS.
pub record Layout : Type 0 where
  pub n_expert : ℕ
  pub n_layer : ℕ
  pub layers : ℕ → LayerExperts
  pub lbuf : ℕ → ℕ → ℕ
  pub slot : ℕ → ℕ
  pub page : ℕ
  pub load_all : Bool
  pub io_threads : ℕ

-- A read of one slice: IoJob. `flag` is -1 for a serial read, an entry id for a speculative one.
pub record IoJob : Type 0 where
  pub dst : ℕ
  pub off : ℕ
  pub nbytes : ℕ
  pub flag : Option ℕ
  pub file : ℤ
  pub expert : ℕ
  pub layer : ℕ
  pub proj : ℕ
  pub spec : Bool

-- The projections of a recipe: MoeRecipe::max_exps is 3.
abbrev pub projections : List ℕ
projections = 0 ∷ 1 ∷ 2 ∷ []

abbrev pub slice_bytes : Layout → ℕ → ℕ → ℕ
slice_bytes c il p = ((c.layers il).proj p).nb2

abbrev pub entry_id : Layout → ℕ → ℕ → ℕ
entry_id c il e = il * c.n_expert + e

abbrev pub n_entry : Layout → ℕ
n_entry c = c.n_layer * c.n_expert

abbrev pub sum_slices : Layout → ℕ → List ℕ → ℕ
sum_slices c il [] = 0
sum_slices c il (p ∷ ps) = slice_bytes c il p + sum_slices c il ps

unfoldable pub entry_bytes : Layout → ℕ → ℕ
entry_bytes c il = sum_slices c il projections
