-- ===== src/Ngram/Tests.antt =====
-- The n-gram draft on a repeating text.
use franken_mo_e_cuda.Prelude.{◌≡◌, ◌≤◌, ◌⊎◌, refl, List, [], ◌∷◌, arith, length}
use franken_mo_e_cuda.Prelude.Int.{ℤ, pos, negsuc, pos_part}
use franken_mo_e_cuda.Ngram.{ngram_draft, draft, scan, consider, grow, copy, at}
use franken_mo_e_cuda.Ngram.Drafts.{IsDraft, IsDeclined, ngram_draft-cases, ngram_draft_bounds}

abbrev text : List ℤ
text = pos 1 ∷ pos 2 ∷ pos 3 ∷ pos 1 ∷ pos 2 ∷ []

-- `1 2 3` ends the corpus and occurs at its start; `1 2` follows it.
repeats : ngram_draft text (pos 3) (pos 2) (pos 2) (pos 8) ≡ (2, pos 1 ∷ pos 2 ∷ [])
unfolding ngram_draft draft scan consider grow copy at
repeats = refl

no_match : ngram_draft text (pos 9) (pos 2) (negsuc 4) (pos 8) ≡ (0, [])
unfolding ngram_draft draft scan consider grow copy at
no_match = refl

ngram_draft-cases_example :
    IsDraft text (pos 3) 2 2 8 (ngram_draft text (pos 3) (pos 2) (pos 2) (pos 8))
    ⊎ IsDeclined text (pos 3) 2 8 (ngram_draft text (pos 3) (pos 2) (pos 2) (pos 8))
ngram_draft-cases_example =
    ngram_draft-cases text (pos 3) 2 2 8 (omega arith) (omega arith) (omega arith)

ngram_draft_bounds_example :
    let r = ngram_draft text (pos 3) (pos 2) (negsuc 4) (pos 8) in
    (length r.1 ≡ r.0) × (r.0 ≤ pos_part (pos 2)) × (r.0 ≤ length text)
ngram_draft_bounds_example = ngram_draft_bounds text (pos 3) (pos 2) (negsuc 4) (pos 8)
