-- ===== src/RowStream/Fetch.antt =====
-- moe/row_stream.cpp, fetch_slab() and the loops that call it.
use franken_mo_e_cuda.Prelude.{
  ℕ, ◌+◌, ◌*◌, ◌≤◌, ◌≡◌, ◌≢◌, refl, ap, ◌∙◌, Bool, true, false, ◌&&◌, ◌||◌, none, some, List, [],
  ◌∷◌, arith, ◌==◌, if◌then◌else◌, Bool-cases, inl, inr, Option-cases,
}
use franken_mo_e_cuda.Expert.Sequence.{has}
use franken_mo_e_cuda.RowStream.Layout.{slab_bytes, Window, commit_len, Rows, Os, update_at, Call}
use franken_mo_e_cuda.RowStream.Invariant.{Whole, IsValid, arrive-Listed, renew-Listed}
use franken_mo_e_cuda.RowStream.Ops.{
  touch, arrive, fail, fetch_slab, fetch_all, commit_call, fetch_len,
}

-- The bytes that the slabs which are not yet resident will take.
unfoldable pub lacking : Window → ℕ → (ℕ → ℕ → Bool) → List ℕ → ℕ
lacking c ti resident [] = 0
lacking c ti resident (s ∷ ss) =
    (if resident ti s then 0 else commit_len c ti s) + lacking c ti resident ss

lacking_mono :
    (c : Window) (ti : ℕ) (p q : ℕ → ℕ → Bool) (ss : List ℕ)
    → ((t j : ℕ) → p t j ≡ true → q t j ≡ true)
    → lacking c ti q ss ≤ lacking c ti p ss
unfolding lacking
lacking_mono c ti p q [] h = omega arith
lacking_mono c ti p q (s ∷ ss) h = ground (arith, h ti s, lacking_mono c ti p q ss h)

-- What fetching the slabs `ss` of a table in turn, with the outcome `ok`, makes of the window.
pub record Fetched (c : Window) (ti : ℕ) (ss : List ℕ) (ok : Bool) (w v : Rows) : Type 0 where
  pub same_stamp : v.stamp ≡ w.stamp
  pub same_gen : v.gen ≡ w.gen
  pub same_whole : v.whole ≡ w.whole
  pub more : (t j : ℕ) → w.resident t j ≡ true → v.resident t j ≡ true
  pub got : ok ≡ true → (s : ℕ) → has s ss ≡ true → v.resident ti s ≡ true
  pub fewer : (t j : ℕ) → v.resident t j ≡ true → (w.resident t j || ((t == ti) && has j ss)) ≡ true
  pub errors : v.io_errors ≡ w.io_errors + (if ok then 0 else 1)
  pub bytes : v.resident_bytes ≤ w.resident_bytes + lacking c ti w.resident ss

Fetched-nil : (c : Window) (ti : ℕ) (w : Rows) → Fetched c ti [] true w w
unfolding has lacking
Fetched-nil c ti w = record {
  same_stamp = refl;
  same_gen = refl;
  same_whole = refl;
  more = λ t j h. h;
  got = λ e s h. absurd (cc);
  fewer = λ t j h. ground (arith, h);
  errors = omega arith;
  bytes = omega arith;
}

-- The cases of one fetch: a hit, a refused commit, a read that fails and one that succeeds.
pub data Outcome (c : Window) (ti s : ℕ) (w : Rows) : Bool × Rows → Type 0 where
  hit : w.resident ti s ≡ true → Outcome c ti s w (true, touch ti s w)
  refused :
      w.resident ti s ≡ false
      → (cs : List Call) → Outcome c ti s w (false, fail (record w { calls = cs }))
  unread :
      w.resident ti s ≡ false
      → (cs : List Call) → Outcome c ti s w (arrive c ti s none (record w { calls = cs }))
  arrived :
      w.resident ti s ≡ false
      → (cs : List Call) (got : ℕ)
      → Outcome c ti s w (arrive c ti s (some got) (record w { calls = cs }))

fetch_slab-Outcome :
    (os : Os) (c : Window) (ti s : ℕ) (w : Rows) → Outcome c ti s w (fetch_slab os c ti s w)
unfolding fetch_slab
fetch_slab-Outcome os c ti s w =
    let t = c.tables ti in
    let dst = t.base + s * slab_bytes in
    let off = t.file_off + s * slab_bytes in
    let got = os.reads (commit_call c ti s ∷ w.calls) t.file_idx dst off (fetch_len c ti s) in
    elim (Bool-cases (w.resident ti s)) [
      | inl k ↦ rw (k, fetch_slab) (hit k)
      | inr k ↦ elim (Bool-cases (os.commits w.calls dst (commit_len c ti s))) [
        | inr n ↦ rw (k, n, fetch_slab) (refused k _)
        | inl y ↦ elim (Option-cases got) [
          | inl e ↦ rw (k, y, e, fetch_slab) (unread k _)
          | inr (g, e) ↦ rw (k, y, e, fetch_slab) (arrived k _ g)
        ]
      ]
    ]

Outcome-Fetched :
    {c : Window} {ti s : ℕ} {w : Rows} (r : Bool × Rows)
    → Outcome c ti s w r
    → Fetched c ti (s ∷ []) r.0 w r.1
unfolding has lacking arrive touch fail
Outcome-Fetched r (hit k) = record {
  same_stamp = refl;
  same_gen = refl;
  same_whole = refl;
  more = λ t j h. h;
  got = λ e j h. ground arith;
  fewer = λ t j h. ground arith;
  errors = omega arith;
  bytes = omega arith;
}
Outcome-Fetched r (refused k cs) = record {
  same_stamp = refl;
  same_gen = refl;
  same_whole = refl;
  more = λ t j h. h;
  got = λ e j h. absurd (cc);
  fewer = λ t j h. ground arith;
  errors = omega arith;
  bytes = omega arith;
}
Outcome-Fetched r (unread k cs) = record {
  same_stamp = refl;
  same_gen = refl;
  same_whole = refl;
  more = λ t j h. h;
  got = λ e j h. absurd (cc);
  fewer = λ t j h. ground arith;
  errors = omega arith;
  bytes = omega arith;
}
Outcome-Fetched r (arrived k cs g) = record {
  same_stamp = refl;
  same_gen = refl;
  same_whole = refl;
  more = λ t j h. ground arith;
  got = λ e j h. ground arith;
  fewer = λ t j h. ground arith;
  errors = omega arith;
  bytes = ground arith;
}

Fetched-cons :
    {c : Window} {ti s : ℕ} {ss : List ℕ} {ok : Bool} {w u v : Rows}
    → Fetched c ti (s ∷ []) true w u
    → Fetched c ti ss ok u v
    → Fetched c ti (s ∷ ss) ok w v
unfolding has lacking
Fetched-cons {c} {ti} {s} {ss} {ok} {w} {u} {v} a b = record {
  same_stamp = b.same_stamp ∙ a.same_stamp;
  same_gen = b.same_gen ∙ a.same_gen;
  same_whole = b.same_whole ∙ a.same_whole;
  more = λ t j h. b.more t j (a.more t j h);
  got = λ e j h. elim (Bool-cases (j == s)) [
    | inl k ↦ b.more ti j (a.got refl j (ground (arith, k)))
    | inr k ↦ b.got e j (ground (arith, h))
  ];
  fewer = λ t j h. ground (arith, b.fewer t j h, a.fewer t j);
  errors = omega (arith, a.errors, b.errors);
  bytes = omega (arith, a.bytes, b.bytes, lacking_mono c ti w.resident u.resident ss a.more);
}

-- A refused fetch ends the loop.
Fetched-stop :
    {c : Window} {ti s : ℕ} {ss : List ℕ} {w v : Rows}
    → Fetched c ti (s ∷ []) false w v
    → Fetched c ti (s ∷ ss) false w v
unfolding has lacking
Fetched-stop {c} {ti} {s} {ss} {w} {v} a = record {
  same_stamp = a.same_stamp;
  same_gen = a.same_gen;
  same_whole = a.same_whole;
  more = a.more;
  got = λ e j h. absurd (cc);
  fewer = λ t j h. ground (arith, a.fewer t j h);
  errors = a.errors;
  bytes = omega (arith, a.bytes);
}

pub fetch_all-Fetched :
    (os : Os) (c : Window) (ti : ℕ) (ss : List ℕ) (w : Rows)
    → Fetched c ti ss (fetch_all os c ti ss w).0 w (fetch_all os c ti ss w).1
unfolding fetch_all
fetch_all-Fetched os c ti [] w = Fetched-nil c ti w
fetch_all-Fetched os c ti (s ∷ ss) w =
    let one = Outcome-Fetched _ (fetch_slab-Outcome os c ti s w) in
    elim (Bool-cases (fetch_slab os c ti s w).0) [
      | inl k ↦
          rw (k, fetch_all)
            (Fetched-cons (rw k at one) (fetch_all-Fetched os c ti ss (fetch_slab os c ti s w).1))
      | inr k ↦ rw (k, fetch_all) (Fetched-stop (rw k at one))
    ]

Whole-elsewhere :
    {c : Window} {resident spot : ℕ → ℕ → Bool} (ti s tj : ℕ) (a b : Bool)
    → tj ≢ ti
    → Whole c resident spot tj
    → Whole c (update_at resident ti s a) (update_at spot ti s b) tj
Whole-elsewhere ti s tj a b ne v = record {
  here = λ j h. ground (arith, v.here j h);
  kept = λ j h. ground (arith, v.kept j h);
}

-- A table that is not whole is no other table that is.
apart : (whole : ℕ → Bool) (ti tj : ℕ) → whole ti ≡ false → whole tj ≡ true → tj ≢ ti
apart whole ti tj p q e = absurd (cc)

Outcome-IsValid :
    {c : Window} {ti s : ℕ} {w : Rows} (r : Bool × Rows)
    → Outcome c ti s w r
    → w.whole ti ≡ false
    → IsValid c w
    → IsValid c r.1
unfolding arrive touch fail
Outcome-IsValid {c} {ti} {s} {w} r (hit k) n v =
    let (e, l) = renew-Listed ti s k (v.free ti s n) v.listed in
    record {
      pinned = v.pinned;
      listed = rw e l;
      stamped = v.stamped;
      free = v.free;
      wholes = λ tj h. record {
        here = (v.wholes tj h).here;
        kept =
            (Whole-elsewhere {resident = w.resident} ti s tj true true (apart w.whole ti tj n h)
              (v.wholes tj h)).kept;
      };
    }
Outcome-IsValid r (refused k cs) n v = record {
  pinned = v.pinned;
  listed = v.listed;
  stamped = v.stamped;
  free = v.free;
  wholes = v.wholes;
}
Outcome-IsValid r (unread k cs) n v = record {
  pinned = v.pinned;
  listed = v.listed;
  stamped = v.stamped;
  free = v.free;
  wholes = v.wholes;
}
Outcome-IsValid {c} {ti} {s} {w} r (arrived k cs g) n v =
    let (e, l) = arrive-Listed ti s k v.listed in
    record {
      pinned = v.pinned;
      listed = rw e l;
      stamped = v.stamped;
      free = v.free;
      wholes = λ tj h. Whole-elsewhere ti s tj true true (apart w.whole ti tj n h) (v.wholes tj h);
    }

pub fetch_all-IsValid :
    (os : Os) (c : Window) (ti : ℕ) (ss : List ℕ) (w : Rows)
    → w.whole ti ≡ false
    → IsValid c w
    → IsValid c (fetch_all os c ti ss w).1
unfolding fetch_all
fetch_all-IsValid os c ti [] w n v = v
fetch_all-IsValid os c ti (s ∷ ss) w n v =
    let r = fetch_slab os c ti s w in
    let o = fetch_slab-Outcome os c ti s w in
    let v' : IsValid c r.1 = Outcome-IsValid _ o n v in
    let n' : r.1.whole ti ≡ false = ap (λ f. f ti) (Outcome-Fetched _ o).same_whole ∙ n in
    elim (Bool-cases r.0) [
      | inl k ↦ rw (k, fetch_all) (fetch_all-IsValid os c ti ss r.1 n' v')
      | inr k ↦ rw (k, fetch_all) v'
    ]
