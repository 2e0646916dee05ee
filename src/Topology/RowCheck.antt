-- ===== src/Topology/RowCheck.antt =====
-- The loop over one row in `AbtmTopology::validate` (topology.rs).
use hybit.Base.{
  ℕ, zero, suc, ◌+◌, ◌-◌, ◌≤◌, ◌<◌, ◌≡◌, refl, sym, ap, ◌∙◌, arith, false, ◌||◌, ◌==◌, ltb, length,
  get_or, range, Option, none, ok, at-eq-ok, ◌>>=◌, ◌>>◌, try_fold, two_64, Bool-cases, inl, inr,
  fail_if, >>=-eq-ok, fail_if-eq-ok, le→ltb, eq→==, try_fold_follows, try_fold_traces,
}
use hybit.Core.{Result, invalid_matrix}
use hybit.Topology.{AbtmTopology, check_word, check_row}
use hybit.Topology.Check.{IsWordAt, previous, counts_at, check_word-IsWordAt, IsWordAt-check_word}

-- The bits that are set in the first p masks.
abbrev pub bits_before : AbtmTopology → ℕ → ℕ
bits_before t zero = 0
bits_before t (suc p) = bits_before t p + counts_at t p

abbrev pub ptr : AbtmTopology → ℕ → ℕ
ptr t r = get_or t.row_word_ptr r 0

pub record IsRowAt (t : AbtmTopology) (r : ℕ) : Type 0 where
  pub ascends : ptr t r ≤ ptr t (r + 1)
  pub within : ptr t (r + 1) ≤ length t.masks
  pub words : (p : ℕ) → ptr t r ≤ p → p < ptr t (r + 1) → IsWordAt t (ptr t r) p

abbrev states : AbtmTopology → ℕ → ℕ → Option ℕ × ℕ
states t start p = (previous t start p, bits_before t p)

pub bits_mono : (t : AbtmTopology) (p q : ℕ) → p ≤ q → bits_before t p ≤ bits_before t q
bits_mono t p zero le = let e : p ≡ 0 = omega arith in rw e (omega arith)
bits_mono t p (suc q) le = elim (Bool-cases (p == suc q)) [
  | inl same ↦ let e : p ≡ suc q = ground arith in rw e (omega arith)
  | inr other ↦ let step = bits_mono t p q (ground arith) in omega arith
]

-- The machine's bounds on the sizes and the words.
pub record Fits (t : AbtmTopology) : Type 0 where
  pub rows_fit : t.nrows + 1 < two_64
  pub columns_fit : t.ncols < two_64
  pub nnz_fits : t.structural_nnz < two_64
  pub narrow : (i : ℕ) → get_or t.masks i 0 < two_64

first_state : (t : AbtmTopology) (start : ℕ) → states t start start ≡ (none, bits_before t start)
first_state t start = rw (eq→== start start refl) refl

module _ (t : AbtmTopology) (pairs : length t.word_indices ≡ length t.masks)
    (size : length t.row_word_ptr ≡ t.nrows + 1) (fits : Fits t) (r : ℕ)
    (inside : r < t.nrows) where
  -- `check_row` once the pointers are read.
  abbrev after_pointers : ℕ → Result ℕ
  after_pointers c = do
    fail_if (ltb (ptr t (r + 1)) (ptr t r) || ltb (length t.masks) (ptr t (r + 1)))
        (invalid_matrix "ABTM topology row pointer is not monotone")
    s ← try_fold (check_word t) (none, c) (range (ptr t r) (ptr t (r + 1) - ptr t r))
    ok s.1

  check_row-eq : (c : ℕ) → check_row t c r ≡ after_pointers c
  unfolding check_row
  check_row-eq c =
      rw
        (
          at-eq-ok t.row_word_ptr r 0 (omega (arith, size)),
          at-eq-ok t.row_word_ptr (r + 1) 0 (omega (arith, size)),
        )
        refl

  pub check_row-IsRowAt :
      (c : ℕ)
      → check_row t (bits_before t (ptr t r)) r ≡ ok c
      → IsRowAt t r × (c ≡ bits_before t (ptr t (suc r)))
  check_row-IsRowAt c h =
      let (_, p1, h1) =
        >>=-eq-ok
          (fail_if (ltb (ptr t (r + 1)) (ptr t r) || ltb (length t.masks) (ptr t (r + 1))) _) _
          (sym (check_row-eq (bits_before t (ptr t r))) ∙ h) in
      let orders =
        fail_if-eq-ok (ltb (ptr t (r + 1)) (ptr t r) || ltb (length t.masks) (ptr t (r + 1))) _
          p1 in
      let (s, run, h2) =
        >>=-eq-ok
          (try_fold (check_word t) (none, bits_before t (ptr t r))
            (range (ptr t r) (ptr t (r + 1) - ptr t r)))
          _ h1 in
      let (up, within) = ordered (ptr t r) (ptr t (r + 1)) (length t.masks) orders in
      let e : ptr t r + (ptr t (r + 1) - ptr t r) ≡ ptr t (r + 1) = omega (arith, up) in
      let (last, words) =
        try_fold_traces (check_word t) (states t (ptr t r)) (IsWordAt t (ptr t r)) (ptr t r)
          (ptr t (r + 1) - ptr t r) s
          (λ p s le lt.
            check_word-IsWordAt t (ptr t r) p (bits_before t p) (omega (arith, e, within)) pairs
              (fits.narrow p) le s)
          (rw (first_state t (ptr t r)) run) in
      (
        record { ascends = up; within = within; words = λ p le lt. words p le (omega (arith, e)) },
        final c s h2 last e,
      )
    where
      ordered : (a b n : ℕ) → (ltb b a || ltb n b) ≡ false → (a ≤ b) × (b ≤ n)
      ordered a b n h = ground arith

      final :
          (c : ℕ) (s : Option ℕ × ℕ)
          → Path (Result ℕ) (ok s.1) (ok c)
          → s ≡ states t (ptr t r) (ptr t r + (ptr t (r + 1) - ptr t r))
          → ptr t r + (ptr t (r + 1) - ptr t r) ≡ ptr t (r + 1)
          → c ≡ bits_before t (ptr t (suc r))
      final c s same last e =
          let next : r + 1 ≡ suc r = omega arith in
          let there : c ≡ s.1 = cc same in
          there ∙ ap (λ (s : Option ℕ × ℕ). s.1) last ∙ ap (bits_before t) (e ∙ ap (ptr t) next)

  pub IsRowAt-check_row :
      IsRowAt t r
      → bits_before t (ptr t (r + 1)) < two_64
      → check_row t (bits_before t (ptr t r)) r ≡ ok (bits_before t (ptr t (suc r)))
  IsRowAt-check_row row small =
      let e : ptr t r + (ptr t (r + 1) - ptr t r) ≡ ptr t (r + 1) = omega (arith, row.ascends) in
      let run =
        try_fold_follows (check_word t) (states t (ptr t r)) (ptr t r) (ptr t (r + 1) - ptr t r)
          (λ p le lt.
            IsWordAt-check_word t (ptr t r) p (bits_before t p) (omega (arith, e, row.within)) pairs
              (fits.narrow p) le fits.columns_fit (row.words p le (omega (arith, e)))
              (omega (arith, bits_mono t (suc p) (ptr t (r + 1)) (omega (arith, e)), small))) in
      let up = le→ltb (ptr t (r + 1)) (ptr t r) row.ascends in
      let within = le→ltb (length t.masks) (ptr t (r + 1)) row.within in
      let next : r + 1 ≡ suc r = omega arith in
      check_row-eq (bits_before t (ptr t r))
      ∙ rw (up, within, rw (first_state t (ptr t r)) at run)
          (ap (λ (k : ℕ). ok (bits_before t k)) (e ∙ ap (ptr t) next))
