-- ===== src/Topology/Accepts.antt =====
-- `AbtmTopology::validate` (topology.rs) against the well-formed topologies.
use hybit.Base.{
  ℕ, ◌+◌, ◌<◌, ◌≡◌, ◌↔◌, refl, sym, ap, ◌∙◌, arith, true, false, not, ◌==◌, List, [], ◌∷◌, length,
  get_or, first?, last?, range, ok, try_fold, unwrap_or, saturating_add, two_64, fail_if, >>=-eq-ok,
  fail_if-eq-ok, eq→==, try_fold_follows, try_fold_traces,
}
use hybit.Csr.Valid.{last_get_or}
use hybit.Topology.{AbtmTopology, check_row, validate}
use hybit.Topology.Valid.{IsReadable}
use hybit.Topology.RowCheck.{
  bits_before, ptr, IsRowAt, Fits, bits_mono, check_row-IsRowAt, IsRowAt-check_row,
}

pub record IsWellFormed (t : AbtmTopology) : Type 0 where
  pub size : length t.row_word_ptr ≡ t.nrows + 1
  pub starts : ptr t 0 ≡ 0
  pub pairs : length t.word_indices ≡ length t.masks
  pub ends : ptr t t.nrows ≡ length t.masks
  pub rows : (r : ℕ) → r < t.nrows → IsRowAt t r
  pub count : bits_before t (length t.masks) ≡ t.structural_nnz

module _ (t : AbtmTopology) (fits : Fits t) where
  accepts-IsWellFormed : validate t ≡ ok tt → IsWellFormed t
  unfolding validate
  accepts-IsWellFormed h =
      let (_, p1, h1) =
        >>=-eq-ok (fail_if (not (length t.row_word_ptr == saturating_add two_64 t.nrows 1)) _) _
          h in
      let (_, p2, h2) =
        >>=-eq-ok (fail_if (not (unwrap_or (first? t.row_word_ptr) 1 == 0)) _) _ h1 in
      let (_, p3, h3) =
        >>=-eq-ok (fail_if (not (length t.word_indices == length t.masks)) _) _ h2 in
      let (_, p4, h4) =
        >>=-eq-ok (fail_if (not (unwrap_or (last? t.row_word_ptr) 0 == length t.masks)) _) _ h3 in
      let (counted, p5, h5) = >>=-eq-ok (try_fold (check_row t) 0 (range 0 t.nrows)) _ h4 in
      let (_, p6, _) = >>=-eq-ok (fail_if (not (counted == t.structural_nnz)) _) _ h5 in
      let size : length t.row_word_ptr ≡ t.nrows + 1 =
        sizes (length t.row_word_ptr) t.nrows fits.rows_fit
          (fail_if-eq-ok (not (length t.row_word_ptr == saturating_add two_64 t.nrows 1)) _ p1) in
      let starts : ptr t 0 ≡ 0 =
        first_get t.row_word_ptr
          (fail_if-eq-ok (not (unwrap_or (first? t.row_word_ptr) 1 == 0)) _ p2) in
      let pairs : length t.word_indices ≡ length t.masks =
        equal _ _ (fail_if-eq-ok (not (length t.word_indices == length t.masks)) _ p3) in
      let ends_with : unwrap_or (last? t.row_word_ptr) 0 ≡ length t.masks =
        equal _ _
          (fail_if-eq-ok (not (unwrap_or (last? t.row_word_ptr) 0 == length t.masks)) _ p4) in
      let ends : ptr t t.nrows ≡ length t.masks =
        sym (last_get_or t.row_word_ptr t.nrows (size ∙ omega arith)) ∙ ends_with in
      let begin : 0 ≡ bits_before t (ptr t 0) = sym (ap (bits_before t) starts) in
      let (total, rows) =
        try_fold_traces (check_row t) (λ r. bits_before t (ptr t r)) (IsRowAt t) 0 t.nrows counted
          (λ r c le lt. check_row-IsRowAt t pairs size fits r (omega arith) c)
          (rw (sym begin) p5) in
      let all : 0 + t.nrows ≡ t.nrows = omega arith in
      record {
        size = size;
        starts = starts;
        pairs = pairs;
        ends = ends;
        rows = λ r lt. rows r (omega arith) (omega arith);
        count =
            sym (ap (bits_before t) ends)
            ∙ sym (total ∙ ap (λ (r : ℕ). bits_before t (ptr t r)) all)
            ∙ equal counted t.structural_nnz
                (fail_if-eq-ok (not (counted == t.structural_nnz)) _ p6);
      }
    where
      sizes : (l n : ℕ) → n + 1 < two_64 → not (l == saturating_add two_64 n 1) ≡ false → l ≡ n + 1
      sizes l n small h = ground arith

      first_get : (xs : List ℕ) → not (unwrap_or (first? xs) 1 == 0) ≡ false → get_or xs 0 0 ≡ 0
      first_get [] h = refl
      first_get (x ∷ xs) h = ground arith

      equal : (a b : ℕ) → not (a == b) ≡ false → a ≡ b
      equal a b h = ground arith

  IsWellFormed-accepts : IsWellFormed t → validate t ≡ ok tt
  unfolding validate
  IsWellFormed-accepts w =
      let last = last_get_or t.row_word_ptr t.nrows (w.size ∙ omega arith) ∙ w.ends in
      let all : 0 + t.nrows ≡ t.nrows = omega arith in
      let run =
        try_fold_follows (check_row t) (λ r. bits_before t (ptr t r)) 0 t.nrows
          (λ r le lt.
            let inside : r < t.nrows = omega arith in
            IsRowAt-check_row t w.pairs w.size fits r inside (w.rows r inside) (
              omega (
                arith,
                bits_mono t (ptr t (r + 1)) (length t.masks) (w.rows r inside).within,
                w.count,
                fits.nnz_fits,
              ))) in
      let run' : try_fold (check_row t) 0 (range 0 t.nrows) ≡ ok (bits_before t (ptr t t.nrows)) =
        rw (w.starts, all) at run in
      rw
        (
          sizes (length t.row_word_ptr) t.nrows fits.rows_fit w.size,
          first_test t.row_word_ptr (omega (arith, w.size)) w.starts,
          eq→== _ _ w.pairs,
          eq→== _ _ last,
          run',
          eq→== _ _ (ap (bits_before t) w.ends ∙ w.count),
        )
        refl
    where
      sizes : (l n : ℕ) → n + 1 < two_64 → l ≡ n + 1 → (l == saturating_add two_64 n 1) ≡ true
      sizes l n small h = ground arith

      first_test :
          (xs : List ℕ) → 0 < length xs → get_or xs 0 0 ≡ 0 → (unwrap_or (first? xs) 1 == 0) ≡ true
      first_test [] lt h = absurd (omega arith)
      first_test (x ∷ xs) lt h = ground arith

-- On sizes that fit the machine, `validate` accepts exactly the topologies with one row pointer per
-- row and one more, from 0 up to the number of words without a descent, whose rows hold nonempty
-- words in strictly ascending places with every bit inside the columns, and whose stored number of
-- entries is the number of bits that are set.
pub validate-IsWellFormed : (t : AbtmTopology) → Fits t → (validate t ≡ ok tt) ↔ IsWellFormed t
validate-IsWellFormed t fits = (accepts-IsWellFormed t fits, IsWellFormed-accepts t fits)

-- Every row of a well-formed topology can be read.
pub IsReadable-of : (t : AbtmTopology) → Fits t → IsWellFormed t → IsReadable t
IsReadable-of t fits w = record {
  size = w.size;
  ascends = λ r lt. (w.rows r lt).ascends;
  within = λ r lt. (w.rows r lt).within;
  pairs = w.pairs;
  narrow = fits.narrow;
}
