-- ===== src/Csr/DiagonalRows.antt =====
-- The rows of the loop in `diagonal` (csr32.rs).
use hybit.Base.{
  ℕ, zero, suc, ◌+◌, ◌-◌, ◌≤◌, ◌<◌, ◌≡◌, refl, ◌∙◌, arith, Bool, true, false, ◌||◌, ◌==◌, ltb,
  if◌then◌else◌, List, [], ◌∷◌, length, get_or, set, replicate, range, set_self, set-set,
  get_or-set_self, length-set, length-replicate, filled_next, get_or-replicate, ok, at-eq-ok,
  try_fold, lt→ltb, Bool-cases, inl, inr, any,
}
use hybit.Core.{F64, Result}
use hybit.Core.Float.{Arithmetic, zero_f64}
use hybit.Csr.{Csr32Matrix, diagonal_entry, diagonal_row}
use hybit.Csr.Valid.{IsValid}
use hybit.Csr.Apply.{row_positions, row_range-eq-ok, positions_fit}

-- Some stored entry among the positions lies in the given column.
abbrev pub has_column : Csr32Matrix → ℕ → List ℕ → Bool
has_column m col ps = any (λ p. get_or m.col_idx p 0 == col) ps

abbrev pub has_diagonal : Csr32Matrix → ℕ → Bool
has_diagonal m row = has_column m row (row_positions m row)

module _ (fp : Arithmetic) where
  -- The sum of the entries in the given column, from a start, in their order.
  pub column_sum : Csr32Matrix → ℕ → F64 → List ℕ → F64
  column_sum m col s [] = s
  column_sum m col s (p ∷ ps) =
      column_sum m col (if get_or m.col_idx p 0 == col then fp.add s (get_or m.values p 0) else s)
        ps

  column_sum-hit :
      (m : Csr32Matrix) (col p : ℕ) (s : F64) (ps : List ℕ)
      → (get_or m.col_idx p 0 == col) ≡ true
      → column_sum m col s (p ∷ ps) ≡ column_sum m col (fp.add s (get_or m.values p 0)) ps
  unfolding column_sum
  column_sum-hit m col p s ps h = rw h refl

  column_sum-miss :
      (m : Csr32Matrix) (col p : ℕ) (s : F64) (ps : List ℕ)
      → (get_or m.col_idx p 0 == col) ≡ false
      → column_sum m col s (p ∷ ps) ≡ column_sum m col s ps
  unfolding column_sum
  column_sum-miss m col p s ps h = rw h refl

  column_sum-nil : (m : Csr32Matrix) (col : ℕ) (s : F64) → column_sum m col s [] ≡ s
  unfolding column_sum
  column_sum-nil m col s = refl

  abbrev pub diagonal_sum : Csr32Matrix → ℕ → F64
  diagonal_sum m row = column_sum m row zero_f64 (row_positions m row)

module _ (fp : Arithmetic) (m : Csr32Matrix) (v : IsValid m) where
  -- The entries of one row change the sum and the flag of that row only.
  row_loop :
      (row i n : ℕ) (sums : List F64) (flags : List Bool)
      → i + n ≤ length m.values
      → row < length sums
      → row < length flags
      → try_fold (diagonal_entry fp m row) (sums, flags) (range i n)
        ≡ ok (
          set sums row (column_sum fp m row (get_or sums row 0) (range i n)),
          set flags row (get_or flags row false || has_column m row (range i n)),
        )
  unfolding try_fold
  row_loop row i zero sums flags fits hs hf =
      let flag : (get_or flags row false || false) ≡ get_or flags row false = ground arith in
      rw
        (
          flag,
          column_sum-nil fp m row (get_or sums row 0),
          set_self sums row 0,
          set_self flags row false,
        )
        refl
  row_loop row i (suc n) sums flags fits hs hf =
      let inside : i < length m.values = omega arith in
      let narrow : i < length m.col_idx = omega (arith, v.entries) in
      elim (Bool-cases (get_or m.col_idx i 0 == row)) [
        | inl here ↦
            let s' : F64 = fp.add (get_or sums row 0) (get_or m.values i 0) in
            let set_flag : (get_or flags row false || true) ≡ true = ground arith in
            rw
              (
                at-eq-ok m.col_idx i 0 narrow,
                here,
                at-eq-ok sums row 0 hs,
                at-eq-ok m.values i 0 inside,
                lt→ltb row (length sums) hs,
                lt→ltb row (length flags) hf,
                row_loop row (suc i) n (set sums row s') (set flags row true) (omega arith)
                    (rw length-set hs) (rw length-set hf),
                get_or-set_self sums row s' 0 hs,
                get_or-set_self flags row true false hf,
                set-set sums row s' (column_sum fp m row s' (range (suc i) n)),
                set-set flags row true true,
                set_flag,
                column_sum-hit fp m row i (get_or sums row 0) (range (suc i) n) here,
              )
              refl
        | inr other ↦
            rw
              (
                at-eq-ok m.col_idx i 0 narrow,
                other,
                column_sum-miss fp m row i (get_or sums row 0) (range (suc i) n) other,
              )
              (row_loop row (suc i) n sums flags (omega arith) hs hf)
      ]

  -- After `row` rounds: the rows before it have their sums and flags, the others nothing.
  pub record Filled (row : ℕ) (s : List F64 × List Bool) : Type 0 where
    pub sums_size : length s.0 ≡ m.nrows
    pub flags_size : length s.1 ≡ m.nrows
    pub sums_at : (i : ℕ) → get_or s.0 i 0 ≡ (if ltb i row then diagonal_sum fp m i else zero_f64)
    pub flags_at : (i : ℕ) → get_or s.1 i false ≡ (if ltb i row then has_diagonal m i else false)

  pub Filled-zero : Filled 0 (replicate m.nrows zero_f64, replicate m.nrows false)
  Filled-zero = record {
    sums_size = length-replicate m.nrows zero_f64;
    flags_size = length-replicate m.nrows false;
    sums_at = λ i. rw get_or-replicate (ground arith);
    flags_at = λ i. rw get_or-replicate (ground arith);
  }

  pub Filled-suc :
      (s : List F64 × List Bool) (row : ℕ)
      → row < m.nrows
      → Filled row s
      → (t : List F64 × List Bool) × (diagonal_row fp m s row ≡ ok t) × Filled (suc row) t
  Filled-suc s row h f = (
    (set s.0 row (diagonal_sum fp m row), set s.1 row (has_diagonal m row)),
    rw (row_range-eq-ok m row v h) (
        row_loop row (get_or m.row_ptr row 0)
          (get_or m.row_ptr (row + 1) 0 - get_or m.row_ptr row 0) s.0 s.1 (positions_fit m row v h)
          (rw f.sums_size h) (rw f.flags_size h)
        ∙ start),
    record {
      sums_size = length-set s.0 row (diagonal_sum fp m row) ∙ f.sums_size;
      flags_size = length-set s.1 row (has_diagonal m row) ∙ f.flags_size;
      sums_at = λ i. filled_next (diagonal_sum fp m) s.0 row i 0 (rw f.sums_size h) (f.sums_at i);
      flags_at =
          λ i. filled_next (has_diagonal m) s.1 row i false (rw f.flags_size h) (f.flags_at i);
    },
  )
    where
      zero_sum : get_or s.0 row 0 ≡ zero_f64
      zero_sum = f.sums_at row ∙ ground arith

      no_flag : get_or s.1 row false ≡ false
      no_flag = f.flags_at row ∙ ground arith

      start :
          ◌≡◌ {A = Result (List F64 × List Bool)}
            (ok (
              set s.0 row (column_sum fp m row (get_or s.0 row 0) (row_positions m row)),
              set s.1 row (get_or s.1 row false || has_diagonal m row),
            ))
            (ok (set s.0 row (diagonal_sum fp m row), set s.1 row (has_diagonal m row)))
      start = rw (zero_sum, no_flag) refl
