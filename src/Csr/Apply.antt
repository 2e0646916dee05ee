-- ===== src/Csr/Apply.antt =====
-- The product with a vector (csr32.rs): its reads on a validated matrix, and its rows.
use hybit.Base.{
  ℕ, ◌+◌, ◌-◌, ◌≤◌, ◌<◌, ◌≡◌, refl, arith, List, map, foldl, length, get_or, range, ok, at-eq-ok,
  try_fold-range, try_map-range, eq→==,
}
use hybit.Core.{F64}
use hybit.Core.Float.{Arithmetic, zero_f64}
use hybit.Csr.{Csr32Matrix, row_range, dot_row_unchecked, dot_entry, apply, check_lengths}
use hybit.Csr.Valid.{IsValid}

-- The positions of the entries of a row.
abbrev pub row_positions : Csr32Matrix → ℕ → List ℕ
row_positions m row =
    range (get_or m.row_ptr row 0) (get_or m.row_ptr (row + 1) 0 - get_or m.row_ptr row 0)

pub row_range-eq-ok :
    (m : Csr32Matrix) (row : ℕ)
    → IsValid m
    → row < m.nrows
    → row_range m row ≡ ok (row_positions m row)
unfolding row_range
row_range-eq-ok m row v h =
    rw
      (
        at-eq-ok m.row_ptr row 0 (omega (arith, v.rows)),
        at-eq-ok m.row_ptr (row + 1) 0 (omega (arith, v.rows)),
      )
      refl

pub positions_fit :
    (m : Csr32Matrix) (row : ℕ)
    → IsValid m
    → row < m.nrows
    → get_or m.row_ptr row 0 + (get_or m.row_ptr (row + 1) 0 - get_or m.row_ptr row 0)
      ≤ length m.values
positions_fit m row v h = omega (
  arith,
  v.ascends row (row + 1) (omega arith) (omega arith),
  v.ascends (row + 1) m.nrows (omega arith) (omega arith),
  v.ends,
)

-- The positions of a row lie inside the entries.
pub position_bound :
    (m : Csr32Matrix) (row p : ℕ)
    → IsValid m
    → row < m.nrows
    → p < get_or m.row_ptr row 0 + (get_or m.row_ptr (row + 1) 0 - get_or m.row_ptr row 0)
    → p < length m.values
position_bound m row p v h lt = omega (arith, positions_fit m row v h)

pub lengths_pass :
    (m : Csr32Matrix) (x y : List F64)
    → length x ≡ m.ncols
    → length y ≡ m.nrows
    → check_lengths m x y ≡ ok tt
lengths_pass m x y wide tall = rw (eq→== _ _ wide, eq→== _ _ tall) refl

module _ (fp : Arithmetic) where
  -- The product of one row with a vector, in the order of its entries.
  abbrev pub row_dot : Csr32Matrix → List F64 → ℕ → F64
  row_dot m x row =
      foldl (λ sum p. fp.add sum (fp.mul (get_or m.values p 0) (get_or x (get_or m.col_idx p 0) 0)))
        zero_f64 (row_positions m row)

  pub dot_row-eq-ok :
      (m : Csr32Matrix) (x : List F64) (row : ℕ)
      → IsValid m
      → length x ≡ m.ncols
      → row < m.nrows
      → dot_row_unchecked fp m row x ≡ ok (row_dot m x row)
  unfolding dot_row_unchecked
  dot_row-eq-ok m x row v wide h = rw (row_range-eq-ok m row v h) (
      try_fold-range (dot_entry fp m x)
        (λ sum p. fp.add sum (fp.mul (get_or m.values p 0) (get_or x (get_or m.col_idx p 0) 0)))
        (get_or m.row_ptr row 0) (get_or m.row_ptr (row + 1) 0 - get_or m.row_ptr row 0) zero_f64
        entry)
    where
      entry :
          (sum : F64) (p : ℕ)
          → get_or m.row_ptr row 0 ≤ p
          → p < get_or m.row_ptr row 0 + (get_or m.row_ptr (row + 1) 0 - get_or m.row_ptr row 0)
          → dot_entry fp m x sum p
            ≡ ok (fp.add sum (fp.mul (get_or m.values p 0) (get_or x (get_or m.col_idx p 0) 0)))
      entry sum p le lt =
          let inside = position_bound m row p v h lt in
          let narrow : p < length m.col_idx = omega (arith, v.entries) in
          rw
            (
              at-eq-ok m.values p 0 inside,
              at-eq-ok m.col_idx p 0 narrow,
              at-eq-ok x (get_or m.col_idx p 0) 0 (omega (arith, v.columns p narrow)),
            )
            refl

  -- On a validated matrix and vectors of its dimensions `apply` reads nothing out of range, and
  -- stores in each row the sum of its products in the order of the entries.
  pub apply-eq-ok :
      (m : Csr32Matrix) (x y : List F64)
      → IsValid m
      → length x ≡ m.ncols
      → length y ≡ m.nrows
      → apply fp m x y ≡ ok (map (row_dot m x) (range 0 m.nrows))
  unfolding apply
  apply-eq-ok m x y v wide tall =
      rw (lengths_pass m x y wide tall, tall)
        (try_map-range (λ row. dot_row_unchecked fp m row x) (row_dot m x) 0 m.nrows
          (λ row le lt. dot_row-eq-ok m x row v wide (omega arith)))
