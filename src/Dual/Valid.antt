-- ===== src/Dual/Valid.antt =====
-- What `AbtmDualTopology::validate` (dual_topology.rs) accepts.
use hybit.Base.{
  ℕ, ◌≡◌, ◌↔◌, refl, arith, Bool, false, not, ◌||◌, ◌==◌, ok, fail_if, >>=-eq-ok, fail_if-eq-ok,
  eq→==,
}
use hybit.Topology
use hybit.Topology.RowCheck.{Fits}
use hybit.Topology.Accepts.{IsWellFormed, validate-IsWellFormed}
use hybit.Dual.{AbtmDualTopology, validate}

pub record IsDual (d : AbtmDualTopology) : Type 0 where
  pub rows_ok : IsWellFormed d.rows
  pub columns_ok : IsWellFormed d.columns
  pub columns_as_rows : d.columns.nrows ≡ d.rows.ncols
  pub rows_as_columns : d.columns.ncols ≡ d.rows.nrows
  pub same_count : d.columns.structural_nnz ≡ d.rows.structural_nnz

module _ (d : AbtmDualTopology) (rows_fit : Fits d.rows) (columns_fit : Fits d.columns) where
  accepts-IsDual : validate d ≡ ok tt → IsDual d
  unfolding validate
  accepts-IsDual h =
      let (_, p1, h1) = >>=-eq-ok (Topology.validate d.rows) _ h in
      let (_, p2, h2) = >>=-eq-ok (Topology.validate d.columns) _ h1 in
      let (_, p3, p4) =
        >>=-eq-ok
          (fail_if (not (d.columns.nrows == d.rows.ncols) || not (d.columns.ncols == d.rows.nrows))
            _)
          _ h2 in
      let dims =
        fail_if-eq-ok
          (not (d.columns.nrows == d.rows.ncols) || not (d.columns.ncols == d.rows.nrows)) _ p3 in
      record {
        rows_ok = (validate-IsWellFormed d.rows rows_fit).0 p1;
        columns_ok = (validate-IsWellFormed d.columns columns_fit).0 p2;
        columns_as_rows = first d.columns.nrows d.rows.ncols _ dims;
        rows_as_columns = second d.columns.ncols d.rows.nrows _ dims;
        same_count =
            equal d.columns.structural_nnz d.rows.structural_nnz
              (fail_if-eq-ok (not (d.columns.structural_nnz == d.rows.structural_nnz)) _ p4);
      }
    where
      first : (a b : ℕ) (c : Bool) → (not (a == b) || c) ≡ false → a ≡ b
      first a b c h = ground arith

      second : (a b : ℕ) (c : Bool) → (c || not (a == b)) ≡ false → a ≡ b
      second a b c h = ground arith

      equal : (a b : ℕ) → not (a == b) ≡ false → a ≡ b
      equal a b h = ground arith

  IsDual-accepts : IsDual d → validate d ≡ ok tt
  unfolding validate
  IsDual-accepts v =
      rw
        (
          (validate-IsWellFormed d.rows rows_fit).1 v.rows_ok,
          (validate-IsWellFormed d.columns columns_fit).1 v.columns_ok,
          eq→== _ _ v.columns_as_rows,
          eq→== _ _ v.rows_as_columns,
          eq→== _ _ v.same_count,
        )
        refl

-- On sizes that fit the machine, `validate` of a dual topology accepts exactly the pairs of
-- well-formed topologies with swapped dimensions and the same number of entries.
pub validate-IsDual :
    (d : AbtmDualTopology) → Fits d.rows → Fits d.columns → (validate d ≡ ok tt) ↔ IsDual d
validate-IsDual d rows_fit columns_fit =
    (accepts-IsDual d rows_fit columns_fit, IsDual-accepts d rows_fit columns_fit)
