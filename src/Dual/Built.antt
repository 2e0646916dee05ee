-- ===== src/Dual/Built.antt =====
-- The topologies that `from_csr32` builds (topology.rs, dual_topology.rs): their sizes, and the check
-- that they have passed.
use hybit.Base.{
  ℕ, ◌-◌, ◌≡◌, refl, not, ◌==◌, ltb, leb, [], ◌∷◌, length, replicate, range, any, first?, last?,
  unwrap_or, ok, fail_if, slice, try_fold, saturating_add, two_64, two_32, >>=-eq-ok,
}
use hybit.Csr
use hybit.Csr.{Csr32Matrix, has_descent}
use hybit.Topology
use hybit.Topology.{AbtmTopology, Filling, empty_filling, finish}
use hybit.Topology.Build
use hybit.Topology.Build.{build_row}
use hybit.Dual.{AbtmDualTopology, count_column, push_running, place_row, validate, from_csr32}

pub record HasSize (nrows ncols : ℕ) (t : AbtmTopology) : Type 0 where
  pub rows : t.nrows ≡ nrows
  pub columns : t.ncols ≡ ncols

abbrev filled : ℕ → ℕ → Filling → AbtmTopology
filled nrows ncols f = record {
  nrows = nrows;
  ncols = ncols;
  row_word_ptr = f.row_word_ptr;
  word_indices = f.word_indices;
  masks = f.masks;
  structural_nnz = f.structural_nnz;
}

finish-HasSize :
    (nrows ncols : ℕ) (f : Filling) (t : AbtmTopology)
    → finish nrows ncols f ≡ ok t
    → HasSize nrows ncols t
unfolding finish
finish-HasSize nrows ncols f t h =
    let (_, _, last) = >>=-eq-ok (Topology.validate (filled nrows ncols f)) _ h in
    let e : t ≡ filled nrows ncols f = cc last in rw e (record { rows = refl; columns = refl })

from_csr32-HasSize :
    (csr : Csr32Matrix) (t : AbtmTopology)
    → Build.from_csr32 csr ≡ ok t
    → HasSize csr.nrows csr.ncols t
unfolding Build.from_csr32 Build.from_structural_csr
from_csr32-HasSize csr t h =
    let (_, _, h0) = >>=-eq-ok (Csr.validate csr) _ h in
    let (_, _, h1) =
      >>=-eq-ok (fail_if (not (length csr.row_ptr == saturating_add two_64 csr.nrows 1)) _) _ h0 in
    let (_, _, h2) = >>=-eq-ok (fail_if (not (unwrap_or (first? csr.row_ptr) 1 == 0)) _) _ h1 in
    let (_, _, h3) = >>=-eq-ok (fail_if (ltb (two_32 - 1) (length csr.col_idx)) _) _ h2 in
    let (_, _, h4) =
      >>=-eq-ok (fail_if (not (unwrap_or (last? csr.row_ptr) 0 == length csr.col_idx)) _) _ h3 in
    let (_, _, h5) = >>=-eq-ok (fail_if (has_descent csr.row_ptr) _) _ h4 in
    let (_, _, h6) = >>=-eq-ok (fail_if (any (λ c. leb csr.ncols c) csr.col_idx) _) _ h5 in
    let (f, _, h7) =
      >>=-eq-ok (try_fold (build_row csr.row_ptr csr.col_idx) empty_filling (range 0 csr.nrows)) _
        h6 in
    finish-HasSize csr.nrows csr.ncols f t h7

-- The check that a dual topology passes when it is built.
pub from_csr32-validate :
    (csr : Csr32Matrix) (d : AbtmDualTopology)
    → from_csr32 csr ≡ ok d
    → (validate d ≡ ok tt) × HasSize csr.nrows csr.ncols d.rows
unfolding from_csr32
from_csr32-validate csr d h =
    let (_, _, h0) = >>=-eq-ok (Csr.validate csr) _ h in
    let (rows, built, h1) = >>=-eq-ok (Build.from_csr32 csr) _ h0 in
    let (counts, _, h2) =
      >>=-eq-ok (try_fold count_column (replicate csr.ncols 0) csr.col_idx) _ h1 in
    let (p, _, h3) = >>=-eq-ok (try_fold push_running (0 ∷ [], 0) counts) _ h2 in
    let (cursors, _, h4) = >>=-eq-ok (slice p.0 0 csr.ncols) _ h3 in
    let (q, _, h5) =
      >>=-eq-ok
        (try_fold (place_row csr) (replicate (length csr.values) 0, cursors) (range 0 csr.nrows)) _
        h4 in
    let (columns, _, h6) = >>=-eq-ok (Build.from_structural_csr csr.ncols csr.nrows p.0 q.0) _ h5 in
    let (u, checked, last) =
      >>=-eq-ok (validate (record { rows = rows; columns = columns })) _ h6 in
    let e : d ≡ record { rows = rows; columns = columns } = cc last in
    rw e (checked, from_csr32-HasSize csr rows built)
