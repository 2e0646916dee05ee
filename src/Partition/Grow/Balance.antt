-- ===== src/Partition/Grow/Balance.antt =====
-- `abtm_region_grow_partition` (partition.rs) returns, and its partition is balanced.
use hybit.Base.{
  ℕ, ◌+◌, ◌/◌, ◌%◌, ◌≤◌, ◌<◌, ◌≡◌, ◌≢◌, ◌⊎◌, refl, sym, ◌∙◌, arith, true, false, ◌||◌, ◌==◌, ltb,
  leb, if◌then◌else◌, List, map, length, range, replicate, any, enumerate, ok, err, try_fold,
  try_map, try_map-range, saturating_add, two_64, two_32, length-map, length-range, eq→==, ne→==,
}
use hybit.Csr.{Csr32Matrix}
use hybit.Topology.Row.{row_popcount}
use hybit.Topology.RowCheck.{Fits}
use hybit.Topology.Valid.{row-eq-ok}
use hybit.Topology.Accepts.{IsReadable-of}
use hybit.Dual
use hybit.Dual.{AbtmDualTopology, total_metadata_bytes}
use hybit.Dual.Valid.{validate-IsDual}
use hybit.Dual.Built.{from_csr32-validate}
use hybit.Region.Growth.{IsSquare}
use hybit.Partition.{
  PartitionAssignment, invalid_rank_count, matrix_must_be_square, unassigned, owned_count,
  from_owners,
}
use hybit.Partition.Assignment.{IsAssignment, IsAssignment-from_owners}
use hybit.Partition.Grow.{
  AbtmPartitionStats, node_degree, balanced_targets, fill_next, check_target,
  abtm_region_grow_partition,
}
use hybit.Partition.Grow.Fill.{row_of}
use hybit.Partition.Grow.Shares.{Phase, Phase-start, fills_all, all_owned, assigned, checked}

module _ (d : AbtmDualTopology) (n : ℕ) (square : IsSquare d n) where
  degree_of : ℕ → ℕ
  degree_of node =
      saturating_add two_64 (row_popcount (row_of d.rows node))
        (row_popcount (row_of d.columns node))

  node_degree-eq-ok : (node : ℕ) → node < n → node_degree d node ≡ ok (degree_of node)
  unfolding node_degree degree_of Dual.row Dual.column
  node_degree-eq-ok node h =
      rw
        (
          row-eq-ok d.rows node square.rows_ok (omega (arith, square.rows_size)),
          row-eq-ok d.columns node square.columns_ok (omega (arith, square.columns_size)),
        )
        refl

  degrees : try_map (node_degree d) (range 0 n) ≡ ok (map degree_of (range 0 n))
  degrees =
      try_map-range (node_degree d) degree_of 0 n (λ p le lt. node_degree-eq-ok p (omega arith))

IsSquare-of :
    (matrix : Csr32Matrix) (d : AbtmDualTopology)
    → Dual.from_csr32 matrix ≡ ok d
    → Fits d.rows
    → Fits d.columns
    → matrix.nrows ≡ matrix.ncols
    → IsSquare d matrix.nrows
IsSquare-of matrix d built rows_fit columns_fit same =
    let (accepted, size) = from_csr32-validate matrix d built in
    let dual = (validate-IsDual d rows_fit columns_fit).0 accepted in
    record {
      rows_ok = IsReadable-of d.rows rows_fit dual.rows_ok;
      columns_ok = IsReadable-of d.columns columns_fit dual.columns_ok;
      rows_size = size.rows;
      row_width = size.columns ∙ sym same;
      columns_size = dual.columns_as_rows ∙ size.columns ∙ sym same;
    }

refusal :
    (n ranks : ℕ)
    → (ranks ≡ 0) ⊎ (ranks ≡ unassigned) ⊎ (n < ranks)
    → ((ranks == 0) || (ranks == unassigned) || (n == 0) || ltb n ranks) ≡ true
refusal n ranks h = ground arith

accepted :
    (n ranks : ℕ)
    → 0 < ranks
    → ranks ≢ unassigned
    → ranks ≤ n
    → ((ranks == 0) || (ranks == unassigned) || (n == 0) || ltb n ranks) ≡ false
accepted n ranks some_rank marked enough = ground arith

abbrev share_of : ℕ → ℕ → ℕ → ℕ
share_of n ranks r = n / ranks + (if ltb r (n % ranks) then 1 else 0)

abbrev no_work : AbtmDualTopology → ℕ → AbtmPartitionStats
no_work d ranks = record {
  ranks = ranks;
  seeds_started = 0;
  disconnected_restarts = 0;
  frontier_nodes_expanded = 0;
  topology_words_visited = 0;
  candidate_neighbor_bits = 0;
  dual_topology_metadata_bytes = total_metadata_bytes (Dual.stats d);
}

module _ (matrix : Csr32Matrix) (ranks : ℕ) (d : AbtmDualTopology)
    (built : Dual.from_csr32 matrix ≡ ok d) (square : IsSquare d matrix.nrows)
    (same : matrix.nrows ≡ matrix.ncols) (some_rank : 0 < ranks) (marked : ranks ≢ unassigned)
    (enough : ranks ≤ matrix.nrows) where
  abbrev degree : List ℕ
  degree = map (degree_of d matrix.nrows square) (range 0 matrix.nrows)

  abbrev targets : List ℕ
  targets = map (share_of matrix.nrows ranks) (range 0 ranks)

  -- The parts of the run, put together.
  run :
      (owners : List ℕ) (stats : AbtmPartitionStats)
      → try_fold
          (fill_next d degree)
          (replicate matrix.nrows unassigned, no_work d ranks)
          (enumerate 0 targets)
        ≡ ok (owners, stats)
      → any (λ owner. owner == unassigned) owners ≡ false
      → from_owners ranks owners ≡ ok (record { ranks = ranks; owners = owners })
      → try_fold (check_target (record { ranks = ranks; owners = owners })) tt (enumerate 0 targets)
        ≡ ok tt
      → abtm_region_grow_partition matrix ranks
        ≡ ok (record { ranks = ranks; owners = owners }, stats)
  unfolding abtm_region_grow_partition balanced_targets
  run owners stats filled owned assigned checked =
      rw
        (
          eq→== _ _ same,
          accepted matrix.nrows ranks some_rank marked enough,
          built,
          degrees d matrix.nrows square,
          filled,
          owned,
          assigned,
          checked,
        )
        refl

  -- The partition, and the shares of its ranks.
  record Balanced (a : PartitionAssignment) : Type 0 where
    pub assignment : IsAssignment a
    pub ranks_are : a.ranks ≡ ranks
    pub size : length a.owners ≡ matrix.nrows
    pub shares : (r : ℕ) → r < ranks → owned_count a r ≡ ok (share_of matrix.nrows ranks r)

  module _ (nodes_fit : matrix.nrows < two_64) (ranks_fit : ranks < two_32)
      (unmarked : ranks < unassigned) where
    sized : length degree ≡ matrix.nrows
    sized =
        length-map (degree_of d matrix.nrows square) (range 0 matrix.nrows)
        ∙ length-range 0 matrix.nrows

    abbrev Done : List ℕ → Type 0
    Done =
        Phase d matrix.nrows ranks square some_rank enough nodes_fit ranks_fit unmarked degree sized
          ranks

    balanced :
        (owners : List ℕ) → Done owners → Balanced (record { ranks = ranks; owners = owners })
    unfolding owned_count
    balanced owners p = record {
      assignment =
          assigned d matrix.nrows ranks square some_rank enough nodes_fit ranks_fit unmarked degree
            sized owners p;
      ranks_are = refl;
      size = p.size;
      shares =
          λ r lt. let inside : leb ranks r ≡ false = ground arith in rw (inside, p.done r lt) refl;
    }

    runs :
        (a : PartitionAssignment) × (stats : AbtmPartitionStats) × (abtm_region_grow_partition
            matrix ranks
          ≡ ok (a, stats))
        × Balanced a
    runs =
        let (owners, stats, filled, p) =
          fills_all d matrix.nrows ranks square some_rank enough nodes_fit ranks_fit unmarked degree
            sized ranks 0 (replicate matrix.nrows unassigned) (no_work d ranks) (omega arith)
            (Phase-start d matrix.nrows ranks square some_rank enough nodes_fit ranks_fit unmarked
              degree sized) in
        let b = balanced owners p in
        (
          record { ranks = ranks; owners = owners },
          stats,
          run owners stats filled
              (all_owned d matrix.nrows ranks square some_rank enough nodes_fit ranks_fit unmarked
                degree sized owners p)
              (IsAssignment-from_owners (record { ranks = ranks; owners = owners }) b.assignment)
              (checked d matrix.nrows ranks square some_rank enough nodes_fit ranks_fit unmarked
                degree sized owners p ranks 0 (omega arith)),
          b,
        )

-- For a matrix of which a dual topology is built, whose sizes fit the machine, and ranks that fit
-- u32: a matrix that is not square is refused, then no ranks, the marker of a DOF without owner and
-- more ranks than rows. Otherwise `abtm_region_grow_partition` returns an assignment of all DOFs to
-- that many ranks, in which every rank owns the quotient of DOFs and ranks, and each of the first
-- ranks, as many as the remainder, one DOF more.
pub abtm_region_grow_partition-owned_count :
    (matrix : Csr32Matrix) (ranks : ℕ) (d : AbtmDualTopology)
    → Dual.from_csr32 matrix ≡ ok d
    → Fits d.rows
    → Fits d.columns
    → ranks < two_32
    → (matrix.nrows ≢ matrix.ncols
        → abtm_region_grow_partition matrix ranks
          ≡ err (matrix_must_be_square matrix.nrows matrix.ncols))
      × (matrix.nrows ≡ matrix.ncols
          → (ranks ≡ 0) ⊎ (ranks ≡ unassigned) ⊎ (matrix.nrows < ranks)
          → abtm_region_grow_partition matrix ranks ≡ err invalid_rank_count)
      × (matrix.nrows ≡ matrix.ncols
          → 0 < ranks
          → ranks ≢ unassigned
          → ranks ≤ matrix.nrows
          → (a : PartitionAssignment) × (stats : AbtmPartitionStats) × (abtm_region_grow_partition
                matrix ranks
              ≡ ok (a, stats))
            × IsAssignment a
            × (a.ranks ≡ ranks)
            × (length a.owners ≡ matrix.nrows)
            × ((r : ℕ)
                → r < ranks
                → owned_count a r
                  ≡ ok (matrix.nrows / ranks + (if ltb r (matrix.nrows % ranks) then 1 else 0))))
unfolding abtm_region_grow_partition
abtm_region_grow_partition-owned_count matrix ranks d built rows_fit columns_fit ranks_fit = (
  λ other. rw (ne→== _ _ other) refl,
  λ same bad. rw (eq→== _ _ same, refusal matrix.nrows ranks bad) refl,
  λ same some_rank marked enough.
      let square = IsSquare-of matrix d built rows_fit columns_fit same in
      let size = (from_csr32-validate matrix d built).1 in
      let (a, stats, run, b) =
        runs matrix ranks d built square same some_rank marked enough
          (omega (arith, rows_fit.rows_fit, size.rows)) ranks_fit (omega arith) in
      (a, stats, run, b.assignment, b.ranks_are, b.size, b.shares),
)
