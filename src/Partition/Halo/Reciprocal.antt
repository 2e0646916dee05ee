-- ===== src/Partition/Halo/Reciprocal.antt =====
-- `build_contiguous_halo_plans` (crates/hybit-distributed/src/lib.rs) as a whole.
use hybit.Base.{
  ℕ, ◌+◌, ◌≤◌, ◌<◌, ◌≡◌, sym, ap, ◌∙◌, arith, List, [], length, get_or, ok, two_32, eq→==,
}
use hybit.Csr.{Csr32Matrix}
use hybit.Csr.Valid.{IsValid}
use hybit.Partition.{ContiguousPartition, rank_count}
use hybit.Partition.Offsets.{IsPartition, rank_count-eq-ok}
use hybit.Partition.Halo.{HaloPlan, plans_of_requests, check_sizes, build_contiguous_halo_plans}
use hybit.Partition.Halo.Filing.{filed}
use hybit.Partition.Halo.Notes.{message_to, message_from}
use hybit.Partition.Halo.Whole.{ranks, no_plan, IsHaloPlan}
use hybit.Partition.Halo.Made.{Asked, all_ask, delivers}

module _ (matrix : Csr32Matrix) (well : IsValid matrix) (p : ContiguousPartition)
    (v : IsPartition p) (square : matrix.nrows ≡ matrix.ncols)
    (sizes : matrix.nrows ≡ p.global_dofs) (fits : matrix.nrows + matrix.nrows ≤ two_32) where
  -- For a valid matrix, square and of the size of a partition that is well formed, with at most 2^31
  -- rows: `build_contiguous_halo_plans` returns a plan for each rank. The ghosts of a plan are, in
  -- ascending order, exactly the columns that the rank's rows refer to and other ranks own; it
  -- receives from each peer exactly those which that peer owns; the indices of its messages are the places
  -- of their globals in its owned range and among its ghosts; and what one rank sends to another is
  -- what the other receives from it.
  pub build_contiguous_halo_plans-IsHaloPlan :
      (plans : List HaloPlan) × (build_contiguous_halo_plans matrix p ≡ ok plans)
      × (rank_count p ≡ ok (length plans))
      × ((r : ℕ) → r < length plans → IsHaloPlan matrix p r (get_or plans r no_plan))
      × ((a b : ℕ)
          → a < length plans
          → b < length plans
          → message_to b (get_or plans a no_plan).peers
            ≡ message_from a (get_or plans b no_plan).peers)
  unfolding build_contiguous_halo_plans plans_of_requests check_sizes
  build_contiguous_halo_plans-IsHaloPlan =
      let (requests, asked_run, size, all, each0) =
        all_ask matrix well p v square sizes fits (ranks p) 0 (omega arith) in
      let each : (r : ℕ)
          → r < ranks p
          → Asked matrix well p v square sizes fits r (get_or requests r []) =
        λ r lt. let e : 0 + r ≡ r = omega arith in rw e at (each0 r lt) in
      let (notes, filed_run, counted, receives, sends, keys) =
        filed (ranks p) requests (omega (arith, v.few)) size all in
      let (plans, run, many, each_plan, reciprocal) =
        delivers matrix well p v square sizes fits requests size each notes counted receives sends
          keys in
      (
        plans,
        rw
            (
              eq→== matrix.nrows matrix.ncols square,
              eq→== matrix.nrows p.global_dofs sizes,
              rank_count-eq-ok p v,
              asked_run,
              filed_run,
            )
            run,
        rank_count-eq-ok p v ∙ ap ok (sym many),
        λ r lt. each_plan r (omega (arith, many)),
        λ a b a_in b_in. reciprocal a b (omega (arith, many)) (omega (arith, many)),
      )
