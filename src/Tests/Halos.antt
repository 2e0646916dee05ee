-- ===== src/Tests/Halos.antt =====
-- The halo plans of the unit test `duplicate_remote_columns_collapse_to_one_ghost` of lib.rs, and the
-- theorems on requests and on plans at it.
use hybit.Base.{
  ◌<◌, get_or, ℕ, ◌≡◌, refl, arith, List, [], ◌∷◌, length, replicate, enumerate, ok, try_fold,
  try_map,
}
use hybit.Csr.{Csr32Matrix}
use hybit.Core
use hybit.Core.{F64}
use hybit.Csr
use hybit.Csr.Valid.{IsValid, validate_iff}
use hybit.Partition.Halo.Exchange.{
  simulated_distributed_spmv, prepare_rank_local_csr, simulate_halo_exchange, rank_product,
}
use hybit.Tests.Matrices.{patterns}
use hybit.SortedMap.{insert, modify, lookup}
use hybit.Partition.Telemetry.{partition_telemetry, partition_telemetry_assignment}
use hybit.Partition.{
  PartitionAssignment, owner_of, ContiguousPartition, owned_range, contiguous_owner_of, rank_count,
  from_offsets,
}
use hybit.Partition.Offsets.{IsPartition, from_offsets_iff}
use hybit.Partition.Halo.{
  HaloPlan, owned_len, rank_plan, find_peer, Requests, Peers, rank_requests, file_requests,
  build_contiguous_halo_plans,
}
use hybit.Partition.Halo.Filing.{received, sent, requested, file_requests-requested}
use hybit.Partition.Halo.Slots.{all_received}
use hybit.Partition.Halo.Notes.{message_to, message_from}
use hybit.Partition.Halo.Whole.{no_plan, IsHaloPlan}
use hybit.Partition.Halo.Reciprocal.{build_contiguous_halo_plans-IsHaloPlan}
use hybit.Partition.Halo.Plan.{ArePeerPlans, rank_plan-ArePeerPlans}
use hybit.Partition.Halo.Wanted.{Wants, Seen, rank_requests-Wants}

abbrev repeated : Csr32Matrix
repeated = record {
  nrows = 4;
  ncols = 4;
  row_ptr = 0 ∷ 1 ∷ 5 ∷ 8 ∷ 9 ∷ [];
  col_idx = 0 ∷ 0 ∷ 1 ∷ 2 ∷ 2 ∷ 1 ∷ 2 ∷ 3 ∷ 3 ∷ [];
  values = replicate 9 0x3ff0000000000000;
}

abbrev two_halves : ContiguousPartition
two_halves = record { global_dofs = 4; offsets = 0 ∷ 2 ∷ 4 ∷ [] }

abbrev halo_plans : List HaloPlan
halo_plans =
    record {
      rank = 0;
      owned = (0, 2);
      ghost_globals = 2 ∷ [];
      ghost_owners = 1 ∷ [];
      peers =
          record {
            peer = 1;
            send_globals = 1 ∷ [];
            send_owned_indices = 1 ∷ [];
            recv_globals = 2 ∷ [];
            recv_extended_indices = 2 ∷ [];
          }
          ∷ [];
    }
    ∷ record {
      rank = 1;
      owned = (2, 4);
      ghost_globals = 1 ∷ [];
      ghost_owners = 0 ∷ [];
      peers =
          record {
            peer = 0;
            send_globals = 2 ∷ [];
            send_owned_indices = 0 ∷ [];
            recv_globals = 1 ∷ [];
            recv_extended_indices = 2 ∷ [];
          }
          ∷ [];
    }
    ∷ []

halo_tests : build_contiguous_halo_plans repeated two_halves ≡ ok halo_plans
unfolding build_contiguous_halo_plans try_fold try_map owned_range contiguous_owner_of rank_count
    insert modify lookup
halo_tests = refl

unwrap : Core.Result (List F64) → List F64
unwrap result = elim result [ ok ys ↦ ys | _ ↦ [] ]

-- The distributed product has the rows of the serial one.
product_tests :
    simulated_distributed_spmv patterns repeated two_halves (1 ∷ 2 ∷ 3 ∷ 4 ∷ [])
    ≡ ok (unwrap (Csr.spmv patterns repeated (1 ∷ 2 ∷ 3 ∷ 4 ∷ [])))
unfolding simulated_distributed_spmv prepare_rank_local_csr simulate_halo_exchange rank_product
    build_contiguous_halo_plans try_fold try_map owned_range contiguous_owner_of rank_count insert
    modify lookup Csr.spmv unwrap find_peer
product_tests = refl

abbrev halves_owners : PartitionAssignment
halves_owners = record { ranks = 2; owners = 0 ∷ 0 ∷ 1 ∷ 1 ∷ [] }

-- As in the unit test `assignment_telemetry_matches_contiguous_g8_a2_metrics`.
telemetry_tests :
    partition_telemetry patterns repeated two_halves halo_plans
    ≡ partition_telemetry_assignment patterns repeated halves_owners
unfolding partition_telemetry partition_telemetry_assignment try_fold owned_range
    contiguous_owner_of rank_count owner_of insert owned_len
telemetry_tests = refl

repeated-IsValid : IsValid repeated
unfolding Csr.validate
repeated-IsValid = (validate_iff repeated (omega arith) (omega arith)).0 refl

two_halves-IsPartition : IsPartition two_halves
unfolding from_offsets
two_halves-IsPartition = ((from_offsets_iff (0 ∷ 2 ∷ 4 ∷ []) two_halves).0 refl).1

rank_requests-Wants_example :
    (requests : Requests) × (rank_requests repeated two_halves 1 ≡ ok requests)
    × Wants two_halves 1 (Seen repeated 5 9) requests
unfolding owned_range rank_count
rank_requests-Wants_example =
    rank_requests-Wants repeated repeated-IsValid two_halves two_halves-IsPartition refl refl 1 2 4
      (omega arith) refl

abbrev both_requests : List Requests
both_requests = ((1, 2 ∷ []) ∷ []) ∷ ((0, 1 ∷ []) ∷ []) ∷ []

file_requests-requested_example :
    (accumulators : List Peers) × (try_fold file_requests
        (replicate 2 [])
        (enumerate 0 both_requests)
      ≡ ok accumulators)
    × (length accumulators ≡ 2)
    × ((a b : ℕ) → received accumulators a b ≡ requested both_requests a b)
    × ((a b : ℕ) → sent accumulators a b ≡ requested both_requests b a)
file_requests-requested_example =
    file_requests-requested 2 both_requests (omega arith) refl
      ((omega arith, tt), (omega arith, tt), ((omega arith, tt), (omega arith, tt), tt))

abbrev first_notes : Peers
first_notes = (1, record { send_globals = 1 ∷ []; recv_globals = 2 ∷ [] }) ∷ []

rank_plan-ArePeerPlans_example :
    (plan : HaloPlan) × (rank_plan two_halves (0, first_notes) ≡ ok plan)
    × (plan.rank ≡ 0)
    × (plan.owned ≡ (0, 2))
    × (plan.ghost_globals ≡ all_received first_notes)
    × ArePeerPlans 2 0 plan.ghost_globals first_notes plan.peers
unfolding owned_range rank_count
rank_plan-ArePeerPlans_example =
    rank_plan-ArePeerPlans two_halves 0 0 2 first_notes (omega arith) refl (omega arith)
      (omega arith) (omega arith) ((omega arith, omega arith, tt), tt)

build_contiguous_halo_plans-IsHaloPlan_example :
    (plans : List HaloPlan) × (build_contiguous_halo_plans repeated two_halves ≡ ok plans)
    × (rank_count two_halves ≡ ok (length plans))
    × ((r : ℕ) → r < length plans → IsHaloPlan repeated two_halves r (get_or plans r no_plan))
    × ((a b : ℕ)
        → a < length plans
        → b < length plans
        → message_to b (get_or plans a no_plan).peers
          ≡ message_from a (get_or plans b no_plan).peers)
build_contiguous_halo_plans-IsHaloPlan_example =
    build_contiguous_halo_plans-IsHaloPlan repeated repeated-IsValid two_halves
      two_halves-IsPartition refl refl (omega arith)
