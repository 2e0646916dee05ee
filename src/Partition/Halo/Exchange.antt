-- ===== src/Partition/Halo/Exchange.antt =====
-- Rank-local matrices, the simulated halo exchange and the distributed product
-- (crates/hybit-distributed/src/lib.rs).
use hybit.Base.{
  ℕ, ◌+◌, ◌-◌, Bool, true, false, not, ◌&&◌, ◌||◌, ◌==◌, ltb, leb, if◌then◌else◌, List, [], ◌∷◌,
  ◌++◌, take, drop, length, range, replicate, enumerate, get_elem?, set, any, ok, at, slice, minus,
  checked_add, ok_or, panic, fail_if, ◌>>=◌, ◌>>◌, try_fold, try_map, two_64,
}
use hybit.Core.{F64}
use hybit.Core.Float.{Arithmetic, zero_f64}
use hybit.SortedMap.{modify, lookup}
use hybit.Csr.{Csr32Matrix}
use hybit.Partition.{
  Result, invalid_partition, local_index_overflow, vector_length_mismatch, ContiguousPartition,
}
use hybit.Partition.Halo.{
  HaloPlan, HaloPeerPlan, owned_len, extended_len, find_peer, to_usize, to_u32,
  build_contiguous_halo_plans,
}

pub record RankLocalCsr : Type 0 where
  pub rank : ℕ
  pub owned : ℕ × ℕ
  pub width : ℕ
  pub row_ptr : List ℕ
  pub col_idx : List ℕ
  pub values : List F64

unfoldable pub ghost_slot : ℕ → List (ℕ × ℕ) → ℕ × ℕ → Result (List (ℕ × ℕ))
ghost_slot own_len slots (slot, global) = do
  extended ← ok_or (checked_add two_64 own_len slot) local_index_overflow
  local ← to_u32 extended
  ok (modify local (λ _. local) global slots)

-- The column of an entry among the owned DOFs and the ghosts.
unfoldable pub local_col : ℕ × ℕ → List (ℕ × ℕ) → ℕ → Result ℕ
local_col (start, end) slots global_col =
    if leb start global_col && ltb global_col end
    then to_u32 (global_col - start)
    else ok_or (lookup global_col slots)
        (invalid_partition "remote matrix column is absent from the halo plan")

unfoldable pub copy_entry :
    Csr32Matrix → ℕ × ℕ → List (ℕ × ℕ) → List ℕ × List F64 → ℕ → Result (List ℕ × List F64)
unfolding local_col
copy_entry matrix owned slots (cols, values) position = do
  global_col ← at matrix.col_idx position
  local ← local_col owned slots global_col
  value ← at matrix.values position
  ok (cols ++ local ∷ [], values ++ value ∷ [])

unfoldable pub copy_row :
    Csr32Matrix
    → ℕ × ℕ
    → List (ℕ × ℕ)
    → List ℕ × List ℕ × List F64
    → ℕ
    → Result (List ℕ × List ℕ × List F64)
unfolding copy_entry
copy_row matrix owned slots (ptrs, cols, values) global_row = do
  start ← at matrix.row_ptr global_row
  end ← at matrix.row_ptr (global_row + 1)
  (cols', values') ←
      try_fold (copy_entry matrix owned slots) (cols, values) (range start (end - start))
  next ← to_u32 (length cols')
  ok (ptrs ++ next ∷ [], cols', values')

-- `prepare_rank_local_csr`
unfoldable pub prepare_rank_local_csr : Csr32Matrix → HaloPlan → Result RankLocalCsr
unfolding ghost_slot copy_row owned_len extended_len
prepare_rank_local_csr matrix plan = do
  own_len ← owned_len plan
  row_start ← to_usize plan.owned.0
  row_end ← to_usize plan.owned.1
  fail_if (ltb matrix.nrows row_end) (invalid_partition "owned row range exceeds the global matrix")
  slots ← try_fold (ghost_slot own_len) [] (enumerate 0 plan.ghost_globals)
  (ptrs, cols, values) ←
      try_fold (copy_row matrix plan.owned slots) (0 ∷ [], [], [])
        (range row_start (row_end - row_start))
  width ← extended_len plan
  ok (record {
    rank = plan.rank;
    owned = plan.owned;
    width = width;
    row_ptr = ptrs;
    col_idx = cols;
    values = values;
  })

-- One plan of the check of the order; the state is `next_global`.
unfoldable pub check_order : ℕ → ℕ × HaloPlan → Result ℕ
check_order next_global (rank_index, plan) = do
  fail_if (not (plan.rank == rank_index))
      (invalid_partition "halo plans must be stored in rank order")
  fail_if (not (plan.owned.0 == next_global) || leb plan.owned.1 plan.owned.0)
      (invalid_partition "halo plan ownership ranges are not contiguous")
  ok (plan.owned.1)

-- `validate_ordered_plans`
unfoldable pub validate_ordered_plans : List HaloPlan → Result ℕ
unfolding check_order
validate_ordered_plans plans = do
  fail_if (length plans == 0) (invalid_partition "at least one halo plan is required")
  next_global ← try_fold check_order 0 (enumerate 0 plans)
  to_usize next_global

-- The vectors of the ranks, and which of their places are filled.
pub record Exchanging : Type 0 where
  pub extended : List (List F64)
  pub filled : List (List Bool)

-- The vector of a rank before the exchange.
unfoldable pub own_values : List F64 → Exchanging → HaloPlan → Result Exchanging
own_values global_x s plan = do
  start ← to_usize plan.owned.0
  end ← to_usize plan.owned.1
  width ← extended_len plan
  own_len ← owned_len plan
  own ← slice global_x start end
  ok (record {
    extended = s.extended ++ (own ++ replicate (width - own_len) zero_f64) ∷ [];
    filled = s.filled ++ (replicate own_len true ++ replicate (width - own_len) false) ∷ [];
  })

-- One value of a message.
unfoldable pub send_value : ℕ → ℕ → Exchanging → ℕ × ℕ → Result Exchanging
send_value sender receiver s (send_index, recv_index) = do
  own ← at s.extended sender
  value ←
      ok_or (get_elem? own send_index) (invalid_partition "send index exceeds sender owned vector")
  vector ←
      ok_or (get_elem? s.extended receiver)
        (invalid_partition "receiver rank is outside extended vectors")
  fail_if (leb (length vector) recv_index)
      (invalid_partition "receive index exceeds receiver extended vector")
  flags ←
      ok_or (get_elem? s.filled receiver)
        (invalid_partition "receiver rank is outside halo fill flags")
  fail_if (leb (length flags) recv_index)
      (invalid_partition "receive index exceeds halo fill flags")
  ok (record {
    extended = set s.extended receiver (set vector recv_index value);
    filled = set s.filled receiver (set flags recv_index true);
  })

abbrev pub same_list : List ℕ → List ℕ → Bool
same_list [] [] = true
same_list [] (y ∷ ys) = false
same_list (x ∷ xs) [] = false
same_list (x ∷ xs) (y ∷ ys) = (x == y) && same_list xs ys

abbrev pub pairs : List ℕ → List ℕ → List (ℕ × ℕ)
pairs [] ys = []
pairs (x ∷ xs) [] = []
pairs (x ∷ xs) (y ∷ ys) = (x, y) ∷ pairs xs ys

-- The message of a sender to one of its peers.
unfoldable pub send_message :
    List HaloPlan → ℕ → HaloPlan → Exchanging → HaloPeerPlan → Result Exchanging
unfolding send_value
send_message plans sender sender_plan s to = do
  let rest = do
    receiver_plan ←
        ok_or (get_elem? plans to.peer) (invalid_partition "halo peer rank is outside the plan set")
    from ←
        ok_or (find_peer sender_plan.rank receiver_plan.peers)
          (invalid_partition "halo peer relation is not reciprocal")
    fail_if (not (same_list to.send_globals from.recv_globals))
        (invalid_partition "send and reciprocal receive global lists differ")
    fail_if (not (length to.send_owned_indices == length from.recv_extended_indices))
        (invalid_partition "send and reciprocal receive index counts differ")
    try_fold (send_value sender to.peer) s (pairs to.send_owned_indices from.recv_extended_indices)
  if length to.send_globals == 0 then ok s else rest

unfoldable pub send_messages : List HaloPlan → Exchanging → ℕ × HaloPlan → Result Exchanging
unfolding send_message
send_messages plans s (sender, plan) = try_fold (send_message plans sender plan) s plan.peers

-- `simulate_halo_exchange`
unfoldable pub simulate_halo_exchange : List F64 → List HaloPlan → Result (List (List F64))
unfolding validate_ordered_plans own_values send_messages
simulate_halo_exchange global_x plans = do
  global_len ← validate_ordered_plans plans
  fail_if (not (length global_x == global_len))
      (vector_length_mismatch global_len (length global_x))
  s ← try_fold (own_values global_x) (record { extended = []; filled = [] }) plans
  s' ← try_fold (send_messages plans) s (enumerate 0 plans)
  fail_if (any (λ flags. any not flags) s'.filled)
      (invalid_partition "at least one ghost slot was not populated by reciprocal halo exchange")
  ok s'.extended

module _ (fp : Arithmetic) where
  unfoldable pub add_product : RankLocalCsr → List F64 → F64 → ℕ → Result F64
  add_product m x sum position = do
    col ← at m.col_idx position
    value ← at m.values position
    xv ← at x col
    ok (fp.add sum (fp.mul value xv))

  unfoldable pub local_row : RankLocalCsr → List F64 → ℕ → Result F64
  unfolding add_product
  local_row m x row = do
    start ← at m.row_ptr row
    end ← at m.row_ptr (row + 1)
    try_fold (add_product m x) zero_f64 (range start (end - start))

  -- `RankLocalCsr::apply_extended`: the new contents of `y_owned`.
  unfoldable pub apply_extended : RankLocalCsr → List F64 → List F64 → Result (List F64)
  unfolding local_row
  apply_extended m x y = do
    fail_if (not (length x == m.width)) (vector_length_mismatch m.width (length x))
    own_len ← minus m.owned.1 m.owned.0
    fail_if (not (length y == own_len)) (vector_length_mismatch own_len (length y))
    try_map (local_row m x) (range 0 (length y))

  -- `global_y[start..end].copy_from_slice(&local_y)`
  abbrev pub copy_into : List F64 → ℕ → ℕ → List F64 → Result (List F64)
  copy_into ys start end own =
      if leb start end && leb end (length ys) && (length own == end - start)
      then ok (take start ys ++ own ++ drop end ys)
      else panic

  unfoldable pub rank_product : List F64 → (HaloPlan × RankLocalCsr) × List F64 → Result (List F64)
  unfolding apply_extended
  rank_product global_y ((plan, local), local_x) = do
    own_len ← owned_len plan
    local_y ← apply_extended local local_x (replicate own_len zero_f64)
    start ← to_usize plan.owned.0
    end ← to_usize plan.owned.1
    copy_into global_y start end local_y

  abbrev pub zip {ℓ κ} : {A : Type ℓ} {B : Type κ} → List A → List B → List (A × B)
  zip [] ys = []
  zip (x ∷ xs) [] = []
  zip (x ∷ xs) (y ∷ ys) = (x, y) ∷ zip xs ys

  -- `simulated_distributed_spmv`
  unfoldable pub simulated_distributed_spmv :
      Csr32Matrix → ContiguousPartition → List F64 → Result (List F64)
  unfolding rank_product
  simulated_distributed_spmv matrix partition global_x = do
    plans ← build_contiguous_halo_plans matrix partition
    local_operators ← try_map (prepare_rank_local_csr matrix) plans
    extended ← simulate_halo_exchange global_x plans
    try_fold rank_product (replicate matrix.nrows zero_f64)
        (zip (zip plans local_operators) extended)
