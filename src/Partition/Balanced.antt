-- ===== src/Partition/Balanced.antt =====
-- `ContiguousPartition::balanced` (lib.rs of crates/hybit-distributed).
use hybit.Base.{
  ℕ, zero, suc, ◌+◌, ◌-◌, ◌*◌, ◌/◌, ◌%◌, ◌≤◌, ◌<◌, ◌≡◌, ◌⊎◌, refl, sym, ap, ◌∙◌, arith, true, false,
  ◌||◌, ◌==◌, ltb, List, [], ◌∷◌, map, some, length, get_or, last?, range, ok, err, try_fold,
  try_fold_follows, min, two_64, two_32, map-range_next, IsAscending, length-map, length-range,
  get_or-map-range, lt→ltb, if◌then◌else◌,
}
use hybit.Partition.{
  ContiguousPartition, invalid_rank_count, push_offset, balanced, rank_count, owned_range,
}
use hybit.Partition.Offsets.{
  IsPartition, IsPartition-from_offsets, rank_count-eq-ok, owned_range-eq-ok,
}

module _ (f : ℕ → ℕ) (grows : (k : ℕ) → f k < f (suc k)) where
  map-range-IsAscending : (i n lo : ℕ) → lo ≤ f i → IsAscending lo (map f (range i n))
  map-range-IsAscending i zero lo h = tt
  map-range-IsAscending i (suc n) lo h = (h, map-range-IsAscending (suc i) n (suc (f i)) (grows i))

last?-map-range : (f : ℕ → ℕ) (i n : ℕ) → last? (map f (range i (suc n))) ≡ some (f (i + n))
last?-map-range f i zero = let e : i + 0 ≡ i = omega arith in rw e refl
last?-map-range f i (suc n) =
    let e : i + suc n ≡ suc i + n = omega arith in rw e (last?-map-range f (suc i) n)

refusal :
    (n ranks : ℕ) → (ranks ≡ 0) ⊎ (n < ranks) → ((ranks == 0) || (n == 0) || ltb n ranks) ≡ true
refusal n ranks h = ground arith

module _ (global_dofs ranks : ℕ) (some_rank : 0 < ranks) (enough : ranks ≤ global_dofs)
    (dofs_fit : global_dofs < two_64) (ranks_fit : ranks < two_32) where
  base : ℕ
  base = global_dofs / ranks

  remainder : ℕ
  remainder = global_dofs % ranks

  -- How many DOFs rank r owns.
  abbrev pub share : ℕ → ℕ
  share r = global_dofs / ranks + (if ltb r (global_dofs % ranks) then 1 else 0)

  -- Where rank r starts.
  pub start : ℕ → ℕ
  start r = r * base + min r remainder

  base_pos : 0 < base
  unfolding base
  base_pos = grind arith

  whole : ranks * base + remainder ≡ global_dofs
  unfolding base remainder
  whole = grind arith

  remainder-lt : remainder < ranks
  unfolding remainder
  remainder-lt = grind arith

  start-suc : (r : ℕ) → start (suc r) ≡ start r + (base + (if ltb r remainder then 1 else 0))
  unfolding start
  start-suc r = ground arith

  pub start-share : (r : ℕ) → start (suc r) ≡ start r + share r
  unfolding base remainder
  start-share r = start-suc r

  pub share_pos : (r : ℕ) → 0 < share r
  unfolding base
  share_pos r = omega (arith, base_pos)

  start_grows : (k : ℕ) → start k < start (suc k)
  start_grows k = omega (arith, start-suc k, base_pos)

  pub start_last : start ranks ≡ global_dofs
  unfolding start
  start_last = omega (arith, whole, remainder-lt)

  pub start-le : (r n : ℕ) → r + n ≡ ranks → start r ≤ global_dofs
  start-le r zero e = let same : r ≡ ranks = omega arith in rw same (omega (arith, start_last))
  start-le r (suc n) e = omega (arith, start_grows r, start-le (suc r) n (omega arith))

  starts : ℕ → List ℕ
  starts n = map start (range 0 n)

  push_offset-next :
      (r : ℕ)
      → r < ranks
      → push_offset base remainder (starts (suc r), start r) r
        ≡ ok (starts (suc (suc r)), start (suc r))
  unfolding push_offset starts
  push_offset-next r h =
      let fits : start r + (base + (if ltb r remainder then 1 else 0)) < two_64 =
        omega (arith, start-suc r, start-le (suc r) (ranks - suc r) (omega arith)) in
      rw (lt→ltb _ _ fits, sym (start-suc r))
        (ap (λ xs. ok (xs, start (suc r))) (sym (map-range_next start (suc r))))

  pub start_zero : start 0 ≡ 0
  unfolding start
  start_zero = omega arith

  starts_one : starts 1 ≡ 0 ∷ []
  unfolding starts
  starts_one = ap (λ x. x ∷ []) start_zero

  loop :
      try_fold (push_offset base remainder) (0 ∷ [], 0) (range 0 ranks)
      ≡ ok (starts (suc ranks), start ranks)
  loop =
      let end : 0 + ranks ≡ ranks = omega arith in
      let run =
        try_fold_follows (push_offset base remainder) (λ r. (starts (suc r), start r)) 0 ranks
          (λ p le lt. push_offset-next p (omega arith)) in
      rw (starts_one, start_zero, end) at run

  starts_ascend : (n : ℕ) → IsAscending 0 (starts n)
  unfolding starts
  starts_ascend n = map-range-IsAscending start start_grows 0 n 0 (omega arith)

  starts_last : last? (starts (suc ranks)) ≡ some global_dofs
  unfolding starts
  starts_last =
      let e : 0 + ranks ≡ ranks = omega arith in
      last?-map-range start 0 ranks ∙ rw e (ap some start_last)

  partition : ContiguousPartition
  partition = record { global_dofs = global_dofs; offsets = starts (suc ranks) }

  length-starts : (n : ℕ) → length (starts n) ≡ n
  unfolding starts
  length-starts n = length-map start (range 0 n) ∙ length-range 0 n

  start_at : (r : ℕ) → r < suc ranks → (d : ℕ) → get_or (starts (suc ranks)) r d ≡ start r
  unfolding starts
  start_at r h d =
      let e : 0 + r ≡ r = omega arith in rw e at (get_or-map-range start 0 (suc ranks) r d h)

  partition-IsPartition : IsPartition partition
  unfolding partition
  partition-IsPartition = record {
    long = omega (arith, length-starts (suc ranks));
    few = omega (arith, length-starts (suc ranks));
    first = start_at 0 (omega arith) 1 ∙ start_zero;
    ascending = starts_ascend (suc ranks);
    last = starts_last;
  }

  runs : balanced global_dofs ranks ≡ ok partition
  unfolding balanced base remainder partition
  runs =
      let accepted : ((ranks == 0) || (global_dofs == 0) || ltb global_dofs ranks) ≡ false =
        ground arith in
      rw (accepted, loop) (IsPartition-from_offsets partition partition-IsPartition)

  counted : rank_count partition ≡ ok ranks
  unfolding partition
  counted =
      let size : length (starts (suc ranks)) - 1 ≡ ranks =
        omega (arith, length-starts (suc ranks)) in
      rank_count-eq-ok partition partition-IsPartition ∙ ap ok size

  owned :
      (r : ℕ)
      → r < ranks
      → (from : ℕ) × (to : ℕ) × (owned_range partition r ≡ ok (from, to))
        × (to ≡ from + global_dofs / ranks + (if ltb r (global_dofs % ranks) then 1 else 0))
  unfolding partition base remainder
  owned r h =
      let next : r + 1 ≡ suc r = omega arith in
      (
        get_or (starts (suc ranks)) r 0,
        get_or (starts (suc ranks)) (r + 1) 0,
        owned_range-eq-ok partition partition-IsPartition r
            (omega (arith, length-starts (suc ranks))),
        rw (next, start_at r (omega arith) 0, start_at (suc r) (omega arith) 0)
            (omega (arith, start-suc r)),
      )

-- `balanced` refuses no ranks, no DOFs, and more ranks than DOFs. Otherwise, where the numbers fit
-- u32 and u64, it returns a partition of that many DOFs over that many ranks, in which each rank owns
-- the quotient of the two, and each of the first ranks, as many as the remainder, one DOF more.
pub balanced-owned_range :
    (global_dofs ranks : ℕ)
    → global_dofs < two_64
    → ranks < two_32
    → ((ranks ≡ 0) ⊎ (global_dofs < ranks) → balanced global_dofs ranks ≡ err invalid_rank_count)
      × (0 < ranks
          → ranks ≤ global_dofs
          → (p : ContiguousPartition) × (balanced global_dofs ranks ≡ ok p)
            × (p.global_dofs ≡ global_dofs)
            × (rank_count p ≡ ok ranks)
            × ((r : ℕ)
                → r < ranks
                → (start : ℕ) × (end : ℕ) × (owned_range p r ≡ ok (start, end))
                  × (end
                      ≡ start
                        + global_dofs / ranks
                        + (if ltb r (global_dofs % ranks) then 1 else 0))))
unfolding balanced partition
balanced-owned_range n ranks dofs_fit ranks_fit = (
  λ bad. rw (refusal n ranks bad) refl,
  λ some_rank enough. (
    partition n ranks some_rank enough dofs_fit ranks_fit,
    runs n ranks some_rank enough dofs_fit ranks_fit,
    refl,
    counted n ranks some_rank enough dofs_fit ranks_fit,
    owned n ranks some_rank enough dofs_fit ranks_fit,
  ),
)
