-- ===== src/Partition/Grow/Shares.antt =====
-- `abtm_region_grow_partition` (partition.rs): the ranks in turn take their shares.
use hybit.Base.{
  ℕ, zero, suc, ◌+◌, ◌-◌, ◌%◌, ◌≤◌, ◌<◌, ◌≡◌, ◌≢◌, refl, ◌∙◌, arith, true, false, ◌==◌, ltb, leb,
  if◌then◌else◌, List, [], ◌∷◌, map, length, replicate, range, any, enumerate, ok, try_fold,
  AllBelow, two_64, two_32, length-replicate, Bool-cases, inl, inr, ltb→lt, ltb→le, le→ltb, eq→==,
}
use hybit.Dual.{AbtmDualTopology}
use hybit.Region.Growth.{IsSquare}
use hybit.Partition.{unassigned, count_of, owned_count}
use hybit.Partition.Balanced.{
  share, start, start-share, start_zero, start_last, start-le, share_pos,
}
use hybit.Partition.Assignment.{IsAssignment}
use hybit.Partition.Grow.{Growing, AbtmPartitionStats, fill_rank, fill_next, check_target}
use hybit.Partition.Grow.Claims.{Filling}
use hybit.Partition.Grow.Fill.{fill_rank-Fills}

count_of-replicate : (n : ℕ) → count_of unassigned (replicate n unassigned) ≡ n
count_of-replicate zero = refl
count_of-replicate (suc n) = omega (arith, count_of-replicate n)

count_of-replicate_ne : (n q : ℕ) → q ≢ unassigned → count_of q (replicate n unassigned) ≡ 0
count_of-replicate_ne zero q other = refl
count_of-replicate_ne (suc n) q other = ground (arith, count_of-replicate_ne n q other)

not-any :
    (owners : List ℕ)
    → count_of unassigned owners ≡ 0
    → any (λ owner. owner == unassigned) owners ≡ false
not-any [] h = refl
not-any (x ∷ xs) h = ground (arith, not-any xs)

below_ranks :
    (ranks : ℕ) (owners : List ℕ)
    → ((q : ℕ) → ranks ≤ q → count_of q owners ≡ 0)
    → AllBelow ranks owners
below_ranks ranks [] h = tt
below_ranks ranks (x ∷ xs) h =
    (head ranks x xs h, below_ranks ranks xs (λ q le. tail q x xs (h q le)))
  where
    head : (ranks x : ℕ) (xs : List ℕ) → ((q : ℕ) → ranks ≤ q → count_of q (x ∷ xs) ≡ 0) → x < ranks
    head ranks x xs h = elim (Bool-cases (ltb x ranks)) [
      | inl lt ↦ ltb→lt _ _ lt
      | inr ge ↦ absurd (ground (arith, h x (ltb→le _ _ ge)))
    ]

    tail : (q x : ℕ) (xs : List ℕ) → count_of q (x ∷ xs) ≡ 0 → count_of q xs ≡ 0
    tail q x xs h = omega arith

module _ (d : AbtmDualTopology) (n ranks : ℕ) (square : IsSquare d n) (some_rank : 0 < ranks)
    (enough : ranks ≤ n) (nodes_fit : n < two_64) (ranks_fit : ranks < two_32)
    (unmarked : ranks < unassigned) (degree : List ℕ) (sized : length degree ≡ n) where
  abbrev part : ℕ → ℕ
  part r = share n ranks some_rank enough nodes_fit ranks_fit r

  abbrev before : ℕ → ℕ
  before r = start n ranks some_rank enough nodes_fit ranks_fit r

  -- When the ranks below k have their shares.
  pub record Phase (k : ℕ) (owners : List ℕ) : Type 0 where
    pub size : length owners ≡ n
    pub free : count_of unassigned owners + before k ≡ n
    pub done : (q : ℕ) → q < k → count_of q owners ≡ part q
    pub none : (q : ℕ) → k ≤ q → q ≢ unassigned → count_of q owners ≡ 0

  abbrev others : ℕ → ℕ → ℕ
  others k q = if ltb q k then part q else 0

  abbrev empty_rank : List ℕ → AbtmPartitionStats → Growing
  empty_rank owners stats = record {
    owners = owners;
    assigned = 0;
    frontier = [];
    first_seed = true;
    stats = stats;
  }

  begins :
      (k : ℕ) (owners : List ℕ) (stats : AbtmPartitionStats)
      → k < ranks
      → Phase k owners
      → Filling n k (part k) (count_of unassigned owners) (others k) 0 (empty_rank owners stats)
  begins k owners stats h p = record {
    size = p.size;
    free = omega arith;
    mine = p.none k (omega arith) (λ e. omega (arith, e));
    rest = λ q a b. elim (Bool-cases (ltb q k)) [
      | inl lt ↦ p.done q (ltb→lt _ _ lt) ∙ rw lt refl
      | inr ge ↦ p.none q (ltb→le _ _ ge) b ∙ rw ge refl
    ];
    queue = tt;
    within = omega arith;
    pace = omega arith;
  }

  ends :
      (k popped left : ℕ) (s : Growing)
      → k < ranks
      → left + before k ≡ n
      → Filling n k (part k) left (others k) popped s
      → s.assigned ≡ part k
      → Phase (suc k) s.owners
  ends k popped left s h whole f full = record {
    size = f.size;
    free =
        omega
          (arith, f.free, whole, full, start-share n ranks some_rank enough nodes_fit ranks_fit k);
    done = λ q lt. elim (Bool-cases (q == k)) [
      | inl same ↦ let e : q ≡ k = ground arith in rw e (f.mine ∙ full)
      | inr other ↦
          let below : ltb q k ≡ true = ground arith in
          f.rest q (λ e. apart q k e other) (λ e. omega (arith, e)) ∙ rw below refl
    ];
    none =
        λ q le marked. f.rest q (λ e. omega (arith, e)) marked ∙ rw (le→ltb q k (omega arith)) refl;
  }
    where
      apart : (q k : ℕ) → q ≡ k → (q == k) ≡ false → ⊥
      apart q k e other = ground arith

  fill_next-run :
      (k : ℕ) (owners : List ℕ) (stats : AbtmPartitionStats) (s : Growing)
      → k < ranks
      → fill_rank (part k) d degree k (part k) (empty_rank owners stats) ≡ ok s
      → fill_next d degree (owners, stats) (k, part k) ≡ ok (s.owners, s.stats)
  unfolding fill_next
  fill_next-run k owners stats s h run =
      let small : k % two_32 ≡ k = omega arith in rw (small, run) refl

  fills_next :
      (k : ℕ) (owners : List ℕ) (stats : AbtmPartitionStats)
      → k < ranks
      → Phase k owners
      → (owners' : List ℕ) × (stats' : AbtmPartitionStats) × (fill_next d degree
            (owners, stats)
            (k, part k)
          ≡ ok (owners', stats'))
        × Phase (suc k) owners'
  fills_next k owners stats h p =
      let room : part k ≤ count_of unassigned owners = omega (
        arith,
        p.free,
        start-share n ranks some_rank enough nodes_fit ranks_fit k,
        start-le n ranks some_rank enough nodes_fit ranks_fit (suc k) (ranks - suc k) (omega arith),
      ) in
      let (s, popped, run, f, full) =
        fill_rank-Fills d n k (part k) (count_of unassigned owners) (others k) square (omega arith)
          room (part k) 0 degree (empty_rank owners stats) sized (omega arith)
          (begins k owners stats h p) in
      (
        s.owners,
        s.stats,
        fill_next-run k owners stats s h run,
        ends k popped (count_of unassigned owners) s h p.free f full,
      )

  pub fills_all :
      (m k : ℕ) (owners : List ℕ) (stats : AbtmPartitionStats)
      → k + m ≡ ranks
      → Phase k owners
      → (owners' : List ℕ) × (stats' : AbtmPartitionStats) × (try_fold
            (fill_next d degree)
            (owners, stats)
            (enumerate k (map part (range k m)))
          ≡ ok (owners', stats'))
        × Phase ranks owners'
  unfolding try_fold
  fills_all zero k owners stats e p =
      let last : k ≡ ranks = omega arith in (owners, stats, refl, rw last at p)
  fills_all (suc m) k owners stats e p =
      let (owners', stats', one, p') = fills_next k owners stats (omega arith) p in
      let (owners'', stats'', more, p'') = fills_all m (suc k) owners' stats' (omega arith) p' in
      (owners'', stats'', rw one more, p'')

  pub Phase-start : Phase 0 (replicate n unassigned)
  Phase-start = record {
    size = length-replicate n unassigned;
    free =
        omega
          (arith, count_of-replicate n, start_zero n ranks some_rank enough nodes_fit ranks_fit);
    done = λ q lt. absurd (omega arith);
    none = λ q le other. count_of-replicate_ne n q other;
  }

  module _ (owners : List ℕ) (p : Phase ranks owners) where
    none_left : count_of unassigned owners ≡ 0
    none_left = omega (arith, p.free, start_last n ranks some_rank enough nodes_fit ranks_fit)

    pub all_owned : any (λ owner. owner == unassigned) owners ≡ false
    all_owned = not-any owners none_left

    pub assigned : IsAssignment (record { ranks = ranks; owners = owners })
    assigned = record {
      some_rank = some_rank;
      marked = λ e. omega (arith, e);
      enough = omega (arith, p.size);
      in_ranks = below_ranks ranks owners (λ q le. elim (Bool-cases (q == unassigned)) [
        | inl same ↦ let e : q ≡ unassigned = ground arith in rw e none_left
        | inr other ↦ p.none q le (λ e. marked_no q e other)
      ]);
      inhabited = λ r lt.
          omega (arith, p.done r lt, share_pos n ranks some_rank enough nodes_fit ranks_fit r);
    }
      where
        marked_no : (q : ℕ) → q ≡ unassigned → (q == unassigned) ≡ false → ⊥
        marked_no q e other = ground arith

    pub checked :
        (m k : ℕ)
        → k + m ≡ ranks
        → try_fold
            (check_target (record { ranks = ranks; owners = owners }))
            tt
            (enumerate k (map part (range k m)))
          ≡ ok tt
    unfolding try_fold check_target owned_count
    checked zero k e = refl
    checked (suc m) k e =
        let small : k % two_32 ≡ k = omega arith in
        let inside : leb ranks k ≡ false = ground arith in
        let exact : (count_of k owners == part k) ≡ true = eq→== _ _ (p.done k (omega arith)) in
        rw (small, inside, exact) (checked m (suc k) (omega arith))
