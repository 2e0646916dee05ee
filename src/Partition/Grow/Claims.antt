-- ===== src/Partition/Grow/Claims.antt =====
-- What a rank keeps while it takes DOFs (partition.rs): the counts of owners, and a frontier no
-- longer than what was taken.
use hybit.Base.{
  ℕ, zero, suc, ◌+◌, ◌≤◌, ◌<◌, ◌≡◌, ◌≢◌, ◌⊎◌, refl, sym, ◌∙◌, arith, Bool, true, false, not, ◌&&◌,
  ◌||◌, ◌==◌, ltb, List, [], ◌∷◌, ◌++◌, Option, some, none, length, get_or, set, ok, length-set,
  length-append, AllBelow, Bool-cases, inl, inr, if◌then◌else◌, lt→ltb,
}
use hybit.Bits.{trailing_zeros, clear_lowest}
use hybit.Topology.Row.{AbtmTopologyWord, base_col}
use hybit.Partition.{unassigned, count_of}
use hybit.Partition.Grow.{
  Growing, AbtmPartitionStats, take_dof, claim, claim_bits, visit_word, visit_words, keep_best,
  choose_from, choose_seed, seed_rank,
}

-- A DOF that changes hands.
count_of-set :
    (owners : List ℕ) (i q old rank : ℕ)
    → i < length owners
    → get_or owners i 0 ≡ old
    → count_of q (set owners i rank) + (if old == q then 1 else 0)
      ≡ count_of q owners + (if rank == q then 1 else 0)
count_of-set [] i q old rank h e = absurd (omega arith)
count_of-set (x ∷ xs) zero q old rank h e = let same : x ≡ old = e in rw same (omega arith)
count_of-set (x ∷ xs) (suc i) q old rank h e =
    omega (arith, count_of-set xs i q old rank (omega arith) e)

pub AllBelow-append :
    (n : ℕ) (xs ys : List ℕ) → AllBelow n xs → AllBelow n ys → AllBelow n (xs ++ ys)
AllBelow-append n [] ys h g = g
AllBelow-append n (x ∷ xs) ys h g = (h.0, AllBelow-append n xs ys h.1 g)

-- A choice for which P holds.
abbrev Chosen : (ℕ → Type 0) → Option (ℕ × ℕ) → Type 0
Chosen P none = Unit
Chosen P (some (degree, node)) = P node

abbrev is_some : Option (ℕ × ℕ) → Bool
is_some none = false
is_some (some best) = true

keep_best-Chosen :
    (P : ℕ → Type 0) (best : Option (ℕ × ℕ)) (degree node : ℕ)
    → Chosen P best
    → P node
    → Chosen P (keep_best best degree node) × (is_some (keep_best best degree node) ≡ true)
unfolding keep_best
keep_best-Chosen P none degree node b p = (p, refl)
keep_best-Chosen P (some (best_degree, best_node)) degree node b p =
    elim (Bool-cases (ltb best_degree degree || ((degree == best_degree) && ltb node best_node))) [
      | inl better ↦ rw better (p, refl)
      | inr worse ↦ rw worse (b, refl)
    ]

choose_from-Chosen :
    (P : ℕ → Type 0) (best : Option (ℕ × ℕ)) (i : ℕ) (owners degrees : List ℕ)
    → length owners ≡ length degrees
    → Chosen P best
    → ((k : ℕ) → k < length owners → get_or owners k 0 ≡ unassigned → P (i + k))
    → (is_some best ≡ true) ⊎ (0 < count_of unassigned owners)
    → Chosen P (choose_from best i owners degrees)
      × (is_some (choose_from best i owners degrees) ≡ true)
unfolding choose_from
choose_from-Chosen P best i [] degrees e b p (inl there) = (b, there)
choose_from-Chosen P best i [] degrees e b p (inr none_left) = absurd (omega arith)
choose_from-Chosen P best i (o ∷ os) [] e b p h = absurd (omega arith)
choose_from-Chosen P best i (o ∷ os) (d ∷ ds) e b p h =
    let later : (k : ℕ) → k < length os → get_or os k 0 ≡ unassigned → P (suc i + k) = λ k lt free.
      let shift : suc i + k ≡ i + suc k = omega arith in rw shift (p (suc k) (omega arith) free) in
    elim (Bool-cases (o == unassigned)) [
      | inl free ↦
          let here : i + 0 ≡ i = omega arith in
          let kept =
            keep_best-Chosen P best d i b (rw here at (p 0 (omega arith) (ground arith))) in
          rw free (
            choose_from-Chosen P (keep_best best d i) (suc i) os ds (omega arith) kept.0 later
              (inl kept.1))
      | inr taken ↦
          rw taken
            (choose_from-Chosen P best (suc i) os ds (omega arith) b later (more o os taken h))
    ]
  where
    more :
        (o : ℕ) (os : List ℕ)
        → (o == unassigned) ≡ false
        → (is_some best ≡ true) ⊎ (0 < count_of unassigned (o ∷ os))
        → (is_some best ≡ true) ⊎ (0 < count_of unassigned os)
    more o os taken (inl there) = inl there
    more o os taken (inr left) = inr (ground arith)

choose_seed-finds :
    (owners degree : List ℕ)
    → length owners ≡ length degree
    → 0 < count_of unassigned owners
    → (node : ℕ) × (choose_seed owners degree ≡ some node)
      × (node < length owners)
      × (get_or owners node 0 ≡ unassigned)
unfolding choose_seed
choose_seed-finds owners degree e some_left =
    let (good, found) =
      choose_from-Chosen (λ k. (k < length owners) × (get_or owners k 0 ≡ unassigned)) none 0 owners
        degree e tt (λ k lt free. let shift : 0 + k ≡ k = omega arith in rw shift (lt, free))
        (inr some_left) in
    read (choose_from none 0 owners degree) good found
  where
    read :
        (choice : Option (ℕ × ℕ))
        → Chosen (λ k. (k < length owners) × (get_or owners k 0 ≡ unassigned)) choice
        → is_some choice ≡ true
        → (node : ℕ) × ((elim choice [ none ↦ none | some (_, node) ↦ some node ]) ≡ some node)
          × (node < length owners)
          × (get_or owners node 0 ≡ unassigned)
    read none good found = absurd (cc found)
    read (some (d, node)) good found = (node, refl, good.0, good.1)

-- The variables after `node` is taken as a seed.
abbrev after_seed : ℕ → ℕ → Growing → Growing
after_seed rank node s = record {
  owners = set s.owners node rank;
  assigned = s.assigned + 1;
  frontier = s.frontier ++ node ∷ [];
  first_seed = false;
  stats = record (s.stats) {
    seeds_started = s.stats.seeds_started + 1;
    disconnected_restarts = s.stats.disconnected_restarts + (if s.first_seed then 0 else 1);
  };
}

-- While `rank` is filled: n nodes, of which `left` had no owner at first, and `others` counts what
-- the other ranks own; `popped` nodes have left the frontier.
pub record Filling (n rank target left : ℕ) (others : ℕ → ℕ) (popped : ℕ) (s : Growing)
    : Type 0 where
  pub size : length s.owners ≡ n
  pub free : count_of unassigned s.owners + s.assigned ≡ left
  pub mine : count_of rank s.owners ≡ s.assigned
  pub rest : (q : ℕ) → q ≢ rank → q ≢ unassigned → count_of q s.owners ≡ others q
  pub queue : AllBelow n s.frontier
  pub within : s.assigned ≤ target
  pub pace : s.assigned ≡ popped + length s.frontier

module _ (n rank target left : ℕ) (others : ℕ → ℕ) (rank_ok : rank < unassigned) where
  abbrev Fills : ℕ → Growing → Type 0
  Fills popped s = Filling n rank target left others popped s

  taken :
      (popped node : ℕ) (s : Growing)
      → Fills popped s
      → s.assigned < target
      → node < n
      → get_or s.owners node 0 ≡ unassigned
      → Fills popped (take_dof rank node s)
  taken popped node s f room lt old =
      let moved =
        λ (q : ℕ). count_of-set s.owners node q unassigned rank (omega (arith, f.size)) old in
      record {
        size = length-set s.owners node rank ∙ f.size;
        free = ground (arith, moved unassigned, f.free);
        mine = ground (arith, moved rank, f.mine);
        rest = λ q a b. unmoved q a b (moved q) ∙ f.rest q a b;
        queue = AllBelow-append n s.frontier (node ∷ []) f.queue (lt, tt);
        within = omega (arith, room);
        pace = omega (arith, f.pace, length-append s.frontier (node ∷ []));
      }
    where
      unmoved :
          (q : ℕ)
          → q ≢ rank
          → q ≢ unassigned
          → count_of q (set s.owners node rank) + (if unassigned == q then 1 else 0)
            ≡ count_of q s.owners + (if rank == q then 1 else 0)
          → count_of q (set s.owners node rank) ≡ count_of q s.owners
      unmoved q a b e = ground arith

  claimed :
      (popped node : ℕ) (s : Growing)
      → Fills popped s
      → s.assigned < target
      → Fills popped (claim rank node s)
  claimed popped node s f room =
      elim (Bool-cases (ltb node (length s.owners) && (get_or s.owners node 0 == unassigned))) [
        | inl free ↦
            rw free (taken popped node s f room (omega (arith, f.size, inside free)) (ground arith))
        | inr other ↦ rw other f
      ]
    where
      inside :
          (ltb node (length s.owners) && (get_or s.owners node 0 == unassigned)) ≡ true
          → node < length s.owners
      inside h = ground arith

  claimed_bits :
      (fuel popped base bits : ℕ) (s : Growing)
      → Fills popped s
      → Fills popped (claim_bits fuel rank target base s bits)
  unfolding claim_bits
  claimed_bits zero popped base bits s f = f
  claimed_bits (suc fuel) popped base bits s f =
      elim (Bool-cases (not (bits == 0) && ltb s.assigned target)) [
        | inl more ↦ rw more (
            claimed_bits fuel popped base (clear_lowest bits)
              (claim rank (base + trailing_zeros bits) s)
              (claimed popped (base + trailing_zeros bits) s f (ground arith)))
        | inr stop ↦ rw stop f
      ]

  -- The counters are no part of it.
  recounted :
      (popped : ℕ) (s : Growing) (stats : AbtmPartitionStats)
      → Fills popped s
      → Fills popped (record s { stats = stats })
  recounted popped s stats f = record {
    size = f.size;
    free = f.free;
    mine = f.mine;
    rest = f.rest;
    queue = f.queue;
    within = f.within;
    pace = f.pace;
  }

  pub visited :
      (popped : ℕ) (s : Growing) (ws : List AbtmTopologyWord)
      → Fills popped s
      → Fills popped (visit_words rank target s ws)
  unfolding visit_words
  visited popped s [] f = f
  visited popped s (w ∷ ws) f =
      let after = claimed_bits 64 popped (base_col w) w.mask _ (recounted popped s _ f) in
      elim (Bool-cases ((visit_word rank target s w).assigned == target)) [
        | inl full ↦ rw full after
        | inr more ↦ rw more (visited popped (visit_word rank target s w) ws after)
      ]

  -- A seed is found while a DOF has no owner.
  pub seeded :
      (popped : ℕ) (degree : List ℕ) (s : Growing)
      → Fills popped s
      → s.assigned < target
      → target ≤ left
      → length degree ≡ n
      → (s' : Growing) × (seed_rank degree rank s ≡ ok s')
        × Fills popped s'
        × (length s'.frontier ≡ suc (length s.frontier))
  unfolding seed_rank
  seeded popped degree s f room enough sized =
      let (node, chosen, lt, free) =
        choose_seed-finds s.owners degree (f.size ∙ sym sized) (omega (arith, f.free)) in
      let t = taken popped node s f room (omega (arith, f.size)) free in
      (
        after_seed rank node s,
        rw (chosen, lt→ltb _ _ lt) refl,
        record {
          size = t.size;
          free = t.free;
          mine = t.mine;
          rest = t.rest;
          queue = t.queue;
          within = t.within;
          pace = t.pace;
        },
        omega (arith, length-append s.frontier (node ∷ [])),
      )
