-- ===== src/Region/Covered.antt =====
-- `region_multiplicity` (region.rs) against the number of regions that contain a node.
use hybit.Base.{
  ℕ, ◌+◌, ◌≤◌, ◌<◌, ◌≡◌, refl, sym, ap, ◌∙◌, arith, Bool, true, false, ltb, leb, if◌then◌else◌,
  List, [], ◌∷◌, map, length, get_or, replicate, range, foldl, max, ok, try_fold, two_64, two_32,
  AllBelow, has, ltb→lt, ltb→le, Bool-cases, inl, inr, get_or_ext, length-map, length-range,
  get_or-map-range, get_or_beyond, get_or-replicate, length-replicate,
}
use hybit.Mask.{DofMask, indices, mask_count_ones}
use hybit.Mask.Valid.{member, IsValid}
use hybit.Mask.Indices.{indices_lem, AllBelow-of_has}
use hybit.Region.Multiplicity.{count_region, region_multiplicity}
use hybit.Region.Summary.{number, pairs_of, coverage, coverage_ext, one_more, summarise_lem}
use hybit.Region.Counts.{count_region-eq, nodes_lem}

-- How many of the regions have the node.
abbrev pub containing : List DofMask → ℕ → ℕ
containing [] j = 0
containing (r ∷ rs) j = (if member r j then 1 else 0) + containing rs j

abbrev pub sizes : List DofMask → ℕ
sizes [] = 0
sizes (r ∷ rs) = mask_count_ones r + sizes rs

-- Valid masks over n nodes.
abbrev pub AllOver : ℕ → List DofMask → Type 0
AllOver n [] = Unit
AllOver n (r ∷ rs) = IsValid r × (r.len ≡ n) × AllOver n rs

below_len : (n : ℕ) (r : DofMask) → IsValid r → r.len ≡ n → AllBelow n (indices r)
below_len n r v e =
    AllBelow-of_has n (indices r) λ x hx. ground (arith, (indices_lem r v).1 x, v.tail x, e)

regions_lem :
    (n : ℕ) (rs : List DofMask) (counts : List ℕ) (total most : ℕ)
    → n < two_64
    → AllOver n rs
    → length counts ≡ n
    → ((j : ℕ) → get_or counts j 0 ≤ most)
    → most + length rs < two_32
    → total + sizes rs < two_64
    → (after : List ℕ) × (try_fold (count_region n) (counts, total) rs
        ≡ ok (after, total + sizes rs))
      × (length after ≡ n)
      × ((j : ℕ) → get_or after j 0 ≡ get_or counts j 0 + containing rs j)
unfolding try_fold
regions_lem n [] counts total most h all size bound few fits =
    (counts, ap (λ k. ok (counts, k)) (omega arith), size, λ j. omega arith)
regions_lem n (r ∷ rs) counts total most h all size bound few fits =
    let (up, members, count) = indices_lem r all.0 in
    let (next, returns, size', content) =
      nodes_lem n 0 (indices r) counts total up (below_len n r all.0 all.1) size
        (λ j hj. omega (arith, bound j)) (omega (arith, count)) in
    let (after, returns', size2, content') =
      regions_lem n rs next (total + length (indices r)) (most + 1) h all.2 size'
        (λ j.
          grows (has (indices r) j) (get_or next j 0) (get_or counts j 0) most (content j)
            (bound j))
        (omega arith) (omega (arith, count)) in
    (
      after,
      rw (count_region-eq n (counts, total) r all.0 all.1 h, returns)
          (returns' ∙ ap (λ k. ok (after, k)) (omega (arith, count))),
      size2,
      λ j.
          content' j
          ∙ together (has (indices r) j) (member r j) (get_or next j 0) (get_or counts j 0)
              (containing rs j) (content j) (members j),
    )
  where
    grows :
        (b : Bool) (next before most : ℕ)
        → next ≡ before + (if b then 1 else 0)
        → before ≤ most
        → next ≤ most + 1
    grows true next before most e h = omega arith
    grows false next before most e h = omega arith

    together :
        (b m : Bool) (next before rest : ℕ)
        → next ≡ before + (if b then 1 else 0)
        → b ≡ m
        → next + rest ≡ before + ((if m then 1 else 0) + rest)
    together true true next before rest e h = omega arith
    together false false next before rest e h = omega arith
    together true false next before rest e h = absurd (cc h)
    together false true next before rest e h = absurd (cc h)

-- The numbers of regions that contain each of the n nodes.
abbrev pub multiplicities : ℕ → List DofMask → List ℕ
multiplicities n rs = map (containing rs) (range 0 n)

-- For fewer than 2^32 valid regions over n nodes whose sizes and pairs fit 64 bits,
-- `region_multiplicity` returns: each count is the number of regions with that node, the memberships
-- are the sizes summed, and the other totals are the nodes in some region, the nodes in two or more,
-- the largest count, and the pairs of regions at each node summed.
pub region_multiplicity_lem :
    (n : ℕ) (rs : List DofMask)
    → n < two_64
    → AllOver n rs
    → length rs < two_32
    → sizes rs < two_64
    → pairs_of (multiplicities n rs) < two_64
    → region_multiplicity n rs
      ≡ ok (record {
        counts = multiplicities n rs;
        stats = record {
          region_count = length rs;
          node_count = n;
          total_memberships = sizes rs;
          covered_nodes = number (ltb 0) (multiplicities n rs);
          overlap_nodes = number (leb 2) (multiplicities n rs);
          max_multiplicity = foldl max 0 (multiplicities n rs);
          pair_overlap_memberships = pairs_of (multiplicities n rs);
        };
      })
unfolding region_multiplicity
region_multiplicity_lem n rs h all few fits pairs =
    let (after, returns, size, content) =
      regions_lem n rs (replicate n 0) 0 0 h all (length-replicate n 0)
        (λ j. omega (arith, get_or-replicate {A = ℕ} n j 0)) (omega arith) (omega arith) in
    let counts : after ≡ multiplicities n rs =
      get_or_ext 0 after (multiplicities n rs) (size ∙ sym (size_of n rs))
        (λ j. content j ∙ at_node j) in
    let none : 0 + sizes rs ≡ sizes rs = omega arith in
    let summary =
      summarise_lem (multiplicities n rs) (coverage 0 0 0 0)
        (below_of n rs (λ j. omega (arith, containing-le rs j))) (omega (arith, size_of n rs))
        (omega (arith, size_of n rs)) (omega arith)
      ∙ ap ok (
          coverage_ext (from_zero (number (ltb 0) (multiplicities n rs)))
            (from_zero (number (leb 2) (multiplicities n rs))) refl
            (from_zero (pairs_of (multiplicities n rs)))) in
    rw (returns, counts, none, summary) refl
  where
    from_zero : (a : ℕ) → 0 + a ≡ a
    from_zero a = omega arith

    size_of : (n : ℕ) (rs : List DofMask) → length (multiplicities n rs) ≡ n
    size_of n rs = length-map (containing rs) (range 0 n) ∙ length-range 0 n

    containing-le : (rs : List DofMask) (j : ℕ) → containing rs j ≤ length rs
    containing-le [] j = omega arith
    containing-le (r ∷ rs) j = omega (arith, one_more (member r j), containing-le rs j)

    below_of :
        (n : ℕ) (rs : List DofMask)
        → ((j : ℕ) → containing rs j < two_32)
        → AllBelow two_32 (multiplicities n rs)
    below_of n rs small = each (range 0 n)
      where
        each : (xs : List ℕ) → AllBelow two_32 (map (containing rs) xs)
        each [] = tt
        each (x ∷ xs) = (small x, each xs)

    outside : (rs : List DofMask) (j : ℕ) → AllOver n rs → n ≤ j → containing rs j ≡ 0
    outside [] j all le = refl
    outside (r ∷ rs) j all le =
        let absent : member r j ≡ false = all.0.tail j (omega (arith, all.1)) in
        rw absent (omega (arith, outside rs j all.2 le))

    at_node :
        (j : ℕ) → get_or (replicate n 0) j 0 + containing rs j ≡ get_or (multiplicities n rs) j 0
    at_node j = elim (Bool-cases (ltb j n)) [
      | inl inside ↦
          let e : 0 + j ≡ j = omega arith in
          let here =
            get_or-map-range (containing rs) 0 n j 0 (ltb→lt j n inside) ∙ ap (containing rs) e in
          omega (arith, get_or-replicate {A = ℕ} n j 0, here)
      | inr beyond ↦
          let le = ltb→le j n beyond in
          let here = get_or_beyond (multiplicities n rs) j 0 (omega (arith, size_of n rs)) in
          omega (arith, get_or-replicate {A = ℕ} n j 0, here, outside rs j all le)
    ]
