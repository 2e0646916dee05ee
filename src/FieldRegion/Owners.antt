-- ===== src/FieldRegion/Owners.antt =====
-- `field_block_owners` (field_region.rs) against owners that agree on each block.
use hybit.Base.{
  ℕ, zero, suc, ◌+◌, ◌-◌, ◌≤◌, ◌<◌, ◌≡◌, ◌↔◌, refl, sym, ap, ◌∙◌, arith, false, not, ◌==◌, leb,
  List, [], ◌∷◌, ◌++◌, map, ◌>>◌, try_fold_follows, try_fold_traces, get_or-map-range,
  map-range_next, length-map, length-range, get_or_ext_below, some, length, get_or, take, drop, any,
  range, ok, fail_if, try_fold, two_64, lt→ltb, le→leb, eq→==, at-eq-ok, >>=-eq-ok, fail_if-eq-ok,
}
use hybit.Core.{invalid_argument}
use hybit.Layout.{DofBlock, FieldAwareDofLayout, new, block_range}
use hybit.Layout.Valid.{IsLayout, sum_components, total_dofs-eq-ok, new_iff}
use hybit.Layout.Locate.{offset, total, offset_bounds, block_range-eq-ok, block_range-inv}
use hybit.FieldRegion.{push_owner, field_block_owners}

-- A slice holds no other value than x exactly when every place in it has x.
any_other :
    (x n k : ℕ) (xs : List ℕ)
    → any (λ v. not (v == x)) (take n (drop k xs)) ≡ false
    → (i : ℕ) → k ≤ i
    → i < k + n
    → i < length xs
    → get_or xs i 0 ≡ x
any_other x zero zero xs h i lo hi inside = absurd (omega arith)
any_other x zero (suc k) xs h i lo hi inside = absurd (omega arith)
any_other x (suc n) zero [] h i lo hi inside = absurd (omega arith)
any_other x (suc n) zero (y ∷ xs) h zero lo hi inside = ground arith
any_other x (suc n) zero (y ∷ xs) h (suc i) lo hi inside =
    any_other x n 0 xs (ground arith) i (omega arith) (omega arith) (omega arith)
any_other x (suc n) (suc k) [] h i lo hi inside = absurd (omega arith)
any_other x (suc n) (suc k) (y ∷ xs) h zero lo hi inside = absurd (omega arith)
any_other x (suc n) (suc k) (y ∷ xs) h (suc i) lo hi inside =
    any_other x (suc n) k xs h i (omega arith) (omega arith) (omega arith)

none_other :
    (x n k : ℕ) (xs : List ℕ)
    → ((i : ℕ) → k ≤ i → i < k + n → get_or xs i 0 ≡ x)
    → k + n ≤ length xs
    → any (λ v. not (v == x)) (take n (drop k xs)) ≡ false
none_other x zero zero xs h inside = refl
none_other x zero (suc k) xs h inside = refl
none_other x (suc n) zero [] h inside = refl
none_other x (suc n) zero (y ∷ xs) h inside =
    let e : y ≡ x = h 0 (omega arith) (omega arith) in
    rw (e, eq→== x x refl)
      (none_other x n 0 xs (λ i lo hi. h (suc i) (omega arith) (omega arith)) (omega arith))
none_other x (suc n) (suc k) [] h inside = refl
none_other x (suc n) (suc k) (y ∷ xs) h inside =
    none_other x (suc n) k xs (λ i lo hi. h (suc i) (omega arith) (omega arith)) (omega arith)

module _ (l : FieldAwareDofLayout) (v : IsLayout l) (owners : List ℕ) (ranks : ℕ)
    (sized : length owners ≡ total l v) where
  abbrev owner_at : ℕ → ℕ
  owner_at k = get_or owners (offset l v k) 0

  record Agrees (k : ℕ) : Type 0 where
    in_ranks : owner_at k < ranks
    alike : (i : ℕ) → offset l v k ≤ i → i < offset l v (k + 1) → get_or owners i 0 ≡ owner_at k

  abbrev own : ℕ → List ℕ
  own k = take (offset l v (k + 1) - offset l v k) (drop (offset l v k) owners)

  -- The round of block k, with its reads done.
  push_owner-eq :
      (k : ℕ) (acc : List ℕ)
      → k < length l.blocks
      → push_owner l owners ranks acc k ≡ (do
        fail_if (leb ranks (owner_at k)) (invalid_argument "DOF owner rank out of range")
        fail_if
            (any (λ x. not (x == owner_at k)) (own k))
            (invalid_argument "MPI ownership splits a physical field block")
        ok (acc ++ owner_at k ∷ []))
  unfolding push_owner
  push_owner-eq k acc h =
      let bounds = offset_bounds l v k h in
      rw
        (
          block_range-eq-ok l v k h,
          lt→ltb (offset l v k) two_64 (omega (arith, v.fits)),
          lt→ltb (offset l v (k + 1)) two_64 (omega (arith, v.fits)),
          at-eq-ok owners (offset l v k) 0 (omega arith),
          le→leb (offset l v k) (offset l v (k + 1)) (omega arith),
          le→leb (offset l v (k + 1)) (length owners) (omega arith),
        )
        refl

  push_owner-runs :
      (k : ℕ) (acc : List ℕ)
      → k < length l.blocks
      → Agrees k
      → push_owner l owners ranks acc k ≡ ok (acc ++ owner_at k ∷ [])
  push_owner-runs k acc h a =
      let bounds = offset_bounds l v k h in
      let small : leb ranks (owner_at k) ≡ false = ground (arith, a.in_ranks) in
      let same : any (λ x. not (x == owner_at k)) (own k) ≡ false =
        none_other (owner_at k) (offset l v (k + 1) - offset l v k) (offset l v k) owners
          (λ i lo hi. a.alike i lo (omega arith)) (omega arith) in
      push_owner-eq k acc h ∙ rw (small, same) refl

  push_owner-inv :
      (k : ℕ) (acc out : List ℕ)
      → k < length l.blocks
      → push_owner l owners ranks acc k ≡ ok out
      → Agrees k × (out ≡ acc ++ owner_at k ∷ [])
  push_owner-inv k acc out h run =
      let bounds = offset_bounds l v k h in
      let (_, p, more) =
        >>=-eq-ok (fail_if (leb ranks (owner_at k)) _) _ (sym (push_owner-eq k acc h) ∙ run) in
      let (_, q, last) = >>=-eq-ok (fail_if (any (λ x. not (x == owner_at k)) (own k)) _) _ more in
      (
        record {
          in_ranks = below _ _ (fail_if-eq-ok _ _ p);
          alike = λ i lo hi.
              any_other (owner_at k) (offset l v (k + 1) - offset l v k) (offset l v k) owners
                (fail_if-eq-ok _ _ q) i lo (omega arith) (omega arith);
        },
        cc last,
      )
    where
      below : (a b : ℕ) → leb a b ≡ false → b < a
      below a b h = ground arith

  abbrev gathered : ℕ → List ℕ
  gathered n = map owner_at (range 0 n)

  loop_runs :
      ((k : ℕ) → k < length l.blocks → Agrees k)
      → try_fold (push_owner l owners ranks) [] (range 0 (length l.blocks))
        ≡ ok (gathered (length l.blocks))
  loop_runs all =
      let start : 0 + length l.blocks ≡ length l.blocks = omega arith in
      rw start at (
        try_fold_follows (push_owner l owners ranks) gathered 0 (length l.blocks) (λ p le lt.
          push_owner-runs p (gathered p) (omega arith) (all p (omega arith))
          ∙ ap ok (sym (map-range_next owner_at p))))

  loop_inv :
      (out : List ℕ)
      → try_fold (push_owner l owners ranks) [] (range 0 (length l.blocks)) ≡ ok out
      → (out ≡ gathered (length l.blocks)) × ((k : ℕ) → k < length l.blocks → Agrees k)
  loop_inv out run =
      let (same, all) =
        try_fold_traces (push_owner l owners ranks) gathered Agrees 0 (length l.blocks) out
          (λ p t le lt one.
            let (a, e) = push_owner-inv p (gathered p) t (omega arith) one in
            (a, e ∙ sym (map-range_next owner_at p)))
          run in
      let start : 0 + length l.blocks ≡ length l.blocks = omega arith in
      (rw start at same, λ k lt. all k (omega arith) (omega arith))

  gathered_at : (k : ℕ) → k < length l.blocks → get_or (gathered (length l.blocks)) k 0 ≡ owner_at k
  gathered_at k h =
      let start : 0 + k ≡ k = omega arith in
      rw start at (get_or-map-range owner_at 0 (length l.blocks) k 0 h)

  length-gathered : length (gathered (length l.blocks)) ≡ length l.blocks
  length-gathered = length-map owner_at _ ∙ length-range 0 (length l.blocks)

-- One owner for each block, a rank, that every DOF of the block has.
pub record OwnsBlocks (l : FieldAwareDofLayout) (owners : List ℕ) (ranks : ℕ) (out : List ℕ)
    : Type 0 where
  pub one_each : length out ≡ length l.blocks
  pub in_ranks : (k : ℕ) → k < length l.blocks → get_or out k 0 < ranks
  pub alike :
      (k start end i : ℕ)
      → block_range l k ≡ ok (some (start, end))
      → start ≤ i
      → i < end
      → get_or owners i 0 ≡ get_or out k 0

module _ (l : FieldAwareDofLayout) (v : IsLayout l) (owners out : List ℕ) (ranks : ℕ)
    (sized : length owners ≡ total l v) where
  owns :
      out ≡ gathered l v owners ranks sized (length l.blocks)
      → ((k : ℕ) → k < length l.blocks → Agrees l v owners ranks sized k)
      → OwnsBlocks l owners ranks out
  owns same all =
      let at = λ (k : ℕ) (h : k < length l.blocks).
        ap (λ (xs : List ℕ). get_or xs k 0) same ∙ gathered_at l v owners ranks sized k h in
      record {
        one_each = ap length same ∙ length-gathered l v owners ranks sized;
        in_ranks = λ k h. rw (at k h) (all k h).in_ranks;
        alike = λ k start end i range lo hi.
            let (h, s, e) = block_range-inv l v k start end range in
            (all k h).alike i (rw s lo) (rw e hi) ∙ sym (at k h);
      }

  agrees :
      OwnsBlocks l owners ranks out
      → (out ≡ gathered l v owners ranks sized (length l.blocks))
        × ((k : ℕ) → k < length l.blocks → Agrees l v owners ranks sized k)
  agrees o = (
    get_or_ext_below out (gathered l v owners ranks sized (length l.blocks))
        (o.one_each ∙ sym (length-gathered l v owners ranks sized))
        (λ k h.
          let h' : k < length l.blocks = omega (arith, o.one_each) in
          sym (first k h') ∙ sym (gathered_at l v owners ranks sized k h')),
    λ k h. record {
      in_ranks = rw (first k h) (o.in_ranks k h);
      alike = λ i lo hi. o.alike k _ _ i (block_range-eq-ok l v k h) lo hi ∙ sym (first k h);
    },
  )
    where
      first : (k : ℕ) → k < length l.blocks → get_or owners (offset l v k) 0 ≡ get_or out k 0
      first k h =
          o.alike k _ _ (offset l v k) (block_range-eq-ok l v k h) (omega arith)
            (offset_bounds l v k h).0

equal : (a b : ℕ) → not (a == b) ≡ false → a ≡ b
equal a b h = ground arith

nonzero : (n : ℕ) → (n == 0) ≡ false → 0 < n
nonzero n h = ground arith

-- On a layout that `new` returned, `field_block_owners` returns a list exactly when there are as
-- many owners as DOFs and at least one rank, and the list has one owner for each block, a rank below
-- `ranks`, which every DOF of the block has.
pub field_block_owners_iff :
    (blocks : List DofBlock) (l : FieldAwareDofLayout) (owners : List ℕ) (ranks : ℕ) (out : List ℕ)
    → new blocks ≡ ok l
    → (field_block_owners l owners ranks ≡ ok out)
      ↔ ((length owners ≡ sum_components blocks) × (0 < ranks) × OwnsBlocks l owners ranks out)
unfolding field_block_owners
field_block_owners_iff blocks l owners ranks out h =
    let (same, v) = (new_iff blocks l).0 h in
    let sums : sum_components l.blocks ≡ sum_components blocks = ap sum_components same in
    (
      λ run.
          let run1 = rw (total_dofs-eq-ok l v, lt→ltb _ _ v.fits) at run in
          let (_, p, run2) = >>=-eq-ok (fail_if (not (length owners == total l v)) _) _ run1 in
          let (_, q, run3) = >>=-eq-ok (fail_if (ranks == 0) _) _ run2 in
          let sized = equal _ _ (fail_if-eq-ok _ _ p) in
          let (e, all) = loop_inv l v owners ranks sized out run3 in
          (sized ∙ sums, nonzero _ (fail_if-eq-ok _ _ q), owns l v owners out ranks sized e all),
      λ (sized, some_rank, o).
          let sized' : length owners ≡ total l v = sized ∙ sym sums in
          let (e, all) = agrees l v owners out ranks sized' o in
          let positive : (ranks == 0) ≡ false = ground arith in
          rw
            (
              total_dofs-eq-ok l v,
              lt→ltb _ _ v.fits,
              eq→== _ _ sized',
              positive,
              loop_runs l v owners ranks sized' all,
              e,
            )
            refl,
    )
