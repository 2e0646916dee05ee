-- ===== src/FieldRegion/Reach.antt =====
-- `grow_field_aware_region` (field_region.rs) against the DOFs within a number of hops.
use hybit.Base.{
  ℕ, zero, suc, ◌+◌, ◌≡◌, ◌↔◌, refl, sym, ap, ◌∙◌, arith, Bool, true, false, ◌||◌, lt→ltb, eq→==,
  List, [], ◌∷◌, length, enumerate, ok, try_fold, Bool-cases, inl, inr, if◌then◌else◌,
}
use hybit.Mask.{DofMask, is_empty, mask_count_ones}
use hybit.Mask.Valid.{member, IsValid, contains-eq-member}
use hybit.Mask.Indices.{is_empty_lem}
use hybit.Dual.{AbtmDualTopology}
use hybit.Region.Hops.{adjacent}
use hybit.Layout.{DofBlock, FieldAwareDofLayout, validate_square_matrix_size}
use hybit.Layout.Valid.{IsLayout, sum_components, new_iff, total_dofs-eq-ok}
use hybit.Layout.Locate.{total, offset, block_range-eq-ok}
use hybit.FieldRegion.{
  check_mask_layout, FieldAwareRegionGrowth, field_loop, count_block, start_fields,
  grow_field_aware_region,
}
use hybit.FieldRegion.Closure.{Together, close_to_field_blocks-Together}
use hybit.FieldRegion.Hops.{
  FieldWithin, seed, hop, Fitting, Reached, still, along, Masks, Grew, field_hop-Grew,
  Together-trans,
}

module _ {d : AbtmDualTopology} {l : FieldAwareDofLayout} {seeds : ℕ → Bool} where
  FieldWithin-suc : {k j : ℕ} → FieldWithin d l seeds k j → FieldWithin d l seeds (suc k) j
  FieldWithin-suc (seed s t) = seed s t
  FieldWithin-suc (hop w a t) = hop (FieldWithin-suc w) a t

  -- With no hop, a seed's block.
  at_start : {j : ℕ} → FieldWithin d l seeds 0 j → (i : ℕ) × Together l i j × (seeds i ≡ true)
  at_start (seed {i = i} s t) = (i, t, s)

  FieldWithin-more : (m : ℕ) {k j : ℕ} → FieldWithin d l seeds k j → FieldWithin d l seeds (m + k) j
  FieldWithin-more zero {k} w = let e : 0 + k ≡ k = omega arith in rw e w
  FieldWithin-more (suc m) {k} w =
      let e : suc m + k ≡ suc (m + k) = omega arith in rw e (FieldWithin-suc (FieldWithin-more m w))

  FieldWithin-block :
      (v : IsLayout l) {k i j : ℕ}
      → FieldWithin d l seeds k i
      → Together l i j
      → FieldWithin d l seeds k j
  FieldWithin-block v {k} {i} {j} (seed {i = i'} s t) u = seed s (Together-trans l v i' i j t u)
  FieldWithin-block v {k} {i} {j} (hop {i' = i'} w a t) u = hop w a (Together-trans l v i' i j t u)

module _ (d : AbtmDualTopology) (blocks : List DofBlock) (l : FieldAwareDofLayout)
    (fitting : Fitting d blocks l) (v : IsLayout l) (seeds : ℕ → Bool) where
  -- After k hops: the region is what lies within k hops, and what left the frontier is closed.
  record Inv (k : ℕ) (g : FieldAwareRegionGrowth) : Type 0 where
    masks : Masks d blocks l fitting g
    inside : (j : ℕ) → member g.frontier j ≡ true → member g.region j ≡ true
    sound : (j : ℕ) → member g.region j ≡ true → FieldWithin d l seeds k j
    seeded : (i j : ℕ) → seeds i ≡ true → Together l i j → member g.region j ≡ true
    complete : (j : ℕ) → FieldWithin d l seeds k j → member g.region j ≡ true
    closed :
        (i i' j : ℕ)
        → member g.region i ≡ true
        → member g.frontier i ≡ false
        → adjacent d i i' ≡ true
        → Together l i' j
        → member g.region j ≡ true

  module _ (k : ℕ) (g g' : FieldAwareRegionGrowth) (inv : Inv k g)
      (grew : Grew d blocks l fitting g g') where
    kept : (j : ℕ) → member g.region j ≡ true → member g'.region j ≡ true
    kept j m = grew.region_at j ∙ rw m refl

    reaches : (j : ℕ) → Reached d blocks l fitting g j → member g'.region j ≡ true
    reaches j r = grew.region_at j ∙ elim (Bool-cases (member g.region j)) [
      | inl old ↦ rw old refl
      | inr new ↦ rw (new, grew.comes j r new) refl
    ]

    covers :
        (i i' j : ℕ)
        → member g.region i ≡ true
        → adjacent d i i' ≡ true
        → Together l i' j
        → member g'.region j ≡ true
    covers i i' j m a t = elim (Bool-cases (member g.frontier i)) [
      | inl front ↦ reaches j (along i i' front a t)
      | inr done ↦ kept j (inv.closed i i' j m done a t)
    ]

    fresh : (j : ℕ) → Reached d blocks l fitting g j → FieldWithin d l seeds (suc k) j
    fresh j (still i s t) = FieldWithin-suc (FieldWithin-block v (inv.sound i (inv.inside i s)) t)
    fresh j (along i i' s a t) = hop (inv.sound i (inv.inside i s)) a t

    within_sound :
        (j : ℕ)
        → (member g.region j || member g'.frontier j) ≡ true
        → FieldWithin d l seeds (suc k) j
    within_sound j m = elim (Bool-cases (member g.region j)) [
      | inl old ↦ FieldWithin-suc (inv.sound j old)
      | inr new ↦ fresh j (grew.came j (rw new at m))
    ]

    covered : (j : ℕ) → FieldWithin d l seeds (suc k) j → member g'.region j ≡ true
    covered j (seed s t) = kept j (inv.seeded _ j s t)
    covered j (hop w a t) = covers _ _ j (inv.complete _ w) a t

    old_only :
        (i : ℕ)
        → member g'.region i ≡ true
        → member g'.frontier i ≡ false
        → member g.region i ≡ true
    old_only i m out = ground (arith, grew.region_at i)

    keeps : Inv (suc k) g'
    keeps = record {
      masks = grew.masks;
      inside = λ j f. grew.region_at j ∙ ground (arith, f);
      sound = λ j m. within_sound j (sym (grew.region_at j) ∙ m);
      seeded = λ i j s t. kept j (inv.seeded i j s t);
      complete = covered;
      closed = λ i i' j m out a t. covers i i' j (old_only i m out) a t;
    }

  -- With an empty frontier the region is closed: no number of hops leaves it.
  stays :
      (k m : ℕ) (g : FieldAwareRegionGrowth)
      → Inv k g
      → ((i : ℕ) → member g.frontier i ≡ false)
      → (j : ℕ) → FieldWithin d l seeds m j
      → member g.region j ≡ true
  stays k m g inv none j (seed s t) = inv.seeded _ j s t
  stays k m g inv none j (hop {i = i} {i' = i'} w a t) =
      inv.closed i i' j (stays k _ g inv none i w) (none i) a t

  record Grown (k : ℕ) (g : FieldAwareRegionGrowth) : Type 0 where
    valid : IsValid g.region
    same_len : g.region.len ≡ sum_components blocks
    members : (j : ℕ) → (member g.region j ≡ true) ↔ FieldWithin d l seeds k j

  field_loop-Grown :
      (hops k : ℕ) (g : FieldAwareRegionGrowth)
      → Inv k g
      → (g' : FieldAwareRegionGrowth) × (field_loop d l hops g ≡ ok g') × Grown (hops + k) g'
  unfolding field_loop
  field_loop-Grown zero k g inv =
      let e : 0 + k ≡ k = omega arith in
      (
        g,
        refl,
        rw e (record {
          valid = inv.masks.region_ok;
          same_len = inv.masks.region_len;
          members = λ j. (inv.sound j, inv.complete j);
        }),
      )
  field_loop-Grown (suc hops) k g inv = elim (Bool-cases (is_empty g.frontier)) [
    | inl stop ↦ (
      g,
      rw stop refl,
      record {
        valid = inv.masks.region_ok;
        same_len = inv.masks.region_len;
        members = λ j. (
          λ m. FieldWithin-more (suc hops) (inv.sound j m),
          stays k (suc hops + k) g inv ((is_empty_lem g.frontier inv.masks.frontier_ok).0 stop) j,
        );
      },
    )
    | inr more ↦
        let (g', one, grew) = field_hop-Grew d blocks l fitting g inv.masks in
        let (g'', rest, grown) = field_loop-Grown hops (suc k) g' (keeps k g g' inv grew) in
        let e : suc hops + k ≡ hops + suc k = omega arith in (g'', rw (more, one) rest, rw e grown)
  ]

  -- The loop that counts the blocks of the region returns.
  counts :
      (region : DofMask) (k count : ℕ) (bs : List DofBlock)
      → IsValid region
      → k + length bs ≡ length l.blocks
      → (c : ℕ) × (try_fold (count_block l region) count (enumerate k bs) ≡ ok c)
  unfolding try_fold count_block
  counts region k count [] valid size = (count, refl)
  counts region k count (b ∷ bs) valid size =
      let one : count_block l region count (k, b)
          ≡ ok (if member region (offset l v k) then count + 1 else count) =
        rw (block_range-eq-ok l v k (omega arith), contains-eq-member region (offset l v k) valid)
          refl in
      let (c, rest) =
        counts region (suc k) (if member region (offset l v k) then count + 1 else count) bs valid
          (omega arith) in
      (c, rw one rest)

validate_square_matrix_size-ok :
    (l : FieldAwareDofLayout) (v : IsLayout l) (nrows ncols : ℕ)
    → nrows ≡ total l v
    → ncols ≡ total l v
    → validate_square_matrix_size l nrows ncols ≡ ok tt
unfolding validate_square_matrix_size
validate_square_matrix_size-ok l v nrows ncols r c =
    rw (total_dofs-eq-ok l v, lt→ltb _ _ v.fits, eq→== _ _ r, eq→== _ _ c) refl

check_mask_layout-ok :
    (l : FieldAwareDofLayout) (v : IsLayout l) (m : DofMask)
    → m.len ≡ total l v
    → check_mask_layout l m ≡ ok tt
unfolding check_mask_layout
check_mask_layout-ok l v m e = rw (total_dofs-eq-ok l v, lt→ltb _ _ v.fits, eq→== _ _ (sym e)) refl

-- On a validated dual topology of a square matrix over the DOFs of a layout that `new` returned, with
-- sizes that fit the machine, and a valid seed mask over those DOFs, `grow_field_aware_region`
-- returns, and the region of its result is a valid mask of exactly the DOFs within `hops` hops of a
-- seed, where a hop is a structural edge followed by whole blocks, and the seeds' blocks are whole.
pub grow_field_aware_region-FieldWithin :
    (d : AbtmDualTopology) (blocks : List DofBlock) (l : FieldAwareDofLayout) (seeds : DofMask)
    (hops : ℕ)
    → Fitting d blocks l
    → IsValid seeds
    → seeds.len ≡ sum_components blocks
    → (g : FieldAwareRegionGrowth) × (grow_field_aware_region d l seeds hops ≡ ok g)
      × IsValid g.region
      × (g.region.len ≡ sum_components blocks)
      × ((j : ℕ) → (member g.region j ≡ true) ↔ FieldWithin d l (member seeds) hops j)
unfolding grow_field_aware_region
grow_field_aware_region-FieldWithin d blocks l seeds hops fitting valid len =
    let (same, v) = (new_iff blocks l).0 fitting.built in
    let sums : sum_components l.blocks ≡ sum_components blocks = ap sum_components same in
    let (closed, closes, closed_ok, closed_len, members) =
      (close_to_field_blocks-Together blocks l seeds fitting.built valid).0 len in
    let begin : Inv d blocks l fitting v (member seeds) 0 (start_fields seeds closed hops) =
      record {
        masks = record {
          region_ok = closed_ok;
          frontier_ok = closed_ok;
          region_len = closed_len ∙ len;
          frontier_len = closed_len ∙ len;
        };
        inside = λ j m. m;
        sound = λ j m. let (i, t, s) = (members j).0 m in seed s t;
        seeded = λ i j s t. (members j).1 (i, t, s);
        complete = λ j w. (members j).1 (at_start w);
        closed = λ i i' j m out a t. absurd (cc (m, out));
      } in
    let (g, grows, grown) = field_loop-Grown d blocks l fitting v (member seeds) hops 0 _ begin in
    let (c, counted) =
      counts d blocks l fitting v (member seeds) g.region 0 0 l.blocks grown.valid (omega arith) in
    let s = g.stats in
    let all_hops : hops + 0 ≡ hops = omega arith in
    (
      record g { stats = record s { region_dofs = mask_count_ones g.region; region_blocks = c } },
      rw
          (
            validate_square_matrix_size-ok l v d.rows.nrows d.rows.ncols (fitting.rows ∙ sym sums)
                (fitting.columns ∙ sym sums),
            check_mask_layout-ok l v seeds (len ∙ sym sums),
            closes,
            grows,
            counted,
          )
          refl,
      grown.valid,
      grown.same_len,
      rw all_hops at grown.members,
    )
