-- ===== src/FieldRegion/Hops.antt =====
-- One hop of `grow_field_aware_region` (field_region.rs): a structural edge, and then the blocks.
use hybit.Base.{ℕ, suc, ◌+◌, ◌<◌, ◌≡◌, refl, sym, ap, ◌∙◌, arith, Bool, true, false, ◌||◌, List, ok}
use hybit.Mask.{DofMask}
use hybit.Mask.Valid.{member, IsValid}
use hybit.Mask.Algebra.{assign-IsMaskOf}
use hybit.Dual
use hybit.Dual.{AbtmDualTopology}
use hybit.Topology.RowCheck.{Fits}
use hybit.Region.Hops.{adjacent}
use hybit.Region.Growth
use hybit.Region.Growth.{Within, and_left}
use hybit.Region.Reach.{IsRegionOf, grow_undirected_region_lem}
use hybit.Layout.{DofBlock, FieldAwareDofLayout, new}
use hybit.Layout.Valid.{IsLayout, sum_components, new_iff}
use hybit.Layout.Locate.{
  offset, total, block_of, block_of_holds, block_of_only, offset_bounds, block_range-eq-ok,
  block_range-inv,
}
use hybit.FieldRegion.{FieldAwareRegionGrowth, add_hop, field_hop}
use hybit.FieldRegion.Closure.{Together, close_to_field_blocks-Together}

module _ (l : FieldAwareDofLayout) (v : IsLayout l) where
  pub Together-refl : (i : ℕ) → i < total l v → Together l i i
  Together-refl i h =
      let (k, lo, hi) = block_of_holds l v i h in
      (block_of l v i, _, _, block_range-eq-ok l v (block_of l v i) k, lo, hi, lo, hi)

  pub Together-trans : (i j m : ℕ) → Together l i j → Together l j m → Together l i m
  Together-trans i j m (k, s, e, range, a, b, c, d) (k', s', e', range', a', b', c', d') =
      let (lt, os, oe) = block_range-inv l v k s e range in
      let (lt', os', oe') = block_range-inv l v k' s' e' range' in
      let same : k ≡ k' =
        sym (block_of_only l v k j lt (omega (arith, os)) (omega (arith, oe)))
        ∙ block_of_only l v k' j lt' (omega (arith, os')) (omega (arith, oe')) in
      let starts : s ≡ s' = sym os ∙ ap (λ k. offset l v k) same ∙ os' in
      let ends : e ≡ e' = sym oe ∙ ap (λ k. offset l v (k + 1)) same ∙ oe' in
      (k, s, e, range, a, b, omega (arith, starts), omega (arith, ends))

  pub Together-below : (i j : ℕ) → Together l i j → (i < total l v) × (j < total l v)
  Together-below i j (k, s, e, range, a, b, c, d) =
      let (lt, os, oe) = block_range-inv l v k s e range in
      omega (arith, offset_bounds l v k lt, oe)

-- j is within k hops of a seed: a seed's block, and with each hop a structural edge, along a row or a
-- column, to a DOF of its block.
pub data FieldWithin (d : AbtmDualTopology) (l : FieldAwareDofLayout) (seeds : ℕ → Bool)
    : ℕ → ℕ → Type 0 where
  seed : {k i j : ℕ} → seeds i ≡ true → Together l i j → FieldWithin d l seeds k j
  hop :
      {k i i' j : ℕ}
      → FieldWithin d l seeds k i
      → adjacent d i i' ≡ true
      → Together l i' j
      → FieldWithin d l seeds (suc k) j

-- A validated dual topology of a square matrix over the DOFs of a layout.
pub record Fitting (d : AbtmDualTopology) (blocks : List DofBlock) (l : FieldAwareDofLayout)
    : Type 0 where
  pub accepted : Dual.validate d ≡ ok tt
  pub rows_fit : Fits d.rows
  pub columns_fit : Fits d.columns
  pub rows : d.rows.nrows ≡ sum_components blocks
  pub columns : d.rows.ncols ≡ sum_components blocks
  pub built : new blocks ≡ ok l

module _ (d : AbtmDualTopology) (blocks : List DofBlock) (l : FieldAwareDofLayout)
    (fitting : Fitting d blocks l) where
  abbrev n : ℕ
  n = sum_components blocks

  -- A DOF of one block with a frontier DOF or with a neighbour of one.
  pub data Reached (g : FieldAwareRegionGrowth) (j : ℕ) : Type 0 where
    still : (i : ℕ) → member g.frontier i ≡ true → Together l i j → Reached g j
    along :
        (i i' : ℕ)
        → member g.frontier i ≡ true
        → adjacent d i i' ≡ true
        → Together l i' j
        → Reached g j

  pub record Masks (g : FieldAwareRegionGrowth) : Type 0 where
    pub region_ok : IsValid g.region
    pub frontier_ok : IsValid g.frontier
    pub region_len : g.region.len ≡ n
    pub frontier_len : g.frontier.len ≡ n

  pub record Grew (g g' : FieldAwareRegionGrowth) : Type 0 where
    pub masks : Masks g'
    pub came : (j : ℕ) → member g'.frontier j ≡ true → Reached g j
    pub comes : (j : ℕ) → Reached g j → member g.region j ≡ false → member g'.frontier j ≡ true
    pub region_at : (j : ℕ) → member g'.region j ≡ (member g.region j || member g'.frontier j)

  near :
      (g : FieldAwareRegionGrowth) (i j : ℕ)
      → Within d g.frontier.len (member g.frontier) 1 i
      → Together l i j
      → Reached g j
  near g i j (Growth.seed s) t = still i s t
  near g i j (Growth.hop {i = i0} (Growth.seed s) a lt) t = along i0 i s a t

  nearby :
      (g : FieldAwareRegionGrowth) (m : DofMask)
      → g.frontier.len ≡ n
      → IsRegionOf d g.frontier.len (member g.frontier) 1 m
      → (j : ℕ) → Reached g j
      → (i : ℕ) × Together l i j × (member m i ≡ true)
  nearby g m len r j (still i s t) = (i, t, (r.members i).1 (Growth.seed s))
  nearby g m len r j (along i i' s a t) =
      let (same, v) = (new_iff blocks l).0 fitting.built in
      let inside : i' < g.frontier.len =
        omega (arith, (Together-below l v i' j t).0, len, ap sum_components same) in
      (i', t, (r.members i').1 (Growth.hop (Growth.seed s) a inside))

  pub field_hop-Grew :
      (g : FieldAwareRegionGrowth)
      → Masks g
      → (g' : FieldAwareRegionGrowth) × (field_hop d l g ≡ ok g') × Grew g g'
  unfolding field_hop
  field_hop-Grew g m =
      let (step, grown, around) =
        grow_undirected_region_lem d g.frontier 1 fitting.accepted fitting.rows_fit
          fitting.columns_fit (fitting.rows ∙ sym m.frontier_len)
          (fitting.columns ∙ sym m.frontier_len) m.frontier_ok in
      let step_len : step.region.len ≡ n = around.same_len ∙ m.frontier_len in
      let (closed, closes, closed_ok, closed_len, members) =
        (close_to_field_blocks-Together blocks l step.region fitting.built around.valid).0
          step_len in
      let next =
        (assign-IsMaskOf closed g.region closed_ok m.region_ok
          (closed_len ∙ step_len ∙ sym m.region_len)).2 in
      let region =
        (assign-IsMaskOf g.region next.mask m.region_ok next.valid
          (m.region_len ∙ sym (next.same_len ∙ closed_len ∙ step_len))).0 in
      (
        record { region = region.mask; frontier = next.mask; stats = add_hop g.stats step.stats },
        rw (grown, closes, next.returns, region.returns) refl,
        record {
          masks = record {
            region_ok = region.valid;
            frontier_ok = next.valid;
            region_len = region.same_len ∙ m.region_len;
            frontier_len = next.same_len ∙ closed_len ∙ step_len;
          };
          came = λ j f.
              let (i, t, s) = (members j).0 (and_left _ _ (sym (next.members j) ∙ f)) in
              near g i j ((around.members i).0 s) t;
          comes = λ j r out.
              let there : member closed j ≡ true =
                (members j).1 (nearby g step.region m.frontier_len around j r) in
              next.members j ∙ rw (there, out) refl;
          region_at = region.members;
        },
      )
