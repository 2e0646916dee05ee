-- ===== src/FieldRegion/Closure.antt =====
-- `close_to_field_blocks` (field_region.rs) as a closure of sets of DOFs.
use hybit.Base.{
  ℕ, ◌+◌, ◌-◌, ◌/◌, ◌≤◌, ◌<◌, bit_and, ◌≡◌, ◌≢◌, ◌↔◌, refl, sym, ap, ◌∙◌, arith, Bool, true, false,
  ◌&&◌, ◌||◌, ◌==◌, ltb, if◌then◌else◌, List, some, length, get_elem?, ok, err, two_64, Bool-cases,
  inl, inr, lt→ltb, le→leb, eq→==, ne→==, range, foldl,
}
use hybit.Core.{dimension_mismatch}
use hybit.Mask
use hybit.Mask.{DofMask, or_word}
use hybit.Mask.Valid.{member, IsValid, IsMaskOf, member-new, len-new, new-IsValid, word_in_range}
use hybit.Layout.{DofBlock, FieldAwareDofLayout, new, block_range}
use hybit.Layout.Valid.{IsLayout, sum_components, total_dofs-eq-ok, new_iff}
use hybit.Layout.Locate.{
  offset, total, block_of, block_of_holds, block_of_only, offset_bounds, block_range-eq-ok,
  block_range-inv,
}
use hybit.Layout.Spans.{Holds, Holds-same, fold_span}
use hybit.Layout.Blocks.{in_block, span-eq, get_elem?-lt, fill_blocks}
use hybit.FieldRegion.{low_bits, high_bits, block_hit, close_block, close_to_field_blocks}
use hybit.FieldRegion.Words.{bit-span_bits, span_bits-lt, hit_member, member_hit}

-- Some block of the layout holds both.
abbrev pub Together : FieldAwareDofLayout → ℕ → ℕ → Type 0
Together l i j =
    (k : ℕ) × (start : ℕ) × (end : ℕ) × (block_range l k ≡ ok (some (start, end)))
    × (start ≤ i)
    × (i < end)
    × (start ≤ j)
    × (j < end)

module _ (l : FieldAwareDofLayout) (v : IsLayout l) (selected : DofMask) (valid : IsValid selected)
    (same : selected.len ≡ total l v) where
  abbrev hit : ℕ → Bool
  hit k = block_hit selected.words (offset l v k) (offset l v (k + 1)) (offset l v (k + 1) - 1)

  range_fits :
      (k : ℕ) → k < length l.blocks → (offset l v k < two_64) × (offset l v (k + 1) < two_64)
  range_fits k h = omega (arith, offset_bounds l v k h, v.fits)

  abbrev bits : ℕ → ℕ → ℕ
  bits k w = bit_and (low_bits (offset l v k) w) (high_bits (offset l v (k + 1)) w)

  abbrev with_block : ℕ → DofMask → DofMask
  with_block k m =
      foldl (λ m w. or_word m w (bits k w)) m
        (range (offset l v k / 64) ((offset l v (k + 1) - 1) / 64 + 1 - offset l v k / 64))

  close_block-eq-ok :
      (k : ℕ) (b : DofBlock) (m : DofMask)
      → k < length l.blocks
      → close_block l selected m (k, b) ≡ ok (if hit k then with_block k m else m)
  unfolding close_block
  close_block-eq-ok k b m h =
      let (start_fits, end_fits) = range_fits k h in
      rw
        (
          block_range-eq-ok l v k h,
          lt→ltb _ _ start_fits,
          lt→ltb _ _ end_fits,
          le→leb 1 (offset l v (k + 1)) (omega (arith, offset_bounds l v k h)),
        )
        refl

  closes :
      (k : ℕ) (b : DofBlock)
      → get_elem? l.blocks k ≡ some b
      → (m : DofMask) → IsValid m
      → m.len ≡ total l v
      → (m' : DofMask) × (close_block l selected m (k, b) ≡ ok m')
        × Holds (total l v) (λ j. member m j || (hit k && in_block l v k j)) m'
  closes k b get m valid_m e =
      let h : k < length l.blocks = get_elem?-lt l.blocks k b get in
      let bounds = offset_bounds l v k h in
      elim (Bool-cases (hit k)) [
        | inl chosen ↦ (
          with_block k m,
          close_block-eq-ok k b m h ∙ rw chosen refl,
          Holds-same (λ j. rw (span-eq l v k j h, chosen) refl)
              (fold_span (bits k) (offset l v k) (offset l v (k + 1) - 1) (total l v) m
                (λ w. span_bits-lt _ _ w) (λ w j lo hi lt. bit-span_bits _ _ w j bounds.0 lo hi lt)
                (omega arith) valid_m e),
        )
        | inr other ↦ (
          m,
          close_block-eq-ok k b m h ∙ rw other refl,
          record { valid = valid_m; same_len = e; members = λ j. rw other (ground arith) },
        )
      ]

  pub close-runs :
      IsMaskOf
        (total l v)
        (λ j. ltb j (total l v) && hit (block_of l v j))
        (close_to_field_blocks l selected)
  unfolding close_to_field_blocks
  close-runs =
      let (m, run, holds) =
        fill_blocks l v hit (close_block l selected) (Mask.new (total l v)) closes
          (new-IsValid (total l v)) (len-new (total l v)) (member-new (total l v)) in
      record {
        mask = m;
        returns =
            rw (total_dofs-eq-ok l v, lt→ltb _ _ v.fits, same, eq→== (total l v) (total l v) refl)
              run;
        valid = holds.valid;
        same_len = holds.same_len;
        members = holds.members;
      }

  hit-Together :
      (j : ℕ)
      → (ltb j (total l v) && hit (block_of l v j)) ≡ true
      → (i : ℕ) × Together l i j × (member selected i ≡ true)
  hit-Together j h =
      let (k, lo, hi) = block_of_holds l v j (ground arith) in
      let (i, above, below, chosen) =
        hit_member selected valid (offset l v (block_of l v j)) (offset l v (block_of l v j + 1))
          (offset_bounds l v (block_of l v j) k).0 (ground arith) in
      (
        i,
        (
          block_of l v j,
          offset l v (block_of l v j),
          offset l v (block_of l v j + 1),
          block_range-eq-ok l v (block_of l v j) k,
          above,
          below,
          lo,
          hi,
        ),
        chosen,
      )

  Together-hit :
      (i j : ℕ)
      → Together l i j
      → member selected i ≡ true
      → (ltb j (total l v) && hit (block_of l v j)) ≡ true
  Together-hit i j (k, start, end, range, a, b, c, d) chosen =
      let (lt, s, e) = block_range-inv l v k start end range in
      let bounds = offset_bounds l v k lt in
      let inside : i / 64 < length selected.words =
        ground (arith, word_in_range selected.len i, valid.size, same) in
      let only : block_of l v j ≡ k =
        block_of_only l v k j lt (omega (arith, s)) (omega (arith, e)) in
      rw
        (
          lt→ltb j (total l v) (omega (arith, e)),
          only,
          member_hit selected valid (offset l v k) (offset l v (k + 1)) bounds.0 i
              (omega (arith, s)) (omega (arith, e)) inside chosen,
        )
        refl

-- On a layout that `new` returned and a valid mask over its DOFs, `close_to_field_blocks` returns a
-- valid mask over the DOFs, whose elements are those that lie in one block with a selected DOF; a
-- mask over another number of DOFs is refused.
pub close_to_field_blocks-Together :
    (blocks : List DofBlock) (l : FieldAwareDofLayout) (selected : DofMask)
    → new blocks ≡ ok l
    → IsValid selected
    → (selected.len ≡ sum_components blocks
        → (m : DofMask) × (close_to_field_blocks l selected ≡ ok m)
          × IsValid m
          × (m.len ≡ selected.len)
          × ((j : ℕ)
              → (member m j ≡ true) ↔ ((i : ℕ) × Together l i j × (member selected i ≡ true))))
      × (selected.len ≢ sum_components blocks
          → close_to_field_blocks l selected
            ≡ err (dimension_mismatch (sum_components blocks) selected.len))
unfolding close_to_field_blocks
close_to_field_blocks-Together blocks l selected h valid =
    let (blocks_same, v) = (new_iff blocks l).0 h in
    let sums : sum_components l.blocks ≡ sum_components blocks = ap sum_components blocks_same in
    (
      λ same.
          let fits : selected.len ≡ total l v = same ∙ sym sums in
          let r = close-runs l v selected valid fits in
          (
            r.mask,
            r.returns,
            r.valid,
            r.same_len ∙ sym fits,
            λ j. (
              λ m. hit-Together l v selected valid fits j (sym (r.members j) ∙ m),
              λ (i, together, chosen).
                  r.members j ∙ Together-hit l v selected valid fits i j together chosen,
            ),
          ),
      λ other.
          let differ : (sum_components blocks == selected.len) ≡ false =
            ne→== _ _ (λ e. other (sym e)) in
          let fits : sum_components blocks < two_64 = rw (sym sums) v.fits in
          rw (total_dofs-eq-ok l v, sums, lt→ltb _ _ fits, differ) refl,
    )
