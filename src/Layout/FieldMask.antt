-- ===== src/Layout/FieldMask.antt =====
-- `field_mask` (dof_layout.rs) against `locate`.
use hybit.Base.{
  ℕ, ◌+◌, ◌-◌, ◌/◌, ◌<◌, ◌≡◌, ◌↔◌, refl, sym, ap, ◌∙◌, arith, Bool, true, false, ◌&&◌, ◌||◌, ◌==◌,
  ltb, List, some, none, length, get_elem?, ok, two_64, Bool-cases, inl, inr, lt→ltb, ltb→lt,
  ltb→le, le→leb, at-eq-ok, range, foldl, Option-cases, eq→==,
}
use hybit.Mask
use hybit.Mask.{DofMask, or_word}
use hybit.Mask.Valid.{member, IsValid, IsMaskOf, member-new, len-new, new-IsValid}
use hybit.Layout.{
  DofBlock, DofAddress, FieldAwareDofLayout, new, locate, field_bits, add_field_block, field_mask,
}
use hybit.Layout.Valid.{IsLayout, sum_components, total_dofs-eq-ok, new_iff}
use hybit.Layout.Locate.{
  AllFit, offset, total, size, block_of, offset_bounds, locate-eq-ok, locate_beyond,
}
use hybit.Layout.Spans.{Holds, Holds-same, fold_span, bit-field_bits, field_bits-lt}
use hybit.Layout.Blocks.{in_block, span-eq, get_elem?-lt, fill_blocks}

has_field : List DofBlock → ℕ → ℕ → Bool
has_field blocks field k = elim (get_elem? blocks k) [ none ↦ false | some b ↦ b.field_id == field ]

has_field-eq :
    (blocks : List DofBlock) (field k : ℕ) (b : DofBlock)
    → get_elem? blocks k ≡ some b
    → has_field blocks field k ≡ (b.field_id == field)
unfolding has_field
has_field-eq blocks field k b get = rw (get, has_field) refl

has_field-inv :
    (blocks : List DofBlock) (field k : ℕ)
    → has_field blocks field k ≡ true
    → (b : DofBlock) × (get_elem? blocks k ≡ some b) × (b.field_id ≡ field)
unfolding has_field
has_field-inv blocks field k h = elim (Option-cases (get_elem? blocks k)) [
  | inl empty ↦ absurd (ground (arith, empty))
  | inr (b, get) ↦ (b, get, ground (arith, get))
]

module _ (l : FieldAwareDofLayout) (v : IsLayout l) (field : ℕ) where
  adds :
      (k : ℕ) (b : DofBlock)
      → get_elem? l.blocks k ≡ some b
      → (m : DofMask) → IsValid m
      → m.len ≡ total l v
      → (m' : DofMask) × (add_field_block l field m (k, b) ≡ ok m')
        × Holds (total l v) (λ j. member m j || (has_field l.blocks field k && in_block l v k j)) m'
  unfolding add_field_block
  adds k b get m valid e = elim (Bool-cases (b.field_id == field)) [
    | inl chosen ↦
        let h : k < length l.blocks = get_elem?-lt l.blocks k b get in
        let bounds = offset_bounds l v k h in
        let start = offset l v k in
        let last = offset l v (k + 1) - 1 in
        (
          foldl (λ m w. or_word m w (field_bits start last w)) m
              (range (start / 64) (last / 64 + 1 - start / 64)),
          rw
              (
                chosen,
                at-eq-ok l.offsets k 0 (omega (arith, size l v)),
                lt→ltb (offset l v k) two_64 (omega (arith, v.fits)),
                at-eq-ok l.offsets (k + 1) 0 (omega (arith, size l v)),
                lt→ltb (offset l v (k + 1)) two_64 (omega (arith, v.fits)),
                le→leb 1 (offset l v (k + 1)) (omega arith),
              )
              refl,
          Holds-same (λ j. rw (span-eq l v k j h, has_field-eq l.blocks field k b get, chosen) refl)
              (fold_span (field_bits start last) start last (total l v) m (field_bits-lt start last)
                (λ w j lo hi lt. bit-field_bits start last w j lo hi lt) (omega arith) valid e),
        )
    | inr other ↦ (
      m,
      rw other refl,
      record {
        valid = valid;
        same_len = e;
        members = λ j. rw (has_field-eq l.blocks field k b get, other) (ground arith);
      },
    )
  ]

  field_mask-runs :
      IsMaskOf
        (total l v)
        (λ j. ltb j (total l v) && has_field l.blocks field (block_of l v j))
        (field_mask l field)
  unfolding field_mask
  field_mask-runs =
      let (m, run, holds) =
        fill_blocks l v (has_field l.blocks field) (add_field_block l field) (Mask.new (total l v))
          adds (new-IsValid (total l v)) (len-new (total l v)) (member-new (total l v)) in
      record {
        mask = m;
        returns = rw (total_dofs-eq-ok l v, lt→ltb _ _ v.fits) run;
        valid = holds.valid;
        same_len = holds.same_len;
        members = holds.members;
      }

module _ (l : FieldAwareDofLayout) (v : IsLayout l) (field : ℕ) (fit : AllFit l.blocks)
    (blocks : List DofBlock) (same : l.blocks ≡ blocks) (d : ℕ) where
  located :
      (ltb d (total l v) && has_field l.blocks field (block_of l v d)) ≡ true
      → (a : DofAddress) × (b : DofBlock) × (locate l d ≡ ok (some a))
        × (get_elem? blocks a.block_index ≡ some b)
        × (b.field_id ≡ field)
  located h =
      let lt : d < total l v = ground arith in
      let (b, get, e) = has_field-inv l.blocks field (block_of l v d) (ground arith) in
      (_, b, locate-eq-ok l v fit d lt, rw (sym same) get, e)

  chosen :
      (a : DofAddress) (b : DofBlock)
      → locate l d ≡ ok (some a)
      → get_elem? blocks a.block_index ≡ some b
      → b.field_id ≡ field
      → (ltb d (total l v) && has_field l.blocks field (block_of l v d)) ≡ true
  chosen a b found get e = elim (Bool-cases (ltb d (total l v))) [
    | inl lt ↦
        let place = sym (locate-eq-ok l v fit d (ltb→lt _ _ lt)) ∙ found in
        let index : block_of l v d ≡ a.block_index = cc place in
        rw (lt, index, has_field-eq l.blocks field a.block_index b (rw same get)) (eq→== _ _ e)
    | inr ge ↦ absurd (cc (locate_beyond l v fit d (ltb→le _ _ ge), found))
  ]

-- For a layout that `new` returned, with u32 component counts, `field_mask` returns a valid mask over
-- all DOFs, whose elements are the DOFs that `locate` finds in a block of that field.
pub field_mask-locate :
    (blocks : List DofBlock) (l : FieldAwareDofLayout) (field : ℕ)
    → new blocks ≡ ok l
    → AllFit blocks
    → (m : DofMask) × (field_mask l field ≡ ok m)
      × IsValid m
      × (m.len ≡ sum_components blocks)
      × ((d : ℕ)
          → (member m d ≡ true) ↔ (
              (a : DofAddress) × (b : DofBlock) × (locate l d ≡ ok (some a))
              × (get_elem? blocks a.block_index ≡ some b)
              × (b.field_id ≡ field)))
field_mask-locate blocks l field h fit =
    let (same, v) = (new_iff blocks l).0 h in
    let fit' : AllFit l.blocks = rw same fit in
    let r = field_mask-runs l v field in
    (
      r.mask,
      r.returns,
      r.valid,
      r.same_len ∙ ap sum_components same,
      λ d. (
        λ m. located l v field fit' blocks same d (sym (r.members d) ∙ m),
        λ (a, b, found, get, field_ok).
            r.members d ∙ chosen l v field fit' blocks same d a b found get field_ok,
      ),
    )
