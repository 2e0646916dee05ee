-- ===== src/Layout/Locate.antt =====
-- `locate` and `block_range` of a layout (dof_layout.rs).
use hybit.Base.{
  ℕ, zero, suc, ◌+◌, ◌-◌, ◌%◌, ◌≤◌, ◌<◌, ◌≡◌, refl, sym, ap, ◌∙◌, arith, true, false, leb, ltb,
  List, [], ◌∷◌, length, get_or, partition_point, ok, at-eq-ok, two_32, ltb→lt, ltb→le, le→leb,
  lt→ltb, le→ltb, Bool-cases, inl, inr, some, none, if◌then◌else◌,
}
use hybit.Layout.{new, DofBlock, DofAddress, FieldAwareDofLayout, block_range, locate}
use hybit.Layout.Valid.{sum_components, ends_from, AllPositive, IsLayout, total_dofs-eq-ok, new_iff}

-- Component counts are u32.
abbrev pub AllFit : List DofBlock → Type 0
AllFit [] = Unit
AllFit (b ∷ bs) = (b.components < two_32) × AllFit bs

length-ends : (s : ℕ) (bs : List DofBlock) → length (ends_from s bs) ≡ length bs
length-ends s [] = refl
length-ends s (b ∷ bs) = ap suc (length-ends (s + b.components) bs)

-- The number of the block that holds d, of blocks from s on.
pub block_at : ℕ → List DofBlock → ℕ → ℕ
block_at s [] d = 0
block_at s (b ∷ bs) d =
    if ltb d (s + b.components) then 0 else suc (block_at (s + b.components) bs d)

abbrev pub offset_at : ℕ → List DofBlock → ℕ → ℕ
offset_at s bs k = get_or (s ∷ ends_from s bs) k 0

-- The block found holds d.
block_at_holds :
    (s : ℕ) (bs : List DofBlock) (d : ℕ)
    → s ≤ d
    → d < s + sum_components bs
    → (block_at s bs d < length bs)
      × (offset_at s bs (block_at s bs d) ≤ d)
      × (d < offset_at s bs (suc (block_at s bs d)))
unfolding block_at
block_at_holds s [] d le lt = absurd (omega arith)
block_at_holds s (b ∷ bs) d le lt = elim (Bool-cases (ltb d (s + b.components))) [
  | inl here ↦ rw here (omega arith, le, ltb→lt _ _ here)
  | inr later ↦
      let (i, j, k) = block_at_holds (s + b.components) bs d (ltb→le _ _ later) (omega arith) in
      rw later (omega arith, j, k)
]

point :
    (s : ℕ) (bs : List DofBlock) (d : ℕ)
    → s ≤ d
    → d < s + sum_components bs
    → partition_point (λ o. leb o d) (s ∷ ends_from s bs) ≡ suc (block_at s bs d)
unfolding block_at
point s [] d le lt = absurd (omega arith)
point s (b ∷ bs) d le lt = elim (Bool-cases (ltb d (s + b.components))) [
  | inl here ↦
      let past : leb (s + b.components) d ≡ false = ground arith in
      rw (here, le→leb s d le, past) refl
  | inr later ↦
      rw (later, le→leb s d le, point (s + b.components) bs d (ltb→le _ _ later) (omega arith)) refl
]

-- No other block holds it.
block_at_only :
    (s : ℕ) (bs : List DofBlock) (k d : ℕ)
    → k < length bs
    → offset_at s bs k ≤ d
    → d < offset_at s bs (suc k)
    → (s ≤ d) × (block_at s bs d ≡ k)
unfolding block_at
block_at_only s [] k d h le lt = absurd (omega arith)
block_at_only s (b ∷ bs) zero d h le lt = rw (lt→ltb d (s + b.components) lt) (le, refl)
block_at_only s (b ∷ bs) (suc k) d h le lt =
    let (past, rest) = block_at_only (s + b.components) bs k d (omega arith) le lt in
    rw (le→ltb d (s + b.components) past) (omega arith, ap suc rest)

-- A block has an offset, and ends inside the layout.
block_ends :
    (s : ℕ) (bs : List DofBlock) (k : ℕ)
    → k < length bs
    → AllPositive bs
    → (s ≤ offset_at s bs k)
      × (offset_at s bs k < offset_at s bs (suc k))
      × (offset_at s bs (suc k) ≤ s + sum_components bs)
block_ends s [] k h p = absurd (omega arith)
block_ends s (b ∷ bs) zero h p = omega arith
block_ends s (b ∷ bs) (suc k) h p =
    omega (arith, block_ends (s + b.components) bs k (omega arith) p.1)

block_fits :
    (s : ℕ) (bs : List DofBlock) (k : ℕ)
    → k < length bs
    → AllFit bs
    → offset_at s bs (suc k) < offset_at s bs k + two_32
block_fits s [] k h f = absurd (omega arith)
block_fits s (b ∷ bs) zero h f = omega arith
block_fits s (b ∷ bs) (suc k) h f = block_fits (s + b.components) bs k (omega arith) f.1

module _ (l : FieldAwareDofLayout) (v : IsLayout l) where
  abbrev pub offset : ℕ → ℕ
  offset k = get_or l.offsets k 0

  offset-eq : (k : ℕ) → offset k ≡ offset_at 0 l.blocks k
  offset-eq k = ap (λ xs. get_or xs k 0) v.offsets

  pub size : length l.offsets ≡ suc (length l.blocks)
  size = ap length v.offsets ∙ ap suc (length-ends 0 l.blocks)

  -- `block_range` gives the offsets of a block and of the next.
  pub block_range-eq-ok :
      (k : ℕ) → k < length l.blocks → block_range l k ≡ ok (some (offset k, offset (k + 1)))
  unfolding block_range
  block_range-eq-ok k h =
      let inside : leb (length l.blocks) k ≡ false = ground arith in
      rw
        (
          inside,
          at-eq-ok l.offsets k 0 (omega (arith, size)),
          at-eq-ok l.offsets (k + 1) 0 (omega (arith, size)),
        )
        refl

  abbrev pub total : ℕ
  total = sum_components l.blocks

  pub block_of : ℕ → ℕ
  block_of d = block_at 0 l.blocks d

  pub block_of_holds :
      (d : ℕ)
      → d < total
      → (block_of d < length l.blocks) × (offset (block_of d) ≤ d) × (d < offset (block_of d + 1))
  unfolding block_of
  block_of_holds d h =
      let (i, j, k) = block_at_holds 0 l.blocks d (omega arith) (omega arith) in
      let e : block_at 0 l.blocks d + 1 ≡ suc (block_at 0 l.blocks d) = omega arith in
      (
        i,
        rw (offset-eq (block_at 0 l.blocks d)) j,
        rw (e, offset-eq (suc (block_at 0 l.blocks d))) k,
      )

  pub block_of_only :
      (k d : ℕ) → k < length l.blocks → offset k ≤ d → d < offset (k + 1) → block_of d ≡ k
  unfolding block_of
  block_of_only k d h le lt =
      let e : k + 1 ≡ suc k = omega arith in
      (block_at_only 0 l.blocks k d h (rw (sym (offset-eq k)) le)
        (rw (sym (offset-eq (suc k)), sym e) lt)).1

  pub offset_bounds :
      (k : ℕ) → k < length l.blocks → (offset k < offset (k + 1)) × (offset (k + 1) ≤ total)
  offset_bounds k h =
      let e : k + 1 ≡ suc k = omega arith in
      rw (e, offset-eq k, offset-eq (suc k)) (omega (arith, block_ends 0 l.blocks k h v.positive))

  module _ (fit : AllFit l.blocks) where
    component_fits : (k : ℕ) → k < length l.blocks → offset (k + 1) < offset k + two_32
    component_fits k h =
        let e : k + 1 ≡ suc k = omega arith in
        rw (e, offset-eq k, offset-eq (suc k)) (block_fits 0 l.blocks k h fit)

    -- Inside the layout the answer is the block that holds d, and the place in it.
    pub locate-eq-ok :
        (d : ℕ)
        → d < total
        → locate l d
          ≡ ok (some (record { block_index = block_of d; component = d - offset (block_of d) }))
    unfolding locate block_of
    locate-eq-ok d h =
        let (i, j, k) = block_of_holds d h in
        let inside : leb total d ≡ false = ground arith in
        let found : partition_point (λ o. leb o d) l.offsets ≡ suc (block_of d) =
          ap (partition_point (λ o. leb o d)) v.offsets
          ∙ point 0 l.blocks d (omega arith) (omega arith) in
        let small : (d - offset (block_of d)) % two_32 ≡ d - offset (block_of d) =
          omega (arith, component_fits (block_of d) i) in
        let back : suc (block_of d) - 1 ≡ block_of d = omega arith in
        let one : leb 1 (suc (block_of d)) ≡ true = le→leb _ _ (omega arith) in
        rw
          (
            total_dofs-eq-ok l v,
            inside,
            found,
            one,
            back,
            at-eq-ok l.offsets (block_of d) 0 (omega (arith, size)),
            le→leb _ _ j,
            small,
          )
          refl

    pub locate_beyond : (d : ℕ) → total ≤ d → locate l d ≡ ok none
    unfolding locate
    locate_beyond d h = rw (total_dofs-eq-ok l v, le→leb _ _ h) refl

block_range_beyond :
    (l : FieldAwareDofLayout) (k : ℕ) → length l.blocks ≤ k → block_range l k ≡ ok none
unfolding block_range
block_range_beyond l k h = rw (le→leb _ _ h) refl

pub block_range-inv :
    (l : FieldAwareDofLayout) (v : IsLayout l) (k start end : ℕ)
    → block_range l k ≡ ok (some (start, end))
    → (k < length l.blocks) × (offset l v k ≡ start) × (offset l v (k + 1) ≡ end)
block_range-inv l v k start end h = elim (Bool-cases (ltb k (length l.blocks))) [
  | inl inside ↦
      let lt = ltb→lt _ _ inside in let e = sym (block_range-eq-ok l v k lt) ∙ h in (lt, cc e, cc e)
  | inr outside ↦ absurd (cc (block_range_beyond l k (ltb→le _ _ outside), h))
]

-- On a layout that `new` returned, with u32 component counts, `locate` returns nothing from the
-- total number of DOFs on; below it, the number of a block whose range holds the DOF and the
-- distance of the DOF from the start of the range; and the DOF at any distance inside the range of
-- a block is located at that block and that distance.
pub locate-block_range :
    (blocks : List DofBlock) (l : FieldAwareDofLayout)
    → new blocks ≡ ok l
    → AllFit blocks
    → ((d : ℕ) → sum_components blocks ≤ d → locate l d ≡ ok none)
      × ((d : ℕ)
          → d < sum_components blocks
          → (a : DofAddress) × (start : ℕ) × (end : ℕ) × (locate l d ≡ ok (some a))
            × (block_range l a.block_index ≡ ok (some (start, end)))
            × (start + a.component ≡ d)
            × (d < end))
      × ((k c start end : ℕ)
          → block_range l k ≡ ok (some (start, end))
          → start + c < end
          → locate l (start + c) ≡ ok (some (record { block_index = k; component = c })))
locate-block_range blocks l h fit =
    let (same, v) = (new_iff blocks l).0 h in
    let fit' : AllFit l.blocks = rw same fit in
    let totals : sum_components l.blocks ≡ sum_components blocks = ap sum_components same in
    (
      λ d out. locate_beyond l v fit' d (rw totals out),
      λ d inside.
          let lt : d < sum_components l.blocks = rw totals inside in
          let (i, j, k) = block_of_holds l v d lt in
          (
            record { block_index = block_of l v d; component = d - offset l v (block_of l v d) },
            offset l v (block_of l v d),
            offset l v (block_of l v d + 1),
            locate-eq-ok l v fit' d lt,
            block_range-eq-ok l v (block_of l v d) i,
            omega (arith, j),
            k,
          ),
      λ k c start end range inside.
          let (lt, s, e) = block_range-inv l v k start end range in
          let only : block_of l v (start + c) ≡ k =
            block_of_only l v k (start + c) lt (omega (arith, s)) (omega (arith, e)) in
          let place : start + c - offset l v k ≡ c = omega (arith, s) in
          locate-eq-ok l v fit' (start + c) (omega (arith, e, offset_bounds l v k lt))
          ∙ rw (only, place) refl,
    )
