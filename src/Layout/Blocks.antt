-- ===== src/Layout/Blocks.antt =====
-- Loops over the blocks of a layout that fill a mask with some of them (dof_layout.rs,
-- field_region.rs).
use hybit.Base.{
  ℕ, zero, suc, ◌+◌, ◌-◌, ◌≤◌, ◌<◌, ◌≡◌, refl, sym, arith, Bool, true, false, ◌&&◌, ◌||◌, ◌==◌, ltb,
  leb, List, [], ◌∷◌, some, length, get_elem?, enumerate, ok, try_fold, Bool-cases, inl, inr,
  le→leb, lt→ltb, ltb→lt, eq→==,
}
use hybit.Core.{Result}
use hybit.Mask.{DofMask}
use hybit.Mask.Valid.{member, IsValid}
use hybit.Layout.{DofBlock, FieldAwareDofLayout}
use hybit.Layout.Valid.{IsLayout}
use hybit.Layout.Locate.{offset, total, block_of, block_of_holds, block_of_only, offset_bounds}
use hybit.Layout.Spans.{Holds, Holds-same, in_span}

pub get_elem?-lt {ℓ} :
    {A : Type ℓ} (xs : List A) (i : ℕ) (x : A) → get_elem? xs i ≡ some x → i < length xs
get_elem?-lt [] i x h = absurd (cc h)
get_elem?-lt (y ∷ xs) zero x h = omega arith
get_elem?-lt (y ∷ xs) (suc i) x h = omega (arith, get_elem?-lt xs i x h)

module _ (l : FieldAwareDofLayout) (v : IsLayout l) where
  abbrev pub in_block : ℕ → ℕ → Bool
  in_block k j = leb (offset l v k) j && ltb j (offset l v (k + 1))

  pub in_block-eq :
      (k j : ℕ) → k < length l.blocks → in_block k j ≡ (ltb j (total l v) && (block_of l v j == k))
  in_block-eq k j h = elim (Bool-cases (in_block k j)) [
    | inl within ↦
        let b : block_of l v j ≡ k = block_of_only l v k j h (ground arith) (ground arith) in
        let s : j < total l v = omega (arith, offset_bounds l v k h, upper within) in
        rw (within, lt→ltb _ _ s, eq→== _ _ b) refl
    | inr without ↦ rw without (sym (elsewhere without))
  ]
    where
      upper : in_block k j ≡ true → j < offset l v (k + 1)
      upper w = ground arith

      within : offset l v k ≤ j → j < offset l v (k + 1) → in_block k j ≡ true
      within lo hi = rw (le→leb _ _ lo, lt→ltb _ _ hi) refl

      elsewhere : in_block k j ≡ false → (ltb j (total l v) && (block_of l v j == k)) ≡ false
      elsewhere w = elim (Bool-cases (ltb j (total l v))) [
        | inl lt ↦
            let (i, lo, hi) = block_of_holds l v j (ltb→lt _ _ lt) in
            elim (Bool-cases (block_of l v j == k)) [
              | inl same ↦
                  let e : block_of l v j ≡ k = ground arith in
                  absurd (cc (within (rw e at lo) (rw e at hi), w))
              | inr differ ↦ rw (lt, differ) refl
            ]
        | inr ge ↦ rw ge refl
      ]

  -- The DOFs of a block, from its first to its last.
  pub span-eq :
      (k j : ℕ)
      → k < length l.blocks
      → (ltb j (total l v) && in_span (offset l v k) (offset l v (k + 1) - 1) j) ≡ in_block k j
  unfolding in_span
  span-eq k j h = ground (arith, offset_bounds l v k h)

  -- A loop over the blocks whose round adds the block when `chosen` says so.
  module _ (chosen : ℕ → Bool) (step : DofMask → ℕ × DofBlock → Result DofMask) where
    abbrev AddsBlock : ℕ → DofBlock → Type 0
    AddsBlock k b =
        (m : DofMask)
        → IsValid m
        → m.len ≡ total l v
        → (m' : DofMask) × (step m (k, b) ≡ ok m')
          × Holds (total l v) (λ j. member m j || (chosen k && in_block k j)) m'

    abbrev among : ℕ → ℕ → ℕ → Bool
    among k n j =
        ltb j (total l v)
        && leb k (block_of l v j)
        && ltb (block_of l v j) (k + n)
        && chosen (block_of l v j)

    step_blocks :
        (k : ℕ) (bs : List DofBlock) (m : DofMask)
        → k + length bs ≡ length l.blocks
        → ((i : ℕ) (b : DofBlock) → get_elem? bs i ≡ some b → AddsBlock (k + i) b)
        → IsValid m
        → m.len ≡ total l v
        → (m' : DofMask) × (try_fold step m (enumerate k bs) ≡ ok m')
          × Holds (total l v) (λ j. member m j || among k (length bs) j) m'
    unfolding try_fold
    step_blocks k [] m size h valid e =
        (m, refl, record { valid = valid; same_len = e; members = λ j. ground arith })
    step_blocks k (b ∷ bs) m size h valid e =
        let here : k + 0 ≡ k = omega arith in
        let (m', one, holds) = rw here at (h 0 b refl) m valid e in
        let (m'', more, rest) =
          step_blocks (suc k) bs m' (omega arith)
            (λ i c get.
              let shift : suc k + i ≡ k + suc i = omega arith in rw shift (h (suc i) c get))
            holds.valid holds.same_len in
        (m'', rw one more, Holds-same (λ j. join m' holds j) rest)
      where
        join :
            (m' : DofMask)
            → Holds (total l v) (λ j. member m j || (chosen k && in_block k j)) m'
            → (j : ℕ)
            → (member m' j || among (suc k) (length bs) j)
              ≡ (member m j || among k (suc (length bs)) j)
        join m' holds j = elim (Bool-cases (block_of l v j == k)) [
          | inl same ↦
              let at : block_of l v j ≡ k = ground arith in
              rw (holds.members j, in_block-eq k j (omega arith), at) (ground arith)
          | inr other ↦ rw (holds.members j, in_block-eq k j (omega arith), other) (ground arith)
        ]

    pub fill_blocks :
        (m : DofMask)
        → ((k : ℕ) (b : DofBlock) → get_elem? l.blocks k ≡ some b → AddsBlock k b)
        → IsValid m
        → m.len ≡ total l v
        → ((j : ℕ) → member m j ≡ false)
        → (m' : DofMask) × (try_fold step m (enumerate 0 l.blocks) ≡ ok m')
          × Holds (total l v) (λ j. ltb j (total l v) && chosen (block_of l v j)) m'
    fill_blocks m h valid e empty =
        let (m', run, holds) =
          step_blocks 0 l.blocks m (omega arith)
            (λ i b get. let start : 0 + i ≡ i = omega arith in rw start (h i b get)) valid e in
        (m', run, Holds-same (λ j. whole j) holds)
      where
        whole :
            (j : ℕ)
            → (member m j || among 0 (length l.blocks) j)
              ≡ (ltb j (total l v) && chosen (block_of l v j))
        whole j = elim (Bool-cases (ltb j (total l v))) [
          | inl inside ↦
              rw (empty j, inside) (ground (arith, block_of_holds l v j (ltb→lt _ _ inside)))
          | inr outside ↦ rw (empty j, outside) refl
        ]
