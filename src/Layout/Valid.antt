-- ===== src/Layout/Valid.antt =====
-- What `FieldAwareDofLayout::new` (dof_layout.rs) accepts and builds.
use mathlib.Core.List.{append_assoc, append-nil}
use hybit.Base.{
  ℕ, ◌+◌, ◌<◌, ◌≡◌, ◌↔◌, refl, sym, ap, ◌∙◌, arith, false, ◌==◌, ltb, List, [], ◌∷◌, ◌++◌, length,
  any, ok, fail_if, try_fold, two_64, >>=-eq-ok, fail_if-eq-ok, lt→ltb, ltb→lt, ne→==, Bool-cases,
  inl, inr, last?, some,
}
use hybit.Layout.{DofBlock, FieldAwareDofLayout, Numbering, same_key, number_block, new, total_dofs}

abbrev pub sum_components : List DofBlock → ℕ
sum_components [] = 0
sum_components (b ∷ bs) = b.components + sum_components bs

-- The ends of the blocks, the first of which starts at s.
abbrev pub ends_from : ℕ → List DofBlock → List ℕ
ends_from s [] = []
ends_from s (b ∷ bs) = (s + b.components) ∷ ends_from (s + b.components) bs

abbrev pub AllPositive : List DofBlock → Type 0
AllPositive [] = Unit
AllPositive (b ∷ bs) = (0 < b.components) × AllPositive bs

-- No block has the key of an earlier one, or of one of `seen`.
abbrev pub DistinctFrom : List DofBlock → List DofBlock → Type 0
DistinctFrom seen [] = Unit
DistinctFrom seen (b ∷ bs) = (any (same_key b) seen ≡ false) × DistinctFrom (b ∷ seen) bs

pub record IsLayout (l : FieldAwareDofLayout) : Type 0 where
  pub nonempty : 0 < length l.blocks
  pub positive : AllPositive l.blocks
  pub distinct : DistinctFrom [] l.blocks
  pub fits : sum_components l.blocks < two_64
  pub offsets : l.offsets ≡ 0 ∷ ends_from 0 l.blocks

-- What a run of the loop over the blocks shows of them.
record Numbers (s t : Numbering) (bs : List DofBlock) : Type 0 where
  positive : AllPositive bs
  distinct : DistinctFrom s.seen bs
  fits : s.next + sum_components bs < two_64
  offsets : t.offsets ≡ s.offsets ++ ends_from s.next bs

after : Numbering → DofBlock → Numbering
after s b = record {
  seen = b ∷ s.seen;
  offsets = s.offsets ++ (s.next + b.components) ∷ [];
  next = s.next + b.components;
}

number_block-eq-ok :
    (s t : Numbering) (b : DofBlock)
    → number_block s b ≡ ok t
    → (t ≡ after s b)
      × (0 < b.components)
      × (any (same_key b) s.seen ≡ false)
      × (s.next + b.components < two_64)
unfolding number_block after
number_block-eq-ok s t b h =
    let (_, p, h1) = >>=-eq-ok (fail_if (b.components == 0) _) _ h in
    let (_, q, h2) = >>=-eq-ok (fail_if (any (same_key b) s.seen) _) _ h1 in
    let positive = fail_if-eq-ok _ _ p in
    let fresh = fail_if-eq-ok _ _ q in
    elim (Bool-cases (ltb (s.next + b.components) two_64)) [
      | inl lt ↦ (cc (rw lt at h2), ground arith, fresh, ltb→lt _ _ lt)
      | inr ge ↦ absurd (cc (rw ge at h2))
    ]

number_block_runs :
    (s : Numbering) (b : DofBlock)
    → 0 < b.components
    → any (same_key b) s.seen ≡ false
    → s.next + b.components < two_64
    → number_block s b ≡ ok (after s b)
unfolding number_block after
number_block_runs s b positive fresh lt =
    let nonzero : (b.components == 0) ≡ false = ground arith in
    rw (nonzero, fresh, lt→ltb _ _ lt) refl

numbers :
    (s t : Numbering) (bs : List DofBlock)
    → s.next < two_64
    → try_fold number_block s bs ≡ ok t
    → Numbers s t bs
unfolding try_fold after
numbers s t [] lt h = record {
  positive = tt;
  distinct = tt;
  fits = omega arith;
  offsets = let e : t ≡ s = cc h in rw e (sym (append-nil s.offsets));
}
numbers s t (b ∷ bs) lt h =
    let (u, one, more) = >>=-eq-ok (number_block s b) _ h in
    let (here, positive, fresh, fits) = number_block-eq-ok s u b one in
    let rest : Numbers (after s b) t bs = numbers (after s b) t bs fits (rw here at more) in
    record {
      positive = (positive, rest.positive);
      distinct = (fresh, rest.distinct);
      fits = omega (arith, rest.fits);
      offsets = rest.offsets ∙ append_assoc s.offsets _ _;
    }

numbering :
    (s : Numbering) (bs : List DofBlock)
    → AllPositive bs
    → DistinctFrom s.seen bs
    → s.next + sum_components bs < two_64
    → (t : Numbering) × (try_fold number_block s bs ≡ ok t)
      × (t.offsets ≡ s.offsets ++ ends_from s.next bs)
unfolding try_fold after
numbering s [] p d f = (s, refl, sym (append-nil s.offsets))
numbering s (b ∷ bs) p d f =
    let (t, run, offsets) = numbering (after s b) bs p.1 d.1 (omega arith) in
    (t, rw (number_block_runs s b p.0 d.0 (omega arith)) run, offsets ∙ append_assoc s.offsets _ _)

new-IsLayout :
    (blocks : List DofBlock) (l : FieldAwareDofLayout)
    → new blocks ≡ ok l
    → (l.blocks ≡ blocks) × IsLayout l
unfolding new
new-IsLayout blocks l h =
    let (_, p, h1) = >>=-eq-ok (fail_if (length blocks == 0) _) _ h in
    let (t, run, last) = >>=-eq-ok (try_fold number_block _ blocks) _ h1 in
    let n = numbers _ t blocks (omega arith) run in
    let e : l ≡ record { blocks = blocks; offsets = t.offsets } = cc last in
    rw e (
      refl,
      record {
        nonempty = nonzero _ (fail_if-eq-ok _ _ p);
        positive = n.positive;
        distinct = n.distinct;
        fits = omega (arith, n.fits);
        offsets = n.offsets;
      },
    )
  where
    nonzero : (n : ℕ) → (n == 0) ≡ false → 0 < n
    nonzero n h = ground arith

IsLayout-new : (l : FieldAwareDofLayout) → IsLayout l → new l.blocks ≡ ok l
unfolding new
IsLayout-new l v =
    let (t, run, offsets) =
      numbering (record { seen = []; offsets = 0 ∷ []; next = 0 }) l.blocks v.positive v.distinct
        (omega (arith, v.fits)) in
    let some_block : (length l.blocks == 0) ≡ false = ne→== _ _ (omega (arith, v.nonempty)) in
    rw (some_block, run)
      (ap ok (λ k. record { blocks = l.blocks; offsets = (offsets ∙ sym v.offsets) k }))

-- `FieldAwareDofLayout::new` returns a layout exactly when there is a block, every block has a
-- component, no two have one key, and the components are fewer than 2^64; the layout has the blocks
-- given, with offsets that run from 0 through the ends of the blocks.
pub new_iff :
    (blocks : List DofBlock) (l : FieldAwareDofLayout)
    → (new blocks ≡ ok l) ↔ ((l.blocks ≡ blocks) × IsLayout l)
new_iff blocks l = (new-IsLayout blocks l, λ (same, v). ap new (sym same) ∙ IsLayout-new l v)

last?-ends :
    (x : ℕ) (s : ℕ) (bs : List DofBlock)
    → x ≡ s
    → last? (x ∷ ends_from s bs) ≡ some (s + sum_components bs)
last?-ends x s [] e = ap some (omega arith)
last?-ends x s (b ∷ bs) e =
    last?-ends (s + b.components) (s + b.components) bs refl ∙ ap some (omega arith)

pub total_dofs-eq-ok :
    (l : FieldAwareDofLayout) → IsLayout l → total_dofs l ≡ ok (sum_components l.blocks)
unfolding total_dofs
total_dofs-eq-ok l v =
    let e : last? l.offsets ≡ some (sum_components l.blocks) =
      ap last? v.offsets ∙ last?-ends 0 0 l.blocks refl ∙ ap some (omega arith) in
    rw e refl
