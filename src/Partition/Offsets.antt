-- ===== src/Partition/Offsets.antt =====
-- Contiguous partitions (lib.rs of crates/hybit-distributed): what `from_offsets` accepts, and the
-- owners and ranges of what it returns.
use hybit.Base.{
  ℕ, zero, suc, ◌+◌, ◌-◌, ◌%◌, ◌≤◌, ◌<◌, ◌≡◌, ◌↔◌, refl, sym, ap, ◌∙◌, arith, true, false, not,
  ◌==◌, ltb, leb, List, [], ◌∷◌, Option, some, none, length, get_or, last?, partition_point, ok,
  err, at, minus, ok_or, fail_if, two_32, IsAscending, >>=-eq-ok, fail_if-eq-ok, at-eq-ok, ltb→lt,
  ltb→le, le→leb, le→ltb, Bool-cases, inl, inr,
}
use hybit.Partition.{
  DistributedTopologyError, ContiguousPartition, global_dof_out_of_range, rank_out_of_range,
  not_increasing, from_offsets, rank_count, owned_range, contiguous_owner_of,
}

pub record IsPartition (p : ContiguousPartition) : Type 0 where
  pub long : 2 ≤ length p.offsets
  pub few : length p.offsets ≤ two_32
  pub first : get_or p.offsets 0 1 ≡ 0
  pub ascending : IsAscending 0 p.offsets
  pub last : last? p.offsets ≡ some p.global_dofs

ascends : (x : ℕ) (xs : List ℕ) → not_increasing (x ∷ xs) ≡ false → IsAscending (suc x) xs
ascends x [] h = tt
ascends x (y ∷ xs) h = (ground arith, ascends y xs (ground arith))

increases : (x : ℕ) (xs : List ℕ) → IsAscending (suc x) xs → not_increasing (x ∷ xs) ≡ false
increases x [] h = refl
increases x (y ∷ xs) h = ground (arith, increases y xs h.1)

not_increasing-IsAscending : (xs : List ℕ) → not_increasing xs ≡ false → IsAscending 0 xs
not_increasing-IsAscending [] h = tt
not_increasing-IsAscending (x ∷ xs) h = (omega arith, ascends x xs h)

IsAscending-not_increasing : (xs : List ℕ) → IsAscending 0 xs → not_increasing xs ≡ false
IsAscending-not_increasing [] h = refl
IsAscending-not_increasing (x ∷ xs) h = increases x xs h.1

ok_or-inv : (o : Option ℕ) (e : DistributedTopologyError) (x : ℕ) → ok_or o e ≡ ok x → o ≡ some x
ok_or-inv none e x h = absurd (cc h)
ok_or-inv (some y) e x h = cc h

minus-inv : (a b x : ℕ) → minus {E = DistributedTopologyError} a b ≡ ok x → x + b ≡ a
minus-inv a b x h = elim (Bool-cases (leb b a)) [
  | inl le ↦ let e : a - b ≡ x = cc (rw le at h) in ground arith
  | inr gt ↦ absurd (cc (rw gt at h))
]

at_least : (n m : ℕ) → ltb n m ≡ false → m ≤ n
at_least n m h = ground arith

is_zero : (n : ℕ) → not (n == 0) ≡ false → n ≡ 0
is_zero n h = ground arith

from_offsets-IsPartition :
    (offsets : List ℕ) (p : ContiguousPartition)
    → from_offsets offsets ≡ ok p
    → (p.offsets ≡ offsets) × IsPartition p
unfolding from_offsets
from_offsets-IsPartition offsets p h =
    let (_, p1, h1) = >>=-eq-ok (fail_if (ltb (length offsets) 2) _) _ h in
    let (first, p2, h2) = >>=-eq-ok (at offsets 0) _ h1 in
    let (_, p3, h3) = >>=-eq-ok (fail_if (not (first == 0)) _) _ h2 in
    let (_, p4, h4) = >>=-eq-ok (fail_if (not_increasing offsets) _) _ h3 in
    let (n, p5, h5) = >>=-eq-ok (minus (length offsets) 1) _ h4 in
    let (_, p6, h6) = >>=-eq-ok (fail_if (ltb (two_32 - 1) n) _) _ h5 in
    let (g, p7, h7) = >>=-eq-ok (ok_or (last? offsets) _) _ h6 in
    let long = at_least _ _ (fail_if-eq-ok _ _ p1) in
    let head : get_or offsets 0 1 ≡ first = cc (at-eq-ok offsets 0 1 (omega arith), p2) in
    let few = ltb→le _ _ (fail_if-eq-ok _ _ p6) in
    let e : p ≡ record { global_dofs = g; offsets = offsets } = cc h7 in
    rw e (
      refl,
      record {
        long = long;
        few = omega (arith, minus-inv (length offsets) 1 n p5);
        first = head ∙ is_zero _ (fail_if-eq-ok _ _ p3);
        ascending = not_increasing-IsAscending offsets (fail_if-eq-ok _ _ p4);
        last = ok_or-inv _ _ g p7;
      },
    )

pub IsPartition-from_offsets :
    (p : ContiguousPartition) → IsPartition p → from_offsets p.offsets ≡ ok p
unfolding from_offsets
IsPartition-from_offsets p v =
    rw
      (
        le→ltb (length p.offsets) 2 v.long,
        at-eq-ok p.offsets 0 1 (omega (arith, v.long)),
        v.first,
        IsAscending-not_increasing p.offsets v.ascending,
        le→leb 1 (length p.offsets) (omega (arith, v.long)),
        le→ltb (two_32 - 1) (length p.offsets - 1) (omega (arith, v.few)),
        v.last,
      )
      refl

-- `from_offsets` returns a partition exactly when it has those offsets, at least two and at most
-- 2^32 of them, which start at 0 and ascend strictly, and the last is its number of DOFs.
pub from_offsets_iff :
    (offsets : List ℕ) (p : ContiguousPartition)
    → (from_offsets offsets ≡ ok p) ↔ ((p.offsets ≡ offsets) × IsPartition p)
from_offsets_iff offsets p = (
  from_offsets-IsPartition offsets p,
  λ (same, v). ap from_offsets (sym same) ∙ IsPartition-from_offsets p v,
)

-- Where the point lies in an ascending list.
point_between :
    (lo : ℕ) (xs : List ℕ) (k g : ℕ)
    → IsAscending lo xs
    → suc k < length xs
    → get_or xs k 0 ≤ g
    → g < get_or xs (suc k) 0
    → (lo ≤ g) × (partition_point (λ o. leb o g) xs ≡ suc k)
point_between lo [] k g up size le lt = absurd (omega arith)
point_between lo (x ∷ []) k g up size le lt = absurd (omega arith)
point_between lo (x ∷ y ∷ xs) zero g up size le lt =
    let past : leb y g ≡ false = ground arith in rw (le→leb x g le, past) (omega arith, refl)
point_between lo (x ∷ y ∷ xs) (suc k) g up size le lt =
    let (above, found) = point_between (suc x) (y ∷ xs) k g up.1 (omega arith) le lt in
    rw (le→leb x g (omega arith), found) (omega arith, refl)

point_exists :
    (lo x last : ℕ) (xs : List ℕ) (g : ℕ)
    → IsAscending lo (x ∷ xs)
    → x ≤ g
    → last? (x ∷ xs) ≡ some last
    → g < last
    → (k : ℕ) × (suc k < length (x ∷ xs))
      × (get_or (x ∷ xs) k 0 ≤ g)
      × (g < get_or (x ∷ xs) (suc k) 0)
point_exists lo x last [] g up le end lt = let e : x ≡ last = cc end in absurd (omega arith)
point_exists lo x last (y ∷ xs) g up le end lt = elim (Bool-cases (ltb g y)) [
  | inl here ↦ (0, omega arith, le, ltb→lt _ _ here)
  | inr later ↦
      let (k, size, below, above) =
        point_exists (suc x) y last xs g up.1 (ltb→le _ _ later) end lt in
      (suc k, omega arith, below, above)
]

-- No offset is above the last.
pub last_most :
    (lo : ℕ) (xs : List ℕ) (k last : ℕ)
    → IsAscending lo xs
    → k < length xs
    → last? xs ≡ some last
    → get_or xs k 0 ≤ last
last_most lo [] k last up h e = absurd (omega arith)
last_most lo (x ∷ []) zero last up h e = let same : x ≡ last = cc e in omega arith
last_most lo (x ∷ []) (suc k) last up h e = absurd (omega arith)
last_most lo (x ∷ y ∷ xs) zero last up h e =
    omega (arith, last_most (suc x) (y ∷ xs) 0 last up.1 (omega arith) e)
last_most lo (x ∷ y ∷ xs) (suc k) last up h e =
    last_most (suc x) (y ∷ xs) k last up.1 (omega arith) e

module _ (p : ContiguousPartition) (v : IsPartition p) where
  pub rank_count-eq-ok : rank_count p ≡ ok (length p.offsets - 1)
  unfolding rank_count
  rank_count-eq-ok =
      let small : (length p.offsets - 1) % two_32 ≡ length p.offsets - 1 = omega (arith, v.few) in
      rw (le→leb 1 (length p.offsets) (omega (arith, v.long)), small) refl

  pub owned_range-eq-ok :
      (r : ℕ)
      → suc r < length p.offsets
      → owned_range p r ≡ ok (get_or p.offsets r 0, get_or p.offsets (r + 1) 0)
  unfolding owned_range
  owned_range-eq-ok r h =
      let inside : leb (length p.offsets - 1) r ≡ false = ground arith in
      rw
        (
          rank_count-eq-ok,
          inside,
          at-eq-ok p.offsets r 0 (omega arith),
          at-eq-ok p.offsets (r + 1) 0 (omega arith),
        )
        refl

  owned_range-out :
      (r : ℕ)
      → length p.offsets ≤ suc r
      → owned_range p r ≡ err (rank_out_of_range r (length p.offsets - 1))
  unfolding owned_range
  owned_range-out r h =
      let outside : leb (length p.offsets - 1) r ≡ true = le→leb _ _ (omega arith) in
      rw (rank_count-eq-ok, outside) refl

  pub owned_range-inv :
      (r start end : ℕ)
      → owned_range p r ≡ ok (start, end)
      → (suc r < length p.offsets)
        × (get_or p.offsets r 0 ≡ start)
        × (get_or p.offsets (suc r) 0 ≡ end)
  owned_range-inv r start end run = elim (Bool-cases (ltb (suc r) (length p.offsets))) [
    | inl inside ↦
        let lt = ltb→lt _ _ inside in
        let e = sym (owned_range-eq-ok r lt) ∙ run in
        let upper : get_or p.offsets (r + 1) 0 ≡ end = cc e in
        let next : r + 1 ≡ suc r = omega arith in (lt, cc e, rw next at upper)
    | inr outside ↦ absurd (cc (owned_range-out r (ltb→le _ _ outside), run))
  ]

  below_end :
      (g r : ℕ) → suc r < length p.offsets → g < get_or p.offsets (suc r) 0 → g < p.global_dofs
  below_end g r h lt =
      omega (arith, last_most 0 p.offsets (suc r) p.global_dofs v.ascending h v.last)

  pub owner_between :
      (g r : ℕ)
      → suc r < length p.offsets
      → get_or p.offsets r 0 ≤ g
      → g < get_or p.offsets (suc r) 0
      → contiguous_owner_of p g ≡ ok r
  unfolding contiguous_owner_of
  owner_between g r h le lt =
      let inside : leb p.global_dofs g ≡ false = ground (arith, below_end g r h lt) in
      let back : suc r - 1 ≡ r = omega arith in
      let small : r % two_32 ≡ r = omega (arith, v.few) in
      rw
        (
          inside,
          (point_between 0 p.offsets r g v.ascending h le lt).1,
          le→leb 1 (suc r) (omega arith),
          back,
          small,
        )
        refl

between :
    (p : ContiguousPartition) (v : IsPartition p) (g : ℕ)
    → g < p.global_dofs
    → (r : ℕ) × (suc r < length p.offsets)
      × (get_or p.offsets r 0 ≤ g)
      × (g < get_or p.offsets (suc r) 0)
between p v g lt = from_head p.offsets p.global_dofs g v.ascending v.first v.last v.long lt
  where
    from_head :
        (xs : List ℕ) (last g : ℕ)
        → IsAscending 0 xs
        → get_or xs 0 1 ≡ 0
        → last? xs ≡ some last
        → 2 ≤ length xs
        → g < last
        → (r : ℕ) × (suc r < length xs) × (get_or xs r 0 ≤ g) × (g < get_or xs (suc r) 0)
    from_head [] last g up first end long lt = absurd (omega arith)
    from_head (x ∷ xs) last g up first end long lt =
        point_exists 0 x last xs g up (omega arith) end lt

-- For a partition that `from_offsets` returned: each DOF below its number of DOFs has an owner, whose
-- range holds the DOF; the owner of a DOF in the range of a rank is that rank; and from the number
-- of DOFs on there is an error.
pub contiguous_owner_of-owned_range :
    (offsets : List ℕ) (p : ContiguousPartition)
    → from_offsets offsets ≡ ok p
    → ((g : ℕ)
        → g < p.global_dofs
        → (r : ℕ) × (start : ℕ) × (end : ℕ) × (contiguous_owner_of p g ≡ ok r)
          × (owned_range p r ≡ ok (start, end))
          × (start ≤ g)
          × (g < end))
      × ((r start end g : ℕ)
          → owned_range p r ≡ ok (start, end)
          → start ≤ g
          → g < end
          → contiguous_owner_of p g ≡ ok r)
      × ((g : ℕ)
          → p.global_dofs ≤ g
          → contiguous_owner_of p g ≡ err (global_dof_out_of_range g p.global_dofs))
unfolding contiguous_owner_of
contiguous_owner_of-owned_range offsets p h =
    let (_, v) = (from_offsets_iff offsets p).0 h in
    (
      λ g lt.
          let (r, size, lo, hi) = between p v g lt in
          let next : r + 1 ≡ suc r = omega arith in
          (r, _, _, owner_between p v g r size lo hi, owned_range-eq-ok p v r size, lo, rw next hi),
      λ r start end g range lo hi.
          let (size, s, e) = owned_range-inv p v r start end range in
          owner_between p v g r size (rw s lo) (rw e hi),
      λ g out. rw (le→leb _ _ out) refl,
    )
