-- ===== src/Partition/Halo/Ranges.antt =====
-- The ranges of the ranks of a contiguous partition, as the halo plans use them (lib.rs).
use hybit.Base.{
  ℕ, zero, suc, ◌+◌, ◌≤◌, ◌<◌, ◌≡◌, refl, arith, true, ◌==◌, ltb, if◌then◌else◌, length, ok,
  Bool-cases, inl, inr, ltb→lt, ltb→le, lt→ltb,
}
use hybit.Partition.{ContiguousPartition, contiguous_owner_of, owned_range}
use hybit.Partition.Offsets.{
  IsPartition, from_offsets_iff, contiguous_owner_of-owned_range, owned_range-inv,
  owned_range-eq-ok, last_most,
}
use hybit.Partition.Halo.Wanted.{next_above}
use hybit.Partition.Halo.Whole.{off}

module _ (p : ContiguousPartition) (v : IsPartition p) where
  pub bounds_of : (r : ℕ) → suc r < length p.offsets → owned_range p r ≡ ok (off p r, off p (suc r))
  bounds_of r lt = let next : r + 1 ≡ suc r = omega arith in rw next at (owned_range-eq-ok p v r lt)

  -- The owner of a global, and its bounds.
  pub owner_bounds :
      (g k : ℕ)
      → contiguous_owner_of p g ≡ ok k
      → (suc k < length p.offsets) × (off p k ≤ g) × (g < off p (suc k)) × (g < p.global_dofs)
  owner_bounds g k own =
      let (found, _, beyond) =
        contiguous_owner_of-owned_range p.offsets p ((from_offsets_iff p.offsets p).1 (refl, v)) in
      elim (Bool-cases (ltb g p.global_dofs)) [
        | inr out ↦ absurd (cc (beyond g (ltb→le _ _ out), own))
        | inl inside ↦
            let (o, start, end, own', bounds, le, lt) = found g (ltb→lt _ _ inside) in
            let same : o ≡ k = cc (own', own) in
            let (in_range, from, to) = owned_range-inv p v o start end bounds in
            let here : (suc o < length p.offsets)
                × (off p o ≤ g)
                × (g < off p (suc o))
                × (g < p.global_dofs) =
              (in_range, omega (arith, from, le), omega (arith, to, lt), ltb→lt _ _ inside) in
            rw same at here
      ]

  pub owner_exists : (g : ℕ) → g < p.global_dofs → (o : ℕ) × (contiguous_owner_of p g ≡ ok o)
  owner_exists g lt =
      let (o, _, _, own, _, _, _) =
        (contiguous_owner_of-owned_range p.offsets p ((from_offsets_iff p.offsets p).1 (refl, v))).0
          g lt in
      (o, own)

  -- Where the range of a rank starts, and the number of DOFs beyond the last.
  pub floor : ℕ → ℕ
  floor k = if ltb k (length p.offsets) then off p k else p.global_dofs

  pub floor_in : (k : ℕ) → k < length p.offsets → floor k ≡ off p k
  unfolding floor
  floor_in k lt = rw (lt→ltb k (length p.offsets) lt) refl

  floor_step : (k : ℕ) → floor k ≤ floor (suc k)
  unfolding floor
  floor_step k = elim (Bool-cases (ltb (suc k) (length p.offsets))) [
    | inl below ↦
        let here : ltb k (length p.offsets) ≡ true = ground arith in
        rw (below, here) (next_above 0 p.offsets k v.ascending (ltb→lt _ _ below))
    | inr beyond ↦ elim (Bool-cases (ltb k (length p.offsets))) [
      | inl here ↦
          rw (beyond, here)
            (last_most 0 p.offsets k p.global_dofs v.ascending (ltb→lt _ _ here) v.last)
      | inr out ↦ rw (beyond, out) (omega arith)
    ]
  ]

  pub floor_mono : (i j : ℕ) → i ≤ j → floor i ≤ floor j
  floor_mono i zero le = let e : i ≡ 0 = omega arith in rw e (omega arith)
  floor_mono i (suc j) le = elim (Bool-cases (i == suc j)) [
    | inl same ↦ let e : i ≡ suc j = ground arith in rw e (omega arith)
    | inr other ↦ omega (arith, floor_mono i j (ground arith), floor_step j)
  ]
