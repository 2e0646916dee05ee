-- ===== src/Region/Steps.antt =====
-- A hop of region growth (region.rs) keeps what is known of the region.
use hybit.Base.{
  ℕ, suc, ◌<◌, ◌≡◌, ◌⊎◌, refl, sym, ◌∙◌, arith, Bool, true, false, ◌||◌, Bool-cases, inl, inr,
}
use hybit.Mask.Valid.{member}
use hybit.Dual.{AbtmDualTopology}
use hybit.Region.{AbtmRegionGrowth}
use hybit.Region.Hops.{adjacent}
use hybit.Region.Growth.{IsSquare, Within, seed, hop, Within-suc, Inv, reached, Grown, reached_iff}

or_elim : (a b : Bool) → (a || b) ≡ true → (a ≡ true) ⊎ (b ≡ true)
or_elim a b h = elim (Bool-cases a) [ inl t ↦ inl t | inr f ↦ inr (ground (arith, f)) ]

or_left : (a b : Bool) → a ≡ true → (a || b) ≡ true
or_left a b h = ground arith

or_right : (a b : Bool) → b ≡ true → (a || b) ≡ true
or_right a b h = ground arith

module _ (d : AbtmDualTopology) (n : ℕ) (seeds : ℕ → Bool) (square : IsSquare d n) where
  module _ (k : ℕ) (g g' : AbtmRegionGrowth) (inv : Inv d n seeds k g)
      (step : Grown d n seeds square g g') where
    -- A neighbour of the region is in the grown region.
    covers :
        (i j : ℕ)
        → member g.region i ≡ true
        → adjacent d i j ≡ true
        → j < n
        → member g'.region j ≡ true
    covers i j m a lt = elim (Bool-cases (member g.frontier i)) [
      | inl front ↦
          let r : reached d n seeds square g j ≡ true =
            (reached_iff d n seeds square g j inv.frontier_ok).1 (i, front, a, lt) in
          step.region_at j
          ∙ rw (step.frontier_at j, r)
              (elim (Bool-cases (member g.region j)) [ inl t ↦ rw t refl | inr f ↦ rw f refl ])
      | inr done ↦ step.region_at j ∙ or_left (member g.region j) _ (inv.closed i j m done a lt)
    ]

    fresh-Within : (j : ℕ) → member g'.frontier j ≡ true → Within d n seeds (suc k) j
    fresh-Within j m =
        let r : reached d n seeds square g j ≡ true = ground (arith, step.frontier_at j) in
        let (i, front, a, lt) = (reached_iff d n seeds square g j inv.frontier_ok).0 r in
        hop (inv.sound i (inv.inside i front)) a lt

    pub keeps : Inv d n seeds (suc k) g'
    keeps = record {
      region_ok = step.region_ok;
      frontier_ok = step.frontier_ok;
      region_len = step.region_len;
      frontier_len = step.frontier_len;
      inside = λ j m. step.region_at j ∙ or_right (member g.region j) _ m;
      sound = λ j m. elim (or_elim _ _ (sym (step.region_at j) ∙ m)) [
        | inl old ↦ Within-suc (inv.sound j old)
        | inr new ↦ fresh-Within j new
      ];
      complete = λ j w. complete_at j w;
      closed = λ i j m out a lt. elim (or_elim _ _ (sym (step.region_at i) ∙ m)) [
        | inl old ↦ covers i j old a lt
        | inr new ↦ absurd (cc (new, out))
      ];
    }
      where
        complete_at : (j : ℕ) → Within d n seeds (suc k) j → member g'.region j ≡ true
        complete_at j (seed s) =
            step.region_at j ∙ or_left (member g.region j) _ (inv.complete j (seed s))
        complete_at j (hop w a lt) = covers _ j (inv.complete _ w) a lt

  -- With an empty frontier, the region is closed: no number of hops leaves it.
  pub stays :
      (k m : ℕ) (g : AbtmRegionGrowth)
      → Inv d n seeds k g
      → ((i : ℕ) → member g.frontier i ≡ false)
      → (j : ℕ) → Within d n seeds m j
      → member g.region j ≡ true
  stays k m g inv none j (seed s) = inv.complete j (seed s)
  stays k m g inv none j (hop {i = i} w a lt) =
      inv.closed i j (stays k _ g inv none i w) (none i) a lt
