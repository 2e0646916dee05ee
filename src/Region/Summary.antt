-- ===== src/Region/Summary.antt =====
-- The totals that `region_multiplicity` (region.rs) computes from its counts.
use hybit.Base.{
  ℕ, zero, suc, ◌+◌, ◌-◌, ◌*◌, ◌/◌, ◌≤◌, ◌<◌, ◌≡◌, refl, ap, ◌∙◌, arith, Bool, true, false, ltb,
  leb, if◌then◌else◌, List, [], ◌∷◌, length, foldl, max, ok, try_fold, saturating_add, two_64,
  two_32, AllBelow, lt→ltb, ne→==,
}
use hybit.Region.Multiplicity.{Coverage, summarise}

abbrev pub number : (ℕ → Bool) → List ℕ → ℕ
number p [] = 0
number p (c ∷ cs) = (if p c then 1 else 0) + number p cs

-- The pairs of regions that share a node, summed over the nodes.
abbrev pub pairs_of : List ℕ → ℕ
pairs_of [] = 0
pairs_of (c ∷ cs) = c * (c - 1) / 2 + pairs_of cs

square_lt : (c : ℕ) → c < two_32 → c * (c - 1) < two_64
square_lt c h = grind arith

abbrev pub coverage_of : Coverage → List ℕ → Coverage
coverage_of c counts = record {
  covered_nodes = c.covered_nodes + number (ltb 0) counts;
  overlap_nodes = c.overlap_nodes + number (leb 2) counts;
  max_multiplicity = foldl max c.max_multiplicity counts;
  pair_overlap_memberships = c.pair_overlap_memberships + pairs_of counts;
}

abbrev pub coverage : ℕ → ℕ → ℕ → ℕ → Coverage
coverage a b c d = record {
  covered_nodes = a;
  overlap_nodes = b;
  max_multiplicity = c;
  pair_overlap_memberships = d;
}

pub coverage_ext :
    {a b c d a' b' c' d' : ℕ}
    → a ≡ a'
    → b ≡ b'
    → c ≡ c'
    → d ≡ d'
    → coverage a b c d ≡ coverage a' b' c' d'
coverage_ext e f g h = cc (e, f, g, h)

if_one :
    (b : Bool) (n : ℕ)
    → n + 1 < two_64
    → (if b then saturating_add two_64 n 1 else n) ≡ n + ((if b then 1 else 0) + 0)
if_one true n h = omega arith
if_one false n h = omega arith

positive :
    (c n : ℕ)
    → n + 1 < two_64
    → saturating_add two_64 n 1 ≡ n + ((if ltb 0 (suc c) then 1 else 0) + 0)
positive c n h = rw (lt→ltb 0 (suc c) (omega arith)) (omega arith)

summarise_step :
    (c : ℕ) (s : Coverage)
    → c < two_32
    → s.covered_nodes + 1 < two_64
    → s.overlap_nodes + 1 < two_64
    → s.pair_overlap_memberships + c * (c - 1) / 2 < two_64
    → summarise s c ≡ ok (coverage_of s (c ∷ []))
unfolding summarise
summarise_step zero s small covered overlap pairs =
    ap ok (coverage_ext (omega arith) (omega arith) (omega arith) (omega arith))
summarise_step (suc c) s small covered overlap pairs =
    let square : suc c * (suc c - 1) < two_64 = square_lt (suc c) small in
    rw
      (
        ne→== (suc c) 0 (omega arith),
        lt→ltb (suc c * (suc c - 1)) two_64 square,
        lt→ltb _ two_64 pairs,
      )
      (ap ok (
        coverage_ext (positive c s.covered_nodes covered)
          (if_one (leb 2 (suc c)) s.overlap_nodes overlap) refl (omega arith)))

pub one_more : (b : Bool) → (if b then 1 else 0) ≤ 1
one_more true = omega arith
one_more false = omega arith

pub summarise_lem :
    (counts : List ℕ) (s : Coverage)
    → AllBelow two_32 counts
    → s.covered_nodes + length counts < two_64
    → s.overlap_nodes + length counts < two_64
    → s.pair_overlap_memberships + pairs_of counts < two_64
    → try_fold summarise s counts ≡ ok (coverage_of s counts)
unfolding try_fold
summarise_lem [] s small covered overlap pairs =
    ap ok (coverage_ext (omega arith) (omega arith) refl (omega arith))
summarise_lem (c ∷ cs) s small covered overlap pairs =
    let one = one_more (ltb 0 c) in
    let two = one_more (leb 2 c) in
    rw (summarise_step c s small.0 (omega arith) (omega arith) (omega arith)) (
      summarise_lem cs (coverage_of s (c ∷ [])) small.1 (omega arith) (omega arith) (omega arith)
      ∙ ap ok (
          coverage_ext (regroup s.covered_nodes (if ltb 0 c then 1 else 0) (number (ltb 0) cs))
            (regroup s.overlap_nodes (if leb 2 c then 1 else 0) (number (leb 2) cs)) refl
            (regroup s.pair_overlap_memberships (c * (c - 1) / 2) (pairs_of cs))))
  where
    regroup : (a b c : ℕ) → a + (b + 0) + c ≡ a + (b + c)
    regroup a b c = omega arith
