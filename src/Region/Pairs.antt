-- ===== src/Region/Pairs.antt =====
-- `pair_overlap_memberships` (region.rs) against the sizes of the pairwise intersections.
use hybit.Base.{
  ℕ, zero, suc, ◌+◌, ◌-◌, ◌*◌, ◌/◌, ◌<◌, ◌≡◌, refl, ap, ◌∙◌, arith, Bool, true, false, ◌&&◌,
  if◌then◌else◌, List, [], ◌∷◌, map, length, range, ok, two_64, two_32,
}
use hybit.Mask.{DofMask}
use hybit.Mask.Valid.{member}
use hybit.Region.Multiplicity.{AbtmRegionMultiplicity, region_multiplicity}
use hybit.Region.Summary.{pairs_of}
use hybit.Region.Covered.{containing, sizes, AllOver, multiplicities, region_multiplicity_lem}

abbrev pub sum_over : (ℕ → ℕ) → List ℕ → ℕ
sum_over f [] = 0
sum_over f (x ∷ xs) = f x + sum_over f xs

-- The nodes below n that two regions share.
abbrev pub shared : ℕ → DofMask → DofMask → ℕ
shared n r s = sum_over (λ j. if member r j && member s j then 1 else 0) (range 0 n)

abbrev pub shared_with : ℕ → DofMask → List DofMask → ℕ
shared_with n r [] = 0
shared_with n r (s ∷ rs) = shared n r s + shared_with n r rs

-- The sizes of all pairwise intersections, summed.
abbrev pub overlaps : ℕ → List DofMask → ℕ
overlaps n [] = 0
overlaps n (r ∷ rs) = shared_with n r rs + overlaps n rs

triangle : (k : ℕ) → suc k * (suc k - 1) / 2 ≡ k * (k - 1) / 2 + k
triangle k = let e : suc k * (suc k - 1) ≡ k * (k - 1) + 2 * k = square k in omega (arith, e)
  where
    square : (k : ℕ) → suc k * (suc k - 1) ≡ k * (k - 1) + 2 * k
    square zero = omega arith
    square (suc k) =
        let up : suc (suc k) - 1 ≡ suc k = omega arith in
        let down : suc k - 1 ≡ k = omega arith in rw (up, down) (grind arith)

-- One more region at a node adds a pair with each region that was there.
pairs_at :
    (b : Bool) (k : ℕ)
    → ((if b then 1 else 0) + k) * ((if b then 1 else 0) + k - 1) / 2
      ≡ (if b then k else 0) + k * (k - 1) / 2
pairs_at true k = let e : 1 + k ≡ suc k = omega arith in rw e (triangle k ∙ omega arith)
pairs_at false k = let e : 0 + k ≡ k = omega arith in rw e (omega arith)

sum-add :
    (f g h : ℕ → ℕ) (xs : List ℕ)
    → ((x : ℕ) → f x ≡ g x + h x)
    → sum_over f xs ≡ sum_over g xs + sum_over h xs
sum-add f g h [] e = omega arith
sum-add f g h (x ∷ xs) e = omega (arith, e x, sum-add f g h xs e)

pairs-sum : (f : ℕ → ℕ) (xs : List ℕ) → pairs_of (map f xs) ≡ sum_over (λ j. f j * (f j - 1) / 2) xs
pairs-sum f [] = refl
pairs-sum f (x ∷ xs) = omega (arith, pairs-sum f xs)

sum-shared :
    (n : ℕ) (r : DofMask) (rs : List DofMask)
    → sum_over (λ j. if member r j then containing rs j else 0) (range 0 n) ≡ shared_with n r rs
sum-shared n r [] = zeros (range 0 n)
  where
    zeros : (xs : List ℕ) → sum_over (λ j. if member r j then 0 else 0) xs ≡ 0
    zeros [] = refl
    zeros (x ∷ xs) = omega (arith, none (member r x), zeros xs)
      where
        none : (b : Bool) → Path ℕ (if b then 0 else 0) 0
        none true = refl
        none false = refl
sum-shared n r (s ∷ rs) =
    sum-add (λ j. if member r j then containing (s ∷ rs) j else 0)
      (λ j. if member r j && member s j then 1 else 0)
      (λ j. if member r j then containing rs j else 0) (range 0 n)
      (λ j. split (member r j) (member s j) (containing rs j))
    ∙ ap (λ k. shared n r s + k) (sum-shared n r rs)
  where
    split :
        (b c : Bool) (k : ℕ)
        → (if b then (if c then 1 else 0) + k else 0)
          ≡ (if b && c then 1 else 0) + (if b then k else 0)
    split true c k = refl
    split false c k = omega arith

pairs-overlaps : (n : ℕ) (rs : List DofMask) → pairs_of (multiplicities n rs) ≡ overlaps n rs
pairs-overlaps n [] = pairs-sum (containing []) (range 0 n) ∙ zeros (range 0 n)
  where
    zeros : (xs : List ℕ) → sum_over (λ j. 0 * (0 - 1) / 2) xs ≡ 0
    zeros [] = refl
    zeros (x ∷ xs) = omega (arith, zeros xs)
pairs-overlaps n (r ∷ rs) =
    pairs-sum (containing (r ∷ rs)) (range 0 n)
    ∙ sum-add (λ j. containing (r ∷ rs) j * (containing (r ∷ rs) j - 1) / 2)
        (λ j. if member r j then containing rs j else 0)
        (λ j. containing rs j * (containing rs j - 1) / 2) (range 0 n)
        (λ j. pairs_at (member r j) (containing rs j))
    ∙ omega (arith, sum-shared n r rs, pairs-sum (containing rs) (range 0 n), pairs-overlaps n rs)

-- For fewer than 2^32 valid regions over n nodes whose sizes, and the sizes of whose pairwise
-- intersections, sum up to 64 bits, `region_multiplicity` returns, and its
-- `pair_overlap_memberships` is the sum of the sizes of the pairwise intersections.
pub region_multiplicity-overlaps :
    (n : ℕ) (rs : List DofMask)
    → n < two_64
    → AllOver n rs
    → length rs < two_32
    → sizes rs < two_64
    → overlaps n rs < two_64
    → (m : AbtmRegionMultiplicity) × (region_multiplicity n rs ≡ ok m)
      × (m.stats.pair_overlap_memberships ≡ overlaps n rs)
region_multiplicity-overlaps n rs h all few fits small = (
  _,
  region_multiplicity_lem n rs h all few fits (omega (arith, pairs-overlaps n rs)),
  pairs-overlaps n rs,
)
