-- ===== src/Base/Loops.antt =====
-- Loops over a range whose body does not fail there.
use Prim.Native.Nat.{ℕ, zero, suc, ◌+◌, ◌≤◌, ◌<◌}
use mathlib.Core.Path.{◌≡◌, refl, sym, ap, ◌∙◌}
use mathlib.Core.List.{List, map, foldl}
use native.Mathlib.Omega.{arith}
use mathlib.Core.Logic.{inl, inr}
use mathlib.Core.Bool.{true}
use hybit.Base.Tests.{ltb, ltb→lt, ltb→le, ◌==◌, if◌then◌else◌, Bool-cases}
use hybit.Base.Lists.{
  range, get_or, set, length, get_or-set, get_or_ext, get_or_beyond, length-map, length-range,
}
use hybit.Base.Results.{Result, ok, try_fold, try_map, >>=-eq-ok}

module _ {E : Type 0} {S : Type 0} where
  -- Where no round fails the loop is the fold of its pure body.
  pub try_fold-range :
      (f : S → ℕ → Result E S) (g : S → ℕ → S) (i n : ℕ) (s : S)
      → ((s : S) (p : ℕ) → i ≤ p → p < i + n → f s p ≡ ok (g s p))
      → try_fold f s (range i n) ≡ ok (foldl g s (range i n))
  unfolding try_fold
  try_fold-range f g i zero s h = refl
  try_fold-range f g i (suc n) s h =
      rw (h s i (omega arith) (omega arith))
        (try_fold-range f g (suc i) n (g s i) (λ s p le lt. h s p (omega arith) (omega arith)))

  -- An invariant over the rounds left, for a loop that does not fail while it holds.
  pub try_fold_inv :
      (P : ℕ → S → Type 0) (f : S → ℕ → Result E S) (i n : ℕ) (s : S)
      → P i s
      → ((s : S) (p : ℕ) → i ≤ p → p < i + n → P p s → (t : S) × (f s p ≡ ok t) × P (suc p) t)
      → (t : S) × (try_fold f s (range i n) ≡ ok t) × P (i + n) t
  unfolding try_fold
  try_fold_inv P f i zero s start h = let e : i + 0 ≡ i = omega arith in (s, refl, rw e start)
  try_fold_inv P f i (suc n) s start h =
      let (t, returns, next) = h s i (omega arith) (omega arith) start in
      let e : i + suc n ≡ suc i + n = omega arith in
      rw (returns, e)
        (try_fold_inv P f (suc i) n t next (λ s p le lt. h s p (omega arith) (omega arith)))

module _ {E : Type 0} {B : Type 0} where
  pub try_map-range :
      (f : ℕ → Result E B) (g : ℕ → B) (i n : ℕ)
      → ((p : ℕ) → i ≤ p → p < i + n → f p ≡ ok (g p))
      → try_map f (range i n) ≡ ok (map g (range i n))
  unfolding try_map
  try_map-range f g i zero h = refl
  try_map-range f g i (suc n) h =
      rw
        (
          h i (omega arith) (omega arith),
          try_map-range f g (suc i) n (λ p le lt. h p (omega arith) (omega arith)),
        )
        refl

pub get_or-map-range {ℓ} :
    {B : Type ℓ} (g : ℕ → B) (i n k : ℕ) (d : B)
    → k < n
    → get_or (map g (range i n)) k d ≡ g (i + k)
get_or-map-range g i zero k d h = absurd (omega arith)
get_or-map-range g i (suc n) zero d h = ap g (omega arith)
get_or-map-range g i (suc n) (suc k) d h =
    let e : i + suc k ≡ suc i + k = omega arith in
    rw e (get_or-map-range g (suc i) n k d (omega arith))

-- A vector filled up to an index, with one more entry written.
pub filled_next {ℓ} :
    {A : Type ℓ} (g : ℕ → A) (xs : List A) (row i : ℕ) (d : A)
    → row < length xs
    → get_or xs i d ≡ (if ltb i row then g i else d)
    → get_or (set xs row (g row)) i d ≡ (if ltb i (suc row) then g i else d)
filled_next g xs row i d h before = elim (Bool-cases (row == i)) [
  | inl here ↦
      let e : row ≡ i = ground arith in
      let under : ltb i (suc row) ≡ true = ground arith in
      rw (under, get_or-set xs row i (g row) d h, here, e) refl
  | inr other ↦
      let same : ltb i (suc row) ≡ ltb i row = ground arith in
      rw (get_or-set xs row i (g row) d h, other, same) before
]

-- A vector filled up to its end is the image of the range.
pub filled-eq-map {ℓ} :
    {A : Type ℓ} (g : ℕ → A) (xs : List A) (n : ℕ) (d : A)
    → length xs ≡ n
    → ((i : ℕ) → get_or xs i d ≡ (if ltb i n then g i else d))
    → xs ≡ map g (range 0 n)
filled-eq-map {A} g xs n d size content =
    get_or_ext d xs (map g (range 0 n)) (size ∙ sym same_size) (λ i. content i ∙ at_index i)
  where
    same_size : length (map g (range 0 n)) ≡ n
    same_size = length-map g (range 0 n) ∙ length-range 0 n

    at_index : (i : ℕ) → (if ltb i n then g i else d) ≡ get_or (map g (range 0 n)) i d
    at_index i = elim (Bool-cases (ltb i n)) [
      | inl lt ↦
          let start : 0 + i ≡ i = omega arith in
          rw (lt, get_or-map-range g 0 n i d (ltb→lt i n lt), start) refl
      | inr ge ↦ rw (ge, get_or_beyond (map g (range 0 n)) i d (rw same_size (ltb→le i n ge))) refl
    ]

-- A loop whose rounds, where they succeed, follow the states g.
module _ {E : Type 0} {S : Type 0} (f : S → ℕ → Result E S) (g : ℕ → S) where
  pub try_fold_follows :
      (i n : ℕ)
      → ((p : ℕ) → i ≤ p → p < i + n → f (g p) p ≡ ok (g (suc p)))
      → try_fold f (g i) (range i n) ≡ ok (g (i + n))
  unfolding try_fold
  try_fold_follows i zero h = let e : i + 0 ≡ i = omega arith in rw e refl
  try_fold_follows i (suc n) h =
      let e : i + suc n ≡ suc i + n = omega arith in
      rw (h i (omega arith) (omega arith), e)
        (try_fold_follows (suc i) n (λ p le lt. h p (omega arith) (omega arith)))

  pub try_fold_traces :
      (Q : ℕ → Type 0) (i n : ℕ) (t : S)
      → ((p : ℕ) (t : S) → i ≤ p → p < i + n → f (g p) p ≡ ok t → Q p × (t ≡ g (suc p)))
      → try_fold f (g i) (range i n) ≡ ok t
      → (t ≡ g (i + n)) × ((p : ℕ) → i ≤ p → p < i + n → Q p)
  unfolding try_fold
  try_fold_traces Q i zero t h run =
      let e : i + 0 ≡ i = omega arith in (rw e (cc run), λ p le lt. absurd (omega arith))
  try_fold_traces Q i (suc n) t h run =
      let (s, one, more) = >>=-eq-ok (f (g i) i) _ run in
      let (q, here) = h i s (omega arith) (omega arith) one in
      let e : i + suc n ≡ suc i + n = omega arith in
      let (last, rest) =
        try_fold_traces Q (suc i) n t (λ p t le lt. h p t (omega arith) (omega arith))
          (rw here at more) in
      (
        rw e last,
        λ p le lt. elim (Bool-cases (i == p)) [
          | inl same ↦ let e : i ≡ p = ground arith in rw (sym e) q
          | inr other ↦ rest p (ground arith) (omega arith)
        ],
      )
