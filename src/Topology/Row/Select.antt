-- ===== src/Topology/Row/Select.antt =====
-- `rank` and `select` of a topology word (topology.rs) against the list of its set positions.
use hybit.Base.{
  ℕ, zero, suc, ◌-◌, ◌≤◌, ◌<◌, ◌≡◌, ◌≢◌, refl, sym, ap, ◌∙◌, arith, true, ◌&&◌, ◌==◌, ltb, leb,
  if◌then◌else◌, List, [], ◌∷◌, length, get_or, get_elem?, take, some, ok, two_64, has, IsAscending,
  ascending_ext, Bool-cases, inl, inr, lt→ltb, le→ltb, leb→le, get_elem?_beyond, length-take,
  get_elem?-eq-get_or, bit_and, AllBelow, AllBelow-has, IsAscending-weaken,
}
use hybit.Bits.{bit, one_shl, ones, count_ones, trailing_zeros, clear_lowest}
use hybit.Bits.Laws.{bit-bit_and, bit-low_mask, bit_and-lt}
use hybit.Bits.Loop.{ones-cons, clear_lowest-lt, ones-eq, ones_from-zero}
use hybit.Bits.Ones.{ones-IsAscending, has-ones, length-ones, ones-AllBelow}
use hybit.Topology.Row.{AbtmTopologyWord, popcount, word_rank, word_select, clear_times}

-- The items of a list below a bound.
abbrev pub below : ℕ → List ℕ → List ℕ
below n [] = []
below n (x ∷ xs) = if ltb x n then x ∷ below n xs else below n xs

below-IsAscending : (n lo : ℕ) (xs : List ℕ) → IsAscending lo xs → IsAscending lo (below n xs)
below-IsAscending n lo [] h = tt
below-IsAscending n lo (x ∷ xs) h = elim (Bool-cases (ltb x n)) [
  | inl small ↦ rw small (h.0, below-IsAscending n (suc x) xs h.1)
  | inr large ↦
      rw large
        (below-IsAscending n lo xs (IsAscending-weaken lo (suc x) xs (omega (arith, h.0)) h.1))
]

has-below : (n : ℕ) (xs : List ℕ) (j : ℕ) → has (below n xs) j ≡ (has xs j && ltb j n)
has-below n [] j = refl
has-below n (x ∷ xs) j = elim (Bool-cases (ltb x n)) [
  | inl small ↦ rw small (ground (arith, has-below n xs j))
  | inr large ↦ rw large (ground (arith, has-below n xs j))
]

-- Nothing is below a bound that all items reach.
pub below-nil : (n lo : ℕ) (xs : List ℕ) → IsAscending lo xs → n ≤ lo → below n xs ≡ []
below-nil n lo [] h le = refl
below-nil n lo (x ∷ xs) h le =
    rw (le→ltb x n (omega (arith, h.0))) (below-nil n (suc x) xs h.1 (omega (arith, h.0)))

-- In ascending order, the items below the one at k are the first k.
pub below-take :
    (lo : ℕ) (xs : List ℕ) (k : ℕ)
    → IsAscending lo xs
    → k < length xs
    → below (get_or xs k 0) xs ≡ take k xs
below-take lo [] k h lt = absurd (omega arith)
below-take lo (x ∷ xs) zero h lt =
    rw (le→ltb x x (omega arith)) (below-nil x (suc x) xs h.1 (omega arith))
below-take lo (x ∷ xs) (suc k) h lt =
    rw (lt→ltb x (get_or xs k 0) (above (suc x) xs k h.1 (omega arith)))
      (ap (λ ys. x ∷ ys) (below-take (suc x) xs k h.1 (omega arith)))
  where
    above : (lo : ℕ) (xs : List ℕ) (k : ℕ) → IsAscending lo xs → k < length xs → lo ≤ get_or xs k 0
    above lo [] k h lt = absurd (omega arith)
    above lo (x ∷ xs) zero h lt = h.0
    above lo (x ∷ xs) (suc k) h lt =
        let later = above (suc x) xs k h.1 (omega arith) in omega (arith, h.0)

ones_masked : (w o : ℕ) → w < two_64 → ones (bit_and w (one_shl o - 1)) ≡ below o (ones w)
ones_masked w o h =
    ascending_ext 0 (ones (bit_and w (one_shl o - 1))) (below o (ones w))
      (ones-IsAscending (bit_and w (one_shl o - 1)))
      (below-IsAscending o 0 (ones w) (ones-IsAscending w))
      (λ j.
        has-ones (bit_and w (one_shl o - 1)) j (bit_and-lt 64 w (one_shl o - 1) h)
        ∙ bit-bit_and w (one_shl o - 1) j
        ∙ rw (bit-low_mask o j, has-below o (ones w) j, has-ones w j h) refl)

pub count_masked :
    (w o : ℕ) → w < two_64 → count_ones (bit_and w (one_shl o - 1)) ≡ length (below o (ones w))
count_masked w o h = sym (length-ones (bit_and w (one_shl o - 1))) ∙ ap length (ones_masked w o h)

pub below_all : (n : ℕ) (xs : List ℕ) → AllBelow n xs → below n xs ≡ xs
below_all n [] h = refl
below_all n (x ∷ xs) h = rw (lt→ltb x n h.0) (ap (λ ys. x ∷ ys) (below_all n xs h.1))

-- `rank` at an offset up to 64 counts the set positions below it.
pub word_rank-eq-ok :
    (w : AbtmTopologyWord) (offset : ℕ)
    → w.mask < two_64
    → offset ≤ 64
    → word_rank w offset ≡ ok (length (below offset (ones w.mask)))
unfolding word_rank
word_rank-eq-ok w offset h le = elim (Bool-cases (offset == 64)) [
  | inl full ↦
      let e : offset ≡ 64 = ground arith in
      rw (e, below_all 64 (ones w.mask) (ones-AllBelow w.mask)) (ap ok (sym (length-ones w.mask)))
  | inr short ↦ elim (Bool-cases (offset == 0)) [
    | inl start ↦
        let e : offset ≡ 0 = ground arith in
        rw (e, below-nil 0 0 (ones w.mask) (ones-IsAscending w.mask) (omega arith)) refl
    | inr middle ↦ rw (le→ltb 64 offset le, short, middle) (ap ok (count_masked w.mask offset h))
  ]
]

nonzero_of : (n w : ℕ) → n < length (ones w) → w ≢ 0
nonzero_of n w lt e =
    let none : ones w ≡ [] = ap ones e ∙ ones-eq 0 ∙ ones_from-zero 64 0 in
    let size : length (ones w) ≡ 0 = ap length none in absurd (omega arith)

-- Clearing the lowest bit n times leaves the positions from the n-th on.
clear_times-select :
    (n w : ℕ)
    → w < two_64
    → n < length (ones w)
    → trailing_zeros (clear_times n w) ≡ get_or (ones w) n 0
unfolding clear_times
clear_times-select zero w h lt = rw (ones-cons w h (nonzero_of 0 w lt)) refl
clear_times-select (suc n) w h lt =
    let step = ones-cons w h (nonzero_of (suc n) w lt) in
    let size : length (ones w) ≡ suc (length (ones (clear_lowest w))) = ap length step in
    clear_times-select n (clear_lowest w) (clear_lowest-lt w h) (omega arith) ∙ rw step refl

-- `select` of a word is the set position with that number in ascending order, if there is one.
pub word_select-eq-get_elem? :
    (w : AbtmTopologyWord) (ordinal : ℕ)
    → w.mask < two_64
    → word_select w ordinal ≡ get_elem? (ones w.mask) ordinal
unfolding word_select
word_select-eq-get_elem? w ordinal h = elim (Bool-cases (leb (popcount w) ordinal)) [
  | inl beyond ↦
      rw
        (
          beyond,
          get_elem?_beyond (ones w.mask) ordinal
              (omega (arith, length-ones w.mask, leb→le _ _ beyond)),
        )
        refl
  | inr inside ↦
      let lt : ordinal < length (ones w.mask) = rw (length-ones w.mask) (ground (arith, inside)) in
      rw
        (
          inside,
          get_elem?-eq-get_or (ones w.mask) ordinal 0 lt,
          clear_times-select ordinal w.mask h lt,
        )
        refl
]

-- What `select` finds at an ordinal below the number of set bits is a set bit of the word, and its
-- `rank` is that ordinal.
pub word_rank-word_select :
    (w : AbtmTopologyWord) (ordinal : ℕ)
    → w.mask < two_64
    → ordinal < popcount w
    → (offset : ℕ) × (word_select w ordinal ≡ some offset)
      × (bit w.mask offset ≡ true)
      × (word_rank w offset ≡ ok ordinal)
word_rank-word_select w ordinal h lt =
    let inside : ordinal < length (ones w.mask) = rw (length-ones w.mask) lt in
    let x : ℕ = get_or (ones w.mask) ordinal 0 in
    let listed : has (ones w.mask) x ≡ true = has-get_or (ones w.mask) ordinal inside in
    (
      x,
      word_select-eq-get_elem? w ordinal h ∙ get_elem?-eq-get_or (ones w.mask) ordinal 0 inside,
      sym (has-ones w.mask x h) ∙ listed,
      word_rank-eq-ok w x h
            (omega (arith, AllBelow-has 64 (ones w.mask) x (ones-AllBelow w.mask) listed))
          ∙ ap ok (counted (ones w.mask) ordinal (ones-IsAscending w.mask) inside),
    )
  where
    has-get_or : (xs : List ℕ) (k : ℕ) → k < length xs → has xs (get_or xs k 0) ≡ true
    has-get_or [] k lt = absurd (omega arith)
    has-get_or (x ∷ xs) zero lt = ground arith
    has-get_or (x ∷ xs) (suc k) lt = rw (has-get_or xs k (omega arith)) (ground arith)

    counted :
        (xs : List ℕ) (k : ℕ)
        → IsAscending 0 xs
        → k < length xs
        → length (below (get_or xs k 0) xs) ≡ k
    counted xs k up lt = ap length (below-take 0 xs k up lt) ∙ length-take k xs ∙ omega arith
