-- ===== src/Topology/Valid.antt =====
-- The words of a topology row as a set of columns, and the shape that makes every row readable
-- (topology.rs).
use hybit.Base.{
  ℕ, zero, suc, ◌+◌, ◌-◌, ◌/◌, ◌%◌, ◌≤◌, ◌<◌, ◌≡◌, refl, arith, Bool, true, false, ◌&&◌, ◌||◌, ◌==◌,
  leb, List, [], ◌∷◌, length, get_or, take, drop, ok, at-eq-ok, le→leb, two_64,
}
use hybit.Bits.{bit}
use hybit.Topology.{AbtmTopology, row}
use hybit.Topology.Row.{AbtmTopologyWord, zip_words}

-- Some word of the list has the column.
abbrev pub words_have : List AbtmTopologyWord → ℕ → Bool
words_have [] j = false
words_have (w ∷ ws) j = (w.word_index == j / 64 && bit w.mask (j % 64)) || words_have ws j

abbrev pub AllWords : List AbtmTopologyWord → Type 0
AllWords [] = Unit
AllWords (w ∷ ws) = (w.mask < two_64) × AllWords ws

pub record IsReadable (t : AbtmTopology) : Type 0 where
  pub size : length t.row_word_ptr ≡ t.nrows + 1
  pub ascends : (i : ℕ) → i < t.nrows → get_or t.row_word_ptr i 0 ≤ get_or t.row_word_ptr (i + 1) 0
  pub within : (i : ℕ) → i < t.nrows → get_or t.row_word_ptr (i + 1) 0 ≤ length t.masks
  pub pairs : length t.word_indices ≡ length t.masks
  pub narrow : (i : ℕ) → get_or t.masks i 0 < two_64

-- The slices that `row` cuts.
abbrev pub cut {ℓ} : {A : Type ℓ} → AbtmTopology → ℕ → List A → List A
cut t r xs =
    take (get_or t.row_word_ptr (r + 1) 0 - get_or t.row_word_ptr r 0)
      (drop (get_or t.row_word_ptr r 0) xs)

abbrev pub row_words : AbtmTopology → ℕ → List AbtmTopologyWord
row_words t r = zip_words (cut t r t.word_indices) (cut t r t.masks)

pub row-eq-ok :
    (t : AbtmTopology) (r : ℕ)
    → IsReadable t
    → r < t.nrows
    → row t r
      ≡ ok (record {
        ncols = t.ncols;
        word_indices = cut t r t.word_indices;
        masks = cut t r t.masks;
      })
unfolding row
row-eq-ok t r v h =
    let inside : leb t.nrows r ≡ false = ground arith in
    let ordered = le→leb _ _ (v.ascends r h) in
    let fits = le→leb _ _ (v.within r h) in
    let fits' : leb (get_or t.row_word_ptr (r + 1) 0) (length t.word_indices) ≡ true =
      rw v.pairs fits in
    rw
      (
        inside,
        at-eq-ok t.row_word_ptr r 0 (omega (arith, v.size)),
        at-eq-ok t.row_word_ptr (r + 1) 0 (omega (arith, v.size)),
        ordered,
        fits,
        fits',
      )
      refl

narrow-drop :
    (n : ℕ) (xs : List ℕ)
    → ((i : ℕ) → get_or xs i 0 < two_64)
    → (i : ℕ) → get_or (drop n xs) i 0 < two_64
narrow-drop zero xs h i = h i
narrow-drop (suc n) [] h i = omega arith
narrow-drop (suc n) (x ∷ xs) h i = narrow-drop n xs (λ i. h (suc i)) i

narrow-take :
    (n : ℕ) (xs : List ℕ)
    → ((i : ℕ) → get_or xs i 0 < two_64)
    → (i : ℕ) → get_or (take n xs) i 0 < two_64
narrow-take zero xs h i = omega arith
narrow-take (suc n) [] h i = omega arith
narrow-take (suc n) (x ∷ xs) h zero = h 0
narrow-take (suc n) (x ∷ xs) h (suc i) = narrow-take n xs (λ i. h (suc i)) i

AllWords-zip_words :
    (is ms : List ℕ) → ((i : ℕ) → get_or ms i 0 < two_64) → AllWords (zip_words is ms)
unfolding zip_words
AllWords-zip_words [] ms h = tt
AllWords-zip_words (i ∷ is) [] h = tt
AllWords-zip_words (i ∷ is) (m ∷ ms) h = (h 0, AllWords-zip_words is ms (λ i. h (suc i)))

pub AllWords-row_words : (t : AbtmTopology) (r : ℕ) → IsReadable t → AllWords (row_words t r)
AllWords-row_words t r v =
    AllWords-zip_words (cut t r t.word_indices) (cut t r t.masks)
      (narrow-take _ _ (narrow-drop _ t.masks v.narrow))
