-- ===== src/Topology/Rows.antt =====
-- The rows of a validated topology (topology.rs), as lists of words with their masks.
use hybit.Base.{
  ℕ, zero, suc, ◌+◌, ◌-◌, ◌*◌, ◌/◌, ◌%◌, ◌≤◌, ◌<◌, ◌≡◌, ◌↔◌, ◌⊎◌, refl, sym, ◌∙◌, arith, Bool, true,
  false, ◌&&◌, ◌||◌, ◌==◌, List, [], ◌∷◌, ◌++◌, map, length, get_or, take, drop, ok, err, has,
  has-append, AllBelow, Bool-cases, inl, inr, le→leb, eq→==,
}
use hybit.Bits.{ones, bit}
use hybit.Bits.Ones.{has-ones}
use hybit.Core.{invalid_argument}
use hybit.Topology.{AbtmTopology, AbtmTopologyRow, row, validate}
use hybit.Topology.Row.{AbtmTopologyWord, base_col, words, zip_words}
use hybit.Topology.Row.Columns.{columns, WordsAscend}
use hybit.Topology.Row.Rank.{IsRow}
use hybit.Topology.Row.Contains.{has_block}
use hybit.Topology.Check.{IsWordAt}
use hybit.Topology.Valid.{cut, row-eq-ok}
use hybit.Topology.RowCheck.{Fits, ptr}
use hybit.Topology.Accepts.{validate-IsWellFormed, IsReadable-of}

take-drop_cons :
    (s n : ℕ) (xs : List ℕ)
    → s < length xs
    → take (suc n) (drop s xs) ≡ get_or xs s 0 ∷ take n (drop (suc s) xs)
take-drop_cons s n [] h = absurd (omega arith)
take-drop_cons zero n (x ∷ xs) h = refl
take-drop_cons (suc s) n (x ∷ xs) h = take-drop_cons s n xs (omega arith)

shifted_inside :
    (base n : ℕ) (xs : List ℕ)
    → ((x : ℕ) → has xs x ≡ true → base + x < n)
    → AllBelow n (map (λ b. base + b) xs)
shifted_inside base n [] h = tt
shifted_inside base n (x ∷ xs) h =
    (h x (ground arith), shifted_inside base n xs (λ y hy. h y (ground arith)))

AllBelow-append : (n : ℕ) (xs ys : List ℕ) → AllBelow n xs → AllBelow n ys → AllBelow n (xs ++ ys)
AllBelow-append n [] ys h g = g
AllBelow-append n (x ∷ xs) ys h g = (h.0, AllBelow-append n xs ys h.1 g)

module _ (t : AbtmTopology) (pairs : length t.word_indices ≡ length t.masks) (fits : Fits t)
    (start : ℕ) where
  -- The n words from s on.
  abbrev stretch : ℕ → ℕ → List AbtmTopologyWord
  stretch s n = zip_words (take n (drop s t.word_indices)) (take n (drop s t.masks))

  abbrev word_at : ℕ → AbtmTopologyWord
  word_at p = record { word_index = get_or t.word_indices p 0; mask = get_or t.masks p 0 }

  stretch-cons : (s n : ℕ) → s < length t.masks → stretch s (suc n) ≡ word_at s ∷ stretch (suc s) n
  unfolding zip_words
  stretch-cons s n lt =
      rw (take-drop_cons s n t.word_indices (rw pairs lt), take-drop_cons s n t.masks lt) refl

  stretch_lem :
      (n s lo : ℕ)
      → s + n ≤ length t.masks
      → start ≤ s
      → (0 < n → lo ≤ get_or t.word_indices s 0)
      → ((p : ℕ) → s ≤ p → p < s + n → IsWordAt t start p)
      → WordsAscend lo (stretch s n) × AllBelow t.ncols (columns (stretch s n))
  unfolding zip_words
  stretch_lem zero s lo fit le from h = (tt, tt)
  stretch_lem (suc n) s lo fit le from h =
      let here = h s (omega arith) (omega arith) in
      let rest =
        stretch_lem n (suc s) (suc (get_or t.word_indices s 0)) (omega arith) (omega arith)
          (λ more. next s n le more h) (λ p le lt. h p (omega arith) (omega arith)) in
      rw (stretch-cons s n (omega arith)) (
        (from (omega arith), fits.narrow s, rest.0),
        AllBelow-append t.ncols _ (columns (stretch (suc s) n))
            (shifted_inside (get_or t.word_indices s 0 * 64) t.ncols (ones (get_or t.masks s 0))
              (λ x listed.
                here.stays x (sym (has-ones (get_or t.masks s 0) x (fits.narrow s)) ∙ listed)))
            rest.1,
      )
    where
      next :
          (s n : ℕ)
          → start ≤ s
          → 0 < n
          → ((p : ℕ) → s ≤ p → p < s + suc n → IsWordAt t start p)
          → suc (get_or t.word_indices s 0) ≤ get_or t.word_indices (suc s) 0
      next s n le more h =
          let back : suc s - 1 ≡ s = omega arith in
          let above = (h (suc s) (omega arith) (omega arith)).above (omega arith) in
          rw back at above

or_cases : (a b : Bool) → (a || b) ≡ true → (a ≡ true) ⊎ (b ≡ true)
or_cases true b h = inl refl
or_cases false b h = inr h

or_left : (a b : Bool) → a ≡ true → (a || b) ≡ true
or_left true b h = refl
or_left false b h = absurd (cc h)

or_right : (a b : Bool) → b ≡ true → (a || b) ≡ true
or_right true b h = refl
or_right false b h = h

-- The word at p names the column.
abbrev pub Names : AbtmTopology → ℕ → ℕ → Type 0
Names t column p =
    (get_or t.word_indices p 0 ≡ column / 64) × (bit (get_or t.masks p 0) (column % 64) ≡ true)

-- A word stored for row r names the column.
pub record IsStored (t : AbtmTopology) (r column : ℕ) : Type 0 where
  pub place : ℕ
  pub from_start : ptr t r ≤ place
  pub before_end : place < ptr t (r + 1)
  pub named : Names t column place

module _ (t : AbtmTopology) (pairs : length t.word_indices ≡ length t.masks) (fits : Fits t)
    (column : ℕ) where
  -- One of the n words from s on names the column.
  abbrev Within : ℕ → ℕ → Type 0
  Within s n = (p : ℕ) × (s ≤ p) × (p < s + n) × Names t column p

  named_here :
      (s : ℕ)
      → ((get_or t.word_indices s 0 == column / 64) && bit (get_or t.masks s 0) (column % 64))
        ≡ true
      → Names t column s
  named_here s h =
      split (get_or t.word_indices s 0) (column / 64) (bit (get_or t.masks s 0) (column % 64)) h
    where
      split : (i j : ℕ) (b : Bool) → ((i == j) && b) ≡ true → (i ≡ j) × (b ≡ true)
      split i j true h = (ground arith, refl)
      split i j false h = absurd (ground arith)

  Names-here :
      (s : ℕ)
      → Names t column s
      → ((get_or t.word_indices s 0 == column / 64) && bit (get_or t.masks s 0) (column % 64))
        ≡ true
  Names-here s (same, set) = rw (eq→== _ _ same, set) refl

  stretch-names :
      (n s : ℕ)
      → s + n ≤ length t.masks
      → (has (columns (stretch t pairs fits 0 s n)) column ≡ true) ↔ Within s n
  unfolding zip_words
  stretch-names zero s fit = (λ h. absurd (cc h), λ (p, a, b, _). absurd (omega arith))
  stretch-names (suc n) s fit =
      rw
        (
          stretch-cons t pairs fits 0 s n (omega arith),
          has-append
              (map (λ b. base_col (word_at t pairs fits 0 s) + b) (ones (get_or t.masks s 0)))
              (columns (stretch t pairs fits 0 (suc s) n)) column,
          has_block (word_at t pairs fits 0 s) column (fits.narrow s),
        )
        (
          λ h. elim (or_cases _ _ h) [
            | inl here ↦ (s, omega arith, omega arith, named_here s here)
            | inr later ↦
                let (p, a, b, c) = (stretch-names n (suc s) (omega arith)).0 later in
                (p, omega arith, omega arith, c)
          ],
          λ (p, a, b, c). elim (Bool-cases (p == s)) [
            | inl here ↦
                let e : p ≡ s = ground arith in
                let at_s : Names t column s = rw e at c in or_left _ _ (Names-here s at_s)
            | inr other ↦
                or_right _ _
                  ((stretch-names n (suc s) (omega arith)).1 (p, ground arith, omega arith, c))
          ],
        )

-- For a topology that `validate` accepts, with sizes that fit the machine, and a row: reading it returns a
-- row of the topology's width, its words ascend, every column they name lies below that width, and
-- a column is among them exactly when a word stored between the row's pointers names it. From the number of
-- rows on, reading fails.
pub row-IsRow :
    (t : AbtmTopology) (r : ℕ)
    → Fits t
    → validate t ≡ ok tt
    → (r < t.nrows
        → (found : AbtmTopologyRow) × (row t r ≡ ok found)
          × (found.ncols ≡ t.ncols)
          × IsRow found
          × ((column : ℕ) → (has (columns (words found)) column ≡ true) ↔ IsStored t r column))
      × (t.nrows ≤ r → row t r ≡ err (invalid_argument "ABTM topology row index out of range"))
unfolding row zip_words
row-IsRow t r fits h =
    let w = (validate-IsWellFormed t fits).0 h in
    (
      λ lt.
          let at_r = w.rows r lt in
          let fit : ptr t r + (ptr t (r + 1) - ptr t r) ≤ length t.masks =
            omega (arith, at_r.ascends, at_r.within) in
          let facts =
            stretch_lem t w.pairs fits (ptr t r) (ptr t (r + 1) - ptr t r) (ptr t r) 0 fit
              (omega arith) (λ more. omega arith) (λ p le lt. at_r.words p le (omega arith)) in
          (
            record {
              ncols = t.ncols;
              word_indices = cut t r t.word_indices;
              masks = cut t r t.masks;
            },
            row-eq-ok t r (IsReadable-of t fits w) lt,
            refl,
            record { ascend = facts.0; inside = facts.1 },
            λ column.
                let named =
                  stretch-names t w.pairs fits column (ptr t (r + 1) - ptr t r) (ptr t r) fit in
                (
                  λ h.
                      let (p, a, b, c) = named.0 h in
                      record {
                        place = p;
                        from_start = a;
                        before_end = omega (arith, at_r.ascends);
                        named = c;
                      },
                  λ (i : IsStored t r column).
                      named.1 (i.place, i.from_start, omega (arith, i.before_end), i.named),
                ),
          ),
      λ out. rw (le→leb _ _ out) refl,
    )
