-- ===== src/Topology/Row/Contains.antt =====
-- `contains` of a topology row (topology.rs) against its columns.
use hybit.Base.{
  ℕ, suc, ◌+◌, ◌*◌, ◌/◌, ◌%◌, ◌≤◌, ◌<◌, ◌≡◌, refl, sym, ap, ◌∙◌, arith, true, false, ◌&&◌, ◌==◌,
  ltb, leb, List, [], ◌∷◌, map, length, ok, two_64, two_32, has, has-append, Bool-cases, inl, inr,
  ltb→lt, ltb→le, ne→==, AllBelow,
}
use hybit.Bits.{ones, bit}
use hybit.Bits.Ones.{has-ones, ones-AllBelow, test_bit}
use hybit.Topology.{AbtmTopologyRow}
use hybit.Topology.Row.{
  AbtmTopologyWord, base_col, words, zip_words, Search, found, insert_at, one_later, binary_search,
  read_found, row_contains,
}
use hybit.Topology.Row.Columns.{columns, WordsAscend}
use hybit.Topology.Row.Rank.{IsRow}

has-shifted : (base o : ℕ) (xs : List ℕ) → has (map (λ b. base + b) xs) (base + o) ≡ has xs o
has-shifted base o [] = refl
has-shifted base o (x ∷ xs) = ground (arith, has-shifted base o xs)

not-has-shifted :
    (base j n : ℕ) (xs : List ℕ)
    → AllBelow n xs
    → base + n ≤ j
    → has (map (λ b. base + b) xs) j ≡ false
not-has-shifted base j n [] h out = refl
not-has-shifted base j n (x ∷ xs) h out =
    rw (not-has-shifted base j n xs h.1 out, ne→== (base + x) j (omega (arith, h.0, out))) refl

not-has_before : (base j : ℕ) (xs : List ℕ) → j < base → has (map (λ b. base + b) xs) j ≡ false
not-has_before base j [] lt = refl
not-has_before base j (x ∷ xs) lt =
    rw (not-has_before base j xs lt, ne→== (base + x) j (omega arith)) refl

-- The columns of one word.
pub has_block :
    (w : AbtmTopologyWord) (j : ℕ)
    → w.mask < two_64
    → has (map (λ b. base_col w + b) (ones w.mask)) j
      ≡ (w.word_index == j / 64 && bit w.mask (j % 64))
has_block w j h = elim (Bool-cases (w.word_index == j / 64)) [
  | inl here ↦
      let e : base_col w + j % 64 ≡ j = block_of w.word_index j here in
      rw here (
        sym (ap (has (map (λ b. base_col w + b) (ones w.mask))) e)
        ∙ has-shifted (base_col w) (j % 64) (ones w.mask)
        ∙ has-ones w.mask (j % 64) h)
  | inr elsewhere ↦ rw elsewhere (elim (Bool-cases (ltb j (base_col w))) [
    | inl before ↦ not-has_before (base_col w) j (ones w.mask) (ltb→lt _ _ before)
    | inr after ↦
        not-has-shifted (base_col w) j 64 (ones w.mask) (ones-AllBelow w.mask)
          (outside w.word_index j elsewhere (ltb→le _ _ after))
  ])
]
  where
    block_of : (i j : ℕ) → (i == j / 64) ≡ true → i * 64 + j % 64 ≡ j
    block_of i j h = ground arith

    outside : (i j : ℕ) → (i == j / 64) ≡ false → i * 64 ≤ j → i * 64 + 64 ≤ j
    outside i j h le = ground arith

-- A row from a later word on does not have the column.
absent :
    (lo : ℕ) (ws : List AbtmTopologyWord) (j : ℕ)
    → WordsAscend lo ws
    → j / 64 < lo
    → has (columns ws) j ≡ false
absent lo [] j h lt = refl
absent lo (w ∷ ws) j h lt =
    let no : (w.word_index == j / 64) ≡ false = ne→== _ _ (omega (arith, h.0)) in
    rw
      (
        has-append (map (λ b. base_col w + b) (ones w.mask)) (columns ws) j,
        has_block w j h.1,
        no,
        absent (suc w.word_index) ws j h.2 (omega (arith, h.0)),
      )
      refl

read-one_later :
    (m : ℕ) (masks : List ℕ) (offset : ℕ) (s : Search)
    → read_found (m ∷ masks) offset (one_later s) ≡ read_found masks offset s
read-one_later m masks offset (found i) = refl
read-one_later m masks offset (insert_at i) = refl

search_lem :
    (lo : ℕ) (indices masks : List ℕ) (j : ℕ)
    → length indices ≡ length masks
    → WordsAscend lo (zip_words indices masks)
    → read_found masks (j % 64) (binary_search (j / 64) indices)
      ≡ ok (has (columns (zip_words indices masks)) j)
unfolding binary_search zip_words
search_lem lo [] masks j size h = refl
search_lem lo (i ∷ indices) [] j size h = absurd (omega arith)
search_lem lo (i ∷ indices) (m ∷ masks) j size h =
    let w : AbtmTopologyWord = record { word_index = i; mask = m } in
    let later : List ℕ = columns (zip_words indices masks) in
    let head = has-append (map (λ b. base_col w + b) (ones m)) later j in
    let block = has_block w j h.1 in
    elim (Bool-cases (i == j / 64)) [
      | inl here ↦
          let none = absent (suc i) (zip_words indices masks) j h.2 (ground arith) in
          rw (here, test_bit m (j % 64) h.1, head, block, none) (ground (arith, here))
      | inr other ↦ elim (Bool-cases (ltb (j / 64) i)) [
        | inl before ↦
            let none = absent (suc i) (zip_words indices masks) j h.2 (ground arith) in
            rw (other, before, head, block, none) (ground (arith, other))
        | inr after ↦
            rw
              (
                other,
                after,
                read-one_later m masks (j % 64) (binary_search (j / 64) indices),
                head,
                block,
              )
              (search_lem (suc i) indices masks j (omega arith) h.2 ∙ ground (arith, other))
      ]
    ]

-- On a row with ascending words inside the matrix, for a column whose word has a number below 2^32,
-- `contains` tells whether the column is among those of the row.
pub row_contains-eq-has :
    (r : AbtmTopologyRow) (col : ℕ)
    → IsRow r
    → length r.word_indices ≡ length r.masks
    → col / 64 < two_32
    → row_contains r col ≡ ok (has (columns (words r)) col)
unfolding row_contains
row_contains-eq-has r col v size narrow = elim (Bool-cases (leb r.ncols col)) [
  | inl out ↦ rw out (ap ok (sym (beyond r.ncols (columns (words r)) col v.inside out)))
  | inr inside ↦
      let cast : (col / 64) % two_32 ≡ col / 64 = omega arith in
      rw (inside, cast) (search_lem 0 r.word_indices r.masks col size v.ascend)
]
  where
    beyond : (n : ℕ) (xs : List ℕ) (j : ℕ) → AllBelow n xs → leb n j ≡ true → has xs j ≡ false
    beyond n [] j h out = refl
    beyond n (x ∷ xs) j h out = rw (beyond n xs j h.1 out) (ground (arith, h.0))

-- `contains` casts the number of a column's word to u32, so on a matrix wider than 64 times 2^32
-- it answers for a column beyond that width as for the column that far below it.
pub row_contains_aliases :
    (r : AbtmTopologyRow) (col : ℕ)
    → col + 64 * two_32 < r.ncols
    → row_contains r (col + 64 * two_32) ≡ row_contains r col
unfolding row_contains
row_contains_aliases r col h =
    let far : leb r.ncols (col + 64 * two_32) ≡ false = ground arith in
    let near : leb r.ncols col ≡ false = ground arith in
    let word : ((col + 64 * two_32) / 64) % two_32 ≡ (col / 64) % two_32 = omega arith in
    let offset : (col + 64 * two_32) % 64 ≡ col % 64 = omega arith in
    rw (far, near, word, offset) refl
