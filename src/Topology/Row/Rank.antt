-- ===== src/Topology/Row/Rank.antt =====
-- `rank` and `select` of a topology row (topology.rs) against its columns in order.
use hybit.Base.{
  ℕ, zero, suc, ◌+◌, ◌-◌, ◌*◌, ◌/◌, ◌%◌, ◌≤◌, ◌<◌, ◌≡◌, refl, sym, ap, ◌∙◌, arith, not, ◌&&◌, ◌==◌,
  ltb, List, [], ◌∷◌, ◌++◌, map, length, get_or, get_elem?, some, ok, IsAscending, AllBelow,
  Bool-cases, inl, inr, lt→ltb, ltb→lt, le→ltb, ltb→le, length-append, length-map,
  get_elem?-eq-get_or, length-take, min, bit_and,
}
use hybit.Bits.{ones, one_shl, count_ones}
use hybit.Bits.Ones.{ones-AllBelow, length-ones}
use hybit.Topology.{AbtmTopologyRow}
use hybit.Topology.Row.{
  AbtmTopologyWord, base_col, popcount, words, in_columns, select_loop, rank_loop, row_select,
  row_rank,
}
use hybit.Topology.Row.Select.{
  below, below-nil, below-take, below_all, count_masked, word_select-eq-get_elem?,
}
use hybit.Topology.Row.Columns.{
  columns, WordsAscend, columns-IsAscending, shifted-AllBelow, get_elem?-append_left,
  get_elem?-append_right, below-append, below-shifted,
}

kept :
    (ncols base : ℕ) (xs : List ℕ) (k : ℕ)
    → AllBelow ncols (map (λ b. base + b) xs)
    → k < length xs
    → in_columns ncols base (get_elem? xs k) ≡ get_elem? (map (λ b. base + b) xs) k
kept ncols base [] k inside lt = absurd (omega arith)
kept ncols base (x ∷ xs) zero inside lt = rw (lt→ltb (base + x) ncols inside.0) refl
kept ncols base (x ∷ xs) (suc k) inside lt = kept ncols base xs k inside.1 (omega arith)

AllBelow-left : (n : ℕ) (xs ys : List ℕ) → AllBelow n (xs ++ ys) → AllBelow n xs
AllBelow-left n [] ys h = tt
AllBelow-left n (x ∷ xs) ys h = (h.0, AllBelow-left n xs ys h.1)

AllBelow-right : (n : ℕ) (xs ys : List ℕ) → AllBelow n (xs ++ ys) → AllBelow n ys
AllBelow-right n [] ys h = h
AllBelow-right n (x ∷ xs) ys h = AllBelow-right n xs ys h.1

block_length :
    (w : AbtmTopologyWord) → length (map (λ b. base_col w + b) (ones w.mask)) ≡ popcount w
block_length w = length-map (λ b. base_col w + b) (ones w.mask) ∙ length-ones w.mask

select_loop-eq-get_elem? :
    (ncols lo : ℕ) (ws : List AbtmTopologyWord) (k : ℕ)
    → WordsAscend lo ws
    → AllBelow ncols (columns ws)
    → select_loop ncols ws k ≡ get_elem? (columns ws) k
unfolding select_loop
select_loop-eq-get_elem? ncols lo [] k h inside = refl
select_loop-eq-get_elem? ncols lo (w ∷ ws) k h inside =
    let block : List ℕ = map (λ b. base_col w + b) (ones w.mask) in
    let size : length block ≡ popcount w = block_length w in
    elim (Bool-cases (ltb k (popcount w))) [
      | inl here ↦
          let lt : k < length (ones w.mask) =
            rw (length-ones w.mask) (ltb→lt k (popcount w) here) in
          rw
            (
              here,
              word_select-eq-get_elem? w k h.1,
              kept ncols (base_col w) (ones w.mask) k
                  (AllBelow-left ncols block (columns ws) inside) lt,
            )
            (sym
              (get_elem?-append_left block (columns ws) k (rw size (ltb→lt k (popcount w) here))))
      | inr later ↦
          let le : length block ≤ k = rw size (ltb→le k (popcount w) later) in
          rw later (
            select_loop-eq-get_elem? ncols (suc w.word_index) ws (k - popcount w) h.2
              (AllBelow-right ncols block (columns ws) inside)
            ∙ ap (λ n. get_elem? (columns ws) (k - n)) (sym size)
            ∙ sym (get_elem?-append_right block (columns ws) k le))
    ]

AllBelow-mono : (n m : ℕ) (xs : List ℕ) → n ≤ m → AllBelow n xs → AllBelow m xs
AllBelow-mono n m [] le h = tt
AllBelow-mono n m (x ∷ xs) le h = (omega (arith, h.0), AllBelow-mono n m xs le h.1)

-- How many columns of a word and of the words after it lie below a target.
module _ (lo : ℕ) (w : AbtmTopologyWord) (ws : List AbtmTopologyWord)
    (h : WordsAscend lo (w ∷ ws)) where
  abbrev block : List ℕ
  block = map (λ b. base_col w + b) (ones w.mask)

  split :
      (n : ℕ)
      → length (below n (columns (w ∷ ws))) ≡ length (below n block) + length (below n (columns ws))
  split n =
      ap length (below-append n block (columns ws))
      ∙ length-append (below n block) (below n (columns ws))

  none_after : (n : ℕ) → n ≤ suc w.word_index * 64 → length (below n (columns ws)) ≡ 0
  none_after n le = ap length (
      below-nil n (suc w.word_index * 64) (columns ws)
        (columns-IsAscending (suc w.word_index) ws h.2) le)

  none_from : (n : ℕ) → n ≤ w.word_index * 64 → length (below n (columns (w ∷ ws))) ≡ 0
  none_from n le = ap length (
      below-nil n (w.word_index * 64) (columns (w ∷ ws))
        (columns-IsAscending w.word_index (w ∷ ws) (omega arith, h.1, h.2)) le)

  whole_block : (n : ℕ) → base_col w + 64 ≤ n → length (below n block) ≡ popcount w
  whole_block n le =
      ap length (
        below_all n block (
          AllBelow-mono (base_col w + 64) n block le
            (shifted-AllBelow (base_col w) 64 (ones w.mask) (ones-AllBelow w.mask))))
      ∙ block_length w

  part_of_block :
      (offset : ℕ)
      → length (below (base_col w + offset) block)
        ≡ count_ones (bit_and w.mask (one_shl offset - 1))
  part_of_block offset =
      ap length (below-shifted (base_col w) offset (ones w.mask))
      ∙ length-map (λ b. base_col w + b) (below offset (ones w.mask))
      ∙ sym (count_masked w.mask offset h.1)

rank_loop-eq-below :
    (word offset lo : ℕ) (ws : List AbtmTopologyWord) (rank : ℕ)
    → offset < 64
    → WordsAscend lo ws
    → rank_loop word offset ws rank ≡ rank + length (below (word * 64 + offset) (columns ws))
unfolding rank_loop
rank_loop-eq-below word offset lo [] rank small h = omega arith
rank_loop-eq-below word offset lo (w ∷ ws) rank small h =
    elim (Bool-cases (ltb w.word_index word)) [
      | inl before ↦
          let lt = ltb→lt w.word_index word before in
          rw before (
            rank_loop-eq-below word offset (suc w.word_index) ws (rank + popcount w) small h.2
            ∙ total rank (popcount w) _ _ _ (split lo w ws h (word * 64 + offset))
                (whole_block lo w ws h (word * 64 + offset) (omega arith)))
      | inr reached ↦ elim (Bool-cases ((w.word_index == word) && not (offset == 0))) [
        | inl inside ↦
            let here : w.word_index ≡ word = ground arith in
            let target : base_col w + offset ≡ word * 64 + offset = omega arith in
            rw (reached, inside)
              (total_part rank _ _ _ _ (split lo w ws h (word * 64 + offset))
                (sym (part_of_block lo w ws h offset)
                  ∙ ap (λ n. length (below n (block lo w ws h))) target)
                (none_after lo w ws h (word * 64 + offset) (omega arith)))
        | inr past ↦
            rw (reached, past)
              (total_none rank _ (none_from lo w ws h (word * 64 + offset) (ground arith)))
      ]
    ]
  where
    total : (rank p a b c : ℕ) → c ≡ a + b → a ≡ p → rank + p + b ≡ rank + c
    total rank p a b c e f = omega arith

    total_part : (rank p a b c : ℕ) → c ≡ a + b → p ≡ a → b ≡ 0 → rank + p ≡ rank + c
    total_part rank p a b c e f g = omega arith

    total_none : (rank c : ℕ) → c ≡ 0 → rank ≡ rank + c
    total_none rank c e = omega arith

-- The words of a row ascend, and every column they name lies in the matrix.
pub record IsRow (r : AbtmTopologyRow) : Type 0 where
  pub ascend : WordsAscend 0 (words r)
  pub inside : AllBelow r.ncols (columns (words r))

-- On a row with ascending words inside the matrix, `select` is the column with that number in
-- ascending order, if there is one, and `rank` of a column up to the width counts the columns
-- below it.
pub row_select-row_rank :
    (r : AbtmTopologyRow)
    → IsRow r
    → ((ordinal : ℕ) → row_select r ordinal ≡ get_elem? (columns (words r)) ordinal)
      × ((col : ℕ) → col ≤ r.ncols → row_rank r col ≡ ok (length (below col (columns (words r)))))
unfolding row_select row_rank
row_select-row_rank r v = (
  λ ordinal. select_loop-eq-get_elem? r.ncols 0 (words r) ordinal v.ascend v.inside,
  λ col le.
      let split : (col / 64) * 64 + col % 64 ≡ col = omega arith in
      rw
        (
          le→ltb r.ncols col le,
          rank_loop-eq-below (col / 64) (col % 64) 0 (words r) 0 (omega arith) v.ascend,
          split,
        )
        (ap ok (omega arith)),
)

-- On such a row, `rank` of what `select` finds at an ordinal is that ordinal.
pub row_rank-row_select :
    (r : AbtmTopologyRow) (ordinal : ℕ)
    → IsRow r
    → ordinal < length (columns (words r))
    → (col : ℕ) × (row_select r ordinal ≡ some col)
      × (col < r.ncols)
      × (row_rank r col ≡ ok ordinal)
row_rank-row_select r ordinal v lt =
    let (selects, ranks) = row_select-row_rank r v in
    let xs : List ℕ = columns (words r) in
    let inside : get_or xs ordinal 0 < r.ncols = at_index r.ncols xs ordinal v.inside lt in
    let up : IsAscending (0 * 64) xs = columns-IsAscending 0 (words r) v.ascend in
    (
      get_or xs ordinal 0,
      selects ordinal ∙ get_elem?-eq-get_or xs ordinal 0 lt,
      inside,
      ranks (get_or xs ordinal 0) (omega arith)
          ∙ ap ok (
              ap length (below-take (0 * 64) xs ordinal up lt)
              ∙ length-take ordinal xs
              ∙ shorter ordinal (length xs) lt),
    )
  where
    at_index : (n : ℕ) (xs : List ℕ) (k : ℕ) → AllBelow n xs → k < length xs → get_or xs k 0 < n
    at_index n [] k h lt = absurd (omega arith)
    at_index n (x ∷ xs) zero h lt = h.0
    at_index n (x ∷ xs) (suc k) h lt = at_index n xs k h.1 (omega arith)

    shorter : (k n : ℕ) → k < n → min k n ≡ k
    shorter k n h = omega arith
