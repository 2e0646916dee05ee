-- ===== src/Topology/Combine.antt =====
-- The word-wise combinations of two topologies (topology.rs).
use hybit.Base.{
  ℕ, zero, suc, ◌+◌, ◌-◌, not, ◌&&◌, ◌||◌, ◌==◌, ltb, if◌then◌else◌, range, ok, at, fail_if, ◌>>=◌,
  ◌>>◌, try_fold, bit_and, bit_or, bit_xor,
}
use hybit.Bits.{bit_not}
use hybit.Core.{invalid_argument, Result}
use hybit.Topology.{AbtmTopology, Filling, empty_filling, store_word, close_row, finish}

-- The next word of a merge, with the masks of both sides and the cursors after it.
pub record Step : Type 0 where
  pub word : ℕ
  pub a_mask : ℕ
  pub b_mask : ℕ
  pub a : ℕ
  pub b : ℕ

module _ (self other : AbtmTopology) where
  unfoldable pub take_left : ℕ → ℕ → Result Step
  take_left a b = do
    word ← at self.word_indices a
    mask ← at self.masks a
    ok (record { word = word; a_mask = mask; b_mask = 0; a = a + 1; b = b })

  unfoldable pub take_right : ℕ → ℕ → Result Step
  take_right a b = do
    word ← at other.word_indices b
    mask ← at other.masks b
    ok (record { word = word; a_mask = 0; b_mask = mask; a = a; b = b + 1 })

  unfoldable pub take_both : ℕ → ℕ → Result Step
  take_both a b = do
    word ← at self.word_indices a
    a_mask ← at self.masks a
    b_mask ← at other.masks b
    ok (record { word = word; a_mask = a_mask; b_mask = b_mask; a = a + 1; b = b + 1 })

  -- The match on `(a < a_end, b < b_end)`, where one of the two holds.
  unfoldable pub next_word : ℕ → ℕ → ℕ → ℕ → Result Step
  unfolding take_left take_right take_both
  next_word a a_end b b_end =
      if ltb a a_end && ltb b b_end
      then (do
        aw ← at self.word_indices a
        bw ← at other.word_indices b
        if ltb aw bw then take_left a b else if ltb bw aw then take_right a b else take_both a b)
      else if ltb a a_end
      then take_left a b
      else take_right a b

module _ (self other : AbtmTopology) (op : ℕ → ℕ → ℕ) where
  -- The merge of two rows; a round moves a cursor, so the words of both are enough fuel.
  unfoldable pub merge_loop : ℕ → ℕ → ℕ → ℕ → ℕ → Filling → Result Filling
  unfolding next_word store_word
  merge_loop zero a a_end b b_end f = ok f
  merge_loop (suc fuel) a a_end b b_end f =
      let rest = next_word self other a a_end b b_end >>= λ s.
      (let mask = op s.a_mask s.b_mask in if mask == 0 then ok f else store_word f s.word mask)
      >>= λ f'. merge_loop fuel s.a a_end s.b b_end f' in
      if ltb a a_end || ltb b b_end then rest else ok f

  unfoldable pub combine_row : Filling → ℕ → Result Filling
  unfolding merge_loop close_row
  combine_row f r = do
    a_start ← at self.row_word_ptr r
    a_end ← at self.row_word_ptr (r + 1)
    b_start ← at other.row_word_ptr r
    b_end ← at other.row_word_ptr (r + 1)
    f' ← merge_loop ((a_end - a_start) + (b_end - b_start)) a_start a_end b_start b_end f
    close_row f'

  -- `AbtmTopology::combine`
  unfoldable pub combine : Result AbtmTopology
  unfolding combine_row finish
  combine = do
    fail_if (not (self.nrows == other.nrows) || not (self.ncols == other.ncols))
        (invalid_argument "ABTM topology dimensions differ")
    f ← try_fold combine_row empty_filling (range 0 self.nrows)
    finish self.nrows self.ncols f

unfoldable pub intersection : AbtmTopology → AbtmTopology → Result AbtmTopology
unfolding combine
intersection a b = combine a b bit_and

unfoldable pub union : AbtmTopology → AbtmTopology → Result AbtmTopology
unfolding combine
union a b = combine a b bit_or

unfoldable pub and_not : AbtmTopology → AbtmTopology → Result AbtmTopology
unfolding combine
and_not a b = combine a b (λ x y. bit_and x (bit_not y))

unfoldable pub symmetric_difference : AbtmTopology → AbtmTopology → Result AbtmTopology
unfolding combine
symmetric_difference a b = combine a b bit_xor
