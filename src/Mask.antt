-- ===== src/Mask.antt =====
-- crates/hybit-matrix/src/mask.rs: a set of degrees of freedom as a bitmap in 64-bit words.
pub mod Valid
pub mod Algebra
pub mod OrWord
pub mod Listing
pub mod Indices
use hybit.Base.{
  ℕ, zero, suc, ◌+◌, ◌-◌, ◌*◌, ◌/◌, ◌%◌, bit_and, bit_or, Bool, true, false, not, ◌&&◌, ◌==◌, ltb,
  leb, if◌then◌else◌, List, [], ◌∷◌, ◌++◌, length, replicate, get_or, set, any, ok, at, put,
  fail_if, ◌>>=◌, ◌>>◌, try_fold,
}
use hybit.Bits.{bit, one_shl, bit_not, count_ones, for_each_bit}
use hybit.Core.{HybitError, invalid_argument, dimension_mismatch, Result}

pub record DofMask : Type 0 where
  pub len : ℕ
  pub words : List ℕ

-- `a.div_ceil(b)`
abbrev pub div_ceil : ℕ → ℕ → ℕ
div_ceil a b = if a % b == 0 then a / b else a / b + 1

-- `DofMask::new`
unfoldable pub new : ℕ → DofMask
new n = record { len = n; words = replicate (div_ceil n 64) 0 }

-- `DofMask::set`
unfoldable pub set_dof : DofMask → ℕ → Bool → Result DofMask
set_dof m index value = do
  fail_if (leb m.len index) (invalid_argument "DOF mask index out of range")
  w ← at m.words (index / 64)
  let w' =
      if value then bit_or w (one_shl (index % 64)) else bit_and w (bit_not (one_shl (index % 64)))
  words' ← put m.words (index / 64) w'
  ok (record m { words = words' })

-- `DofMask::from_indices`
unfoldable pub from_indices : ℕ → List ℕ → Result DofMask
unfolding set_dof new
from_indices n indices = try_fold (λ m i. set_dof m i true) (new n) indices

-- `DofMask::contains`
unfoldable pub contains : DofMask → ℕ → Result Bool
contains m index =
    if leb m.len index
    then ok false
    else do w ← at m.words (index / 64); ok (not (bit_and w (one_shl (index % 64)) == 0))

unfoldable pub sum_ones : List ℕ → ℕ
sum_ones [] = 0
sum_ones (w ∷ ws) = count_ones w + sum_ones ws

-- `DofMask::count_ones`
unfoldable pub mask_count_ones : DofMask → ℕ
unfolding sum_ones
mask_count_ones m = sum_ones m.words

-- `DofMask::is_empty`
unfoldable pub is_empty : DofMask → Bool
unfolding mask_count_ones
is_empty m = mask_count_ones m == 0

-- `ensure_same_len`
abbrev pub ensure_same_len : DofMask → DofMask → Result (Unit {0})
ensure_same_len a b = fail_if (not (a.len == b.len)) (dimension_mismatch a.len b.len)

-- The words of `a` with `op` applied along the words of `b`, as `zip` pairs them.
unfoldable pub zip_words : (ℕ → ℕ → ℕ) → List ℕ → List ℕ → List ℕ
zip_words op [] ys = []
zip_words op (x ∷ xs) [] = x ∷ xs
zip_words op (x ∷ xs) (y ∷ ys) = op x y ∷ zip_words op xs ys

unfoldable pub union_assign : DofMask → DofMask → Result DofMask
unfolding zip_words
union_assign a b = do
  ensure_same_len a b
  ok (record a { words = zip_words bit_or a.words b.words })

unfoldable pub intersect_assign : DofMask → DofMask → Result DofMask
unfolding zip_words
intersect_assign a b = do
  ensure_same_len a b
  ok (record a { words = zip_words bit_and a.words b.words })

unfoldable pub and_not_assign : DofMask → DofMask → Result DofMask
unfolding zip_words
and_not_assign a b = do
  ensure_same_len a b
  ok (record a { words = zip_words (λ x y. bit_and x (bit_not y)) a.words b.words })

unfoldable pub any_common : List ℕ → List ℕ → Bool
any_common [] ys = false
any_common (x ∷ xs) [] = false
any_common (x ∷ xs) (y ∷ ys) = if bit_and x y == 0 then any_common xs ys else true

unfoldable pub intersects : DofMask → DofMask → Result Bool
unfolding any_common
intersects a b = do ensure_same_len a b; ok (any_common a.words b.words)

-- The loop over the words in `indices`, at word `word_index`.
pub collect : ℕ → ℕ → List ℕ → List ℕ → List ℕ
collect n word_index [] result = result
collect n word_index (w ∷ ws) result = collect n (suc word_index) ws (
    for_each_bit (λ r b. if ltb (word_index * 64 + b) n then r ++ (word_index * 64 + b) ∷ [] else r)
      result w)

-- `DofMask::indices`
unfoldable pub indices : DofMask → List ℕ
unfolding collect for_each_bit
indices m = collect m.len 0 m.words []

-- What `or_word` stores: in the last word of a ragged mask only the bits below `len`.
abbrev pub merged_word : DofMask → ℕ → ℕ → ℕ
merged_word m word_index bits =
    if (word_index + 1 == length m.words) && not (m.len % 64 == 0)
    then bit_and (bit_or (get_or m.words word_index 0) bits) (one_shl (m.len % 64) - 1)
    else bit_or (get_or m.words word_index 0) bits

-- `DofMask::or_word`
unfoldable pub or_word : DofMask → ℕ → ℕ → DofMask
or_word m word_index bits =
    if ltb word_index (length m.words)
    then record m { words = set m.words word_index (merged_word m word_index bits) }
    else m
