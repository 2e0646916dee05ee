-- ===== src/Layout.antt =====
-- crates/hybit-matrix/src/dof_layout.rs: degrees of freedom in blocks of an entity and a field.
pub mod Valid
pub mod Locate
pub mod Spans
pub mod Blocks
pub mod FieldMask
use hybit.Base.{
  ℕ, ◌+◌, ◌-◌, ◌*◌, ◌/◌, ◌%◌, ◌^◌, bit_and, Bool, true, false, not, ◌&&◌, ◌||◌, ◌==◌, ltb, leb,
  if◌then◌else◌, List, [], ◌∷◌, ◌++◌, Option, none, some, length, range, last?, any, enumerate,
  partition_point, foldl, ok, err, at, minus, or_panic, ok_or, fail_if, ◌>>=◌, ◌>>◌, try_fold,
  checked_add, two_64, two_32,
}
use hybit.Bits.{one_shl}
use hybit.Core.{invalid_argument, invalid_matrix, size_overflow, Result}
use hybit.Mask
use hybit.Mask.{DofMask, or_word}

pub data DofEntityKind : Type 0 where
  node : DofEntityKind
  edge : DofEntityKind
  face : DofEntityKind
  element : DofEntityKind
  multiplier : DofEntityKind
  constraint : DofEntityKind
  other : DofEntityKind

-- The discriminants of the enum.
abbrev pub entity_code : DofEntityKind → ℕ
entity_code node = 1
entity_code edge = 2
entity_code face = 3
entity_code element = 4
entity_code multiplier = 5
entity_code constraint = 6
entity_code other = 255

-- `DofEntityKind::from_code`
unfoldable pub from_code : ℕ → Result DofEntityKind
from_code code =
    if code == 1
    then ok node
    else if code == 2
    then ok edge
    else if code == 3
    then ok face
    else if code == 4
    then ok element
    else if code == 5
    then ok multiplier
    else if code == 6
    then ok constraint
    else if code == 255
    then ok other
    else err (invalid_argument "unknown DOF entity kind")

pub record DofBlock : Type 0 where
  pub entity_kind : DofEntityKind
  pub entity_id : ℕ
  pub field_id : ℕ
  pub components : ℕ

pub record DofAddress : Type 0 where
  pub block_index : ℕ
  pub component : ℕ

pub record FieldAwareDofLayout : Type 0 where
  pub blocks : List DofBlock
  pub offsets : List ℕ

-- Equality of the keys `(entity_kind, entity_id, field_id)`.
abbrev pub same_key : DofBlock → DofBlock → Bool
same_key a b =
    (entity_code a.entity_kind == entity_code b.entity_kind)
    && (a.entity_id == b.entity_id)
    && (a.field_id == b.field_id)

-- The loop's variables in `FieldAwareDofLayout::new`; the set of keys is the list of their blocks.
pub record Numbering : Type 0 where
  pub seen : List DofBlock
  pub offsets : List ℕ
  pub next : ℕ

unfoldable pub number_block : Numbering → DofBlock → Result Numbering
number_block s block = do
  fail_if (block.components == 0) (invalid_argument "DOF block component count must be positive")
  fail_if (any (same_key block) s.seen) (invalid_argument "duplicate DOF entity/field block")
  next ← ok_or (checked_add two_64 s.next block.components) size_overflow
  ok (record { seen = block ∷ s.seen; offsets = s.offsets ++ next ∷ []; next = next })

-- `FieldAwareDofLayout::new`
unfoldable pub new : List DofBlock → Result FieldAwareDofLayout
unfolding number_block
new blocks = do
  fail_if (length blocks == 0) (invalid_argument "DOF layout requires at least one block")
  s ← try_fold number_block (record { seen = []; offsets = 0 ∷ []; next = 0 }) blocks
  ok (record { blocks = blocks; offsets = s.offsets })

-- `FieldAwareDofLayout::total_dofs`
unfoldable pub total_dofs : FieldAwareDofLayout → Result ℕ
total_dofs l = or_panic (last? l.offsets)

-- `FieldAwareDofLayout::block_range`
unfoldable pub block_range : FieldAwareDofLayout → ℕ → Result (Option (ℕ × ℕ))
block_range l index =
    if leb (length l.blocks) index
    then ok none
    else do start ← at l.offsets index; end ← at l.offsets (index + 1); ok (some (start, end))

-- `FieldAwareDofLayout::locate`
unfoldable pub locate : FieldAwareDofLayout → ℕ → Result (Option DofAddress)
unfolding total_dofs
locate l dof = do
  total ← total_dofs l
  if leb total dof then ok none else do
    block_index ← minus (partition_point (λ offset. leb offset dof) l.offsets) 1
    start ← at l.offsets block_index
    component ← minus dof start
    ok (some (record { block_index = block_index; component = component % two_32 }))

-- `usize::try_from` of a u64.
abbrev pub to_usize : ℕ → Result ℕ
to_usize n = if ltb n two_64 then ok n else err size_overflow

-- `FieldAwareDofLayout::validate_square_matrix_size`
unfoldable pub validate_square_matrix_size : FieldAwareDofLayout → ℕ → ℕ → Result (Unit {0})
unfolding total_dofs
validate_square_matrix_size l nrows ncols = do
  total ← total_dofs l
  n ← to_usize total
  fail_if (not (nrows == n) || not (ncols == n))
      (invalid_matrix "square matrix dimensions disagree with DOF layout")

-- `u64::MAX << n`
abbrev pub max_shl : ℕ → ℕ
max_shl n = ((two_64 - 1) * 2 ^ n) % two_64

-- The bits of the DOFs from `start` up to `last` in a word between their words.
abbrev pub field_bits : ℕ → ℕ → ℕ → ℕ
field_bits start last word =
    let first = if word == start / 64 then start % 64 else 0 in
    let last_exclusive = if word == last / 64 then last % 64 + 1 else 64 in
    let high = if last_exclusive == 64 then two_64 - 1 else one_shl last_exclusive - 1 in
    bit_and high (max_shl first)

unfoldable pub add_field_block : FieldAwareDofLayout → ℕ → DofMask → ℕ × DofBlock → Result DofMask
add_field_block l field_id mask (index, block) =
    if not (block.field_id == field_id) then ok mask else do
      offset ← at l.offsets index
      start ← to_usize offset
      next_offset ← at l.offsets (index + 1)
      end ← to_usize next_offset
      last ← minus end 1
      ok (
          foldl (λ m word. or_word m word (field_bits start last word)) mask
            (range (start / 64) (last / 64 + 1 - start / 64)))

-- `FieldAwareDofLayout::field_mask`
unfoldable pub field_mask : FieldAwareDofLayout → ℕ → Result DofMask
unfolding total_dofs add_field_block
field_mask l field_id = do
  total ← total_dofs l
  n ← to_usize total
  try_fold (add_field_block l field_id) (Mask.new n) (enumerate 0 l.blocks)
