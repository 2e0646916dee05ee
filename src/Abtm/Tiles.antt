-- ===== src/Abtm/Tiles.antt =====
-- The packed tile descriptor (abtm.rs): packing and unpacking.
use Prim.Native.Nat.{bit_or-bitwise}
use hybit.Base.{
  ℕ, zero, suc, ◌+◌, ◌-◌, ◌*◌, ◌/◌, ◌^◌, ◌≤◌, ◌<◌, ◌≡◌, ◌⊎◌, refl, ap, ◌∙◌, arith, Bool, true,
  false, ◌&&◌, ◌||◌, ◌==◌, ltb, ok, err, bit_and, bit_or, two_32, inl, inr, Bool-cases, le→ltb,
  lt→ltb, ltb→lt, ltb→le, ne→==,
}
use hybit.Bits.{bit}
use hybit.Bits.Digits.{bit_or_halve}
use hybit.Bits.Laws.{
  two_pow-suc, bit-bit_and, bit-bit_or, bit-one_shl, bit-low_mask, bit_beyond, bit_ext, bit_and-lt,
  bit_or-lt, one_shl-lt,
}
use hybit.Core.{size_overflow}
use hybit.Abtm.{
  TileKind, sparse, bitmap, dense, kind_code, kind_shift, base_word_mask, tile_width, TileDesc,
  new_tile, decode_kind, tile_kind, tile_base_col,
}

-- A bit above the word is added to it.
or_above : (n w i : ℕ) → w < 2 ^ n → n ≤ i → bit_or w (2 ^ i) ≡ w + 2 ^ i
or_above zero zero i h le = simp bit_or-bitwise (omega arith)
or_above zero (suc w) i h le = absurd (omega arith)
or_above (suc n) w zero h le = absurd (omega arith)
or_above (suc n) w (suc i) h le =
    let half : 2 ^ suc i / 2 ≡ 2 ^ i = omega (arith, two_pow-suc i) in
    omega (
      arith,
      bit_or_halve w (2 ^ suc i),
      ap (bit_or (w / 2)) half,
      or_above n (w / 2) i (omega (arith, two_pow-suc n)) (omega arith),
      two_pow-suc i,
    )

or_zero : (n w : ℕ) → w < 2 ^ n → bit_or w 0 ≡ w
or_zero zero zero h = refl
or_zero zero (suc w) h = absurd (omega arith)
or_zero (suc n) w h =
    omega (arith, bit_or_halve w 0, or_zero n (w / 2) (omega (arith, two_pow-suc n)))

-- The low 30 bits of a word with one bit above them.
low_part : (w i : ℕ) → w < 2 ^ 30 → 30 ≤ i → i < 64 → bit_and (bit_or w (2 ^ i)) (2 ^ 30 - 1) ≡ w
low_part w i h le lt =
    bit_ext 64 (bit_and (bit_or w (2 ^ i)) (2 ^ 30 - 1)) w
      (bit_and-lt 64 (bit_or w (2 ^ i)) (2 ^ 30 - 1)
        (bit_or-lt 64 w (2 ^ i) (omega arith) (one_shl-lt i lt)))
      (omega arith)
      λ j _.
        bit-bit_and (bit_or w (2 ^ i)) (2 ^ 30 - 1) j
        ∙ rw (bit-bit_or w (2 ^ i) j, bit-one_shl i j, bit-low_mask 30 j)
            (elim (Bool-cases (ltb j 30)) [
              | inl low ↦
                  rw (low, ne→== i j (omega (arith, ltb→lt j 30 low))) (drop_false (bit w j))
              | inr high ↦ rw (high, bit_beyond 30 w j h (ltb→le j 30 high)) (and_false (i == j))
            ])
  where
    drop_false : (b : Bool) → ((b || false) && true) ≡ b
    drop_false b = ground arith

    and_false : (b : Bool) → ((false || b) && false) ≡ false
    and_false b = ground arith

low_word : (w : ℕ) → w < 2 ^ 30 → bit_and w (2 ^ 30 - 1) ≡ w
low_word w h = bit_ext 30 (bit_and w (2 ^ 30 - 1)) w (bit_and-lt 30 w (2 ^ 30 - 1) h) h λ j lt.
    bit-bit_and w (2 ^ 30 - 1) j ∙ rw (bit-low_mask 30 j, lt→ltb j 30 lt) (with_true (bit w j))
  where
    with_true : (b : Bool) → (b && true) ≡ b
    with_true b = ground arith

-- The packed word of a kind, and what its two parts read.
packed :
    (word : ℕ) (kind : TileKind)
    → word < kind_shift
    → (decode_kind (bit_or word (kind_code kind * kind_shift) / kind_shift) ≡ ok kind)
      × (bit_and (bit_or word (kind_code kind * kind_shift)) base_word_mask ≡ word)
packed word sparse h =
    let e : bit_or word 0 ≡ word = or_zero 30 word h in
    let high : word / kind_shift ≡ 0 = omega arith in (rw (e, high) refl, rw e (low_word word h))
packed word bitmap h =
    let e : bit_or word 0x40000000 ≡ word + 0x40000000 = or_above 30 word 30 h (omega arith) in
    let high : (word + 0x40000000) / kind_shift ≡ 1 = omega arith in
    (rw (e, high) refl, low_part word 30 h (omega arith) (omega arith))
packed word dense h =
    let e : bit_or word 0x80000000 ≡ word + 0x80000000 = or_above 30 word 31 h (omega arith) in
    let high : (word + 0x80000000) / kind_shift ≡ 2 = omega arith in
    (rw (e, high) refl, low_part word 31 h (omega arith) (omega arith))

-- A tile is built exactly when its column word fits 30 bits and its value offset 32, else the size
-- is refused; the tile then gives back its kind, the column its word starts at, its mask and its
-- offset, and its kind is never the invalid one.
pub new_tile-tile_kind :
    (base value_offset mask : ℕ) (kind : TileKind)
    → (base / tile_width < kind_shift
        → value_offset < two_32
        → (t : TileDesc) × (new_tile base value_offset mask kind ≡ ok t)
          × (tile_kind t ≡ ok kind)
          × (tile_base_col t ≡ base / tile_width * tile_width)
          × (t.mask ≡ mask)
          × (t.value_offset ≡ value_offset))
      × ((kind_shift ≤ base / tile_width) ⊎ (two_32 ≤ value_offset)
          → new_tile base value_offset mask kind ≡ err size_overflow)
unfolding new_tile tile_kind tile_base_col
new_tile-tile_kind base value_offset mask kind = (
  λ fits small.
      let (kind_is, base_is) = packed (base / tile_width) kind fits in
      (
        record {
          mask = mask;
          value_offset = value_offset;
          meta = bit_or (base / tile_width) (kind_code kind * kind_shift);
        },
        rw
            (
              le→ltb base_word_mask (base / tile_width) (omega arith),
              le→ltb (two_32 - 1) value_offset (omega arith),
            )
            refl,
        kind_is,
        ap (λ n. n * tile_width) base_is,
        refl,
        refl,
      ),
  λ out. elim out [
    | inl wide ↦ rw (lt→ltb base_word_mask (base / tile_width) (omega arith)) refl
    | inr far ↦
        let over = lt→ltb (two_32 - 1) value_offset (omega arith) in
        elim (Bool-cases (ltb base_word_mask (base / tile_width))) [
          | inl t ↦ rw t refl
          | inr f ↦ rw (f, over) refl
        ]
  ],
)
