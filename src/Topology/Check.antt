-- ===== src/Topology/Check.antt =====
-- What `AbtmTopology::validate` (topology.rs) accepts.
use hybit.Base.{
  ℕ, suc, ◌+◌, ◌-◌, ◌*◌, ◌≤◌, ◌<◌, ◌≡◌, ◌≢◌, ◌↔◌, refl, sym, ap, ◌∙◌, arith, true, false, not, ◌&&◌,
  ◌==◌, ltb, leb, if◌then◌else◌, length, get_or, Option, none, some, ok, at-eq-ok, ◌>>=◌, ◌>>◌,
  checked_add, checked_mul, two_64, bit_and, Bool-cases, inl, inr, fail_if, ok_or, >>=-eq-ok,
  fail_if-eq-ok, lt→ltb, ltb→lt, ltb→le, ne→==,
}
use hybit.Bits.{bit, one_shl, bit_not, count_ones}
use hybit.Bits.Laws.{bit-bit_and, bit-bit_not, bit-low_mask, bit_and-lt, one_shl-lt, bit_beyond}
use hybit.Bits.Ones.{ne-zero_of_bit, eq-zero_of_bits}
use hybit.Core.{Result, HybitError, invalid_matrix, size_overflow}
use hybit.Topology.{AbtmTopology, not_above, has_stray_bits, check_word}

-- No bit of the word names a column from `ncols` on.
abbrev pub StaysInside : ℕ → ℕ → ℕ → Type 0
StaysInside ncols base mask = (j : ℕ) → bit mask j ≡ true → base + j < ncols

low_mask-lt : (k : ℕ) → k < 64 → one_shl k - 1 < two_64
low_mask-lt k h = omega (arith, one_shl-lt k h)

kept_bit :
    (k mask j : ℕ)
    → k < 64
    → j < 64
    → bit (bit_and mask (bit_not (one_shl k - 1))) j ≡ (bit mask j && not (ltb j k))
kept_bit k mask j h lt =
    rw
      (
        bit-bit_and mask (bit_not (one_shl k - 1)) j,
        bit-bit_not (one_shl k - 1) j (low_mask-lt k h) lt,
        bit-low_mask k j,
      )
      refl

below_64 : (mask j : ℕ) → mask < two_64 → bit mask j ≡ true → j < 64
below_64 mask j narrow h = elim (Bool-cases (ltb j 64)) [
  | inl lt ↦ ltb→lt j 64 lt
  | inr ge ↦ absurd (cc (h, bit_beyond 64 mask j narrow (ltb→le j 64 ge)))
]

cleared :
    (k mask : ℕ)
    → k < 64
    → mask < two_64
    → (bit_and mask (bit_not (one_shl k - 1)) ≡ 0) ↔ ((j : ℕ) → bit mask j ≡ true → j < k)
cleared k mask small narrow = (
  λ zero j set_j. elim (Bool-cases (ltb j k)) [
    | inl lt ↦ ltb→lt j k lt
    | inr ge ↦ absurd (
        ne-zero_of_bit (bit_and mask (bit_not (one_shl k - 1))) j
          (kept_bit k mask j small (below_64 mask j narrow set_j) ∙ rw (set_j, ge) refl) zero)
  ],
  λ below. eq-zero_of_bits _ (bit_and-lt 64 mask _ narrow) λ j lt.
      kept_bit k mask j small lt ∙ elim (Bool-cases (bit mask j)) [
        | inl present ↦ rw (present, lt→ltb j k (below j present)) refl
        | inr absent ↦ rw absent refl
      ],
)

stray_iff :
    (ncols base mask : ℕ)
    → mask < two_64
    → base < ncols
    → (has_stray_bits ncols base mask ≡ false) ↔ StaysInside ncols base mask
stray_iff ncols base mask narrow inside = elim (Bool-cases (ltb (ncols - base) 64)) [
  | inl short ↦
      let exact = cleared (ncols - base) mask (ltb→lt _ _ short) narrow in
      (
        λ h j set_j. let below = exact.0 (ground (arith, h, short)) j set_j in omega arith,
        λ stays.
            let zero = exact.1 (λ j set_j. let lt = stays j set_j in omega arith) in
            rw (short, zero) refl,
      )
  | inr long ↦ (
    λ h j set_j. let lt = below_64 mask j narrow set_j in let wide = ltb→le _ _ long in omega arith,
    λ stays. rw long refl,
  )
]

-- The word at p of a row that starts at `start`.
pub record IsWordAt (t : AbtmTopology) (start p : ℕ) : Type 0 where
  pub nonempty : get_or t.masks p 0 ≢ 0
  pub above : start < p → get_or t.word_indices (p - 1) 0 < get_or t.word_indices p 0
  pub in_columns : get_or t.word_indices p 0 * 64 < t.ncols
  pub stays : StaysInside t.ncols (get_or t.word_indices p 0 * 64) (get_or t.masks p 0)

-- The word before p, as the loop carries it.
abbrev pub previous : AbtmTopology → ℕ → ℕ → Option ℕ
previous t start p = if p == start then none else some (get_or t.word_indices (p - 1) 0)

abbrev pub counts_at : AbtmTopology → ℕ → ℕ
counts_at t p = count_ones (get_or t.masks p 0)

ok_inj {ℓ} : {A : Type ℓ} {a b : A} → (Path (Result A) (ok a) (ok b)) → a ≡ b
ok_inj h = cc

checked_add-eq-ok :
    (a b : ℕ) (e : HybitError) {c : ℕ}
    → ok_or (checked_add two_64 a b) e ≡ ok c
    → (a + b < two_64) × (c ≡ a + b)
checked_add-eq-ok a b e h = elim (Bool-cases (ltb (a + b) two_64)) [
  | inl lt ↦ (ltb→lt _ _ lt, sym (ok_inj (rw lt at h)))
  | inr ge ↦ absurd (cc (rw ge at h))
]

checked_mul-eq-ok :
    (a b : ℕ) (e : HybitError) {c : ℕ} → ok_or (checked_mul two_64 a b) e ≡ ok c → c ≡ a * b
checked_mul-eq-ok a b e h = elim (Bool-cases (ltb (a * b) two_64)) [
  | inl lt ↦ sym (ok_inj (rw lt at h))
  | inr ge ↦ absurd (cc (rw ge at h))
]

-- `check_word` once the word and its mask are read.
module _ (t : AbtmTopology) (start p c word mask : ℕ) where
  abbrev after_reads : Result (Option ℕ × ℕ)
  after_reads = do
    fail_if (mask == 0) (invalid_matrix "ABTM topology stores an empty word")
    fail_if (not_above (previous t start p) word)
        (invalid_matrix "ABTM topology row words are not strictly increasing")
    base ← ok_or (checked_mul two_64 word 64) size_overflow
    fail_if (leb t.ncols base) (invalid_matrix "ABTM topology word starts beyond matrix columns")
    fail_if (has_stray_bits t.ncols base mask)
        (invalid_matrix "ABTM topology has bits beyond matrix columns")
    counted' ← ok_or (checked_add two_64 c (count_ones mask)) size_overflow
    ok (some word, counted')

  after_reads-inverts :
      (s : Option ℕ × ℕ)
      → after_reads ≡ ok s
      → (mask ≢ 0)
        × (not_above (previous t start p) word ≡ false)
        × (word * 64 < t.ncols)
        × (has_stray_bits t.ncols (word * 64) mask ≡ false)
        × (s ≡ (some word, c + count_ones mask))
  after_reads-inverts s h =
      let (_, p1, h1) = >>=-eq-ok (fail_if (mask == 0) _) _ h in
      let (_, p2, h2) = >>=-eq-ok (fail_if (not_above (previous t start p) word) _) _ h1 in
      let (base, p3, h3) = >>=-eq-ok (ok_or (checked_mul two_64 word 64) size_overflow) _ h2 in
      let (_, p4, h4) = >>=-eq-ok (fail_if (leb t.ncols base) _) _ h3 in
      let (_, p5, h5) = >>=-eq-ok (fail_if (has_stray_bits t.ncols base mask) _) _ h4 in
      let (counted, p6, h6) =
        >>=-eq-ok (ok_or (checked_add two_64 c (count_ones mask)) size_overflow) _ h5 in
      let base_is : base ≡ word * 64 = checked_mul-eq-ok word 64 size_overflow p3 in
      let (fits, counted_is) = checked_add-eq-ok c (count_ones mask) size_overflow p6 in
      let inside : leb t.ncols base ≡ false = fail_if-eq-ok (leb t.ncols base) _ p4 in
      let clean : has_stray_bits t.ncols base mask ≡ false =
        fail_if-eq-ok (has_stray_bits t.ncols base mask) _ p5 in
      (
        ground (arith, fail_if-eq-ok (mask == 0) _ p1),
        fail_if-eq-ok (not_above (previous t start p) word) _ p2,
        under t.ncols base (word * 64) base_is inside,
        sym (ap (λ b. has_stray_bits t.ncols b mask) base_is) ∙ clean,
        sym (ok_inj h6) ∙ ap (λ k. (some word, k)) counted_is,
      )
    where
      under : (n base w : ℕ) → base ≡ w → leb n base ≡ false → w < n
      under n base w e h = ground arith

module _ (t : AbtmTopology) (start p c : ℕ) (masks : p < length t.masks)
    (pairs : length t.word_indices ≡ length t.masks) (narrow : get_or t.masks p 0 < two_64)
    (le : start ≤ p) where
  pub check_word-IsWordAt :
      (s : Option ℕ × ℕ)
      → check_word t (previous t start p, c) p ≡ ok s
      → IsWordAt t start p × (s ≡ (previous t start (suc p), c + counts_at t p))
  unfolding check_word
  check_word-IsWordAt s h =
      let h' : after_reads t start p c (get_or t.word_indices p 0) (get_or t.masks p 0) ≡ ok s =
        rw (at-eq-ok t.word_indices p 0 (omega (arith, pairs)), at-eq-ok t.masks p 0 masks) at h in
      let (w1, w2, w4, w5, e) =
        after_reads-inverts t start p c (get_or t.word_indices p 0) (get_or t.masks p 0) s h' in
      (
        record {
          nonempty = w1;
          above = λ lt. ground (arith, w2);
          in_columns = w4;
          stays =
              (stray_iff t.ncols (get_or t.word_indices p 0 * 64) (get_or t.masks p 0) narrow w4).0
                w5;
        },
        e ∙ ground arith,
      )

  pub IsWordAt-check_word :
      t.ncols < two_64
      → IsWordAt t start p
      → c + counts_at t p < two_64
      → check_word t (previous t start p, c) p ≡ ok (previous t start (suc p), c + counts_at t p)
  unfolding check_word
  IsWordAt-check_word wide w fits =
      rw
        (
          at-eq-ok t.word_indices p 0 (omega (arith, pairs)),
          at-eq-ok t.masks p 0 masks,
          ne→== (get_or t.masks p 0) 0 w.nonempty,
          not_above_of (get_or t.word_indices (p - 1) 0) (get_or t.word_indices p 0) w.above,
          lt→ltb (get_or t.word_indices p 0 * 64) two_64 (omega (arith, w.in_columns)),
          above t.ncols (get_or t.word_indices p 0 * 64) w.in_columns,
          (stray_iff t.ncols (get_or t.word_indices p 0 * 64) (get_or t.masks p 0) narrow
                w.in_columns).1
              w.stays,
          lt→ltb (c + counts_at t p) two_64 fits,
        )
        (ground arith)
    where
      above : (n b : ℕ) → b < n → leb n b ≡ false
      above n b h = ground arith

      not_above_of :
          (before word : ℕ)
          → (start < p → before < word)
          → not_above (if p == start then none else some before) word ≡ false
      not_above_of before word h = ground arith
