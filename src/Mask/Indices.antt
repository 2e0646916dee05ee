-- ===== src/Mask/Indices.antt =====
-- The enumeration of a mask, its count, and the masks that lists of indices build (mask.rs).
use hybit.Base.{
  ℕ, ◌+◌, ◌-◌, ◌*◌, ◌/◌, ◌%◌, ◌≤◌, ◌<◌, ◌≡◌, ◌≢◌, refl, sym, ap, ◌∙◌, arith, Bool, true, false,
  ◌||◌, ltb, List, [], ◌∷◌, length, get_or, Bool-cases, inl, inr, has, IsAscending,
  IsAscending-weaken, AllBelow, try_fold, ltb→lt, ok, err,
}
use hybit.Bits.{bit}
use hybit.Bits.Laws.{bit_beyond}
use hybit.Core.{Result, invalid_argument}
use hybit.Mask.{DofMask, new, set_dof, from_indices, indices, mask_count_ones, sum_ones, is_empty}
use hybit.Mask.Valid.{
  member, IsValid, IsMaskOf, set_dof-IsMaskOf, set_dof-out, member-new, new-IsValid, mask_ext,
}
use hybit.Mask.Listing.{
  listing, has-listing, listing-IsAscending, length-listing, indices-eq-listing,
}

pub set_bit_in_mask :
    (m : DofMask) (i b : ℕ) → IsValid m → bit (get_or m.words i 0) b ≡ true → i * 64 + b < m.len
set_bit_in_mask m i b v h =
    let low : b < 64 = ground (arith, bit_beyond 64 (get_or m.words i 0) b (v.word i)) in
    let quotient : (i * 64 + b) / 64 ≡ i = omega arith in
    let rest : (i * 64 + b) % 64 ≡ b = omega arith in
    let there : member m (i * 64 + b) ≡ true = rw (quotient, rest) h in
    ground (arith, v.tail (i * 64 + b))

-- `indices` lists exactly the elements of the mask, each once, in ascending order, and
-- `count_ones` is their number.
pub indices_lem :
    (m : DofMask)
    → IsValid m
    → IsAscending 0 (indices m)
      × ((i : ℕ) → has (indices m) i ≡ member m i)
      × (length (indices m) ≡ mask_count_ones m)
unfolding mask_count_ones
indices_lem m v = rw (indices-eq-listing m v) (ascending, members, count)
  where
    ascending : IsAscending 0 (listing m.len 0 m.words)
    ascending =
        IsAscending-weaken 0 (0 * 64) (listing m.len 0 m.words) (omega arith)
          (listing-IsAscending m.len 0 m.words)

    members : (i : ℕ) → has (listing m.len 0 m.words) i ≡ member m i
    members i =
        let first : i / 64 - 0 ≡ i / 64 = omega arith in
        rw (has-listing m.len 0 m.words i v.word, first) (ground (arith, v.tail i))

    count : length (listing m.len 0 m.words) ≡ sum_ones m.words
    count =
        length-listing m.len 0 m.words v.word (λ i b h. omega (arith, set_bit_in_mask m i b v h))

nonempty_has : (xs : List ℕ) → length xs ≢ 0 → (i : ℕ) × (has xs i ≡ true)
nonempty_has [] h = absurd (h refl)
nonempty_has (x ∷ xs) h = (x, ground arith)

empty_has : (xs : List ℕ) (i : ℕ) → length xs ≡ 0 → has xs i ≡ false
empty_has [] i h = refl
empty_has (x ∷ xs) i h = absurd (omega arith)

-- `is_empty` answers true when no number is an element, and otherwise there is one.
pub is_empty_lem :
    (m : DofMask)
    → IsValid m
    → (is_empty m ≡ true → (i : ℕ) → member m i ≡ false)
      × (is_empty m ≡ false → (i : ℕ) × (member m i ≡ true))
unfolding is_empty
is_empty_lem m v = (
  λ h i. sym (facts.1 i) ∙ empty_has (indices m) i (facts.2 ∙ ground arith),
  λ h. let (i, p) = nonempty_has (indices m) (ground (arith, facts.2)) in (i, sym (facts.1 i) ∙ p),
)
  where
    facts :
        IsAscending 0 (indices m)
        × ((i : ℕ) → has (indices m) i ≡ member m i)
        × (length (indices m) ≡ mask_count_ones m)
    facts = indices_lem m v

IsMaskOf-same :
    {n : ℕ} {f g : ℕ → Bool} {r : Result DofMask}
    → ((i : ℕ) → f i ≡ g i)
    → IsMaskOf n f r
    → IsMaskOf n g r
IsMaskOf-same e h = record {
  mask = h.mask;
  returns = h.returns;
  valid = h.valid;
  same_len = h.same_len;
  members = λ i. h.members i ∙ e i;
}

set_all-IsMaskOf :
    (n : ℕ) (m : DofMask) (xs : List ℕ)
    → IsValid m
    → m.len ≡ n
    → AllBelow n xs
    → IsMaskOf n (λ i. has xs i || member m i) (try_fold (λ m i. set_dof m i true) m xs)
unfolding try_fold
set_all-IsMaskOf n m [] v e h = record {
  mask = m;
  returns = refl;
  valid = v;
  same_len = e;
  members = λ i. refl;
}
set_all-IsMaskOf n m (x ∷ xs) v e h =
    let first = set_dof-IsMaskOf m x true v (rw e h.0) in
    let rest = set_all-IsMaskOf n first.mask xs first.valid (first.same_len ∙ e) h.1 in
    rw first.returns (IsMaskOf-same (λ i. ground (arith, first.members i)) rest)

-- `from_indices` on indices in range is the set of the listed numbers.
pub from_indices-IsMaskOf :
    (n : ℕ) (xs : List ℕ) → AllBelow n xs → IsMaskOf n (has xs) (from_indices n xs)
unfolding from_indices
from_indices-IsMaskOf n xs h =
    IsMaskOf-same (λ i. ground (arith, member-new n i))
      (set_all-IsMaskOf n (new n) xs (new-IsValid n) refl h)

set_all_out :
    (n : ℕ) (m : DofMask) (xs : List ℕ) (x : ℕ)
    → IsValid m
    → m.len ≡ n
    → has xs x ≡ true
    → n ≤ x
    → try_fold (λ m i. set_dof m i true) m xs ≡ err (invalid_argument "DOF mask index out of range")
unfolding try_fold
set_all_out n m [] x v e h out = absurd (cc h)
set_all_out n m (y ∷ xs) x v e h out = elim (Bool-cases (ltb y n)) [
  | inl inside ↦
      let first = set_dof-IsMaskOf m y true v (rw e (ltb→lt y n inside)) in
      rw first.returns
        (set_all_out n first.mask xs x first.valid (first.same_len ∙ e) (ground arith) out)
  | inr outside ↦ rw (set_dof-out m y true (rw e (ground arith))) refl
]

-- One index out of range makes `from_indices` fail.
pub from_indices_out :
    (n : ℕ) (xs : List ℕ) (x : ℕ)
    → has xs x ≡ true
    → n ≤ x
    → from_indices n xs ≡ err (invalid_argument "DOF mask index out of range")
unfolding from_indices
from_indices_out n xs x h out = set_all_out n (new n) xs x (new-IsValid n) refl h out

pub AllBelow-of_has : (n : ℕ) (xs : List ℕ) → ((x : ℕ) → has xs x ≡ true → x < n) → AllBelow n xs
AllBelow-of_has n [] h = tt
AllBelow-of_has n (y ∷ xs) h =
    (h y (ground arith), AllBelow-of_has n xs (λ x hx. h x (ground arith)))

-- The indices of a valid mask build that mask again.
pub from_indices-indices : (m : DofMask) → IsValid m → from_indices m.len (indices m) ≡ ok m
from_indices-indices m v =
    let (_, members, _) = indices_lem m v in
    let inside = AllBelow-of_has m.len (indices m) (λ x h. ground (arith, members x, v.tail x)) in
    let built = from_indices-IsMaskOf m.len (indices m) inside in
    built.returns
    ∙ ap ok (mask_ext built.mask m built.valid v built.same_len (λ i. built.members i ∙ members i))
