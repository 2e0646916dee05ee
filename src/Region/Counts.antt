-- ===== src/Region/Counts.antt =====
-- The counting loops of `region_multiplicity` (region.rs): one round for each node of a region.
use hybit.Base.{
  ℕ, suc, ◌+◌, ◌*◌, ◌<◌, ◌≡◌, refl, sym, ap, ◌∙◌, arith, Bool, true, false, ◌||◌, ◌==◌, leb,
  if◌then◌else◌, List, [], ◌∷◌, ◌++◌, length, get_or, set, foldl, ok, err, panic, at, put, ok_or,
  ◌>>=◌, try_fold, bind_ext, at-eq-ok, checked_add, two_64, two_32, has, IsAscending, AllBelow,
  not-has_below, get_or-set, length-set, lt→ltb, Bool-cases, inl, inr, eq→==,
}
use hybit.Bits.{ones, bit}
use hybit.Bits.Loop.{for_each_bit-eq-foldl}
use hybit.Bits.Ones.{has-ones}
use hybit.Core.{Result, size_overflow}
use hybit.Mask.{DofMask, indices}
use hybit.Mask.Valid.{IsValid}
use hybit.Mask.Listing.{picked, listing, indices-eq-listing}
use hybit.Mask.Indices.{set_bit_in_mask}
use hybit.Region.Multiplicity.{Tally, count_bit, count_words, count_region}

-- One node counted.
abbrev count_node : Tally → ℕ → Result Tally
count_node (counts, total) node = do
  count ← at counts node
  count' ← ok_or (checked_add two_32 count 1) size_overflow
  counts' ← put counts node count'
  total' ← ok_or (checked_add two_64 total 1) size_overflow
  ok (counts', total')

bind_assoc :
    {A : Type 0} {B : Type 0} {C : Type 0} (r : Result A) (f : A → Result B) (g : B → Result C)
    → ((r >>= f) >>= g) ≡ (r >>= λ a. f a >>= g)
bind_assoc (ok a) f g = refl
bind_assoc (err e) f g = refl
bind_assoc panic f g = refl

bind_ok : {A : Type 0} (r : Result A) → (r >>= λ a. ok a) ≡ r
bind_ok (ok a) = refl
bind_ok (err e) = refl
bind_ok panic = refl

try_fold-append :
    {S : Type 0} (f : S → ℕ → Result S) (s : S) (xs ys : List ℕ)
    → try_fold f s (xs ++ ys) ≡ (try_fold f s xs >>= λ t. try_fold f t ys)
unfolding try_fold
try_fold-append f s [] ys = refl
try_fold-append f s (x ∷ xs) ys =
    bind_ext (f s x) (λ t. try_fold-append f t xs ys) ∙ sym (bind_assoc (f s x) _ _)

count_bit-eq :
    (n wi b : ℕ) (t : Tally)
    → n < two_64
    → wi * 64 + b < n
    → count_bit n wi t b ≡ count_node t (wi * 64 + b)
unfolding count_bit
count_bit-eq n wi b (counts, total) h lt =
    rw
      (
        lt→ltb (wi * 64) two_64 (omega arith),
        lt→ltb (wi * 64 + b) two_64 (omega arith),
        outside n (wi * 64 + b) lt,
      )
      refl
  where
    outside : (n x : ℕ) → x < n → leb n x ≡ false
    outside n x h = ground arith

-- The loop over the positions of a word.
bits_lem :
    (n wi : ℕ) (bs : List ℕ) (r : Result Tally)
    → n < two_64
    → ((b : ℕ) → has bs b ≡ true → wi * 64 + b < n)
    → foldl (λ r b. r >>= λ t. count_bit n wi t b) r bs
      ≡ (r >>= λ t. try_fold count_node t (picked n wi bs))
unfolding try_fold picked
bits_lem n wi [] r h inside = sym (bind_ok r)
bits_lem n wi (b ∷ bs) r h inside =
    let lt = inside b (ground arith) in
    rw (lt→ltb (wi * 64 + b) n lt) (
      bits_lem n wi bs (r >>= λ t. count_bit n wi t b) h (λ c hc. inside c (ground arith))
      ∙ bind_assoc r (λ t. count_bit n wi t b) (λ t. try_fold count_node t (picked n wi bs))
      ∙ bind_ext r (λ t.
        ap (λ (m : Result Tally). m >>= λ u. try_fold count_node u (picked n wi bs))
          (count_bit-eq n wi b t h lt)))

words_lem :
    (n wi : ℕ) (ws : List ℕ) (t : Tally)
    → n < two_64
    → ((i : ℕ) → get_or ws i 0 < two_64)
    → ((i b : ℕ) → bit (get_or ws i 0) b ≡ true → (wi + i) * 64 + b < n)
    → count_words n wi ws t ≡ try_fold count_node t (listing n wi ws)
unfolding count_words listing try_fold
words_lem n wi [] t h narrow inside = refl
words_lem n wi (w ∷ ws) t h narrow inside =
    let body = λ (r : Result Tally) (b : ℕ). r >>= λ t. count_bit n wi t b in
    let here = λ (b : ℕ) (hb : has (ones w) b ≡ true).
      at_zero n wi b (inside 0 b (sym (has-ones w b (narrow 0)) ∙ hb)) in
    let first =
      for_each_bit-eq-foldl body (ok t) w (narrow 0) ∙ bits_lem n wi (ones w) (ok t) h here in
    rw first (
      bind_ext (try_fold count_node t (picked n wi (ones w))) (λ u.
        words_lem n (suc wi) ws u h (λ i. narrow (suc i))
          (λ i b hb. at_suc n wi i b (inside (suc i) b hb)))
      ∙ sym (try_fold-append count_node t (picked n wi (ones w)) (listing n (suc wi) ws)))
  where
    at_zero : (n wi b : ℕ) → (wi + 0) * 64 + b < n → wi * 64 + b < n
    at_zero n wi b h = omega arith

    at_suc : (n wi i b : ℕ) → (wi + suc i) * 64 + b < n → (suc wi + i) * 64 + b < n
    at_suc n wi i b h = omega arith

-- Counting a valid region is one round for each of its nodes, in ascending order.
pub count_region-eq :
    (n : ℕ) (t : Tally) (r : DofMask)
    → IsValid r
    → r.len ≡ n
    → n < two_64
    → count_region n t r ≡ try_fold count_node t (indices r)
unfolding count_region
count_region-eq n t r v e h =
    rw (eq→== r.len n e, indices-eq-listing r v, e)
      (words_lem n 0 r.words t h v.word
        (λ i b hb. in_mask n i b r.len e (set_bit_in_mask r i b v hb)))
  where
    in_mask : (n i b l : ℕ) → l ≡ n → i * 64 + b < l → (0 + i) * 64 + b < n
    in_mask n i b l e h = omega arith

-- The counts after the nodes of an ascending list.
pub nodes_lem :
    (n lo : ℕ) (xs : List ℕ) (counts : List ℕ) (total : ℕ)
    → IsAscending lo xs
    → AllBelow n xs
    → length counts ≡ n
    → ((j : ℕ) → has xs j ≡ true → get_or counts j 0 + 1 < two_32)
    → total + length xs < two_64
    → (after : List ℕ) × (try_fold count_node (counts, total) xs ≡ ok (after, total + length xs))
      × (length after ≡ n)
      × ((j : ℕ) → get_or after j 0 ≡ get_or counts j 0 + (if has xs j then 1 else 0))
unfolding try_fold
nodes_lem n lo [] counts total up below size small fits =
    (counts, ap (λ k. ok (counts, k)) (omega arith), size, λ j. omega arith)
nodes_lem n lo (x ∷ xs) counts total up below size small fits =
    let c : ℕ = get_or counts x 0 in
    let inside : x < length counts = rw size below.0 in
    let next : List ℕ = set counts x (c + 1) in
    let not_later = not-has_below (suc x) xs x up.1 (omega arith) in
    let (after, returns, size', content) =
      nodes_lem n (suc x) xs next (total + 1) up.1 below.1 (length-set counts x (c + 1) ∙ size)
        (λ j hj.
          let other = differs x j xs not_later hj in
          rw (get_or-set counts x j (c + 1) 0 inside, other) (small j (rw hj (ground arith))))
        (omega arith) in
    (
      after,
      rw
          (
            at-eq-ok counts x 0 inside,
            lt→ltb (c + 1) two_32 (small x (ground arith)),
            lt→ltb x (length counts) inside,
            lt→ltb (total + 1) two_64 (omega arith),
          )
          (returns ∙ ap (λ k. ok (after, k)) (omega arith)),
      size',
      λ j.
          content j
          ∙ step (get_or counts j 0) c (x == j) (has xs j) (get_or next j 0)
              (get_or-set counts x j (c + 1) 0 inside) (same x j counts xs not_later),
    )
  where
    differs : (x j : ℕ) (xs : List ℕ) → has xs x ≡ false → has xs j ≡ true → (x == j) ≡ false
    differs x j xs lacks hj = elim (Bool-cases (x == j)) [
      | inl equal ↦ let e : x ≡ j = ground arith in absurd (cc (lacks, hj, e))
      | inr apart ↦ apart
    ]

    same :
        (x j : ℕ) (counts xs : List ℕ)
        → has xs x ≡ false
        → (x == j) ≡ true
        → (has xs j ≡ false) × (get_or counts j 0 ≡ get_or counts x 0)
    same x j counts xs lacks equal = let e : x ≡ j = ground arith in (rw (sym e) lacks, rw e refl)

    step :
        (a c : ℕ) (same later : Bool) (now : ℕ)
        → now ≡ (if same then c + 1 else a)
        → (same ≡ true → (later ≡ false) × (a ≡ c))
        → now + (if later then 1 else 0) ≡ a + (if same || later then 1 else 0)
    step a c true true now e h = absurd (cc ((h refl).0))
    step a c true false now e h = omega (arith, (h refl).1)
    step a c false true now e h = omega arith
    step a c false false now e h = omega arith
