-- ===== src/Mask/Listing.antt =====
-- The list that the loops of `DofMask::indices` (mask.rs) build, word by word.
use mathlib.Core.List.{append-nil, append_assoc}
use hybit.Base.{
  ℕ, suc, ◌+◌, ◌-◌, ◌*◌, ◌/◌, ◌%◌, ◌<◌, ◌≡◌, refl, sym, ◌∙◌, arith, true, ◌&&◌, ◌||◌, ltb, leb,
  if◌then◌else◌, List, [], ◌∷◌, ◌++◌, foldl, length, get_or, length-append, two_64, Bool-cases, inl,
  inr, has, has-append, IsAscending, IsAscending-weaken, IsAscending-append, AllBelow,
}
use hybit.Bits.{bit, ones}
use hybit.Bits.Laws.{bit-zero, bit_beyond}
use hybit.Bits.Loop.{for_each_bit-eq-foldl}
use hybit.Bits.Ones.{has-ones, ones-IsAscending, length-ones, ones-AllBelow}
use hybit.Mask.{DofMask, indices, collect, sum_ones}
use hybit.Mask.Valid.{IsValid}

-- The indices of the positions `bs` of word `wi` that lie in the mask.
unfoldable pub picked : ℕ → ℕ → List ℕ → List ℕ
picked n wi [] = []
picked n wi (b ∷ bs) =
    let rest = picked n wi bs in if ltb (wi * 64 + b) n then (wi * 64 + b) ∷ rest else rest

unfoldable pub listing : ℕ → ℕ → List ℕ → List ℕ
listing n wi [] = []
listing n wi (w ∷ ws) = picked n wi (ones w) ++ listing n (suc wi) ws

abbrev pushed : ℕ → ℕ → List ℕ → ℕ → List ℕ
pushed n wi r b = if ltb (wi * 64 + b) n then r ++ (wi * 64 + b) ∷ [] else r

foldl-pushed : (n wi : ℕ) (r bs : List ℕ) → foldl (pushed n wi) r bs ≡ r ++ picked n wi bs
unfolding picked
foldl-pushed n wi r [] = sym (append-nil r)
foldl-pushed n wi r (b ∷ bs) = elim (Bool-cases (ltb (wi * 64 + b) n)) [
  | inl inside ↦ rw inside (
      foldl-pushed n wi (r ++ (wi * 64 + b) ∷ []) bs
      ∙ append_assoc r ((wi * 64 + b) ∷ []) (picked n wi bs))
  | inr outside ↦ rw outside (foldl-pushed n wi r bs)
]

-- The loop appends the listing to what it has.
collect-eq-listing :
    (n wi : ℕ) (ws result : List ℕ)
    → ((i : ℕ) → get_or ws i 0 < two_64)
    → collect n wi ws result ≡ result ++ listing n wi ws
unfolding collect listing
collect-eq-listing n wi [] result h = sym (append-nil result)
collect-eq-listing n wi (w ∷ ws) result h =
    rw (for_each_bit-eq-foldl (pushed n wi) result w (h 0), foldl-pushed n wi result (ones w))
      (collect-eq-listing n (suc wi) ws (result ++ picked n wi (ones w)) (λ i. h (suc i))
        ∙ append_assoc result (picked n wi (ones w)) (listing n (suc wi) ws))

has-picked :
    (n wi : ℕ) (bs : List ℕ) (x : ℕ)
    → has (picked n wi bs) x ≡ (leb (wi * 64) x && ltb x n && has bs (x - wi * 64))
unfolding picked
has-picked n wi [] x = ground arith
has-picked n wi (b ∷ bs) x = ground (arith, has-picked n wi bs x)

-- A number from word `wi` on lies in that word or in a later one.
split_word :
    (n wi w : ℕ) (ws : List ℕ) (x : ℕ)
    → w < two_64
    → (leb (wi * 64) x && ltb x n && bit w (x - wi * 64)
        || leb (suc wi * 64) x && ltb x n && bit (get_or ws (x / 64 - suc wi) 0) (x % 64))
      ≡ (leb (wi * 64) x && ltb x n && bit (get_or (w ∷ ws) (x / 64 - wi) 0) (x % 64))
split_word n wi w ws x h = elim (Bool-cases (leb (suc wi * 64) x)) [
  | inl later ↦
      let next : x / 64 - wi ≡ suc (x / 64 - suc wi) = ground arith in
      rw next (ground (arith, bit_beyond 64 w (x - wi * 64) h))
  | inr here ↦ elim (Bool-cases (leb (wi * 64) x)) [
    | inl from ↦
        let first : x / 64 - wi ≡ 0 = ground arith in
        let offset : x - wi * 64 ≡ x % 64 = ground arith in rw (first, offset, here) (ground arith)
    | inr below ↦ rw (here, below) refl
  ]
]

pub has-listing :
    (n wi : ℕ) (ws : List ℕ) (x : ℕ)
    → ((i : ℕ) → get_or ws i 0 < two_64)
    → has (listing n wi ws) x
      ≡ (leb (wi * 64) x && ltb x n && bit (get_or ws (x / 64 - wi) 0) (x % 64))
unfolding listing
has-listing n wi [] x h = ground (arith, bit-zero (x % 64))
has-listing n wi (w ∷ ws) x h =
    rw
      (
        has-append (picked n wi (ones w)) (listing n (suc wi) ws) x,
        has-picked n wi (ones w) x,
        has-ones w (x - wi * 64) (h 0),
        has-listing n (suc wi) ws x (λ i. h (suc i)),
      )
      (split_word n wi w ws x (h 0))

picked-IsAscending :
    (n wi lo : ℕ) (bs : List ℕ) → IsAscending lo bs → IsAscending (wi * 64 + lo) (picked n wi bs)
unfolding picked
picked-IsAscending n wi lo [] h = tt
picked-IsAscending n wi lo (b ∷ bs) h =
    let rest = picked-IsAscending n wi (suc b) bs h.1 in
    let next : wi * 64 + suc b ≡ suc (wi * 64 + b) = omega arith in
    elim (Bool-cases (ltb (wi * 64 + b) n)) [
      | inl inside ↦ rw inside (omega arith, rw next at rest)
      | inr outside ↦
          rw outside (
            IsAscending-weaken (wi * 64 + lo) (wi * 64 + suc b) (picked n wi bs) (omega arith) rest)
    ]

picked-AllBelow :
    (n wi : ℕ) (bs : List ℕ) → AllBelow 64 bs → AllBelow (suc wi * 64) (picked n wi bs)
unfolding picked
picked-AllBelow n wi [] h = tt
picked-AllBelow n wi (b ∷ bs) h = elim (Bool-cases (ltb (wi * 64 + b) n)) [
  | inl inside ↦ rw inside (omega arith, picked-AllBelow n wi bs h.1)
  | inr outside ↦ rw outside (picked-AllBelow n wi bs h.1)
]

pub listing-IsAscending : (n wi : ℕ) (ws : List ℕ) → IsAscending (wi * 64) (listing n wi ws)
unfolding listing
listing-IsAscending n wi [] = tt
listing-IsAscending n wi (w ∷ ws) =
    IsAscending-append (wi * 64) (suc wi * 64) (picked n wi (ones w)) (listing n (suc wi) ws)
      (omega arith) from_start (picked-AllBelow n wi (ones w) (ones-AllBelow w))
      (listing-IsAscending n (suc wi) ws)
  where
    from_start : IsAscending (wi * 64) (picked n wi (ones w))
    from_start =
        let e : wi * 64 + 0 ≡ wi * 64 = omega arith in
        rw e at (picked-IsAscending n wi 0 (ones w) (ones-IsAscending w))

length-picked :
    (n wi : ℕ) (bs : List ℕ)
    → ((b : ℕ) → has bs b ≡ true → wi * 64 + b < n)
    → length (picked n wi bs) ≡ length bs
unfolding picked
length-picked n wi [] h = refl
length-picked n wi (b ∷ bs) h =
    ground (arith, h b, length-picked n wi bs (λ c hc. h c (ground arith)))

pub length-listing :
    (n wi : ℕ) (ws : List ℕ)
    → ((i : ℕ) → get_or ws i 0 < two_64)
    → ((i b : ℕ) → bit (get_or ws i 0) b ≡ true → (wi + i) * 64 + b < n)
    → length (listing n wi ws) ≡ sum_ones ws
unfolding listing sum_ones
length-listing n wi [] h fits = refl
length-listing n wi (w ∷ ws) h fits =
    let here = length-picked n wi (ones w) (λ b hb. ground (arith, fits 0 b, has-ones w b (h 0))) in
    let rest =
      length-listing n (suc wi) ws (λ i. h (suc i)) (λ i b hb. ground (arith, fits (suc i) b)) in
    omega (
      arith,
      length-append (picked n wi (ones w)) (listing n (suc wi) ws),
      here,
      rest,
      length-ones w,
    )

pub indices-eq-listing : (m : DofMask) → IsValid m → indices m ≡ listing m.len 0 m.words
unfolding indices
indices-eq-listing m v = collect-eq-listing m.len 0 m.words [] v.word
