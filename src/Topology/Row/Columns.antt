-- ===== src/Topology/Row/Columns.antt =====
-- The columns that the words of a topology row name, in order (topology.rs).
use hybit.Base.{
  ℕ, zero, suc, ◌+◌, ◌-◌, ◌*◌, ◌≤◌, ◌<◌, ◌≡◌, refl, sym, ap, ◌∙◌, arith, ltb, List, [], ◌∷◌, ◌++◌,
  map, length, get_elem?, two_64, IsAscending, AllBelow, IsAscending-append, IsAscending-weaken,
  Bool-cases, inl, inr,
}
use hybit.Bits.{ones}
use hybit.Bits.Ones.{ones-IsAscending, ones-AllBelow}
use hybit.Topology.Row.{AbtmTopologyWord, base_col}
use hybit.Topology.Row.Select.{below}

abbrev pub columns : List AbtmTopologyWord → List ℕ
columns [] = []
columns (w ∷ ws) = map (λ b. base_col w + b) (ones w.mask) ++ columns ws

-- Words in strictly ascending places, from `lo` on.
abbrev pub WordsAscend : ℕ → List AbtmTopologyWord → Type 0
WordsAscend lo [] = Unit
WordsAscend lo (w ∷ ws) =
    (lo ≤ w.word_index) × (w.mask < two_64) × WordsAscend (suc w.word_index) ws

shifted-IsAscending :
    (base lo : ℕ) (xs : List ℕ)
    → IsAscending lo xs
    → IsAscending (base + lo) (map (λ b. base + b) xs)
shifted-IsAscending base lo [] h = tt
shifted-IsAscending base lo (x ∷ xs) h =
    let e : base + suc x ≡ suc (base + x) = omega arith in
    (omega (arith, h.0), rw (sym e) (shifted-IsAscending base (suc x) xs h.1))

pub shifted-AllBelow :
    (base n : ℕ) (xs : List ℕ) → AllBelow n xs → AllBelow (base + n) (map (λ b. base + b) xs)
shifted-AllBelow base n [] h = tt
shifted-AllBelow base n (x ∷ xs) h = (omega (arith, h.0), shifted-AllBelow base n xs h.1)

-- The columns ascend.
pub columns-IsAscending :
    (lo : ℕ) (ws : List AbtmTopologyWord) → WordsAscend lo ws → IsAscending (lo * 64) (columns ws)
columns-IsAscending lo [] h = tt
columns-IsAscending lo (w ∷ ws) h =
    let after : base_col w + 64 ≡ suc w.word_index * 64 = omega arith in
    IsAscending-append (lo * 64) (suc w.word_index * 64) (map (λ b. base_col w + b) (ones w.mask))
      (columns ws) (omega (arith, h.0))
      (IsAscending-weaken (lo * 64) (base_col w + 0) (map (λ b. base_col w + b) (ones w.mask))
        (omega (arith, h.0))
        (shifted-IsAscending (base_col w) 0 (ones w.mask) (ones-IsAscending w.mask)))
      (rw after at (shifted-AllBelow (base_col w) 64 (ones w.mask) (ones-AllBelow w.mask)))
      (columns-IsAscending (suc w.word_index) ws h.2)

pub get_elem?-append_left :
    (xs ys : List ℕ) (k : ℕ) → k < length xs → get_elem? (xs ++ ys) k ≡ get_elem? xs k
get_elem?-append_left [] ys k h = absurd (omega arith)
get_elem?-append_left (x ∷ xs) ys zero h = refl
get_elem?-append_left (x ∷ xs) ys (suc k) h = get_elem?-append_left xs ys k (omega arith)

pub get_elem?-append_right :
    (xs ys : List ℕ) (k : ℕ) → length xs ≤ k → get_elem? (xs ++ ys) k ≡ get_elem? ys (k - length xs)
get_elem?-append_right [] ys k h = ap (get_elem? ys) (omega arith)
get_elem?-append_right (x ∷ xs) ys zero h = absurd (omega arith)
get_elem?-append_right (x ∷ xs) ys (suc k) h =
    get_elem?-append_right xs ys k (omega arith) ∙ ap (get_elem? ys) (omega arith)

pub below-append : (n : ℕ) (xs ys : List ℕ) → below n (xs ++ ys) ≡ below n xs ++ below n ys
below-append n [] ys = refl
below-append n (x ∷ xs) ys = elim (Bool-cases (ltb x n)) [
  | inl small ↦ rw small (ap (λ zs. x ∷ zs) (below-append n xs ys))
  | inr large ↦ rw large (below-append n xs ys)
]

pub below-shifted :
    (base n : ℕ) (xs : List ℕ)
    → below (base + n) (map (λ b. base + b) xs) ≡ map (λ b. base + b) (below n xs)
below-shifted base n [] = refl
below-shifted base n (x ∷ xs) =
    let same : ltb (base + x) (base + n) ≡ ltb x n = ground arith in
    elim (Bool-cases (ltb x n)) [
      | inl small ↦ rw (same, small) (ap (λ zs. (base + x) ∷ zs) (below-shifted base n xs))
      | inr large ↦ rw (same, large) (below-shifted base n xs)
    ]
