-- ===== src/SortedMap.antt =====
-- The maps and sets of the standard library that are sorted by their keys, `BTreeMap` and `BTreeSet`
-- of Rust, as lists in ascending order of keys.
use hybit.Base.{
  ℕ, suc, ◌≤◌, ◌<◌, ◌≡◌, refl, arith, false, ◌||◌, ◌==◌, ltb, if◌then◌else◌, List, [], ◌∷◌, Option,
  some, none, unwrap_or, Bool-cases, inl, inr, has, IsAscending,
}

-- `set.insert(x)`
unfoldable pub insert : ℕ → List ℕ → List ℕ
insert x [] = x ∷ []
insert x (y ∷ ys) =
    let later = insert x ys in if x == y then y ∷ ys else if ltb x y then x ∷ y ∷ ys else y ∷ later

-- `*map.entry(key).or_default()`, changed by f; d is the default.
unfoldable pub modify {ℓ} : {V : Type ℓ} → V → (V → V) → ℕ → List (ℕ × V) → List (ℕ × V)
modify d f key [] = (key, f d) ∷ []
modify d f key ((k, v) ∷ rest) =
    let later = modify d f key rest in
    if k == key
    then (k, f v) ∷ rest
    else if ltb key k
    then (key, f d) ∷ (k, v) ∷ rest
    else (k, v) ∷ later

-- `map.get(&key)`
unfoldable pub lookup {ℓ} : {V : Type ℓ} → ℕ → List (ℕ × V) → Option V
lookup key [] = none
lookup key ((k, v) ∷ rest) = if k == key then some v else lookup key rest

-- The keys ascend from lo on.
abbrev pub KeysAscend {ℓ} : {V : Type ℓ} → ℕ → List (ℕ × V) → Type 0
KeysAscend lo [] = Unit
KeysAscend lo ((k, v) ∷ rest) = (lo ≤ k) × KeysAscend (suc k) rest

pub insert-IsAscending :
    (lo x : ℕ) (xs : List ℕ) → lo ≤ x → IsAscending lo xs → IsAscending lo (insert x xs)
unfolding insert
insert-IsAscending lo x [] le up = (le, tt)
insert-IsAscending lo x (y ∷ ys) le (head, up) = elim (Bool-cases (x == y)) [
  | inl same ↦ rw same (head, up)
  | inr other ↦ elim (Bool-cases (ltb x y)) [
    | inl below ↦ rw (other, below) (le, (ground arith, up))
    | inr above ↦ rw (other, above) (head, insert-IsAscending (suc y) x ys (ground arith) up)
  ]
]

pub has-insert : (x : ℕ) (xs : List ℕ) (z : ℕ) → has (insert x xs) z ≡ ((x == z) || has xs z)
unfolding insert
has-insert x [] z = refl
has-insert x (y ∷ ys) z = ground (arith, has-insert x ys z)

pub modify-KeysAscend {ℓ} :
    {V : Type ℓ} (d : V) (f : V → V) (lo key : ℕ) (m : List (ℕ × V))
    → lo ≤ key
    → KeysAscend lo m
    → KeysAscend lo (modify d f key m)
unfolding modify
modify-KeysAscend d f lo key [] le up = (le, tt)
modify-KeysAscend d f lo key ((k, v) ∷ rest) le (head, up) = elim (Bool-cases (k == key)) [
  | inl same ↦ rw same (head, up)
  | inr other ↦ elim (Bool-cases (ltb key k)) [
    | inl below ↦ rw (other, below) (le, (ground arith, up))
    | inr above ↦ rw (other, above) (head, modify-KeysAscend d f (suc k) key rest (ground arith) up)
  ]
]

pub lookup-below {ℓ} :
    {V : Type ℓ} (lo key : ℕ) (m : List (ℕ × V)) → KeysAscend lo m → key < lo → lookup key m ≡ none
unfolding lookup
lookup-below lo key [] up lt = refl
lookup-below lo key ((k, v) ∷ rest) (head, up) lt =
    let other : (k == key) ≡ false = ground arith in
    rw other (lookup-below (suc k) key rest up (omega arith))

-- A changed entry, and no other.
pub lookup-modify {ℓ} :
    {V : Type ℓ} (d : V) (f : V → V) (lo key : ℕ) (m : List (ℕ × V)) (z : ℕ)
    → KeysAscend lo m
    → lookup z (modify d f key m)
      ≡ (if key == z then some (f (unwrap_or (lookup key m) d)) else lookup z m)
unfolding modify lookup
lookup-modify d f lo key [] z up = refl
lookup-modify d f lo key ((k, v) ∷ rest) z up = elim (Bool-cases (k == key)) [
  | inl same ↦
      let e : k ≡ key = ground arith in
      rw (same, e)
        (elim (Bool-cases (key == z)) [ inl hit ↦ rw hit refl | inr miss ↦ rw miss refl ])
  | inr other ↦ elim (Bool-cases (ltb key k)) [
    | inl below ↦ rw (other, below, lookup-below (suc k) key rest up.1 (ground arith)) refl
    | inr above ↦ elim (Bool-cases (k == z)) [
      | inl here ↦
          let apart : (key == z) ≡ false = ground arith in rw (other, above, here, apart) refl
      | inr there ↦ rw (other, above, there) (lookup-modify d f (suc k) key rest z up.1)
    ]
  ]
]
