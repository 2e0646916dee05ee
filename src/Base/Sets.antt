-- ===== src/Base/Sets.antt =====
-- Lists of numbers as finite sets: membership as a test, and strictly ascending order.
use Prim.Native.Nat.{ℕ, suc, ◌≤◌, ◌<◌}
use mathlib.Core.Path.{◌≡◌, refl, ap₂}
use mathlib.Core.Bool.{Bool, true, false, ◌||◌}
use mathlib.Core.List.{List, [], ◌∷◌, ◌++◌}
use native.Mathlib.Omega.{arith}
use hybit.Base.Tests.{◌==◌}

abbrev pub has : List ℕ → ℕ → Bool
has [] x = false
has (y ∷ ys) x = y == x || has ys x

-- Strictly ascending, and nothing below `lo`.
abbrev pub IsAscending : ℕ → List ℕ → Type 0
IsAscending lo [] = Unit
IsAscending lo (x ∷ xs) = (lo ≤ x) × IsAscending (suc x) xs

pub has-append : (xs ys : List ℕ) (x : ℕ) → has (xs ++ ys) x ≡ (has xs x || has ys x)
has-append [] ys x = refl
has-append (y ∷ xs) ys x = ground (arith, has-append xs ys x)

pub IsAscending-weaken : (lo hi : ℕ) (xs : List ℕ) → lo ≤ hi → IsAscending hi xs → IsAscending lo xs
IsAscending-weaken lo hi [] le h = tt
IsAscending-weaken lo hi (x ∷ xs) le h = (omega arith, h.1)

pub not-has_below : (lo : ℕ) (xs : List ℕ) (x : ℕ) → IsAscending lo xs → x < lo → has xs x ≡ false
not-has_below lo [] x h lt = refl
not-has_below lo (y ∷ xs) x h lt = ground (arith, not-has_below (suc y) xs x h.1)

-- An ascending list is determined by its members.
pub ascending_ext :
    (lo : ℕ) (xs ys : List ℕ)
    → IsAscending lo xs
    → IsAscending lo ys
    → ((x : ℕ) → has xs x ≡ has ys x)
    → xs ≡ ys
ascending_ext lo [] [] h g e = refl
ascending_ext lo [] (y ∷ ys) h g e = ground (arith, e y)
ascending_ext lo (x ∷ xs) [] h g e = ground (arith, e x)
ascending_ext lo (x ∷ xs) (y ∷ ys) h g e =
    ap₂ ◌∷◌ heads (ascending_ext (suc x) xs ys h.1 (rw heads g.1) tails)
  where
    heads : x ≡ y
    heads = ground (arith, e x, e y, not-has_below (suc x) xs y h.1, not-has_below (suc y) ys x g.1)

    tails : (z : ℕ) → has xs z ≡ has ys z
    tails z =
        ground (arith, heads, e z, not-has_below (suc x) xs z h.1, not-has_below (suc y) ys z g.1)

abbrev pub AllBelow : ℕ → List ℕ → Type 0
AllBelow hi [] = Unit
AllBelow hi (x ∷ xs) = (x < hi) × AllBelow hi xs

pub IsAscending-append :
    (lo hi : ℕ) (xs ys : List ℕ)
    → lo ≤ hi
    → IsAscending lo xs
    → AllBelow hi xs
    → IsAscending hi ys
    → IsAscending lo (xs ++ ys)
IsAscending-append lo hi [] ys le h b g = IsAscending-weaken lo hi ys le g
IsAscending-append lo hi (x ∷ xs) ys le h b g =
    (h.0, IsAscending-append (suc x) hi xs ys b.0 h.1 b.1 g)

pub AllBelow-has : (hi : ℕ) (xs : List ℕ) (x : ℕ) → AllBelow hi xs → has xs x ≡ true → x < hi
AllBelow-has hi [] x b h = absurd (cc h)
AllBelow-has hi (y ∷ xs) x b h = ground (arith, AllBelow-has hi xs x b.1)
