-- ===== src/Base/Results.antt =====
-- `Result` of Rust, with a third outcome for a run that panics (an index out of range) or, in an
-- `unsafe` block, that reads outside its slice.
use Prim.Native.Nat.{ℕ, ◌+◌, ◌*◌, ◌-◌, ◌<◌, min}
use mathlib.Core.Path.{◌≡◌, refl}
use mathlib.Core.Bool.{Bool, true, false, ◌&&◌}
use mathlib.Core.List.{List, [], ◌∷◌}
use mathlib.Core.Option.{Option, none, some}
use hybit.Base.Tests.{ltb, leb, if◌then◌else◌}
use hybit.Base.Lists.{get_elem?, get_or, set, length, take, drop, get_elem?-eq-get_or}

pub data Result {ℓ κ} (E : Type κ) (A : Type ℓ) : Type (ℓ ⊔ κ) where
  ok : A → Result E A
  err : E → Result E A
  panic : Result E A

module _ {E : Type 0} where
  infixl 5 ◌>>◌ ◌>>=◌
  abbrev pub ◌>>=◌ {ℓ κ} : {A : Type ℓ} {B : Type κ} → Result E A → (A → Result E B) → Result E B
  ok a >>= f = f a
  err e >>= f = err e
  panic >>= f = panic

  abbrev pub ◌>>◌ {ℓ} : {B : Type ℓ} → Result E (Unit {0}) → Result E B → Result E B
  m >> k = m >>= λ _. k

  -- `if test { return Err(e); }`
  abbrev pub fail_if : Bool → E → Result E (Unit {0})
  fail_if true e = err e
  fail_if false e = ok tt

  -- `option.ok_or(e)?`
  abbrev pub ok_or {ℓ} : {A : Type ℓ} → Option A → E → Result E A
  ok_or none e = err e
  ok_or (some a) e = ok a

  abbrev pub or_panic {ℓ} : {A : Type ℓ} → Option A → Result E A
  or_panic none = panic
  or_panic (some a) = ok a

  -- `xs[i]`
  abbrev pub at {ℓ} : {A : Type ℓ} → List A → ℕ → Result E A
  at xs i = or_panic (get_elem? xs i)

  -- `xs[i] = v`
  abbrev pub put {ℓ} : {A : Type ℓ} → List A → ℕ → A → Result E (List A)
  put xs i v = if ltb i (length xs) then ok (set xs i v) else panic

  -- `xs[start..end]`
  abbrev pub slice {ℓ} : {A : Type ℓ} → List A → ℕ → ℕ → Result E (List A)
  slice xs start end =
      if leb start end && leb end (length xs)
      then ok (take (end - start) (drop start xs))
      else panic

  -- `a - b`, which overflows below zero.
  abbrev pub minus : ℕ → ℕ → Result E ℕ
  minus a b = if leb b a then ok (a - b) else panic

  -- `a + b`, which overflows from the modulus on.
  abbrev pub plus : ℕ → ℕ → ℕ → Result E ℕ
  plus modulus a b = if ltb (a + b) modulus then ok (a + b) else panic

  -- A loop whose body may return early.
  unfoldable pub try_fold {ℓ κ} :
      {S : Type ℓ} {A : Type κ} → (S → A → Result E S) → S → List A → Result E S
  try_fold f s [] = ok s
  try_fold f s (x ∷ xs) = f s x >>= λ s'. try_fold f s' xs

  -- The results of a fallible step on each item, in order.
  unfoldable pub try_map {ℓ κ} :
      {A : Type ℓ} {B : Type κ} → (A → Result E B) → List A → Result E (List B)
  try_map f [] = ok []
  try_map f (x ∷ xs) = f x >>= λ y. try_map f xs >>= λ ys. ok (y ∷ ys)

  -- Inversion of a successful bind.
  pub >>=-eq-ok {ℓ κ} :
      {A : Type ℓ} {B : Type κ} (r : Result E A) (next : A → Result E B) {y : B}
      → (r >>= next) ≡ ok y
      → (x : A) × (r ≡ ok x) × (next x ≡ ok y)
  >>=-eq-ok (ok x) next run = (x, refl, run)
  >>=-eq-ok (err e) next run = cc
  >>=-eq-ok panic next run = cc

  pub bind_ext {ℓ κ} :
      {A : Type ℓ} {B : Type κ} {f g : A → Result E B} (m : Result E A)
      → ((a : A) → f a ≡ g a)
      → (m >>= f) ≡ (m >>= g)
  bind_ext (ok a) h = h a
  bind_ext (err e) h = refl
  bind_ext panic h = refl

  pub fail_if-eq-ok : (b : Bool) (e : E) {u : Unit {0}} → fail_if b e ≡ ok u → b ≡ false
  fail_if-eq-ok true e h = cc
  fail_if-eq-ok false e h = refl

  pub at-eq-ok {ℓ} :
      {A : Type ℓ} (xs : List A) (i : ℕ) (d : A) → i < length xs → at xs i ≡ ok (get_or xs i d)
  at-eq-ok xs i d h = rw (get_elem?-eq-get_or xs i d h)

-- `option.unwrap_or(d)`
abbrev pub unwrap_or {ℓ} : {A : Type ℓ} → Option A → A → A
unwrap_or none d = d
unwrap_or (some a) d = a

-- `usize::MAX`, `u64::MAX` and `u32::MAX` plus one.
abbrev pub two_64 : ℕ
two_64 = 18446744073709551616

abbrev pub two_32 : ℕ
two_32 = 4294967296

abbrev pub checked_add : ℕ → ℕ → ℕ → Option ℕ
checked_add modulus a b = if ltb (a + b) modulus then some (a + b) else none

abbrev pub checked_mul : ℕ → ℕ → ℕ → Option ℕ
checked_mul modulus a b = if ltb (a * b) modulus then some (a * b) else none

abbrev pub saturating_add : ℕ → ℕ → ℕ → ℕ
saturating_add modulus a b = min (a + b) (modulus - 1)

abbrev pub saturating_mul : ℕ → ℕ → ℕ → ℕ
saturating_mul modulus a b = min (a * b) (modulus - 1)
