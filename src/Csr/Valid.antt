-- ===== src/Csr/Valid.antt =====
-- What `Csr32Matrix::validate` (csr32.rs) accepts.
use hybit.Base.{
  ℕ, zero, suc, ◌+◌, ◌-◌, ◌≤◌, ◌<◌, ◌%◌, ◌≡◌, ◌↔◌, refl, sym, ◌∙◌, arith, Bool, true, false, not,
  ◌==◌, ltb, leb, List, [], ◌∷◌, length, get_or, first?, last?, any, unwrap_or, ok, two_64, two_32,
  ==_iff, eq→==,
}
use hybit.Core.Float.{is_finite}
use hybit.Csr.{Csr32Matrix, has_descent, validate}

-- The meaning of the checks.
pub record IsValid (m : Csr32Matrix) : Type 0 where
  pub rows : length m.row_ptr ≡ m.nrows + 1
  pub entries : length m.col_idx ≡ length m.values
  pub starts : get_or m.row_ptr 0 0 ≡ 0
  pub narrow : length m.values < two_32
  pub ends : get_or m.row_ptr m.nrows 0 ≡ length m.values
  pub ascends : (i j : ℕ) → i ≤ j → j ≤ m.nrows → get_or m.row_ptr i 0 ≤ get_or m.row_ptr j 0
  pub columns : (p : ℕ) → p < length m.col_idx → get_or m.col_idx p 0 < m.ncols
  pub finite : (p : ℕ) → p < length m.values → is_finite (get_or m.values p 0) ≡ true

-- The tests, in the order of the source.
record Passes (m : Csr32Matrix) : Type 0 where
  t1 : (length m.row_ptr == (m.nrows + 1) % two_64) ≡ true
  t2 : (length m.col_idx == length m.values) ≡ true
  t3 : (unwrap_or (first? m.row_ptr) 1 == 0) ≡ true
  t4 : ltb (two_32 - 1) (length m.values) ≡ false
  t5 : (unwrap_or (last? m.row_ptr) 0 == length m.values) ≡ true
  t6 : has_descent m.row_ptr ≡ false
  t7 : any (λ c. leb m.ncols c) m.col_idx ≡ false
  t8 : any (λ v. not (is_finite v)) m.values ≡ false

any_iff :
    (p : ℕ → Bool) (xs : List ℕ)
    → (any p xs ≡ false) ↔ ((i : ℕ) → i < length xs → p (get_or xs i 0) ≡ false)
any_iff p xs = (none_of xs, all_of xs)
  where
    none_of : (xs : List ℕ) → any p xs ≡ false → (i : ℕ) → i < length xs → p (get_or xs i 0) ≡ false
    none_of [] h i lt = absurd (omega arith)
    none_of (x ∷ xs) h zero lt = ground arith
    none_of (x ∷ xs) h (suc i) lt = none_of xs (ground arith) i (omega arith)

    all_of :
        (xs : List ℕ) → ((i : ℕ) → i < length xs → p (get_or xs i 0) ≡ false) → any p xs ≡ false
    all_of [] h = refl
    all_of (x ∷ xs) h =
        let rest = all_of xs (λ i lt. h (suc i) (omega arith)) in ground (arith, h 0 (omega arith))

pub last_get_or : (xs : List ℕ) (n : ℕ) → length xs ≡ suc n → unwrap_or (last? xs) 0 ≡ get_or xs n 0
last_get_or [] n h = absurd (omega arith)
last_get_or (x ∷ []) zero h = refl
last_get_or (x ∷ []) (suc n) h = absurd (omega arith)
last_get_or (x ∷ y ∷ xs) zero h = absurd (omega arith)
last_get_or (x ∷ y ∷ xs) (suc n) h = last_get_or (y ∷ xs) n (omega arith)

descends_not :
    (xs : List ℕ) (i j : ℕ)
    → has_descent xs ≡ false
    → i ≤ j
    → j < length xs
    → get_or xs i 0 ≤ get_or xs j 0
unfolding has_descent
descends_not [] i j h le lt = absurd (omega arith)
descends_not (x ∷ []) zero zero h le lt = omega arith
descends_not (x ∷ []) i (suc j) h le lt = absurd (omega arith)
descends_not (x ∷ []) (suc i) zero h le lt = absurd (omega arith)
descends_not (x ∷ y ∷ xs) zero zero h le lt = omega arith
descends_not (x ∷ y ∷ xs) (suc i) zero h le lt = absurd (omega arith)
descends_not (x ∷ y ∷ xs) zero (suc j) h le lt = ground (arith, descends_not (y ∷ xs) 0 j)
descends_not (x ∷ y ∷ xs) (suc i) (suc j) h le lt =
    descends_not (y ∷ xs) i j (ground arith) (omega arith) (omega arith)

not-has_descent :
    (xs : List ℕ)
    → ((i : ℕ) → suc i < length xs → get_or xs i 0 ≤ get_or xs (suc i) 0)
    → has_descent xs ≡ false
unfolding has_descent
not-has_descent [] h = refl
not-has_descent (x ∷ []) h = refl
not-has_descent (x ∷ y ∷ xs) h =
    let rest = not-has_descent (y ∷ xs) (λ i lt. h (suc i) (omega arith)) in
    ground (arith, h 0 (omega arith))

pub first_get_or :
    (xs : List ℕ) → (unwrap_or (first? xs) 1 ≡ 0) ↔ ((0 < length xs) × (get_or xs 0 0 ≡ 0))
first_get_or [] = ground arith
first_get_or (x ∷ xs) = ground arith

Passes-iff : (m : Csr32Matrix) → (validate m ≡ ok tt) ↔ Passes m
unfolding validate
Passes-iff m = ground arith

Passes-IsValid : (m : Csr32Matrix) → m.nrows < two_64 → Passes m → IsValid m
Passes-IsValid m fits t =
    let first = (first_get_or m.row_ptr).0 ((==_iff _ _).0 t.t3) in
    let rows : length m.row_ptr ≡ m.nrows + 1 = ground (arith, t.t1) in
    record {
      rows = rows;
      entries = (==_iff _ _).0 t.t2;
      starts = first.1;
      narrow = ground arith;
      ends = sym (last_get_or m.row_ptr m.nrows (rows ∙ omega arith)) ∙ (==_iff _ _).0 t.t5;
      ascends = λ i j le lt. descends_not m.row_ptr i j t.t6 le (omega arith);
      columns = λ p lt. ground (arith, (any_iff (λ c. leb m.ncols c) m.col_idx).0 t.t7 p lt);
      finite = λ p lt. ground (arith, (any_iff (λ v. not (is_finite v)) m.values).0 t.t8 p lt);
    }

IsValid-Passes :
    (m : Csr32Matrix) → m.nrows < two_64 → length m.row_ptr < two_64 → IsValid m → Passes m
IsValid-Passes m fits lens v = record {
  t1 = ground (arith, v.rows);
  t2 = eq→== _ _ v.entries;
  t3 = eq→== _ _ ((first_get_or m.row_ptr).1 (omega (arith, v.rows), v.starts));
  t4 = ground (arith, v.narrow);
  t5 = eq→== _ _ (last_get_or m.row_ptr m.nrows (v.rows ∙ omega arith) ∙ v.ends);
  t6 =
      not-has_descent m.row_ptr (λ i lt. v.ascends i (suc i) (omega arith) (omega (arith, v.rows)));
  t7 = (any_iff (λ c. leb m.ncols c) m.col_idx).1 (λ p lt. ground (arith, v.columns p lt));
  t8 = (any_iff (λ x. not (is_finite x)) m.values).1 (λ p lt. ground (arith, v.finite p lt));
}

-- `validate` accepts exactly the matrices whose row pointers start at 0, ascend and end at the
-- number of entries (at most u32::MAX), whose columns are in range and whose values are finite.
pub validate_iff :
    (m : Csr32Matrix)
    → m.nrows < two_64
    → length m.row_ptr < two_64
    → (validate m ≡ ok tt) ↔ IsValid m
validate_iff m fits lens = (
  λ h. Passes-IsValid m fits ((Passes-iff m).0 h),
  λ v. (Passes-iff m).1 (IsValid-Passes m fits lens v),
)
