-- ===== src/Csr/Parallel.antt =====
-- The parallel products (csr32.rs), with the workers storing rows in any order, against the
-- serial one.
use native.Mathlib.Nat.{mod-lt, div-add-mod'}
use hybit.Base.{
  ℕ, ◌+◌, ◌*◌, ◌/◌, ◌%◌, ◌≤◌, ◌<◌, ◌≡◌, refl, sym, ap, ◌∙◌, arith, Bool, true, false, ◌&&◌, ◌||◌,
  ◌==◌, if◌then◌else◌, List, [], ◌∷◌, map, length, get_or, set, range, length-map, length-range,
  length-set, get_or-set, get_or_ext, get_or-map-range, get_or_beyond, ok, err, try_fold, lt→ltb,
  ltb, ltb→lt, ltb→le, has, Bool-cases, inl, inr, AllBelow, AllBelow-has, bind_ext,
  eq-nil_of_length,
}
use hybit.Core.{F64, invalid_argument}
use hybit.Core.Float.{Arithmetic}
use hybit.Csr.{Csr32Matrix, apply, apply_parallel, apply_parallel_with_tasks, write_row, chunk_of}
use hybit.Csr.Valid.{IsValid}
use hybit.Csr.Apply.{row_dot, dot_row-eq-ok, apply-eq-ok, lengths_pass}

-- An order of rows that stores each row of n at least once, and no other.
pub record Covers (n : ℕ) (order : List ℕ) : Type 0 where
  pub inside : AllBelow n order
  pub complete : (row : ℕ) → row < n → has order row ≡ true

-- The events of tasks of `chunk` rows each, over n rows: each is a place of a chunk, and each
-- place of each chunk occurs.
abbrev pub event_rows : ℕ → List (ℕ × ℕ) → List ℕ
event_rows chunk = map (λ e. e.0 * chunk + e.1)

abbrev pub IsEvent : ℕ → ℕ → ℕ × ℕ → Type 0
IsEvent n chunk e = (e.1 < chunk) × (e.0 * chunk + e.1 < n)

abbrev pub AllEvents : ℕ → ℕ → List (ℕ × ℕ) → Type 0
AllEvents n chunk [] = Unit
AllEvents n chunk (e ∷ es) = IsEvent n chunk e × AllEvents n chunk es

abbrev pub occurs : ℕ → ℕ → List (ℕ × ℕ) → Bool
occurs c o [] = false
occurs c o ((a, b) ∷ es) = (a == c && b == o) || occurs c o es

pub record Interleaves (n chunk : ℕ) (events : List (ℕ × ℕ)) : Type 0 where
  pub places : AllEvents n chunk events
  pub each : (c o : ℕ) → o < chunk → c * chunk + o < n → occurs c o events ≡ true

overwritten :
    (g : ℕ → ℕ) (y : List ℕ) (row i : ℕ) (later : Bool)
    → row < length y
    → (if later then g i else get_or (set y row (g row)) i 0)
      ≡ (if row == i || later then g i else get_or y i 0)
overwritten g y row i later h = elim (Bool-cases (row == i)) [
  | inl same ↦
      let e : row ≡ i = ground arith in rw (get_or-set y row i (g row) 0 h, same, e) (ground arith)
  | inr other ↦ rw (get_or-set y row i (g row) 0 h, other) refl
]

has-event_rows :
    (chunk c o : ℕ) (events : List (ℕ × ℕ))
    → occurs c o events ≡ true
    → has (event_rows chunk events) (c * chunk + o) ≡ true
has-event_rows chunk c o [] h = absurd (cc h)
has-event_rows chunk c o ((a, b) ∷ es) h = elim (Bool-cases (a == c && b == o)) [
  | inl here ↦
      let e : a ≡ c = ground arith in let e' : b ≡ o = ground arith in rw (e, e') (ground arith)
  | inr later ↦ let rest = has-event_rows chunk c o es (rw later at h) in rw rest (ground arith)
]

AllBelow-event_rows :
    (n chunk : ℕ) (events : List (ℕ × ℕ))
    → AllEvents n chunk events
    → AllBelow n (event_rows chunk events)
AllBelow-event_rows n chunk [] h = tt
AllBelow-event_rows n chunk (e ∷ es) h = (h.0.1, AllBelow-event_rows n chunk es h.1)

Interleaves-Covers :
    (n chunk : ℕ) (events : List (ℕ × ℕ))
    → 0 < chunk
    → Interleaves n chunk events
    → Covers n (event_rows chunk events)
Interleaves-Covers n chunk events pos h = record {
  inside = AllBelow-event_rows n chunk events h.places;
  complete = λ row lt.
      let whole : row / chunk * chunk + row % chunk ≡ row = div-add-mod' row chunk in
      rw whole at (
        has-event_rows chunk (row / chunk) (row % chunk) events
          (h.each (row / chunk) (row % chunk) (mod-lt row pos) (rw whole lt)));
}

chunk_of-pos : (n tasks : ℕ) → 0 < n → 0 < tasks → 0 < chunk_of n tasks
chunk_of-pos n tasks pos some_tasks = grind (arith, div-add-mod' n tasks)

module _ (fp : Arithmetic) (m : Csr32Matrix) (x : List F64) (v : IsValid m)
    (wide : length x ≡ m.ncols) where
  stores :
      (y : List F64) (order : List ℕ)
      → length y ≡ m.nrows
      → AllBelow m.nrows order
      → (z : List F64) × (try_fold (write_row fp m x) y order ≡ ok z)
        × (length z ≡ m.nrows)
        × ((i : ℕ) → get_or z i 0 ≡ (if has order i then row_dot fp m x i else get_or y i 0))
  unfolding try_fold
  stores y [] tall h = (y, refl, tall, λ i. refl)
  stores y (row ∷ rest) tall h =
      let here : row < length y = omega arith in
      let y' : List F64 = set y row (row_dot fp m x row) in
      let (z, returns, size, content) =
        stores y' rest (length-set y row (row_dot fp m x row) ∙ tall) h.1 in
      (
        z,
        rw (dot_row-eq-ok fp m x row v wide h.0, lt→ltb row (length y) here) returns,
        size,
        λ i. content i ∙ overwritten (row_dot fp m x) y row i (has rest i) here,
      )

  -- Storing every row gives the serial product.
  stores_all :
      (y : List F64) (order : List ℕ)
      → length y ≡ m.nrows
      → Covers m.nrows order
      → try_fold (write_row fp m x) y order ≡ ok (map (row_dot fp m x) (range 0 m.nrows))
  stores_all y order tall c =
      let (z, returns, size, content) = stores y order tall c.inside in
      returns
      ∙ ap ok (
          get_or_ext 0 z (map (row_dot fp m x) (range 0 m.nrows)) (size ∙ sym same_size)
            (λ i. content i ∙ at_row i))
    where
      same_size : length (map (row_dot fp m x) (range 0 m.nrows)) ≡ m.nrows
      same_size = length-map (row_dot fp m x) (range 0 m.nrows) ∙ length-range 0 m.nrows

      at_row :
          (i : ℕ)
          → (if has order i then row_dot fp m x i else get_or y i 0)
            ≡ get_or (map (row_dot fp m x) (range 0 m.nrows)) i 0
      at_row i = elim (Bool-cases (ltb i m.nrows)) [
        | inl lt ↦
            let start : 0 + i ≡ i = omega arith in
            rw
              (
                c.complete i (ltb→lt i m.nrows lt),
                get_or-map-range (row_dot fp m x) 0 m.nrows i 0 (ltb→lt i m.nrows lt),
                start,
              )
              refl
        | inr ge ↦
            let out : m.nrows ≤ i = ltb→le i m.nrows ge in
            let absent : has order i ≡ false =
              ground (arith, AllBelow-has m.nrows order i c.inside) in
            rw
              (
                absent,
                get_or_beyond y i 0 (rw tall out),
                get_or_beyond (map (row_dot fp m x) (range 0 m.nrows)) i 0 (rw same_size out),
              )
              refl
      ]

  events_as_rows :
      (chunk : ℕ) (events : List (ℕ × ℕ)) (y : List F64)
      → try_fold (λ y e. write_row fp m x y (e.0 * chunk + e.1)) y events
        ≡ try_fold (write_row fp m x) y (event_rows chunk events)
  unfolding try_fold
  events_as_rows chunk [] y = refl
  events_as_rows chunk (e ∷ es) y =
      bind_ext (write_row fp m x y (e.0 * chunk + e.1)) (events_as_rows chunk es)

-- On a validated matrix and vectors of its dimensions `apply_parallel` returns what `apply` does,
-- whatever the order in which the workers store the rows, when each row is stored.
pub apply_parallel-eq-apply :
    (fp : Arithmetic) (m : Csr32Matrix) (x y : List F64) (order : List ℕ)
    → IsValid m
    → length x ≡ m.ncols
    → length y ≡ m.nrows
    → Covers m.nrows order
    → apply_parallel fp m x y order ≡ apply fp m x y
unfolding apply_parallel
apply_parallel-eq-apply fp m x y order v wide tall c =
    rw (lengths_pass m x y wide tall)
      (stores_all fp m x v wide y order tall c ∙ sym (apply-eq-ok fp m x y v wide tall))

-- So does `apply_parallel_with_tasks` for a positive number of tasks, whatever the interleaving
-- of the tasks, when each place of each chunk is stored; and with no tasks it is an error.
pub apply_parallel_with_tasks-eq-apply :
    (fp : Arithmetic) (m : Csr32Matrix) (x y : List F64) (target_tasks : ℕ) (events : List (ℕ × ℕ))
    → IsValid m
    → length x ≡ m.ncols
    → length y ≡ m.nrows
    → Interleaves m.nrows (chunk_of m.nrows target_tasks) events
    → apply_parallel_with_tasks fp m x y target_tasks events ≡ (
        if target_tasks == 0
        then err (invalid_argument "target_tasks must be greater than zero")
        else apply fp m x y)
unfolding apply_parallel_with_tasks
apply_parallel_with_tasks-eq-apply fp m x y target_tasks events v wide tall h =
    rw (lengths_pass m x y wide tall) (elim (Bool-cases (target_tasks == 0)) [
      | inl idle ↦ rw idle refl
      | inr busy ↦ rw busy (elim (Bool-cases (m.nrows == 0)) [
        | inl empty ↦
            let none : m.nrows ≡ 0 = ground arith in
            rw (empty, apply-eq-ok fp m x y v wide tall, none)
              (ap ok (eq-nil_of_length y (tall ∙ none)))
        | inr rows ↦
            let pos = chunk_of-pos m.nrows target_tasks (ground arith) (ground arith) in
            rw rows (
              events_as_rows fp m x v wide (chunk_of m.nrows target_tasks) events y
              ∙ stores_all fp m x v wide y (event_rows (chunk_of m.nrows target_tasks) events) tall
                  (Interleaves-Covers m.nrows (chunk_of m.nrows target_tasks) events pos h)
              ∙ sym (apply-eq-ok fp m x y v wide tall))
      ])
    ])
