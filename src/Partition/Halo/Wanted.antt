-- ===== src/Partition/Halo/Wanted.antt =====
-- What the loop over the rows of a rank requests (`rank_requests`).
use hybit.Base.{
  ℕ, zero, suc, ◌+◌, ◌-◌, ◌%◌, ◌≤◌, ◌<◌, ◌≡◌, ◌≢◌, ◌⊎◌, ◌↔◌, refl, sym, ap, ◌∙◌, arith, Bool, true,
  false, ◌||◌, ◌==◌, ltb, leb, if◌then◌else◌, List, [], ◌∷◌, Option, some, length, get_or,
  unwrap_or, ok, try_fold_inv, two_32, two_64, has, at-eq-ok, eq→==, Bool-cases, inl, inr,
  IsAscending,
}
use hybit.SortedMap.{
  insert, modify, lookup, KeysAscend, insert-IsAscending, has-insert, modify-KeysAscend,
  lookup-modify,
}
use hybit.Csr.{Csr32Matrix}
use hybit.Csr.Valid.{IsValid}
use hybit.Partition.{ContiguousPartition, contiguous_owner_of, owned_range}
use hybit.Partition.Offsets.{
  IsPartition, from_offsets_iff, contiguous_owner_of-owned_range, owned_range-inv, last_most,
}
use hybit.Partition.Halo.{Requests, request_column, request_entry, request_row, rank_requests}
use hybit.Partition.Halo.Filing.{KeysBelow}

-- The globals that are requested from an owner.
abbrev pub wanted : Requests → ℕ → List ℕ
wanted requests owner = unwrap_or (lookup owner requests) []

modify-KeysBelow :
    (n key : ℕ) (f : List ℕ → List ℕ) (m : Requests)
    → key < n
    → KeysBelow n m
    → KeysBelow n (modify [] f key m)
unfolding modify
modify-KeysBelow n key f [] lt below = (lt, tt)
modify-KeysBelow n key f ((k, v) ∷ rest) lt (head, below) = elim (Bool-cases (k == key)) [
  | inl same ↦ rw same (head, below)
  | inr other ↦ elim (Bool-cases (ltb key k)) [
    | inl before ↦ rw (other, before) (lt, (head, below))
    | inr after ↦ rw (other, after) (head, modify-KeysBelow n key f rest lt below)
  ]
]

wanted-modify :
    (g o owner : ℕ) (requests : Requests)
    → KeysAscend 0 requests
    → wanted (modify [] (insert g) o requests) owner
      ≡ (if o == owner then insert g (wanted requests o) else wanted requests owner)
wanted-modify g o owner requests up =
    rw (lookup-modify [] (insert g) 0 o requests owner up) (pick (o == owner) _ _)
  where
    pick :
        (b : Bool) (some_ids : List ℕ) (others : Option (List ℕ))
        → unwrap_or (if b then some some_ids else others) []
          ≡ (if b then some_ids else unwrap_or others [])
    pick true some_ids others = refl
    pick false some_ids others = refl

pub next_above :
    (lo : ℕ) (xs : List ℕ) (k : ℕ)
    → IsAscending lo xs
    → suc k < length xs
    → get_or xs k 0 ≤ get_or xs (suc k) 0
next_above lo [] k up h = absurd (omega arith)
next_above lo (x ∷ []) k up h = absurd (omega arith)
next_above lo (x ∷ y ∷ xs) zero up h = omega (arith, up.1.0)
next_above lo (x ∷ y ∷ xs) (suc k) up h = next_above (suc x) (y ∷ xs) k up.1 (omega arith)

or_right : (a b : Bool) → b ≡ true → (a || b) ≡ true
or_right true b h = refl
or_right false b h = h

-- The columns of the entries from first up to end.
abbrev pub Seen : Csr32Matrix → ℕ → ℕ → ℕ → Type 0
Seen matrix first end g =
    (position : ℕ) × (first ≤ position) × (position < end) × (get_or matrix.col_idx position 0 ≡ g)

module _ (p : ContiguousPartition) (r : ℕ) where
  -- The requests are those for the columns in P that other ranks own.
  pub record Wants (P : ℕ → Type 0) (requests : Requests) : Type 0 where
    pub keys : KeysAscend 0 requests
    pub ranks : KeysBelow (length p.offsets - 1) requests
    pub ascending : (owner : ℕ) → IsAscending 0 (wanted requests owner)
    pub exact :
        (owner g : ℕ)
        → (has (wanted requests owner) g ≡ true)
          ↔ ((owner ≢ r) × (contiguous_owner_of p g ≡ ok owner) × P g)

module _ (matrix : Csr32Matrix) (well : IsValid matrix) (p : ContiguousPartition)
    (v : IsPartition p) (square : matrix.nrows ≡ matrix.ncols)
    (sizes : matrix.nrows ≡ p.global_dofs) (r : ℕ) where
  Wants-same :
      (P Q : ℕ → Type 0) (requests : Requests)
      → ((g : ℕ) → P g ↔ Q g)
      → Wants p r P requests
      → Wants p r Q requests
  Wants-same P Q requests same w = record {
    keys = w.keys;
    ranks = w.ranks;
    ascending = w.ascending;
    exact = λ owner g. (
      λ h. let (a, b, c) = (w.exact owner g).0 h in (a, b, (same g).0 c),
      λ (a, b, c). (w.exact owner g).1 (a, b, (same g).1 c),
    );
  }

  abbrev Also : (ℕ → Type 0) → ℕ → ℕ → Type 0
  Also P g x = P x ⊎ (x ≡ g)

  owner_exists :
      (g : ℕ)
      → g < p.global_dofs
      → (o : ℕ) × (contiguous_owner_of p g ≡ ok o) × (o < length p.offsets - 1)
  owner_exists g lt =
      let (o, start, end, own, bounds, _, _) =
        (contiguous_owner_of-owned_range p.offsets p ((from_offsets_iff p.offsets p).1 (refl, v))).0
          g lt in
      (o, own, omega (arith, (owned_range-inv p v o start end bounds).0))

  own_column :
      (P : ℕ → Type 0) (requests : Requests) (g o : ℕ)
      → contiguous_owner_of p g ≡ ok o
      → o ≡ r
      → Wants p r P requests
      → Wants p r (Also P g) requests
  own_column P requests g o own mine w = record {
    keys = w.keys;
    ranks = w.ranks;
    ascending = w.ascending;
    exact = λ owner x. (
      λ h. let (a, b, c) = (w.exact owner x).0 h in (a, b, inl c),
      λ (a, b, seen). elim seen [
        | inl c ↦ (w.exact owner x).1 (a, b, c)
        | inr e ↦ absurd (a (cc (b, own, e, mine)))
      ],
    );
  }

  other_column :
      (P : ℕ → Type 0) (requests : Requests) (g o : ℕ)
      → contiguous_owner_of p g ≡ ok o
      → o ≢ r
      → o < length p.offsets - 1
      → Wants p r P requests
      → Wants p r (Also P g) (modify [] (insert g) o requests)
  other_column P requests g o own other inside w = record {
    keys = modify-KeysAscend [] (insert g) 0 o requests (omega arith) w.keys;
    ranks = modify-KeysBelow (length p.offsets - 1) o (insert g) requests inside w.ranks;
    ascending = λ owner. elim (Bool-cases (o == owner)) [
      | inl here ↦
          rw (wanted-modify g o owner requests w.keys, here)
            (insert-IsAscending 0 g (wanted requests o) (omega arith) (w.ascending o))
      | inr there ↦ rw (wanted-modify g o owner requests w.keys, there) (w.ascending owner)
    ];
    exact = λ owner x. elim (Bool-cases (o == owner)) [
      | inl here ↦
          let e : o ≡ owner = same o owner here in
          rw
            (wanted-modify g o owner requests w.keys, here, has-insert g (wanted requests o) x, ← e)
            (added x, added_back x)
      | inr there ↦
          rw (wanted-modify g o owner requests w.keys, there)
            (
              λ h. let (a, b, c) = (w.exact owner x).0 h in (a, b, inl c),
              λ (a, b, seen). elim seen [
                | inl c ↦ (w.exact owner x).1 (a, b, c)
                | inr e ↦ absurd (apart o owner there (cc (b, own, e)))
              ],
            )
    ];
  }
    where
      same : (o owner : ℕ) → (o == owner) ≡ true → o ≡ owner
      same o owner h = ground arith

      added :
          (x : ℕ)
          → ((g == x) || has (wanted requests o) x) ≡ true
          → (o ≢ r) × (contiguous_owner_of p x ≡ ok o) × Also P g x
      added x h = elim (Bool-cases (g == x)) [
        | inl hit ↦ let e = same g x hit in (other, rw e at own, inr (sym e))
        | inr miss ↦
            let h' : has (wanted requests o) x ≡ true = rw miss at h in
            let (a, b, c) = (w.exact o x).0 h' in (a, b, inl c)
      ]

      added_back :
          (x : ℕ)
          → (o ≢ r) × (contiguous_owner_of p x ≡ ok o) × Also P g x
          → ((g == x) || has (wanted requests o) x) ≡ true
      added_back x (a, b, seen) = elim seen [
        | inl c ↦ or_right (g == x) _ ((w.exact o x).1 (a, b, c))
        | inr e ↦ rw (eq→== g x (sym e)) refl
      ]

      apart : (o owner : ℕ) → (o == owner) ≡ false → o ≡ owner → ⊥
      apart o owner h e = ground arith

  -- One column more.
  request_column-Wants :
      (P : ℕ → Type 0) (requests : Requests) (g : ℕ)
      → g < p.global_dofs
      → Wants p r P requests
      → (requests' : Requests) × (request_column p r requests g ≡ ok requests')
        × Wants p r (Also P g) requests'
  unfolding request_column
  request_column-Wants P requests g lt w =
      let (o, own, inside) = owner_exists g lt in
      elim (Bool-cases (o == r)) [
        | inl mine ↦
            (requests, rw (own, mine) refl, own_column P requests g o own (same o r mine) w)
        | inr other ↦ (
          modify [] (insert g) o requests,
          rw (own, other) refl,
          other_column P requests g o own (apart o r other) inside w,
        )
      ]
    where
      same : (o r : ℕ) → (o == r) ≡ true → o ≡ r
      same o r h = ground arith

      apart : (o r : ℕ) → (o == r) ≡ false → o ≢ r
      apart o r h e = ground arith

  Seen-Also :
      (first end g : ℕ)
      → first ≤ end
      → Also (Seen matrix first end) (get_or matrix.col_idx end 0) g ↔ Seen matrix first (suc end) g
  Seen-Also first end g le = (
    λ seen. elim seen [
      | inl (q, a, b, c) ↦ (q, a, omega arith, c)
      | inr e ↦ (end, le, omega arith, sym e)
    ],
    λ (q, a, b, c). elim (Bool-cases (q == end)) [
      | inl here ↦
          let e : q ≡ end = ground arith in inr (sym c ∙ ap (λ i. get_or matrix.col_idx i 0) e)
      | inr other ↦ inl (q, a, ground arith, c)
    ],
  )

  abbrev ptr : ℕ → ℕ
  ptr row = get_or matrix.row_ptr row 0

  -- One entry more.
  request_entry-Wants :
      (first position : ℕ) (requests : Requests)
      → first ≤ position
      → position < length matrix.values
      → Wants p r (Seen matrix first position) requests
      → (requests' : Requests) × (request_entry matrix p r requests position ≡ ok requests')
        × Wants p r (Seen matrix first (suc position)) requests'
  unfolding request_entry
  request_entry-Wants first position requests le lt w =
      let g = get_or matrix.col_idx position 0 in
      let stored : position < length matrix.col_idx = omega (arith, well.entries) in
      let inside : g < p.global_dofs = omega (arith, well.columns position stored, square, sizes) in
      let (requests', run, w') =
        request_column-Wants (Seen matrix first position) requests g inside w in
      (
        requests',
        rw (at-eq-ok matrix.col_idx position 0 stored) run,
        Wants-same (Also (Seen matrix first position) g) (Seen matrix first (suc position))
            requests' (λ x. Seen-Also first position x le) w',
      )

  -- One row more.
  request_row-Wants :
      (first row : ℕ) (requests : Requests)
      → row < matrix.nrows
      → first ≤ ptr row
      → Wants p r (Seen matrix first (ptr row)) requests
      → (requests' : Requests) × (request_row matrix p r requests row ≡ ok requests')
        × Wants p r (Seen matrix first (ptr (suc row))) requests'
  unfolding request_row
  request_row-Wants first row requests lt le w =
      let next : row + 1 ≡ suc row = omega arith in
      let up = well.ascends row (suc row) (omega arith) (omega arith) in
      let last = well.ascends (suc row) matrix.nrows (omega arith) (omega arith) in
      let (requests', run, w') =
        try_fold_inv (λ q rs. Wants p r (Seen matrix first q) rs) (request_entry matrix p r)
          (ptr row) (ptr (suc row) - ptr row) requests w
          (λ rs q from to.
            request_entry-Wants first q rs (omega arith) (omega (arith, well.ends))) in
      let whole : ptr row + (ptr (suc row) - ptr row) ≡ ptr (suc row) = omega (arith, up) in
      (
        requests',
        rw
            (
              at-eq-ok matrix.row_ptr row 0 (omega (arith, well.rows)),
              next,
              at-eq-ok matrix.row_ptr (suc row) 0 (omega (arith, well.rows)),
            )
            run,
        rw whole at w',
      )

  nothing_yet : (first : ℕ) → Wants p r (Seen matrix first first) []
  unfolding lookup
  nothing_yet first = record {
    keys = tt;
    ranks = tt;
    ascending = λ owner. tt;
    exact = λ owner g. (λ h. absurd (cc h), λ (_, _, (q, a, b, _)). absurd (omega arith));
  }

  -- For a valid matrix, square and of the size of the partition, whose rows fit usize, and a rank with
  -- its owned rows: `rank_requests` returns requests with ascending owners, ranks of the partition,
  -- and ascending globals, in which a global is requested from a rank exactly when that is another rank,
  -- owns it, and it is the column of an entry of the owned rows.
  pub rank_requests-Wants :
      (start end : ℕ)
      → matrix.nrows < two_64
      → owned_range p r ≡ ok (start, end)
      → (requests : Requests) × (rank_requests matrix p r ≡ ok requests)
        × Wants p r (Seen matrix (ptr start) (ptr end)) requests
  unfolding rank_requests
  rank_requests-Wants start end rows_fit bounds =
      let (inside, from, to) = owned_range-inv p v r start end bounds in
      let small : r % two_32 ≡ r = omega (arith, v.few) in
      let last : end ≤ matrix.nrows =
        omega (
          arith,
          to,
          sizes,
          last_most 0 p.offsets (suc r) p.global_dofs v.ascending inside v.last,
        ) in
      let ordered : start ≤ end =
        omega (arith, from, to, next_above 0 p.offsets r v.ascending inside) in
      let narrow_start : leb two_64 start ≡ false = ground arith in
      let narrow_end : leb two_64 end ≡ false = ground arith in
      let whole : start + (end - start) ≡ end = omega arith in
      let (requests, run, w) =
        try_fold_inv (λ row rs. Wants p r (Seen matrix (ptr start) (ptr row)) rs)
          (request_row matrix p r) start (end - start) [] (nothing_yet (ptr start))
          (λ rs row le lt w.
            request_row-Wants (ptr start) row rs (omega arith)
              (well.ascends start row le (omega arith)) w) in
      (requests, rw (small, bounds, narrow_start, narrow_end) run, rw whole at w)
