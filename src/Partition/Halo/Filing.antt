-- ===== src/Partition/Halo/Filing.antt =====
-- What is noted for the two ranks of a request (`file_request`): a rank sends what its peers receive.
use hybit.Base.{
  ℕ, suc, ◌+◌, ◌-◌, ◌%◌, ◌≤◌, ◌<◌, ◌≡◌, refl, ap, ◌∙◌, arith, Bool, true, false, ◌==◌, ◌&&◌, ltb,
  if◌then◌else◌, List, [], ◌∷◌, length, replicate, enumerate, get_or, set, unwrap_or, ok, try_fold,
  two_32, at-eq-ok, get_or-set, length-set, get_or-replicate, length-replicate, lt→ltb, Bool-cases,
  inl, inr,
}
use hybit.SortedMap.{modify, lookup, KeysAscend, modify-KeysAscend, lookup-modify, lookup-below}
use hybit.Partition.Halo.{Requests, Peers, PeerAccumulator, no_globals, file_request, file_requests}

-- What rank a notes that it receives from b, and that it sends to b.
abbrev peer_of : List Peers → ℕ → ℕ → PeerAccumulator
peer_of accumulators a b = unwrap_or (lookup b (get_or accumulators a [])) no_globals

abbrev pub received : List Peers → ℕ → ℕ → List ℕ
received accumulators a b = (peer_of accumulators a b).recv_globals

abbrev pub sent : List Peers → ℕ → ℕ → List ℕ
sent accumulators a b = (peer_of accumulators a b).send_globals

-- What rank a requests from b.
abbrev pub requested : List Requests → ℕ → ℕ → List ℕ
requested requests a b = unwrap_or (lookup b (get_or requests a [])) []

record IsSorted (n : ℕ) (accumulators : List Peers) : Type 0 where
  size : length accumulators ≡ n
  keys : (a : ℕ) → KeysAscend 0 (get_or accumulators a [])

abbrev note : List Peers → ℕ → ℕ → (PeerAccumulator → PeerAccumulator) → List Peers
note accumulators a b f = set accumulators a (modify no_globals f b (get_or accumulators a []))

note-IsSorted :
    (n : ℕ) (accumulators : List Peers) (a b : ℕ) (f : PeerAccumulator → PeerAccumulator)
    → a < n
    → IsSorted n accumulators
    → IsSorted n (note accumulators a b f)
note-IsSorted n accumulators a b f h s = record {
  size = length-set accumulators a _ ∙ s.size;
  keys = λ x. elim (Bool-cases (a == x)) [
    | inl here ↦
        rw (get_or-set accumulators a x _ [] (omega (arith, s.size)), here)
          (modify-KeysAscend no_globals f 0 b (get_or accumulators a []) (omega arith) (s.keys a))
    | inr other ↦ rw (get_or-set accumulators a x _ [] (omega (arith, s.size)), other) (s.keys x)
  ];
}

peer_of-note :
    (n : ℕ) (accumulators : List Peers) (a b : ℕ) (f : PeerAccumulator → PeerAccumulator) (x y : ℕ)
    → a < n
    → IsSorted n accumulators
    → peer_of (note accumulators a b f) x y
      ≡ (if (a == x) && (b == y) then f (peer_of accumulators x y) else peer_of accumulators x y)
peer_of-note n accumulators a b f x y h s = elim (Bool-cases (a == x)) [
  | inl here ↦
      let e : a ≡ x = ground arith in
      rw
        (
          get_or-set accumulators a x (modify no_globals f b (get_or accumulators a [])) []
              (omega (arith, s.size)),
          here,
          lookup-modify no_globals f 0 b (get_or accumulators a []) y (s.keys a),
          e,
        )
        (elim (Bool-cases (b == y)) [
          | inl same ↦ let e' : b ≡ y = ground arith in rw (same, e') refl
          | inr apart ↦ rw apart refl
        ])
  | inr other ↦
      rw
        (
          get_or-set accumulators a x (modify no_globals f b (get_or accumulators a [])) []
              (omega (arith, s.size)),
          other,
        )
        refl
]

abbrev receive : List ℕ → PeerAccumulator → PeerAccumulator
receive ids p = record p { recv_globals = ids }

abbrev send : List ℕ → PeerAccumulator → PeerAccumulator
send ids p = record p { send_globals = ids }

and_comm : (a b : Bool) → (a && b) ≡ (b && a)
and_comm true true = refl
and_comm true false = refl
and_comm false true = refl
and_comm false false = refl

if_same : (b : Bool) (xs : List ℕ) → xs ≡ (if b then xs else xs)
if_same true xs = refl
if_same false xs = refl

recv-send :
    (b : Bool) (ids : List ℕ) (p : PeerAccumulator)
    → (if b then send ids p else p).recv_globals ≡ p.recv_globals
recv-send true ids p = refl
recv-send false ids p = refl

recv-receive :
    (b : Bool) (ids : List ℕ) (p : PeerAccumulator)
    → (if b then receive ids p else p).recv_globals ≡ (if b then ids else p.recv_globals)
recv-receive true ids p = refl
recv-receive false ids p = refl

send-send :
    (b : Bool) (ids : List ℕ) (p : PeerAccumulator)
    → (if b then send ids p else p).send_globals ≡ (if b then ids else p.send_globals)
send-send true ids p = refl
send-send false ids p = refl

send-receive :
    (b : Bool) (ids : List ℕ) (p : PeerAccumulator)
    → (if b then receive ids p else p).send_globals ≡ p.send_globals
send-receive true ids p = refl
send-receive false ids p = refl

-- One request is noted.
record Noted (n r owner : ℕ) (ids : List ℕ) (before after : List Peers) : Type 0 where
  sorted : IsSorted n after
  receives :
      (x y : ℕ)
      → received after x y ≡ (if (r == x) && (owner == y) then ids else received before x y)
  sends : (x y : ℕ) → sent after x y ≡ (if (r == y) && (owner == x) then ids else sent before x y)

file_request-Noted :
    (n r owner : ℕ) (ids : List ℕ) (before : List Peers)
    → r < n
    → owner < n
    → n ≤ two_32
    → IsSorted n before
    → (after : List Peers) × (file_request r before (owner, ids) ≡ ok after)
      × Noted n r owner ids before after
unfolding file_request
file_request-Noted n r owner ids before r_in owner_in narrow s =
    let mid = note before r owner (receive ids) in
    let s' = note-IsSorted n before r owner (receive ids) r_in s in
    let small : r % two_32 ≡ r = omega arith in
    (
      note mid owner r (send ids),
      rw
          (
            at-eq-ok before r [] (omega (arith, s.size)),
            lt→ltb r (length before) (omega (arith, s.size)),
            small,
            at-eq-ok mid owner [] (omega (arith, s'.size)),
            lt→ltb owner (length mid) (omega (arith, s'.size)),
          )
          refl,
      record {
        sorted = note-IsSorted n mid owner r (send ids) owner_in s';
        receives = λ x y.
            ap (λ p. p.recv_globals) (peer_of-note n mid owner r (send ids) x y owner_in s')
            ∙ recv-send _ ids (peer_of mid x y)
            ∙ ap (λ p. p.recv_globals) (peer_of-note n before r owner (receive ids) x y r_in s)
            ∙ recv-receive _ ids (peer_of before x y);
        sends = λ x y.
            ap (λ p. p.send_globals) (peer_of-note n mid owner r (send ids) x y owner_in s')
            ∙ send-send _ ids (peer_of mid x y)
            ∙ ap (λ g. if (owner == x) && (r == y) then ids else g)
                (ap (λ p. p.send_globals) (peer_of-note n before r owner (receive ids) x y r_in s)
                  ∙ send-receive _ ids (peer_of before x y))
            ∙ ap (λ b. if b then ids else sent before x y) (and_comm (owner == x) (r == y));
      },
    )

-- The keys lie below n.
abbrev pub KeysBelow : ℕ → Requests → Type 0
KeysBelow n [] = Unit
KeysBelow n ((k, v) ∷ rest) = (k < n) × KeysBelow n rest

-- The requests of a rank are noted.
record Taken (n r : ℕ) (entries : Requests) (before after : List Peers) : Type 0 where
  sorted : IsSorted n after
  receives :
      (x y : ℕ)
      → received after x y ≡ (
          if r == x
          then unwrap_or (lookup y entries) (received before x y)
          else received before x y)
  sends :
      (x y : ℕ)
      → sent after x y
        ≡ (if r == y then unwrap_or (lookup x entries) (sent before x y) else sent before x y)

-- The first entry is noted, and then the rest, which do not have its key.
first_entry :
    (r owner x y : ℕ) (ids earlier : List ℕ) (rest : Requests)
    → KeysAscend (suc owner) rest
    → (if r == x
        then unwrap_or (lookup y rest) (if (r == x) && (owner == y) then ids else earlier)
        else (if (r == x) && (owner == y) then ids else earlier))
      ≡ (if r == x then unwrap_or (lookup y ((owner, ids) ∷ rest)) earlier else earlier)
unfolding lookup
first_entry r owner x y ids earlier rest up = elim (Bool-cases (r == x)) [
  | inr other ↦ rw other refl
  | inl here ↦ elim (Bool-cases (owner == y)) [
    | inl hit ↦ rw (here, hit, lookup-below (suc owner) y rest up (ground arith)) refl
    | inr miss ↦ rw (here, miss) refl
  ]
]

takes :
    (n r lo : ℕ) (entries : Requests) (before : List Peers)
    → r < n
    → n ≤ two_32
    → KeysAscend lo entries
    → KeysBelow n entries
    → IsSorted n before
    → (after : List Peers) × (try_fold (file_request r) before entries ≡ ok after)
      × Taken n r entries before after
unfolding try_fold lookup
takes n r lo [] before r_in narrow up below s = (
  before,
  refl,
  record {
    sorted = s;
    receives = λ x y. if_same (r == x) (received before x y);
    sends = λ x y. if_same (r == y) (sent before x y);
  },
)
takes n r lo ((owner, ids) ∷ rest) before r_in narrow (le, up) (lt, below) s =
    let (mid, one, noted) = file_request-Noted n r owner ids before r_in lt narrow s in
    let (after, run, t) = takes n r (suc owner) rest mid r_in narrow up below noted.sorted in
    (
      after,
      rw one run,
      record {
        sorted = t.sorted;
        receives = λ x y.
            t.receives x y
            ∙ rw (noted.receives x y) (first_entry r owner x y ids (received before x y) rest up);
        sends = λ x y.
            t.sends x y
            ∙ rw (noted.sends x y) (first_entry r owner y x ids (sent before x y) rest up);
      },
    )

-- The requests of the ranks from k on are noted, where nothing is noted for them yet.
record Done (n k : ℕ) (requests : List Requests) (before after : List Peers) : Type 0 where
  sorted : IsSorted n after
  receives :
      (x y : ℕ)
      → received after x y ≡ (if ltb x k then received before x y else requested requests (x - k) y)
  sends :
      (x y : ℕ)
      → sent after x y ≡ (if ltb y k then sent before x y else requested requests (y - k) x)

abbrev pub AllRequests : ℕ → List Requests → Type 0
AllRequests n [] = Unit
AllRequests n (entries ∷ rest) = KeysAscend 0 entries × KeysBelow n entries × AllRequests n rest

-- One more rank.
next_rank :
    (k x y : ℕ) (entries : Requests) (rest : List Requests) (earlier : List ℕ)
    → (k ≤ x → earlier ≡ [])
    → (if ltb x (suc k)
        then (if k == x then unwrap_or (lookup y entries) earlier else earlier)
        else requested rest (x - suc k) y)
      ≡ (if ltb x k then earlier else requested (entries ∷ rest) (x - k) y)
next_rank k x y entries rest earlier nothing = elim (Bool-cases (ltb x k)) [
  | inl before ↦
      let within : ltb x (suc k) ≡ true = ground arith in
      let other : (k == x) ≡ false = ground arith in rw (before, within, other) refl
  | inr from ↦ elim (Bool-cases (k == x)) [
    | inl here ↦
        let within : ltb x (suc k) ≡ true = ground arith in
        let zeroth : x - k ≡ 0 = ground arith in
        rw (from, within, here, zeroth, nothing (ground arith)) refl
    | inr other ↦
        let beyond : ltb x (suc k) ≡ false = ground arith in
        let later : x - k ≡ suc (x - suc k) = ground arith in rw (from, beyond, later) refl
  ]
]

none_next :
    (k x y : ℕ) (earlier : List ℕ)
    → (k ≤ x → earlier ≡ [])
    → earlier ≡ (if ltb x k then earlier else requested [] (x - k) y)
unfolding lookup
none_next k x y earlier nothing = elim (Bool-cases (ltb x k)) [
  | inl before ↦ rw before refl
  | inr from ↦ rw from (nothing (ground arith))
]

later_rank :
    (k x : ℕ) (now earlier : List ℕ)
    → suc k ≤ x
    → earlier ≡ []
    → (if k == x then now else earlier) ≡ []
later_rank k x now earlier le e = let other : (k == x) ≡ false = ground arith in rw (other, e) refl

dones :
    (n k : ℕ) (requests : List Requests) (before : List Peers)
    → n ≤ two_32
    → k + length requests ≡ n
    → AllRequests n requests
    → IsSorted n before
    → ((x y : ℕ) → k ≤ x → received before x y ≡ [])
    → ((x y : ℕ) → k ≤ y → sent before x y ≡ [])
    → (after : List Peers) × (try_fold file_requests before (enumerate k requests) ≡ ok after)
      × Done n k requests before after
unfolding try_fold file_requests
dones n k [] before narrow e all s no_receives no_sends = (
  before,
  refl,
  record {
    sorted = s;
    receives = λ x y. none_next k x y (received before x y) (no_receives x y);
    sends = λ x y. none_next k y x (sent before x y) (no_sends x y);
  },
)
dones n k (entries ∷ rest) before narrow e (up, below, all) s no_receives no_sends =
    let (mid, one, t) = takes n k 0 entries before (omega arith) narrow up below s in
    let (after, run, d) =
      dones n (suc k) rest mid narrow (omega arith) all t.sorted
        (λ x y le.
          t.receives x y
          ∙ later_rank k x _ (received before x y) le (no_receives x y (omega arith)))
        (λ x y le.
          t.sends x y ∙ later_rank k y _ (sent before x y) le (no_sends x y (omega arith))) in
    (
      after,
      rw one run,
      record {
        sorted = d.sorted;
        receives = λ x y.
            d.receives x y
            ∙ rw (t.receives x y)
                (next_rank k x y entries rest (received before x y) (no_receives x y));
        sends = λ x y.
            d.sends x y
            ∙ rw (t.sends x y) (next_rank k y x entries rest (sent before x y) (no_sends x y));
      },
    )

from_zero : (a : ℕ) (xs : List ℕ) (f : ℕ → List ℕ) → (if ltb a 0 then xs else f (a - 0)) ≡ f a
from_zero a xs f =
    let e : ltb a 0 ≡ false = ground arith in let m : a - 0 ≡ a = omega arith in rw (e, m) refl

-- Filing the requests, and the order of the notes.
pub filed :
    (n : ℕ) (requests : List Requests)
    → n ≤ two_32
    → length requests ≡ n
    → AllRequests n requests
    → (accumulators : List Peers) × (try_fold file_requests (replicate n []) (enumerate 0 requests)
        ≡ ok accumulators)
      × (length accumulators ≡ n)
      × ((a b : ℕ) → received accumulators a b ≡ requested requests a b)
      × ((a b : ℕ) → sent accumulators a b ≡ requested requests b a)
      × ((a : ℕ) → KeysAscend 0 (get_or accumulators a []))
unfolding lookup
filed n requests narrow size all =
    let start : IsSorted n (replicate n []) = record {
      size = length-replicate {A = Peers} n [];
      keys = λ a. rw (get_or-replicate {A = Peers} n a []) tt;
    } in
    let (after, run, d) =
      dones n 0 requests (replicate n []) narrow (omega (arith, size)) all start
        (λ x y le.
          ap (λ m. (unwrap_or (lookup y m) no_globals).recv_globals) (get_or-replicate n x []))
        (λ x y le.
          ap (λ m. (unwrap_or (lookup y m) no_globals).send_globals) (get_or-replicate n x [])) in
    (
      after,
      run,
      d.sorted.size,
      λ a b. d.receives a b ∙ from_zero a _ (λ i. requested requests i b),
      λ a b. d.sends a b ∙ from_zero b _ (λ i. requested requests i a),
      d.sorted.keys,
    )

-- For the requests of n ranks, at most 2^32, each with ascending keys that are ranks: filing them
-- returns the notes of n ranks, in which each rank receives from each other what it requested from
-- it, and sends to each other what that one requested.
pub file_requests-requested :
    (n : ℕ) (requests : List Requests)
    → n ≤ two_32
    → length requests ≡ n
    → AllRequests n requests
    → (accumulators : List Peers) × (try_fold file_requests (replicate n []) (enumerate 0 requests)
        ≡ ok accumulators)
      × (length accumulators ≡ n)
      × ((a b : ℕ) → received accumulators a b ≡ requested requests a b)
      × ((a b : ℕ) → sent accumulators a b ≡ requested requests b a)
file_requests-requested n requests narrow size all =
    let (after, run, same, receives, sends, _) = filed n requests narrow size all in
    (after, run, same, receives, sends)
