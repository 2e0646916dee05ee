-- ===== src/Partition/Halo/Notes.antt =====
-- The notes of a rank as a list: what it receives in order, and what it sends.
use hybit.Base.{
  ℕ, suc, ◌+◌, ◌≤◌, ◌<◌, ◌≡◌, ◌⊎◌, refl, sym, ap, ◌∙◌, arith, Bool, true, false, ◌||◌, ◌==◌, List,
  [], ◌∷◌, Option, some, none, length, has, has-append, IsAscending, IsAscending-append, AllBelow,
  Bool-cases, inl, inr, eq→==, unwrap_or,
}
use hybit.SortedMap.{lookup, KeysAscend, lookup-below}
use hybit.Partition.Halo.{Peers, PeerAccumulator, HaloPeerPlan, find_peer, no_globals}
use hybit.Partition.Halo.Slots.{AllWithin, all_received, either, left}
use hybit.Partition.Halo.Plan.{SendWithin, ArePeerPlans}

-- Every entry has the property.
abbrev pub AllEntries : (ℕ → PeerAccumulator → Type 0) → Peers → Type 0
AllEntries P [] = Unit
AllEntries P ((k, a) ∷ m) = P k a × AllEntries P m

pub AllEntries-of_lookup :
    (P : ℕ → PeerAccumulator → Type 0) (lo : ℕ) (m : Peers)
    → KeysAscend lo m
    → ((k : ℕ) (a : PeerAccumulator) → lookup k m ≡ some a → P k a)
    → AllEntries P m
unfolding lookup
AllEntries-of_lookup P lo [] up h = tt
AllEntries-of_lookup P lo ((k, a) ∷ m) (le, up) h = (
  h k a (rw (eq→== k k refl) refl),
  AllEntries-of_lookup P (suc k) m up (λ k' a' there. h k' a' (elim (Bool-cases (k == k')) [
    | inl same ↦ absurd (cc (lookup-below (suc k) k' m up (ground arith), there))
    | inr other ↦ rw other there
  ])),
)

within_of_has :
    (start end : ℕ) (xs : List ℕ)
    → ((x : ℕ) → has xs x ≡ true → (start ≤ x) × (x < end))
    → AllWithin start end xs
within_of_has start end [] h = tt
within_of_has start end (x ∷ xs) h =
    let here = h x (rw (eq→== x x refl) refl) in
    (here.0, here.1, within_of_has start end xs (λ y there. h y (either (x == y) _ there)))

pub AllEntries-SendWithin :
    (start end : ℕ) (m : Peers)
    → AllEntries (λ k a. (x : ℕ) → has a.send_globals x ≡ true → (start ≤ x) × (x < end)) m
    → SendWithin start end m
AllEntries-SendWithin start end [] h = tt
AllEntries-SendWithin start end ((k, a) ∷ m) (here, h) =
    (within_of_has start end a.send_globals here, AllEntries-SendWithin start end m h)

IsAscending-from :
    (lo : ℕ) (xs : List ℕ)
    → IsAscending 0 xs
    → ((x : ℕ) → has xs x ≡ true → lo ≤ x)
    → IsAscending lo xs
IsAscending-from lo [] up h = tt
IsAscending-from lo (x ∷ xs) up h = (h x (rw (eq→== x x refl) refl), up.1)

pub below_of_has : (hi : ℕ) (xs : List ℕ) → ((x : ℕ) → has xs x ≡ true → x < hi) → AllBelow hi xs
below_of_has hi [] h = tt
below_of_has hi (x ∷ xs) h =
    (h x (rw (eq→== x x refl) refl), below_of_has hi xs (λ y there. h y (either (x == y) _ there)))

-- An ascending list has room between its bounds.
pub length-IsAscending :
    (lo hi : ℕ) (xs : List ℕ) → lo ≤ hi → IsAscending lo xs → AllBelow hi xs → lo + length xs ≤ hi
length-IsAscending lo hi [] le up below = omega arith
length-IsAscending lo hi (x ∷ xs) le up below =
    omega (arith, up.0, length-IsAscending (suc x) hi xs below.0 up.1 below.1)

module _ (floor : ℕ → ℕ) (mono : (i j : ℕ) → i ≤ j → floor i ≤ floor j) where
  -- What is received from k ascends, between the floors of k and of the next rank.
  abbrev pub InFloors : ℕ → PeerAccumulator → Type 0
  InFloors k a =
      IsAscending 0 a.recv_globals
      × ((x : ℕ) → has a.recv_globals x ≡ true → (floor k ≤ x) × (x < floor (suc k)))

  pub all_received-IsAscending :
      (lo : ℕ) (m : Peers)
      → KeysAscend lo m
      → AllEntries InFloors m
      → IsAscending (floor lo) (all_received m)
  all_received-IsAscending lo [] up h = tt
  all_received-IsAscending lo ((k, a) ∷ m) (le, up) ((asc, bounds), h) =
      let first = mono lo k le in
      IsAscending-append (floor lo) (floor (suc k)) a.recv_globals (all_received m)
        (mono lo (suc k) (omega arith))
        (IsAscending-from (floor lo) a.recv_globals asc
          (λ x there. omega (arith, (bounds x there).0)))
        (below_of_has (floor (suc k)) a.recv_globals (λ x there. (bounds x there).1))
        (all_received-IsAscending (suc k) m up h)

-- What is received is received from some peer.
pub received_from :
    (lo : ℕ) (m : Peers) (g : ℕ)
    → KeysAscend lo m
    → has (all_received m) g ≡ true
    → (k : ℕ) × (a : PeerAccumulator) × (lookup k m ≡ some a) × (has a.recv_globals g ≡ true)
unfolding lookup
received_from lo [] g up h = absurd (cc h)
received_from lo ((k, a) ∷ m) g (le, up) h =
    elim (one_of (has a.recv_globals g) _
      (sym (has-append a.recv_globals (all_received m) g) ∙ h)) [
        | inl here ↦ (k, a, rw (eq→== k k refl) refl, here)
        | inr later ↦
            let (k', a', there, has_it) = received_from (suc k) m g up later in
            (
              k',
              a',
              elim (Bool-cases (k == k')) [
                | inl same ↦ absurd (cc (lookup-below (suc k) k' m up (ground arith), there))
                | inr other ↦ rw other there
              ],
              has_it,
            )
      ]
  where
    one_of : (a b : Bool) → (a || b) ≡ true → (a ≡ true) ⊎ (b ≡ true)
    one_of true b h = inl refl
    one_of false b h = inr h

pub received_in :
    (k : ℕ) (m : Peers) (g : ℕ)
    → has (unwrap_or (lookup k m) no_globals).recv_globals g ≡ true
    → has (all_received m) g ≡ true
unfolding lookup
received_in k [] g h = absurd (cc h)
received_in k ((k', a) ∷ m) g h = elim (Bool-cases (k' == k)) [
  | inl same ↦
      let here : has a.recv_globals g ≡ true = rw same at h in
      has-append a.recv_globals (all_received m) g ∙ left _ _ here
  | inr other ↦
      let later : has (unwrap_or (lookup k m) no_globals).recv_globals g ≡ true = rw other at h in
      has-append a.recv_globals (all_received m) g
      ∙ either (has a.recv_globals g) _ (received_in k m g later)
]

-- The lists of the messages of a plan.
abbrev pub sends_of : Option HaloPeerPlan → List ℕ
sends_of none = []
sends_of (some q) = q.send_globals

abbrev pub receives_of : Option HaloPeerPlan → List ℕ
receives_of none = []
receives_of (some q) = q.recv_globals

abbrev pub message_to : ℕ → List HaloPeerPlan → List ℕ
message_to b peers = sends_of (find_peer b peers)

abbrev pub message_from : ℕ → List HaloPeerPlan → List ℕ
message_from b peers = receives_of (find_peer b peers)

pub messages-ArePeerPlans :
    (own start b : ℕ) (ghosts : List ℕ) (m : Peers) (qs : List HaloPeerPlan)
    → ArePeerPlans own start ghosts m qs
    → (message_to b qs ≡ (unwrap_or (lookup b m) no_globals).send_globals)
      × (message_from b qs ≡ (unwrap_or (lookup b m) no_globals).recv_globals)
unfolding find_peer lookup
messages-ArePeerPlans own start b ghosts [] [] h = (refl, refl)
messages-ArePeerPlans own start b ghosts [] (q ∷ qs) h = absurd h
messages-ArePeerPlans own start b ghosts ((k, a) ∷ m) [] h = absurd h
messages-ArePeerPlans own start b ghosts ((k, a) ∷ m) (q ∷ qs) (here, h) =
    elim (Bool-cases (k == b)) [
      | inl same ↦
          let found : (q.peer == b) ≡ true = ap (λ k. k == b) here.peer_is ∙ same in
          rw (found, same) (here.sends, here.receives)
      | inr other ↦
          let passed : (q.peer == b) ≡ false = ap (λ k. k == b) here.peer_is ∙ other in
          rw (passed, other) (messages-ArePeerPlans own start b ghosts m qs h)
    ]
