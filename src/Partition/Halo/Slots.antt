-- ===== src/Partition/Halo/Slots.antt =====
-- The ghosts of a rank (`add_ghosts`), and the indices into its vectors (`send_index`, `recv_index`).
use hybit.Base.{
  ℕ, zero, suc, ◌+◌, ◌-◌, ◌≤◌, ◌<◌, ◌≡◌, refl, sym, ap, ◌∙◌, arith, Bool, true, false, ◌||◌, ◌==◌,
  ltb, leb, if◌then◌else◌, List, [], ◌∷◌, ◌++◌, some, map, length, length-append, get_or, ok,
  try_fold, try_map, two_32, has, lt→ltb, eq→==, Bool-cases, inl, inr, has-append,
}
use hybit.SortedMap.{modify, lookup, KeysAscend, modify-KeysAscend, lookup-modify}
use hybit.Partition.Halo.{Peers, Ghosts, add_ghost, add_ghosts, send_index, recv_index}

get_or-append_last : (xs : List ℕ) (x : ℕ) → get_or (xs ++ x ∷ []) (length xs) 0 ≡ x
get_or-append_last [] x = refl
get_or-append_last (y ∷ ys) x = get_or-append_last ys x

get_or-append_left :
    (xs : List ℕ) (x i : ℕ) → i < length xs → get_or (xs ++ x ∷ []) i 0 ≡ get_or xs i 0
get_or-append_left [] x i h = absurd (omega arith)
get_or-append_left (y ∷ ys) x zero h = refl
get_or-append_left (y ∷ ys) x (suc i) h = get_or-append_left ys x i (omega arith)

append_nil : (xs : List ℕ) → xs ++ [] ≡ xs
append_nil [] = refl
append_nil (x ∷ xs) = ap (λ ys. x ∷ ys) (append_nil xs)

append_one : (xs : List ℕ) (x : ℕ) (ys : List ℕ) → (xs ++ x ∷ []) ++ ys ≡ xs ++ x ∷ ys
append_one [] x ys = refl
append_one (z ∷ zs) x ys = ap (λ rest. z ∷ rest) (append_one zs x ys)

append_both : (xs ys zs : List ℕ) → (xs ++ ys) ++ zs ≡ xs ++ (ys ++ zs)
append_both [] ys zs = refl
append_both (x ∷ xs) ys zs = ap (λ rest. x ∷ rest) (append_both xs ys zs)

-- All lie from start up to end.
abbrev pub AllWithin : ℕ → ℕ → List ℕ → Type 0
AllWithin start end [] = Unit
AllWithin start end (x ∷ xs) = (start ≤ x) × (x < end) × AllWithin start end xs

pub send_indices :
    (start end : ℕ) (globals : List ℕ)
    → end - start ≤ two_32
    → AllWithin start end globals
    → try_map (send_index (start, end)) globals ≡ ok (map (λ g. g - start) globals)
unfolding try_map send_index
send_indices start end [] fits h = refl
send_indices start end (x ∷ xs) fits (le, lt, h) =
    let after : ltb x start ≡ false = ground arith in
    let before : leb end x ≡ false = ground arith in
    let narrow : leb two_32 (x - start) ≡ false = ground arith in
    rw (after, before, narrow, send_indices start end xs fits h) refl

pub either : (a b : Bool) → b ≡ true → (a || b) ≡ true
either true b h = refl
either false b h = h

pub left : (a b : Bool) → a ≡ true → (a || b) ≡ true
left true b h = refl
left false b h = cc

-- The globals that a rank receives, peer by peer.
abbrev pub all_received : Peers → List ℕ
all_received [] = []
all_received ((peer, a) ∷ rest) = a.recv_globals ++ all_received rest

abbrev pub AllIn : List ℕ → List ℕ → Type 0
AllIn ghosts [] = Unit
AllIn ghosts (x ∷ xs) = (has ghosts x ≡ true) × AllIn ghosts xs

pub all_in :
    (ghosts xs : List ℕ) → ((x : ℕ) → has xs x ≡ true → has ghosts x ≡ true) → AllIn ghosts xs
all_in ghosts [] h = tt
all_in ghosts (x ∷ xs) h = (
  h x (rw (eq→== x x refl) refl),
  all_in ghosts xs (λ y there. h y (either (x == y) (has xs y) there)),
)

module _ (own : ℕ) where
  -- Where an index of the vector of owned DOFs and ghosts points at a global.
  pub record PointsAt (ghosts : List ℕ) (index global : ℕ) : Type 0 where
    pub beyond : own ≤ index
    pub within : index - own < length ghosts
    pub same : get_or ghosts (index - own) 0 ≡ global

  pub record HasSlots (g : Ghosts) : Type 0 where
    pub sorted : KeysAscend 0 g.slots
    pub points : (x e : ℕ) → lookup x g.slots ≡ some e → PointsAt g.globals e x
    pub found : (x : ℕ) → has g.globals x ≡ true → (e : ℕ) × (lookup x g.slots ≡ some e)

  abbrev more : ℕ → Ghosts → ℕ → Ghosts
  more peer g global = record {
    globals = g.globals ++ global ∷ [];
    owners = g.owners ++ peer ∷ [];
    slots = modify (own + length g.globals) (λ _. own + length g.globals) global g.slots;
  }

  slot_of :
      (peer : ℕ) (g : Ghosts) (global x : ℕ)
      → HasSlots g
      → lookup x (more peer g global).slots
        ≡ (if global == x then some (own + length g.globals) else lookup x g.slots)
  slot_of peer g global x s = lookup-modify _ _ 0 global g.slots x s.sorted

  last_place :
      (g : Ghosts) (global : ℕ)
      → PointsAt (g.globals ++ global ∷ []) (own + length g.globals) global
  last_place g global =
      let place : own + length g.globals - own ≡ length g.globals = omega arith in
      record {
        beyond = omega arith;
        within = omega (arith, length-append g.globals (global ∷ []));
        same = rw place (get_or-append_last g.globals global);
      }

  more-HasSlots : (peer : ℕ) (g : Ghosts) (global : ℕ) → HasSlots g → HasSlots (more peer g global)
  more-HasSlots peer g global s = record {
    sorted = modify-KeysAscend _ _ 0 global g.slots (omega arith) s.sorted;
    points = λ x e h. elim (Bool-cases (global == x)) [
      | inl hit ↦
          let at_last : some (own + length g.globals) ≡ some e =
            rw hit at (sym (slot_of peer g global x s) ∙ h) in
          let place : own + length g.globals ≡ e = cc at_last in
          let same : global ≡ x = ground arith in rw (← place, ← same) (last_place g global)
      | inr miss ↦
          let earlier : lookup x g.slots ≡ some e =
            rw miss at (sym (slot_of peer g global x s) ∙ h) in
          let there = s.points x e earlier in
          record {
            beyond = there.beyond;
            within = omega (arith, there.within, length-append g.globals (global ∷ []));
            same = get_or-append_left g.globals global (e - own) there.within ∙ there.same;
          }
    ];
    found = λ x h. elim (Bool-cases (global == x)) [
      | inl hit ↦ (own + length g.globals, slot_of peer g global x s ∙ rw hit refl)
      | inr miss ↦
          let earlier : has g.globals x ≡ true =
            before (has g.globals x) (global == x) miss
              (sym (has-append g.globals (global ∷ []) x) ∙ h) in
          let (e, there) = s.found x earlier in (e, slot_of peer g global x s ∙ rw miss there)
    ];
  }
    where
      before : (a b : Bool) → b ≡ false → (a || (b || false)) ≡ true → a ≡ true
      before true b e h = refl
      before false b e h = rw e at h

  add_ghost-runs :
      (peer : ℕ) (g : Ghosts) (global : ℕ)
      → own + length g.globals < two_32
      → add_ghost own peer g global ≡ ok (more peer g global)
  unfolding add_ghost
  add_ghost-runs peer g global h =
      let narrow : leb two_32 (length g.globals) ≡ false = ground arith in
      rw (narrow, lt→ltb (own + length g.globals) two_32 h) refl

  adds :
      (peer : ℕ) (globals : List ℕ) (g : Ghosts)
      → own + length g.globals + length globals ≤ two_32
      → HasSlots g
      → (g' : Ghosts) × (try_fold (add_ghost own peer) g globals ≡ ok g')
        × HasSlots g'
        × (g'.globals ≡ g.globals ++ globals)
  unfolding try_fold
  adds peer [] g h s = (g, refl, s, sym (append_nil g.globals))
  adds peer (x ∷ xs) g h s =
      let next = more peer g x in
      let (g', run, s', e) =
        adds peer xs next (omega (arith, length-append g.globals (x ∷ [])))
          (more-HasSlots peer g x s) in
      (g', rw (add_ghost-runs peer g x (omega arith)) run, s', e ∙ append_one g.globals x xs)

  pub adds_all :
      (m : Peers) (g : Ghosts)
      → own + length g.globals + length (all_received m) ≤ two_32
      → HasSlots g
      → (g' : Ghosts) × (try_fold (add_ghosts own) g m ≡ ok g')
        × HasSlots g'
        × (g'.globals ≡ g.globals ++ all_received m)
  unfolding try_fold add_ghosts
  adds_all [] g h s = (g, refl, s, sym (append_nil g.globals))
  adds_all ((peer, a) ∷ rest) g h s =
      let total = length-append a.recv_globals (all_received rest) in
      let (mid, one, s1, e1) = adds peer a.recv_globals g (omega (arith, total)) s in
      let size : length mid.globals ≡ length g.globals + length a.recv_globals =
        ap length e1 ∙ length-append g.globals a.recv_globals in
      let (g', run, s', e) = adds_all rest mid (omega (arith, total, size)) s1 in
      (
        g',
        rw one run,
        s',
        e
            ∙ ap (λ xs. xs ++ all_received rest) e1
            ∙ append_both g.globals a.recv_globals (all_received rest),
      )

  -- The indices point at the globals, one by one.
  abbrev pub PointAt : List ℕ → List ℕ → List ℕ → Type 0
  PointAt ghosts [] [] = Unit
  PointAt ghosts [] (g ∷ gs) = ⊥
  PointAt ghosts (i ∷ is) [] = ⊥
  PointAt ghosts (i ∷ is) (g ∷ gs) = PointsAt ghosts i g × PointAt ghosts is gs

  pub recv_indices :
      (g : Ghosts) (globals : List ℕ)
      → HasSlots g
      → AllIn g.globals globals
      → (indices : List ℕ) × (try_map (recv_index g.slots) globals ≡ ok indices)
        × PointAt g.globals indices globals
  unfolding try_map recv_index
  recv_indices g [] s h = ([], refl, tt)
  recv_indices g (x ∷ xs) s (here, h) =
      let (e, there) = s.found x here in
      let (indices, run, pointing) = recv_indices g xs s h in
      (e ∷ indices, rw (there, run) refl, (s.points x e there, pointing))
