-- ===== src/Partition/Halo/Made.antt =====
-- The plans that are made of the requests and the notes of all ranks (lib.rs).
use hybit.Base.{
  ℕ, zero, suc, ◌+◌, ◌-◌, ◌≤◌, ◌<◌, ◌≡◌, ◌≢◌, ◌↔◌, refl, sym, ap, ◌∙◌, arith, true, ltb, List, [],
  ◌∷◌, some, length, get_or, range, enumerate, ok, try_map, two_32, has, IsAscending,
  IsAscending-weaken, AllBelow, unwrap_or, Bool-cases, inl, inr, ltb→lt, ltb→le, get_or_beyond,
}
use hybit.SortedMap.{lookup, KeysAscend}
use hybit.Csr.{Csr32Matrix}
use hybit.Csr.Valid.{IsValid}
use hybit.Partition.{ContiguousPartition, contiguous_owner_of}
use hybit.Partition.Offsets.{IsPartition, last_most}
use hybit.Partition.Halo.{
  Requests, Peers, PeerAccumulator, HaloPlan, no_globals, rank_requests, rank_plan,
}
use hybit.Partition.Halo.Filing.{AllRequests, requested, received, sent}
use hybit.Partition.Halo.Wanted.{Wants, next_above, rank_requests-Wants}
use hybit.Partition.Halo.Slots.{all_received}
use hybit.Partition.Halo.Plan.{ArePeerPlans, rank_plan-ArePeerPlans}
use hybit.Partition.Halo.Notes.{
  AllEntries-of_lookup, AllEntries-SendWithin, below_of_has, length-IsAscending, InFloors,
  all_received-IsAscending, received_from, received_in, message_to, message_from,
  messages-ArePeerPlans,
}
use hybit.Partition.Halo.Whole.{
  ranks, off, Referenced, no_plan, ArePeerPlans-ArePlaced, IsHaloPlan, plans_all,
}
use hybit.Partition.Halo.Ranges.{bounds_of, owner_bounds, owner_exists, floor, floor_in, floor_mono}

module _ (matrix : Csr32Matrix) (well : IsValid matrix) (p : ContiguousPartition)
    (v : IsPartition p) (square : matrix.nrows ≡ matrix.ncols)
    (sizes : matrix.nrows ≡ p.global_dofs) (fits : matrix.nrows + matrix.nrows ≤ two_32) where
  abbrev pub Asked : ℕ → Requests → Type 0
  Asked r = Wants p r (Referenced matrix p r)

  asks :
      (r : ℕ)
      → suc r < length p.offsets
      → (requests : Requests) × (rank_requests matrix p r ≡ ok requests) × Asked r requests
  asks r lt =
      rank_requests-Wants matrix well p v square sizes r (off p r) (off p (suc r))
        (omega (arith, fits)) (bounds_of p v r lt)

  pub all_ask :
      (m k : ℕ)
      → k + m ≡ ranks p
      → (requests : List Requests) × (try_map (rank_requests matrix p) (range k m) ≡ ok requests)
        × (length requests ≡ m)
        × AllRequests (ranks p) requests
        × ((i : ℕ) → i < m → Asked (k + i) (get_or requests i []))
  unfolding try_map
  all_ask zero k e = ([], refl, refl, tt, λ i lt. absurd (omega arith))
  all_ask (suc m) k e =
      let (one, run, w) = asks k (omega arith) in
      let (more, runs, size, all, each) = all_ask m (suc k) (omega arith) in
      (
        one ∷ more,
        rw (run, runs) refl,
        ap suc size,
        (w.keys, w.ranks, all),
        nth k m one more w each,
      )
    where
      nth :
          (k m : ℕ) (one : Requests) (more : List Requests)
          → Asked k one
          → ((i : ℕ) → i < m → Asked (suc k + i) (get_or more i []))
          → (i : ℕ) → i < suc m
          → Asked (k + i) (get_or (one ∷ more) i [])
      nth k m one more w each zero lt = let e : k ≡ k + 0 = omega arith in rw e at w
      nth k m one more w each (suc i) lt =
          let e : suc k + i ≡ k + suc i = omega arith in rw e at (each i (omega arith))

  pub column_inside : (r g : ℕ) → r < ranks p → Referenced matrix p r g → g < p.global_dofs
  column_inside r g lt (position, from, to, same) =
      let last = last_most 0 p.offsets (suc r) p.global_dofs v.ascending (omega arith) v.last in
      let most =
        well.ascends (off p (suc r)) matrix.nrows (omega (arith, last, sizes)) (omega arith) in
      omega (
        arith,
        well.columns position (omega (arith, to, most, well.ends, well.entries)),
        same,
        square,
        sizes,
      )

  -- The requests of all ranks, and the notes of them.
  module _ (requests : List Requests) (size : length requests ≡ ranks p)
      (each : (r : ℕ) → r < ranks p → Asked r (get_or requests r [])) (notes : List Peers)
      (counted : length notes ≡ ranks p)
      (receives : (a b : ℕ) → received notes a b ≡ requested requests a b)
      (sends : (a b : ℕ) → sent notes a b ≡ requested requests b a)
      (keys : (a : ℕ) → KeysAscend 0 (get_or notes a [])) where
    asked_none : (b a : ℕ) → ranks p ≤ b → requested requests b a ≡ []
    unfolding lookup
    asked_none b a out =
        ap (λ m. unwrap_or (lookup a m) []) (get_or_beyond requests b [] (omega (arith, size)))

    -- What is requested, for any two numbers.
    asked :
        (b a g : ℕ)
        → (has (requested requests b a) g ≡ true)
          ↔ ((b < ranks p) × (a ≢ b) × (contiguous_owner_of p g ≡ ok a) × Referenced matrix p b g)
    asked b a g = elim (Bool-cases (ltb b (ranks p))) [
      | inl inside ↦
          let lt = ltb→lt _ _ inside in
          let exact = (each b lt).exact a g in
          (
            λ h. let (other, own, seen) = exact.0 h in (lt, other, own, seen),
            λ (_, other, own, seen). exact.1 (other, own, seen),
          )
      | inr out ↦
          let le = ltb→le _ _ out in
          (
            λ h. absurd (cc (ap (λ xs. has xs g) (asked_none b a le), h)),
            λ (lt, _, _, _). absurd (omega arith),
          )
    ]

    -- The entries of a rank's notes.
    abbrev Kept : ℕ → ℕ → PeerAccumulator → Type 0
    Kept r k a =
        (a.recv_globals ≡ requested requests r k) × (a.send_globals ≡ requested requests k r)

    kept :
        (r : ℕ) (k : ℕ) (a : PeerAccumulator) → lookup k (get_or notes r []) ≡ some a → Kept r k a
    kept r k a there = (
      ap (λ o. (unwrap_or o no_globals).recv_globals) (sym there) ∙ receives r k,
      ap (λ o. (unwrap_or o no_globals).send_globals) (sym there) ∙ sends r k,
    )

    asked-IsAscending : (r k : ℕ) → IsAscending 0 (requested requests r k)
    asked-IsAscending r k = elim (Bool-cases (ltb r (ranks p))) [
      | inl inside ↦ (each r (ltb→lt _ _ inside)).ascending k
      | inr out ↦ rw (asked_none r k (ltb→le _ _ out)) tt
    ]

    -- The plan of rank r is made of its notes.
    record IsPlanned (r : ℕ) (plan : HaloPlan) : Type 0 where
      rank_is : plan.rank ≡ r
      range_is : plan.owned ≡ (off p r, off p (suc r))
      ghosts_are : plan.ghost_globals ≡ all_received (get_or notes r [])
      peers_are :
          ArePeerPlans
            (off p (suc r) - off p r)
            (off p r)
            plan.ghost_globals
            (get_or notes r [])
            plan.peers

    send_bounds :
        (r : ℕ) (k : ℕ) (a : PeerAccumulator)
        → Kept r k a
        → (x : ℕ) → has a.send_globals x ≡ true
        → (off p r ≤ x) × (x < off p (suc r))
    send_bounds r k a (_, same) x h =
        let own = ((asked k r x).0 (sym (ap (λ xs. has xs x) same) ∙ h)).2 in
        let (_, le, lt, _) = owner_bounds p v x r own in (le, lt)

    in_floors :
        (r : ℕ) (k : ℕ) (a : PeerAccumulator)
        → Kept r k a
        → InFloors (floor p v) (floor_mono p v) k a
    in_floors r k a (same, _) = (
      rw same (asked-IsAscending r k),
      λ x h.
          let own = ((asked r k x).0 (sym (ap (λ xs. has xs x) same) ∙ h)).2 in
          let (inside, le, lt, _) = owner_bounds p v x k own in
          (
            omega (arith, floor_in p v k (omega arith), le),
            omega (arith, floor_in p v (suc k) inside, lt),
          ),
    )

    ghosts-IsAscending : (r : ℕ) → IsAscending 0 (all_received (get_or notes r []))
    ghosts-IsAscending r =
        IsAscending-weaken 0 ((floor p v) 0) (all_received (get_or notes r [])) (omega arith) (
          all_received-IsAscending (floor p v) (floor_mono p v) 0 (get_or notes r []) (keys r) (
            AllEntries-of_lookup _ 0 (get_or notes r []) (keys r)
              (λ k a there. in_floors r k a (kept r k a there))))

    ghosts_below : (r : ℕ) → AllBelow p.global_dofs (all_received (get_or notes r []))
    ghosts_below r = below_of_has p.global_dofs (all_received (get_or notes r [])) (λ g h.
        let (k, a, there, has_it) = received_from 0 (get_or notes r []) g (keys r) h in
        let own = ((asked r k g).0 (sym (ap (λ xs. has xs g) (kept r k a there).0) ∙ has_it)).2 in
        (owner_bounds p v g k own).3)

    planned :
        (r : ℕ)
        → r < ranks p
        → (plan : HaloPlan) × (rank_plan p (r, get_or notes r []) ≡ ok plan) × IsPlanned r plan
    planned r lt =
        let inside : suc r < length p.offsets = omega arith in
        let ordered = next_above 0 p.offsets r v.ascending inside in
        let last = last_most 0 p.offsets (suc r) p.global_dofs v.ascending inside v.last in
        let room =
          length-IsAscending 0 p.global_dofs (all_received (get_or notes r [])) (omega arith)
            (ghosts-IsAscending r) (ghosts_below r) in
        let (plan, run, a, b, c, d) =
          rank_plan-ArePeerPlans p r (off p r) (off p (suc r)) (get_or notes r [])
            (omega (arith, v.few)) (bounds_of p v r inside) ordered
            (omega (arith, last, sizes, fits)) (omega (arith, last, sizes, fits, room))
            (AllEntries-SendWithin (off p r) (off p (suc r)) (get_or notes r []) (
              AllEntries-of_lookup _ 0 (get_or notes r []) (keys r)
                (λ k a there. send_bounds r k a (kept r k a there)))) in
        (plan, run, record { rank_is = a; range_is = b; ghosts_are = c; peers_are = d })

    messages :
        (r b : ℕ) (plan : HaloPlan)
        → IsPlanned r plan
        → (message_to b plan.peers ≡ requested requests b r)
          × (message_from b plan.peers ≡ requested requests r b)
    messages r b plan q =
        let (to, from) =
          messages-ArePeerPlans (off p (suc r) - off p r) (off p r) b plan.ghost_globals
            (get_or notes r []) plan.peers q.peers_are in
        (to ∙ sends r b, from ∙ receives r b)

    -- A global that the rows refer to and another rank owns is a ghost.
    ghost_in :
        (r g : ℕ)
        → r < ranks p
        → contiguous_owner_of p g ≢ ok r
        → Referenced matrix p r g
        → has (all_received (get_or notes r [])) g ≡ true
    ghost_in r g lt other seen =
        let (o, own) = owner_exists p v g (column_inside r g lt seen) in
        let apart : o ≢ r = λ e. other (own ∙ ap ok e) in
        received_in o (get_or notes r []) g
          (ap (λ xs. has xs g) (receives r o) ∙ (asked r o g).1 (lt, apart, own, seen))

    ghost_of :
        (r g : ℕ)
        → has (all_received (get_or notes r [])) g ≡ true
        → (contiguous_owner_of p g ≢ ok r) × Referenced matrix p r g
    ghost_of r g h =
        let (k, a, there, has_it) = received_from 0 (get_or notes r []) g (keys r) h in
        let (_, apart, own, seen) =
          (asked r k g).0 (sym (ap (λ xs. has xs g) (kept r k a there).0) ∙ has_it) in
        (λ e. apart (cc (e, own)), seen)

    planned-IsHaloPlan :
        (r : ℕ) (plan : HaloPlan) → r < ranks p → IsPlanned r plan → IsHaloPlan matrix p r plan
    planned-IsHaloPlan r plan lt q = record {
      rank_is = q.rank_is;
      range_is = bounds_of p v r (omega arith) ∙ ap ok (sym q.range_is);
      ghosts_ascend = rw q.ghosts_are (ghosts-IsAscending r);
      ghosts_are = λ g. (
        λ h. ghost_of r g (sym (ap (λ xs. has xs g) q.ghosts_are) ∙ h),
        λ (other, seen). ap (λ xs. has xs g) q.ghosts_are ∙ ghost_in r g lt other seen,
      );
      received_are = λ b g. (
        λ h.
            let (_, other, own, seen) =
              (asked r b g).0 (sym (ap (λ xs. has xs g) (messages r b plan q).1) ∙ h) in
            (other, own, seen),
        λ (other, own, seen).
            ap (λ xs. has xs g) (messages r b plan q).1 ∙ (asked r b g).1 (lt, other, own, seen),
      );
      placed = rw (q.range_is) (
          ArePeerPlans-ArePlaced (off p (suc r) - off p r) (off p r) plan.ghost_globals
            (get_or notes r []) plan.peers q.peers_are);
    }

    all-IsPlanned :
        (plans : List HaloPlan) × (try_map (rank_plan p) (enumerate 0 notes) ≡ ok plans)
        × (length plans ≡ ranks p)
        × ((r : ℕ) → r < ranks p → IsPlanned r (get_or plans r no_plan))
    all-IsPlanned =
        let (plans, run, size, each) =
          plans_all p IsPlanned notes 0 (λ i lt.
            let e : 0 + i ≡ i = omega arith in rw e (planned i (omega (arith, counted)))) in
        (
          plans,
          run,
          size ∙ counted,
          λ r lt. let e : 0 + r ≡ r = omega arith in rw e at (each r (omega (arith, counted))),
        )

    -- The plans of all ranks, and their messages.
    pub delivers :
        (plans : List HaloPlan) × (try_map (rank_plan p) (enumerate 0 notes) ≡ ok plans)
        × (length plans ≡ ranks p)
        × ((r : ℕ) → r < ranks p → IsHaloPlan matrix p r (get_or plans r no_plan))
        × ((a b : ℕ)
            → a < ranks p
            → b < ranks p
            → message_to b (get_or plans a no_plan).peers
              ≡ message_from a (get_or plans b no_plan).peers)
    delivers =
        let (plans, run, many, made) = all-IsPlanned in
        (
          plans,
          run,
          many,
          λ r lt. planned-IsHaloPlan r (get_or plans r no_plan) lt (made r lt),
          λ a b a_in b_in.
              (messages a b (get_or plans a no_plan) (made a a_in)).0
              ∙ sym (messages b a (get_or plans b no_plan) (made b b_in)).1,
        )
