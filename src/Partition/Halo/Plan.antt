-- ===== src/Partition/Halo/Plan.antt =====
-- What `rank_plan` makes of the notes of a rank.
use hybit.Base.{
  ℕ, ◌+◌, ◌-◌, ◌%◌, ◌≤◌, ◌<◌, ◌≡◌, refl, ◌∙◌, arith, true, false, leb, List, [], ◌∷◌, map, length,
  ok, try_map, two_32, has, le→leb, has-append,
}
use hybit.SortedMap.{lookup}
use hybit.Partition.{ContiguousPartition, owned_range}
use hybit.Partition.Halo.{
  Peers, PeerAccumulator, HaloPeerPlan, HaloPlan, Ghosts, peer_plan, rank_plan,
}
use hybit.Partition.Halo.Slots.{
  AllWithin, send_indices, PointAt, HasSlots, all_received, adds_all, recv_indices, all_in, either,
  left,
}

abbrev pub SendWithin : ℕ → ℕ → Peers → Type 0
SendWithin start end [] = Unit
SendWithin start end ((k, a) ∷ m) = AllWithin start end a.send_globals × SendWithin start end m

module _ (own : ℕ) where
  -- The plans for the peers, one by one: what is noted, and the indices of both messages.
  pub record IsPeerPlan (start : ℕ) (ghosts : List ℕ) (peer : ℕ) (a : PeerAccumulator)
      (q : HaloPeerPlan) : Type 0 where
    pub peer_is : q.peer ≡ peer
    pub sends : q.send_globals ≡ a.send_globals
    pub receives : q.recv_globals ≡ a.recv_globals
    pub send_indices_are : q.send_owned_indices ≡ map (λ g. g - start) a.send_globals
    pub recv_indices_are : PointAt own ghosts q.recv_extended_indices a.recv_globals

  abbrev pub ArePeerPlans : ℕ → List ℕ → Peers → List HaloPeerPlan → Type 0
  ArePeerPlans start ghosts [] [] = Unit
  ArePeerPlans start ghosts [] (q ∷ qs) = ⊥
  ArePeerPlans start ghosts ((k, a) ∷ m) [] = ⊥
  ArePeerPlans start ghosts ((k, a) ∷ m) (q ∷ qs) =
      IsPeerPlan start ghosts k a q × ArePeerPlans start ghosts m qs

  peers_planned :
      (start end : ℕ) (g : Ghosts) (m : Peers)
      → end - start ≤ two_32
      → HasSlots own g
      → SendWithin start end m
      → ((x : ℕ) → has (all_received m) x ≡ true → has g.globals x ≡ true)
      → (qs : List HaloPeerPlan) × (try_map (peer_plan (start, end) g.slots) m ≡ ok qs)
        × ArePeerPlans start g.globals m qs
  unfolding try_map peer_plan
  peers_planned start end g [] fits s within known = ([], refl, tt)
  peers_planned start end g ((k, a) ∷ m) fits s (here, within) known =
      let (indices, run, pointing) = recv_indices own g a.recv_globals s (
        all_in g.globals a.recv_globals (λ x h.
          known x
            (has-append a.recv_globals (all_received m) x ∙ left (has a.recv_globals x) _ h))) in
      let (qs, more_run, planned) = peers_planned start end g m fits s within (λ x h.
        known x
          (has-append a.recv_globals (all_received m) x ∙ either (has a.recv_globals x) _ h)) in
      (
        record {
          peer = k;
          send_globals = a.send_globals;
          send_owned_indices = map (λ g. g - start) a.send_globals;
          recv_globals = a.recv_globals;
          recv_extended_indices = indices;
        }
            ∷ qs,
        rw (send_indices start end a.send_globals fits here, run, more_run) refl,
        (
          record {
            peer_is = refl;
            sends = refl;
            receives = refl;
            send_indices_are = refl;
            recv_indices_are = pointing;
          },
          planned,
        ),
      )

no_slots : (own : ℕ) → HasSlots own (record { globals = []; owners = []; slots = [] })
unfolding lookup
no_slots own = record { sorted = tt; points = λ x e h. absurd (cc h); found = λ x h. absurd (cc h) }

-- For a rank with its owned range, the DOFs of which and the ghosts together fit u32, and notes by which
-- it only sends what it owns: `rank_plan` returns its plan, in which the ghosts are the globals
-- it receives, peer by peer, each message to a peer is taken from the places of its globals in the
-- owned range, and each message from a peer goes to places at which the ghosts have its globals.
pub rank_plan-ArePeerPlans :
    (partition : ContiguousPartition) (r start end : ℕ) (m : Peers)
    → r < two_32
    → owned_range partition r ≡ ok (start, end)
    → start ≤ end
    → end - start < two_32
    → end - start + length (all_received m) ≤ two_32
    → SendWithin start end m
    → (plan : HaloPlan) × (rank_plan partition (r, m) ≡ ok plan)
      × (plan.rank ≡ r)
      × (plan.owned ≡ (start, end))
      × (plan.ghost_globals ≡ all_received m)
      × ArePeerPlans (end - start) start plan.ghost_globals m plan.peers
unfolding rank_plan
rank_plan-ArePeerPlans partition r start end m small bounds ordered narrow fits within =
    let own = end - start in
    let same : r % two_32 ≡ r = omega arith in
    let wide : leb two_32 (end - start) ≡ false = ground arith in
    let (g, ghosts_run, s, e) =
      adds_all own m (record { globals = []; owners = []; slots = [] }) (omega arith)
        (no_slots own) in
    let (qs, peers_run, planned) =
      peers_planned own start end g m (omega arith) s within (λ x h. rw e h) in
    (
      record {
        rank = r;
        owned = (start, end);
        ghost_globals = g.globals;
        ghost_owners = g.owners;
        peers = qs;
      },
      rw (same, bounds, le→leb start end ordered, wide, ghosts_run, peers_run) refl,
      refl,
      refl,
      e,
      planned,
    )
