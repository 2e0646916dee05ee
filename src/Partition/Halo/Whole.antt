-- ===== src/Partition/Halo/Whole.antt =====
-- What the halo plans of all ranks are to be (`build_contiguous_halo_plans`, lib.rs).
use hybit.Base.{
  ℕ, zero, suc, ◌+◌, ◌-◌, ◌<◌, ◌≡◌, ◌≢◌, ◌↔◌, refl, sym, ap, ◌∙◌, arith, true, List, [], ◌∷◌, map,
  length, get_or, enumerate, ok, try_map, has, IsAscending,
}
use hybit.Csr.{Csr32Matrix}
use hybit.Partition.{ContiguousPartition, contiguous_owner_of, owned_range}
use hybit.Partition.Halo.{Peers, HaloPlan, HaloPeerPlan, rank_plan}
use hybit.Partition.Halo.Wanted.{Seen}
use hybit.Partition.Halo.Slots.{PointAt}
use hybit.Partition.Halo.Plan.{ArePeerPlans}
use hybit.Partition.Halo.Notes.{message_from}

-- A plan that stands for none.
abbrev pub no_plan : HaloPlan
no_plan = record { rank = 0; owned = (0, 0); ghost_globals = []; ghost_owners = []; peers = [] }

-- The number of ranks, and where the range of a rank starts.
abbrev pub ranks : ContiguousPartition → ℕ
ranks p = length p.offsets - 1

abbrev pub off : ContiguousPartition → ℕ → ℕ
off p r = get_or p.offsets r 0

-- The columns of the entries in the rows that rank r owns.
abbrev pub Referenced : Csr32Matrix → ContiguousPartition → ℕ → ℕ → Type 0
Referenced matrix p r =
    Seen matrix (get_or matrix.row_ptr (off p r) 0) (get_or matrix.row_ptr (off p (suc r)) 0)

-- The indices of each peer's messages: the places of what is sent in the owned range, and places at
-- which the ghosts have what is received.
abbrev pub ArePlaced : ℕ → ℕ → List ℕ → List HaloPeerPlan → Type 0
ArePlaced own start ghosts [] = Unit
ArePlaced own start ghosts (q ∷ qs) =
    (q.send_owned_indices ≡ map (λ g. g - start) q.send_globals)
    × PointAt own ghosts q.recv_extended_indices q.recv_globals
    × ArePlaced own start ghosts qs

pub ArePeerPlans-ArePlaced :
    (own start : ℕ) (ghosts : List ℕ) (m : Peers) (qs : List HaloPeerPlan)
    → ArePeerPlans own start ghosts m qs
    → ArePlaced own start ghosts qs
ArePeerPlans-ArePlaced own start ghosts [] [] h = tt
ArePeerPlans-ArePlaced own start ghosts [] (q ∷ qs) h = absurd h
ArePeerPlans-ArePlaced own start ghosts (e ∷ m) [] h = absurd h
ArePeerPlans-ArePlaced own start ghosts ((k, a) ∷ m) (q ∷ qs) (here, h) = (
  here.send_indices_are ∙ ap (map (λ g. g - start)) (sym here.sends),
  rw (sym here.receives) at here.recv_indices_are,
  ArePeerPlans-ArePlaced own start ghosts m qs h,
)

-- The halo plan of rank r: its ghosts are the columns that its rows refer to and others own, in
-- ascending order; from each peer it receives those that the peer owns.
pub record IsHaloPlan (matrix : Csr32Matrix) (p : ContiguousPartition) (r : ℕ) (plan : HaloPlan)
    : Type 0 where
  pub rank_is : plan.rank ≡ r
  pub range_is : owned_range p r ≡ ok plan.owned
  pub ghosts_ascend : IsAscending 0 plan.ghost_globals
  pub ghosts_are :
      (g : ℕ)
      → (has plan.ghost_globals g ≡ true)
        ↔ ((contiguous_owner_of p g ≢ ok r) × Referenced matrix p r g)
  pub received_are :
      (b g : ℕ)
      → (has (message_from b plan.peers) g ≡ true)
        ↔ ((b ≢ r) × (contiguous_owner_of p g ≡ ok b) × Referenced matrix p r g)
  pub placed : ArePlaced (plan.owned.1 - plan.owned.0) plan.owned.0 plan.ghost_globals plan.peers

pub plans_all :
    (p : ContiguousPartition) (Q : ℕ → HaloPlan → Type 0) (notes : List Peers) (k : ℕ)
    → ((i : ℕ)
        → i < length notes
        → (plan : HaloPlan) × (rank_plan p (k + i, get_or notes i []) ≡ ok plan) × Q (k + i) plan)
    → (plans : List HaloPlan) × (try_map (rank_plan p) (enumerate k notes) ≡ ok plans)
      × (length plans ≡ length notes)
      × ((i : ℕ) → i < length notes → Q (k + i) (get_or plans i no_plan))
unfolding try_map
plans_all p Q [] k each = ([], refl, refl, λ i lt. absurd (omega arith))
plans_all p Q (m ∷ notes) k each =
    let (plan, run, q) = each 0 (omega arith) in
    let start : k + 0 ≡ k = omega arith in
    let (plans, runs, size, rest) = plans_all p Q notes (suc k) (λ i lt.
      let e : k + suc i ≡ suc k + i = omega arith in rw e at (each (suc i) (omega arith))) in
    (plan ∷ plans, rw (rw start at run, runs) refl, ap suc size, nth plan plans q rest)
  where
    nth :
        (plan : HaloPlan) (plans : List HaloPlan)
        → Q (k + 0) plan
        → ((i : ℕ) → i < length notes → Q (suc k + i) (get_or plans i no_plan))
        → (i : ℕ) → i < suc (length notes)
        → Q (k + i) (get_or (plan ∷ plans) i no_plan)
    nth plan plans q rest zero lt = q
    nth plan plans q rest (suc i) lt =
        let e : suc k + i ≡ k + suc i = omega arith in rw e at (rest i (omega arith))
