-- ===== src/Partition/Assignment.antt =====
-- What `PartitionAssignment::from_owners` (partition.rs) accepts.
use hybit.Base.{
  ℕ, zero, suc, ◌+◌, ◌≤◌, ◌<◌, ◌≡◌, ◌≢◌, ◌↔◌, refl, ap, ◌∙◌, arith, Bool, false, ◌||◌, ◌==◌, ltb,
  leb, List, [], ◌∷◌, length, get_or, set, replicate, any, ok, fail_if, try_fold, AllBelow,
  get_or-set, length-set, get_or-replicate, length-replicate, at-eq-ok, >>=-eq-ok, fail_if-eq-ok,
  ltb→le, lt→ltb, le→ltb, ne→==, Bool-cases, inl, inr, if◌then◌else◌,
}
use hybit.Partition.{
  PartitionAssignment, unassigned, rank_out_of_range, count_owner, from_owners, count_of,
}

-- A loop over `owners` that adds their counts, where all are ranks.
record Counts (ranks : ℕ) (counts counts' owners : List ℕ) : Type 0 where
  same_length : length counts' ≡ ranks
  added : (r : ℕ) → r < ranks → get_or counts' r 0 ≡ get_or counts r 0 + count_of r owners

count_owner-runs :
    (ranks owner : ℕ) (counts : List ℕ)
    → length counts ≡ ranks
    → owner < ranks
    → count_owner ranks counts owner ≡ ok (set counts owner (get_or counts owner 0 + 1))
unfolding count_owner
count_owner-runs ranks owner counts size h =
    let inside : leb ranks owner ≡ false = ground arith in
    rw (inside, at-eq-ok counts owner 0 (omega arith), lt→ltb owner (length counts) (omega arith))
      refl

one_more :
    (counts : List ℕ) (owner r : ℕ)
    → owner < length counts
    → get_or (set counts owner (get_or counts owner 0 + 1)) r 0
      ≡ get_or counts r 0 + (if owner == r then 1 else 0)
one_more counts owner r h = elim (Bool-cases (owner == r)) [
  | inl here ↦
      let e : owner ≡ r = ground arith in
      rw (get_or-set counts owner r (get_or counts owner 0 + 1) 0 h, here, e) refl
  | inr other ↦ rw (get_or-set counts owner r (get_or counts owner 0 + 1) 0 h, other) (omega arith)
]

counting :
    (ranks : ℕ) (owners counts : List ℕ)
    → length counts ≡ ranks
    → AllBelow ranks owners
    → (counts' : List ℕ) × (try_fold (count_owner ranks) counts owners ≡ ok counts')
      × Counts ranks counts counts' owners
unfolding try_fold
counting ranks [] counts size h =
    (counts, refl, record { same_length = size; added = λ r lt. omega arith })
counting ranks (owner ∷ owners) counts size h =
    let next = set counts owner (get_or counts owner 0 + 1) in
    let (counts', run, c) = counting ranks owners next (length-set counts owner _ ∙ size) h.1 in
    (
      counts',
      rw (count_owner-runs ranks owner counts size h.0) run,
      record {
        same_length = c.same_length;
        added = λ r lt. c.added r lt ∙ rw (one_more counts owner r (omega arith)) (omega arith);
      },
    )

counted_rank :
    (ranks owner : ℕ) (counts next : List ℕ)
    → count_owner ranks counts owner ≡ ok next
    → owner < ranks
unfolding count_owner
counted_rank ranks owner counts next h =
    let (_, p, _) = >>=-eq-ok (fail_if (leb ranks owner) (rank_out_of_range owner ranks)) _ h in
    below ranks owner (fail_if-eq-ok _ _ p)
  where
    below : (a b : ℕ) → leb a b ≡ false → b < a
    below a b h = ground arith

counts_inv :
    (ranks : ℕ) (owners counts counts' : List ℕ)
    → length counts ≡ ranks
    → try_fold (count_owner ranks) counts owners ≡ ok counts'
    → AllBelow ranks owners
unfolding try_fold
counts_inv ranks [] counts counts' size h = tt
counts_inv ranks (owner ∷ owners) counts counts' size h =
    let (next, one, more) = >>=-eq-ok (count_owner ranks counts owner) _ h in
    let lt : owner < ranks = counted_rank ranks owner counts next one in
    let e : next ≡ set counts owner (get_or counts owner 0 + 1) =
      cc (count_owner-runs ranks owner counts size lt, one) in
    let same : length next ≡ ranks = ap length e ∙ length-set counts owner _ ∙ size in
    (lt, counts_inv ranks owners next counts' same more)

any_zero :
    (counts : List ℕ)
    → any (λ count. count == 0) counts ≡ false
    → (r : ℕ) → r < length counts
    → 0 < get_or counts r 0
any_zero [] h r lt = absurd (omega arith)
any_zero (c ∷ counts) h zero lt = ground arith
any_zero (c ∷ counts) h (suc r) lt = any_zero counts (ground arith) r (omega arith)

no_zero :
    (counts : List ℕ)
    → ((r : ℕ) → r < length counts → 0 < get_or counts r 0)
    → any (λ count. count == 0) counts ≡ false
no_zero [] h = refl
no_zero (c ∷ counts) h =
    ground (arith, h 0 (omega arith), no_zero counts (λ r lt. h (suc r) (omega arith)))

-- Every owner is a rank, and every rank owns a DOF.
pub record IsAssignment (a : PartitionAssignment) : Type 0 where
  pub some_rank : 0 < a.ranks
  pub marked : a.ranks ≢ unassigned
  pub enough : a.ranks ≤ length a.owners
  pub in_ranks : AllBelow a.ranks a.owners
  pub inhabited : (r : ℕ) → r < a.ranks → 0 < count_of r a.owners

from_owners-IsAssignment :
    (ranks : ℕ) (owners : List ℕ) (a : PartitionAssignment)
    → from_owners ranks owners ≡ ok a
    → (a ≡ record { ranks = ranks; owners = owners })
      × IsAssignment (record { ranks = ranks; owners = owners })
unfolding from_owners
from_owners-IsAssignment ranks owners a h =
    let (_, p1, h1) =
      >>=-eq-ok (fail_if ((ranks == 0) || (ranks == unassigned) || (length owners == 0)) _) _ h in
    let (_, p2, h2) = >>=-eq-ok (fail_if (ltb (length owners) ranks) _) _ h1 in
    let (counts, run, h3) =
      >>=-eq-ok (try_fold (count_owner ranks) (replicate ranks 0) owners) _ h2 in
    let (_, p4, h4) = >>=-eq-ok (fail_if (any (λ count. count == 0) counts) _) _ h3 in
    let sane = fail_if-eq-ok _ _ p1 in
    let below = counts_inv ranks owners _ counts (length-replicate ranks 0) run in
    let (counts', run', c) = counting ranks owners _ (length-replicate ranks 0) below in
    let same : counts' ≡ counts = cc (run', run) in
    (
      cc h4,
      record {
        some_rank = positive _ _ _ sane;
        marked = unmarked _ _ sane;
        enough = ltb→le _ _ (fail_if-eq-ok _ _ p2);
        in_ranks = below;
        inhabited = λ r lt.
            let total =
              any_zero counts' (rw same (fail_if-eq-ok _ _ p4)) r (omega (arith, c.same_length)) in
            omega (arith, total, c.added r lt, get_or-replicate {A = ℕ} ranks r 0);
      },
    )
  where
    positive : (n : ℕ) (b c : Bool) → ((n == 0) || b || c) ≡ false → 0 < n
    positive n b c h = ground arith

    unmarked : (n : ℕ) (b : Bool) → ((n == 0) || (n == unassigned) || b) ≡ false → n ≢ unassigned
    unmarked n b h = ground arith

pub IsAssignment-from_owners :
    (a : PartitionAssignment) → IsAssignment a → from_owners a.ranks a.owners ≡ ok a
unfolding from_owners
IsAssignment-from_owners a v =
    let (counts, run, c) = counting a.ranks a.owners _ (length-replicate a.ranks 0) v.in_ranks in
    let sane : ((a.ranks == 0) || (a.ranks == unassigned) || (length a.owners == 0)) ≡ false =
      rw
        (
          ne→== a.ranks 0 (λ e. omega (arith, v.some_rank, e)),
          ne→== a.ranks unassigned v.marked,
          ne→== (length a.owners) 0 (λ e. omega (arith, v.some_rank, v.enough, e)),
        )
        refl in
    let full : any (λ count. count == 0) counts ≡ false = no_zero counts (λ r lt.
      let inside : r < a.ranks = omega (arith, c.same_length) in
      omega (arith, c.added r inside, v.inhabited r inside)) in
    rw (sane, le→ltb _ _ v.enough, run, full) refl

-- `from_owners` returns an assignment exactly when it has that number of ranks and those owners, the
-- ranks are not zero, not the marker of a DOF without owner and not more than the DOFs, every owner is
-- a rank, and every rank owns a DOF.
pub from_owners_iff :
    (ranks : ℕ) (owners : List ℕ) (a : PartitionAssignment)
    → (from_owners ranks owners ≡ ok a)
      ↔ ((a ≡ record { ranks = ranks; owners = owners }) × IsAssignment a)
from_owners_iff ranks owners a = (
  λ run. let (e, v) = from_owners-IsAssignment ranks owners a run in (e, rw e v),
  λ (e, v). let here = rw e at v in rw e (IsAssignment-from_owners _ here),
)
