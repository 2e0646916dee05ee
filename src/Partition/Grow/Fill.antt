-- ===== src/Partition/Grow/Fill.antt =====
-- The loop that fills one rank (partition.rs): it ends with as many DOFs as were wanted.
use hybit.Base.{
  ℕ, zero, suc, ◌+◌, ◌≤◌, ◌<◌, ◌≡◌, ◌⊎◌, refl, ap, ◌∙◌, arith, ◌==◌, ltb, if◌then◌else◌, List, [],
  ◌∷◌, length, ok, AllBelow, Bool-cases, inl, inr, ltb→lt, ltb→le, le→ltb,
}
use hybit.Topology.{AbtmTopology, AbtmTopologyRow}
use hybit.Topology.Row.{words}
use hybit.Topology.Valid.{row-eq-ok, cut}
use hybit.Dual
use hybit.Dual.{AbtmDualTopology}
use hybit.Region.Growth.{IsSquare}
use hybit.Partition.{unassigned}
use hybit.Partition.Grow.{
  Growing, AbtmPartitionStats, visit_words, expand_node, expand, grow_round, fill_rank, seed_rank,
}
use hybit.Partition.Grow.Claims.{Filling, visited, seeded}

-- The row that `row` reads.
abbrev pub row_of : AbtmTopology → ℕ → AbtmTopologyRow
row_of t r = record {
  ncols = t.ncols;
  word_indices = cut t r t.word_indices;
  masks = cut t r t.masks;
}

module _ (d : AbtmDualTopology) (n rank target left : ℕ) (others : ℕ → ℕ) (square : IsSquare d n)
    (rank_ok : rank < unassigned) (enough : target ≤ left) where
  abbrev Fills : ℕ → Growing → Type 0
  Fills popped s = Filling n rank target left others popped s

  -- The front of the frontier leaves it.
  popped_one :
      (popped node : ℕ) (frontier : List ℕ) (s : Growing) (stats : AbtmPartitionStats)
      → s.frontier ≡ node ∷ frontier
      → Fills popped s
      → Fills (suc popped) (record s { frontier = frontier; stats = stats })
  popped_one popped node frontier s stats e f =
      let queue : AllBelow n (node ∷ frontier) = rw e at f.queue in
      record {
        size = f.size;
        free = f.free;
        mine = f.mine;
        rest = f.rest;
        queue = queue.1;
        within = f.within;
        pace = omega (arith, f.pace, ap length e);
      }

  abbrev started : List ℕ → Growing → Growing
  started frontier s = record s {
    frontier = frontier;
    stats = record (s.stats) { frontier_nodes_expanded = s.stats.frontier_nodes_expanded + 1 };
  }

  abbrev along_row : ℕ → List ℕ → Growing → Growing
  along_row node frontier s =
      visit_words rank target (started frontier s) (words (row_of d.rows node))

  expanded_node :
      (popped node : ℕ) (frontier : List ℕ) (s : Growing)
      → s.frontier ≡ node ∷ frontier
      → Fills popped s
      → (s' : Growing) × (expand_node d rank target node frontier s ≡ ok s') × Fills (suc popped) s'
  unfolding expand_node Dual.row Dual.column
  expanded_node popped node frontier s e f =
      let queue : AllBelow n (node ∷ frontier) = rw e at f.queue in
      let row = row-eq-ok d.rows node square.rows_ok (omega (arith, queue.0, square.rows_size)) in
      let column =
        row-eq-ok d.columns node square.columns_ok (omega (arith, queue.0, square.columns_size)) in
      let after =
        visited n rank target left others rank_ok (suc popped) (started frontier s)
          (words (row_of d.rows node)) (popped_one popped node frontier s _ e f) in
      elim (Bool-cases ((along_row node frontier s).assigned == target)) [
        | inl full ↦ (along_row node frontier s, rw (row, full) refl, after)
        | inr more ↦ (
          visit_words rank target (along_row node frontier s) (words (row_of d.columns node)),
          rw (row, more, column) refl,
          visited n rank target left others rank_ok (suc popped) _ _ after,
        )
      ]

  round-empty :
      (s s' : Growing) (degree : List ℕ)
      → s.frontier ≡ []
      → seed_rank degree rank s ≡ ok s'
      → grow_round d degree rank target s
        ≡ (if s'.assigned == target then ok s' else expand d rank target s')
  unfolding grow_round
  round-empty s s' degree e seeds = rw (e, grow_round) (rw seeds refl)

  expand-node :
      (s : Growing) (frontier : List ℕ) (node : ℕ)
      → s.frontier ≡ node ∷ frontier
      → expand d rank target s ≡ expand_node d rank target node frontier s
  unfolding expand
  expand-node s frontier node e = rw e refl

  round-node :
      (s : Growing) (degree frontier : List ℕ) (node : ℕ)
      → s.frontier ≡ node ∷ frontier
      → grow_round d degree rank target s ≡ expand_node d rank target node frontier s
  unfolding grow_round expand_node
  round-node s degree frontier node e = rw (e, grow_round) (expand-node s frontier node e)

  -- A round takes a node off the frontier, or fills the rank with a seed.
  Advances : ℕ → Growing → List ℕ → Type 0
  Advances popped s degree =
      (s' : Growing) × (p : ℕ) × (grow_round d degree rank target s ≡ ok s')
      × Fills p s'
      × ((p ≡ suc popped) ⊎ (s'.assigned ≡ target))

  advance_node :
      (popped node : ℕ) (frontier degree : List ℕ) (s : Growing)
      → s.frontier ≡ node ∷ frontier
      → Fills popped s
      → Advances popped s degree
  unfolding Advances
  advance_node popped node frontier degree s e f =
      let (s', run, f') = expanded_node popped node frontier s e f in
      (s', suc popped, round-node s degree frontier node e ∙ run, f', inl refl)

  advance_seed :
      (popped : ℕ) (s : Growing) (degree : List ℕ)
      → length degree ≡ n
      → Fills popped s
      → s.assigned < target
      → s.frontier ≡ []
      → Advances popped s degree
  unfolding Advances
  advance_seed popped s degree sized f room e =
      let (s', seeds, f', one) =
        seeded n rank target left others rank_ok popped degree s f room enough sized in
      elim (Bool-cases (s'.assigned == target)) [
        | inl full ↦
            (s', popped, round-empty s s' degree e seeds ∙ rw full refl, f', inr (ground arith))
        | inr more ↦
            let (node, frontier, front) = one_front s'.frontier (omega (arith, one, ap length e)) in
            let (s'', run, f'') = expanded_node popped node frontier s' front f' in
            (
              s'',
              suc popped,
              round-empty s s' degree e seeds ∙ rw more (expand-node s' frontier node front ∙ run),
              f'',
              inl refl,
            )
      ]
    where
      one_front : (xs : List ℕ) → 0 < length xs → (x : ℕ) × (ys : List ℕ) × (xs ≡ x ∷ ys)
      one_front [] h = absurd (omega arith)
      one_front (x ∷ ys) h = (x, ys, refl)

  advance :
      (popped : ℕ) (s : Growing) (degree : List ℕ)
      → length degree ≡ n
      → Fills popped s
      → s.assigned < target
      → Advances popped s degree
  advance popped s degree sized f room = by_front s.frontier refl
    where
      by_front : (frontier : List ℕ) → s.frontier ≡ frontier → Advances popped s degree
      by_front [] e = advance_seed popped s degree sized f room e
      by_front (node ∷ frontier) e = advance_node popped node frontier degree s e f

  stops :
      (fuel : ℕ) (degree : List ℕ) (s : Growing)
      → target ≤ s.assigned
      → fill_rank fuel d degree rank target s ≡ ok s
  unfolding fill_rank
  stops zero degree s h = rw (le→ltb _ _ h) refl
  stops (suc fuel) degree s h = rw (le→ltb _ _ h) refl

  -- With fuel for the DOFs that are wanted, the loop ends with that many.
  pub fill_rank-Fills :
      (fuel popped : ℕ) (degree : List ℕ) (s : Growing)
      → length degree ≡ n
      → target ≤ fuel + popped
      → Fills popped s
      → (s' : Growing) × (p : ℕ) × (fill_rank fuel d degree rank target s ≡ ok s')
        × Fills p s'
        × (s'.assigned ≡ target)
  unfolding fill_rank Advances
  fill_rank-Fills zero popped degree s sized fuel_ok f =
      (s, popped, stops zero degree s (omega (arith, f.pace)), f, omega (arith, f.pace, f.within))
  fill_rank-Fills (suc fuel) popped degree s sized fuel_ok f =
      elim (Bool-cases (ltb s.assigned target)) [
        | inr full ↦ (s, popped, rw full refl, f, omega (arith, f.within, ltb→le _ _ full))
        | inl room ↦
            let (s', p, round, f', moved) = advance popped s degree sized f (ltb→lt _ _ room) in
            elim moved [
              | inl one ↦
                  let (s'', p', rest, f'', done) =
                    fill_rank-Fills fuel p degree s' sized (omega (arith, one)) f' in
                  (s'', p', rw (room, round) rest, f'', done)
              | inr done ↦ (s', p, rw (room, round) (stops fuel degree s' (omega arith)), f', done)
            ]
      ]
