-- ===== src/Region.antt =====
-- crates/hybit-matrix/src/region.rs: regions of degrees of freedom over a dual topology. Growth
-- is here; `Multiplicity`, `Pattern` and `Plan` have the other three operations.
pub mod Hops
pub mod Growth
pub mod Steps
pub mod Reach
pub mod Multiplicity
pub mod Counts
pub mod Summary
pub mod Covered
pub mod Pairs
pub mod Pattern
pub mod Plan
use hybit.Base.{
  ℕ, zero, suc, ◌+◌, ◌-◌, Bool, true, false, not, ◌==◌, if◌then◌else◌, List, [], ◌∷◌, length, foldl,
  ok, fail_if, ◌>>=◌, ◌>>◌, try_fold, saturating_add, two_64,
}
use hybit.Core.{invalid_matrix, dimension_mismatch, Result}
use hybit.Mask
use hybit.Mask.{DofMask, mask_count_ones, is_empty, indices, or_word, and_not_assign, union_assign}
use hybit.Topology.{AbtmTopologyRow}
use hybit.Topology.Row.{AbtmTopologyWord, popcount, words}
use hybit.Dual
use hybit.Dual.{AbtmDualTopology}

pub record AbtmRegionGrowthStats : Type 0 where
  pub hops_requested : ℕ
  pub hops_completed : ℕ
  pub seed_nodes : ℕ
  pub region_nodes : ℕ
  pub frontier_nodes_visited : ℕ
  pub row_words_visited : ℕ
  pub column_words_visited : ℕ
  pub candidate_neighbor_bits : ℕ

unfoldable pub topology_words_visited : AbtmRegionGrowthStats → ℕ
topology_words_visited s = saturating_add two_64 s.row_words_visited s.column_words_visited

unfoldable pub new_nodes : AbtmRegionGrowthStats → ℕ
new_nodes s = s.region_nodes - s.seed_nodes

pub record AbtmRegionGrowth : Type 0 where
  pub region : DofMask
  pub frontier : DofMask
  pub stats : AbtmRegionGrowthStats

-- What a hop collects: the mask `next`, and the counters.
pub record Hop : Type 0 where
  pub next : DofMask
  pub stats : AbtmRegionGrowthStats

-- One word of a row, and one word of a column.
abbrev pub add_row_word : Hop → AbtmTopologyWord → Hop
add_row_word h w = record {
  next = or_word h.next w.word_index w.mask;
  stats = record (h.stats) {
    row_words_visited = saturating_add two_64 h.stats.row_words_visited 1;
    candidate_neighbor_bits = saturating_add two_64 h.stats.candidate_neighbor_bits (popcount w);
  };
}

abbrev pub add_column_word : Hop → AbtmTopologyWord → Hop
add_column_word h w = record {
  next = or_word h.next w.word_index w.mask;
  stats = record (h.stats) {
    column_words_visited = saturating_add two_64 h.stats.column_words_visited 1;
    candidate_neighbor_bits = saturating_add two_64 h.stats.candidate_neighbor_bits (popcount w);
  };
}

-- The neighbours of one frontier node.
unfoldable pub visit_node : AbtmDualTopology → Hop → ℕ → Result Hop
visit_node topology h node = do
  row ← Dual.row topology node
  let h' = foldl add_row_word h (words row)
  column ← Dual.column topology node
  ok (foldl add_column_word h' (words column))

-- The hop before its first node: an empty mask, and the frontier's nodes counted.
abbrev pub start_hop : AbtmDualTopology → AbtmRegionGrowth → Hop
start_hop topology g = record {
  next = Mask.new (Dual.nrows topology);
  stats = record (g.stats) {
    frontier_nodes_visited =
        saturating_add two_64 g.stats.frontier_nodes_visited (length (indices g.frontier));
  };
}

-- The state after a hop.
abbrev pub after_hop : DofMask → DofMask → AbtmRegionGrowthStats → AbtmRegionGrowth
after_hop region next s = record {
  region = region;
  frontier = next;
  stats = record s { hops_completed = saturating_add two_64 s.hops_completed 1 };
}

-- One round of the loop over the hops.
unfoldable pub grow_hop : AbtmDualTopology → AbtmRegionGrowth → Result AbtmRegionGrowth
unfolding visit_node
grow_hop topology g = do
  h ← try_fold (visit_node topology) (start_hop topology g) (indices g.frontier)
  next ← and_not_assign h.next g.region
  region ← union_assign g.region next
  ok (after_hop region next h.stats)

-- The loop over the hops, which breaks at an empty frontier.
unfoldable pub grow_loop : AbtmDualTopology → ℕ → AbtmRegionGrowth → Result AbtmRegionGrowth
unfolding grow_hop
grow_loop topology zero g = ok g
grow_loop topology (suc hops) g =
    let rest = grow_hop topology g >>= λ g'. grow_loop topology hops g' in
    if is_empty g.frontier then ok g else rest

-- The variables before the loop over the hops.
abbrev pub start_growth : DofMask → ℕ → AbtmRegionGrowth
start_growth seeds hops = record {
  region = seeds;
  frontier = seeds;
  stats = record {
    hops_requested = hops;
    hops_completed = 0;
    seed_nodes = mask_count_ones seeds;
    region_nodes = mask_count_ones seeds;
    frontier_nodes_visited = 0;
    row_words_visited = 0;
    column_words_visited = 0;
    candidate_neighbor_bits = 0;
  };
}

-- `grow_undirected_region`
unfoldable pub grow_undirected_region : AbtmDualTopology → DofMask → ℕ → Result AbtmRegionGrowth
unfolding grow_loop
grow_undirected_region topology seeds hops = do
  fail_if (not (Dual.nrows topology == Dual.ncols topology))
      (invalid_matrix "ABTM region growth requires a square topology")
  fail_if (not (seeds.len == Dual.nrows topology))
      (dimension_mismatch (Dual.nrows topology) seeds.len)
  g ← grow_loop topology hops (start_growth seeds hops)
  let s = g.stats
  ok (record g { stats = record s { region_nodes = mask_count_ones g.region } })
