-- ===== src/Region/Multiplicity.antt =====
-- `region_multiplicity` (region.rs): how many regions each node belongs to, and the totals.
use hybit.Base.{
  ℕ, suc, ◌-◌, ◌/◌, max, not, ◌==◌, leb, if◌then◌else◌, List, [], ◌∷◌, length, replicate, get_elem?,
  Option, ok, at, put, ok_or, fail_if, ◌>>=◌, ◌>>◌, try_fold, checked_add, checked_mul,
  saturating_add, two_64, two_32,
}
use hybit.Bits.{for_each_bit}
use hybit.Core.{invalid_matrix, dimension_mismatch, size_overflow, Result}
use hybit.Core.Float.{Arithmetic, zero_f64}
use hybit.Core.{F64}
use hybit.Mask.{DofMask}

pub record AbtmRegionMultiplicityStats : Type 0 where
  pub region_count : ℕ
  pub node_count : ℕ
  pub total_memberships : ℕ
  pub covered_nodes : ℕ
  pub overlap_nodes : ℕ
  pub max_multiplicity : ℕ
  pub pair_overlap_memberships : ℕ

pub record AbtmRegionMultiplicity : Type 0 where
  pub counts : List ℕ
  pub stats : AbtmRegionMultiplicityStats

-- The derived counters and quotients of the statistics.
abbrev pub extra_memberships : AbtmRegionMultiplicityStats → ℕ
extra_memberships s = s.total_memberships - s.covered_nodes

abbrev pub average_multiplicity_on_covered : Arithmetic → AbtmRegionMultiplicityStats → F64
average_multiplicity_on_covered fp s =
    if s.covered_nodes == 0
    then zero_f64
    else fp.div (fp.of_usize s.total_memberships) (fp.of_usize s.covered_nodes)

abbrev pub overlap_fraction_on_covered : Arithmetic → AbtmRegionMultiplicityStats → F64
overlap_fraction_on_covered fp s =
    if s.covered_nodes == 0
    then zero_f64
    else fp.div (fp.of_usize s.overlap_nodes) (fp.of_usize s.covered_nodes)

abbrev pub multiplicity : AbtmRegionMultiplicity → ℕ → Option ℕ
multiplicity m node = get_elem? m.counts node

-- The counts, and `total_memberships`.
abbrev pub Tally : Type 0
Tally = List ℕ × ℕ

-- One bit of word `word_index` of a region.
unfoldable pub count_bit : ℕ → ℕ → Tally → ℕ → Result Tally
count_bit node_count word_index (counts, total) bit = do
  base ← ok_or (checked_mul two_64 word_index 64) size_overflow
  node ← ok_or (checked_add two_64 base bit) size_overflow
  fail_if (leb node_count node)
      (invalid_matrix "region mask contains a bit beyond the node universe")
  count ← at counts node
  count' ← ok_or (checked_add two_32 count 1) size_overflow
  counts' ← put counts node count'
  total' ← ok_or (checked_add two_64 total 1) size_overflow
  ok (counts', total')

-- The loop over the words of a region, at word `word_index`.
unfoldable pub count_words : ℕ → ℕ → List ℕ → Tally → Result Tally
unfolding count_bit for_each_bit
count_words node_count word_index [] t = ok t
count_words node_count word_index (w ∷ ws) t =
    for_each_bit (λ r b. r >>= λ t'. count_bit node_count word_index t' b) (ok t) w
    >>= count_words node_count (suc word_index) ws

unfoldable pub count_region : ℕ → Tally → DofMask → Result Tally
unfolding count_words
count_region node_count t region = do
  fail_if (not (region.len == node_count)) (dimension_mismatch node_count region.len)
  count_words node_count 0 region.words t

-- The counters that the second loop moves.
pub record Coverage : Type 0 where
  pub covered_nodes : ℕ
  pub overlap_nodes : ℕ
  pub max_multiplicity : ℕ
  pub pair_overlap_memberships : ℕ

unfoldable pub summarise : Coverage → ℕ → Result Coverage
summarise c count = if count == 0 then ok c else do
  pairs ← ok_or (checked_mul two_64 count (count - 1)) size_overflow
  total ← ok_or (checked_add two_64 c.pair_overlap_memberships (pairs / 2)) size_overflow
  ok (record {
    covered_nodes = saturating_add two_64 c.covered_nodes 1;
    overlap_nodes =
        if leb 2 count then saturating_add two_64 c.overlap_nodes 1 else c.overlap_nodes;
    max_multiplicity = max c.max_multiplicity count;
    pair_overlap_memberships = total;
  })

-- `region_multiplicity`
unfoldable pub region_multiplicity : ℕ → List DofMask → Result AbtmRegionMultiplicity
unfolding count_region summarise
region_multiplicity node_count regions = do
  (counts, total) ← try_fold (count_region node_count) (replicate node_count 0, 0) regions
  c ←
      try_fold summarise
        (record {
          covered_nodes = 0;
          overlap_nodes = 0;
          max_multiplicity = 0;
          pair_overlap_memberships = 0;
        })
        counts
  ok (record {
    counts = counts;
    stats = record {
      region_count = length regions;
      node_count = node_count;
      total_memberships = total;
      covered_nodes = c.covered_nodes;
      overlap_nodes = c.overlap_nodes;
      max_multiplicity = c.max_multiplicity;
      pair_overlap_memberships = c.pair_overlap_memberships;
    };
  })
