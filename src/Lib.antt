-- ===== src/Lib.antt =====
-- Verification library for HyBIT: the matrix layer, crates/hybit-matrix, over the error type of
-- crates/hybit-core, and the row partitions of crates/hybit-distributed.
--
-- The program solves sparse linear systems. A matrix arrives as 32-bit CSR (csr32.rs) and is
-- validated once. Its sparsity pattern is kept a second time as an ABTM topology, 64 columns to a
-- word (topology.rs), and with its transpose as a dual topology (dual_topology.rs). Sets of degrees
-- of freedom are bitmaps (mask.rs). Region growth (region.rs) walks the dual topology from a seed
-- mask and or-s the words it meets into a mask; the regions it finds are counted against each other,
-- and the local pattern and the numeric plan of a region are extracted. abtm.rs stores values with
-- bitmaps in tiles, and profile.rs reads off what the choice of a solver needs.
-- A distributed run gives each rank its rows, by contiguous ranges (lib.rs of hybit-distributed) or
-- by growth over the dual topology (partition.rs). Halo plans say which values the ranks exchange
-- before each multiplies its own rows.
--
-- Files and code:
--   Core, Core/Float, Core/Options   crates/hybit-core/src/lib.rs: HybitError, the tests on
--                                    f64, SolverOptions; Core/Accepts has the lemmas on its validate
--   Bits                             64-bit words and the loop over their set bits, used throughout
--   Mask                             crates/hybit-matrix/src/mask.rs, function by function:
--                                    new, set (set_dof), from_indices, contains, count_ones
--                                    (mask_count_ones), is_empty, the assign operations,
--                                    intersects, indices, or_word. Valid, Algebra, OrWord, Indices
--                                    and Listing have the lemmas on the set of members
--   Csr                              csr32.rs: new, validate, diagonal, spmv, apply,
--                                    apply_parallel, apply_parallel_with_tasks
--   Topology                         topology.rs: row, stats, validate; Row has the reads of words
--                                    and rows, Build the construction, Combine the set operations
--                                    (xor is symmetric_difference); Check, RowCheck and Accepts
--                                    have the lemmas on validate, Rows those on a row, and below Row,
--                                    Select, Columns, Rank and Contains those on its reads
--   Dual                             dual_topology.rs
--   Region                           region.rs: growth; Multiplicity, Pattern and Plan the rest;
--                                    Hops, Growth and Reach have the lemmas on growth, Counts,
--                                    Summary, Covered and Pairs those on multiplicity
--   Abtm                             abtm.rs: tiles, with Build and Apply; Tiles has the lemmas on
--                                    the packing
--   Layout                           dof_layout.rs: new, locate, block_range, field_mask; Valid, Locate
--                                    and FieldMask have the lemmas on them, Spans and Blocks those on
--                                    masks filled block by block
--   FieldRegion                      field_region.rs; Words and Closure have the lemmas on
--                                    close_to_field_blocks, Owners those on field_block_owners, Hops
--                                    and Reach those on growth
--   Profile                          profile.rs
--   Partition                        crates/hybit-distributed/src: ContiguousPartition (its owner_of is
--                                    contiguous_owner_of) of lib.rs and PartitionAssignment of
--                                    partition.rs; Offsets, Balanced and Assignment have the lemmas
--   Partition/Grow                   partition.rs: abtm_region_grow_partition; Claims and Fill have the
--                                    lemmas on one rank's growth, Shares on the ranks in turn, Balance
--                                    the whole; Dual/Built has what the built topology passes
--   Partition/Halo                   lib.rs: build_contiguous_halo_plans and its ABTM variant; Wanted has
--                                    the lemmas on rank_requests, Filing those on file_requests, Slots
--                                    and Plan those on rank_plan; Notes, Ranges, Whole, Made and
--                                    Reciprocal lead to the plans of all ranks;
--                                    Exchange has prepare_rank_local_csr, simulate_halo_exchange,
--                                    apply_extended and simulated_distributed_spmv
--   Partition/Telemetry              partition_telemetry of lib.rs, partition_telemetry_assignment
--                                    of partition.rs
--   SortedMap                        BTreeMap and BTreeSet, with their lemmas
--   Tests                            runs on small inputs, and the theorems at concrete inputs
--
-- Conventions. A usize, u64 or u32 is a natural number, with the source's checked, saturating and
-- wrapping arithmetic written out at two_64 and two_32, and usize of 64 bits; lengths of vectors are taken to fit the
-- address space. An f64 is its bit pattern; comparisons are computed, and the rounded operations are
-- a parameter, Arithmetic, of which no law is assumed. Result has Rust's ok and err and a third
-- outcome, panic, for an index out of range, for a subtraction below zero where the source does not
-- guard it, and for a read outside a slice in an unsafe block; a
-- theorem that an operation returns ok so excludes both. A method that changes its object returns
-- the new object. Rayon is not part of the repository: the parallel products take the order in which
-- the rows are finished as a parameter, constrained only by every row being written at least once
-- and every write being one of the program's.
--
-- Loops are folds over ranges and lists. The loop over the set bits of a word runs on fuel 64, the
-- width of the word; the merge of two rows of words runs on the number of words of both, and the
-- loop over hops on the number of hops requested, as in the source. The loop that fills a rank of a
-- partition runs on the number of DOFs it wants: a round expands one node of the frontier, to which
-- a DOF is added only when it is assigned. The maps of the standard library
-- that the source keeps sorted (BTreeMap) are association lists in ascending order of keys, and
-- binary_search and partition_point are modelled by their documented results on a slice that is
-- ascending, or partitioned.
--
-- Not modelled: prepared field regions (prepared_field_region.rs), dense and restricted blocks
-- (dense_block.rs, restricted.rs), Matrix Market input (matrix_market.rs, metadata_first.rs), and
-- the crates above the matrix layer: preconditioners, Krylov solvers, automatic selection, the C
-- interface, and of the distributed layer the partitions from several sources, by
-- field, by cost and by level, and the MPI communication.
mod Base
pub mod Bits
pub mod Core
pub mod Mask
pub mod Csr
pub mod Topology
pub mod Dual
pub mod Region
pub mod Layout
pub mod FieldRegion
pub mod Partition
pub mod SortedMap
pub mod Abtm
pub mod Profile
mod Tests
