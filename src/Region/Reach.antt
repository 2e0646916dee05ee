-- ===== src/Region/Reach.antt =====
-- Region growth (region.rs) against the nodes within a number of hops of the seeds.
use hybit.Base.{
  ℕ, zero, suc, ◌+◌, ◌≡◌, ◌↔◌, refl, sym, ◌∙◌, arith, Bool, true, ok, Bool-cases, inl, inr, eq→==,
}
use hybit.Mask.{DofMask, is_empty, mask_count_ones}
use hybit.Mask.Valid.{member, IsValid}
use hybit.Mask.Indices.{is_empty_lem}
use hybit.Dual
use hybit.Dual.{AbtmDualTopology}
use hybit.Dual.Valid.{validate-IsDual}
use hybit.Topology.RowCheck.{Fits}
use hybit.Topology.Accepts.{IsReadable-of}
use hybit.Region.{AbtmRegionGrowth, grow_loop, start_growth, grow_undirected_region}
use hybit.Region.Growth.{IsSquare, Within, seed, Within-suc, Inv, grow_hop-Grown}
use hybit.Region.Steps.{keeps, stays}

at_hops :
    {d : AbtmDualTopology} {n : ℕ} {seeds : ℕ → Bool} {k m j : ℕ}
    → k ≡ m
    → Within d n seeds k j
    → Within d n seeds m j
at_hops e w = rw (sym e) w

zero_more : (k : ℕ) → k ≡ 0 + k
zero_more k = omega arith

suc_more : (m k : ℕ) → suc (m + k) ≡ suc m + k
suc_more m k = omega arith

Within-later :
    {d : AbtmDualTopology} {n : ℕ} {seeds : ℕ → Bool} {k j : ℕ} (more : ℕ)
    → Within d n seeds k j
    → Within d n seeds (more + k) j
Within-later {k = k} zero w = at_hops (zero_more k) w
Within-later {k = k} (suc more) w = at_hops (suc_more more k) (Within-suc (Within-later more w))

Within-start :
    {d : AbtmDualTopology} {n : ℕ} {seeds : ℕ → Bool} {j : ℕ}
    → Within d n seeds 0 j
    → seeds j ≡ true
Within-start (seed s) = s

-- What growth returns: a valid mask over n, of the nodes within k hops.
pub record IsRegionOf (d : AbtmDualTopology) (n : ℕ) (seeds : ℕ → Bool) (k : ℕ) (m : DofMask)
    : Type 0 where
  pub valid : IsValid m
  pub same_len : m.len ≡ n
  pub members : (j : ℕ) → (member m j ≡ true) ↔ Within d n seeds k j

IsRegionOf-same :
    {d : AbtmDualTopology} {n : ℕ} {seeds : ℕ → Bool} {k m : ℕ} {r : DofMask}
    → k ≡ m
    → IsRegionOf d n seeds k r
    → IsRegionOf d n seeds m r
IsRegionOf-same e w = rw (sym e) w

module _ (d : AbtmDualTopology) (n : ℕ) (seeds : ℕ → Bool) (square : IsSquare d n) where
  region_of : (k : ℕ) (g : AbtmRegionGrowth) → Inv d n seeds k g → IsRegionOf d n seeds k g.region
  region_of k g inv = record {
    valid = inv.region_ok;
    same_len = inv.region_len;
    members = λ j. (inv.sound j, inv.complete j);
  }

  grow_loop_lem :
      (hops k : ℕ) (g : AbtmRegionGrowth)
      → Inv d n seeds k g
      → (g' : AbtmRegionGrowth) × (grow_loop d hops g ≡ ok g')
        × IsRegionOf d n seeds (hops + k) g'.region
  unfolding grow_loop
  grow_loop_lem zero k g inv = (g, refl, rw (sym (zero_more k)) (region_of k g inv))
  grow_loop_lem (suc hops) k g inv = elim (Bool-cases (is_empty g.frontier)) [
    | inl stop ↦ (
      g,
      rw stop refl,
      record {
        valid = inv.region_ok;
        same_len = inv.region_len;
        members = λ j. (
          λ m. Within-later (suc hops) (inv.sound j m),
          stays d n seeds square k (suc hops + k) g inv
              ((is_empty_lem g.frontier inv.frontier_ok).0 stop) j,
        );
      },
    )
    | inr more ↦
        let (g', returns, step) = grow_hop-Grown d n seeds square k g inv in
        let (g2, returns', region) =
          grow_loop_lem hops (suc k) g' (keeps d n seeds square k g g' inv step) in
        (g2, rw (more, returns) returns', rw (sym (later hops k)) region)
  ]
    where
      later : (h k : ℕ) → h + suc k ≡ suc h + k
      later h k = omega arith

grow_square :
    (d : AbtmDualTopology) (seeds : DofMask) (hops : ℕ)
    → IsSquare d seeds.len
    → IsValid seeds
    → (g : AbtmRegionGrowth) × (grow_undirected_region d seeds hops ≡ ok g)
      × IsRegionOf d seeds.len (member seeds) hops g.region
unfolding grow_undirected_region
grow_square d seeds hops square v =
    let (g, returns, region) = grow_loop_lem d seeds.len (member seeds) square hops 0 _ begin in
    (
      record g { stats = record (g.stats) { region_nodes = mask_count_ones g.region } },
      rw
          (
            eq→== _ _ (square.rows_size ∙ sym square.row_width),
            eq→== _ _ (sym square.rows_size),
            returns,
          )
          refl,
      IsRegionOf-same (no_more hops) region,
    )
  where
    no_more : (h : ℕ) → h + 0 ≡ h
    no_more h = omega arith

    begin : Inv d seeds.len (member seeds) 0 (start_growth seeds hops)
    begin = record {
      region_ok = v;
      frontier_ok = v;
      region_len = refl;
      frontier_len = refl;
      inside = λ j m. m;
      sound = λ j m. seed m;
      complete = λ j w. Within-start w;
      closed = λ i j m out a lt. absurd (cc (m, out));
    }

-- On a dual topology that `validate` accepts, square over the nodes of a valid seed mask, with sizes
-- that fit the machine, `grow_undirected_region` returns, and the region of its result is a valid
-- mask of exactly the nodes within `hops` hops of a seed along rows and columns.
pub grow_undirected_region_lem :
    (d : AbtmDualTopology) (seeds : DofMask) (hops : ℕ)
    → Dual.validate d ≡ ok tt
    → Fits d.rows
    → Fits d.columns
    → d.rows.nrows ≡ seeds.len
    → d.rows.ncols ≡ seeds.len
    → IsValid seeds
    → (g : AbtmRegionGrowth) × (grow_undirected_region d seeds hops ≡ ok g)
      × IsRegionOf d seeds.len (member seeds) hops g.region
grow_undirected_region_lem d seeds hops h rows_fit columns_fit rows columns v =
    let dual = (validate-IsDual d rows_fit columns_fit).0 h in
    grow_square d seeds hops
      (record {
        rows_ok = IsReadable-of d.rows rows_fit dual.rows_ok;
        columns_ok = IsReadable-of d.columns columns_fit dual.columns_ok;
        rows_size = rows;
        row_width = columns;
        columns_size = dual.columns_as_rows ∙ columns;
      })
      v
