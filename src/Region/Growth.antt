-- ===== src/Region/Growth.antt =====
-- What one hop of region growth (region.rs) adds to the region.
use hybit.Base.{
  ℕ, suc, ◌<◌, ◌≡◌, ◌↔◌, refl, sym, ◌∙◌, arith, Bool, true, false, not, ◌&&◌, ◌||◌, ◌==◌, ltb, List,
  [], ◌∷◌, any, has, ok, ltb→lt, lt→ltb, AllBelow, Bool-cases, inl, inr,
}
use hybit.Mask.{indices}
use hybit.Mask.Valid.{member, IsValid, member-new, len-new, new-IsValid}
use hybit.Mask.Algebra.{assign-IsMaskOf}
use hybit.Mask.Indices.{indices_lem, AllBelow-of_has}
use hybit.Topology.Valid.{IsReadable}
use hybit.Dual.{AbtmDualTopology}
use hybit.Region.{AbtmRegionGrowth, start_hop, after_hop, grow_hop}
use hybit.Region.Hops.{adjacent, visit_all}

-- A dual topology of a square matrix whose rows and columns can be read.
pub record IsSquare (d : AbtmDualTopology) (n : ℕ) : Type 0 where
  pub rows_ok : IsReadable d.rows
  pub columns_ok : IsReadable d.columns
  pub rows_size : d.rows.nrows ≡ n
  pub row_width : d.rows.ncols ≡ n
  pub columns_size : d.columns.nrows ≡ n

-- j is within k hops of a seed, along rows and columns, inside the n nodes.
pub data Within (d : AbtmDualTopology) (n : ℕ) (seeds : ℕ → Bool) : ℕ → ℕ → Type 0 where
  seed : {k j : ℕ} → seeds j ≡ true → Within d n seeds k j
  hop :
      {k i j : ℕ}
      → Within d n seeds k i
      → adjacent d i j ≡ true
      → j < n
      → Within d n seeds (suc k) j

any_elim :
    (p : ℕ → Bool) (xs : List ℕ) → any p xs ≡ true → (i : ℕ) × (has xs i ≡ true) × (p i ≡ true)
any_elim p [] h = absurd (cc h)
any_elim p (x ∷ xs) h = elim (Bool-cases (p x)) [
  | inl here ↦ (x, ground arith, here)
  | inr later ↦ let (i, m, q) = any_elim p xs (rw later at h) in (i, ground arith, q)
]

any_intro : (p : ℕ → Bool) (xs : List ℕ) (i : ℕ) → has xs i ≡ true → p i ≡ true → any p xs ≡ true
any_intro p [] i h q = absurd (cc h)
any_intro p (x ∷ xs) i h q = elim (Bool-cases (x == i)) [
  | inl here ↦ let e : x ≡ i = ground arith in rw e (rw q refl)
  | inr later ↦ rw (any_intro p xs i (rw later at h) q) (ground arith)
]

pub and_left : (a b : Bool) → (a && b) ≡ true → a ≡ true
and_left a b h = ground arith

pub and_right : (a b : Bool) → (a && b) ≡ true → b ≡ true
and_right a b h = ground arith

pub Within-suc :
    {d : AbtmDualTopology} {n : ℕ} {seeds : ℕ → Bool} {k j : ℕ}
    → Within d n seeds k j
    → Within d n seeds (suc k) j
Within-suc (seed s) = seed s
Within-suc (hop w a lt) = hop (Within-suc w) a lt

-- After k hops: the region is what lies within k hops, and what left the frontier is closed.
pub record Inv (d : AbtmDualTopology) (n : ℕ) (seeds : ℕ → Bool) (k : ℕ) (g : AbtmRegionGrowth)
    : Type 0 where
  pub region_ok : IsValid g.region
  pub frontier_ok : IsValid g.frontier
  pub region_len : g.region.len ≡ n
  pub frontier_len : g.frontier.len ≡ n
  pub inside : (j : ℕ) → member g.frontier j ≡ true → member g.region j ≡ true
  pub sound : (j : ℕ) → member g.region j ≡ true → Within d n seeds k j
  pub complete : (j : ℕ) → Within d n seeds k j → member g.region j ≡ true
  pub closed :
      (i j : ℕ)
      → member g.region i ≡ true
      → member g.frontier i ≡ false
      → adjacent d i j ≡ true
      → j < n
      → member g.region j ≡ true

module _ (d : AbtmDualTopology) (n : ℕ) (seeds : ℕ → Bool) (square : IsSquare d n) where
  -- The new frontier: the neighbours of the old one that the region does not have yet.
  abbrev pub reached : AbtmRegionGrowth → ℕ → Bool
  reached g j = ltb j n && any (λ i. adjacent d i j) (indices g.frontier)

  pub record Grown (g g' : AbtmRegionGrowth) : Type 0 where
    pub region_ok : IsValid g'.region
    pub frontier_ok : IsValid g'.frontier
    pub region_len : g'.region.len ≡ n
    pub frontier_len : g'.frontier.len ≡ n
    pub frontier_at : (j : ℕ) → member g'.frontier j ≡ (reached g j && not (member g.region j))
    pub region_at : (j : ℕ) → member g'.region j ≡ (member g.region j || member g'.frontier j)

  pub grow_hop-Grown :
      (k : ℕ) (g : AbtmRegionGrowth)
      → Inv d n seeds k g
      → (g' : AbtmRegionGrowth) × (grow_hop d g ≡ ok g') × Grown g g'
  unfolding grow_hop
  grow_hop-Grown k g inv =
      let (h, returns, found) =
        visit_all d n square.rows_ok square.columns_ok square.rows_size square.columns_size
          (indices g.frontier) (start_hop d g) below (new-IsValid d.rows.nrows)
          (len-new d.rows.nrows ∙ square.rows_size) in
      let fresh =
        (assign-IsMaskOf h.next g.region found.valid inv.region_ok
          (found.same_len ∙ sym inv.region_len)).2 in
      let fresh_len : fresh.mask.len ≡ n = fresh.same_len ∙ found.same_len in
      let grown =
        (assign-IsMaskOf g.region fresh.mask inv.region_ok fresh.valid
          (inv.region_len ∙ sym fresh_len)).0 in
      (
        after_hop grown.mask fresh.mask h.stats,
        rw (returns, fresh.returns, grown.returns) refl,
        record {
          region_ok = grown.valid;
          frontier_ok = fresh.valid;
          region_len = grown.same_len ∙ inv.region_len;
          frontier_len = fresh_len;
          frontier_at = λ j. fresh.members j ∙ from_empty j (member h.next j) (found.members j);
          region_at = grown.members;
        },
      )
    where
      below : AllBelow n (indices g.frontier)
      below = AllBelow-of_has n (indices g.frontier) λ x hx. ground (
        arith,
        (indices_lem g.frontier inv.frontier_ok).1 x,
        inv.frontier_ok.tail x,
        inv.frontier_len,
      )

      from_empty :
          (j : ℕ) (now : Bool)
          → now ≡ (member (start_hop d g).next j || reached g j)
          → (now && not (member g.region j)) ≡ (reached g j && not (member g.region j))
      from_empty j now e = rw (e, member-new d.rows.nrows j) refl

  pub reached_iff :
      (g : AbtmRegionGrowth) (j : ℕ)
      → IsValid g.frontier
      → (reached g j ≡ true)
        ↔ ((i : ℕ) × (member g.frontier i ≡ true) × (adjacent d i j ≡ true) × (j < n))
  reached_iff g j v = (there, back)
    where
      there :
          reached g j ≡ true
          → (i : ℕ) × (member g.frontier i ≡ true) × (adjacent d i j ≡ true) × (j < n)
      there h =
          let (i, m, a) =
            any_elim (λ i. adjacent d i j) (indices g.frontier) (and_right (ltb j n) _ h) in
          (i, sym ((indices_lem g.frontier v).1 i) ∙ m, a, ltb→lt j n (and_left (ltb j n) _ h))

      back :
          (i : ℕ) × (member g.frontier i ≡ true) × (adjacent d i j ≡ true) × (j < n)
          → reached g j ≡ true
      back (i, m, a, lt) =
          rw
            (
              lt→ltb j n lt,
              any_intro (λ i. adjacent d i j) (indices g.frontier) i
                  ((indices_lem g.frontier v).1 i ∙ m) a,
            )
            refl
