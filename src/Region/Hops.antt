-- ===== src/Region/Hops.antt =====
-- One hop of region growth (region.rs): the nodes that the frontier's rows and columns name.
use hybit.Base.{
  ℕ, ◌<◌, ◌≡◌, refl, ap, ◌∙◌, arith, Bool, ◌&&◌, ◌||◌, ltb, List, [], ◌∷◌, foldl, any, ok, try_fold,
  AllBelow,
}
use hybit.Mask.{DofMask, or_word}
use hybit.Mask.Valid.{member, IsValid}
use hybit.Mask.OrWord.{or_word-IsValid, or_word_members, or_word_shape}
use hybit.Topology.Row.{AbtmTopologyWord}
use hybit.Topology.Valid.{
  words_have, AllWords, IsReadable, row_words, row-eq-ok, AllWords-row_words,
}
use hybit.Dual
use hybit.Dual.{AbtmDualTopology}
use hybit.Region.{Hop, add_row_word, add_column_word, visit_node}

-- j is named by the row or by the column of i.
abbrev pub adjacent : AbtmDualTopology → ℕ → ℕ → Bool
adjacent d i j = words_have (row_words d.rows i) j || words_have (row_words d.columns i) j

-- The mask of a hop is valid over n, and its set is f.
pub record Collects (n : ℕ) (f : ℕ → Bool) (h : Hop) : Type 0 where
  pub valid : IsValid h.next
  pub same_len : h.next.len ≡ n
  pub members : (j : ℕ) → member h.next j ≡ f j

-- Adding a word, whichever counters it moves.
abbrev AddsWords : (Hop → AbtmTopologyWord → Hop) → Type 0
AddsWords add =
    (h : Hop) (w : AbtmTopologyWord) → (add h w).next ≡ or_word h.next w.word_index w.mask

fold_words :
    (add : Hop → AbtmTopologyWord → Hop) (n : ℕ) (ws : List AbtmTopologyWord) (h : Hop)
    → AddsWords add
    → AllWords ws
    → IsValid h.next
    → h.next.len ≡ n
    → Collects n (λ j. member h.next j || (ltb j n && words_have ws j)) (foldl add h ws)
fold_words add n [] h adds bounds v e = record {
  valid = v;
  same_len = e;
  members = λ j. ground arith;
}
fold_words add n (w ∷ ws) h adds bounds v e =
    let e' : (add h w).next.len ≡ n =
      ap (λ (m : DofMask). m.len) (adds h w) ∙ (or_word_shape h.next w.word_index w.mask).0 ∙ e in
    let v' : IsValid (add h w).next =
      rw (adds h w) (or_word-IsValid h.next w.word_index w.mask v bounds.0) in
    let rest = fold_words add n ws (add h w) adds bounds.1 v' e' in
    record { valid = rest.valid; same_len = rest.same_len; members = λ j. rest.members j ∙ step j }
  where
    step :
        (j : ℕ)
        → (member (add h w).next j || (ltb j n && words_have ws j))
          ≡ (member h.next j || (ltb j n && words_have (w ∷ ws) j))
    step j = rw (adds h w, or_word_members h.next w.word_index w.mask j v, e) (ground arith)

module _ (d : AbtmDualTopology) (n : ℕ) (rows_ok : IsReadable d.rows)
    (columns_ok : IsReadable d.columns) (rows_size : d.rows.nrows ≡ n)
    (columns_size : d.columns.nrows ≡ n) where
  visit-Collects :
      (h : Hop) (node : ℕ)
      → node < n
      → IsValid h.next
      → h.next.len ≡ n
      → (h' : Hop) × (visit_node d h node ≡ ok h')
        × Collects n (λ j. member h.next j || (ltb j n && adjacent d node j)) h'
  unfolding visit_node Dual.row Dual.column
  visit-Collects h node lt v e =
      let left =
        fold_words add_row_word n (row_words d.rows node) h (λ h w. refl)
          (AllWords-row_words d.rows node rows_ok) v e in
      let h1 : Hop = foldl add_row_word h (row_words d.rows node) in
      let right =
        fold_words add_column_word n (row_words d.columns node) h1 (λ h w. refl)
          (AllWords-row_words d.columns node columns_ok) left.valid left.same_len in
      (
        foldl add_column_word h1 (row_words d.columns node),
        rw
            (
              row-eq-ok d.rows node rows_ok (rw rows_size lt),
              row-eq-ok d.columns node columns_ok (rw columns_size lt),
            )
            refl,
        record {
          valid = right.valid;
          same_len = right.same_len;
          members = λ j. right.members j ∙ ground (arith, left.members j);
        },
      )

  -- The frontier's nodes, one after the other.
  pub visit_all :
      (nodes : List ℕ) (h : Hop)
      → AllBelow n nodes
      → IsValid h.next
      → h.next.len ≡ n
      → (h' : Hop) × (try_fold (visit_node d) h nodes ≡ ok h')
        × Collects n (λ j. member h.next j || (ltb j n && any (λ i. adjacent d i j) nodes)) h'
  unfolding try_fold
  visit_all [] h below v e =
      (h, refl, record { valid = v; same_len = e; members = λ j. ground arith })
  visit_all (node ∷ nodes) h below v e =
      let (h1, returns, one) = visit-Collects h node below.0 v e in
      let (h2, returns', rest) = visit_all nodes h1 below.1 one.valid one.same_len in
      (
        h2,
        rw returns returns',
        record {
          valid = rest.valid;
          same_len = rest.same_len;
          members = λ j. rest.members j ∙ regroup j (member h1.next j) (one.members j);
        },
      )
    where
      distribute : (a b c e : Bool) → ((a || (b && c)) || (b && e)) ≡ (a || (b && (c || e)))
      distribute a b c e = ground arith

      regroup :
          (j : ℕ) (now : Bool)
          → now ≡ (member h.next j || (ltb j n && adjacent d node j))
          → (now || (ltb j n && any (λ i. adjacent d i j) nodes))
            ≡ (member h.next j || (ltb j n && any (λ i. adjacent d i j) (node ∷ nodes)))
      regroup j now e = rw e (
          distribute (member h.next j) (ltb j n) (adjacent d node j)
            (any (λ i. adjacent d i j) nodes))
