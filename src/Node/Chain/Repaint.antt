-- ===== src/Node/Chain/Repaint.antt =====
-- Forests of src/node/miner.go after `Recompute`.
use mathlib.Core.Path.{subst}
use mathlib.Core.Option.{some-injective}
use dreddit.Base.{
  ℕ, ◌≡◌, sym, ap, ◌∙◌, inl, inr, true, false, List, Option, none, some, Bytes, get_elem?, is_some,
  All, All-map, All-mem, Option-cases,
}
use dreddit.Block.Types.{Block}
use dreddit.Node.State.{Ref, SideChain, Heap}
use dreddit.Node.Chain.Search.{Under, itself, down}
use dreddit.Node.Chain.Paint.{Painted, Marked, Painted-IsTied, Painted-IsAged}
use dreddit.Node.Chain.Forest.{
  HasParent, HangsOn, IsNode, IsSideRoot, IsOrphan, IsForest, Persists, Persists-IsNode,
  HangsOn-same,
}

pub Painted-Persists :
    (P : Ref → ℕ → Type 0) (i : Option ℕ) (h h' : Heap) → Painted P i h h' → Persists h h'
Painted-Persists P i h h' v = record {
  stays = λ x sc at.
      let (sc', at', m) = v.to x sc at in
      (sc', at', m.block, λ e. ap (λ (q : Option Ref). is_some q) m.parent ∙ e);
}

module _ (age : Bytes → ℕ) (chain : List (Option Block)) (sides orphans : List Ref) (h : Heap)
    (w : IsForest age chain sides orphans h) where
  Under-HasParent : (r x : Ref) → HasParent h r → Under h r x → HasParent h x
  Under-HasParent r r' has itself = has
  Under-HasParent r x has (down {q = q} sc at child under) =
      Under-HasParent q x (All-mem (HasParent h) sc.children q child (w.nodes r sc at).kids) under

  -- Nodes that are painted below a node with a parent.
  pub Painted-IsForest :
      (i : Option ℕ) (r : Ref) (h' : Heap)
      → HasParent h r
      → Painted (λ x d. Under h r x) i h h'
      → IsForest age chain sides orphans h'
  Painted-IsForest i r h' has v = record {
    tied = Painted-IsTied (λ x d. Under h r x) i h h' v w.tied;
    aged = Painted-IsAged (λ x d. Under h r x) i h h' v age w.aged;
    nodes = nodes;
    side_roots = All-map side_root sides w.side_roots;
    orphan_roots = All-map orphan_root orphans w.orphan_roots;
  }
    where
      p : Persists h h'
      p = Painted-Persists (λ x d. Under h r x) i h h' v

      -- A root is not painted.
      rootless :
          (x : Ref) (sc : SideChain) → get_elem? h x ≡ some sc → sc.parent ≡ none → Under h r x → ⊥
      rootless x sc at no_parent under =
          let (k, at', has') = Under-HasParent r x has under in
          let same = some-injective _ _ (sym at ∙ at') in
          none_some (
            sym (ap (λ (q : Option Ref). is_some q) no_parent)
            ∙ ap (λ (k : SideChain). is_some k.parent) same
            ∙ has')
        where
          none_some : false ≡ true → ⊥
          none_some e = cc

      index_kept :
          (x : Ref) (sc sc' : SideChain)
          → get_elem? h x ≡ some sc
          → Marked (λ x d. Under h r x) i x sc sc'
          → sc.parent ≡ none
          → sc'.parent_index ≡ sc.parent_index
      index_kept x sc sc' at m no_parent = elim m.marks [
        | inl (d, same) ↦ same
        | inr (under, d, e) ↦ absurd (rootless x sc at no_parent under)
      ]

      nodes : (x : Ref) (sc' : SideChain) → get_elem? h' x ≡ some sc' → IsNode chain h' sc'
      nodes x sc' at' =
          let (sc, at, m) = v.from x sc' at' in
          let node = Persists-IsNode h h' p chain sc (w.nodes x sc at) in
          record {
            kids = subst (All (HasParent h')) (sym m.children) node.kids;
            hangs = subst (HangsOn chain h' sc') (sym m.parent) (
                HangsOn-same chain h' sc sc' sc.parent m.block (index_kept x sc sc' at m)
                  node.hangs);
          }

      side_root : (x : Ref) → IsSideRoot h x → IsSideRoot h' x
      side_root x (sc, at, no_parent, index) =
          let (sc', at', m) = v.to x sc at in
          (
            sc',
            at',
            m.parent ∙ no_parent,
            ap (λ (o : Option ℕ). is_some o) (index_kept x sc sc' at m no_parent) ∙ index,
          )

      orphan_root : (x : Ref) → IsOrphan h x → IsOrphan h' x
      orphan_root x (sc, at, o) =
          let (sc', at', m) = v.to x sc at in
          (
            sc',
            at',
            elim (Option-cases sc.parent) [
              | inl no_parent ↦ elim o [
                | inl no_index ↦ inl (index_kept x sc sc' at m no_parent ∙ no_index)
                | inr has' ↦ inr (ap (λ (q : Option Ref). is_some q) m.parent ∙ has')
              ]
              | inr (q, e) ↦ inr (ap (λ (q : Option Ref). is_some q) (m.parent ∙ e))
            ],
          )
