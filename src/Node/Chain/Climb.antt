-- ===== src/Node/Chain/Climb.antt =====
-- The heap in the reorganisation of src/node/miner.go, where the nodes of the new main chain are cut off
-- their parents.
use mathlib.Core.Path.{subst}
use dreddit.Base.{
  ℕ, ◌≡◌, refl, sym, ap, ◌∙◌, inl, inr, true, false, List, Option, none, some, Bytes, get_elem?,
  set, is_some, get_elem?-set, map-set, map-get_elem?, get_elem?-map, All, All-map,
}
use dreddit.Block.Types.{Block}
use dreddit.Node.State.{Ref, SideChain, Heap}
use dreddit.Node.Chain.Frame.{IsChildOf, IsTied, IsOrdered, IsAged, block_of, blocks_in}
use dreddit.Node.Chain.Paint.{Painted, Painted-IsTied, Painted-IsAged}
use dreddit.Node.Chain.Placing.{IsDeep, IsDeep-set}

-- What the way up asks of the heap.
pub record IsClimb (age : Bytes → ℕ) (h : Heap) : Type 0 where
  pub tied : IsTied h
  pub aged : IsAged age h
  pub deep : IsDeep h
  pub parents :
      (r q : Ref) (sc : SideChain)
      → get_elem? h r ≡ some sc
      → sc.parent ≡ some q
      → (k : SideChain) × (get_elem? h q ≡ some k) × (sc.block.prev_block ≡ k.block.block_hash)

-- The same blocks in the same places.
pub same-at :
    (h h' : Heap) (q : Ref) (k : SideChain)
    → blocks_in h' ≡ blocks_in h
    → get_elem? h q ≡ some k
    → (k' : SideChain) × (get_elem? h' q ≡ some k') × (k'.block ≡ k.block)
same-at h h' q k same at =
    let (k', at', e) =
      map-get_elem? block_of h' q k.block
        (ap (λ (bs : List Block). get_elem? bs q) same ∙ get_elem?-map block_of h q k at) in
    (k', at', e)

module _ (age : Bytes → ℕ) where
  -- A node that has lost its parent.
  pub cut-IsClimb :
      (h : Heap) (r : Ref) (sc : SideChain)
      → IsClimb age h
      → get_elem? h r ≡ some sc
      → IsClimb age (set h r (record sc { parent = none }))
  cut-IsClimb h r sc w at = record {
    tied = λ x k at'. elim (get_elem?-set h r x cut k at') [
      | inl (here, same) ↦
          subst (λ (k : SideChain). All (IsChildOf h' k) k.children) (sym same)
            (All-map (λ q. kid cut sc q refl) sc.children (w.tied r sc at))
      | inr (other, old) ↦ All-map (λ q. kid k k q refl) k.children (w.tied x k old)
    ];
    aged = subst (All (IsOrdered age)) (sym blocks) w.aged;
    deep = IsDeep-set h r cut w.deep (λ has. absurd (none_some has));
    parents = λ x q k at' e. elim (get_elem?-set h r x cut k at') [
      | inl (here, same) ↦ absurd (no_parent (sym (ap (λ (k : SideChain). k.parent) same) ∙ e))
      | inr (other, old) ↦
          let (p, at_p, names) = w.parents x q k old e in
          let (p', at_p', same) = same-at h h' q p blocks at_p in
          (p', at_p', names ∙ ap (λ (b : Block). b.block_hash) (sym same))
    ];
  }
    where
      cut : SideChain
      cut = record sc { parent = none }

      h' : Heap
      h' = set h r cut

      blocks : blocks_in h' ≡ blocks_in h
      blocks = map-set block_of h r sc cut at refl

      none_some : false ≡ true → ⊥
      none_some e = cc

      no_parent : {q : Ref} → none ≡ some q → ⊥
      no_parent e = cc

      kid : (a a' : SideChain) (q : Ref) → a.block ≡ a'.block → IsChildOf h a' q → IsChildOf h' a q
      kid a a' q e (k, at_k, names) =
          let (k', at', same) = same-at h h' q k blocks at_k in
          (
            k',
            at',
            ap (λ (b : Block). b.prev_block) same
                ∙ names
                ∙ ap (λ (b : Block). b.block_hash) (sym e),
          )

  pub Painted-IsClimb :
      (P : Ref → ℕ → Type 0) (i : Option ℕ) (h h' : Heap)
      → Painted P i h h'
      → IsClimb age h
      → IsClimb age h'
  Painted-IsClimb P i h h' v w = record {
    tied = Painted-IsTied P i h h' v w.tied;
    aged = Painted-IsAged P i h h' v age w.aged;
    deep = λ x sc' at' has.
        let (sc, at, m) = v.from x sc' at' in
        elim m.marks [
          | inr (p, d, e) ↦ d
          | inl (d, e) ↦
              rw d (w.deep x sc at (ap (λ (q : Option Ref). is_some q) (sym m.parent) ∙ has))
        ];
    parents = λ x q sc' at' e.
        let (sc, at, m) = v.from x sc' at' in
        let (k, at_k, names) = w.parents x q sc at (sym m.parent ∙ e) in
        let (k', at_k', mk) = v.to q k at_k in
        (
          k',
          at_k',
          ap (λ (b : Block). b.prev_block) m.block
              ∙ names
              ∙ ap (λ (b : Block). b.block_hash) (sym mk.block),
        );
  }
