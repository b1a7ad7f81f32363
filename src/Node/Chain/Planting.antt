-- ===== src/Node/Chain/Planting.antt =====
-- Forests of src/node/miner.go with a new node, with another node in a place, with a node that is hung
-- on another one.
use mathlib.Core.Path.{subst}
use mathlib.Core.List.{map-append}
use dreddit.Base.{
  ℕ, ◌≡◌, refl, sym, ap, ◌∙◌, ◌⊎◌, inl, inr, true, List, [], ◌∷◌, ◌++◌, Option, none, some, Bytes,
  get_elem?, set, is_some, get_elem?-append, get_elem?-split, get_elem?-set, set-keeps, map-set,
  All, All-map, All-append,
}
use dreddit.Block.Types.{Block}
use dreddit.Node.State.{Ref, SideChain, Heap}
use dreddit.Node.Chain.Frame.{IsChildOf, IsOrdered, block_of, blocks_in}
use dreddit.Node.Chain.Forest.{
  HasParent, HangsOn, IsNode, IsSideRoot, IsOrphan, IsForest, Persists, Persists-IsChildOf,
  Persists-HangsOn, Persists-IsNode, HangsOn-same, Persists-append, Persists-set,
}

module _ (age : Bytes → ℕ) (chain : List (Option Block)) (sides orphans : List Ref) (h : Heap)
    (w : IsForest age chain sides orphans h) where
  -- A new node without children.
  pub alloc-IsForest :
      (v : SideChain)
      → v.children ≡ []
      → HangsOn chain h v v.parent
      → IsOrdered age v.block
      → IsForest age chain sides orphans (h ++ v ∷ [])
  alloc-IsForest v leaf on ordered = record {
    tied = λ x sc at. elim (get_elem?-split h v x sc at) [
      | inl old ↦
          All-map (λ q. Persists-IsChildOf h h' p sc sc q refl) sc.children (w.tied x sc old)
      | inr (last, same) ↦
          subst (λ (k : SideChain). All (IsChildOf h' k) k.children) (sym same) (rw leaf tt)
    ];
    aged =
        subst (All (IsOrdered age)) (sym (map-append block_of h (v ∷ [])))
          (All-append (IsOrdered age) (blocks_in h) (v.block ∷ []) w.aged (ordered, tt));
    nodes = λ x sc at. elim (get_elem?-split h v x sc at) [
      | inl old ↦ Persists-IsNode h h' p chain sc (w.nodes x sc old)
      | inr (last, same) ↦
          subst (IsNode chain h') (sym same)
            (record { kids = rw leaf tt; hangs = Persists-HangsOn h h' p chain v v.parent on })
    ];
    side_roots =
        All-map
          (λ r (sc, at, no_parent, index).
            (sc, get_elem?-append h (v ∷ []) r sc at, no_parent, index))
          sides w.side_roots;
    orphan_roots =
        All-map (λ r (sc, at, rest). (sc, get_elem?-append h (v ∷ []) r sc at, rest)) orphans
          w.orphan_roots;
  }
    where
      h' : Heap
      h' = h ++ v ∷ []

      p : Persists h h'
      p = Persists-append h v

  -- The roots that hang on the main chain, after a write at a node that stays one if it is one.
  pub set-side_roots :
      (r : Ref) (sc v : SideChain)
      → get_elem? h r ≡ some sc
      → (sc.parent ≡ none
          → is_some sc.parent_index ≡ true
          → (v.parent ≡ none) × (is_some v.parent_index ≡ true))
      → All (IsSideRoot (set h r v)) sides
  set-side_roots r sc v there side = All-map side_root sides w.side_roots
    where
      side_root : (x : Ref) → IsSideRoot h x → IsSideRoot (set h r v) x
      side_root x (k, at, no_parent, index) = elim (set-keeps h r sc v there x k at) [
        | inl (same, new) ↦
            let root =
              side (ap (λ (k : SideChain). k.parent) (sym same) ∙ no_parent)
                (ap (λ (k : SideChain). is_some k.parent_index) (sym same) ∙ index) in
            (v, new, root.0, root.1)
        | inr old ↦ (k, old, no_parent, index)
      ]

  pub without_sides : IsForest age chain [] orphans h
  without_sides = record {
    tied = w.tied;
    aged = w.aged;
    nodes = w.nodes;
    side_roots = tt;
    orphan_roots = w.orphan_roots;
  }

  pub with_orphans :
      (orphans' : List Ref) → All (IsOrphan h) orphans' → IsForest age chain sides orphans' h
  with_orphans orphans' roots = record {
    tied = w.tied;
    aged = w.aged;
    nodes = w.nodes;
    side_roots = w.side_roots;
    orphan_roots = roots;
  }

  -- Another node in a place, with the same block.
  pub set-IsForest :
      (r : Ref) (sc v : SideChain)
      → get_elem? h r ≡ some sc
      → v.block ≡ sc.block
      → (is_some sc.parent ≡ true → is_some v.parent ≡ true)
      → All (IsChildOf h v) v.children
      → IsNode chain h v
      → All (IsSideRoot (set h r v)) sides
      → ((sc.parent_index ≡ none) ⊎ (is_some sc.parent ≡ true)
          → (v.parent_index ≡ none) ⊎ (is_some v.parent ≡ true))
      → IsForest age chain sides orphans (set h r v)
  set-IsForest r sc v there block parent tied node roots orphan = record {
    tied = λ x k at. elim (get_elem?-set h r x v k at) [
      | inl (here, same) ↦
          subst (λ (k : SideChain). All (IsChildOf h' k) k.children) (sym same)
            (All-map (λ q. Persists-IsChildOf h h' p v v q refl) v.children tied)
      | inr (other, old) ↦
          All-map (λ q. Persists-IsChildOf h h' p k k q refl) k.children (w.tied x k old)
    ];
    aged = subst (All (IsOrdered age)) (sym (map-set block_of h r sc v there block)) w.aged;
    nodes = λ x k at. elim (get_elem?-set h r x v k at) [
      | inl (here, same) ↦ subst (IsNode chain h') (sym same) (Persists-IsNode h h' p chain v node)
      | inr (other, old) ↦ Persists-IsNode h h' p chain k (w.nodes x k old)
    ];
    side_roots = roots;
    orphan_roots = All-map orphan_root orphans w.orphan_roots;
  }
    where
      h' : Heap
      h' = set h r v

      p : Persists h h'
      p = Persists-set h r sc v there block parent

      orphan_root : (x : Ref) → IsOrphan h x → IsOrphan h' x
      orphan_root x (k, at, o) = elim (set-keeps h r sc v there x k at) [
        | inl (same, new) ↦ (
          v,
          new,
          orphan (
              subst (λ (k : SideChain). (k.parent_index ≡ none) ⊎ (is_some k.parent ≡ true)) same
                o),
        )
        | inr old ↦ (k, old, o)
      ]

  -- A node with one child more.
  pub bear-IsForest :
      (r q : Ref) (sc : SideChain)
      → get_elem? h r ≡ some sc
      → IsChildOf h sc q
      → HasParent h q
      → IsForest age chain sides orphans (set h r (record sc { children = sc.children ++ q ∷ [] }))
  bear-IsForest r q sc there names has =
      set-IsForest r sc v there refl (λ e. e)
        (All-append (IsChildOf h v) sc.children (q ∷ []) (w.tied r sc there) (names, tt))
        (record {
          kids = All-append (HasParent h) sc.children (q ∷ []) (w.nodes r sc there).kids (has, tt);
          hangs =
              HangsOn-same chain h sc v sc.parent refl (λ none. refl) (w.nodes r sc there).hangs;
        })
        (set-side_roots r sc v there (λ no_parent index. (no_parent, index))) (λ o. o)
    where
      v : SideChain
      v = record sc { children = sc.children ++ q ∷ [] }

  -- A node that is hung on another one.
  pub hang-IsForest :
      (r q : Ref) (sc k : SideChain)
      → get_elem? h r ≡ some sc
      → get_elem? h q ≡ some k
      → sc.block.prev_block ≡ k.block.block_hash
      → All (IsSideRoot (set h r (record sc { parent = some q }))) sides
      → IsForest age chain sides orphans (set h r (record sc { parent = some q }))
  hang-IsForest r q sc k there at_q names roots =
      set-IsForest r sc (record sc { parent = some q }) there refl (λ e. refl) (w.tied r sc there)
        (record { kids = (w.nodes r sc there).kids; hangs = (k, at_q, names) }) roots
        (λ o. inr refl)

  -- The nodes that hang on others.
  pub parent_of-IsForest :
      (r q : Ref) (sc : SideChain)
      → get_elem? h r ≡ some sc
      → sc.parent ≡ some q
      → (k : SideChain) × (get_elem? h q ≡ some k) × (sc.block.prev_block ≡ k.block.block_hash)
  parent_of-IsForest r q sc at e = subst (HangsOn chain h sc) e (w.nodes r sc at).hangs
