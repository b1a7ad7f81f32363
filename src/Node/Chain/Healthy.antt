-- ===== src/Node/Chain/Healthy.antt =====
-- SendBlock of src/node/miner.go off the main chain: it ends, and leaves the node healthy, or its
-- main chain with a gap.
use dreddit.Base.{
  ℕ, suc, ◌+◌, ◌<◌, ◌≡◌, refl, sym, ap, ◌∙◌, ◌⊎◌, inl, inr, false, List, [], Option, none, some,
  Bytes, ltb, if◌then◌else◌, length, get_elem?, drop, replicate, get_elem?-drop, get_elem?-joint,
  get_elem?-there, All-map, Option-cases, arith, ok, Ends, Ends-if, Ends-bind, Ends-map,
}
use dreddit.Block.Types.{Block}
use dreddit.Node.State.{Ref, SideChain, Heap, DrNode}
use dreddit.Node.Chain.Place.{Placed, known, placed, scan_main, scan_chains, adopt}
use dreddit.Node.Chain.Reorganise.{side_nodes, move_side_chains, heal, reorganise}
use dreddit.Node.Chain.SendBlock.{
  finish_side, or_orphan, after_orphans, after_side_chains, after_main, join_side,
}
use dreddit.Node.Chain.Frame.{load-at, IsOrdered, fewer_before}
use dreddit.Node.Chain.Forest.{IsForest, Persists-trans}
use dreddit.Node.Chain.Planting.{without_sides, parent_of-IsForest}
use dreddit.Node.Chain.Placing.{
  IsDeep, IsAt, Persists-IsAt, PlacedWell, IsGrown, root-IsGrown, scan_main-Ends, scan_chains-Ends,
}
use dreddit.Node.Chain.Adopting.{IsAdopted, adopt-Ends}
use dreddit.Node.Chain.Moving.{IsRun, IsOpen, MadeWell, side_nodes-Ends}
use dreddit.Node.Chain.Shifting.{IsLeft, move_side_chains-Ends}
use dreddit.Node.Chain.Climb.{IsClimb}
use dreddit.Node.Chain.Healing.{IsHeadless, heal-Ends}

-- A place of the main chain is nil, as every reorganisation leaves one.
abbrev pub HasGap : List (Option Block) → Type 0
HasGap chain = (i : ℕ) × (get_elem? chain i ≡ some none)

-- The main chain is a run of blocks, and the side chains and orphans are a forest.
pub record IsHealthy (age : Bytes → ℕ) (n : DrNode) : Type 0 where
  pub run : IsRun age n.blockchain
  pub forest : IsForest age n.blockchain n.side_chains n.orphan_chains n.heap
  pub deep : IsDeep n.heap

abbrev pub IsWell : (Bytes → ℕ) → DrNode → Type 0
IsWell age n = IsHealthy age n ⊎ HasGap n.blockchain

module _ (age : Bytes → ℕ) where
  abbrev Gapped : DrNode → Type 0
  Gapped n = HasGap n.blockchain

  IsOpen-IsClimb :
      (chain : List (Option Block)) (orphans : List Ref) (break_point : ℕ) (h : Heap)
      → IsOpen age chain [] orphans break_point h
      → IsClimb age h
  IsOpen-IsClimb chain orphans break_point h (w, deep) = record {
    tied = w.tied;
    aged = w.aged;
    deep = deep;
    parents = parent_of-IsForest age chain [] orphans h w;
  }

  heal-from_top :
      (depth break_point : ℕ) (cur : Ref) (chains : List Ref) (h : Heap) (sc : SideChain)
      → IsClimb age h
      → get_elem? h cur ≡ some sc
      → Ends
          (IsHeadless age)
          (heal (suc (length h)) break_point cur (replicate (depth + 1) none) chains h)
  heal-from_top depth break_point cur chains h sc w at =
      heal-Ends age (suc (length h)) break_point cur (replicate (depth + 1) none) chains h sc w at
        (fewer_before age h (age sc.block.block_hash)) first
    where
      one_more : depth + 1 ≡ suc depth
      one_more = omega arith

      first : get_elem? (replicate {A = Option Block} (depth + 1) none) 0 ≡ some none
      first = ap (λ (k : ℕ). get_elem? (replicate {A = Option Block} k none) 0) one_more

  module _ (n : DrNode) (w : IsHealthy age n) where
    -- The block at the break point, which is inside the chain.
    at_break_point :
        (break_point : ℕ)
        → ltb (length n.blockchain) (break_point + 1) ≡ false
        → (a : Block) × (get_elem? n.blockchain break_point ≡ some (some a))
    at_break_point break_point inside =
        let lt : break_point < length n.blockchain = ground arith in
        let (p, at) = get_elem?-there n.blockchain break_point lt in
        elim (Option-cases p) [
          | inl nil ↦ absurd (w.run.there break_point (at ∙ ap some nil))
          | inr (a, e) ↦ (a, at ∙ ap some e)
        ]

    after_break :
        (break_point j : ℕ) (p : Option Block)
        → get_elem? (drop (break_point + 1) n.blockchain) j ≡ some p
        → get_elem? n.blockchain (suc (break_point + 0 + j)) ≡ some p
    after_break break_point j p e =
        ap (get_elem? n.blockchain) same ∙ sym (get_elem?-drop (break_point + 1) j n.blockchain) ∙ e
      where
        same : suc (break_point + 0 + j) ≡ break_point + 1 + j
        same = omega arith

    reorganise-Ends :
        (cur : Ref) (b : Block) (depth break_point : ℕ)
        → IsAt b n.heap cur
        → Ends Gapped (reorganise n cur depth break_point)
    unfolding reorganise
    reorganise-Ends cur b depth break_point at =
        Ends-if Gapped (ltb (length n.blockchain) (break_point + 1)) _ _ (λ outside. tt)
          (λ inside.
            let (a, at_break) = at_break_point break_point inside in
            Ends-bind
              (MadeWell age n.blockchain w.run n.side_chains n.orphan_chains break_point 0 n.heap)
              Gapped (side_nodes break_point 0 (drop (break_point + 1) n.blockchain) none n.heap) _
              (side_nodes-Ends age n.blockchain w.run n.side_chains n.orphan_chains break_point 0
                (drop (break_point + 1) n.blockchain) a none n.heap (after_break break_point)
                (ap (get_elem? n.blockchain) (no_further break_point) ∙ at_break) refl
                (w.forest, w.deep))
              (λ (nodes, h1) run1 (w1, p1, stand).
                Ends-bind (IsLeft age n.blockchain n.orphan_chains break_point h1) Gapped
                  (move_side_chains break_point nodes (length n.side_chains) 0 n.side_chains h1) _
                  (move_side_chains-Ends age n.blockchain n.orphan_chains break_point nodes
                    (length n.side_chains) 0 n.side_chains h1
                    (without_sides age n.blockchain n.side_chains n.orphan_chains h1 w1.0, w1.1)
                    (All-map (λ r (sc, at_r, root, index). (sc, at_r, inl root)) n.side_chains
                      w1.0.side_roots)
                    stand)
                  (λ (chains, h2) run2 (w2, p2).
                    let (sc, at2, same) =
                      Persists-IsAt n.heap h2 b cur (Persists-trans n.heap h1 h2 p1 p2) at in
                    Ends-bind (IsHeadless age) Gapped
                      (heal (suc (length h2)) break_point cur (replicate (depth + 1) none) chains
                        h2)
                      _
                      (heal-from_top depth break_point cur chains h2 sc
                        (IsOpen-IsClimb n.blockchain n.orphan_chains break_point h2 w2) at2)
                      (λ (new_main, chains3, h3) run3 headless.
                        (length n.blockchain, get_elem?-joint n.blockchain new_main ∙ headless)))))
      where
        no_further : (break_point : ℕ) → break_point + 0 ≡ break_point
        no_further break_point = omega arith

  module _ (b : Block) (ordered : IsOrdered age b) where
    finish_side-Ends :
        (n : DrNode) (cur : Ref)
        → IsHealthy age n
        → IsAt b n.heap cur
        → Ends (IsWell age) (finish_side n b cur)
    unfolding finish_side
    finish_side-Ends n cur w at =
        Ends-bind (λ (r : List Ref × Heap). IsAdopted age n.blockchain n.side_chains b cur r.0 r.1)
          (IsWell age) (adopt b cur (length n.orphan_chains) 0 n.orphan_chains n.heap) _
          (adopt-Ends age n.blockchain n.side_chains b cur (length n.orphan_chains) 0
            n.orphan_chains n.heap (w.forest, w.deep, at))
          (λ (orphans, h) run (w1, deep1, (sc, at1, same)).
            let n1 = record n { orphan_chains = orphans; heap = h } in
            let healthy : IsHealthy age n1 = record { run = w.run; forest = w1; deep = deep1 } in
            rw (load-at h cur sc at1) (by_index n1 sc (sc.parent_index) healthy (sc, at1, same)))
      where
        by_index :
            (n1 : DrNode) (sc : SideChain) (o : Option ℕ)
            → IsHealthy age n1
            → IsAt b n1.heap cur
            → Ends (IsWell age) (elim o [
              | none ↦ ok n1
              | some i ↦
                  if ltb (length n.blockchain) (sc.depth + i + 2)
                  then reorganise n1 cur sc.depth i
                  else ok n1
            ])
        by_index n1 sc none w1 at1 = inl w1
        by_index n1 sc (some i) w1 at1 =
            Ends-if (IsWell age) (ltb (length n.blockchain) (sc.depth + i + 2)) _ _
              (λ longer.
                Ends-map Gapped (IsWell age) (reorganise n1 cur sc.depth i)
                  (reorganise-Ends n1 w1 cur b sc.depth i at1) (λ n2 gap. inr gap))
              (λ shorter. inl w1)

    with_heap-IsHealthy :
        (n : DrNode) (h : Heap)
        → IsHealthy age n
        → IsGrown age n.blockchain n.side_chains n.orphan_chains b ordered h
        → IsHealthy age (record n { heap = h })
    with_heap-IsHealthy n h w (w1, deep) = record { run = w.run; forest = w1; deep = deep }

    module _ (n : DrNode) (w : IsHealthy age n) where
      abbrev Placing : Placed → Type 0
      Placing p = PlacedWell age n.blockchain n.side_chains n.orphan_chains b ordered p

      after_orphans-Ends : (p : Placed) → Placing p → Ends (IsWell age) (after_orphans n b p)
      unfolding after_orphans or_orphan
      after_orphans-Ends (known h) v = inl (with_heap-IsHealthy n h w v)
      after_orphans-Ends (placed none h) (v, at) =
          let (v', at') =
            root-IsGrown age n.blockchain n.side_chains n.orphan_chains b ordered h none (inl refl)
              v in
          finish_side-Ends _ _ (with_heap-IsHealthy n _ w v') at'
      after_orphans-Ends (placed (some r) h) (v, at) =
          finish_side-Ends _ r (with_heap-IsHealthy n h w v) at

      after_side_chains-Ends :
          (p : Placed) → Placing p → Ends (IsWell age) (after_side_chains n b p)
      unfolding after_side_chains
      after_side_chains-Ends (known h) v = inl (with_heap-IsHealthy n h w v)
      after_side_chains-Ends (placed cur h) (v, at) =
          Ends-bind Placing (IsWell age) (scan_chains b n.orphan_chains cur h) _
            (scan_chains-Ends age n.blockchain n.side_chains n.orphan_chains b ordered
              n.orphan_chains cur h
              (All-map (λ r (sc, at, o). (sc, at)) n.orphan_chains v.0.orphan_roots) v at)
            (λ p run. after_orphans-Ends p)

      after_main-Ends : (p : Placed) → Placing p → Ends (IsWell age) (after_main n b p)
      unfolding after_main
      after_main-Ends (known h) v = inl (with_heap-IsHealthy n h w v)
      after_main-Ends (placed cur h) (v, at) =
          Ends-bind Placing (IsWell age) (scan_chains b n.side_chains cur h) _
            (scan_chains-Ends age n.blockchain n.side_chains n.orphan_chains b ordered n.side_chains
              cur h (All-map (λ r (sc, at, root, index). (sc, at)) n.side_chains v.0.side_roots) v
              at)
            (λ p run. after_side_chains-Ends p)

      pub join_side-Ends : Ends (IsWell age) (join_side n b)
      unfolding join_side
      join_side-Ends =
          Ends-bind Placing (IsWell age) (scan_main b 0 n.blockchain none n.heap) _
            (scan_main-Ends age n.blockchain n.side_chains n.orphan_chains b ordered 0 n.blockchain
              none n.heap (λ j a e. ap (get_elem? n.blockchain) (start j) ∙ e) (w.forest, w.deep)
              tt)
            (λ p run. after_main-Ends p)
        where
          start : (j : ℕ) → 0 + j ≡ j
          start j = omega arith
