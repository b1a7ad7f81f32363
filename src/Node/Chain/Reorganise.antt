-- ===== src/Node/Chain/Reorganise.antt =====
-- The end of SendBlock in src/node/miner.go: a side chain that is longer than the main chain.
use dreddit.Base.{
  ℕ, zero, suc, ◌+◌, ◌-◌, List, [], ◌∷◌, ◌++◌, Option, none, some, Bytes, bytes_equal, ltb,
  if◌then◌else◌, length, get_elem?, set, drop, replicate, Result, ok, panic, out_of_fuel, ◌>>=◌,
  or_panic, nil_dereference, slice_bounds, index_out_of_range,
}
use dreddit.Block.Types.{Block}
use dreddit.Node.State.{Ref, Heap, DrNode}
use dreddit.Node.Chain.Tree.{load, alloc, recompute}
use dreddit.Node.Chain.Place.{new_side_chain, swap_delete}

-- `newSideNodes[i-1].Children = append(…)`, if there is such a node
abbrev pub link_child : Option Ref → Ref → Heap → Result Heap
link_child none r heap = ok heap
link_child (some q) r heap =
    load heap q >>= λ sc. ok (set heap q (record sc { children = sc.children ++ r ∷ [] }))

-- `newSideNodes`: a node for each block that leaves the main chain, `i` of them made so far.
unfoldable pub side_nodes :
    ℕ → ℕ → List (Option Block) → Option Ref → Heap → Result (List Ref × Heap)
unfolding load alloc
side_nodes break_point i [] parent heap = ok ([], heap)
side_nodes break_point i (p ∷ ps) parent heap = or_panic p nil_dereference >>= λ block.
    let (r, heap1) = alloc (new_side_chain parent (some break_point) block i) heap in
    link_child parent r heap1 >>= λ heap2.
    side_nodes break_point (suc i) ps (some r) heap2 >>= λ (rs, heap3). ok (r ∷ rs, heap3)

-- `sc.ParentIndex > breakPoint`, and the place `sc.ParentIndex-breakPoint-1`
abbrev pub beyond : ℕ → Option ℕ → Option ℕ
beyond break_point none = none
beyond break_point (some i) = if ltb break_point i then some (i - break_point - 1) else none

-- The loop over the side chains. As in `adopt`, the variable `deleted` is still 0 here.
unfoldable pub move_side_chains : ℕ → List Ref → ℕ → ℕ → List Ref → Heap → Result (List Ref × Heap)
unfolding load recompute
move_side_chains break_point nodes zero i chains heap = ok (chains, heap)
move_side_chains break_point nodes (suc rounds) i chains heap =
    or_panic (get_elem? chains i) index_out_of_range >>= λ r. load heap r >>= λ sc.
    elim (beyond break_point sc.parent_index) [
      | none ↦ move_side_chains break_point nodes rounds (suc i) chains heap
      | some place ↦ or_panic (get_elem? nodes place) index_out_of_range >>= λ q.
          load heap q >>= λ new_parent.
          recompute (suc (length heap)) new_parent.depth (some break_point)
            (set heap r (record sc { parent = some q })) r
          >>= λ heap'.
              move_side_chains break_point nodes rounds (suc i) (swap_delete i chains) heap'
    ]

-- The children of `parent` other than the one on the new main chain become side chains.
unfoldable pub split_children : Bytes → ℕ → List Ref → List Ref → Heap → Result (List Ref × Heap)
unfolding load recompute
split_children on_path index [] chains heap = ok (chains, heap)
split_children on_path index (r ∷ rs) chains heap = load heap r >>= λ sc.
    let kept = split_children on_path index rs chains heap in
    let split =
      recompute (suc (length heap)) 0 (some index) (set heap r (record sc { parent = none })) r
      >>= λ heap'. split_children on_path index rs (chains ++ r ∷ []) heap' in
    if bytes_equal on_path sc.block.block_hash then kept else split

-- The loop from `curSideChain` up to the node that has no parent, on fuel.
-- It does not write the place of that last node, which stays nil.
unfoldable pub heal :
    ℕ
    → ℕ
    → Ref
    → List (Option Block)
    → List Ref
    → Heap
    → Result (List (Option Block) × List Ref × Heap)
unfolding split_children
heal zero break_point cur new_main chains heap = out_of_fuel
heal (suc fuel) break_point cur new_main chains heap = load heap cur >>= λ sc. elim sc.parent [
  | none ↦ ok (new_main, chains, heap)
  | some q ↦ load heap q >>= λ parent.
      if ltb sc.depth (length new_main)
      then (split_children sc.block.block_hash (break_point + sc.depth + 1) parent.children chains
            heap
          >>= λ (chains', heap').
              heal fuel break_point q (set new_main sc.depth (some sc.block)) chains' heap')
      else panic index_out_of_range
]

-- `curSideChain` has this depth and hangs at this index of the main chain.
unfoldable pub reorganise : DrNode → Ref → ℕ → ℕ → Result DrNode
unfolding side_nodes move_side_chains heal
reorganise n cur depth break_point =
    if ltb (length n.blockchain) (break_point + 1)
    then panic slice_bounds
    else side_nodes break_point 0 (drop (break_point + 1) n.blockchain) none n.heap
      >>= λ (nodes, heap1).
          move_side_chains break_point nodes (length n.side_chains) 0 n.side_chains heap1
          >>= λ (chains1, heap2).
              heal (suc (length heap2)) break_point cur (replicate (depth + 1) none) chains1 heap2
              >>= λ (new_main, chains2, heap3). ok (record n {
                blockchain = n.blockchain ++ new_main;
                side_chains = chains2;
                heap = heap3;
              })
