-- ===== src/Node/Chain/Tree.antt =====
-- The side chains as nodes of a heap: `FindParent` and `Recompute` of src/node/miner.go.
-- The recursions go down the children on fuel; one more than the nodes of the heap is enough for a
-- tree.
use dreddit.Base.{
  ℕ, zero, suc, ◌+◌, List, [], ◌∷◌, ◌++◌, Option, Bytes, bytes_equal, if◌then◌else◌, length,
  get_elem?, set, Result, ok, out_of_fuel, ◌>>=◌, or_panic, nil_dereference,
}
use dreddit.Node.State.{Ref, SideChain, Heap}

unfoldable pub load : Heap → Ref → Result SideChain
load heap r = or_panic (get_elem? heap r) nil_dereference

-- `&SideChain{…}`
unfoldable pub alloc : SideChain → Heap → Ref × Heap
alloc sc heap = (length heap, heap ++ sc ∷ [])

-- What FindParent returns: nil, the mark of index -2, or a side chain.
pub data Found : Type 0 where
  nothing : Found
  seen : Found
  below : Ref → Found

-- The children are tried in order, by `find`, until one answers.
abbrev pub first_child : (Ref → Result Found) → List Ref → Result Found
first_child find [] = ok nothing
first_child find (r ∷ rs) =
    let rest = first_child find rs in
    find r >>= λ f. elim f [ nothing ↦ rest | seen ↦ ok seen | below q ↦ ok (below q) ]

unfoldable pub find_parent : ℕ → Heap → Bytes → Bytes → Ref → Result Found
unfolding load
find_parent zero heap prev cur r = out_of_fuel
find_parent (suc fuel) heap prev cur r = load heap r >>= λ sc.
    let deeper = first_child (find_parent fuel heap prev cur) sc.children in
    if bytes_equal sc.block.block_hash cur
    then ok seen
    else if bytes_equal sc.block.block_hash prev
    then ok (below r)
    else deeper

-- The children are recomputed in order, by `step`.
abbrev pub each_child : (Heap → Ref → Result Heap) → Heap → List Ref → Result Heap
each_child step heap [] = ok heap
each_child step heap (r ∷ rs) = step heap r >>= λ heap'. each_child step heap' rs

unfoldable pub recompute : ℕ → ℕ → Option ℕ → Heap → Ref → Result Heap
unfolding load
recompute zero depth index heap r = out_of_fuel
recompute (suc fuel) depth index heap r = load heap r >>= λ sc.
    each_child (recompute fuel (depth + 1) index)
      (set heap r (record sc { depth = depth + 1; parent_index = index })) sc.children
