-- ===== src/Node/Chain/Place.antt =====
-- Where SendBlock puts a block that does not extend the main chain: its scans of the main chain,
-- of the side chains and of the orphans, and the orphans that it takes up.
use dreddit.Base.{
  ℕ, zero, suc, ◌+◌, ◌-◌, List, [], ◌∷◌, ◌++◌, Option, none, some, bytes_equal, if◌then◌else◌,
  length, get_elem?, set, take, last?, Result, ok, ◌>>=◌, or_panic, nil_dereference,
  index_out_of_range,
}
use dreddit.Block.Types.{Block}
use dreddit.Node.State.{Ref, SideChain, Heap}
use dreddit.Node.Chain.Tree.{load, alloc, nothing, seen, below, find_parent, recompute}

-- The variables `curSideChain` and `status` of SendBlock; `cur` is none while `status` is 0.
pub data Placed : Type 0 where
  known : Heap → Placed
  placed : Option Ref → Heap → Placed

abbrev pub new_side_chain : Option Ref → Option ℕ → Block → ℕ → SideChain
new_side_chain parent index b depth = record {
  parent = parent;
  parent_index = index;
  block = b;
  depth = depth;
  children = [];
}

-- The loop over the main chain, from `index` on.
unfoldable pub scan_main : Block → ℕ → List (Option Block) → Option Ref → Heap → Result Placed
scan_main b index [] cur heap = ok (placed cur heap)
scan_main b index (p ∷ chain) cur heap = or_panic p nil_dereference >>= λ block.
    let (r, heap') = alloc (new_side_chain none (some index) b 0) heap in
    let attached = scan_main b (suc index) chain (some r) heap' in
    let passed = scan_main b (suc index) chain cur heap in
    if bytes_equal b.block_hash block.block_hash
    then ok (known heap)
    else if bytes_equal b.prev_block block.block_hash
    then attached
    else passed

-- The new node below `r`, and `r` with one child more.
unfoldable pub attach : Block → Ref → Heap → Result (Ref × Heap)
unfolding load alloc
attach b r heap = load heap r >>= λ sc.
    let (q, heap') = alloc (new_side_chain (some r) sc.parent_index b (sc.depth + 1)) heap in
    ok (q, set heap' r (record sc { children = sc.children ++ q ∷ [] }))

-- The loop over node.SideChains, and the one over node.OrphanChains.
unfoldable pub scan_chains : Block → List Ref → Option Ref → Heap → Result Placed
unfolding find_parent attach
scan_chains b [] cur heap = ok (placed cur heap)
scan_chains b (r ∷ rs) cur heap =
    find_parent (suc (length heap)) heap b.prev_block b.block_hash r >>= λ f. elim f [
      | nothing ↦ scan_chains b rs cur heap
      | seen ↦ ok (known heap)
      | below q ↦ attach b q heap >>= λ (new, heap'). scan_chains b rs (some new) heap'
    ]

-- `xs[j] = xs[len(xs)-1]; xs = xs[0 : len(xs)-1]`
abbrev pub swap_delete : ℕ → List Ref → List Ref
swap_delete j xs = elim (last? xs) [ none ↦ xs | some l ↦ take (length xs - 1) (set xs j l) ]

-- The loop over the orphans. It runs `rounds` rounds from `i` on, where `rounds` is the length of
-- node.OrphanChains at its start, and the variable `deleted` stays 0.
unfoldable pub adopt : Block → Ref → ℕ → ℕ → List Ref → Heap → Result (List Ref × Heap)
unfolding load recompute
adopt b cur zero i orphans heap = ok (orphans, heap)
adopt b cur (suc rounds) i orphans heap = or_panic (get_elem? orphans i) index_out_of_range >>= λ r.
    load heap r >>= λ oc.
    let taken = load heap cur >>= λ sc.
    let heap1 = set heap cur (record sc { children = sc.children ++ r ∷ [] }) in
    load heap1 r >>= λ oc1.
    recompute (suc (length heap)) sc.depth sc.parent_index
      (set heap1 r (record oc1 { parent = some cur })) r
    >>= λ heap2. adopt b cur rounds (suc i) (swap_delete i orphans) heap2 in
    let left = adopt b cur rounds (suc i) orphans heap in
    if bytes_equal b.block_hash oc.block.prev_block then taken else left
