-- ===== src/Node/Chain/MainChain.antt =====
-- What SendBlock does to a node that has no side chains and no orphans.
use dreddit.Base.{
  ℕ, suc, ◌+◌, ◌≤◌, ◌≡◌, refl, sym, ap, ◌∙◌, ◌⊎◌, inl, inr, true, false, List, [], ◌∷◌, ◌++◌,
  Option, none, some, Bytes, bytes_equal, ltb, length, get_elem?, Result, ok, ◌>>=◌, ok_injective,
  >>=-eq-ok, Bool-cases, arith,
}
use dreddit.Block.Types.{Block}
use dreddit.Node.State.{Ref, SideChain, Heap, DrNode}
use dreddit.Node.Chain.Tree.{load, alloc}
use dreddit.Node.Chain.Place.{Placed, known, placed, new_side_chain, scan_main, scan_chains}
use dreddit.Node.Chain.SendBlock.{
  extends, finish_side, join_side, after_orphans, after_side_chains, after_main,
}

get_elem?-append_last {ℓ} :
    {A : Type ℓ} (xs : List A) (x : A) → get_elem? (xs ++ x ∷ []) (length xs) ≡ some x
get_elem?-append_last [] x = refl
get_elem?-append_last (y ∷ xs) x = get_elem?-append_last xs x

load-alloc : (sc : SideChain) (heap : Heap) → load (alloc sc heap).1 (alloc sc heap).0 ≡ ok sc
unfolding load alloc
load-alloc sc heap = rw (get_elem?-append_last heap sc)

-- The new node, if there is one, hangs below the last block but one, or below an older block.
abbrev HangsLow : ℕ → Option Ref → Heap → Type 0
HangsLow total none heap = Unit {0}
HangsLow total (some r) heap =
    (i : ℕ) × (sc : SideChain) × (load heap r ≡ ok sc)
    × (sc.parent_index ≡ some i)
    × (sc.depth ≡ 0)
    × (i + 2 ≤ total)

abbrev PlacedLow : ℕ → Placed → Type 0
PlacedLow total (known heap) = Unit {0}
PlacedLow total (placed cur heap) = HangsLow total cur heap

-- The chain is used up, or `prev` is not the hash of its last block.
abbrev IsOff : Bytes → List (Option Block) → Type 0
IsOff prev chain = (chain ≡ []) ⊎ (extends prev chain ≡ ok false)

IsOff-tail :
    (prev : Bytes) (a : Option Block) (chain : List (Option Block))
    → IsOff prev (a ∷ chain)
    → IsOff prev chain
unfolding extends
IsOff-tail prev a [] off = inl refl
IsOff-tail prev a (q ∷ chain) (inl e) = cc
IsOff-tail prev a (q ∷ chain) (inr e) = inr e

-- A parent that is off the end has a block after it.
parent_inside :
    (prev : Bytes) (a : Block) (chain : List (Option Block))
    → IsOff prev (some a ∷ chain)
    → bytes_equal prev a.block_hash ≡ true
    → 1 ≤ length chain
unfolding extends
parent_inside prev a [] (inl e) same = cc
parent_inside prev a [] (inr e) same = cc
parent_inside prev a (q ∷ chain) off same = omega arith

scan_main-PlacedLow :
    (b : Block) (total index : ℕ) (chain : List (Option Block)) (cur : Option Ref) (heap : Heap)
    (p : Placed)
    → index + length chain ≡ total
    → IsOff b.prev_block chain
    → HangsLow total cur heap
    → scan_main b index chain cur heap ≡ ok p
    → PlacedLow total p
unfolding scan_main
scan_main-PlacedLow b total index [] cur heap p len off low h = rw (← (ok_injective h)) low
scan_main-PlacedLow b total index (none ∷ chain) cur heap p len off low h = cc
scan_main-PlacedLow b total index (some a ∷ chain) cur heap p len off low h =
    elim (Bool-cases (bytes_equal b.block_hash a.block_hash)) [
      | inl same ↦ rw (← (ok_injective (rw same at h))) tt
      | inr other ↦ elim (Bool-cases (bytes_equal b.prev_block a.block_hash)) [
        | inl below ↦
            scan_main-PlacedLow b total (suc index) chain _ _ p (omega arith)
              (IsOff-tail b.prev_block (some a) chain off) (hangs below) (rw (other, below) at h)
        | inr past ↦
            scan_main-PlacedLow b total (suc index) chain cur heap p (omega arith)
              (IsOff-tail b.prev_block (some a) chain off) low (rw (other, past) at h)
      ]
    ]
  where
    node : SideChain
    node = new_side_chain none (some index) b 0

    hangs :
        bytes_equal b.prev_block a.block_hash ≡ true
        → HangsLow total (some (alloc node heap).0) (alloc node heap).1
    hangs below = (
      index,
      node,
      load-alloc node heap,
      refl,
      refl,
      omega (arith, parent_inside b.prev_block a chain off below),
    )

pub record HasNoSide (n : DrNode) : Type 0 where
  pub no_side_chains : n.side_chains ≡ []
  pub no_orphans : n.orphan_chains ≡ []

not_longer : (total depth i : ℕ) → depth ≡ 0 → i + 2 ≤ total → ltb total (depth + i + 2) ≡ false
not_longer total depth i e le = ground arith

finish_side-low :
    (n : DrNode) (b : Block) (cur : Ref) (sc : SideChain)
    → n.orphan_chains ≡ []
    → load n.heap cur ≡ ok sc
    → (sc.parent_index ≡ none)
      ⊎ ((i : ℕ) × (sc.parent_index ≡ some i) × (sc.depth ≡ 0) × (i + 2 ≤ length n.blockchain))
    → finish_side n b cur ≡ ok n
unfolding finish_side
finish_side-low n b cur sc orphans loaded (inl e) = rw orphans (rw loaded (rw e))
finish_side-low n b cur sc orphans loaded (inr (i, e, d, le)) =
    rw orphans (rw loaded (rw e (rw (not_longer (length n.blockchain) sc.depth i d le))))

-- Only the heap changes, by nodes that nothing points to.
abbrev OnlyHeap : DrNode → Result DrNode → Type 0
OnlyHeap n r = (heap : Heap) × (r ≡ ok (record n { heap = heap }))

after_orphans-OnlyHeap :
    (n : DrNode) (b : Block) (p : Placed)
    → n.orphan_chains ≡ []
    → PlacedLow (length n.blockchain) p
    → OnlyHeap n (after_orphans n b p)
unfolding after_orphans
after_orphans-OnlyHeap n b (known heap) quiet low = (heap, refl)
after_orphans-OnlyHeap n b (placed none heap) quiet low = (
  _,
  finish_side-low (record n { heap = (alloc orphan heap).1 }) b (alloc orphan heap).0 orphan quiet
      (load-alloc orphan heap) (inl refl),
)
  where
    orphan : SideChain
    orphan = new_side_chain none none b 0
after_orphans-OnlyHeap n b (placed (some r) heap) quiet (i, sc, loaded, at, flat, le) =
    (heap, finish_side-low (record n { heap = heap }) b r sc quiet loaded (inr (i, at, flat, le)))

scan_no_chains :
    (b : Block) (rs : List Ref) (cur : Option Ref) (heap : Heap)
    → rs ≡ []
    → scan_chains b rs cur heap ≡ ok (placed cur heap)
unfolding scan_chains
scan_no_chains b rs cur heap e = rw e

after_main-OnlyHeap :
    (n : DrNode) (b : Block) (p : Placed)
    → HasNoSide n
    → PlacedLow (length n.blockchain) p
    → OnlyHeap n (after_main n b p)
unfolding after_main after_side_chains
after_main-OnlyHeap n b (known heap) quiet low = (heap, refl)
after_main-OnlyHeap n b (placed cur heap) quiet low =
    let (heap', e) = after_orphans-OnlyHeap n b (placed cur heap) quiet.no_orphans low in
    (
      heap',
      ap (λ (r : Result Placed). r >>= after_side_chains n b)
            (scan_no_chains b n.side_chains cur heap quiet.no_side_chains)
          ∙ ap (λ (r : Result Placed). r >>= after_orphans n b)
              (scan_no_chains b n.orphan_chains cur heap quiet.no_orphans)
          ∙ e,
    )

pub join_side-OnlyHeap :
    (n : DrNode) (b : Block) (n' : DrNode)
    → HasNoSide n
    → extends b.prev_block n.blockchain ≡ ok false
    → join_side n b ≡ ok n'
    → (heap : Heap) × (n' ≡ record n { heap = heap })
unfolding join_side
join_side-OnlyHeap n b n' quiet off h =
    let (p, scanned, h1) = >>=-eq-ok (scan_main b 0 n.blockchain none n.heap) _ h in
    let (heap, e) = after_main-OnlyHeap n b p quiet (
      scan_main-PlacedLow b (length n.blockchain) 0 n.blockchain none n.heap p (omega arith)
        (inr off) tt scanned) in
    (heap, ok_injective (sym h1 ∙ e))
