-- ===== src/Node/Chain/Frame.antt =====
-- The heap of side chains of src/node/miner.go, without its marks: which node hangs below which. A
-- node's children name its hash as their predecessor's, so that a walk down them meets ever younger
-- blocks, of which there are no more than nodes.
use mathlib.Core.Option.{some-injective}
use dreddit.Base.{
  ℕ, zero, suc, ◌≤◌, ◌<◌, ◌≡◌, refl, ap, ok, List, [], ◌∷◌, map, some, Bytes, ltb, length,
  get_elem?, if◌then◌else◌, All, length-map, arith,
}
use dreddit.Block.Types.{Block}
use dreddit.Node.State.{Ref, SideChain, Heap}
use dreddit.Node.Chain.Tree.{load}

-- The child is there, and its block names that of its parent.
abbrev pub IsChildOf : Heap → SideChain → Ref → Type 0
IsChildOf heap sc q =
    (k : SideChain) × (get_elem? heap q ≡ some k) × (k.block.prev_block ≡ sc.block.block_hash)

abbrev pub IsTied : Heap → Type 0
IsTied heap =
    (r : Ref) (sc : SideChain) → get_elem? heap r ≡ some sc → All (IsChildOf heap sc) sc.children

abbrev pub block_of : SideChain → Block
block_of sc = sc.block

abbrev pub blocks_in : Heap → List Block
blocks_in heap = map block_of heap

pub load-at :
    (heap : Heap) (r : Ref) (sc : SideChain) → get_elem? heap r ≡ some sc → load heap r ≡ ok sc
unfolding load
load-at heap r sc at = rw at refl

-- An age of hashes puts each block after its predecessor: no hash leads back to itself.
abbrev pub IsOrdered : (Bytes → ℕ) → Block → Type 0
IsOrdered age b = age b.prev_block < age b.block_hash

abbrev pub IsAged : (Bytes → ℕ) → Heap → Type 0
IsAged age heap = All (IsOrdered age) (blocks_in heap)

module _ (age : Bytes → ℕ) where
  -- How many blocks are younger, and how many are older.
  pub younger : ℕ → List Block → ℕ
  younger a [] = 0
  younger a (b ∷ bs) = if ltb a (age b.block_hash) then suc (younger a bs) else younger a bs

  pub elder : ℕ → List Block → ℕ
  elder a [] = 0
  elder a (b ∷ bs) = if ltb (age b.block_hash) a then suc (elder a bs) else elder a bs

  younger-le : (a : ℕ) (bs : List Block) → younger a bs ≤ length bs
  unfolding younger
  younger-le a [] = omega arith
  younger-le a (b ∷ bs) = ground (arith, younger-le a bs)

  elder-le : (a : ℕ) (bs : List Block) → elder a bs ≤ length bs
  unfolding elder
  elder-le a [] = omega arith
  elder-le a (b ∷ bs) = ground (arith, elder-le a bs)

  younger-antitone : (a a' : ℕ) (bs : List Block) → a ≤ a' → younger a' bs ≤ younger a bs
  unfolding younger
  younger-antitone a a' [] le = omega arith
  younger-antitone a a' (b ∷ bs) le = ground (arith, younger-antitone a a' bs le)

  elder-monotone : (a a' : ℕ) (bs : List Block) → a ≤ a' → elder a bs ≤ elder a' bs
  unfolding elder
  elder-monotone a a' [] le = omega arith
  elder-monotone a a' (b ∷ bs) le = ground (arith, elder-monotone a a' bs le)

  pub younger-drops :
      (heap : Heap) (q : Ref) (k : SideChain) (a : ℕ)
      → get_elem? heap q ≡ some k
      → a < age k.block.block_hash
      → younger (age k.block.block_hash) (blocks_in heap) < younger a (blocks_in heap)
  unfolding younger
  younger-drops [] q k a there lt = cc
  younger-drops (sc ∷ heap) zero k a there lt =
      let le : younger (age k.block.block_hash) (blocks_in heap) ≤ younger a (blocks_in heap) =
        younger-antitone a (age k.block.block_hash) (blocks_in heap) (omega arith) in
      let same : sc.block ≡ k.block = ap block_of (some-injective _ _ there) in
      rw same (ground arith)
  younger-drops (sc ∷ heap) (suc q) k a there lt = ground (arith, younger-drops heap q k a there lt)

  pub elder-drops :
      (heap : Heap) (q : Ref) (k : SideChain) (a : ℕ)
      → get_elem? heap q ≡ some k
      → age k.block.block_hash < a
      → elder (age k.block.block_hash) (blocks_in heap) < elder a (blocks_in heap)
  unfolding elder
  elder-drops [] q k a there lt = cc
  elder-drops (sc ∷ heap) zero k a there lt =
      let le : elder (age k.block.block_hash) (blocks_in heap) ≤ elder a (blocks_in heap) =
        elder-monotone (age k.block.block_hash) a (blocks_in heap) (omega arith) in
      let same : sc.block ≡ k.block = ap block_of (some-injective _ _ there) in
      rw same (ground arith)
  elder-drops (sc ∷ heap) (suc q) k a there lt = ground (arith, elder-drops heap q k a there lt)

  pub fewer_than_nodes : (heap : Heap) (a : ℕ) → younger a (blocks_in heap) < suc (length heap)
  fewer_than_nodes heap a = omega (arith, younger-le a (blocks_in heap), length-map heap block_of)

  pub fewer_before : (heap : Heap) (a : ℕ) → elder a (blocks_in heap) < suc (length heap)
  fewer_before heap a = omega (arith, elder-le a (blocks_in heap), length-map heap block_of)

  pub IsAged-at :
      (heap : Heap) (r : Ref) (sc : SideChain)
      → IsAged age heap
      → get_elem? heap r ≡ some sc
      → IsOrdered age sc.block
  IsAged-at [] r sc w there = cc
  IsAged-at (k ∷ heap) zero sc w there = rw (← (ap block_of (some-injective _ _ there))) w.0
  IsAged-at (k ∷ heap) (suc r) sc w there = IsAged-at heap r sc w.1 there

  -- Fewer blocks are younger than a child than are younger than its parent.
  pub child-drops :
      (heap : Heap) (sc : SideChain) (q : Ref) (w : IsChildOf heap sc q)
      → IsAged age heap
      → younger (age w.0.block.block_hash) (blocks_in heap)
        < younger (age sc.block.block_hash) (blocks_in heap)
  child-drops heap sc q (k, there, names) aged =
      let ordered : age k.block.prev_block < age k.block.block_hash =
        IsAged-at heap q k aged there in
      younger-drops heap q k (age sc.block.block_hash) there (rw (← (ap age names)) ordered)
