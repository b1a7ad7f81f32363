-- ===== src/Node/Chain/Search.antt =====
-- What `FindParent` of src/node/miner.go finds.
use mathlib.Core.List.{Memᴰ}
use mathlib.Core.List.Memᴰ.{head, tail}
use mathlib.Core.Path.{subst}
use mathlib.Core.Option.{some-injective}
use dreddit.Base.{
  ℕ, zero, suc, ◌<◌, ◌≡◌, refl, sym, ◌∙◌, inl, inr, true, false, List, [], ◌∷◌, some, Bytes,
  bytes_equal, length, get_elem?, All, All-map, Result, ok, Bool-cases, arith,
}
use dreddit.Node.State.{Ref, SideChain, Heap}
use dreddit.Node.Chain.Tree.{load, Found, nothing, seen, below, first_child, find_parent}
use dreddit.Node.Chain.Frame.{IsTied, IsAged, blocks_in, younger, child-drops, fewer_than_nodes}

-- A node that is reached from `r` down the children.
pub data Under (heap : Heap) : Ref → Ref → Type 0 where
  itself : {r : Ref} → Under heap r r
  down :
      {r q x : Ref} (sc : SideChain)
      → get_elem? heap r ≡ some sc
      → Memᴰ q sc.children
      → Under heap q x
      → Under heap r x

-- The same, with the number of steps.
pub data Beneath (heap : Heap) : Ref → ℕ → Ref → Type 0 where
  here : {r : Ref} → Beneath heap r 0 r
  deeper :
      {r q x : Ref} {n : ℕ} (sc : SideChain)
      → get_elem? heap r ≡ some sc
      → Memᴰ q sc.children
      → Beneath heap q n x
      → Beneath heap r (suc n) x

pub Beneath-Under : (heap : Heap) (r x : Ref) (n : ℕ) → Beneath heap r n x → Under heap r x
Beneath-Under heap r r' zero here = itself
Beneath-Under heap r x (suc n) (deeper {q = q} sc at child under) =
    down sc at child (Beneath-Under heap q x n under)

module _ (heap : Heap) (prev cur : Bytes) where
  -- What an answer to a search among nodes says, where `Among x` says that `x` is one of them.
  abbrev pub Answer : (Ref → Type 0) → Found → Type 0
  Answer Among nothing =
      (x : Ref) (k : SideChain)
      → Among x
      → get_elem? heap x ≡ some k
      → (bytes_equal k.block.block_hash cur ≡ false) × (bytes_equal k.block.block_hash prev ≡ false)
  Answer Among seen =
      (x : Ref) × (k : SideChain) × Among x
      × (get_elem? heap x ≡ some k)
      × (bytes_equal k.block.block_hash cur ≡ true)
  Answer Among (below x) =
      (k : SideChain) × Among x
      × (get_elem? heap x ≡ some k)
      × (bytes_equal k.block.block_hash cur ≡ false)
      × (bytes_equal k.block.block_hash prev ≡ true)

  abbrev pub Finds : (Ref → Type 0) → Result Found → Type 0
  Finds Among found = (f : Found) × (found ≡ ok f) × Answer Among f

  -- Below one of the children.
  abbrev AmongAll : List Ref → Ref → Type 0
  AmongAll cs x = (c : Ref) × Memᴰ c cs × Under heap c x

  in_tail : {c : Ref} {cs : List Ref} (x : Ref) → AmongAll cs x → AmongAll (c ∷ cs) x
  in_tail x (d, there, w) = (d, tail there, w)

  nothing_there :
      (c : Ref) (cs : List Ref)
      → Answer (Under heap c) nothing
      → Answer (AmongAll cs) nothing
      → Answer (AmongAll (c ∷ cs)) nothing
  nothing_there c cs none_here none_there x k (d, head e, w) there =
      none_here x k (subst (λ (y : Ref). Under heap y x) e w) there
  nothing_there c cs none_here none_there x k (d, tail later, w) there =
      none_there x k (d, later, w) there

  -- Nothing below the first child, and then the answer of the others.
  skip :
      (c : Ref) (cs : List Ref) (f : Found)
      → Answer (Under heap c) nothing
      → Answer (AmongAll cs) f
      → Answer (AmongAll (c ∷ cs)) f
  skip c cs nothing none_here none_there = nothing_there c cs none_here none_there
  skip c cs seen none_here (x, k, among, at, same) = (x, k, in_tail x among, at, same)
  skip c cs (below x) none_here (k, among, at, other, same) = (k, in_tail x among, at, other, same)

  first_child-Finds :
      (find : Ref → Result Found) (cs : List Ref)
      → All (λ c. Finds (Under heap c) (find c)) cs
      → Finds (AmongAll cs) (first_child find cs)
  first_child-Finds find [] w = (nothing, refl, no_child)
    where
      no_child : Answer (AmongAll []) nothing
      no_child x k (c, there, under) at = elim there [ ]
  first_child-Finds find (c ∷ cs) ((nothing, found, a), w) =
      let (f, rest, a') = first_child-Finds find cs w in (f, rw found rest, skip c cs f a a')
  first_child-Finds find (c ∷ cs) ((seen, found, (x, k, under, at, same)), w) =
      (seen, rw found refl, (x, k, (c, head refl, under), at, same))
  first_child-Finds find (c ∷ cs) ((below x, found, (k, under, at, other, same)), w) =
      (below x, rw found refl, (k, (c, head refl, under), at, other, same))

  module _ (r : Ref) (sc : SideChain) (there : get_elem? heap r ≡ some sc)
      (not_cur : bytes_equal sc.block.block_hash cur ≡ false)
      (not_prev : bytes_equal sc.block.block_hash prev ≡ false) where
    nothing_below : Answer (AmongAll sc.children) nothing → Answer (Under heap r) nothing
    nothing_below a x k itself at =
        subst
          (λ (k : SideChain).
            (bytes_equal k.block.block_hash cur ≡ false)
            × (bytes_equal k.block.block_hash prev ≡ false))
          (some-injective _ _ (sym there ∙ at)) (not_cur, not_prev)
    nothing_below a x k (down {q = q} sc' there' child under) at =
        let same = some-injective _ _ (sym there' ∙ there) in
        a x k (q, subst (λ (k : SideChain). Memᴰ q k.children) same child, under) at

    -- The node itself matches neither, and then the answer of its children.
    descend : (f : Found) → Answer (AmongAll sc.children) f → Answer (Under heap r) f
    descend nothing a = nothing_below a
    descend seen (x, k, (c, child, under), at, same) = (x, k, down sc there child under, at, same)
    descend (below x) (k, (c, child, under), at, other, same) =
        (k, down sc there child under, at, other, same)

  module _ (age : Bytes → ℕ) (tied : IsTied heap) (aged : IsAged age heap) where
    find_parent-Finds :
        (fuel : ℕ) (r : Ref) (sc : SideChain)
        → get_elem? heap r ≡ some sc
        → younger age (age sc.block.block_hash) (blocks_in heap) < fuel
        → Finds (Under heap r) (find_parent fuel heap prev cur r)
    unfolding find_parent load
    find_parent-Finds zero r sc there enough = absurd (omega arith)
    find_parent-Finds (suc fuel) r sc there enough =
        let children = first_child-Finds (find_parent fuel heap prev cur) sc.children (
          All-map
            (λ c w.
              find_parent-Finds fuel c w.0 w.1 (omega (arith, child-drops age heap sc c w aged)))
            sc.children (tied r sc there)) in
        elim (Bool-cases (bytes_equal sc.block.block_hash cur)) [
          | inl same ↦ (seen, rw (there, same) refl, (r, sc, itself, there, same))
          | inr other ↦ elim (Bool-cases (bytes_equal sc.block.block_hash prev)) [
            | inl parent ↦
                (below r, rw (there, other, parent) refl, (sc, itself, there, other, parent))
            | inr away ↦
                let (f, found, a) = children in
                (f, rw (there, other, away) found, descend r sc there other away f a)
          ]
        ]

    -- On a heap whose children name their parents, and where no hash leads back to itself,
    -- `FindParent` returns when it has more fuel than the heap has nodes. It answers nil only if
    -- no node below `r`, `r` included, has the hash of the block or of its predecessor; the mark
    -- of index -2 only if a node there has the hash of the block; and a node only if it is there
    -- and has the hash of the predecessor and not that of the block.
    pub find_parent-answers :
        (r : Ref) (sc : SideChain)
        → get_elem? heap r ≡ some sc
        → Finds (Under heap r) (find_parent (suc (length heap)) heap prev cur r)
    find_parent-answers r sc there =
        find_parent-Finds (suc (length heap)) r sc there
          (fewer_than_nodes age heap (age sc.block.block_hash))
