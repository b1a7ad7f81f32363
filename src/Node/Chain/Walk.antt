-- ===== src/Node/Chain/Walk.antt =====
-- `FindParent` of src/node/miner.go against a search through the list of the nodes that it visits.
use dreddit.Base.{
  ℕ, zero, suc, ◌<◌, ◌≡◌, refl, sym, ap, ◌∙◌, inl, inr, List, [], ◌∷◌, ◌++◌, none, some, Bytes,
  bytes_equal, if◌then◌else◌, length, get_elem?, All, All-map, Result, ok, Bool-cases, Option-cases,
  arith,
}
use dreddit.Node.State.{Ref, SideChain, Heap}
use dreddit.Node.Chain.Tree.{load, Found, nothing, seen, below, first_child, find_parent}
use dreddit.Node.Chain.Frame.{IsTied, IsAged, blocks_in, younger, child-drops, fewer_than_nodes}

-- The nodes that are reached from some nodes down the children, each before its own children, and
-- these before the nodes that come after it.
pub data Walk (heap : Heap) : List Ref → List Ref → Type 0 where
  done : Walk heap [] []
  visit :
      {r : Ref} {rs xs ys : List Ref} (sc : SideChain)
      → get_elem? heap r ≡ some sc
      → Walk heap sc.children xs
      → Walk heap rs ys
      → Walk heap (r ∷ rs) (r ∷ xs ++ ys)

module _ (heap : Heap) (prev cur : Bytes) where
  -- The first node with one of the two hashes: the mark, if it has that of the block, and else the
  -- node.
  unfoldable pub first_of : List Ref → Found
  first_of [] = nothing
  first_of (x ∷ xs) =
      let rest = first_of xs in
      elim (get_elem? heap x) [
        | none ↦ rest
        | some sc ↦
            if bytes_equal sc.block.block_hash cur
            then seen
            else if bytes_equal sc.block.block_hash prev
            then below x
            else rest
      ]

  or_else : Found → Found → Found
  or_else nothing g = g
  or_else seen g = seen
  or_else (below x) g = below x

  first_of-append : (xs ys : List Ref) → first_of (xs ++ ys) ≡ or_else (first_of xs) (first_of ys)
  unfolding first_of or_else
  first_of-append [] ys = refl
  first_of-append (x ∷ xs) ys = elim (Option-cases (get_elem? heap x)) [
    | inl outside ↦ rw (outside, first_of) (first_of-append xs ys)
    | inr (sc, at) ↦ elim (Bool-cases (bytes_equal sc.block.block_hash cur)) [
      | inl same ↦ rw (at, first_of, same) refl
      | inr other ↦ elim (Bool-cases (bytes_equal sc.block.block_hash prev)) [
        | inl parent ↦ rw (at, first_of, other, parent) refl
        | inr away ↦ rw (at, first_of, other, away) (first_of-append xs ys)
      ]
    ]
  ]

  -- The search answers for a node what the walk through the node and all below it gives.
  abbrev Searches : (Ref → Result Found) → Ref → Type 0
  Searches find r =
      (sc : SideChain) × (get_elem? heap r ≡ some sc)
      × ((xs : List Ref) × Walk heap sc.children xs × (find r ≡ ok (first_of (r ∷ xs))))

  first_child-or_else :
      (find : Ref → Result Found) (c : Ref) (cs : List Ref) (f g : Found)
      → find c ≡ ok f
      → first_child find cs ≡ ok g
      → first_child find (c ∷ cs) ≡ ok (or_else f g)
  unfolding or_else
  first_child-or_else find c cs nothing g here later = rw (here, later) refl
  first_child-or_else find c cs seen g here later = rw here refl
  first_child-or_else find c cs (below x) g here later = rw here refl

  first_child-first :
      (find : Ref → Result Found) (cs : List Ref)
      → All (Searches find) cs
      → (ys : List Ref) × Walk heap cs ys × (first_child find cs ≡ ok (first_of ys))
  unfolding first_of
  first_child-first find [] w = ([], done, refl)
  first_child-first find (c ∷ cs) ((sc, at, (xs, walk, found)), w) =
      let (ys, walks, rest) = first_child-first find cs w in
      (
        c ∷ xs ++ ys,
        visit sc at walk walks,
        first_child-or_else find c cs (first_of (c ∷ xs)) (first_of ys) found rest
            ∙ ap ok (sym (first_of-append (c ∷ xs) ys)),
      )

  -- What a node itself has, and else what comes after it.
  own_answer :
      (r : Ref) (sc : SideChain) (xs : List Ref) (rest : Result Found)
      → get_elem? heap r ≡ some sc
      → rest ≡ ok (first_of xs)
      → (if bytes_equal sc.block.block_hash cur
          then ok seen
          else if bytes_equal sc.block.block_hash prev
          then ok (below r)
          else rest)
        ≡ ok (first_of (r ∷ xs))
  unfolding first_of
  own_answer r sc xs rest at found = elim (Bool-cases (bytes_equal sc.block.block_hash cur)) [
    | inl same ↦ rw (at, first_of, same) refl
    | inr other ↦ elim (Bool-cases (bytes_equal sc.block.block_hash prev)) [
      | inl parent ↦ rw (at, first_of, other, parent) refl
      | inr away ↦ rw (at, first_of, other, away) found
    ]
  ]

  module _ (age : Bytes → ℕ) (tied : IsTied heap) (aged : IsAged age heap) where
    find_parent-Searches :
        (fuel : ℕ) (r : Ref) (sc : SideChain)
        → get_elem? heap r ≡ some sc
        → younger age (age sc.block.block_hash) (blocks_in heap) < fuel
        → (xs : List Ref) × Walk heap sc.children xs
          × (find_parent fuel heap prev cur r ≡ ok (first_of (r ∷ xs)))
    unfolding find_parent load
    find_parent-Searches zero r sc at enough = absurd (omega arith)
    find_parent-Searches (suc fuel) r sc at enough =
        let (xs, walk, rest) = first_child-first (find_parent fuel heap prev cur) sc.children (
          All-map
            (λ c w. (
              w.0,
              w.1,
              find_parent-Searches fuel c w.0 w.1 (omega (arith, child-drops age heap sc c w aged)),
            ))
            sc.children (tied r sc at)) in
        (xs, walk, rw at (own_answer r sc xs _ at rest))

    -- On a heap whose children name their parents, and where no hash leads back to itself,
    -- `FindParent` returns when it has more fuel than the heap has nodes. Its answer is that of
    -- the first node, in the list of the node `r` and all below it, each before its children,
    -- that has the hash of the block or of its predecessor: the mark of index -2 if it has that
    -- of the block, and else that node; and nil if there is none.
    pub find_parent-first :
        (r : Ref) (sc : SideChain)
        → get_elem? heap r ≡ some sc
        → (xs : List Ref) × Walk heap sc.children xs
          × (find_parent (suc (length heap)) heap prev cur r ≡ ok (first_of (r ∷ xs)))
    find_parent-first r sc at =
        find_parent-Searches (suc (length heap)) r sc at
          (fewer_than_nodes age heap (age sc.block.block_hash))
