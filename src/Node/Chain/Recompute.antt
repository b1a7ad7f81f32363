-- ===== src/Node/Chain/Recompute.antt =====
-- `Recompute` of src/node/miner.go returns, and marks all that is below a node and nothing else.
use mathlib.Core.List.{Memᴰ}
use mathlib.Core.List.Memᴰ.{head, tail}
use mathlib.Core.Path.{subst}
use mathlib.Core.Option.{some-injective}
use dreddit.Base.{
  ℕ, zero, suc, ◌+◌, ◌<◌, ◌≡◌, refl, sym, ◌∙◌, List, [], ◌∷◌, Option, some, Bytes, length,
  get_elem?, set, get_elem?-set_same, All, Result, ok, arith,
}
use dreddit.Node.State.{Ref, SideChain, Heap}
use dreddit.Node.Chain.Tree.{load, each_child, recompute}
use dreddit.Node.Chain.Frame.{
  IsChildOf, IsTied, IsAged, blocks_in, younger, child-drops, fewer_than_nodes,
}
use dreddit.Node.Chain.Search.{Under, itself, down, Beneath, here, deeper, Beneath-Under}
use dreddit.Node.Chain.Paint.{
  Painted, HasMarks, HasMarks-widen, Painted-refl, Painted-trans, Painted-set, Painted-IsTied,
  Painted-IsAged, Painted-Beneath, Under-Painted, Painted-marks, Painted-widen,
}

-- `Recompute` of `r` with this depth gives the depth `depth + 1` to `r`, and 1 more for each step down.
abbrev pub IsDepth : ℕ → Heap → Ref → Ref → ℕ → Type 0
IsDepth depth h r x d = (n : ℕ) × Beneath h r n x × (d ≡ depth + suc n)

-- Every node below `r` has the index and such a depth now, and the marks of the others are as before.
pub record Repainted (depth : ℕ) (i : Option ℕ) (h : Heap) (r : Ref) (h' : Heap) : Type 0 where
  pub paints : Painted (IsDepth depth h r) i h h'
  pub all : (x : Ref) → Under h r x → HasMarks (IsDepth depth h r) i h' x

-- Without the depths.
pub Repainted-paints :
    (depth : ℕ) (i : Option ℕ) (h : Heap) (r : Ref) (h' : Heap)
    → Repainted depth i h r h'
    → Painted (λ x d. Under h r x) i h h'
Repainted-paints depth i h r h' p =
    Painted-widen (IsDepth depth h r) (λ x d. Under h r x) i h h'
      (λ x d (n, under, e). Beneath-Under h r x n under) p.paints

module _ (age : Bytes → ℕ) (i : Option ℕ) where
  abbrev Repaints : ℕ → ℕ → (Heap → Ref → Result Heap) → Type 0
  Repaints fuel depth step =
      (h : Heap) (c : Ref) (k : SideChain)
      → IsTied h
      → IsAged age h
      → get_elem? h c ≡ some k
      → younger age (age k.block.block_hash) (blocks_in h) < fuel
      → (h' : Heap) × (step h c ≡ ok h') × Repainted depth i h c h'

  module _ (fuel depth : ℕ) (step : Heap → Ref → Result Heap) (ih : Repaints fuel (depth + 1) step)
      (h0 : Heap) (r : Ref) (sc : SideChain) (tied : IsTied h0) (aged : IsAged age h0)
      (at : get_elem? h0 r ≡ some sc)
      (enough : younger age (age sc.block.block_hash) (blocks_in h0) < suc fuel) where
    abbrev Placed : Ref → ℕ → Type 0
    Placed = IsDepth depth h0 r

    -- A depth below a child is one below its parent.
    IsDepth-child :
        (h : Heap) (c : Ref)
        → Memᴰ c sc.children
        → Painted Placed i h0 h
        → (x : Ref) (d : ℕ) → IsDepth (depth + 1) h c x d
        → Placed x d
    IsDepth-child h c child w x d (n, under, e) =
        (suc n, deeper sc at child (Painted-Beneath Placed i h0 h w c x n under), omega (arith, e))

    each_child-Paints :
        (cs : List Ref) (h : Heap)
        → All (IsChildOf h0 sc) cs
        → ((q : Ref) → Memᴰ q cs → Memᴰ q sc.children)
        → Painted Placed i h0 h
        → (h' : Heap) × (each_child step h cs ≡ ok h')
          × Painted Placed i h h'
          × ((q x : Ref) → Memᴰ q cs → Under h0 q x → HasMarks Placed i h' x)
    each_child-Paints [] h kids sub w = (h, refl, Painted-refl Placed i h, none_left)
      where
        none_left : (q x : Ref) → Memᴰ q [] → Under h0 q x → HasMarks Placed i h x
        none_left q x there = elim there [ ]
    each_child-Paints (c ∷ cs) h (kid, kids) sub w =
        let (k, at_c, m) = w.to c kid.0 kid.1 in
        let fewer : younger age (age k.block.block_hash) (blocks_in h) < fuel =
          rw (m.block, w.blocks) (omega (arith, child-drops age h0 sc c kid aged)) in
        let (h1, one, p) =
          ih h c k (Painted-IsTied Placed i h0 h w tied) (Painted-IsAged Placed i h0 h w age aged)
            at_c fewer in
        let wider = IsDepth-child h c (sub c (head refl)) w in
        let w1 = Painted-widen (IsDepth (depth + 1) h c) Placed i h h1 wider p.paints in
        let (h', more, w2, all) =
          each_child-Paints cs h1 kids (λ q there. sub q (tail there))
            (Painted-trans Placed i h0 h h1 w w1) in
        (
          h',
          rw one more,
          Painted-trans Placed i h h1 h' w1 w2,
          λ q x there under. (elim there [
            | head e ↦ Painted-marks Placed i h1 h' w2 x (
                HasMarks-widen (IsDepth (depth + 1) h c) Placed i h1 x (wider x) (
                  p.all x (
                    Under-Painted Placed i h0 h w c x (subst (λ (y : Ref). Under h0 y x) e under))))
            | tail later ↦ all q x later under
          ]),
        )

  -- All below a node, from the node itself and all below its children.
  all_below :
      (Q : Ref → Type 0) (h : Heap) (r : Ref) (sc : SideChain)
      → get_elem? h r ≡ some sc
      → Q r
      → ((q x : Ref) → Memᴰ q sc.children → Under h q x → Q x)
      → (x : Ref) → Under h r x
      → Q x
  all_below Q h r sc at own all r' itself = own
  all_below Q h r sc at own all x (down {q = q} sc' at' child under) =
      let same = some-injective _ _ (sym at' ∙ at) in
      all q x (subst (λ (k : SideChain). Memᴰ q k.children) same child) under

  recompute-Repaints : (fuel depth : ℕ) → Repaints fuel depth (recompute fuel depth i)
  unfolding recompute load
  recompute-Repaints zero depth h r sc tied aged at enough = absurd (omega arith)
  recompute-Repaints (suc fuel) depth h r sc tied aged at enough =
      let P = IsDepth depth h r in
      let painted = set h r (record sc { depth = depth + 1; parent_index = i }) in
      let own : P r (depth + 1) = (0, here, omega arith) in
      let w = Painted-set P i h r sc depth at own in
      let (h', run, w', all) =
        each_child-Paints fuel depth (recompute fuel (depth + 1) i)
          (recompute-Repaints fuel (depth + 1)) h r sc tied aged at enough sc.children painted
          (tied r sc at) (λ q there. there) w in
      (
        h',
        rw at run,
        record {
          paints = Painted-trans P i h painted h' w w';
          all =
              all_below (HasMarks P i h') h r sc at
                (Painted-marks P i painted h' w' r
                  (_, get_elem?-set_same h r sc _ at, refl, omega arith, own))
                all;
        },
      )

  -- On a heap whose children name their parents, and where no hash leads back to itself,
  -- `Recompute` of a node returns when it has more fuel than the heap has nodes. Then every node
  -- below it, itself included, has the index that was given, and a depth that is the given one
  -- and 1 more, and 1 more for each step of a way from `r` down to it; blocks, children and
  -- parents are as before, and the depth and the index of every node that is not below it are,
  -- too.
  pub recompute-Repainted :
      (h : Heap) (depth : ℕ) (r : Ref) (sc : SideChain)
      → IsTied h
      → IsAged age h
      → get_elem? h r ≡ some sc
      → (h' : Heap) × (recompute (suc (length h)) depth i h r ≡ ok h') × Repainted depth i h r h'
  recompute-Repainted h depth r sc tied aged at =
      recompute-Repaints (suc (length h)) depth h r sc tied aged at
        (fewer_than_nodes age h (age sc.block.block_hash))
