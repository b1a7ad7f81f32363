-- ===== src/Node/Chain/Grown.antt =====
-- What becomes of the main chain of a node in src/node/miner.go, and of what hangs on it, when SendBlock
-- appends a block.
use mathlib.Core.Path.{subst}
use mathlib.Core.Option.{some-injective}
use dreddit.Base.{
  ℕ, zero, suc, ◌≡◌, sym, ap, ◌∙◌, inl, inr, true, List, [], ◌∷◌, ◌++◌, Option, none, some, Bytes,
  bytes_equal_iff, bytes_eq, length, last?, get_elem?, get_elem?-append, get_elem?-split,
  get_elem?-inside, arith, ok, ok_injective,
}
use dreddit.Block.Types.{Block}
use dreddit.Node.State.{Ref, SideChain, Heap}
use dreddit.Node.Chain.SendBlock.{extends}
use dreddit.Node.Chain.Frame.{IsOrdered}
use dreddit.Node.Chain.Forest.{IsForest, HangsOn}
use dreddit.Node.Chain.Moving.{IsRun}

last?-place :
    (chain : List (Option Block)) (i : ℕ) (a : Option Block)
    → get_elem? chain i ≡ some a
    → suc i ≡ length chain
    → last? chain ≡ some a
last?-place [] i a at len = cc
last?-place (x ∷ []) zero a at len = at
last?-place (x ∷ []) (suc i) a at len = absurd (omega (arith, len))
last?-place (x ∷ y ∷ chain) zero a at len = absurd (omega (arith, len))
last?-place (x ∷ y ∷ chain) (suc i) a at len = last?-place (y ∷ chain) i a at (omega (arith, len))

-- A block that extends the chain names its last block.
extends-names :
    (b a : Block) (chain : List (Option Block)) (i : ℕ)
    → extends b.prev_block chain ≡ ok true
    → get_elem? chain i ≡ some (some a)
    → suc i ≡ length chain
    → b.prev_block ≡ a.block_hash
unfolding extends
extends-names b a chain i e at len =
    (bytes_equal_iff b.prev_block a.block_hash).0
      (ok_injective (rw (last?-place chain i (some a) at len, extends) at e))

module _ (age : Bytes → ℕ) (b : Block) (ordered : IsOrdered age b) where
  pub IsRun-append :
      (chain : List (Option Block))
      → extends b.prev_block chain ≡ ok true
      → IsRun age chain
      → IsRun age (chain ++ some b ∷ [])
  IsRun-append chain e w = record {
    linked = linked;
    ordered = λ i x at. elim (get_elem?-split chain (some b) i (some x) at) [
      | inl old ↦ w.ordered i x old
      | inr (last, same) ↦ subst (IsOrdered age) (sym (some-injective _ _ same)) ordered
    ];
    there = λ i at. elim (get_elem?-split chain (some b) i none at) [
      | inl old ↦ w.there i old
      | inr (last, same) ↦ clash same
    ];
  }
    where
      clash : none ≡ some b → ⊥
      clash q = cc

      linked :
          (i : ℕ) (x y : Block)
          → get_elem? (chain ++ some b ∷ []) i ≡ some (some x)
          → get_elem? (chain ++ some b ∷ []) (suc i) ≡ some (some y)
          → y.prev_block ≡ x.block_hash
      linked i x y at_x at_y = elim (get_elem?-split chain (some b) i (some x) at_x) [
        | inl old_x ↦ elim (get_elem?-split chain (some b) (suc i) (some y) at_y) [
          | inl old_y ↦ w.linked i x y old_x old_y
          | inr (last, same) ↦
              ap (λ (k : Block). k.prev_block) (some-injective _ _ same)
              ∙ extends-names b x chain i e old_x last
        ]
        | inr (last_x, same) ↦ elim (get_elem?-split chain (some b) (suc i) (some y) at_y) [
          | inl old_y ↦
              absurd (omega (arith, get_elem?-inside chain (suc i) (some y) old_y, last_x))
          | inr (last, same') ↦ absurd (omega (arith, last, last_x))
        ]
      ]

  -- What hangs on the chain hangs on a longer one.
  pub IsForest-append :
      (chain : List (Option Block)) (sides orphans : List Ref) (h : Heap)
      → IsForest age chain sides orphans h
      → IsForest age (chain ++ some b ∷ []) sides orphans h
  IsForest-append chain sides orphans h w = record {
    tied = w.tied;
    aged = w.aged;
    nodes = λ r sc at.
        let node = w.nodes r sc at in
        record { kids = node.kids; hangs = still sc sc.parent node.hangs };
    side_roots = w.side_roots;
    orphan_roots = w.orphan_roots;
  }
    where
      still :
          (sc : SideChain) (p : Option Ref)
          → HangsOn chain h sc p
          → HangsOn (chain ++ some b ∷ []) h sc p
      still sc none (inl no_index) = inl no_index
      still sc none (inr (i, index, (a, at, names))) =
          inr (i, index, (a, get_elem?-append chain (some b ∷ []) i (some a) at, names))
      still sc (some q) on = on
