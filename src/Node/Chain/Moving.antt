-- ===== src/Node/Chain/Moving.antt =====
-- The nodes that the reorganisation of SendBlock in src/node/miner.go makes of the end of the main
-- chain, and the side chains that it hangs on them.
use mathlib.Core.Option.{some-injective}
use dreddit.Base.{
  ℕ, zero, suc, ◌+◌, ◌≤◌, ◌≡◌, refl, sym, ap, ◌∙◌, inr, true, false, List, [], ◌∷◌, ◌++◌, Option,
  none, some, Bytes, length, get_elem?, is_some, get_elem?-last, arith, Ends, Ends-bind,
}
use dreddit.Block.Types.{Block}
use dreddit.Node.State.{Ref, SideChain, Heap}
use dreddit.Node.Chain.Tree.{alloc}
use dreddit.Node.Chain.Place.{new_side_chain}
use dreddit.Node.Chain.Reorganise.{link_child, side_nodes}
use dreddit.Node.Chain.Frame.{load-at, IsOrdered}
use dreddit.Node.Chain.Forest.{
  IsForest, Persists, Persists-refl, Persists-trans, Persists-append, Persists-set,
}
use dreddit.Node.Chain.Planting.{alloc-IsForest, bear-IsForest}
use dreddit.Node.Chain.Placing.{IsDeep, IsDeep-alloc, IsDeep-set, IsAt, Persists-IsAt}

-- Each block of the chain is there, comes after the one before it, and is ordered.
pub record IsRun (age : Bytes → ℕ) (chain : List (Option Block)) : Type 0 where
  pub linked :
      (i : ℕ) (a b : Block)
      → get_elem? chain i ≡ some (some a)
      → get_elem? chain (suc i) ≡ some (some b)
      → b.prev_block ≡ a.block_hash
  pub ordered : (i : ℕ) (b : Block) → get_elem? chain i ≡ some (some b) → IsOrdered age b
  pub there : (i : ℕ) → get_elem? chain i ≡ some none → ⊥

module _ (age : Bytes → ℕ) (chain : List (Option Block)) (sides orphans : List Ref)
    (break_point : ℕ) where
  abbrev pub IsOpen : Heap → Type 0
  IsOpen h = IsForest age chain sides orphans h × IsDeep h

  -- The nodes stand for the blocks of the main chain from `i` places after the break point on.
  abbrev pub StandFor : ℕ → List Ref → Heap → Type 0
  StandFor i rs h =
      (j : ℕ) (q : Ref)
      → get_elem? rs j ≡ some q
      → (k : SideChain) × (get_elem? h q ≡ some k)
        × (get_elem? chain (suc (break_point + i + j)) ≡ some (some k.block))

module _ (age : Bytes → ℕ) (chain : List (Option Block)) (run : IsRun age chain)
    (sides orphans : List Ref) (break_point : ℕ) where
  -- The last node that was made, or none at first.
  abbrev IsTop : Heap → Block → ℕ → Option Ref → Type 0
  IsTop h a i none = i ≡ 0
  IsTop h a i (some q) = IsAt a h q × (1 ≤ i)

  alloc_side :
      (i : ℕ) (block a : Block) (parent : Option Ref) (h : Heap)
      → IsOpen age chain sides orphans break_point h
      → get_elem? chain (break_point + i) ≡ some (some a)
      → get_elem? chain (suc (break_point + i)) ≡ some (some block)
      → IsTop h a i parent
      → IsOpen age chain sides orphans break_point
          (h ++ new_side_chain parent (some break_point) block i ∷ [])
  alloc_side i block a none h (w, deep) before here top = (
    alloc-IsForest age chain sides orphans h w _ refl
        (inr (
          break_point,
          refl,
          (
            a,
            ap (get_elem? chain) at_break ∙ before,
            run.linked (break_point + i) a block before here,
          ),
        ))
        (run.ordered (suc (break_point + i)) block here),
    IsDeep-alloc h _ deep (λ has. absurd (none_some has)),
  )
    where
      at_break : break_point ≡ break_point + i
      at_break = omega (arith, top)

      none_some : false ≡ true → ⊥
      none_some e = cc
  alloc_side i block a (some q) h (w, deep) before here ((k, at, same), later) = (
    alloc-IsForest age chain sides orphans h w _ refl
        (
          k,
          at,
          run.linked (break_point + i) a block before here
              ∙ ap (λ (x : Block). x.block_hash) (sym same),
        )
        (run.ordered (suc (break_point + i)) block here),
    IsDeep-alloc h _ deep (λ has. later),
  )

  link_child-Ends :
      (v : SideChain) (a : Block) (i : ℕ) (parent : Option Ref) (r : Ref) (h : Heap)
      → IsOpen age chain sides orphans break_point h
      → get_elem? h r ≡ some v
      → v.parent ≡ parent
      → v.block.prev_block ≡ a.block_hash
      → IsTop h a i parent
      → Ends
          (λ h'. IsOpen age chain sides orphans break_point h' × Persists h h')
          (link_child parent r h)
  link_child-Ends v a i none r h w at own names top = (w, Persists-refl h)
  link_child-Ends v a i (some q) r h (w, deep) at own names ((k, at_q, same), later) =
      rw (load-at h q k at_q) (
        (
          bear-IsForest age chain sides orphans h w q r k at_q
              (v, at, names ∙ ap (λ (x : Block). x.block_hash) (sym same))
              (v, at, ap (λ (o : Option Ref). is_some o) own),
          IsDeep-set h q _ deep (deep q k at_q),
        ),
        Persists-set h q k _ at_q refl (λ e. e),
      )

  IsTop-Persists :
      (h h' : Heap) (a : Block) (i : ℕ) (parent : Option Ref)
      → Persists h h'
      → IsTop h a i parent
      → IsTop h' a i parent
  IsTop-Persists h h' a i none p top = top
  IsTop-Persists h h' a i (some q) p (at, later) = (Persists-IsAt h h' a q p at, later)

  StandFor-cons :
      (i : ℕ) (r : Ref) (rs : List Ref) (block : Block) (h : Heap)
      → get_elem? chain (suc (break_point + i)) ≡ some (some block)
      → IsAt block h r
      → StandFor age chain sides orphans break_point (suc i) rs h
      → StandFor age chain sides orphans break_point i (r ∷ rs) h
  StandFor-cons i r rs block h here (k, at, same) later zero q e = (
    k,
    ap (get_elem? h) (sym (some-injective _ _ e)) ∙ at,
    ap (get_elem? chain) first ∙ here ∙ ap (λ (x : Block). some (some x)) (sym same),
  )
    where
      first : suc (break_point + i + 0) ≡ suc (break_point + i)
      first = omega arith
  StandFor-cons i r rs block h here at later (suc j) q e =
      let (k, at_q, on) = later j q e in (k, at_q, ap (get_elem? chain) next ∙ on)
    where
      next : suc (break_point + i + suc j) ≡ suc (break_point + suc i + j)
      next = omega arith

  abbrev pub MadeWell : ℕ → Heap → List Ref × Heap → Type 0
  MadeWell i h (rs, h') =
      IsOpen age chain sides orphans break_point h'
      × Persists h h'
      × StandFor age chain sides orphans break_point i rs h'

  pub side_nodes-Ends :
      (i : ℕ) (ps : List (Option Block)) (a : Block) (parent : Option Ref) (h : Heap)
      → ((j : ℕ) (p : Option Block)
          → get_elem? ps j ≡ some p
          → get_elem? chain (suc (break_point + i + j)) ≡ some p)
      → get_elem? chain (break_point + i) ≡ some (some a)
      → IsTop h a i parent
      → IsOpen age chain sides orphans break_point h
      → Ends (MadeWell i h) (side_nodes break_point i ps parent h)
  unfolding side_nodes alloc
  side_nodes-Ends i [] a parent h within before top w = (w, Persists-refl h, nobody)
    where
      nobody : StandFor age chain sides orphans break_point i [] h
      nobody j q e = cc
  side_nodes-Ends i (none ∷ ps) a parent h within before top w = tt
  side_nodes-Ends i (some block ∷ ps) a parent h within before top w =
      Ends-bind (λ h2. IsOpen age chain sides orphans break_point h2 × Persists h1 h2)
        (MadeWell i h) (link_child parent (length h) h1) _
        (link_child-Ends v a i parent (length h) h1
          (alloc_side i block a parent h w before here top) at_new refl
          (run.linked (break_point + i) a block before here)
          (IsTop-Persists h h1 a i parent p1 top))
        (λ h2 linked (w2, p2).
          Ends-bind (MadeWell (suc i) h2) (MadeWell i h)
            (side_nodes break_point (suc i) ps (some (length h)) h2) _
            (side_nodes-Ends (suc i) ps block (some (length h)) h2 shifted
              (ap (get_elem? chain) next ∙ here)
              (Persists-IsAt h1 h2 block (length h) p2 (v, at_new, refl), omega arith) w2)
            (λ (rs, h3) made (w3, p3, stand). (
              w3,
              Persists-trans h h1 h3 p1 (Persists-trans h1 h2 h3 p2 p3),
              StandFor-cons i (length h) rs block h3 here
                  (Persists-IsAt h1 h3 block (length h) (Persists-trans h1 h2 h3 p2 p3)
                    (v, at_new, refl))
                  stand,
            )))
    where
      v : SideChain
      v = new_side_chain parent (some break_point) block i

      h1 : Heap
      h1 = h ++ v ∷ []

      at_new : get_elem? h1 (length h) ≡ some v
      at_new = get_elem?-last h v

      p1 : Persists h h1
      p1 = Persists-append h v

      here : get_elem? chain (suc (break_point + i)) ≡ some (some block)
      here = ap (get_elem? chain) first ∙ within 0 (some block) refl
        where
          first : suc (break_point + i) ≡ suc (break_point + i + 0)
          first = omega arith

      next : break_point + suc i ≡ suc (break_point + i)
      next = omega arith

      shifted :
          (j : ℕ) (p : Option Block)
          → get_elem? ps j ≡ some p
          → get_elem? chain (suc (break_point + suc i + j)) ≡ some p
      shifted j p e = ap (get_elem? chain) same ∙ within (suc j) p e
        where
          same : suc (break_point + suc i + j) ≡ suc (break_point + i + suc j)
          same = omega arith
