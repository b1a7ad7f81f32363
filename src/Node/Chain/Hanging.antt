-- ===== src/Node/Chain/Hanging.antt =====
-- One side chain that the reorganisation of src/node/miner.go hangs on a node of the old main chain.
use dreddit.Base.{
  ℕ, suc, ◌==◌, ==_iff, ◌≡◌, refl, sym, ap, ◌∙◌, ◌⊎◌, inl, inr, false, List, [], Option, none, some,
  Bytes, ltb, length, get_elem?, set, get_elem?-set_same, get_elem?-set_other, length-set,
  Bool-cases, arith, Ends,
}
use dreddit.Block.Types.{Block}
use dreddit.Node.State.{Ref, SideChain, Heap}
use dreddit.Node.Chain.Tree.{recompute}
use dreddit.Node.Chain.Reorganise.{beyond}
use dreddit.Node.Chain.Search.{itself}
use dreddit.Node.Chain.Recompute.{IsDepth, Repainted, Repainted-paints, recompute-Repainted}
use dreddit.Node.Chain.Forest.{IsForest, Persists, Persists-trans, Persists-set}
use dreddit.Node.Chain.Planting.{hang-IsForest}
use dreddit.Node.Chain.Repaint.{Painted-Persists, Painted-IsForest}
use dreddit.Node.Chain.Placing.{IsDeep}
use dreddit.Node.Chain.Adopting.{IsDeepBut-set, Repainted-IsDeep}
use dreddit.Node.Chain.Moving.{IsOpen}

-- A root, or a node that does not hang beyond the break point.
abbrev pub IsMovable : ℕ → Heap → Ref → Type 0
IsMovable break_point h r =
    (sc : SideChain) × (get_elem? h r ≡ some sc)
    × ((sc.parent ≡ none) ⊎ (beyond break_point sc.parent_index ≡ none))

beyond_itself : (break_point : ℕ) → beyond break_point (some break_point) ≡ none
beyond_itself break_point = rw not_less refl
  where
    not_less : ltb break_point break_point ≡ false
    not_less = ground arith

module _ (age : Bytes → ℕ) (chain : List (Option Block)) (orphans : List Ref)
    (break_point : ℕ) where
  -- One side chain that moves.
  module _ (h : Heap) (w : IsForest age chain [] orphans h) (deep : IsDeep h) (r q : Ref)
      (sc k : SideChain) (at_r : get_elem? h r ≡ some sc) (at_q : get_elem? h q ≡ some k)
      (names : sc.block.prev_block ≡ k.block.block_hash) where
    abbrev hung : SideChain
    hung = record sc { parent = some q }

    abbrev h1 : Heap
    h1 = set h r hung

    at_r1 : get_elem? h1 r ≡ some hung
    at_r1 = get_elem?-set_same h r sc hung at_r

    w1 : IsForest age chain [] orphans h1
    w1 = hang-IsForest age chain [] orphans h w r q sc k at_r at_q names tt

    enough : suc (length h) ≡ suc (length h1)
    enough = ap suc (sym (length-set h r hung))

    p1 : Persists h h1
    p1 = Persists-set h r sc hung at_r refl (λ e. refl)

    IsMovable-Repainted :
        (depth : ℕ) (h2 : Heap)
        → Repainted depth (some break_point) h1 r h2
        → (x : Ref) → IsMovable break_point h x
        → IsMovable break_point h2 x
    IsMovable-Repainted depth h2 p x (a, at, movable) = elim (Bool-cases (r == x)) [
      | inl same ↦
          let (b, at_b, index, marked, way) = p.all r itself in
          (
            b,
            ap (get_elem? h2) (sym ((==_iff r x).0 same)) ∙ at_b,
            inr (ap (beyond break_point) index ∙ beyond_itself break_point),
          )
      | inr other ↦
          let (b, at_b, m) = p.paints.to x a (get_elem?-set_other h r x hung other ∙ at) in
          (
            b,
            at_b,
            elim movable [
              | inl root ↦ inl (m.parent ∙ root)
              | inr near ↦ inr (elim m.marks [
                | inl (d, same) ↦ ap (beyond break_point) same ∙ near
                | inr (under, d, index) ↦ ap (beyond break_point) index ∙ beyond_itself break_point
              ])
            ],
          )
    ]

    -- After the move: a heap as before, on which the same side chains can be moved.
    abbrev pub IsMoved : Heap → Type 0
    IsMoved h2 =
        IsOpen age chain [] orphans break_point h2
        × Persists h h2
        × ((x : Ref) → IsMovable break_point h x → IsMovable break_point h2 x)

    pub move-one :
        (depth : ℕ) → Ends IsMoved (recompute (suc (length h)) depth (some break_point) h1 r)
    move-one depth =
        let (h2, run, p) =
          recompute-Repainted age (some break_point) h1 depth r hung w1.tied w1.aged at_r1 in
        rw (enough, run)
          (
            (
              Painted-IsForest age chain [] orphans h1 w1 (some break_point) r h2
                  (hung, at_r1, refl) (Repainted-paints depth (some break_point) h1 r h2 p),
              Repainted-IsDeep depth (some break_point) h1 r h2 (IsDeepBut-set h r hung deep) p,
            ),
            Persists-trans h h1 h2 p1
                (Painted-Persists (IsDepth depth h1 r) (some break_point) h1 h2 p.paints),
            IsMovable-Repainted depth h2 p,
          )
