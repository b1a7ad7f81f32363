-- ===== src/Node/Chain/Shifting.antt =====
-- The loop of SendBlock in src/node/miner.go over the side chains that hang after the break point.
use mathlib.Core.Path.{subst}
use mathlib.Core.Option.{some-injective}
use dreddit.Base.{
  ℕ, zero, suc, ◌+◌, ◌-◌, ◌<◌, ◌≡◌, refl, sym, ap, ◌∙◌, ◌⊎◌, inl, inr, List, [], Option, none, some,
  Bytes, ltb, length, get_elem?, set, All, All-map, All-at, Option-cases, Bool-cases, arith, Result,
  ◌>>=◌, or_panic, index_out_of_range, Ends, Ends-bind, Ends-map,
}
use dreddit.Block.Types.{Block}
use dreddit.Node.State.{Ref, SideChain, Heap}
use dreddit.Node.Chain.Tree.{load, recompute}
use dreddit.Node.Chain.Place.{swap_delete}
use dreddit.Node.Chain.Reorganise.{beyond, move_side_chains}
use dreddit.Node.Chain.Frame.{load-at}
use dreddit.Node.Chain.Forest.{IsForest, HangsOn, Persists, Persists-refl, Persists-trans}
use dreddit.Node.Chain.Adopting.{All-swap_delete}
use dreddit.Node.Chain.Moving.{IsOpen, StandFor}
use dreddit.Node.Chain.Hanging.{IsMovable, IsMoved, move-one}

-- A place beyond the break point is that of the index.
beyond-eq :
    (break_point place : ℕ) (index : Option ℕ)
    → beyond break_point index ≡ some place
    → index ≡ some (suc (break_point + 0 + place))
beyond-eq break_point place none e = cc
beyond-eq break_point place (some i) e = elim (Bool-cases (ltb break_point i)) [
  | inl less ↦
      let e' : i - break_point - 1 ≡ place = some-injective _ _ (rw less at e) in
      let lt : break_point < i = ground arith in ap some (omega (arith, e', lt))
  | inr not_less ↦ absurd (clash (rw not_less at e))
]
  where
    clash : none ≡ some place → ⊥
    clash q = cc

module _ (age : Bytes → ℕ) (chain : List (Option Block)) (orphans : List Ref)
    (break_point : ℕ) where
  StandFor-Persists :
      (i : ℕ) (rs : List Ref) (h h' : Heap)
      → Persists h h'
      → StandFor age chain [] orphans break_point i rs h
      → StandFor age chain [] orphans break_point i rs h'
  StandFor-Persists i rs h h' p stand j q e =
      let (k, at, on) = stand j q e in
      let (k', at', block, parent) = p.stays q k at in
      (k', at', on ∙ ap (λ (x : Block). some (some x)) (sym block))

  -- What a node beyond the break point hangs on.
  far_names :
      (h : Heap) (r place : ℕ) (sc : SideChain) (a : Block)
      → IsForest age chain [] orphans h
      → get_elem? h r ≡ some sc
      → (sc.parent ≡ none) ⊎ (beyond break_point sc.parent_index ≡ none)
      → beyond break_point sc.parent_index ≡ some place
      → get_elem? chain (suc (break_point + 0 + place)) ≡ some (some a)
      → sc.block.prev_block ≡ a.block_hash
  far_names h r place sc a w at (inr near) far on = absurd (clash (sym near ∙ far))
    where
      clash : none ≡ some place → ⊥
      clash e = cc
  far_names h r place sc a w at (inl root) far on =
      elim (subst (HangsOn chain h sc) root (w.nodes r sc at).hangs) [
        | inl no_index ↦ absurd (clash (sym no_index ∙ index))
        | inr (i, is_i, (x, there, names)) ↦
            let same : some (some x) ≡ some (some a) =
              sym there ∙ ap (get_elem? chain) (some-injective _ _ (sym is_i ∙ index)) ∙ on in
            names ∙ ap (λ (b : Block). b.block_hash) (some-injective _ _ (some-injective _ _ same))
      ]
    where
      index : sc.parent_index ≡ some (suc (break_point + 0 + place))
      index = beyond-eq break_point place sc.parent_index far

      clash : none ≡ some (suc (break_point + 0 + place)) → ⊥
      clash e = cc

  abbrev pub IsLeft : Heap → List Ref × Heap → Type 0
  IsLeft h r = IsOpen age chain [] orphans break_point r.1 × Persists h r.1

  -- One round, on what `beyond` says; `skip` and `again` are the rest of the loop.
  round-Ends :
      (nodes chains : List Ref) (h : Heap) (r : Ref) (sc : SideChain) (o : Option ℕ)
      (skip : Result (List Ref × Heap)) (again : Heap → Result (List Ref × Heap))
      → IsOpen age chain [] orphans break_point h
      → All (IsMovable break_point h) chains
      → StandFor age chain [] orphans break_point 0 nodes h
      → get_elem? h r ≡ some sc
      → (sc.parent ≡ none) ⊎ (beyond break_point sc.parent_index ≡ none)
      → beyond break_point sc.parent_index ≡ o
      → Ends (IsLeft h) skip
      → ((h2 : Heap)
          → Persists h h2
          → IsOpen age chain [] orphans break_point h2
          → All (IsMovable break_point h2) chains
          → StandFor age chain [] orphans break_point 0 nodes h2
          → Ends (IsLeft h) (again h2))
      → Ends (IsLeft h) (elim o [
        | none ↦ skip
        | some place ↦ or_panic (get_elem? nodes place) index_out_of_range >>= λ q.
            load h q >>= λ new_parent.
            recompute
              (suc (length h))
              new_parent.depth
              (some break_point)
              (set h r (record sc { parent = some q }))
              r
            >>= again
      ])
  round-Ends nodes chains h r sc none skip again w movable stand at near far skipped later = skipped
  round-Ends nodes chains h r sc (some place) skip again w movable stand at near far skipped later =
      elim (Option-cases (get_elem? nodes place)) [
        | inl no_node ↦ rw no_node tt
        | inr (q, at_place) ↦
            let (k, at_q, on) = stand place q at_place in
            let names = far_names h r place sc k.block w.0 at near far on in
            rw (at_place, load-at h q k at_q)
              (Ends-bind (IsMoved age chain orphans break_point h w.0 w.1 r q sc k at at_q names)
                (IsLeft h)
                (recompute (suc (length h)) k.depth (some break_point)
                  (set h r (record sc { parent = some q })) r)
                again
                (move-one age chain orphans break_point h w.0 w.1 r q sc k at at_q names k.depth)
                (λ h2 run (w2, p, keeps).
                  later h2 p w2 (All-map keeps chains movable)
                    (StandFor-Persists 0 nodes h h2 p stand)))
      ]

  pub move_side_chains-Ends :
      (nodes : List Ref) (rounds i : ℕ) (chains : List Ref) (h : Heap)
      → IsOpen age chain [] orphans break_point h
      → All (IsMovable break_point h) chains
      → StandFor age chain [] orphans break_point 0 nodes h
      → Ends (IsLeft h) (move_side_chains break_point nodes rounds i chains h)
  unfolding move_side_chains
  move_side_chains-Ends nodes zero i chains h w movable stand = (w, Persists-refl h)
  move_side_chains-Ends nodes (suc rounds) i chains h w movable stand =
      elim (Option-cases (get_elem? chains i)) [
        | inl outside ↦ rw outside tt
        | inr (r, at) ↦
            let (sc, at_r, near) = All-at (IsMovable break_point h) chains i r at movable in
            rw (at, load-at h r sc at_r)
              (round-Ends nodes chains h r sc (beyond break_point sc.parent_index)
                (move_side_chains break_point nodes rounds (suc i) chains h)
                (λ h2. move_side_chains break_point nodes rounds (suc i) (swap_delete i chains) h2)
                w movable stand at_r near refl
                (move_side_chains-Ends nodes rounds (suc i) chains h w movable stand)
                (λ h2 p w2 movable2 stand2.
                  Ends-map (IsLeft h2) (IsLeft h)
                    (move_side_chains break_point nodes rounds (suc i) (swap_delete i chains) h2)
                    (move_side_chains-Ends nodes rounds (suc i) (swap_delete i chains) h2 w2
                      (All-swap_delete (IsMovable break_point h2) i chains movable2) stand2)
                    (λ r' (w3, p3). (w3, Persists-trans h h2 r'.1 p p3))))
      ]
