-- ===== src/Node/Chain/Healing.antt =====
-- The loop of SendBlock in src/node/miner.go that goes up from the new block: it ends, and leaves the
-- first place of the new main chain empty.
use dreddit.Base.{
  ℕ, zero, suc, ◌+◌, ◌≤◌, ◌<◌, ◌==◌, ◌≡◌, refl, sym, ap, ◌∙◌, inl, inr, false, List, [], ◌∷◌, ◌++◌,
  Option, none, some, Bytes, bytes_equal, ltb, length, get_elem?, set, is_some, get_elem?-set_same,
  get_elem?-set_other, length-set, map-set, All, All-map, Option-cases, arith, Ends, Ends-if,
  Ends-bind, Ends-map,
}
use dreddit.Block.Types.{Block}
use dreddit.Node.State.{Ref, SideChain, Heap}
use dreddit.Node.Chain.Tree.{recompute}
use dreddit.Node.Chain.Reorganise.{split_children, heal}
use dreddit.Node.Chain.Frame.{
  load-at, IsChildOf, IsAged-at, block_of, blocks_in, elder, elder-drops,
}
use dreddit.Node.Chain.Recompute.{IsDepth, recompute-Repainted}
use dreddit.Node.Chain.Placing.{IsThere}
use dreddit.Node.Chain.Climb.{IsClimb, same-at, cut-IsClimb, Painted-IsClimb}

module _ (age : Bytes → ℕ) where
  abbrev IsSplit : Heap → List Ref × Heap → Type 0
  IsSplit h r = IsClimb age r.1 × (blocks_in r.1 ≡ blocks_in h)

  IsThere-same : (h h' : Heap) → blocks_in h' ≡ blocks_in h → (r : Ref) → IsThere h r → IsThere h' r
  IsThere-same h h' same r (k, at) = let (k', at', e) = same-at h h' r k same at in (k', at')

  abbrev IsCut : Heap → Heap → Type 0
  IsCut h h2 = IsClimb age h2 × (blocks_in h2 ≡ blocks_in h)

  recompute-IsCut :
      (h : Heap) (r index : ℕ) (sc : SideChain)
      → IsClimb age h
      → get_elem? h r ≡ some sc
      → Ends
          (IsCut h)
          (recompute (suc (length h)) 0 (some index) (set h r (record sc { parent = none })) r)
  recompute-IsCut h r index sc w at =
      let w1 = cut-IsClimb age h r sc w at in
      let (h2, run, p) =
        recompute-Repainted age (some index) h1 0 r cut w1.tied w1.aged
          (get_elem?-set_same h r sc cut at) in
      rw (enough, run)
        (
          Painted-IsClimb age (IsDepth 0 h1 r) (some index) h1 h2 p.paints w1,
          p.paints.blocks ∙ map-set block_of h r sc cut at refl,
        )
    where
      cut : SideChain
      cut = record sc { parent = none }

      h1 : Heap
      h1 = set h r cut

      enough : suc (length h) ≡ suc (length h1)
      enough = ap suc (sym (length-set h r cut))

  split_children-Ends :
      (on_path : Bytes) (index : ℕ) (rs chains : List Ref) (h : Heap)
      → IsClimb age h
      → All (IsThere h) rs
      → Ends (IsSplit h) (split_children on_path index rs chains h)
  unfolding split_children
  split_children-Ends on_path index [] chains h w there = (w, refl)
  split_children-Ends on_path index (r ∷ rs) chains h w ((sc, at), there) = rw (load-at h r sc at) (
      Ends-if (IsSplit h) (bytes_equal on_path sc.block.block_hash) _ _
        (λ same. split_children-Ends on_path index rs chains h w there)
        (λ other.
          Ends-bind (IsCut h) (IsSplit h)
            (recompute (suc (length h)) 0 (some index) (set h r (record sc { parent = none })) r) _
            (recompute-IsCut h r index sc w at)
            (λ h2 run (w2, same2).
              Ends-map (IsSplit h2) (IsSplit h)
                (split_children on_path index rs (chains ++ r ∷ []) h2)
                (split_children-Ends on_path index rs (chains ++ r ∷ []) h2 w2
                  (All-map (IsThere-same h h2 same2) rs there))
                (λ r' (w3, same3). (w3, same3 ∙ same2)))))

  -- The first place of the new main chain stays empty.
  abbrev pub IsHeadless : List (Option Block) × List Ref × Heap → Type 0
  IsHeadless (new_main, chains, h) = get_elem? new_main 0 ≡ some none

  pub heal-Ends :
      (fuel break_point : ℕ) (cur : Ref) (new_main : List (Option Block)) (chains : List Ref)
      (h : Heap) (sc : SideChain)
      → IsClimb age h
      → get_elem? h cur ≡ some sc
      → elder age (age sc.block.block_hash) (blocks_in h) < fuel
      → get_elem? new_main 0 ≡ some none
      → Ends IsHeadless (heal fuel break_point cur new_main chains h)
  unfolding heal
  heal-Ends zero break_point cur new_main chains h sc w at enough headless = absurd (omega arith)
  heal-Ends (suc fuel) break_point cur new_main chains h sc w at enough headless =
      elim (Option-cases sc.parent) [
        | inl top ↦ rw (load-at h cur sc at) (rw top headless)
        | inr (q, e) ↦
            let (k, at_q, names) = w.parents cur q sc at e in
            rw (load-at h cur sc at) (
              rw e (
                rw (load-at h q k at_q) (
                  Ends-if IsHeadless (ltb sc.depth (length new_main)) _ _
                    (λ inside.
                      Ends-bind (IsSplit h) IsHeadless
                        (split_children sc.block.block_hash (break_point + sc.depth + 1) k.children
                          chains h)
                        _
                        (split_children-Ends sc.block.block_hash (break_point + sc.depth + 1)
                          k.children chains h w (kids_there k (w.tied q k at_q)))
                        (λ r' run (w2, same2).
                          let (k2, at2, same_k) = same-at h r'.1 q k same2 at_q in
                          heal-Ends fuel break_point q (set new_main sc.depth (some sc.block)) r'.0
                            r'.1 k2 w2 at2 (rw (same_k, same2) (fewer q k at_q names))
                            (get_elem?-set_other new_main sc.depth 0 (some sc.block) (
                                not_first (w.deep cur sc at (ap (λ (o : Option Ref). is_some o) e)))
                              ∙ headless)))
                    (λ outside. tt))))
      ]
    where
      kids_there : (k : SideChain) → All (IsChildOf h k) k.children → All (IsThere h) k.children
      kids_there k kids = All-map (λ q (a, at_a, names). (a, at_a)) k.children kids

      not_first : 1 ≤ sc.depth → (sc.depth == 0) ≡ false
      not_first le = ground arith

      fewer :
          (q : Ref) (k : SideChain)
          → get_elem? h q ≡ some k
          → sc.block.prev_block ≡ k.block.block_hash
          → elder age (age k.block.block_hash) (blocks_in h) < fuel
      fewer q k at_q names =
          let before : age sc.block.prev_block < age sc.block.block_hash =
            IsAged-at age h cur sc w.aged at in
          let lt : age k.block.block_hash < age sc.block.block_hash =
            rw (← (ap age names)) before in
          omega (arith, enough, elder-drops age h q k (age sc.block.block_hash) at_q lt)
