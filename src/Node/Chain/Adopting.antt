-- ===== src/Node/Chain/Adopting.antt =====
-- The orphans that SendBlock in src/node/miner.go takes up: they hang on the new block then.
use mathlib.Core.Option.{some-injective}
use dreddit.Base.{
  ℕ, zero, suc, ◌-◌, ◌≤◌, ◌<◌, ◌==◌, ==_iff, ◌≡◌, refl, sym, ap, ◌∙◌, inl, inr, true, false, List,
  [], ◌∷◌, ◌++◌, Option, none, some, Bytes, bytes_equal, bytes_equal_iff, length, get_elem?, set,
  is_some, get_elem?-set, get_elem?-set_same, get_elem?-set_other, length-set, set_comm, last?, All,
  All-at, All-set, All-take, All-last, Option-cases, Bool-cases, arith, Result, ok, ◌>>=◌, Ends,
  Ends-if,
}
use dreddit.Block.Types.{Block}
use dreddit.Node.State.{Ref, SideChain, Heap}
use dreddit.Node.Chain.Tree.{load, recompute}
use dreddit.Node.Chain.Place.{swap_delete, adopt}
use dreddit.Node.Chain.Frame.{load-at, IsAged-at}
use dreddit.Node.Chain.Search.{itself}
use dreddit.Node.Chain.Recompute.{Repainted, Repainted-paints, recompute-Repainted}
use dreddit.Node.Chain.Forest.{IsForest, IsOrphan}
use dreddit.Node.Chain.Planting.{bear-IsForest, set-side_roots, with_orphans, hang-IsForest}
use dreddit.Node.Chain.Repaint.{Painted-IsForest}
use dreddit.Node.Chain.Placing.{IsDeep, IsAt}

pub All-swap_delete :
    (P : Ref → Type 0) (j : ℕ) (xs : List Ref) → All P xs → All P (swap_delete j xs)
All-swap_delete P j xs w = elim (Option-cases (last? xs)) [
  | inl empty ↦ rw (empty, swap_delete) w
  | inr (l, last) ↦
      rw (last, swap_delete)
        (All-take P (length xs - 1) (set xs j l) (All-set P xs j l (All-last P xs l last w) w))
]

-- But for one node, which is to be marked.
abbrev pub IsDeepBut : Ref → Heap → Type 0
IsDeepBut r h =
    (x : Ref) (sc : SideChain)
    → get_elem? h x ≡ some sc
    → (r == x) ≡ false
    → is_some sc.parent ≡ true
    → 1 ≤ sc.depth

pub IsDeepBut-set : (h : Heap) (r : Ref) (v : SideChain) → IsDeep h → IsDeepBut r (set h r v)
IsDeepBut-set h r v deep x sc at other has =
    deep x sc (sym (get_elem?-set_other h r x v other) ∙ at) has

IsDeepBut-set_other :
    (h : Heap) (r q : Ref) (v : SideChain)
    → IsDeepBut r h
    → (is_some v.parent ≡ true → 1 ≤ v.depth)
    → IsDeepBut r (set h q v)
IsDeepBut-set_other h r q v deep new x sc at other has = elim (get_elem?-set h q x v sc at) [
  | inl (here, same) ↦ rw same (new (ap (λ (k : SideChain). is_some k.parent) (sym same) ∙ has))
  | inr (away, old) ↦ deep x sc old other has
]

pub Repainted-IsDeep :
    (depth : ℕ) (i : Option ℕ) (h : Heap) (r : Ref) (h' : Heap)
    → IsDeepBut r h
    → Repainted depth i h r h'
    → IsDeep h'
Repainted-IsDeep depth i h r h' deep p x sc' at' has =
    let (sc, at, m) = p.paints.from x sc' at' in
    elim m.marks [
      | inr (under, d, e) ↦ d
      | inl (d, e) ↦ elim (Bool-cases (r == x)) [
        | inr other ↦
            rw d (deep x sc at other (ap (λ (q : Option Ref). is_some q) (sym m.parent) ∙ has))
        | inl same ↦
            let (k, at_k, index, marked, way) = p.all r itself in
            let here = sym at_k ∙ ap (get_elem? h') ((==_iff r x).0 same) ∙ at' in
            rw (← (some-injective _ _ here)) marked
      ]
    ]

module _ (age : Bytes → ℕ) (chain : List (Option Block)) (sides : List Ref) (b : Block)
    (cur : Ref) where
  abbrev pub IsAdopted : List Ref → Heap → Type 0
  IsAdopted orphans h = IsForest age chain sides orphans h × IsDeep h × IsAt b h cur

  -- One orphan that names the block is hung on its node, and all below it is marked.
  module _ (orphans : List Ref) (h : Heap) (w : IsForest age chain sides orphans h)
      (deep : IsDeep h) (sc oc : SideChain) (r : Ref) (at_cur : get_elem? h cur ≡ some sc)
      (is_b : sc.block ≡ b) (at_r : get_elem? h r ≡ some oc) (orphan : IsOrphan h r)
      (names : bytes_equal b.block_hash oc.block.prev_block ≡ true) where
    named : oc.block.prev_block ≡ sc.block.block_hash
    named =
        sym ((bytes_equal_iff b.block_hash oc.block.prev_block).0 names)
        ∙ ap (λ (x : Block). x.block_hash) (sym is_b)

    -- No block is its own predecessor.
    apart : (r == cur) ≡ false
    apart = elim (Bool-cases (r == cur)) [
      | inr other ↦ other
      | inl same ↦
          let one =
            some-injective _ _ (sym at_r ∙ ap (get_elem? h) ((==_iff r cur).0 same) ∙ at_cur) in
          let loop : oc.block.prev_block ≡ oc.block.block_hash =
            named ∙ ap (λ (k : SideChain). k.block.block_hash) (sym one) in
          let before : age oc.block.prev_block < age oc.block.block_hash =
            IsAged-at age h r oc w.aged at_r in
          absurd (omega (arith, before, ap age loop))
    ]

    abbrev hung : SideChain
    hung = record oc { parent = some cur }

    abbrev h1 : Heap
    h1 = set h r hung

    abbrev heir : SideChain
    heir = record sc { children = sc.children ++ r ∷ [] }

    abbrev h2 : Heap
    h2 = set h1 cur heir

    not_root : oc.parent ≡ none → is_some oc.parent_index ≡ true → ⊥
    not_root no_parent index =
        let (k, at_k, o) = orphan in
        let same = some-injective _ _ (sym at_k ∙ at_r) in
        elim o [
          | inl no_index ↦ clash (
              sym (ap is_some (ap (λ (k : SideChain). k.parent_index) (sym same) ∙ no_index))
              ∙ index)
          | inr has ↦ clash (
              sym (ap (λ (q : Option Ref). is_some q) no_parent)
              ∙ ap (λ (k : SideChain). is_some k.parent) (sym same)
              ∙ has)
        ]
      where
        clash : false ≡ true → ⊥
        clash e = cc

    w1 : IsForest age chain sides orphans h1
    w1 = hang-IsForest age chain sides orphans h w r cur oc sc at_r at_cur named (
        set-side_roots age chain sides orphans h w r oc hung at_r
          (λ no_parent index. absurd (not_root no_parent index)))

    at_cur1 : get_elem? h1 cur ≡ some sc
    at_cur1 = get_elem?-set_other h r cur hung apart ∙ at_cur

    at_r1 : get_elem? h1 r ≡ some hung
    at_r1 = get_elem?-set_same h r oc hung at_r

    w2 : IsForest age chain sides orphans h2
    w2 =
        bear-IsForest age chain sides orphans h1 w1 cur r sc at_cur1 (hung, at_r1, named)
          (hung, at_r1, refl)

    at_r2 : get_elem? h2 r ≡ some hung
    at_r2 = get_elem?-set_other h1 cur r heir apart' ∙ at_r1
      where
        apart' : (cur == r) ≡ false
        apart' = ground (arith, apart)

    -- As the code writes it: the new block's node first.
    swapped : set (set h cur heir) r hung ≡ h2
    swapped = set_comm h cur r heir hung (ground (arith, apart))

    enough : suc (length h) ≡ suc (length h2)
    enough = ap suc (sym (length-set h1 cur heir ∙ length-set h r hung))

    adopt-one :
        (h3 : Heap) × (recompute
            (suc (length h))
            sc.depth
            sc.parent_index
            (set (set h cur heir) r hung)
            r
          ≡ ok h3)
        × IsAdopted orphans h3
    adopt-one =
        let (h3, run, p) =
          recompute-Repainted age sc.parent_index h2 sc.depth r hung w2.tied w2.aged at_r2 in
        let (k, at_k, m) = p.paints.to cur heir (get_elem?-set_same h1 cur sc heir at_cur1) in
        (
          h3,
          rw (swapped, enough) run,
          (
            Painted-IsForest age chain sides orphans h2 w2 sc.parent_index r h3 (hung, at_r2, refl)
                (Repainted-paints sc.depth sc.parent_index h2 r h3 p),
            Repainted-IsDeep sc.depth sc.parent_index h2 r h3
                (IsDeepBut-set_other h1 r cur heir (IsDeepBut-set h r hung deep)
                  (deep cur sc at_cur))
                p,
            (k, at_k, m.block ∙ is_b),
          ),
        )

    at_heir : get_elem? (set h cur heir) r ≡ some oc
    at_heir = get_elem?-set_other h cur r heir (ground (arith, apart)) ∙ at_r

    taken-Ends :
        (Q : List Ref × Heap → Type 0) (next : Heap → Result (List Ref × Heap))
        → ((h3 : Heap) → IsAdopted orphans h3 → Ends Q (next h3))
        → Ends Q (
            load h cur >>= λ sc.
            load (set h cur (record sc { children = sc.children ++ r ∷ [] })) r >>= λ oc1.
            recompute
              (suc (length h))
              sc.depth
              sc.parent_index
              (set
                (set h cur (record sc { children = sc.children ++ r ∷ [] }))
                r
                (record oc1 { parent = some cur }))
              r
            >>= next)
    taken-Ends Q next good =
        let (h3, run, w3) = adopt-one in
        rw (load-at h cur sc at_cur, load-at (set h cur heir) r oc at_heir, run) (good h3 w3)

  pub adopt-Ends :
      (rounds i : ℕ) (orphans : List Ref) (h : Heap)
      → IsAdopted orphans h
      → Ends (λ (r : List Ref × Heap). IsAdopted r.0 r.1) (adopt b cur rounds i orphans h)
  unfolding adopt load
  adopt-Ends zero i orphans h w = w
  adopt-Ends (suc rounds) i orphans h w = elim (Option-cases (get_elem? orphans i)) [
    | inl outside ↦ rw outside tt
    | inr (r, at) ↦
        let root = All-at (IsOrphan h) orphans i r at w.0.orphan_roots in
        rw (at, root.1)
          (Ends-if (λ (r : List Ref × Heap). IsAdopted r.0 r.1)
            (bytes_equal b.block_hash root.0.block.prev_block) _ _
            (λ names.
              taken-Ends orphans h w.0 w.1 w.2.0 root.0 r w.2.1 w.2.2 root.1 root names
                (λ (r : List Ref × Heap). IsAdopted r.0 r.1) _
                (λ h3 w3. adopt-Ends rounds (suc i) (swap_delete i orphans) h3 (
                  with_orphans age chain sides orphans h3 w3.0 (swap_delete i orphans)
                      (All-swap_delete (IsOrphan h3) i orphans w3.0.orphan_roots),
                  w3.1,
                  w3.2,
                )))
            (λ other. adopt-Ends rounds (suc i) orphans h w))
  ]
