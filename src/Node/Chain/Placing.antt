-- ===== src/Node/Chain/Placing.antt =====
-- The scans of SendBlock in src/node/miner.go end, and leave a forest: the new block hangs on what it
-- names as its predecessor.
use dreddit.Base.{
  ℕ, suc, ◌+◌, ◌≤◌, ◌≡◌, refl, sym, ap, ◌∙◌, inl, inr, true, false, List, [], ◌∷◌, ◌++◌, Option,
  none, some, Bytes, bytes_equal, bytes_equal_iff, length, get_elem?, set, is_some,
  get_elem?-append, get_elem?-split, get_elem?-set, get_elem?-last, All, All-map, arith, ok, ◌>>=◌,
  Ends, Ends-if, Ends-bind,
}
use dreddit.Block.Types.{Block}
use dreddit.Node.State.{Ref, SideChain, Heap}
use dreddit.Node.Chain.Tree.{load, alloc, Found, nothing, seen, below}
use dreddit.Node.Chain.Place.{Placed, known, placed, new_side_chain, scan_main, attach, scan_chains}
use dreddit.Node.Chain.Frame.{IsOrdered}
use dreddit.Node.Chain.Search.{Under, Answer, find_parent-answers}
use dreddit.Node.Chain.Forest.{
  IsForest, HangsOn, Persists, Persists-refl, Persists-append, Persists-trans, Persists-set,
}
use dreddit.Node.Chain.Planting.{alloc-IsForest, bear-IsForest}

-- A node with a parent has a depth that is not 0.
abbrev pub IsDeep : Heap → Type 0
IsDeep h =
    (x : Ref) (sc : SideChain) → get_elem? h x ≡ some sc → is_some sc.parent ≡ true → 1 ≤ sc.depth

pub IsDeep-alloc :
    (h : Heap) (v : SideChain)
    → IsDeep h
    → (is_some v.parent ≡ true → 1 ≤ v.depth)
    → IsDeep (h ++ v ∷ [])
IsDeep-alloc h v deep new x sc at has = elim (get_elem?-split h v x sc at) [
  | inl old ↦ deep x sc old has
  | inr (last, same) ↦ rw same (new (ap (λ (k : SideChain). is_some k.parent) (sym same) ∙ has))
]

pub IsDeep-set :
    (h : Heap) (r : Ref) (v : SideChain)
    → IsDeep h
    → (is_some v.parent ≡ true → 1 ≤ v.depth)
    → IsDeep (set h r v)
IsDeep-set h r v deep new x sc at has = elim (get_elem?-set h r x v sc at) [
  | inl (here, same) ↦ rw same (new (ap (λ (k : SideChain). is_some k.parent) (sym same) ∙ has))
  | inr (other, old) ↦ deep x sc old has
]

abbrev pub IsThere : Heap → Ref → Type 0
IsThere h r = (sc : SideChain) × (get_elem? h r ≡ some sc)

Persists-IsThere : (h h' : Heap) → Persists h h' → (r : Ref) → IsThere h r → IsThere h' r
Persists-IsThere h h' w r (sc, at) = let (sc', at', block, parent) = w.stays r sc at in (sc', at')

-- The node of the block.
abbrev pub IsAt : Block → Heap → Ref → Type 0
IsAt b h r = (sc : SideChain) × (get_elem? h r ≡ some sc) × (sc.block ≡ b)

abbrev pub IsAt? : Block → Heap → Option Ref → Type 0
IsAt? b h none = Unit {0}
IsAt? b h (some r) = IsAt b h r

pub Persists-IsAt : (h h' : Heap) (b : Block) (r : Ref) → Persists h h' → IsAt b h r → IsAt b h' r
Persists-IsAt h h' b r w (sc, at, same) =
    let (sc', at', block, parent) = w.stays r sc at in (sc', at', block ∙ same)

Persists-IsAt? :
    (h h' : Heap) (b : Block) (cur : Option Ref) → Persists h h' → IsAt? b h cur → IsAt? b h' cur
Persists-IsAt? h h' b none w at = tt
Persists-IsAt? h h' b (some r) w at = Persists-IsAt h h' b r w at

module _ (age : Bytes → ℕ) (chain : List (Option Block)) (sides orphans : List Ref) (b : Block)
    (ordered : IsOrdered age b) where
  abbrev pub IsGrown : Heap → Type 0
  IsGrown h = IsForest age chain sides orphans h × IsDeep h

  abbrev pub PlacedWell : Placed → Type 0
  PlacedWell (known h) = IsGrown h
  PlacedWell (placed cur h) = IsGrown h × IsAt? b h cur

  pub root-IsGrown :
      (h : Heap) (index : Option ℕ)
      → HangsOn chain h (new_side_chain none index b 0) none
      → IsGrown h
      → IsGrown (alloc (new_side_chain none index b 0) h).1
        × IsAt b
            (alloc (new_side_chain none index b 0) h).1
            (alloc (new_side_chain none index b 0) h).0
  unfolding alloc
  root-IsGrown h index on (w, deep) = (
    (
      alloc-IsForest age chain sides orphans h w v refl on ordered,
      IsDeep-alloc h v deep (λ has. absurd (none_some has)),
    ),
    (v, get_elem?-last h v, refl),
  )
    where
      v : SideChain
      v = new_side_chain none index b 0

      none_some : false ≡ true → ⊥
      none_some e = cc

  pub scan_main-Ends :
      (index : ℕ) (rest : List (Option Block)) (cur : Option Ref) (h : Heap)
      → ((j : ℕ) (a : Option Block)
          → get_elem? rest j ≡ some a
          → get_elem? chain (index + j) ≡ some a)
      → IsGrown h
      → IsAt? b h cur
      → Ends PlacedWell (scan_main b index rest cur h)
  unfolding scan_main
  scan_main-Ends index [] cur h within w at = (w, at)
  scan_main-Ends index (none ∷ rest) cur h within w at = tt
  scan_main-Ends index (some a ∷ rest) cur h within w at =
      Ends-if PlacedWell (bytes_equal b.block_hash a.block_hash) _ _ (λ same. w)
        (λ other.
          Ends-if PlacedWell (bytes_equal b.prev_block a.block_hash) _ _
            (λ below.
              let on =
                inr (index, refl, (a, here, (bytes_equal_iff b.prev_block a.block_hash).0 below)) in
              let (w', at') = root-IsGrown h (some index) on w in
              scan_main-Ends (suc index) rest _ _ later w' at')
            (λ past. scan_main-Ends (suc index) rest cur h later w at))
    where
      here : get_elem? chain index ≡ some (some a)
      here = ap (λ (i : ℕ). get_elem? chain i) index_zero ∙ within 0 (some a) refl
        where
          index_zero : index ≡ index + 0
          index_zero = omega arith

      later :
          (j : ℕ) (x : Option Block)
          → get_elem? rest j ≡ some x
          → get_elem? chain (suc index + j) ≡ some x
      later j x at = ap (λ (i : ℕ). get_elem? chain i) next ∙ within (suc j) x at
        where
          next : suc index + j ≡ index + suc j
          next = omega arith

  -- The new node is below a node that it names.
  attach-Ends :
      (r : Ref) (h : Heap) (sc : SideChain)
      → get_elem? h r ≡ some sc
      → b.prev_block ≡ sc.block.block_hash
      → IsGrown h
      → Ends
          (λ (new : Ref × Heap). IsGrown new.1 × IsAt b new.1 new.0 × Persists h new.1)
          (attach b r h)
  unfolding attach load alloc
  attach-Ends r h sc there names (w, deep) = rw there (
    (
      bear-IsForest age chain sides orphans h1 w1 r q sc there1 (v, get_elem?-last h v, names)
          (v, get_elem?-last h v, refl),
      IsDeep-set h1 r sc' deep1 (deep r sc there),
    ),
    Persists-IsAt h1 h2 b q p2 (v, get_elem?-last h v, refl),
    Persists-trans h h1 h2 (Persists-append h v) p2,
  )
    where
      v : SideChain
      v = new_side_chain (some r) sc.parent_index b (sc.depth + 1)

      q : Ref
      q = length h

      h1 : Heap
      h1 = h ++ v ∷ []

      sc' : SideChain
      sc' = record sc { children = sc.children ++ q ∷ [] }

      h2 : Heap
      h2 = set h1 r sc'

      w1 : IsForest age chain sides orphans h1
      w1 = alloc-IsForest age chain sides orphans h w v refl (sc, there, names) ordered

      deep1 : IsDeep h1
      deep1 = IsDeep-alloc h v deep (λ has. omega arith)

      there1 : get_elem? h1 r ≡ some sc
      there1 = get_elem?-append h (v ∷ []) r sc there

      p2 : Persists h1 h2
      p2 = Persists-set h1 r sc sc' there1 refl (λ e. e)

  -- After the search below one root, and then the other roots.
  next_root :
      (r : Ref) (rs : List Ref) (cur : Option Ref) (h : Heap) (f : Found)
      → ((cur : Option Ref) (h' : Heap)
          → Persists h h'
          → IsGrown h'
          → IsAt? b h' cur
          → Ends PlacedWell (scan_chains b rs cur h'))
      → IsGrown h
      → IsAt? b h cur
      → Answer h b.prev_block b.block_hash (Under h r) f
      → Ends PlacedWell (elim f [
        | nothing ↦ scan_chains b rs cur h
        | seen ↦ ok (known h)
        | below q ↦ attach b q h >>= λ (new, h'). scan_chains b rs (some new) h'
      ])
  next_root r rs cur h nothing loop w at none_there = loop cur h (Persists-refl h) w at
  next_root r rs cur h seen loop w at old = w
  next_root r rs cur h (below q) loop w at (k, under, at_q, other, same) =
      Ends-bind (λ (new : Ref × Heap). IsGrown new.1 × IsAt b new.1 new.0 × Persists h new.1)
        PlacedWell (attach b q h) _
        (attach-Ends q h k at_q (sym ((bytes_equal_iff k.block.block_hash b.prev_block).0 same)) w)
        (λ new run (w', at', p). loop (some new.0) new.1 p w' at')

  pub scan_chains-Ends :
      (rs : List Ref) (cur : Option Ref) (h : Heap)
      → All (IsThere h) rs
      → IsGrown h
      → IsAt? b h cur
      → Ends PlacedWell (scan_chains b rs cur h)
  unfolding scan_chains
  scan_chains-Ends [] cur h there w at = (w, at)
  scan_chains-Ends (r ∷ rs) cur h ((sc, found), there) w at =
      let (f, run, answer) =
        find_parent-answers h b.prev_block b.block_hash age w.0.tied w.0.aged r sc found in
      rw run (
        next_root r rs cur h f
          (λ cur' h' p w' at'.
            scan_chains-Ends rs cur' h' (All-map (Persists-IsThere h h' p) rs there) w' at')
          w at answer)
