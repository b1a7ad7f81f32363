-- ===== src/Node/Chain/Forest.antt =====
-- The invariant of a node's side chains and orphans in src/node/miner.go: nodes of the heap that
-- hang on one another, or on the main chain.
use mathlib.Core.Path.{subst}
use dreddit.Base.{
  ℕ, ◌≡◌, refl, sym, ap, ◌∙◌, ◌⊎◌, inl, inr, true, List, [], ◌∷◌, ◌++◌, Option, none, some, Bytes,
  get_elem?, set, is_some, get_elem?-append, set-keeps, All, All-map,
}
use dreddit.Block.Types.{Block}
use dreddit.Node.State.{Ref, SideChain, Heap}
use dreddit.Node.Chain.Frame.{IsChildOf, IsTied, IsAged, block_of}

abbrev pub HasParent : Heap → Ref → Type 0
HasParent h q = (k : SideChain) × (get_elem? h q ≡ some k) × (is_some k.parent ≡ true)

-- The block at this index of the main chain comes before this one.
abbrev pub IsOnChain : List (Option Block) → Block → ℕ → Type 0
IsOnChain chain b i =
    (a : Block) × (get_elem? chain i ≡ some (some a)) × (b.prev_block ≡ a.block_hash)

-- What a node hangs on: the node that is its parent, or else, if it has an index, the block of the
-- main chain at that index. The block there comes before the node's.
abbrev pub HangsOn : List (Option Block) → Heap → SideChain → Option Ref → Type 0
HangsOn chain h sc none =
    (sc.parent_index ≡ none) ⊎ ((i : ℕ) × (sc.parent_index ≡ some i) × IsOnChain chain sc.block i)
HangsOn chain h sc (some q) =
    (k : SideChain) × (get_elem? h q ≡ some k) × (sc.block.prev_block ≡ k.block.block_hash)

pub record IsNode (chain : List (Option Block)) (h : Heap) (sc : SideChain) : Type 0 where
  pub kids : All (HasParent h) sc.children
  pub hangs : HangsOn chain h sc sc.parent

-- A root that hangs on the main chain, and one that may be an orphan's.
abbrev pub IsSideRoot : Heap → Ref → Type 0
IsSideRoot h r =
    (sc : SideChain) × (get_elem? h r ≡ some sc)
    × (sc.parent ≡ none)
    × (is_some sc.parent_index ≡ true)

abbrev pub IsOrphan : Heap → Ref → Type 0
IsOrphan h r =
    (sc : SideChain) × (get_elem? h r ≡ some sc)
    × ((sc.parent_index ≡ none) ⊎ (is_some sc.parent ≡ true))

pub record IsForest (age : Bytes → ℕ) (chain : List (Option Block)) (sides orphans : List Ref)
    (h : Heap) : Type 0 where
  pub tied : IsTied h
  pub aged : IsAged age h
  pub nodes : (r : Ref) (sc : SideChain) → get_elem? h r ≡ some sc → IsNode chain h sc
  pub side_roots : All (IsSideRoot h) sides
  pub orphan_roots : All (IsOrphan h) orphans

-- Every node is still there, with its block, and has a parent if it had one.
pub record Persists (h h' : Heap) : Type 0 where
  pub stays :
      (x : Ref) (sc : SideChain)
      → get_elem? h x ≡ some sc
      → (sc' : SideChain) × (get_elem? h' x ≡ some sc')
        × (sc'.block ≡ sc.block)
        × (is_some sc.parent ≡ true → is_some sc'.parent ≡ true)

module _ (h h' : Heap) (w : Persists h h') where
  pub Persists-IsChildOf :
      (sc sc' : SideChain) (q : Ref) → sc'.block ≡ sc.block → IsChildOf h sc q → IsChildOf h' sc' q
  Persists-IsChildOf sc sc' q same (k, at, names) =
      let (k', at', block, parent) = w.stays q k at in
      (
        k',
        at',
        ap (λ (b : Block). b.prev_block) block
            ∙ names
            ∙ ap (λ (b : Block). b.block_hash) (sym same),
      )

  pub Persists-HasParent : (q : Ref) → HasParent h q → HasParent h' q
  Persists-HasParent q (k, at, has) =
      let (k', at', block, parent) = w.stays q k at in (k', at', parent has)

  pub Persists-HangsOn :
      (chain : List (Option Block)) (sc : SideChain) (p : Option Ref)
      → HangsOn chain h sc p
      → HangsOn chain h' sc p
  Persists-HangsOn chain sc none on = on
  Persists-HangsOn chain sc (some q) (k, at, names) =
      let (k', at', block, parent) = w.stays q k at in
      (k', at', names ∙ ap (λ (b : Block). b.block_hash) (sym block))

  pub Persists-IsNode :
      (chain : List (Option Block)) (sc : SideChain) → IsNode chain h sc → IsNode chain h' sc
  Persists-IsNode chain sc v = record {
    kids = All-map Persists-HasParent sc.children v.kids;
    hangs = Persists-HangsOn chain sc sc.parent v.hangs;
  }

-- A node with the same block, and, if nothing is its parent, with the same index.
pub HangsOn-same :
    (chain : List (Option Block)) (h : Heap) (sc sc' : SideChain) (p : Option Ref)
    → sc'.block ≡ sc.block
    → (p ≡ none → sc'.parent_index ≡ sc.parent_index)
    → HangsOn chain h sc p
    → HangsOn chain h sc' p
HangsOn-same chain h sc sc' none block index (inl no_index) = inl (index refl ∙ no_index)
HangsOn-same chain h sc sc' none block index (inr (i, at, on)) =
    inr (i, index refl ∙ at, subst (λ (b : Block). IsOnChain chain b i) (sym block) on)
HangsOn-same chain h sc sc' (some q) block index (k, at, names) =
    (k, at, ap (λ (b : Block). b.prev_block) block ∙ names)

pub Persists-refl : (h : Heap) → Persists h h
Persists-refl h = record { stays = λ x sc at. (sc, at, refl, λ e. e) }

pub Persists-trans : (h h1 h2 : Heap) → Persists h h1 → Persists h1 h2 → Persists h h2
Persists-trans h h1 h2 v w = record {
  stays = λ x sc at.
      let (sc1, at1, block1, parent1) = v.stays x sc at in
      let (sc2, at2, block2, parent2) = w.stays x sc1 at1 in
      (sc2, at2, block2 ∙ block1, λ e. parent2 (parent1 e));
}

pub Persists-append : (h : Heap) (v : SideChain) → Persists h (h ++ v ∷ [])
Persists-append h v = record {
  stays = λ x sc at. (sc, get_elem?-append h (v ∷ []) x sc at, refl, λ e. e);
}

pub Persists-set :
    (h : Heap) (r : Ref) (sc v : SideChain)
    → get_elem? h r ≡ some sc
    → v.block ≡ sc.block
    → (is_some sc.parent ≡ true → is_some v.parent ≡ true)
    → Persists h (set h r v)
Persists-set h r sc v there block parent = record { stays = stays }
  where
    stays :
        (x : Ref) (a : SideChain)
        → get_elem? h x ≡ some a
        → (a' : SideChain) × (get_elem? (set h r v) x ≡ some a')
          × (a'.block ≡ a.block)
          × (is_some a.parent ≡ true → is_some a'.parent ≡ true)
    stays x a at = elim (set-keeps h r sc v there x a at) [
      | inl (same, new) ↦ (
        v,
        new,
        block ∙ ap block_of (sym same),
        λ e. parent (ap (λ (k : SideChain). is_some k.parent) (sym same) ∙ e),
      )
      | inr old ↦ (a, old, refl, λ e. e)
    ]
