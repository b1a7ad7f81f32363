-- ===== src/Node/Chain/Paint.antt =====
-- What `Recompute` of src/node/miner.go does to the heap: the marks of the nodes below one node.
use mathlib.Core.List.{Memᴰ}
use mathlib.Core.Path.{subst}
use mathlib.Core.Option.{some-injective}
use dreddit.Base.{
  ℕ, zero, suc, ◌+◌, ◌≤◌, ◌==◌, ==_iff, ◌≡◌, refl, sym, ap, ◌∙◌, ◌⊎◌, inl, inr, Option, some, Bytes,
  get_elem?, set, get_elem?-set_same, get_elem?-set_other, map-set, All, All-map, Bool-cases, arith,
}
use dreddit.Block.Types.{Block}
use dreddit.Node.State.{Ref, SideChain, Heap}
use dreddit.Node.Chain.Frame.{IsChildOf, IsTied, IsAged, IsOrdered, block_of, blocks_in}
use dreddit.Node.Chain.Search.{Under, itself, down, Beneath, here, deeper}

-- One node before and after: only its marks may be others. Then its index is `i`, and its depth is not
-- 0, and `P` holds of it.
pub record Marked (P : Ref → ℕ → Type 0) (i : Option ℕ) (x : Ref) (sc sc' : SideChain)
    : Type 0 where
  pub block : sc'.block ≡ sc.block
  pub children : sc'.children ≡ sc.children
  pub parent : sc'.parent ≡ sc.parent
  pub marks :
      ((sc'.depth ≡ sc.depth) × (sc'.parent_index ≡ sc.parent_index))
      ⊎ (P x sc'.depth × (1 ≤ sc'.depth) × (sc'.parent_index ≡ i))

pub record Painted (P : Ref → ℕ → Type 0) (i : Option ℕ) (h h' : Heap) : Type 0 where
  pub blocks : blocks_in h' ≡ blocks_in h
  pub to :
      (x : Ref) (sc : SideChain)
      → get_elem? h x ≡ some sc
      → (sc' : SideChain) × (get_elem? h' x ≡ some sc') × Marked P i x sc sc'
  pub from :
      (x : Ref) (sc' : SideChain)
      → get_elem? h' x ≡ some sc'
      → (sc : SideChain) × (get_elem? h x ≡ some sc) × Marked P i x sc sc'

-- The marks of a node: the index, and a depth that is not 0 and of which `P` holds.
abbrev pub HasMarks : (Ref → ℕ → Type 0) → Option ℕ → Heap → Ref → Type 0
HasMarks P i h x =
    (sc : SideChain) × (get_elem? h x ≡ some sc)
    × (sc.parent_index ≡ i)
    × (1 ≤ sc.depth)
    × P x sc.depth

module _ (P : Ref → ℕ → Type 0) (i : Option ℕ) where
  Marked-refl : (x : Ref) (sc : SideChain) → Marked P i x sc sc
  Marked-refl x sc = record {
    block = refl;
    children = refl;
    parent = refl;
    marks = inl (refl, refl);
  }

  Marked-trans :
      (x : Ref) (a b c : SideChain) → Marked P i x a b → Marked P i x b c → Marked P i x a c
  Marked-trans x a b c v w = record {
    block = w.block ∙ v.block;
    children = w.children ∙ v.children;
    parent = w.parent ∙ v.parent;
    marks = later v.marks w.marks;
  }
    where
      later :
          ((b.depth ≡ a.depth) × (b.parent_index ≡ a.parent_index))
            ⊎ (P x b.depth × (1 ≤ b.depth) × (b.parent_index ≡ i))
          → ((c.depth ≡ b.depth) × (c.parent_index ≡ b.parent_index))
            ⊎ (P x c.depth × (1 ≤ c.depth) × (c.parent_index ≡ i))
          → ((c.depth ≡ a.depth) × (c.parent_index ≡ a.parent_index))
            ⊎ (P x c.depth × (1 ≤ c.depth) × (c.parent_index ≡ i))
      later (inl (d, e)) (inl (d', e')) = inl (d' ∙ d, e' ∙ e)
      later (inr (p, d, e)) (inl (d', e')) = inr (subst (P x) (sym d') p, rw d' d, e' ∙ e)
      later v (inr w) = inr w

  pub Painted-refl : (h : Heap) → Painted P i h h
  Painted-refl h = record {
    blocks = refl;
    to = λ x sc at. (sc, at, Marked-refl x sc);
    from = λ x sc at. (sc, at, Marked-refl x sc);
  }

  pub Painted-trans : (h h1 h2 : Heap) → Painted P i h h1 → Painted P i h1 h2 → Painted P i h h2
  Painted-trans h h1 h2 v w = record {
    blocks = w.blocks ∙ v.blocks;
    to = λ x sc at.
        let (b, at1, m1) = v.to x sc at in
        let (c, at2, m2) = w.to x b at1 in (c, at2, Marked-trans x sc b c m1 m2);
    from = λ x sc at.
        let (b, at1, m2) = w.from x sc at in
        let (a, at2, m1) = v.from x b at1 in (a, at2, Marked-trans x a b sc m1 m2);
  }

  -- One node that is painted.
  pub Painted-set :
      (h : Heap) (r : Ref) (sc : SideChain) (d : ℕ)
      → get_elem? h r ≡ some sc
      → P r (d + 1)
      → Painted P i h (set h r (record sc { depth = d + 1; parent_index = i }))
  Painted-set h r sc d there p = record {
    blocks = map-set block_of h r sc painted there refl;
    to = to_painted;
    from = from_painted;
  }
    where
      painted : SideChain
      painted = record sc { depth = d + 1; parent_index = i }

      marked : Marked P i r sc painted
      marked = record {
        block = refl;
        children = refl;
        parent = refl;
        marks = inr (p, omega arith, refl);
      }

      to_painted :
          (x : Ref) (a : SideChain)
          → get_elem? h x ≡ some a
          → (a' : SideChain) × (get_elem? (set h r painted) x ≡ some a') × Marked P i x a a'
      to_painted x a at = elim (Bool-cases (r == x)) [
        | inl same ↦
            let e : r ≡ x = (==_iff r x).0 same in
            subst
              (λ (x : Ref).
                get_elem? h x ≡ some a
                → (a' : SideChain) × (get_elem? (set h r painted) x ≡ some a') × Marked P i x a a')
              e
              (λ at. (
                painted,
                get_elem?-set_same h r sc painted there,
                subst (λ (b : SideChain). Marked P i r b painted)
                    (some-injective _ _ (sym there ∙ at)) marked,
              ))
              at
        | inr other ↦ (a, get_elem?-set_other h r x painted other ∙ at, Marked-refl x a)
      ]

      from_painted :
          (x : Ref) (a' : SideChain)
          → get_elem? (set h r painted) x ≡ some a'
          → (a : SideChain) × (get_elem? h x ≡ some a) × Marked P i x a a'
      from_painted x a' at = elim (Bool-cases (r == x)) [
        | inl same ↦
            let e : r ≡ x = (==_iff r x).0 same in
            subst
              (λ (x : Ref).
                get_elem? (set h r painted) x ≡ some a'
                → (a : SideChain) × (get_elem? h x ≡ some a) × Marked P i x a a')
              e
              (λ at. (
                sc,
                there,
                subst (λ (b : SideChain). Marked P i r sc b)
                    (some-injective _ _ (sym (get_elem?-set_same h r sc painted there) ∙ at))
                    marked,
              ))
              at
        | inr other ↦ (a', sym (get_elem?-set_other h r x painted other) ∙ at, Marked-refl x a')
      ]

  module _ (h h' : Heap) (w : Painted P i h h') where
    pub Painted-IsChildOf :
        (sc sc' : SideChain) (q : Ref)
        → sc'.block ≡ sc.block
        → IsChildOf h sc q
        → IsChildOf h' sc' q
    Painted-IsChildOf sc sc' q same (k, at, names) =
        let (k', at', m) = w.to q k at in
        (
          k',
          at',
          ap (λ (b : Block). b.prev_block) m.block
              ∙ names
              ∙ ap (λ (b : Block). b.block_hash) (sym same),
        )

    pub Painted-IsTied : IsTied h → IsTied h'
    Painted-IsTied tied x sc' at =
        let (sc, at0, m) = w.from x sc' at in
        subst (All (IsChildOf h' sc')) (sym m.children)
          (All-map (λ q. Painted-IsChildOf sc sc' q m.block) sc.children (tied x sc at0))

    pub Painted-IsAged : (age : Bytes → ℕ) → IsAged age h → IsAged age h'
    Painted-IsAged age aged = subst (All (IsOrdered age)) (sym w.blocks) aged

    pub Under-Painted : (r x : Ref) → Under h r x → Under h' r x
    Under-Painted r r' itself = itself
    Under-Painted r x (down {q = q} sc at child under) =
        let (sc', at', m) = w.to r sc at in
        down sc' at' (subst (Memᴰ q) (sym m.children) child) (Under-Painted q x under)

    pub Painted-marks : (x : Ref) → HasMarks P i h x → HasMarks P i h' x
    Painted-marks x (sc, at, e, deep, p) =
        let (sc', at', m) = w.to x sc at in
        elim m.marks [
          | inl (d, same) ↦ (sc', at', same ∙ e, rw d deep, subst (P x) (sym d) p)
          | inr (q, d, new) ↦ (sc', at', new, d, q)
        ]

    pub Painted-Beneath : (r x : Ref) (n : ℕ) → Beneath h' r n x → Beneath h r n x
    Painted-Beneath r r' zero here = here
    Painted-Beneath r x (suc n) (deeper {q = q} sc' at child under) =
        let (sc, at0, m) = w.from r sc' at in
        deeper sc at0 (subst (Memᴰ q) m.children child) (Painted-Beneath q x n under)

pub Painted-widen :
    (P Q : Ref → ℕ → Type 0) (i : Option ℕ) (h h' : Heap)
    → ((x : Ref) (d : ℕ) → P x d → Q x d)
    → Painted P i h h'
    → Painted Q i h h'
Painted-widen P Q i h h' f w = record {
  blocks = w.blocks;
  to = λ x sc at. let (sc', at', m) = w.to x sc at in (sc', at', wide x sc sc' m);
  from = λ x sc' at. let (sc, at', m) = w.from x sc' at in (sc, at', wide x sc sc' m);
}
  where
    wide : (x : Ref) (sc sc' : SideChain) → Marked P i x sc sc' → Marked Q i x sc sc'
    wide x sc sc' m = record {
      block = m.block;
      children = m.children;
      parent = m.parent;
      marks = elim m.marks [ inl same ↦ inl same | inr (p, d, e) ↦ inr (f x sc'.depth p, d, e) ];
    }

pub HasMarks-widen :
    (P Q : Ref → ℕ → Type 0) (i : Option ℕ) (h : Heap) (x : Ref)
    → ((d : ℕ) → P x d → Q x d)
    → HasMarks P i h x
    → HasMarks Q i h x
HasMarks-widen P Q i h x f (sc, at, e, deep, p) = (sc, at, e, deep, f sc.depth p)
