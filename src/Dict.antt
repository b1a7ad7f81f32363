-- ===== src/Dict.antt =====
-- Go's maps as association lists in the order of iteration: `m[k]`, `m[k] = v` and `delete(m, k)`.
-- A key stands once; `IsMap` says so, and the updates keep it.
use dreddit.Base.{
  ℕ, ◌+◌, ◌≡◌, refl, sym, ap, ◌∙◌, inl, inr, Bool-cases, false, List, [], ◌∷◌, Option, none, some,
  Eq, if◌then◌else◌, arith,
}

abbrev pub Dict {ℓ κ} : Type ℓ → Type κ → Type (ℓ ⊔ κ)
Dict K V = List (K × V)

abbrev pub old_of {κ} : {V : Type κ} → (V → ℕ) → Option V → ℕ
old_of f none = 0
old_of f (some v) = f v

module _ {ℓ κ} {K : Type ℓ} {V : Type κ} ⦃e : Eq K⦄ where
  unfoldable pub lookup : K → Dict K V → Option V
  lookup k [] = none
  lookup k ((j, v) ∷ m) = if e.beq j k then some v else lookup k m

  -- A key that is there keeps its place.
  unfoldable pub insert : K → V → Dict K V → Dict K V
  insert k v [] = (k, v) ∷ []
  insert k v ((j, w) ∷ m) = if e.beq j k then (j, v) ∷ m else (j, w) ∷ insert k v m

  unfoldable pub delete : K → Dict K V → Dict K V
  delete k [] = []
  delete k ((j, w) ∷ m) = if e.beq j k then m else (j, w) ∷ delete k m

  pub lookup-insert :
      (k j : K) (v : V) (m : Dict K V)
      → lookup j (insert k v m) ≡ (if e.beq k j then some v else lookup j m)
  unfolding lookup insert
  lookup-insert k j v [] = ground arith
  lookup-insert k j v ((i, w) ∷ m) =
      ground (arith, lookup-insert k j v m, e.beq_iff i k, e.beq_iff i j, e.beq_iff k j)

  pub lookup-delete_ne :
      (k j : K) (m : Dict K V) → e.beq k j ≡ false → lookup j (delete k m) ≡ lookup j m
  unfolding lookup delete
  lookup-delete_ne k j [] h = refl
  lookup-delete_ne k j ((i, w) ∷ m) h =
      ground (arith, lookup-delete_ne k j m, e.beq_iff i k, e.beq_iff i j, e.beq_iff k j)

  -- The sum of a measure over the values.
  unfoldable pub sum_of : (V → ℕ) → Dict K V → ℕ
  sum_of f [] = 0
  sum_of f ((j, w) ∷ m) = f w + sum_of f m

  pub sum_of-insert :
      (f : V → ℕ) (k : K) (v : V) (m : Dict K V)
      → sum_of f (insert k v m) + old_of f (lookup k m) ≡ sum_of f m + f v
  unfolding sum_of lookup insert
  sum_of-insert f k v [] = omega arith
  sum_of-insert f k v ((j, w) ∷ m) = ground (arith, sum_of-insert f k v m)

  pub sum_of-delete :
      (f : V → ℕ) (k : K) (m : Dict K V)
      → sum_of f (delete k m) + old_of f (lookup k m) ≡ sum_of f m
  unfolding sum_of lookup delete
  sum_of-delete f k [] = omega arith
  sum_of-delete f k ((j, w) ∷ m) = ground (arith, sum_of-delete f k m)

  abbrev pub IsMap : Dict K V → Type κ
  IsMap [] = Unit {κ}
  IsMap ((j, w) ∷ m) = (lookup j m ≡ none) × IsMap m

  pub insert-IsMap : (k : K) (v : V) (m : Dict K V) → IsMap m → IsMap (insert k v m)
  unfolding insert lookup
  insert-IsMap k v [] h = (refl, tt)
  insert-IsMap k v ((j, w) ∷ m) h =
      ground (arith, insert-IsMap k v m, lookup-insert k j v m, e.beq_iff j k, e.beq_iff k j)

  lookup-delete-none : (k j : K) (m : Dict K V) → lookup j m ≡ none → lookup j (delete k m) ≡ none
  unfolding lookup delete
  lookup-delete-none k j [] h = refl
  lookup-delete-none k j ((i, w) ∷ m) h = ground (arith, lookup-delete-none k j m)

  pub delete-IsMap : (k : K) (m : Dict K V) → IsMap m → IsMap (delete k m)
  unfolding delete lookup
  delete-IsMap k [] h = tt
  delete-IsMap k ((j, w) ∷ m) h = ground (arith, delete-IsMap k m, lookup-delete-none k j m)

  pub lookup-delete_self : (k : K) (m : Dict K V) → IsMap m → lookup k (delete k m) ≡ none
  unfolding lookup delete
  lookup-delete_self k [] h = refl
  lookup-delete_self k ((j, w) ∷ m) h = ground (arith, lookup-delete_self k m, e.beq_iff j k)

  pub lookup-older :
      (k j : K) (v w : V) (m : Dict K V)
      → lookup k m ≡ none
      → lookup j m ≡ some v
      → lookup j ((k, w) ∷ m) ≡ some v
  unfolding lookup
  lookup-older k j v w m new h = elim (Bool-cases (e.beq k j)) [
    | inr apart ↦ rw apart h
    | inl same ↦ absurd (clash (sym new ∙ ap (λ (x : K). lookup x m) ((e.beq_iff k j).0 same) ∙ h))
  ]
    where
      clash : none ≡ some v → ⊥
      clash q = cc
