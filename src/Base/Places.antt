-- ===== src/Base/Places.antt =====
-- Reads and writes at the places of a list.
use Prim.Native.Nat.{ℕ, zero, suc, ◌+◌, ◌<◌}
use mathlib.Core.Path.{◌≡◌, refl, sym, ap, ◌∙◌, subst}
use mathlib.Core.Logic.{◌⊎◌, inl, inr}
use mathlib.Core.Bool.{false}
use mathlib.Core.Option.{some, some-injective}
use mathlib.Core.List.{List, [], ◌∷◌, ◌++◌, map}
use native.Mathlib.Omega.{arith}
use dreddit.Base.Tests.{◌==◌}
use dreddit.Base.Lists.{length, get_elem?, set, take, drop, last?, All}

module _ {ℓ} {A : Type ℓ} where
  pub get_elem?-inside : (xs : List A) (i : ℕ) (a : A) → get_elem? xs i ≡ some a → i < length xs
  get_elem?-inside [] i a h = cc
  get_elem?-inside (x ∷ xs) zero a h = omega arith
  get_elem?-inside (x ∷ xs) (suc i) a h = omega (arith, get_elem?-inside xs i a h)

  pub get_elem?-last : (xs : List A) (x : A) → get_elem? (xs ++ x ∷ []) (length xs) ≡ some x
  get_elem?-last [] x = refl
  get_elem?-last (y ∷ xs) x = get_elem?-last xs x

  pub get_elem?-append :
      (xs ys : List A) (i : ℕ) (a : A) → get_elem? xs i ≡ some a → get_elem? (xs ++ ys) i ≡ some a
  get_elem?-append [] ys i a h = cc
  get_elem?-append (x ∷ xs) ys zero a h = h
  get_elem?-append (x ∷ xs) ys (suc i) a h = get_elem?-append xs ys i a h

  -- A place of a list that has grown by one element.
  pub get_elem?-split :
      (xs : List A) (x : A) (i : ℕ) (a : A)
      → get_elem? (xs ++ x ∷ []) i ≡ some a
      → (get_elem? xs i ≡ some a) ⊎ ((i ≡ length xs) × (a ≡ x))
  get_elem?-split [] x zero a h = inr (refl, some-injective _ _ (sym h))
  get_elem?-split [] x (suc i) a h = cc
  get_elem?-split (y ∷ xs) x zero a h = inl h
  get_elem?-split (y ∷ xs) x (suc i) a h = elim (get_elem?-split xs x i a h) [
    | inl old ↦ inl old
    | inr (at, same) ↦ inr (ap suc at, same)
  ]

  pub get_elem?-set_same :
      (xs : List A) (i : ℕ) (a v : A) → get_elem? xs i ≡ some a → get_elem? (set xs i v) i ≡ some v
  get_elem?-set_same [] i a v h = cc
  get_elem?-set_same (x ∷ xs) zero a v h = refl
  get_elem?-set_same (x ∷ xs) (suc i) a v h = get_elem?-set_same xs i a v h

  pub get_elem?-set_other :
      (xs : List A) (i j : ℕ) (v : A) → (i == j) ≡ false → get_elem? (set xs i v) j ≡ get_elem? xs j
  get_elem?-set_other [] i j v h = refl
  get_elem?-set_other (x ∷ xs) zero zero v h = absurd (ground arith)
  get_elem?-set_other (x ∷ xs) zero (suc j) v h = refl
  get_elem?-set_other (x ∷ xs) (suc i) zero v h = refl
  get_elem?-set_other (x ∷ xs) (suc i) (suc j) v h = get_elem?-set_other xs i j v (ground arith)

  pub length-set : (xs : List A) (i : ℕ) (v : A) → length (set xs i v) ≡ length xs
  length-set [] i v = refl
  length-set (x ∷ xs) zero v = refl
  length-set (x ∷ xs) (suc i) v = ap suc (length-set xs i v)

  -- A write that keeps what `f` sees of the element.
  pub map-set {κ} :
      {B : Type κ} (f : A → B) (xs : List A) (i : ℕ) (a v : A)
      → get_elem? xs i ≡ some a
      → f v ≡ f a
      → map f (set xs i v) ≡ map f xs
  map-set f [] i a v h e = refl
  map-set f (x ∷ xs) zero a v h e = ap (λ b. b ∷ map f xs) (e ∙ ap f (sym (some-injective _ _ h)))
  map-set f (x ∷ xs) (suc i) a v h e = ap (◌∷◌ (f x)) (map-set f xs i a v h e)

  pub get_elem?-there : (xs : List A) (i : ℕ) → i < length xs → (a : A) × (get_elem? xs i ≡ some a)
  get_elem?-there [] i h = absurd (omega arith)
  get_elem?-there (x ∷ xs) zero h = (x, refl)
  get_elem?-there (x ∷ xs) (suc i) h = get_elem?-there xs i (omega arith)

  -- Writes at different places commute.
  pub set_comm :
      (xs : List A) (i j : ℕ) (u v : A)
      → (i == j) ≡ false
      → set (set xs i u) j v ≡ set (set xs j v) i u
  set_comm [] i j u v h = refl
  set_comm (x ∷ xs) zero zero u v h = absurd (ground arith)
  set_comm (x ∷ xs) zero (suc j) u v h = refl
  set_comm (x ∷ xs) (suc i) zero u v h = refl
  set_comm (x ∷ xs) (suc i) (suc j) u v h = ap (◌∷◌ x) (set_comm xs i j u v (ground arith))

  -- What a write at `i` leaves at `j`: the value that is written, or the old one.
  pub get_elem?-set :
      (xs : List A) (i j : ℕ) (v a : A)
      → get_elem? (set xs i v) j ≡ some a
      → ((i ≡ j) × (a ≡ v)) ⊎ (((i == j) ≡ false) × (get_elem? xs j ≡ some a))
  get_elem?-set [] i j v a h = cc
  get_elem?-set (x ∷ xs) zero zero v a h = inl (refl, some-injective _ _ (sym h))
  get_elem?-set (x ∷ xs) zero (suc j) v a h = inr (ground arith, h)
  get_elem?-set (x ∷ xs) (suc i) zero v a h = inr (ground arith, h)
  get_elem?-set (x ∷ xs) (suc i) (suc j) v a h = elim (get_elem?-set xs i j v a h) [
    | inl (at, same) ↦ inl (ap suc at, same)
    | inr (other, old) ↦ inr (ground arith, old)
  ]

  -- What a write at `i` makes of what stood at `j`: the value that is written, or the old one.
  pub set-keeps :
      (xs : List A) (i : ℕ) (s v : A)
      → get_elem? xs i ≡ some s
      → (j : ℕ) (a : A) → get_elem? xs j ≡ some a
      → ((a ≡ s) × (get_elem? (set xs i v) j ≡ some v)) ⊎ (get_elem? (set xs i v) j ≡ some a)
  set-keeps [] i s v there j a at = cc
  set-keeps (x ∷ xs) zero s v there zero a at = inl (some-injective _ _ (sym at ∙ there), refl)
  set-keeps (x ∷ xs) zero s v there (suc j) a at = inr at
  set-keeps (x ∷ xs) (suc i) s v there zero a at = inr at
  set-keeps (x ∷ xs) (suc i) s v there (suc j) a at = set-keeps xs i s v there j a at

pub All-at {ℓ κ} :
    {A : Type ℓ} (P : A → Type κ) (xs : List A) (i : ℕ) (x : A)
    → get_elem? xs i ≡ some x
    → All P xs
    → P x
All-at P [] i x at w = cc
All-at P (y ∷ xs) zero x at w = subst P (some-injective _ _ at) w.0
All-at P (y ∷ xs) (suc i) x at w = All-at P xs i x at w.1

pub All-set {ℓ κ} :
    {A : Type ℓ} (P : A → Type κ) (xs : List A) (i : ℕ) (v : A)
    → P v
    → All P xs
    → All P (set xs i v)
All-set P [] i v p w = tt
All-set P (x ∷ xs) zero v p w = (p, w.1)
All-set P (x ∷ xs) (suc i) v p w = (w.0, All-set P xs i v p w.1)

pub All-take {ℓ κ} :
    {A : Type ℓ} (P : A → Type κ) (n : ℕ) (xs : List A) → All P xs → All P (take n xs)
All-take P zero xs w = tt
All-take P (suc n) [] w = tt
All-take P (suc n) (x ∷ xs) w = (w.0, All-take P n xs w.1)

pub All-last {ℓ κ} :
    {A : Type ℓ} (P : A → Type κ) (xs : List A) (x : A) → last? xs ≡ some x → All P xs → P x
All-last P [] x at w = cc
All-last P (y ∷ []) x at w = subst P (some-injective _ _ at) w.0
All-last P (y ∷ z ∷ xs) x at w = All-last P (z ∷ xs) x at w.1

module _ {ℓ κ} {A : Type ℓ} {B : Type κ} (f : A → B) where
  pub get_elem?-map :
      (xs : List A) (i : ℕ) (a : A) → get_elem? xs i ≡ some a → get_elem? (map f xs) i ≡ some (f a)
  get_elem?-map [] i a h = cc
  get_elem?-map (x ∷ xs) zero a h = ap (λ b. some (f b)) (some-injective _ _ h)
  get_elem?-map (x ∷ xs) (suc i) a h = get_elem?-map xs i a h

  pub map-get_elem? :
      (xs : List A) (i : ℕ) (b : B)
      → get_elem? (map f xs) i ≡ some b
      → (a : A) × (get_elem? xs i ≡ some a) × (f a ≡ b)
  map-get_elem? [] i b h = cc
  map-get_elem? (x ∷ xs) zero b h = (x, refl, some-injective _ _ h)
  map-get_elem? (x ∷ xs) (suc i) b h = map-get_elem? xs i b h

module _ {ℓ} {A : Type ℓ} where
  pub get_elem?-drop : (n j : ℕ) (xs : List A) → get_elem? (drop n xs) j ≡ get_elem? xs (n + j)
  get_elem?-drop zero j xs = ap (get_elem? xs) (omega arith)
  get_elem?-drop (suc n) j [] = refl
  get_elem?-drop (suc n) j (x ∷ xs) = get_elem?-drop n j xs ∙ ap (get_elem? (x ∷ xs)) (shifted n j)
    where
      shifted : (n j : ℕ) → suc (n + j) ≡ suc n + j
      shifted n j = omega arith

  -- The first place of a list that is appended.
  pub get_elem?-joint : (xs ys : List A) → get_elem? (xs ++ ys) (length xs) ≡ get_elem? ys 0
  get_elem?-joint [] ys = refl
  get_elem?-joint (x ∷ xs) ys = get_elem?-joint xs ys
