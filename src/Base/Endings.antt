-- ===== src/Base/Endings.antt =====
-- Calls that end: with an error or a panic, or with a value that satisfies a predicate.
use mathlib.Core.Path.{◌≡◌, refl, subst}
use mathlib.Core.Bool.{Bool, true, false}
use mathlib.Core.Option.{Option, none, some}
use mathlib.Core.List.{List, [], ◌∷◌}
use dreddit.Base.Tests.{if◌then◌else◌}
use dreddit.Base.Outcome.{
  ok_injective, Result, Fault, Error, ok, err, panic, out_of_fuel, ◌>>=◌, ◌>>◌, or_panic, require,
  for_each,
}

abbrev pub Ends {ℓ} : {A : Type ℓ} → (A → Type 0) → Result A → Type 0
Ends Q out_of_fuel = ⊥
Ends Q (panic p) = Unit
Ends Q (err e) = Unit
Ends Q (ok a) = Q a

-- Nothing is asked of the value.
abbrev pub Any {ℓ} : {A : Type ℓ} → A → Type 0
Any a = Unit {0}

pub Ends-bind {ℓ ℓ'} :
    {A : Type ℓ} {B : Type ℓ'} (P : A → Type 0) (Q : B → Type 0) (r : Result A) (f : A → Result B)
    → Ends P r
    → ((a : A) → r ≡ ok a → P a → Ends Q (f a))
    → Ends Q (r >>= f)
Ends-bind P Q out_of_fuel f h k = absurd h
Ends-bind P Q (panic p) f h k = tt
Ends-bind P Q (err e) f h k = tt
Ends-bind P Q (ok a) f h k = k a refl h

pub Ends-map {ℓ} :
    {A : Type ℓ} (P : A → Type 0) (Q : A → Type 0) (r : Result A)
    → Ends P r
    → ((a : A) → P a → Q a)
    → Ends Q r
Ends-map P Q out_of_fuel h k = absurd h
Ends-map P Q (panic p) h k = tt
Ends-map P Q (err e) h k = tt
Ends-map P Q (ok a) h k = k a h

pub Ends-if {ℓ} :
    {A : Type ℓ} (Q : A → Type 0) (b : Bool) (x y : Result A)
    → (b ≡ true → Ends Q x)
    → (b ≡ false → Ends Q y)
    → Ends Q (if b then x else y)
Ends-if Q true x y p q = p refl
Ends-if Q false x y p q = q refl

pub Ends-or_panic {ℓ} :
    {A : Type ℓ} (Q : A → Type 0) (o : Option A) (p : Fault)
    → ((a : A) → o ≡ some a → Q a)
    → Ends Q (or_panic o p)
Ends-or_panic Q none p h = tt
Ends-or_panic Q (some a) p h = h a refl

pub Ends-require : (b : Bool) (e : Error) → Ends Any (require b e)
Ends-require true e = tt
Ends-require false e = tt

pub Ends-for_each {ℓ} :
    {A : Type ℓ} (xs : List A) (f : A → Result (Unit {0}))
    → ((a : A) → Ends Any (f a))
    → Ends Any (for_each xs f)
Ends-for_each [] f h = tt
Ends-for_each (x ∷ xs) f h =
    Ends-bind Any Any (f x) (λ u. for_each xs f) (h x) (λ a e p. Ends-for_each xs f h)

pub Ends-not_out {ℓ} : {A : Type ℓ} (Q : A → Type 0) (r : Result A) → Ends Q r → r ≡ out_of_fuel → ⊥
Ends-not_out Q out_of_fuel h e = h
Ends-not_out Q (panic p) h e = cc
Ends-not_out Q (err x) h e = cc
Ends-not_out Q (ok a) h e = cc

pub Ends-value {ℓ} :
    {A : Type ℓ} (Q : A → Type 0) (r : Result A) (a : A) → Ends Q r → r ≡ ok a → Q a
Ends-value Q (ok b) a h e = subst Q (ok_injective e) h
Ends-value Q (err x) a h e = cc
Ends-value Q (panic p) a h e = cc
Ends-value Q out_of_fuel a h e = absurd h

module _ {ℓ ℓ'} {A : Type ℓ} {B : Type ℓ'} where
  -- Calls that end, in a row.
  pub Ends-then :
      (r : Result A) (f : A → Result B)
      → Ends Any r
      → ((a : A) → Ends Any (f a))
      → Ends Any (r >>= f)
  Ends-then r f h k = Ends-bind Any Any r f h (λ a e p. k a)

  pub Ends-found :
      (o : Option A) (p : Fault) (f : A → Result B)
      → ((a : A) → Ends Any (f a))
      → Ends Any (or_panic o p >>= f)
  Ends-found none p f k = tt
  Ends-found (some a) p f k = k a

pub Ends-checked {ℓ} :
    {B : Type ℓ} (b : Bool) (e : Error) (f : Unit {0} → Result B)
    → ((u : Unit {0}) → Ends Any (f u))
    → Ends Any (require b e >>= f)
Ends-checked true e f k = k tt
Ends-checked false e f k = tt

pub Ends-next {ℓ} :
    {B : Type ℓ} (b : Bool) (e : Error) (later : Result B)
    → Ends Any later
    → Ends Any (require b e >> later)
Ends-next true e later h = h
Ends-next false e later h = tt

-- A case split on what was found.
pub Ends-option {ℓ ℓ'} :
    {A : Type ℓ} {B : Type ℓ'} (o : Option A) (x : Result B) (f : A → Result B)
    → Ends Any x
    → ((a : A) → Ends Any (f a))
    → Ends Any (elim o [ none ↦ x | some a ↦ f a ])
Ends-option none x f h k = h
Ends-option (some a) x f h k = k a

pub Ends-Any_if {ℓ} :
    {A : Type ℓ} (b : Bool) (x y : Result A)
    → Ends Any x
    → Ends Any y
    → Ends Any (if b then x else y)
Ends-Any_if true x y p q = p
Ends-Any_if false x y p q = q
