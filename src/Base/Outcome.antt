-- ===== src/Base/Outcome.antt =====
-- Go's ways to end a call: a value, `false, err` or `err`, a panic, or no end within the fuel.
use mathlib.Core.Path.{◌≡◌, refl}
use mathlib.Core.Logic.{◌⊎◌, inl, inr}
use mathlib.Core.Bool.{Bool, true, false}
use mathlib.Core.Option.{Option, none, some}
use mathlib.Core.List.{List, [], ◌∷◌}

-- The texts of the program's `errors.New`, a constructor for each.
pub data Error : Type 0 where
  out_pub_key_hash_size in_prev_tx_hash_size : Error
  should_have_one_output upvote_should_have_two_outputs : Error
  output_not_consistent_with_input : Error
  must_have_parent should_not_have_parent : Error
  last_not_coinbase coinbase_has_tx_in coinbase_tx_out_count : Error
  coinbase_has_parent coinbase_has_content : Error
  empty_transaction_list wrong_difficulty hash_misses_difficulty : Error
  wrong_block_hash wrong_merkle_root coinbase_not_last : Error
  empty_ins_or_outs bad_signature pub_key_hashes_differ : Error
  missing_or_spent_input input_less_than_output : Error
  bad_parent_hash parent_pub_key_hash_differs wrong_coinbase_value : Error

pub data Fault : Type 0 where
  slice_bounds index_out_of_range nil_dereference negative_length invalid_transaction : Fault

pub data Result {ℓ} (A : Type ℓ) : Type ℓ where
  out_of_fuel : Result A
  panic : Fault → Result A
  err : Error → Result A
  ok : A → Result A

infixl 5 ◌>>=◌ ◌>>◌
abbrev pub ◌>>=◌ {κ ℓ} : {A : Type κ} {B : Type ℓ} → Result A → (A → Result B) → Result B
out_of_fuel >>= after = out_of_fuel
panic p >>= after = panic p
err e >>= after = err e
ok a >>= after = after a

abbrev pub ◌>>◌ {κ} : {B : Type κ} → Result (Unit {0}) → Result B → Result B
checked >> later = checked >>= λ u. later

-- `if !b { return false, e }`
abbrev pub require : Bool → Error → Result (Unit {0})
require false e = err e
require true e = ok tt

-- `xs[i]` behind a bounds check, and `p.field` behind a nil check
abbrev pub or_panic {ℓ} : {A : Type ℓ} → Option A → Fault → Result A
or_panic none p = panic p
or_panic (some a) p = ok a

-- `for _, x := range xs { … return false, e … }`
abbrev pub for_each {ℓ} : {A : Type ℓ} → List A → (A → Result (Unit {0})) → Result (Unit {0})
for_each [] f = ok tt
for_each (x ∷ xs) f = f x >>= λ _. for_each xs f

-- A chain that returns has returned at each of its two steps.
pub >>=-eq-ok {κ ℓ} :
    {A : Type κ} {B : Type ℓ} (first : Result A) (after : A → Result B) {result : B}
    → (first >>= after) ≡ ok result
    → (a : A) × (first ≡ ok a) × (after a ≡ ok result)
>>=-eq-ok out_of_fuel after run = cc
>>=-eq-ok (panic p) after run = cc
>>=-eq-ok (err e) after run = cc
>>=-eq-ok (ok a) after run = (a, refl, run)

pub require-eq-ok : (b : Bool) (e : Error) {u : Unit {0}} → require b e ≡ ok u → b ≡ true
require-eq-ok true e h = refl
require-eq-ok false e h = cc

pub ok_injective {ℓ} : {A : Type ℓ} {a b : A} → ok a ≡ ok b → a ≡ b
ok_injective h = cc

pub or_panic-eq-ok {ℓ} :
    {A : Type ℓ} (o : Option A) (p : Fault) {a : A} → or_panic o p ≡ ok a → o ≡ some a
or_panic-eq-ok none p h = cc
or_panic-eq-ok (some x) p h = cc

-- A value, an error, or neither.
pub Result-cases {ℓ} :
    {A : Type ℓ} (r : Result A)
    → ((a : A) × (r ≡ ok a))
      ⊎ (((e : Error) × (r ≡ err e)) ⊎ (((p : Fault) × (r ≡ panic p)) ⊎ (r ≡ out_of_fuel)))
Result-cases (ok a) = inl (a, refl)
Result-cases (err e) = inr (inl (e, refl))
Result-cases (panic p) = inr (inr (inl (p, refl)))
Result-cases out_of_fuel = inr (inr (inr refl))

pub clash_panic {ℓ} : {A : Type ℓ} {a : A} (p : Fault) → panic p ≡ ok a → ⊥
clash_panic p h = cc

pub clash_fuel {ℓ} : {A : Type ℓ} {a : A} → out_of_fuel ≡ ok a → ⊥
clash_fuel h = cc
