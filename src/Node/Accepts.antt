-- ===== src/Node/Accepts.antt =====
-- What `validateTransaction` has established when it accepts a transaction.
use dreddit.Base.{
  ℕ, ◌+◌, ◌%◌, ◌^◌, ◌≤◌, ◌<◌, ◌≡◌, refl, Bool, true, false, not, ◌||◌, List, [], ◌∷◌, Option, Bytes,
  bytes_equal, bytes_equal_iff, bytes_eq, nat_eq, ltb, ◌==◌, length, elems, Option-cases, Result,
  ◌≢◌, ok, err, panic, out_of_fuel, require, or_panic, ok_injective, or_panic-eq-ok, >>=-eq-ok,
  require-eq-ok, inl, inr, arith, nil_dereference, missing_or_spent_input, pub_key_hashes_differ,
  bad_signature, empty_ins_or_outs, input_less_than_output,
}
use dreddit.Slice.{u32_mod}
use dreddit.Dict.{lookup}
use dreddit.Hash.{Scrypt, pk_hash}
use dreddit.Tx.Types.{TxIn, TxOut, Transaction, tx_fee, comment, upvote}
use dreddit.Tx.Wire.{tx_hash, tx_hash_no_sig}
use dreddit.Tx.Check.{validate_structure}
use dreddit.Utxo.Defs.{UtxoOutput, UtxoDb, lookup_output}
use dreddit.Utxo.Spend.{worth, Unspent}
use dreddit.Utxo.Conserve.{AreUnspent, worth_all, paid}
use dreddit.Block.Types.{Block}
use dreddit.Node.Validate.{
  Ecdsa, verify_signature, check_signature, check_input, check_inputs, output_sum, check_parent,
  validate_transaction,
}

-- Everybody.
abbrev pub anyone : Bytes → Bool
anyone k = true

not-true : {b : Bool} → not b ≡ true → b ≡ false
not-true {b} h = ground arith

pub live_worth : (o : UtxoOutput) → o.spent ≡ false → worth anyone o ≡ o.value
live_worth o h = rw h

module _ (s : Scrypt) (c : Ecdsa) (db : UtxoDb) (tx : Transaction) where
  -- The input's signature is one of the transaction without its signatures.
  abbrev pub IsSigned : TxIn → Type 0
  IsSigned t =
      (signed : Bytes) × (tx_hash_no_sig s tx ≡ ok signed) × (verify_signature c t signed ≡ true)

  -- The outputs that the inputs name: unspent, and owned by the key that has signed.
  abbrev pub AreSpendable : List TxIn → List UtxoOutput → Type 0
  AreSpendable [] [] = Unit {0}
  AreSpendable [] (o ∷ os) = ⊥
  AreSpendable (t ∷ ts) [] = ⊥
  AreSpendable (t ∷ ts) (o ∷ os) =
      (Unspent db t.prev_tx_hash t.prev_tx_out_index o
        × (o.pub_key_hash ≡ pk_hash s t.pub_key)
        × IsSigned t)
      × AreSpendable ts os

  pub AreSpendable-AreUnspent :
      (ts : List TxIn) (os : List UtxoOutput) → AreSpendable ts os → AreUnspent db ts os
  AreSpendable-AreUnspent [] [] h = tt
  AreSpendable-AreUnspent [] (o ∷ os) h = h
  AreSpendable-AreUnspent (t ∷ ts) [] h = h
  AreSpendable-AreUnspent (t ∷ ts) (o ∷ os) h = (h.0.0, AreSpendable-AreUnspent ts os h.1)

  check_signature-IsSigned :
      (t : TxIn) {u : Unit {0}} → check_signature s c tx t ≡ ok u → IsSigned t
  unfolding check_signature
  check_signature-IsSigned t h = go (tx_hash_no_sig s tx) refl h
    where
      go :
          (r : Result Bytes)
          → tx_hash_no_sig s tx ≡ r
          → elim r [
            | ok signed ↦ require (verify_signature c t signed) bad_signature
            | err e ↦ err bad_signature
            | panic p ↦ panic p
            | out_of_fuel ↦ out_of_fuel
          ]
            ≡ ok tt
          → IsSigned t
      go (ok signed) e h = (signed, e, require-eq-ok _ bad_signature h)
      go (err x) e h = cc
      go (panic p) e h = cc
      go out_of_fuel e h = cc

  check_input-spendable :
      (t : TxIn) (v : ℕ)
      → check_input s c db tx t ≡ ok v
      → (o : UtxoOutput) × (o.value ≡ v)
        × Unspent db t.prev_tx_hash t.prev_tx_out_index o
        × (o.pub_key_hash ≡ pk_hash s t.pub_key)
        × IsSigned t
  unfolding check_input lookup_output
  check_input-spendable t v h = elim (Option-cases (lookup t.prev_tx_hash db)) [
    | inl e ↦ absurd (no_entry (rw (e, check_input) at h))
    | inr (entry, e) ↦
        let (o, there, h1) =
          >>=-eq-ok (or_panic (lookup t.prev_tx_out_index entry) nil_dereference) _
            (rw (e, check_input) at h) in
        let (u1, live, h2) = >>=-eq-ok (require (not o.spent) missing_or_spent_input) _ h1 in
        let (u2, signed, h3) = >>=-eq-ok (check_signature s c tx t) _ h2 in
        let (u3, owned, h4) =
          >>=-eq-ok
            (require (bytes_equal o.pub_key_hash (pk_hash s t.pub_key)) pub_key_hashes_differ) _
            h3 in
        (
          o,
          ok_injective h4,
          (
            rw (e, lookup_output) (or_panic-eq-ok _ nil_dereference there),
            not-true (require-eq-ok _ missing_or_spent_input live),
          ),
          (bytes_equal_iff _ _).0 (require-eq-ok _ pub_key_hashes_differ owned),
          check_signature-IsSigned t signed,
        )
  ]
    where
      no_entry : err missing_or_spent_input ≡ ok v → ⊥
      no_entry q = cc

  check_inputs-spendable :
      (ts : List TxIn) (acc r : ℕ)
      → acc < 2 ^ 32
      → check_inputs s c db tx ts acc ≡ ok r
      → (os : List UtxoOutput) × AreSpendable ts os × (r ≡ (acc + worth_all anyone os) % u32_mod)
  unfolding check_inputs worth_all
  check_inputs-spendable [] acc r small h = ([], tt, omega (arith, ok_injective h))
  check_inputs-spendable (t ∷ ts) acc r small h =
      let (v, first, h1) = >>=-eq-ok (check_input s c db tx t) _ h in
      let (o, value, live, owned, signed) = check_input-spendable t v first in
      let (os, rest, sum) = check_inputs-spendable ts ((acc + v) % u32_mod) r (omega arith) h1 in
      (o ∷ os, ((live, owned, signed), rest), omega (arith, sum, value, live_worth o live.1))

pub output_sum-paid :
    (os : List TxOut) (acc : ℕ)
    → acc < 2 ^ 32
    → output_sum os acc ≡ (acc + paid anyone os) % u32_mod
unfolding output_sum paid
output_sum-paid [] acc small = omega arith
output_sum-paid (o ∷ os) acc small =
    omega (arith, output_sum-paid os ((acc + o.value) % u32_mod) (omega arith))

-- The facts that an accepted transaction satisfies; `os` are the outputs that its inputs spend.
pub record Accepted (s : Scrypt) (c : Ecdsa) (db : UtxoDb) (chain : List (Option Block))
    (tx : Transaction) (os : List UtxoOutput) : Type 0 where
  pub spendable : AreSpendable s c db tx (elems tx.tx_ins) os
  pub has_ins : length (elems tx.tx_ins) ≢ 0
  pub has_outs : length tx.tx_outs ≢ 0
  -- The sums are those of uint32.
  pub balanced :
      paid anyone tx.tx_outs % u32_mod ≤ (worth_all anyone os % u32_mod + tx_fee) % u32_mod
  pub structured : validate_structure s tx ≡ ok tt
  pub parented : (tx.type == comment || tx.type == upvote) ≡ true → check_parent s chain tx ≡ ok tt

both_nonempty : (m n : ℕ) → not (m == 0 || n == 0) ≡ true → (m ≢ 0) × (n ≢ 0)
both_nonempty m n h = (λ e. ground arith, λ e. ground arith)

not-ltb : (a b : ℕ) → not (ltb a b) ≡ true → b ≤ a
not-ltb a b h = ground arith

module _ (s : Scrypt) (c : Ecdsa) (db : UtxoDb) (chain : List (Option Block))
    (tx : Transaction) where
  -- If `validateTransaction` accepts, then inputs and outputs are not empty, every input names an
  -- unspent output whose owner's key has signed the transaction, the outputs' sum is at most the
  -- inputs' plus the fee (each modulo 2 ^ 32), the structure is valid, and a comment or an upvote
  -- has passed the check of its parent.
  pub validate_transaction-Accepted :
      validate_transaction s c db chain tx ≡ ok tt
      → (os : List UtxoOutput) × Accepted s c db chain tx os
  unfolding validate_transaction
  validate_transaction-Accepted h =
      let (id, hashed, h1) = >>=-eq-ok (tx_hash s tx) _ h in
      let (u1, nonempty, h2) =
        >>=-eq-ok
          (require (not (length (elems tx.tx_ins) == 0 || length tx.tx_outs == 0))
            empty_ins_or_outs)
          _ h1 in
      let (sum, checked, h3) = >>=-eq-ok (check_inputs s c db tx (elems tx.tx_ins) 0) _ h2 in
      let (u2, enough, h4) =
        >>=-eq-ok
          (require (not (ltb ((sum + tx_fee) % u32_mod) (output_sum tx.tx_outs 0)))
            input_less_than_output)
          _ h3 in
      let (u3, structured, h5) = >>=-eq-ok (validate_structure s tx) _ h4 in
      let (os, spendable, total) =
        check_inputs-spendable s c db tx (elems tx.tx_ins) 0 sum (omega arith) checked in
      let (ins, outs) =
        both_nonempty (length (elems tx.tx_ins)) (length tx.tx_outs)
          (require-eq-ok _ empty_ins_or_outs nonempty) in
      (
        os,
        record {
          spendable = spendable;
          has_ins = ins;
          has_outs = outs;
          balanced = omega (
            arith,
            total,
            output_sum-paid tx.tx_outs 0 (omega arith),
            not-ltb ((sum + tx_fee) % u32_mod) (output_sum tx.tx_outs 0)
                (require-eq-ok _ input_less_than_output enough),
          );
          structured = structured;
          parented = λ e. rw e at h5;
        },
      )
