-- ===== src/Node/Supply.antt =====
-- Which transactions are accepted, and what an accepted transaction does to the supply of dkarma.
use dreddit.Base.{
  ℕ, ◌+◌, ◌%◌, ◌^◌, ◌≤◌, ◌<◌, ◌≡◌, ◌≢◌, ◌↔◌, refl, ap, ◌∙◌, Bool, true, false, not, ◌||◌, List, [],
  ◌∷◌, Option, none, Bytes, bytes_equal_iff, bytes_eq, nat_eq, ltb, ◌==◌, if◌then◌else◌, length,
  elems, ok, arith,
}
use dreddit.Slice.{u32_mod}
use dreddit.Dict.{lookup}
use dreddit.Hash.{Scrypt, pk_hash}
use dreddit.Tx.Types.{TxIn, Transaction, tx_fee, comment, upvote}
use dreddit.Tx.Wire.{tx_hash}
use dreddit.Utxo.Defs.{UtxoOutput, UtxoDb, update_utxo_db}
use dreddit.Utxo.Spend.{holdings, lookup-lookup_output}
use dreddit.Utxo.Conserve.{
  IsDistinct, worth_all, worth_all-le-holdings, paid, update_utxo_db-conserves,
}
use dreddit.Block.Types.{Block}
use dreddit.Node.Validate.{
  Ecdsa, check_signature, check_input, check_inputs, check_parent, validate_transaction,
}
use dreddit.Node.Accepts.{
  anyone, IsSigned, AreSpendable, AreSpendable-AreUnspent, Accepted, output_sum-paid, live_worth,
  validate_transaction-Accepted,
}

module _ (s : Scrypt) (c : Ecdsa) (db : UtxoDb) (tx : Transaction) where
  IsSigned-check_signature : (t : TxIn) → IsSigned s c db tx t → check_signature s c tx t ≡ ok tt
  unfolding check_signature
  IsSigned-check_signature t (signed, hashed, good) = rw (hashed, check_signature) (rw good)

  check_input_complete :
      (t : TxIn) (o : UtxoOutput) (ts : List TxIn) (os : List UtxoOutput)
      → AreSpendable s c db tx (t ∷ ts) (o ∷ os)
      → check_input s c db tx t ≡ ok o.value
  unfolding check_input
  check_input_complete t o ts os (((there, live), owned, signed), rest) =
      let (e, at_hash, at_index) =
        lookup-lookup_output t.prev_tx_hash t.prev_tx_out_index db o there in
      rw (at_hash, check_input)
        (rw (
          at_index,
          live,
          IsSigned-check_signature t signed,
          (bytes_equal_iff o.pub_key_hash (pk_hash s t.pub_key)).1 owned,
        ))

  check_inputs_complete :
      (ts : List TxIn) (os : List UtxoOutput) (acc : ℕ)
      → acc < 2 ^ 32
      → AreSpendable s c db tx ts os
      → check_inputs s c db tx ts acc ≡ ok ((acc + worth_all anyone os) % u32_mod)
  unfolding check_inputs worth_all
  check_inputs_complete [] [] acc small h = ap ok (omega arith)
  check_inputs_complete [] (o ∷ os) acc small h = absurd h
  check_inputs_complete (t ∷ ts) [] acc small h = absurd h
  check_inputs_complete (t ∷ ts) (o ∷ os) acc small h = rw (check_input_complete t o ts os h) (
      check_inputs_complete ts os ((acc + o.value) % u32_mod) (omega arith) h.1
      ∙ ap ok (omega (arith, live_worth o h.0.0.1)))

nonempty_test : (m n : ℕ) → m ≢ 0 → n ≢ 0 → not (m == 0 || n == 0) ≡ true
nonempty_test m n hm hn = ground arith

ltb_test : (a b : ℕ) → b ≤ a → not (ltb a b) ≡ true
ltb_test a b h = ground arith

module _ (s : Scrypt) (c : Ecdsa) (db : UtxoDb) (chain : List (Option Block)) (tx : Transaction)
    (h : Bytes) (hashed : tx_hash s tx ≡ ok h) where
  Accepted-validate_transaction :
      (os : List UtxoOutput)
      → Accepted s c db chain tx os
      → validate_transaction s c db chain tx ≡ ok tt
  unfolding validate_transaction
  Accepted-validate_transaction os a =
      rw
        (
          hashed,
          nonempty_test (length (elems tx.tx_ins)) (length tx.tx_outs) a.has_ins a.has_outs,
          check_inputs_complete s c db tx (elems tx.tx_ins) os 0 (omega arith) a.spendable,
          output_sum-paid tx.tx_outs 0 (omega arith),
          ltb_test (((0 + worth_all anyone os) % u32_mod + tx_fee) % u32_mod)
              ((0 + paid anyone tx.tx_outs) % u32_mod) (omega (arith, a.balanced)),
          a.structured,
        )
        (last_check (tx.type == comment || tx.type == upvote) refl)
    where
      last_check :
          (b : Bool)
          → (tx.type == comment || tx.type == upvote) ≡ b
          → (if b then check_parent s chain tx else ok tt) ≡ ok tt
      last_check true e = a.parented e
      last_check false e = refl

  -- `validateTransaction` accepts a transaction that can be hashed exactly when some list of
  -- outputs satisfies `Accepted`: the inputs spend them while they are unspent, signed by their
  -- owners, the sums are balanced modulo 2 ^ 32, and structure and parent are valid.
  pub validate_transaction_iff :
      (validate_transaction s c db chain tx ≡ ok tt)
      ↔ ((os : List UtxoOutput) × Accepted s c db chain tx os)
  validate_transaction_iff =
      (validate_transaction-Accepted s c db chain tx, λ (os, a). Accepted-validate_transaction os a)

  -- If a transaction that can be hashed is accepted, names no output twice, has a hash that is
  -- new to the database and at most 2 ^ 32 outputs, and neither the supply plus the fee nor the
  -- sum of its outputs reaches 2 ^ 32, then the database is updated and the supply grows by at
  -- most the fee.
  pub accepted_supply :
      validate_transaction s c db chain tx ≡ ok tt
      → IsDistinct (elems tx.tx_ins)
      → lookup h db ≡ none
      → holdings anyone db + tx_fee < 2 ^ 32
      → paid anyone tx.tx_outs < 2 ^ 32
      → length tx.tx_outs ≤ 2 ^ 32
      → (db' : UtxoDb) × (update_utxo_db s tx db ≡ ok db')
        × (holdings anyone db' ≤ holdings anyone db + tx_fee)
  accepted_supply valid far new fits out_fits small =
      let (os, a) = validate_transaction-Accepted s c db chain tx valid in
      let live = AreSpendable-AreUnspent s c db tx (elems tx.tx_ins) os a.spendable in
      let (db', updated, moved) = update_utxo_db-conserves s tx db os h hashed new live far small in
      (
        db',
        updated,
        omega (
          arith,
          moved anyone,
          worth_all-le-holdings anyone (elems tx.tx_ins) os db live far,
          a.balanced,
        ),
      )

  -- If a transaction that can be hashed satisfies `Accepted`, its inputs are distinct, its hash
  -- is new to the database, it has at most 2 ^ 32 outputs, and these pay what its inputs are
  -- worth plus the fee, then it is accepted, and updating the database makes the supply larger by
  -- the fee.
  pub fee_is_minted :
      (os : List UtxoOutput)
      → Accepted s c db chain tx os
      → IsDistinct (elems tx.tx_ins)
      → lookup h db ≡ none
      → paid anyone tx.tx_outs ≡ worth_all anyone os + tx_fee
      → length tx.tx_outs ≤ 2 ^ 32
      → (validate_transaction s c db chain tx ≡ ok tt)
        × ((db' : UtxoDb) × (update_utxo_db s tx db ≡ ok db')
            × (holdings anyone db' ≡ holdings anyone db + tx_fee))
  fee_is_minted os a far new pays small =
      let live = AreSpendable-AreUnspent s c db tx (elems tx.tx_ins) os a.spendable in
      let (db', updated, moved) = update_utxo_db-conserves s tx db os h hashed new live far small in
      (Accepted-validate_transaction os a, (db', updated, omega (arith, moved anyone)))
