-- ===== src/Node/Validate.antt =====
-- `verifySignature`, `validateTransaction`, `validateBlockTxs` and `findTxInBlockChain` of
-- src/node/miner.go. They read the node's database and main chain and change nothing.
use dreddit.Base.{
  ℕ, ◌+◌, ◌-◌, ◌*◌, ◌%◌, Bool, false, not, ◌||◌, List, [], ◌∷◌, Option, none, some, Bytes,
  bytes_equal, bytes_eq, nat_eq, ltb, ◌==◌, if◌then◌else◌, length, get_elem?, elems, Result, ok,
  err, panic, out_of_fuel, ◌>>=◌, ◌>>◌, require, or_panic, for_each, index_out_of_range,
  nil_dereference, empty_ins_or_outs, bad_signature, pub_key_hashes_differ, missing_or_spent_input,
  input_less_than_output, bad_parent_hash, parent_pub_key_hash_differs, wrong_coinbase_value,
}
use dreddit.Slice.{u32_mod}
use dreddit.Dict.{lookup}
use dreddit.Hash.{Scrypt, pk_hash}
use dreddit.Tx.Types.{
  TxIn, TxOut, Transaction, coinbase, post, comment, upvote, tx_fee, tx_coinbase,
}
use dreddit.Tx.Wire.{tx_hash, tx_hash_no_sig}
use dreddit.Tx.Check.{validate_structure}
use dreddit.Utxo.Defs.{UtxoDb}
use dreddit.Block.Types.{Block}

-- github.com/btcsuite/btcd/btcec, over the curve S256: `none` is an error.
pub record Ecdsa : Type 1 where
  pub Signature : Type 0
  pub PublicKey : Type 0
  pub parse_signature : Bytes → Option Signature
  pub parse_pub_key : Bytes → Option PublicKey
  pub verify : Signature → Bytes → PublicKey → Bool

unfoldable pub verify_signature : Ecdsa → TxIn → Bytes → Bool
verify_signature c t signed = elim (c.parse_signature t.sig) [
  | none ↦ false
  | some g ↦ elim (c.parse_pub_key t.pub_key) [ none ↦ false | some k ↦ c.verify g signed k ]
]

-- `txHashNoSig, err := tx.HashNoSig(); err != nil || !(node.verifySignature(&txIn, txHashNoSig))`
unfoldable pub check_signature : Scrypt → Ecdsa → Transaction → TxIn → Result (Unit {0})
unfolding verify_signature
check_signature s c tx t = elim (tx_hash_no_sig s tx) [
  | ok signed ↦ require (verify_signature c t signed) bad_signature
  | err e ↦ err bad_signature
  | panic p ↦ panic p
  | out_of_fuel ↦ out_of_fuel
]

-- One round of the loop over the inputs: the output's value.
unfoldable pub check_input : Scrypt → Ecdsa → UtxoDb → Transaction → TxIn → Result ℕ
check_input s c db tx t = elim (lookup t.prev_tx_hash db) [
  | none ↦ err missing_or_spent_input
  | some entry ↦ do
    o ← or_panic (lookup t.prev_tx_out_index entry) nil_dereference
    require (not o.spent) missing_or_spent_input
    check_signature s c tx t
    require (bytes_equal o.pub_key_hash (pk_hash s t.pub_key)) pub_key_hashes_differ
    ok o.value
]

unfoldable pub check_inputs : Scrypt → Ecdsa → UtxoDb → Transaction → List TxIn → ℕ → Result ℕ
check_inputs s c db tx [] sum = ok sum
check_inputs s c db tx (t ∷ ts) sum = do
  v ← check_input s c db tx t
  check_inputs s c db tx ts ((sum + v) % u32_mod)

unfoldable pub output_sum : List TxOut → ℕ → ℕ
output_sum [] sum = sum
output_sum (o ∷ os) sum = output_sum os ((sum + o.value) % u32_mod)

-- `bytes.Equal(tx.Hash(), txHash)` over one block
unfoldable pub find_tx : Scrypt → Bytes → List Transaction → Result (Option Transaction)
find_tx s h [] = ok none
find_tx s h (tx ∷ txs) =
    let rest = find_tx s h txs in
    tx_hash s tx >>= λ d. if bytes_equal d h then ok (some tx) else rest

-- The blocks of the main chain are pointers.
unfoldable pub find_tx_in_block_chain :
    Scrypt → Bytes → List (Option Block) → Result (Option Transaction)
unfolding find_tx
find_tx_in_block_chain s h [] = ok none
find_tx_in_block_chain s h (b ∷ chain) =
    let rest = find_tx_in_block_chain s h chain in
    or_panic b nil_dereference >>= λ block.
    find_tx s h block.transactions >>= λ found. elim found [ none ↦ rest | some tx ↦ ok (some tx) ]

-- `tx.TxOuts[0].PubKeyHash`
abbrev pub first_pub_key_hash : Transaction → Result Bytes
first_pub_key_hash tx =
    or_panic (get_elem? tx.tx_outs 0) index_out_of_range >>= λ o. ok o.pub_key_hash

-- The checks on the parent of a comment or an upvote.
unfoldable pub check_parent : Scrypt → List (Option Block) → Transaction → Result (Unit {0})
check_parent s chain tx = do
  found ← find_tx_in_block_chain s (elems tx.parent) chain
  elim found [
    | none ↦ err bad_parent_hash
    | some parent ↦ do
      require (parent.type == post || parent.type == comment) bad_parent_hash
      if tx.type == upvote
          then (first_pub_key_hash tx >>= λ a. first_pub_key_hash parent >>= λ b.
              require (bytes_equal a b) parent_pub_key_hash_differs)
          else ok tt
  ]

-- The first line hashes the transaction for the log, whether or not the log is on.
unfoldable pub validate_transaction :
    Scrypt → Ecdsa → UtxoDb → List (Option Block) → Transaction → Result (Unit {0})
unfolding check_inputs output_sum check_parent
validate_transaction s c db chain tx = do
  id ← tx_hash s tx
  require (not (length (elems tx.tx_ins) == 0 || length tx.tx_outs == 0)) empty_ins_or_outs
  sum ← check_inputs s c db tx (elems tx.tx_ins) 0
  require (not (ltb ((sum + tx_fee) % u32_mod) (output_sum tx.tx_outs 0))) input_less_than_output
  validate_structure s tx
  if tx.type == comment || tx.type == upvote then check_parent s chain tx else ok tt

-- One round of validateBlockTxs; `n` is the number of the block's transactions.
unfoldable pub validate_block_tx :
    Scrypt → Ecdsa → UtxoDb → List (Option Block) → ℕ → Transaction → Result (Unit {0})
validate_block_tx s c db chain n tx =
    if tx.type == coinbase
    then (or_panic (get_elem? tx.tx_outs 0) index_out_of_range >>= λ o.
        require (o.value == ((n - 1) * tx_fee + tx_coinbase) % u32_mod) wrong_coinbase_value)
    else (validate_structure s tx >> validate_transaction s c db chain tx)

unfoldable pub validate_block_txs :
    Scrypt → Ecdsa → UtxoDb → List (Option Block) → Block → Result (Unit {0})
unfolding validate_block_tx
validate_block_txs s c db chain b =
    for_each b.transactions (validate_block_tx s c db chain (length b.transactions))
