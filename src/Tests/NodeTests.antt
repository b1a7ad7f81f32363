-- ===== src/Tests/NodeTests.antt =====
-- The node's checks and the database.
use dreddit.Base.{◌+◌, ◌≤◌, ◌≡◌, refl, Bytes, List, [], ◌∷◌, ok, arith, Bool, ◌↔◌}
use dreddit.Tests.Toy.{toy_scrypt, toy_ecdsa, fair, minting, small_db, coin}
use dreddit.Slice.{fit, copy_slice}
use dreddit.Hash.{hash, pk_hash}
use dreddit.Dict.{lookup, sum_of}
use dreddit.Tx.Wire.{
  pack_int, tx_in_pack, tx_in_pack_no_sig, tx_out_pack, tx_hash, tx_hash_no_sig,
  validate_components,
}
use dreddit.Tx.Types.{tx_fee}
use dreddit.Tx.Check.{validate_structure}
use dreddit.Utxo.Defs.{UtxoOutput, UtxoDb, lookup_output, update_utxo_db}
use dreddit.Utxo.Spend.{holdings}
use dreddit.Utxo.Conserve.{worth_all, paid, update_utxo_db-conserves}
use dreddit.Node.Validate.{verify_signature, check_signature, check_input, validate_transaction}
use dreddit.Node.Accepts.{Accepted, anyone}
use dreddit.Node.Supply.{validate_transaction_iff, accepted_supply, fee_is_minted}

abbrev fair_hash : Bytes
fair_hash = fit 32 (158 ∷ [])

abbrev minting_hash : Bytes
minting_hash = fit 32 (67 ∷ [])

fair_hashed : tx_hash toy_scrypt fair ≡ ok fair_hash
unfolding tx_hash hash copy_slice pack_int tx_in_pack tx_out_pack
fair_hashed = refl

minting_hashed : tx_hash toy_scrypt minting ≡ ok minting_hash
unfolding tx_hash hash copy_slice pack_int tx_in_pack tx_out_pack
minting_hashed = refl

fair_valid : validate_transaction toy_scrypt toy_ecdsa small_db [] fair ≡ ok tt
unfolding validate_transaction check_input check_signature verify_signature validate_structure
    lookup tx_hash tx_hash_no_sig hash pk_hash copy_slice pack_int tx_in_pack tx_in_pack_no_sig
    tx_out_pack validate_components
fair_valid = refl

minting-Accepted : Accepted toy_scrypt toy_ecdsa small_db [] minting (coin ∷ [])
unfolding verify_signature validate_structure lookup lookup_output hash pk_hash copy_slice pack_int
    tx_hash_no_sig tx_in_pack_no_sig tx_out_pack validate_components worth_all paid
minting-Accepted = record {
  spendable = (((refl, refl), refl, (fit 32 (99 ∷ []), refl, refl)), tt);
  has_ins = λ e. omega arith;
  has_outs = λ e. omega arith;
  balanced = omega arith;
  structured = refl;
  parented = λ e. cc;
}

update_utxo_db-conserves_example :
    (db' : UtxoDb) × (update_utxo_db toy_scrypt fair small_db ≡ ok db')
    × ((p : Bytes → Bool)
        → holdings p db' + worth_all p (coin ∷ []) ≡ holdings p small_db + paid p fair.tx_outs)
unfolding lookup lookup_output
update_utxo_db-conserves_example =
    update_utxo_db-conserves toy_scrypt fair small_db (coin ∷ []) fair_hash fair_hashed refl
      ((refl, refl), tt) (tt, tt) (omega arith)

validate_transaction_iff_example :
    (validate_transaction toy_scrypt toy_ecdsa small_db [] minting ≡ ok tt)
    ↔ ((os : List UtxoOutput) × Accepted toy_scrypt toy_ecdsa small_db [] minting os)
validate_transaction_iff_example =
    validate_transaction_iff toy_scrypt toy_ecdsa small_db [] minting minting_hash minting_hashed

accepted_supply_example :
    (db' : UtxoDb) × (update_utxo_db toy_scrypt fair small_db ≡ ok db')
    × (holdings anyone db' ≤ holdings anyone small_db + tx_fee)
unfolding lookup holdings sum_of paid
accepted_supply_example =
    accepted_supply toy_scrypt toy_ecdsa small_db [] fair fair_hash fair_hashed fair_valid (tt, tt)
      refl (omega arith) (omega arith) (omega arith)

fee_is_minted_example :
    (validate_transaction toy_scrypt toy_ecdsa small_db [] minting ≡ ok tt)
    × ((db' : UtxoDb) × (update_utxo_db toy_scrypt minting small_db ≡ ok db')
        × (holdings anyone db' ≡ holdings anyone small_db + tx_fee))
unfolding lookup worth_all paid
fee_is_minted_example =
    fee_is_minted toy_scrypt toy_ecdsa small_db [] minting minting_hash minting_hashed (coin ∷ [])
      minting-Accepted (tt, tt) refl refl (omega arith)
