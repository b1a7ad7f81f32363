-- ===== src/Node/Finite.antt =====
-- The checks that SendBlock of src/node/miner.go makes of a block, and its updates of the database,
-- end.
use dreddit.Base.{
  ℕ, true, ◌||◌, not, List, [], ◌∷◌, Option, none, some, Bytes, bytes_equal, bytes_eq, nat_eq,
  missing_or_spent_input, pub_key_hashes_differ, empty_transaction_list, wrong_difficulty,
  hash_misses_difficulty, wrong_block_hash, wrong_merkle_root, bad_signature, bad_parent_hash,
  parent_pub_key_hash_differs, nil_dereference, index_out_of_range, ◌==◌, if◌then◌else◌, length,
  get_elem?, elems, last?, arith, Result, ok, err, panic, out_of_fuel, require, or_panic, ◌>>=◌,
  ◌>>◌, Ends, Any, Ends-then, Ends-found, Ends-next, Ends-option, Ends-Any_if, Ends-require,
  Ends-for_each,
}
use dreddit.Hash.{Scrypt, hash, pk_hash}
use dreddit.Dict.{Dict, lookup}
use dreddit.Tx.Types.{Transaction, TxIn, coinbase, comment, post, upvote}
use dreddit.Tx.Wire.{tx_hash, tx_hash_no_sig}
use dreddit.Tx.Finite.{
  slice-Ends, copy_slice-Ends, tx_hash-Ends, tx_hash_no_sig-Ends, validate_structure-Ends,
}
use dreddit.Utxo.Defs.{UtxoDb, spend, spend_all, update_utxo_db}
use dreddit.Merkle.Defs.{build_merkle_tree_store}
use dreddit.Slice.{slice, make_bytes}
use dreddit.Merkle.Finite.{build_merkle_tree_store-Ends}
use dreddit.Block.Types.{Block}
use dreddit.Block.Defs.{Setting, pack, verify_coinbase_tx, no_early_coinbase, validate_block}
use dreddit.Node.State.{TxNode}
use dreddit.Node.Validate.{
  Ecdsa, verify_signature, check_signature, check_input, check_inputs, find_tx,
  find_tx_in_block_chain, check_parent, first_pub_key_hash, validate_transaction, validate_block_tx,
  validate_block_txs,
}
use dreddit.Node.Chain.SendBlock.{extends, settle_txs}

pack-Ends : (b : Block) → Ends Any (pack b)
unfolding pack
pack-Ends b = Ends-then _ _ (copy_slice-Ends _ _ _ _) (λ d.
    Ends-then _ _ (copy_slice-Ends _ _ _ d) (λ e. Ends-then _ _ (copy_slice-Ends _ _ _ e) (λ f.
      Ends-then _ _ (copy_slice-Ends _ _ _ f)
        (λ g. Ends-then _ _ (copy_slice-Ends _ _ _ g) (λ h. copy_slice-Ends _ _ _ h)))))

verify_coinbase_tx-Ends : (tx : Transaction) → Ends Any (verify_coinbase_tx tx)
unfolding verify_coinbase_tx
verify_coinbase_tx-Ends tx = ground arith

no_early_coinbase-Ends : (txs : List Transaction) → Ends Any (no_early_coinbase txs)
unfolding no_early_coinbase
no_early_coinbase-Ends [] = tt
no_early_coinbase-Ends (tx ∷ []) = tt
no_early_coinbase-Ends (tx ∷ u ∷ txs) = Ends-next _ _ _ (no_early_coinbase-Ends (u ∷ txs))

pub validate_block-Ends : (g : Setting) (b : Block) → Ends Any (validate_block g b)
unfolding validate_block
validate_block-Ends g b = Ends-next (not (length b.transactions == 0)) empty_transaction_list _ (
    Ends-next (b.bits == g.difficulty) wrong_difficulty _ (
      Ends-then (slice b.block_hash 0 b.bits) _ (slice-Ends b.block_hash 0 b.bits) (λ front.
        Ends-next (bytes_equal front (make_bytes b.bits)) hash_misses_difficulty _ (
          Ends-then (pack b) _ (pack-Ends b) (λ d.
            Ends-next (bytes_equal b.block_hash (hash g.scrypt d)) wrong_block_hash _ (
              Ends-then (build_merkle_tree_store g.log2 g.scrypt b.transactions) _
                (build_merkle_tree_store-Ends g.scrypt g.log2 b.transactions)
                (λ root. Ends-next (bytes_equal b.merkle_root root) wrong_merkle_root _ (
                  Ends-found (last? b.transactions) index_out_of_range _ (λ last.
                    Ends-then (verify_coinbase_tx last) _ (verify_coinbase_tx-Ends last)
                      (λ u. no_early_coinbase-Ends b.transactions))))))))))

module _ (s : Scrypt) (c : Ecdsa) where
  check_signature-Ends : (tx : Transaction) (t : TxIn) → Ends Any (check_signature s c tx t)
  unfolding check_signature
  check_signature-Ends tx t = go (tx_hash_no_sig s tx) (tx_hash_no_sig-Ends s tx)
    where
      go :
          (r : Result Bytes)
          → Ends Any r
          → Ends Any (elim r [
            | ok signed ↦ require (verify_signature c t signed) bad_signature
            | err e ↦ err bad_signature
            | panic p ↦ panic p
            | out_of_fuel ↦ out_of_fuel
          ])
      go (ok signed) h = Ends-require _ _
      go (err e) h = tt
      go (panic p) h = tt
      go out_of_fuel h = h

  check_input-Ends :
      (db : UtxoDb) (tx : Transaction) (t : TxIn) → Ends Any (check_input s c db tx t)
  unfolding check_input
  check_input-Ends db tx t =
      Ends-option (lookup t.prev_tx_hash db) (err missing_or_spent_input) _ tt (λ entry.
        Ends-found (lookup t.prev_tx_out_index entry) nil_dereference _ (λ o.
          Ends-next (not o.spent) missing_or_spent_input _ (
            Ends-then (check_signature s c tx t) _ (check_signature-Ends tx t) (λ u.
              Ends-next (bytes_equal o.pub_key_hash (pk_hash s t.pub_key)) pub_key_hashes_differ
                (ok o.value) tt))))

  check_inputs-Ends :
      (db : UtxoDb) (tx : Transaction) (ts : List TxIn) (sum : ℕ)
      → Ends Any (check_inputs s c db tx ts sum)
  unfolding check_inputs
  check_inputs-Ends db tx [] sum = tt
  check_inputs-Ends db tx (t ∷ ts) sum =
      Ends-then _ _ (check_input-Ends db tx t) (λ v. check_inputs-Ends db tx ts _)

  find_tx-Ends : (h : Bytes) (txs : List Transaction) → Ends Any (find_tx s h txs)
  unfolding find_tx
  find_tx-Ends h [] = tt
  find_tx-Ends h (tx ∷ txs) =
      Ends-then _ _ (tx_hash-Ends s tx)
        (λ d. Ends-Any_if (bytes_equal d h) _ _ tt (find_tx-Ends h txs))

  find_tx_in_block_chain-Ends :
      (h : Bytes) (chain : List (Option Block)) → Ends Any (find_tx_in_block_chain s h chain)
  unfolding find_tx_in_block_chain
  find_tx_in_block_chain-Ends h [] = tt
  find_tx_in_block_chain-Ends h (none ∷ chain) = tt
  find_tx_in_block_chain-Ends h (some block ∷ chain) =
      Ends-then (find_tx s h block.transactions) _ (find_tx-Ends h block.transactions) (λ found.
        Ends-option found (find_tx_in_block_chain s h chain) (λ tx. ok (some tx))
          (find_tx_in_block_chain-Ends h chain) (λ tx. tt))

  reply_parent-Ends :
      (tx parent : Transaction)
      → Ends Any (
          require (parent.type == post || parent.type == comment) bad_parent_hash
          >> (if tx.type == upvote
              then (first_pub_key_hash tx >>= λ a. first_pub_key_hash parent >>= λ b.
                  require (bytes_equal a b) parent_pub_key_hash_differs)
              else ok tt))
  reply_parent-Ends tx parent =
      Ends-next (parent.type == post || parent.type == comment) bad_parent_hash _ (
        Ends-Any_if (tx.type == upvote) _ (ok tt)
          (Ends-then (first_pub_key_hash tx) _ (first tx)
            (λ a. Ends-then (first_pub_key_hash parent) _ (first parent) (λ b. Ends-require _ _)))
          tt)
    where
      first : (tx : Transaction) → Ends Any (first_pub_key_hash tx)
      first tx = Ends-found (get_elem? tx.tx_outs 0) index_out_of_range _ (λ o. tt)

  check_parent-Ends :
      (chain : List (Option Block)) (tx : Transaction) → Ends Any (check_parent s chain tx)
  unfolding check_parent
  check_parent-Ends chain tx =
      Ends-then (find_tx_in_block_chain s (elems tx.parent) chain) _
        (find_tx_in_block_chain-Ends (elems tx.parent) chain)
        (λ found. Ends-option found _ _ tt (reply_parent-Ends tx))

  validate_transaction-Ends :
      (db : UtxoDb) (chain : List (Option Block)) (tx : Transaction)
      → Ends Any (validate_transaction s c db chain tx)
  unfolding validate_transaction
  validate_transaction-Ends db chain tx = Ends-then _ _ (tx_hash-Ends s tx) (λ id. Ends-next _ _ _ (
      Ends-then _ _ (check_inputs-Ends db tx (elems tx.tx_ins) 0) (λ sum. Ends-next _ _ _ (
        Ends-then _ _ (validate_structure-Ends s tx) (λ u3.
          Ends-Any_if (tx.type == comment || tx.type == upvote) _ (ok tt)
            (check_parent-Ends chain tx) tt)))))

  pub validate_block_txs-Ends :
      (db : UtxoDb) (chain : List (Option Block)) (b : Block)
      → Ends Any (validate_block_txs s c db chain b)
  unfolding validate_block_txs validate_block_tx
  validate_block_txs-Ends db chain b = Ends-for_each b.transactions _ (λ tx.
      Ends-Any_if (tx.type == coinbase) _ _
        (Ends-found (get_elem? tx.tx_outs 0) _ _ (λ o. Ends-require _ _))
        (Ends-then _ _ (validate_structure-Ends s tx) (λ u. validate_transaction-Ends db chain tx)))

module _ (s : Scrypt) where
  spend_all-Ends : (ts : List TxIn) (db : UtxoDb) → Ends Any (spend_all ts db)
  unfolding spend_all spend
  spend_all-Ends [] db = tt
  spend_all-Ends (t ∷ ts) db =
      Ends-then (spend t db) _
        (Ends-found (lookup t.prev_tx_hash db) _ _
          (λ entry. Ends-found (lookup t.prev_tx_out_index entry) _ _ (λ out. tt)))
        (λ db'. spend_all-Ends ts db')

  update_utxo_db-Ends : (tx : Transaction) (db : UtxoDb) → Ends Any (update_utxo_db s tx db)
  unfolding update_utxo_db
  update_utxo_db-Ends tx db =
      Ends-then _ _ (spend_all-Ends (elems tx.tx_ins) db)
        (λ db'. Ends-then _ _ (tx_hash-Ends s tx) (λ h. tt))

  pub settle_txs-Ends :
      (txs : List Transaction) (m : Dict Bytes TxNode) (db : UtxoDb)
      → Ends Any (settle_txs s txs m db)
  unfolding settle_txs
  settle_txs-Ends [] m db = tt
  settle_txs-Ends (tx ∷ txs) m db =
      Ends-then _ _
        (Ends-Any_if (tx.type == coinbase) (ok m) _ tt
          (Ends-then (tx_hash s tx) _ (tx_hash-Ends s tx) (λ h. tt)))
        (λ m'. Ends-then _ _ (update_utxo_db-Ends tx db) (λ db'. settle_txs-Ends txs m' db'))

pub extends-Ends : (prev : Bytes) (chain : List (Option Block)) → Ends Any (extends prev chain)
unfolding extends
extends-Ends prev chain = by_last (last? chain)
  where
    by_last :
        (l : Option (Option Block))
        → Ends Any (elim l [
          | none ↦ ok true
          | some p ↦ or_panic p nil_dereference >>= λ b. ok (bytes_equal prev b.block_hash)
        ])
    by_last none = tt
    by_last (some none) = tt
    by_last (some (some b)) = tt
