-- ===== src/Node/Requests.antt =====
-- AppendTx, GetUtxo, GetBlockLog and GetBlockchain of src/node/miner.go and src/node/utxodb.go.
-- AppendTx is two steps, since the node's lock is free between them: its start, and a round of its
-- waiting loop. That it floods the transaction to its peers is not modelled.
use dreddit.Base.{
  ℕ, Bool, true, false, List, [], ◌∷◌, ◌++◌, Option, none, some, Bytes, bytes_equal, bytes_eq, ◌||◌,
  if◌then◌else◌, increment, Result, ok, err, panic, out_of_fuel, ◌>>=◌, or_panic, nil_dereference,
}
use dreddit.Dict.{lookup, insert}
use dreddit.Hash.{Scrypt}
use dreddit.Tx.Types.{Transaction}
use dreddit.Tx.Wire.{tx_hash, validate_components}
use dreddit.Utxo.Defs.{UnspentTx, get_unspent_txs}
use dreddit.Block.Types.{Block}
use dreddit.Node.State.{Status, pending, invalid, success, handled, DrNode}
use dreddit.Node.Chain.SendBlock.{with_status}

-- `_, ok := node.SeenTxs[s]`, and the search for a port
unfoldable pub is_among : Bytes → List Bytes → Bool
is_among x [] = false
is_among x (y ∷ ys) = bytes_equal y x || is_among x ys

-- The start of AppendTx: the key of the pending entry that it goes on to wait for, or `none` if its
-- reply is already a refusal.
unfoldable pub append_tx : Scrypt → Transaction → ℕ → DrNode → Result (DrNode × Option Bytes)
unfolding is_among
append_tx s tx clerk_id n = elim (validate_components tx) [
  | err e ↦ ok (n, none)
  | panic p ↦ panic p
  | out_of_fuel ↦ out_of_fuel
  | ok u ↦ tx_hash s tx >>= λ h.
      if is_among h n.seen_txs
      then ok (n, none)
      else ok (
        record n {
          seen_txs = n.seen_txs ++ h ∷ [];
          pending_txs =
              insert h (record { tx = tx; clerk_id = clerk_id; status = pending; hash = h })
                n.pending_txs;
          num_pending = increment n.num_pending;
        },
        some h,
      )
]

-- The reply that a status calls for.
abbrev pub verdict : Status → Option Bool
verdict success = some true
verdict invalid = some false
verdict pending = none
verdict handled = none

-- One round of its loop: a reply ends it.
unfoldable pub await_tx : Bytes → DrNode → Result (DrNode × Option Bool)
await_tx h n = or_panic (lookup h n.pending_txs) nil_dereference >>= λ t. elim (verdict t.status) [
  | none ↦ ok (n, none)
  | some reply ↦
      ok (record n { pending_txs = insert h (with_status handled t) n.pending_txs }, some reply)
]

unfoldable pub get_utxo : Bytes → DrNode → List UnspentTx × Bool
get_utxo pub_key_hash n = get_unspent_txs n.utxo pub_key_hash

unfoldable pub get_block_log : DrNode → List Block
get_block_log n = n.log

unfoldable pub blocks_of : List (Option Block) → Result (List Block)
blocks_of [] = ok []
blocks_of (p ∷ chain) = or_panic p nil_dereference >>= λ b. blocks_of chain >>= λ bs. ok (b ∷ bs)

unfoldable pub get_blockchain : DrNode → Result (List Block)
unfolding blocks_of
get_blockchain n = blocks_of n.blockchain
