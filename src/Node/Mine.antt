-- ===== src/Node/Mine.antt =====
-- One round of the loop of `mine` in src/node/miner.go, and `bootstrap`. `mine` holds the node's lock
-- for the whole round, so no other handler comes in between; the blocks that it sends to peers
-- are not modelled.
use dreddit.Base.{
  ℕ, Bool, true, false, List, [], ◌∷◌, ◌++◌, Option, none, some, Bytes, bytes_eq, if◌then◌else◌,
  length, last?, sub_ℕ, at_least, Result, ok, err, panic, out_of_fuel, ◌>>=◌, or_panic,
  nil_dereference, index_out_of_range,
}
use dreddit.Slice.{make_bytes, copy_slice}
use dreddit.Dict.{Dict, lookup, insert}
use dreddit.Hash.{Scrypt, hash_num_bytes}
use dreddit.Tx.Types.{Transaction}
use dreddit.Utxo.Defs.{UtxoDb, update_utxo_db}
use dreddit.Block.Types.{Block}
use dreddit.Block.Defs.{Setting, generate_block}
use dreddit.Node.Validate.{Ecdsa, validate_transaction}
use dreddit.Node.State.{DrNode, TxNode, Status, pending, invalid, success}
use dreddit.Node.Chain.SendBlock.{extends, with_status}

-- What the first loop has so far: the pending map, `txs` and `txNodes`.
pub record Batch : Type 0 where
  pub pending_txs : Dict Bytes TxNode
  pub txs : List Transaction
  pub tx_nodes : List TxNode

abbrev pub is_pending : Status → Bool
is_pending pending = true
is_pending _ = false

-- One round of that loop, for the entry `(h, t)`. An error marks it as invalid.
unfoldable pub collect_one : Setting → Ecdsa → DrNode → Bytes → TxNode → Batch → Result Batch
collect_one g c n h t batch =
    if is_pending t.status
    then elim (validate_transaction g.scrypt c n.utxo n.blockchain t.tx) [
      | ok u ↦
          ok (record batch { txs = batch.txs ++ t.tx ∷ []; tx_nodes = batch.tx_nodes ++ t ∷ [] })
      | err e ↦
          ok (record batch { pending_txs = insert h (with_status invalid t) batch.pending_txs })
      | panic p ↦ panic p
      | out_of_fuel ↦ out_of_fuel
    ]
    else ok batch

unfoldable pub collect : Setting → Ecdsa → DrNode → Dict Bytes TxNode → Batch → Result Batch
unfolding collect_one
collect g c n [] batch = ok batch
collect g c n ((h, t) ∷ entries) batch = collect_one g c n h t batch >>= collect g c n entries

-- `copy(prevBlockHash, lastBlockHash)`
unfoldable pub prev_block_hash : List (Option Block) → Result Bytes
prev_block_hash chain = elim (last? chain) [
  | none ↦ ok (make_bytes hash_num_bytes)
  | some p ↦ or_panic p nil_dereference >>= λ b.
      copy_slice 0 hash_num_bytes b.block_hash (make_bytes hash_num_bytes)
]

-- The last loop: each mined transaction has succeeded, and is applied to the database.
unfoldable pub apply_mined :
    Scrypt → List TxNode → Dict Bytes TxNode → UtxoDb → Result (Dict Bytes TxNode × UtxoDb)
apply_mined s [] m db = ok (m, db)
apply_mined s (t ∷ ts) m db = or_panic (lookup t.hash m) nil_dereference >>= λ entry.
    update_utxo_db s t.tx db >>= apply_mined s ts (insert t.hash (with_status success entry) m)

-- `decoded` is the node's address as base64 decodes it, `now` the clock's reading.
unfoldable pub mine_block : Setting → Ecdsa → Bytes → ℕ → DrNode → Result DrNode
unfolding collect prev_block_hash apply_mined
mine_block g c decoded now n = do
  batch ←
      collect g c n n.pending_txs (record { pending_txs = n.pending_txs; txs = []; tx_nodes = [] })
  let n1 = record n { pending_txs = batch.pending_txs }
  prev ← prev_block_hash n.blockchain
  b ← generate_block g prev batch.txs decoded now
  on_main ← extends b.prev_block n.blockchain
  if on_main
      then (apply_mined g.scrypt batch.tx_nodes batch.pending_txs n.utxo >>= λ (m, db).
          or_panic (last? b.transactions) index_out_of_range >>= λ reward.
          update_utxo_db g.scrypt reward db >>= λ db'. ok (record n1 {
            blockchain = n.blockchain ++ some b ∷ [];
            log = n.log ++ b ∷ [];
            pending_txs = m;
            utxo = db';
            num_pending = sub_ℕ n.num_pending (length batch.tx_nodes);
          }))
      else ok n1

-- `threshold` is the variable BLOCK_SIZE_THRESHOLD.
unfoldable pub mine_round : Setting → Ecdsa → ℕ → Bytes → ℕ → DrNode → Result DrNode
unfolding mine_block
mine_round g c threshold decoded now n =
    if at_least n.num_pending threshold then mine_block g c decoded now n else ok n
