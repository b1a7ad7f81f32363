-- ===== src/Node/Start.antt =====
-- `bootstrap` and the joining of a network in StartDRNode, of src/node/miner.go. The listener and
-- the goroutines are left out.
use dreddit.Base.{
  List, [], ◌∷◌, ◌++◌, Option, none, some, Bytes, ℕ, pos, ◌==◌, if◌then◌else◌, length, Result, ok,
  ◌>>=◌,
}
use dreddit.Hash.{Scrypt}
use dreddit.Tx.Types.{Transaction}
use dreddit.Utxo.Defs.{UtxoDb, update_utxo_db}
use dreddit.Block.Types.{Block}
use dreddit.Block.Defs.{Setting}
use dreddit.Block.Genesis.{genesis_block}
use dreddit.Node.Validate.{Ecdsa}
use dreddit.Node.State.{DrNode}
use dreddit.Node.Chain.SendBlock.{replay_log}

-- The loop over the transactions of the genesis block.
unfoldable pub apply_txs : Scrypt → List Transaction → UtxoDb → Result UtxoDb
apply_txs s [] db = ok db
apply_txs s (tx ∷ txs) db = update_utxo_db s tx db >>= apply_txs s txs

unfoldable pub bootstrap : Setting → (Bytes → Bytes) → DrNode → Result DrNode
unfolding apply_txs
bootstrap g decode n = do
  b ← genesis_block g decode
  db ← apply_txs g.scrypt b.transactions []
  ok (record n { blockchain = some b ∷ []; log = b ∷ []; utxo = db })

-- A server that a new node is given: its port, whether it can be dialled, and the log that it then
-- replies to GetBlockLog (`none` for an error).
pub record Server : Type 0 where
  pub port : Bytes
  pub dialled : Option (Option (List Block))

-- One round of the loop over the servers.
unfoldable pub join_server : Setting → Ecdsa → DrNode → Server → Result DrNode
join_server g c n server = elim server.dialled [
  | none ↦ ok n
  | some reply ↦
      let n' = record n {
        servers = n.servers ++ server.port ∷ [];
        ports = n.ports ++ server.port ∷ [];
      } in
      elim reply [
        | none ↦ ok n'
        | some log ↦
            if length n.blockchain == 1 then replay_log g c (record n' { log = log }) else ok n'
      ]
]

unfoldable pub join_servers : Setting → Ecdsa → List Server → DrNode → Result DrNode
unfolding join_server
join_servers g c [] n = ok n
join_servers g c (server ∷ servers) n = join_server g c n server >>= join_servers g c servers

abbrev pub new_node : ℕ → Bytes → Bytes → DrNode
new_node me port pub_hash = record {
  me = me;
  pub_hash = pub_hash;
  num_pending = pos 0;
  pending_txs = [];
  seen_txs = [];
  blockchain = [];
  heap = [];
  side_chains = [];
  orphan_chains = [];
  log = [];
  utxo = [];
  port = port;
  ports = [];
  servers = [];
}

unfoldable pub start_node :
    Setting → Ecdsa → (Bytes → Bytes) → ℕ → Bytes → Bytes → List Server → Result DrNode
unfolding bootstrap join_servers
start_node g c decode me port pub_hash servers =
    bootstrap g decode (new_node me port pub_hash) >>= join_servers g c servers
