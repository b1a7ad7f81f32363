-- ===== src/Node/State.antt =====
-- The state of src/node/miner.go: DRNode, TxNode and SideChain.
-- Locks, channels, the listener and the clients of net/rpc are left out; `servers` counts clients.
use dreddit.Base.{ℕ, ℤ, List, Option, Bytes}
use dreddit.Tx.Types.{Transaction}
use dreddit.Utxo.Defs.{UtxoDb}
use dreddit.Block.Types.{Block}
use dreddit.Dict.{Dict}

pub data Status : Type 0 where
  pending invalid success handled : Status

pub record TxNode : Type 0 where
  pub tx : Transaction
  pub clerk_id : ℕ
  pub status : Status
  pub hash : Bytes

-- A pointer to a side chain's block: its place in the node's `heap`.
abbrev pub Ref : Type 0
Ref = ℕ

-- `parent` is none for nil, and `parent_index` is none for -1, which marks an orphan.
pub record SideChain : Type 0 where
  pub parent : Option Ref
  pub parent_index : Option ℕ
  pub block : Block
  pub depth : ℕ
  pub children : List Ref

abbrev pub Heap : Type 0
Heap = List SideChain

-- A port is the text of its number, here its bytes.
pub record DrNode : Type 0 where
  pub me : ℕ
  pub pub_hash : Bytes
  pub num_pending : ℤ
  pub pending_txs : Dict Bytes TxNode
  pub seen_txs : List Bytes
  pub blockchain : List (Option Block)
  pub heap : Heap
  pub side_chains : List Ref
  pub orphan_chains : List Ref
  pub log : List Block
  pub utxo : UtxoDb
  pub port : Bytes
  pub ports : List Bytes
  pub servers : List Bytes
