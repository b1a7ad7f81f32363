-- ===== src/Node/Chain/SendBlock.antt =====
-- SendBlock and replayLog of src/node/miner.go. A handler returns the node and its `error`.
use dreddit.Base.{
  ◌+◌, ◌-◌, Bool, true, List, [], ◌∷◌, ◌++◌, Option, none, some, Bytes, bytes_equal, bytes_eq, ltb,
  ◌==◌, if◌then◌else◌, length, last?, sub_ℕ, Result, Error, ok, err, panic, out_of_fuel, ◌>>=◌,
  or_panic, nil_dereference,
}
use dreddit.Dict.{Dict, lookup, insert}
use dreddit.Hash.{Scrypt}
use dreddit.Tx.Types.{Transaction, coinbase}
use dreddit.Tx.Wire.{tx_hash}
use dreddit.Utxo.Defs.{UtxoDb, update_utxo_db}
use dreddit.Block.Types.{Block}
use dreddit.Block.Defs.{Setting, validate_block}
use dreddit.Node.Validate.{Ecdsa, validate_block_txs}
use dreddit.Node.State.{Ref, Heap, DrNode, TxNode, Status, success}
use dreddit.Node.Chain.Tree.{load, alloc}
use dreddit.Node.Chain.Place.{Placed, known, placed, new_side_chain, scan_main, scan_chains, adopt}
use dreddit.Node.Chain.Reorganise.{reorganise}

-- `len(chain) == 0 || bytes.Compare(prev, chain[len(chain)-1].BlockHash) == 0`
unfoldable pub extends : Bytes → List (Option Block) → Result Bool
extends prev chain = elim (last? chain) [
  | none ↦ ok true
  | some p ↦ or_panic p nil_dereference >>= λ b. ok (bytes_equal prev b.block_hash)
]

abbrev pub with_status : Status → TxNode → TxNode
with_status st t = record t { status = st }

-- `if val, ok := pending[h]; ok { val.Status = SUCCESS }`
unfoldable pub succeed : Bytes → Dict Bytes TxNode → Dict Bytes TxNode
succeed h m = elim (lookup h m) [ none ↦ m | some t ↦ insert h (with_status success t) m ]

-- The loop over the transactions of a block that has joined the main chain.
unfoldable pub settle_txs :
    Scrypt → List Transaction → Dict Bytes TxNode → UtxoDb → Result (Dict Bytes TxNode × UtxoDb)
unfolding succeed
settle_txs s [] m db = ok (m, db)
settle_txs s (tx ∷ txs) m db =
    (if tx.type == coinbase then ok m else (tx_hash s tx >>= λ h. ok (succeed h m))) >>= λ m'.
    update_utxo_db s tx db >>= λ db'. settle_txs s txs m' db'

-- The branch that adds to the main chain.
unfoldable pub extend_main : Setting → Ecdsa → DrNode → Block → Result (DrNode × Option Error)
unfolding settle_txs
extend_main g c n b = elim (validate_block_txs g.scrypt c n.utxo n.blockchain b) [
  | err e ↦ ok (n, some e)
  | panic p ↦ panic p
  | out_of_fuel ↦ out_of_fuel
  | ok u ↦ settle_txs g.scrypt b.transactions n.pending_txs n.utxo >>= λ (m, db). ok (
    record n {
      blockchain = n.blockchain ++ some b ∷ [];
      pending_txs = m;
      utxo = db;
      num_pending = sub_ℕ n.num_pending (length b.transactions - 1);
    },
    none,
  )
]

-- From the orphans on: `cur` is the new block's node.
unfoldable pub finish_side : DrNode → Block → Ref → Result DrNode
unfolding adopt reorganise load
finish_side n b cur =
    adopt b cur (length n.orphan_chains) 0 n.orphan_chains n.heap >>= λ (orphans, heap).
    load heap cur >>= λ sc.
    let n' = record n { orphan_chains = orphans; heap = heap } in
    elim sc.parent_index [
      | none ↦ ok n'
      | some i ↦
          if ltb (length n.blockchain) (sc.depth + i + 2)
          then reorganise n' cur sc.depth i
          else ok n'
    ]

-- A new node for a block without a parent: an orphan.
unfoldable pub or_orphan : Block → Option Ref → Heap → Ref × Heap
unfolding alloc
or_orphan b none heap = alloc (new_side_chain none none b 0) heap
or_orphan b (some r) heap = (r, heap)

-- The branch that does not add to the main chain, from the end of each scan on: after that of the
-- orphans, of the side chains, and of the main chain.
unfoldable pub after_orphans : DrNode → Block → Placed → Result DrNode
unfolding or_orphan
after_orphans n b (known heap) = ok (record n { heap = heap })
after_orphans n b (placed cur heap) =
    let (r, heap') = or_orphan b cur heap in finish_side (record n { heap = heap' }) b r

unfoldable pub after_side_chains : DrNode → Block → Placed → Result DrNode
after_side_chains n b (known heap) = ok (record n { heap = heap })
after_side_chains n b (placed cur heap) =
    scan_chains b n.orphan_chains cur heap >>= after_orphans n b

unfoldable pub after_main : DrNode → Block → Placed → Result DrNode
after_main n b (known heap) = ok (record n { heap = heap })
after_main n b (placed cur heap) = scan_chains b n.side_chains cur heap >>= after_side_chains n b

unfoldable pub join_side : DrNode → Block → Result DrNode
unfolding scan_main scan_chains finish_side after_orphans after_side_chains after_main
join_side n b = scan_main b 0 n.blockchain none n.heap >>= after_main n b

unfoldable pub send_block : Setting → Ecdsa → DrNode → Block → Result (DrNode × Option Error)
unfolding extends extend_main join_side
send_block g c n b =
    let logged = record n { log = n.log ++ b ∷ [] } in
    elim (validate_block g b) [
      | err e ↦ ok (logged, some e)
      | panic p ↦ panic p
      | out_of_fuel ↦ out_of_fuel
      | ok u ↦ extends b.prev_block n.blockchain >>= λ on_main.
          if on_main then extend_main g c logged b else (join_side logged b >>= λ n'. ok (n', none))
    ]

-- The loop of replayLog, which drops the errors. Go's range reads the log as it was at the start.
unfoldable pub replay : Setting → Ecdsa → List Block → DrNode → Result DrNode
unfolding send_block
replay g c [] n = ok n
replay g c (b ∷ bs) n = send_block g c n b >>= λ (n', e). replay g c bs n'

unfoldable pub replay_log : Setting → Ecdsa → DrNode → Result DrNode
unfolding replay
replay_log g c n = replay g c n.log n
