-- ===== src/Node/Bootstrap.antt =====
-- The first state of a node: `bootstrap` of src/node/miner.go on the genesis block of
-- src/node/block.go.
use mathlib.Core.Path.{subst}
use dreddit.Base.{
  ◌≡◌, ◌≢◌, refl, sym, ap, ◌∙◌, [], ◌∷◌, some, Bytes, length, last?, All, ok, ok_injective,
  >>=-eq-ok, arith,
}
use mathlib.Core.Option.{some-injective}
use dreddit.Dict.{lookup, sum_of}
use dreddit.Block.Valid.{IsReward, last?-end, validate_block_iff}
use dreddit.Hash.{hash}
use dreddit.Tx.Preimage.{IsWellSized, tx_bytes, tx_hash-bytes}
use dreddit.Utxo.Defs.{UtxoDb}
use dreddit.Utxo.Spend.{holdings}
use dreddit.Utxo.Conserve.{worth_all, paid, update_utxo_db-conserves}
use dreddit.Merkle.Defs.{build_merkle_tree_store}
use dreddit.Block.Types.{Block}
use dreddit.Block.Defs.{Setting, proof_of_work, validate_block}
use dreddit.Block.Genesis.{genesis_addresses, genesis_tx, genesis_block}
use dreddit.Node.State.{DrNode}
use dreddit.Node.Accepts.{anyone}
use dreddit.Node.Start.{apply_txs, bootstrap}

module _ (g : Setting) (decode : Bytes → Bytes) where
  genesis_block-transactions :
      (b : Block) → genesis_block g decode ≡ ok b → b.transactions ≡ genesis_tx decode ∷ []
  unfolding genesis_block
  genesis_block-transactions b h =
      let (root, built, h1) =
        >>=-eq-ok (build_merkle_tree_store g.log2 g.scrypt (genesis_tx decode ∷ [])) _ h in
      let (found, worked, h2) = >>=-eq-ok (proof_of_work g.scrypt g.fuel _) _ h1 in
      ap (λ (x : Block). x.transactions) (sym (ok_injective h2))

  genesis_tx-IsWellSized :
      All (λ a. length (decode a) ≡ 20) genesis_addresses → IsWellSized (genesis_tx decode)
  unfolding genesis_tx
  genesis_tx-IsWellSized sized = record { ins = tt; outs = sized }

  genesis_paid : paid anyone (genesis_tx decode).tx_outs ≡ 1000
  unfolding genesis_tx paid
  genesis_paid = refl

  genesis_applied :
      All (λ a. length (decode a) ≡ 20) genesis_addresses
      → (db : UtxoDb) × (apply_txs g.scrypt (genesis_tx decode ∷ []) [] ≡ ok db)
        × (holdings anyone db ≡ 1000)
  unfolding apply_txs genesis_tx lookup holdings sum_of worth_all
  genesis_applied sized =
      let (db, updated, moved) =
        update_utxo_db-conserves g.scrypt (genesis_tx decode) [] []
          (hash g.scrypt (tx_bytes (genesis_tx decode)))
          (tx_hash-bytes g.scrypt (genesis_tx decode) (genesis_tx-IsWellSized sized)) refl tt tt
          (omega arith) in
      (db, rw updated, omega (arith, moved anyone, genesis_paid))

  -- If the genesis block can be generated and each address decodes to 20 bytes, then `bootstrap`
  -- returns: chain and log are the genesis block alone, and the database holds a supply of 1000.
  pub bootstrap-supply :
      (b : Block) (n : DrNode)
      → genesis_block g decode ≡ ok b
      → All (λ a. length (decode a) ≡ 20) genesis_addresses
      → (n' : DrNode) × (bootstrap g decode n ≡ ok n')
        × (n'.blockchain ≡ some b ∷ [])
        × (n'.log ≡ b ∷ [])
        × (holdings anyone n'.utxo ≡ 1000)
  unfolding bootstrap
  bootstrap-supply b n made sized =
      let (db, applied, supply) = genesis_applied sized in
      (
        record n { blockchain = some b ∷ []; log = b ∷ []; utxo = db },
        rw (made, genesis_block-transactions b made, applied),
        refl,
        refl,
        supply,
      )

  genesis-not_IsReward : IsReward (genesis_tx decode) → ⊥
  unfolding genesis_tx
  genesis-not_IsReward w = let (o, one) = w.one_out in cc

  -- A genesis block that has been generated does not pass `ValidateBlock`.
  pub genesis_block-refused :
      (b : Block) → genesis_block g decode ≡ ok b → validate_block g b ≢ ok tt
  genesis_block-refused b made h =
      let (front, last, split, others, reward) = ((validate_block_iff g b).0 h).rewarded in
      genesis-not_IsReward (
        subst IsReward
          (some-injective _ _
            (sym (last?-end front last) ∙ ap last? (sym split ∙ genesis_block-transactions b made)))
          reward)
