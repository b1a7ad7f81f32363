-- ===== src/Node/Run/Live.antt =====
-- That AppendTx of src/node/miner.go comes to a reply: its waiting loop against a round of mine.
use dreddit.Base.{
  ℕ, ◌≡◌, ◌⊎◌, refl, sym, ap, ◌∙◌, Bool, true, false, [], some, Bytes, bytes_eq, inl, inr, Error,
  if◌then◌else◌, ok, err,
}
use dreddit.Dict.{lookup, insert}
use dreddit.Block.Defs.{Setting}
use dreddit.Block.Hashed.{generate_block-IsHashed}
use dreddit.Node.Validate.{Ecdsa, validate_transaction}
use dreddit.Node.State.{TxNode, DrNode, handled, success, invalid}
use dreddit.Node.Chain.SendBlock.{extends, with_status}
use dreddit.Node.Requests.{await_tx}
use dreddit.Node.Mine.{is_pending, mine_block}
use dreddit.Node.Round.{Round, mine_block-Round}
use dreddit.Node.Run.Links.{prev_block_hash-extends}
use dreddit.Node.Run.Fate.{has_node, apply_mined-marks, apply_mined-spares, collect-Fate}
use dreddit.Node.Run.Sound.{IsSound}

-- The next round of the waiting loop replies.
abbrev pub Replies : Bytes → DrNode → Bool → Type 0
Replies h n reply = (n' : DrNode) × (await_tx h n ≡ ok (n', some reply))

await_tx-Replies :
    (h : Bytes) (n : DrNode) (t : TxNode) (reply : Bool)
    → lookup h n.pending_txs ≡ some (with_status (if reply then success else invalid) t)
    → Replies h n reply
unfolding await_tx
await_tx-Replies h n t true found =
    (record n { pending_txs = insert h (with_status handled t) n.pending_txs }, rw found refl)
await_tx-Replies h n t false found =
    (record n { pending_txs = insert h (with_status handled t) n.pending_txs }, rw found refl)

module _ (g : Setting) (c : Ecdsa) where
  -- `true` for a transaction that the node accepts, `false` for one that it refuses.
  abbrev pub Answered : Bytes → TxNode → DrNode → DrNode → Type 0
  Answered h t n n' =
      (Replies h n' true × (validate_transaction g.scrypt c n.utxo n.blockchain t.tx ≡ ok tt))
      ⊎ (Replies h n' false
          × ((e : Error) × (validate_transaction g.scrypt c n.utxo n.blockchain t.tx ≡ err e)))

  -- A sound node's block is never late.
  extends-Round :
      (decoded : Bytes) (now : ℕ) (n n' : DrNode)
      → IsSound n
      → (r : Round g c decoded now n n') → extends r.b.prev_block n.blockchain ≡ ok true
  extends-Round decoded now n n' w r =
      ap (λ (x : Bytes). extends x n.blockchain)
        (generate_block-IsHashed g r.prev r.batch.txs decoded now r.b r.made).1
      ∙ prev_block_hash-extends n.blockchain r.prev w.linked r.at_end

  -- On a sound node (`IsSound`), a round of mining that returns decides a pending transaction:
  -- the next round of the loop that waits for it replies, with `true` if the transaction is valid
  -- on the node as it was before the round, and with `false` if it is not.
  pub mine_block-answers :
      (decoded : Bytes) (now : ℕ) (n n' : DrNode) (h : Bytes) (t : TxNode)
      → IsSound n
      → lookup h n.pending_txs ≡ some t
      → is_pending t.status ≡ true
      → mine_block g c decoded now n ≡ ok n'
      → Answered h t n n'
  unfolding has_node
  mine_block-answers decoded now n n' h t w found waiting run =
      let r = mine_block-Round g c decoded now n n' run in
      let fate =
        collect-Fate g c n h n.pending_txs
          (record { pending_txs = n.pending_txs; txs = []; tx_nodes = [] }) r.batch w.entries.once
          w.entries.keyed found waiting refl r.collected in
      elim r.outcome [
        | inl late ↦ absurd (clash (sym late.off ∙ extends-Round decoded now n n' w r))
        | inr won ↦ elim fate [
          | inl (there, valid) ↦
              let (entry, at) =
                apply_mined-marks g.scrypt h r.batch.tx_nodes r.batch.pending_txs n.utxo won.applied
                  there in
              inl (await_tx-Replies h n' entry true at, valid)
          | inr (absent, struck, refused) ↦ inr (
            await_tx-Replies h n' t false (
                apply_mined-spares g.scrypt h r.batch.tx_nodes r.batch.pending_txs n.utxo
                  won.applied absent
                ∙ struck),
            refused,
          )
        ]
      ]
    where
      clash : ok false ≡ ok true → ⊥
      clash q = cc
