-- ===== src/Node/Collect.antt =====
-- The first loop of `mine` in src/node/miner.go, one entry of the pending map at a time.
use dreddit.Base.{
  ◌≡◌, ◌⊎◌, inl, inr, sym, true, false, [], ◌∷◌, ◌++◌, Error, Bytes, bytes_eq, Bool-cases,
  Result-cases, clash_panic, clash_fuel, ok, err, ok_injective,
}
use dreddit.Dict.{insert}
use dreddit.Block.Defs.{Setting}
use dreddit.Node.Validate.{Ecdsa, validate_transaction}
use dreddit.Node.State.{TxNode, invalid, DrNode}
use dreddit.Node.Chain.SendBlock.{with_status}
use dreddit.Node.Mine.{Batch, is_pending, collect_one}

module _ (g : Setting) (c : Ecdsa) (n : DrNode) (h : Bytes) (t : TxNode)
    (batch batch' : Batch) where
  -- The entry is not pending.
  pub record Skipped : Type 0 where
    pub settled : is_pending t.status ≡ false
    pub same : batch' ≡ batch

  -- It is valid and joins the batch.
  pub record Taken : Type 0 where
    pub waiting : is_pending t.status ≡ true
    pub valid : validate_transaction g.scrypt c n.utxo n.blockchain t.tx ≡ ok tt
    pub grown :
        batch' ≡ record batch { txs = batch.txs ++ t.tx ∷ []; tx_nodes = batch.tx_nodes ++ t ∷ [] }

  -- It is not valid and is marked so.
  pub record Marked : Type 0 where
    pub waiting : is_pending t.status ≡ true
    pub refused : (e : Error) × (validate_transaction g.scrypt c n.utxo n.blockchain t.tx ≡ err e)
    pub struck :
        batch' ≡ record batch { pending_txs = insert h (with_status invalid t) batch.pending_txs }

  pub collect_one-cases : collect_one g c n h t batch ≡ ok batch' → Skipped ⊎ (Taken ⊎ Marked)
  unfolding collect_one
  collect_one-cases run = elim (Bool-cases (is_pending t.status)) [
    | inr settled ↦
        inl (record {
          settled = settled;
          same = sym (ok_injective (rw (settled, collect_one) at run));
        })
    | inl waiting ↦ elim (Result-cases (validate_transaction g.scrypt c n.utxo n.blockchain t.tx)) [
      | inl (u, v) ↦ inr (
          inl (record {
            waiting = waiting;
            valid = v;
            grown = sym (ok_injective (rw (waiting, v, collect_one) at run));
          }))
      | inr (inl (x, v)) ↦ inr (
          inr (record {
            waiting = waiting;
            refused = (x, v);
            struck = sym (ok_injective (rw (waiting, v, collect_one) at run));
          }))
      | inr (inr (inl (p, v))) ↦ absurd (clash_panic p (rw (waiting, v, collect_one) at run))
      | inr (inr (inr v)) ↦ absurd (clash_fuel (rw (waiting, v, collect_one) at run))
    ]
  ]
