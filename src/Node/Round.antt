-- ===== src/Node/Round.antt =====
-- A round of `mine` in src/node/miner.go that returns, taken apart.
use dreddit.Base.{
  ℕ, ◌≡◌, ◌⊎◌, inl, inr, refl, sym, true, false, [], ◌∷◌, ◌++◌, some, Bytes, last?, sub_ℕ, length,
  Bool-cases, ok, >>=-eq-ok, ok_injective, or_panic, or_panic-eq-ok, index_out_of_range,
}
use mathlib.Core.Path.{subst}
use dreddit.Tx.Types.{Transaction}
use dreddit.Utxo.Defs.{UtxoDb, update_utxo_db}
use dreddit.Block.Types.{Block}
use dreddit.Block.Defs.{Setting, generate_block}
use dreddit.Node.Validate.{Ecdsa}
use dreddit.Node.State.{DrNode}
use dreddit.Node.Chain.SendBlock.{extends}
use dreddit.Node.Mine.{Batch, collect, prev_block_hash, apply_mined, mine_block}

module _ (g : Setting) (c : Ecdsa) (decoded : Bytes) (now : ℕ) (n n' : DrNode) where
  abbrev pub empty_batch : Batch
  empty_batch = record { pending_txs = n.pending_txs; txs = []; tx_nodes = [] }

  -- The block did not extend the chain any more.
  pub record Late (batch : Batch) (b : Block) : Type 0 where
    pub off : extends b.prev_block n.blockchain ≡ ok false
    pub result : n' ≡ record n { pending_txs = batch.pending_txs }

  -- It joined the chain.
  pub record Won (batch : Batch) (b : Block) : Type 0 where
    pub on : extends b.prev_block n.blockchain ≡ ok true
    pub db : UtxoDb
    pub applied :
        apply_mined g.scrypt batch.tx_nodes batch.pending_txs n.utxo ≡ ok (n'.pending_txs, db)
    pub reward : Transaction
    pub last : last? b.transactions ≡ some reward
    pub rewarded : update_utxo_db g.scrypt reward db ≡ ok n'.utxo
    pub result : n' ≡ record n {
      blockchain = n.blockchain ++ some b ∷ [];
      log = n.log ++ b ∷ [];
      pending_txs = n'.pending_txs;
      utxo = n'.utxo;
      num_pending = sub_ℕ n.num_pending (length batch.tx_nodes);
    }

  pub record Round : Type 0 where
    pub batch : Batch
    pub collected : collect g c n n.pending_txs empty_batch ≡ ok batch
    pub prev : Bytes
    pub at_end : prev_block_hash n.blockchain ≡ ok prev
    pub b : Block
    pub made : generate_block g prev batch.txs decoded now ≡ ok b
    pub outcome : Late batch b ⊎ Won batch b

module _ (g : Setting) (c : Ecdsa) (decoded : Bytes) (now : ℕ) (n : DrNode) where
  pub mine_block-Round :
      (n' : DrNode) → mine_block g c decoded now n ≡ ok n' → Round g c decoded now n n'
  unfolding mine_block
  mine_block-Round n' run =
      let (batch, collected, h1) =
        >>=-eq-ok (collect g c n n.pending_txs (empty_batch g c decoded now n n')) _ run in
      let (prev, at_end, h2) = >>=-eq-ok (prev_block_hash n.blockchain) _ h1 in
      let (b, made, h3) = >>=-eq-ok (generate_block g prev batch.txs decoded now) _ h2 in
      let (on_main, extended, h4) = >>=-eq-ok (extends b.prev_block n.blockchain) _ h3 in
      record {
        batch = batch;
        collected = collected;
        prev = prev;
        at_end = at_end;
        b = b;
        made = made;
        outcome = elim (Bool-cases on_main) [
          | inr off ↦
              inl (record { off = rw off at extended; result = sym (ok_injective (rw off at h4)) })
          | inl on ↦
              let ((m, db), applied, h5) =
                >>=-eq-ok (apply_mined g.scrypt batch.tx_nodes batch.pending_txs n.utxo) _
                  (rw on at h4) in
              let (reward, last, h6) =
                >>=-eq-ok (or_panic (last? b.transactions) index_out_of_range) _ h5 in
              let (db', rewarded, h7) = >>=-eq-ok (update_utxo_db g.scrypt reward db) _ h6 in
              inr (
                subst (λ (x : DrNode). Won g c decoded now n x batch b) (ok_injective h7)
                  (record {
                    on = rw on at extended;
                    db = db;
                    applied = applied;
                    reward = reward;
                    last = or_panic-eq-ok _ index_out_of_range last;
                    rewarded = rewarded;
                    result = refl;
                  }))
        ];
      }
