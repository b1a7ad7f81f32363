-- ===== src/Node/Mined.antt =====
-- What a round of `mine` in src/node/miner.go adds to the chain.
use mathlib.Core.Path.{subst}
use dreddit.Base.{
  ℕ, ◌≡◌, ◌⊎◌, inl, inr, refl, true, false, [], ◌∷◌, ◌++◌, some, Bytes, All, All-append, ◌==◌, ok,
  ok_injective, >>=-eq-ok,
}
use dreddit.Dict.{Dict}
use dreddit.Tx.Types.{coinbase}
use dreddit.Block.Types.{Block}
use dreddit.Block.Defs.{Setting, validate_block}
use dreddit.Block.Mined.{HasNoCoinbase, generate_block-valid}
use dreddit.Node.Validate.{Ecdsa}
use dreddit.Node.State.{DrNode, TxNode}
use dreddit.Node.Chain.SendBlock.{extends}
use dreddit.Base.{sym}
use dreddit.Node.Round.{mine_block-Round}
use dreddit.Node.Collect.{collect_one-cases}
use dreddit.Node.Mine.{Batch, collect_one, collect, mine_block}

-- No entry of the pending map is a coinbase.
abbrev pub HasNoCoinbaseEntry : Dict Bytes TxNode → Type 0
HasNoCoinbaseEntry m = All (λ entry. (entry.1.tx.type == coinbase) ≡ false) m

module _ (g : Setting) (c : Ecdsa) where
  collect-HasNoCoinbase :
      (n : DrNode) (m : Dict Bytes TxNode) (batch batch' : Batch)
      → HasNoCoinbaseEntry m
      → HasNoCoinbase batch.txs
      → collect g c n m batch ≡ ok batch'
      → HasNoCoinbase batch'.txs
  unfolding collect
  collect-HasNoCoinbase n [] batch batch' plain before run =
      subst (λ (x : Batch). HasNoCoinbase x.txs) (ok_injective run) before
  collect-HasNoCoinbase n ((h, t) ∷ m) batch batch' plain before run =
      let (next, one, more) = >>=-eq-ok (collect_one g c n h t batch) _ run in
      collect-HasNoCoinbase n m next batch' plain.1
        (elim (collect_one-cases g c n h t batch next one) [
          | inl skipped ↦ subst (λ (x : Batch). HasNoCoinbase x.txs) (sym skipped.same) before
          | inr (inl taken) ↦
              subst (λ (x : Batch). HasNoCoinbase x.txs) (sym taken.grown)
                (All-append _ batch.txs (t.tx ∷ []) before (plain.0, tt))
          | inr (inr marked) ↦ subst (λ (x : Batch). HasNoCoinbase x.txs) (sym marked.struck) before
        ])
        more

  -- What a round that mines does to chain and log.
  abbrev pub Mined : DrNode → DrNode → Type 0
  Mined n n' =
      ((n'.blockchain ≡ n.blockchain) × (n'.log ≡ n.log))
      ⊎ ((b : Block) × (n'.blockchain ≡ n.blockchain ++ some b ∷ [])
          × (n'.log ≡ n.log ++ b ∷ [])
          × (validate_block g b ≡ ok tt)
          × (extends b.prev_block n.blockchain ≡ ok true))

  -- If no pending transaction is a coinbase and mining a block returns, then chain and log are
  -- either as before, or both longer by one block that passes `ValidateBlock` and names the last
  -- block of the chain as its predecessor (or the chain was empty).
  pub mine_block-Mined :
      (decoded : Bytes) (now : ℕ) (n n' : DrNode)
      → HasNoCoinbaseEntry n.pending_txs
      → mine_block g c decoded now n ≡ ok n'
      → Mined n n'
  mine_block-Mined decoded now n n' plain run =
      let r = mine_block-Round g c decoded now n n' run in
      let good =
        generate_block-valid g r.prev decoded now r.batch.txs r.b
          (collect-HasNoCoinbase n n.pending_txs
            (record { pending_txs = n.pending_txs; txs = []; tx_nodes = [] }) r.batch plain tt
            r.collected)
          r.made in
      elim r.outcome [
        | inl late ↦ subst (Mined n) (sym late.result) (inl (refl, refl))
        | inr won ↦ subst (Mined n) (sym won.result) (inr (r.b, refl, refl, good.0, won.on))
      ]
