-- ===== src/Node/Chain/Growth.antt =====
-- How the main chain grows: SendBlock on a node without side chains and orphans.
use dreddit.Base.{
  clash_panic, clash_fuel, ◌-◌, ◌≡◌, refl, sym, ap, ◌∙◌, ◌⊎◌, inl, inr, Bool, true, false, List, [],
  ◌∷◌, ◌++◌, Option, none, some, length, Error, ok, ◌>>=◌, ok_injective, >>=-eq-ok, Result-cases,
  if◌then◌else◌, sub_ℕ,
}
use mathlib.Core.Path.{subst}
use mathlib.Core.List.{append_assoc, append-nil}
use dreddit.Block.Types.{Block}
use dreddit.Block.Defs.{Setting, validate_block}
use dreddit.Node.Validate.{Ecdsa, validate_block_txs}
use dreddit.Node.State.{Heap, DrNode}
use dreddit.Node.Chain.SendBlock.{
  extends, extend_main, join_side, send_block, replay, replay_log, settle_txs,
}
use dreddit.Node.Chain.MainChain.{HasNoSide, join_side-OnlyHeap}

-- What no block changes: the node's own address, its peers and the transactions it has seen.
pub record Kept (n n' : DrNode) : Type 0 where
  pub port : n'.port ≡ n.port
  pub ports : n'.ports ≡ n.ports
  pub servers : n'.servers ≡ n.servers
  pub seen : n'.seen_txs ≡ n.seen_txs

-- What a handled block did: it joined the main chain, or it left everything but the log and
-- unreachable nodes of the heap as it was.
pub record Joined (g : Setting) (c : Ecdsa) (n : DrNode) (b : Block) (n' : DrNode) : Type 0 where
  pub chain : n'.blockchain ≡ n.blockchain ++ some b ∷ []
  pub at_end : extends b.prev_block n.blockchain ≡ ok true
  pub valid : validate_block g b ≡ ok tt
  pub valid_txs : validate_block_txs g.scrypt c n.utxo n.blockchain b ≡ ok tt
  pub settled :
      settle_txs g.scrypt b.transactions n.pending_txs n.utxo ≡ ok (n'.pending_txs, n'.utxo)
  pub count : n'.num_pending ≡ sub_ℕ n.num_pending (length b.transactions - 1)
  pub kept : Kept n n'

pub record Ignored (n n' : DrNode) : Type 0 where
  pub chain : n'.blockchain ≡ n.blockchain
  pub utxo : n'.utxo ≡ n.utxo
  pub pending : n'.pending_txs ≡ n.pending_txs
  pub count : n'.num_pending ≡ n.num_pending
  pub kept : Kept n n'

module _ (g : Setting) (c : Ecdsa) where
  abbrev pub Outcome : DrNode → Block → DrNode → Option Error → Type 0
  Outcome n b n' e =
      HasNoSide n' × (n'.log ≡ n.log) × ((Joined g c n b n' × (e ≡ none)) ⊎ Ignored n n')

  extend_main-Outcome :
      (n : DrNode) (b : Block) (n' : DrNode) (e : Option Error)
      → HasNoSide n
      → extends b.prev_block n.blockchain ≡ ok true
      → validate_block g b ≡ ok tt
      → extend_main g c n b ≡ ok (n', e)
      → Outcome n b n' e
  unfolding extend_main
  extend_main-Outcome n b n' e quiet at_end valid h =
      elim (Result-cases (validate_block_txs g.scrypt c n.utxo n.blockchain b)) [
        | inl (u, v) ↦
            let (r, settled, h1) =
              >>=-eq-ok (settle_txs g.scrypt b.transactions n.pending_txs n.utxo) _
                (rw (v, extend_main) at h) in
            subst (λ (x : DrNode × Option Error). Outcome n b x.0 x.1) (ok_injective h1)
              (
                record { no_side_chains = quiet.no_side_chains; no_orphans = quiet.no_orphans },
                refl,
                inl (
                  record {
                    chain = refl;
                    at_end = at_end;
                    valid = valid;
                    valid_txs = v;
                    settled = settled;
                    count = refl;
                    kept = record { port = refl; ports = refl; servers = refl; seen = refl };
                  },
                  refl,
                ),
              )
        | inr (inl (x, v)) ↦
            subst (λ (x : DrNode × Option Error). Outcome n b x.0 x.1)
              (ok_injective (rw (v, extend_main) at h))
              (
                quiet,
                refl,
                inr (record {
                  chain = refl;
                  utxo = refl;
                  pending = refl;
                  count = refl;
                  kept = record { port = refl; ports = refl; servers = refl; seen = refl };
                }),
              )
        | inr (inr (inl (p, v))) ↦ absurd (clash_panic p (rw (v, extend_main) at h))
        | inr (inr (inr v)) ↦ absurd (clash_fuel (rw (v, extend_main) at h))
      ]

  -- If `SendBlock` returns on a node without side chains and orphans, then the node has none
  -- afterwards either, and its log is longer by the block. Either there is no error, the block is
  -- valid, names the last block as its predecessor (or the chain was empty) and is the new last
  -- block, its transactions have been settled in the database and the pending map, and the count
  -- of pending transactions is down by all but one of them; or chain, database, pending map and
  -- count are as before. In both cases port, peers and seen transactions are as before.
  pub send_block-Outcome :
      (n : DrNode) (b : Block) (n' : DrNode) (e : Option Error)
      → HasNoSide n
      → send_block g c n b ≡ ok (n', e)
      → HasNoSide n'
        × (n'.log ≡ n.log ++ b ∷ [])
        × ((Joined g c n b n' × (e ≡ none)) ⊎ Ignored n n')
  unfolding send_block
  send_block-Outcome n b n' e quiet h = elim (Result-cases (validate_block g b)) [
    | inl (u, v) ↦
        let (on_main, at_end, h1) =
          >>=-eq-ok (extends b.prev_block n.blockchain) _ (rw (v, send_block) at h) in
        by_place u v on_main at_end h1
    | inr (inl (x, v)) ↦
        subst (λ (x : DrNode × Option Error). Logged x.0 x.1)
          (ok_injective (rw (v, send_block) at h))
          (
            record { no_side_chains = quiet.no_side_chains; no_orphans = quiet.no_orphans },
            refl,
            inr (record {
              chain = refl;
              utxo = refl;
              pending = refl;
              count = refl;
              kept = record { port = refl; ports = refl; servers = refl; seen = refl };
            }),
          )
    | inr (inr (inl (p, v))) ↦ absurd (clash_panic p (rw (v, send_block) at h))
    | inr (inr (inr v)) ↦ absurd (clash_fuel (rw (v, send_block) at h))
  ]
    where
      Logged : DrNode → Option Error → Type 0
      Logged n' e =
          HasNoSide n'
          × (n'.log ≡ n.log ++ b ∷ [])
          × ((Joined g c n b n' × (e ≡ none)) ⊎ Ignored n n')

      logged : DrNode
      logged = record n { log = n.log ++ b ∷ [] }

      logged-HasNoSide : HasNoSide logged
      logged-HasNoSide = record {
        no_side_chains = quiet.no_side_chains;
        no_orphans = quiet.no_orphans;
      }

      from_logged : (n' : DrNode) (e : Option Error) → Outcome logged b n' e → Logged n' e
      from_logged n' e (q, l, inl (j, f)) = (
        q,
        l,
        inl (
          record {
            chain = j.chain;
            at_end = j.at_end;
            valid = j.valid;
            valid_txs = j.valid_txs;
            settled = j.settled;
            count = j.count;
            kept = record {
              port = j.kept.port;
              ports = j.kept.ports;
              servers = j.kept.servers;
              seen = j.kept.seen;
            };
          },
          f,
        ),
      )
      from_logged n' e (q, l, inr i) = (
        q,
        l,
        inr (record {
          chain = i.chain;
          utxo = i.utxo;
          pending = i.pending;
          count = i.count;
          kept = record {
            port = i.kept.port;
            ports = i.kept.ports;
            servers = i.kept.servers;
            seen = i.kept.seen;
          };
        }),
      )

      aside : (heap : Heap) → Logged (record logged { heap = heap }) none
      aside heap = (
        record { no_side_chains = quiet.no_side_chains; no_orphans = quiet.no_orphans },
        refl,
        inr (record {
          chain = refl;
          utxo = refl;
          pending = refl;
          count = refl;
          kept = record { port = refl; ports = refl; servers = refl; seen = refl };
        }),
      )

      by_place :
          (u : Unit {0})
          → validate_block g b ≡ ok u
          → (on_main : Bool) → extends b.prev_block n.blockchain ≡ ok on_main
          → (if on_main
              then extend_main g c logged b
              else (join_side logged b >>= λ m. ok (m, none)))
            ≡ ok (n', e)
          → Logged n' e
      by_place u v true at_end h1 =
          from_logged n' e (extend_main-Outcome logged b n' e logged-HasNoSide at_end v h1)
      by_place u v false at_end h1 =
          let (m, joined, h2) = >>=-eq-ok (join_side logged b) _ h1 in
          let (heap, only) = join_side-OnlyHeap logged b m logged-HasNoSide at_end joined in
          subst (λ (x : DrNode × Option Error). Logged x.0 x.1) (ok_injective h2)
            (subst (λ (x : DrNode). Logged x none) (sym only) (aside heap))

  replay-log :
      (bs : List Block) (n n' : DrNode)
      → HasNoSide n
      → replay g c bs n ≡ ok n'
      → HasNoSide n' × (n'.log ≡ n.log ++ bs)
  unfolding replay
  replay-log [] n n' quiet h =
      let same = ok_injective h in
      (subst HasNoSide same quiet, ap (λ (m : DrNode). m.log) (sym same) ∙ sym (append-nil n.log))
  replay-log (b ∷ bs) n n' quiet h =
      let ((m, e), sent, h1) = >>=-eq-ok (send_block g c n b) _ h in
      let (quiet1, log1, step) = send_block-Outcome n b m e quiet sent in
      let (quiet2, log2) = replay-log bs m n' quiet1 h1 in
      (quiet2, log2 ∙ ap (λ (l : List Block). l ++ bs) log1 ∙ append_assoc n.log (b ∷ []) bs)

  -- When `replayLog` returns on a node without side chains and orphans, the node's log is the log
  -- that was replayed, twice over.
  pub replay_log-doubles :
      (n n' : DrNode) → HasNoSide n → replay_log g c n ≡ ok n' → n'.log ≡ n.log ++ n.log
  unfolding replay_log
  replay_log-doubles n n' quiet h = (replay-log n.log n n' quiet h).1
