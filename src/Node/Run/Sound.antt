-- ===== src/Node/Run/Sound.antt =====
-- The invariant of a node of src/node/miner.go, and the handlers that change its chain.
use mathlib.Core.Path.{subst}
use dreddit.Base.{
  ℕ, ◌≡◌, refl, sym, ap, ◌∙◌, inl, inr, Bool, true, false, List, [], ◌∷◌, ◌++◌, Option, Bytes,
  bytes_equal, bytes_eq, if◌then◌else◌, at_least, Error, ok, ok_injective, Bool-cases,
}
use dreddit.Utxo.Query.{IsUtxoDb}
use dreddit.Utxo.Maps.{update_utxo_db-IsUtxoDb}
use dreddit.Block.Types.{Block}
use dreddit.Block.Defs.{Setting}
use dreddit.Block.Hashed.{validate_block-IsHashed, generate_block-IsHashed}
use dreddit.Node.Validate.{Ecdsa}
use dreddit.Node.State.{DrNode}
use dreddit.Node.Chain.SendBlock.{send_block}
use dreddit.Node.Chain.MainChain.{HasNoSide}
use dreddit.Node.Chain.Growth.{Kept, send_block-Outcome}
use dreddit.Node.Mine.{mine_block, mine_round}
use dreddit.Node.Requests.{is_among}
use dreddit.Node.Peers.{merge_one, with_peer, merge}
use dreddit.Node.Round.{mine_block-Round}
use dreddit.Node.PeerList.{IsPeerList, IsDistinctPorts, merge-IsPeerList}
use dreddit.Node.Run.Links.{IsLinked, extends-IsLinked}
use dreddit.Node.Run.Entries.{IsKeyed, settle_txs-AreSound, apply_mined-AreSound, collect-IsKeyed}

-- The chain is linked, the maps hold a key once, entries stand under their hashes, the peers are a
-- list of peers, and there are no side chains.
pub record IsSound (n : DrNode) : Type 0 where
  pub linked : IsLinked n.blockchain
  pub database : IsUtxoDb n.utxo
  pub entries : IsKeyed n.pending_txs
  pub peers : IsPeerList n
  pub quiet : HasNoSide n

Kept-IsPeerList : (n n' : DrNode) → Kept n n' → IsPeerList n → IsPeerList n'
Kept-IsPeerList n n' k w = record {
  distinct = subst IsDistinctPorts (sym k.ports) w.distinct;
  stranger = rw (k.port, k.ports) w.stranger;
  parallel = k.servers ∙ w.parallel ∙ sym k.ports;
}

-- Only the peers are others.
abbrev pub OnlyPeers : DrNode → DrNode → Type 0
OnlyPeers n n' =
    (ports : List Bytes) × (servers : List Bytes) × (n'
      ≡ record n { ports = ports; servers = servers })

module _ (dial : Bytes → Bool) where
  merge_one-OnlyPeers : (port : Bytes) (n : DrNode) → OnlyPeers n (merge_one dial port n)
  unfolding merge_one
  merge_one-OnlyPeers port n = go (bytes_equal port n.port) (is_among port n.ports) (dial port)
    where
      go :
          (own old there : Bool)
          → OnlyPeers n
              (if own then n else if old then n else if there then with_peer port n else n)
      go true old there = (n.ports, n.servers, refl)
      go false true there = (n.ports, n.servers, refl)
      go false false true = (n.ports ++ port ∷ [], n.servers ++ port ∷ [], refl)
      go false false false = (n.ports, n.servers, refl)

  pub merge-OnlyPeers : (ports : List Bytes) (n : DrNode) → OnlyPeers n (merge dial ports n)
  unfolding merge
  merge-OnlyPeers [] n = (n.ports, n.servers, refl)
  merge-OnlyPeers (port ∷ ports) n =
      let (ps, ss, one) = merge_one-OnlyPeers port n in
      let (ps', ss', more) = merge-OnlyPeers ports (merge_one dial port n) in
      (ps', ss', more ∙ ap (λ (x : DrNode). record x { ports = ps'; servers = ss' }) one)

OnlyPeers-IsSound : (n n' : DrNode) → OnlyPeers n n' → IsPeerList n' → IsSound n → IsSound n'
OnlyPeers-IsSound n n' (ports, servers, e) p w = subst IsSound (sym e) (record {
  linked = w.linked;
  database = w.database;
  entries = w.entries;
  peers = repack (subst IsPeerList e p);
  quiet = record { no_side_chains = w.quiet.no_side_chains; no_orphans = w.quiet.no_orphans };
})
  where
    repack :
        IsPeerList (record n { ports = ports; servers = servers })
        → IsPeerList (record n { ports = ports; servers = servers })
    repack q = q

pub merge-IsSound :
    (dial : Bytes → Bool) (ports : List Bytes) (n : DrNode)
    → IsSound n
    → IsSound (merge dial ports n)
merge-IsSound dial ports n w =
    OnlyPeers-IsSound n (merge dial ports n) (merge-OnlyPeers dial ports n)
      (merge-IsPeerList dial ports n w.peers).0 w

module _ (g : Setting) (c : Ecdsa) where
  pub send_block-IsSound :
      (n n' : DrNode) (b : Block) (e : Option Error)
      → send_block g c n b ≡ ok (n', e)
      → IsSound n
      → IsSound n'
  send_block-IsSound n n' b e run w =
      let (quiet, logged, outcome) = send_block-Outcome g c n b n' e w.quiet run in
      elim outcome [
        | inl (j, f) ↦
            let (entries, database) =
              settle_txs-AreSound g.scrypt b.transactions n.pending_txs n.utxo
                (w.entries, w.database) j.settled in
            record {
              linked = subst IsLinked (sym j.chain) (
                  extends-IsLinked n.blockchain b w.linked (validate_block-IsHashed g b j.valid)
                    j.at_end);
              database = database;
              entries = entries;
              peers = Kept-IsPeerList n n' j.kept w.peers;
              quiet = quiet;
            }
        | inr i ↦ record {
          linked = subst IsLinked (sym i.chain) w.linked;
          database = subst IsUtxoDb (sym i.utxo) w.database;
          entries = subst IsKeyed (sym i.pending) w.entries;
          peers = Kept-IsPeerList n n' i.kept w.peers;
          quiet = quiet;
        }
      ]

  -- A state that differs from a sound one in the fields that mining changes.
  mined_state-IsSound :
      (n : DrNode) (n' : DrNode)
      → IsSound n
      → HasNoSide n'
      → Kept n n'
      → IsLinked n'.blockchain
      → IsUtxoDb n'.utxo
      → IsKeyed n'.pending_txs
      → IsSound n'
  mined_state-IsSound n n' w quiet kept linked database entries = record {
    linked = linked;
    database = database;
    entries = entries;
    peers = Kept-IsPeerList n n' kept w.peers;
    quiet = quiet;
  }

  mine_block-IsSound :
      (decoded : Bytes) (now : ℕ) (n n' : DrNode)
      → mine_block g c decoded now n ≡ ok n'
      → IsSound n
      → IsSound n'
  mine_block-IsSound decoded now n n' run w =
      let r = mine_block-Round g c decoded now n n' run in
      let keyed =
        collect-IsKeyed g c n n.pending_txs
          (record { pending_txs = n.pending_txs; txs = []; tx_nodes = [] }) r.batch w.entries.keyed
          w.entries r.collected in
      elim r.outcome [
        | inl late ↦ subst IsSound (sym late.result) (
            mined_state-IsSound n (record n { pending_txs = r.batch.pending_txs }) w
              (record { no_side_chains = w.quiet.no_side_chains; no_orphans = w.quiet.no_orphans })
              (record { port = refl; ports = refl; servers = refl; seen = refl }) w.linked
              w.database keyed)
        | inr won ↦
            let (entries, database) =
              apply_mined-AreSound g.scrypt r.batch.tx_nodes r.batch.pending_txs n.utxo
                (keyed, w.database) won.applied in
            subst IsSound (sym won.result) (
              mined_state-IsSound n _ w
                (record {
                  no_side_chains = w.quiet.no_side_chains;
                  no_orphans = w.quiet.no_orphans;
                })
                (record { port = refl; ports = refl; servers = refl; seen = refl })
                (extends-IsLinked n.blockchain r.b w.linked
                  (generate_block-IsHashed g r.prev r.batch.txs decoded now r.b r.made).0 won.on)
                (update_utxo_db-IsUtxoDb g.scrypt won.reward won.db n'.utxo database won.rewarded)
                entries)
      ]

  pub mine_round-IsSound :
      (threshold : ℕ) (decoded : Bytes) (now : ℕ) (n n' : DrNode)
      → mine_round g c threshold decoded now n ≡ ok n'
      → IsSound n
      → IsSound n'
  unfolding mine_round
  mine_round-IsSound threshold decoded now n n' run w =
      elim (Bool-cases (at_least n.num_pending threshold)) [
        | inl enough ↦ mine_block-IsSound decoded now n n' (rw (enough, mine_round) at run) w
        | inr few ↦ subst IsSound (ok_injective (rw (few, mine_round) at run)) w
      ]
