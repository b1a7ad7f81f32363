-- ===== src/Node/Run/Always.antt =====
-- What holds of a node of src/node/miner.go from its bootstrap on, whatever the order of its steps.
use mathlib.Core.Path.{subst}
use dreddit.Base.{
  ℕ, ◌≡◌, refl, sym, inl, inr, false, List, [], ◌∷◌, ◌++◌, Option, Bytes, Bool, bytes_equal,
  bytes_eq, ◌==◌, length, ok, or_panic, or_panic-eq-ok, nil_dereference, ok_injective, >>=-eq-ok,
  Bool-cases, Result-cases, Option-cases, clash_panic, clash_fuel,
}
use dreddit.Dict.{lookup}
use dreddit.Hash.{Scrypt}
use dreddit.Tx.Types.{Transaction}
use dreddit.Tx.Wire.{tx_hash, validate_components}
use dreddit.Utxo.Defs.{UtxoDb, update_utxo_db}
use dreddit.Utxo.Query.{IsUtxoDb}
use dreddit.Utxo.Maps.{update_utxo_db-IsUtxoDb}
use dreddit.Block.Types.{Block}
use dreddit.Block.Defs.{Setting}
use dreddit.Block.Genesis.{genesis_block}
use dreddit.Block.Hashed.{genesis_block-IsHashed}
use dreddit.Node.Validate.{Ecdsa}
use dreddit.Node.State.{handled, DrNode}
use dreddit.Node.Chain.SendBlock.{send_block, replay, replay_log}
use dreddit.Node.Requests.{is_among, append_tx, await_tx, verdict}
use dreddit.Node.Peers.{gossip, hear_reply, no_port, with_peer}
use dreddit.Node.Start.{Server, join_server, apply_txs, bootstrap, new_node}
use dreddit.Node.PeerList.{with_peer-IsPeerList}
use dreddit.Node.Run.Entries.{IsKeyed, insert-IsKeyed, restatus-IsKeyed}
use dreddit.Node.Run.Step.{
  Step, sent, mined, appended, awaited, gossiped, heard, joined, Reach, here, next,
}
use dreddit.Node.Run.Sound.{IsSound, merge-IsSound, send_block-IsSound, mine_round-IsSound}

-- A state with other waiting transactions.
with_entries-IsSound :
    (n : DrNode) (seen : List Bytes) (m : _) (count : _)
    → IsSound n
    → IsKeyed m
    → IsSound (record n { seen_txs = seen; pending_txs = m; num_pending = count })
with_entries-IsSound n seen m count w keyed = record {
  linked = w.linked;
  database = w.database;
  entries = keyed;
  peers = record {
    distinct = w.peers.distinct;
    stranger = w.peers.stranger;
    parallel = w.peers.parallel;
  };
  quiet = record { no_side_chains = w.quiet.no_side_chains; no_orphans = w.quiet.no_orphans };
}

append_tx-IsSound :
    (s : Scrypt) (tx : Transaction) (clerk_id : ℕ) (n : DrNode) {r : DrNode × Option Bytes}
    → append_tx s tx clerk_id n ≡ ok r
    → IsSound n
    → IsSound r.0
unfolding append_tx
append_tx-IsSound s tx clerk_id n {r} run w = elim (Result-cases (validate_components tx)) [
  | inl (u, v) ↦
      let (h, hashed, h1) = >>=-eq-ok (tx_hash s tx) _ (rw (v, append_tx) at run) in
      elim (Bool-cases (is_among h n.seen_txs)) [
        | inl old ↦ keep (rw old at h1) w
        | inr new ↦
            keep (rw new at h1)
              (with_entries-IsSound n _ _ _ w (insert-IsKeyed h _ n.pending_txs refl w.entries))
      ]
  | inr (inl (x, v)) ↦ keep (rw (v, append_tx) at run) w
  | inr (inr (inl (p, v))) ↦ absurd (clash_panic p (rw (v, append_tx) at run))
  | inr (inr (inr v)) ↦ absurd (clash_fuel (rw (v, append_tx) at run))
]
  where
    keep : {x : DrNode × Option Bytes} → ok x ≡ ok r → IsSound x.0 → IsSound r.0
    keep e = subst (λ (x : DrNode × Option Bytes). IsSound x.0) (ok_injective e)

await_tx-IsSound :
    (h : Bytes) (n : DrNode) {r : DrNode × Option Bool}
    → await_tx h n ≡ ok r
    → IsSound n
    → IsSound r.0
unfolding await_tx
await_tx-IsSound h n {r} run w =
    let (t, found, h1) = >>=-eq-ok (or_panic (lookup h n.pending_txs) nil_dereference) _ run in
    elim (Option-cases (verdict t.status)) [
      | inl waiting ↦ keep (rw waiting at h1) w
      | inr (reply, settled) ↦ keep (rw settled at h1) (
          with_entries-IsSound n n.seen_txs _ n.num_pending w (
            restatus-IsKeyed h handled n.pending_txs (or_panic-eq-ok _ nil_dereference found)
              w.entries))
    ]
  where
    keep : {x : DrNode × Option Bool} → ok x ≡ ok r → IsSound x.0 → IsSound r.0
    keep e = subst (λ (x : DrNode × Option Bool). IsSound x.0) (ok_injective e)

gossip-IsSound :
    (dial : Bytes → Bool) (port : Bytes) (peers : List Bytes) (n : DrNode)
    → IsSound n
    → IsSound (gossip dial port peers n).0
unfolding gossip
gossip-IsSound dial port peers n w = elim (Bool-cases (bytes_equal port no_port)) [
  | inl clerk ↦ rw (clerk, gossip) (merge-IsSound dial peers n w)
  | inr node ↦ rw (node, gossip) (merge-IsSound dial (peers ++ port ∷ []) n w)
]

module _ (g : Setting) (c : Ecdsa) where
  replay-IsSound :
      (bs : List Block) (n n' : DrNode) → replay g c bs n ≡ ok n' → IsSound n → IsSound n'
  unfolding replay
  replay-IsSound [] n n' run w = subst IsSound (ok_injective run) w
  replay-IsSound (b ∷ bs) n n' run w =
      let ((m, e), one, more) = >>=-eq-ok (send_block g c n b) _ run in
      replay-IsSound bs m n' more (send_block-IsSound g c n m b e one w)

  joined_state-IsSound :
      (server : Server) (n : DrNode)
      → bytes_equal server.port n.port ≡ false
      → is_among server.port n.ports ≡ false
      → (log : List Block) → IsSound n
      → IsSound (record (with_peer server.port n) { log = log })
  joined_state-IsSound server n other new log w =
      let p = with_peer-IsPeerList server.port n w.peers other new in
      record {
        linked = w.linked;
        database = w.database;
        entries = w.entries;
        peers = record { distinct = p.distinct; stranger = p.stranger; parallel = p.parallel };
        quiet = record { no_side_chains = w.quiet.no_side_chains; no_orphans = w.quiet.no_orphans };
      }

  join_server-IsSound :
      (server : Server) (n n' : DrNode)
      → bytes_equal server.port n.port ≡ false
      → is_among server.port n.ports ≡ false
      → join_server g c n server ≡ ok n'
      → IsSound n
      → IsSound n'
  unfolding join_server replay_log
  join_server-IsSound server n n' other new run w = elim (Option-cases server.dialled) [
    | inl away ↦ subst IsSound (ok_injective (rw (away, join_server) at run)) w
    | inr (reply, there) ↦ elim (Option-cases reply) [
      | inl failed ↦
          subst IsSound (ok_injective (rw failed at (rw (there, join_server) at run)))
            (joined_state-IsSound server n other new n.log w)
      | inr (log, replied) ↦ elim (Bool-cases (length n.blockchain == 1)) [
        | inl alone ↦
            replay-IsSound log _ n' (rw alone at (rw replied at (rw (there, join_server) at run)))
              (joined_state-IsSound server n other new log w)
        | inr grown ↦
            subst IsSound
              (ok_injective (rw grown at (rw replied at (rw (there, join_server) at run))))
              (joined_state-IsSound server n other new n.log w)
      ]
    ]
  ]

  Step-IsSound : {n n' : DrNode} → Step g c n n' → IsSound n → IsSound n'
  unfolding hear_reply
  Step-IsSound {n} {n'} (sent b e run) w = send_block-IsSound g c n n' b e run w
  Step-IsSound {n} {n'} (mined threshold decoded now run) w =
      mine_round-IsSound g c threshold decoded now n n' run w
  Step-IsSound {n} {n'} (appended tx clerk_id h run) w =
      append_tx-IsSound g.scrypt tx clerk_id n run w
  Step-IsSound {n} {n'} (awaited h reply run) w = await_tx-IsSound h n run w
  Step-IsSound {n} {n'} (gossiped dial port peers e) w =
      subst IsSound (sym e) (gossip-IsSound dial port peers n w)
  Step-IsSound {n} {n'} (heard dial port peers e) w =
      subst IsSound (sym e) (merge-IsSound dial (peers ++ port ∷ []) n w)
  Step-IsSound {n} {n'} (joined server other new run) w =
      join_server-IsSound server n n' other new run w

  Reach-keeps : {n n' : DrNode} → Reach g c n n' → IsSound n → IsSound n'
  Reach-keeps here w = w
  Reach-keeps (next r st) w = Step-IsSound st (Reach-keeps r w)

  apply_txs-IsUtxoDb :
      (s : Scrypt) (txs : List Transaction) (db db' : UtxoDb)
      → apply_txs s txs db ≡ ok db'
      → IsUtxoDb db
      → IsUtxoDb db'
  unfolding apply_txs
  apply_txs-IsUtxoDb s [] db db' run w = subst IsUtxoDb (ok_injective run) w
  apply_txs-IsUtxoDb s (tx ∷ txs) db db' run w =
      let (db1, one, more) = >>=-eq-ok (update_utxo_db s tx db) _ run in
      apply_txs-IsUtxoDb s txs db1 db' more (update_utxo_db-IsUtxoDb s tx db db1 w one)

  bootstrap-IsSound :
      (decode : Bytes → Bytes) (me : ℕ) (port pub_hash : Bytes) (n : DrNode)
      → bootstrap g decode (new_node me port pub_hash) ≡ ok n
      → IsSound n
  unfolding bootstrap is_among
  bootstrap-IsSound decode me port pub_hash n run =
      let (b, made, h1) = >>=-eq-ok (genesis_block g decode) _ run in
      let (db, applied, h2) = >>=-eq-ok (apply_txs g.scrypt b.transactions []) _ h1 in
      subst IsSound (ok_injective h2) (record {
        linked = genesis_block-IsHashed g decode b made;
        database =
            apply_txs-IsUtxoDb g.scrypt b.transactions [] db applied
              (record { entries = tt; outputs = tt });
        entries = record { once = tt; keyed = tt };
        peers = record { distinct = tt; stranger = refl; parallel = refl };
        quiet = record { no_side_chains = refl; no_orphans = refl };
      })

  -- In every state that a node reaches from its bootstrap, by any steps in any order (where a
  -- server that it joins is neither itself nor known to it), no block of its chain is nil, each
  -- has a hash of 32 bytes and names the one before it, the maps of its database and its pending
  -- map hold a key once, pending entries stand under their hashes, its peers are without
  -- repetition, not itself and parallel to its clients, and it has no side chains and no orphans.
  pub Reach-IsSound :
      (decode : Bytes → Bytes) (me : ℕ) (port pub_hash : Bytes) (n n' : DrNode)
      → bootstrap g decode (new_node me port pub_hash) ≡ ok n
      → Reach g c n n'
      → IsSound n'
  Reach-IsSound decode me port pub_hash n n' started r =
      Reach-keeps r (bootstrap-IsSound decode me port pub_hash n started)
