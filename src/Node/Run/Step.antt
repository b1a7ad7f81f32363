-- ===== src/Node/Run/Step.antt =====
-- The steps of a node, in any order. Each handler of src/node/miner.go holds the node's lock, so that
-- it is one step. A reply to gossip that is heard is a step too, although the channel that it comes in
-- by is never made.
use dreddit.Base.{ℕ, ◌≡◌, Bool, false, List, Option, Bytes, bytes_equal, Error, ok}
use dreddit.Tx.Types.{Transaction}
use dreddit.Block.Types.{Block}
use dreddit.Block.Defs.{Setting}
use dreddit.Node.Validate.{Ecdsa}
use dreddit.Node.State.{DrNode}
use dreddit.Node.Chain.SendBlock.{send_block}
use dreddit.Node.Mine.{mine_round}
use dreddit.Node.Requests.{is_among, append_tx, await_tx}
use dreddit.Node.Peers.{gossip, hear_reply}
use dreddit.Node.Start.{Server, join_server}

module _ (g : Setting) (c : Ecdsa) where
  -- A handler, a round of mining, a reply to its gossip, or a server that it joins.
  pub data Step (n n' : DrNode) : Type 0 where
    sent : (b : Block) (e : Option Error) → send_block g c n b ≡ ok (n', e) → Step n n'
    mined :
        (threshold : ℕ) (decoded : Bytes) (now : ℕ)
        → mine_round g c threshold decoded now n ≡ ok n'
        → Step n n'
    appended :
        (tx : Transaction) (clerk_id : ℕ) (h : Option Bytes)
        → append_tx g.scrypt tx clerk_id n ≡ ok (n', h)
        → Step n n'
    awaited : (h : Bytes) (reply : Option Bool) → await_tx h n ≡ ok (n', reply) → Step n n'
    gossiped :
        (dial : Bytes → Bool) (port : Bytes) (peers : List Bytes)
        → n' ≡ (gossip dial port peers n).0
        → Step n n'
    heard :
        (dial : Bytes → Bool) (port : Bytes) (peers : List Bytes)
        → n' ≡ hear_reply dial port peers n
        → Step n n'
    joined :
        (server : Server)
        → bytes_equal server.port n.port ≡ false
        → is_among server.port n.ports ≡ false
        → join_server g c n server ≡ ok n'
        → Step n n'

  -- Any number of steps.
  pub data Reach (n : DrNode) : DrNode → Type 0 where
    here : Reach n n
    next : {m k : DrNode} → Reach n m → Step m k → Reach n k
