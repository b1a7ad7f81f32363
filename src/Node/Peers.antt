-- ===== src/Node/Peers.antt =====
-- Gossip and merge of src/node/miner.go, and Merge of src/clerk/clerk.go. `dial` says whether
-- net/rpc reaches a port.
use dreddit.Base.{ℕ, map, length, Bool, List, [], ◌∷◌, ◌++◌, Bytes, bytes_equal, if◌then◌else◌}
use dreddit.Node.State.{DrNode}
use dreddit.Node.Requests.{is_among}

abbrev pub with_peer : Bytes → DrNode → DrNode
with_peer port n = record n { servers = n.servers ++ port ∷ []; ports = n.ports ++ port ∷ [] }

-- One round of the loop of merge.
unfoldable pub merge_one : (Bytes → Bool) → Bytes → DrNode → DrNode
unfolding is_among
merge_one dial port n =
    if bytes_equal port n.port
    then n
    else if is_among port n.ports
    then n
    else if dial port
    then with_peer port n
    else n

unfoldable pub merge : (Bytes → Bool) → List Bytes → DrNode → DrNode
unfolding merge_one
merge dial [] n = n
merge dial (port ∷ ports) n = merge dial ports (merge_one dial port n)

-- "-1", the port that a clerk gives
abbrev pub no_port : Bytes
no_port = 45 ∷ 49 ∷ []

-- The reply is the node's port and its peers as they were.
unfoldable pub gossip : (Bytes → Bool) → Bytes → List Bytes → DrNode → DrNode × (Bytes × List Bytes)
unfolding merge
gossip dial port peers n = (
  if bytes_equal port no_port then merge dial peers n else merge dial (peers ++ port ∷ []) n,
  (n.port, n.ports),
)

-- What gossipProtocol does with a reply that comes in.
unfoldable pub hear_reply : (Bytes → Bool) → Bytes → List Bytes → DrNode → DrNode
unfolding merge
hear_reply dial port peers n = merge dial (peers ++ port ∷ []) n

-- What it sends at each tick of its timer: its port and its peers, to every client.
unfoldable pub gossip_tick : DrNode → List (Bytes × (Bytes × List Bytes))
gossip_tick n = map (λ server. (server, (n.port, n.ports))) n.servers

unfoldable pub get_peer_size : DrNode → ℕ
get_peer_size n = length n.ports
