-- ===== src/Clerk/Make.antt =====
-- MakeClerk of src/clerk/clerk.go. The random identity, base64's decoding of the key and btcec's PrivKeyFromBytes are arguments, and
-- `dial` says whether net/rpc reaches a port. The goroutine of GossipProtocol is left out.
use dreddit.Base.{ℕ, Bool, List, [], ◌∷◌, ◌++◌, Option, none, some, Bytes, if◌then◌else◌}
use dreddit.Clerk.Defs.{PrivateKey, Clerk}

abbrev pub with_server : Bytes → Clerk → Clerk
with_server port ck = record ck { servers = ck.servers ++ port ∷ []; ports = ck.ports ++ port ∷ [] }

-- The loop over the servers.
unfoldable pub dial_servers : (Bytes → Bool) → List Bytes → Clerk → Clerk
dial_servers dial [] ck = ck
dial_servers dial (port ∷ ports) ck =
    dial_servers dial ports (if dial port then with_server port ck else ck)

-- `none` is the nil of a key that base64 does not decode.
unfoldable pub make_clerk :
    (Bytes → Bool)
    → (Bytes → Option Bytes)
    → (Bytes → PrivateKey)
    → ℕ
    → Bytes
    → Bytes
    → List Bytes
    → Option Clerk
unfolding dial_servers
make_clerk dial decode key_from_bytes id port priv_key servers = elim (decode priv_key) [
  | none ↦ none
  | some pk_bytes ↦ some (
      dial_servers dial servers (record {
        port = port;
        ports = [];
        servers = [];
        clerk_id = id;
        current = 0;
        priv_key = key_from_bytes pk_bytes;
      }))
]
