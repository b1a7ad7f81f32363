-- ===== src/Tests/StartTests.antt =====
-- The start of a node, its peers and the requests to it.
use dreddit.Base.{
  ℕ, ◌+◌, ◌-◌, arith, ap, map, replicate, Option, All, length, ◌≡◌, ◌≢◌, ◌⊎◌, refl, Bool, true, not,
  ◌&&◌, ◌||◌, List, [], ◌∷◌, none, some, Bytes, bytes_equal, ok,
}
use dreddit.Slice.{make_bytes, copy_slice, slice, fit, length-fit}
use dreddit.Hash.{hash, pk_hash}
use dreddit.Tests.Toy.{toy_scrypt, toy_setting, toy_ecdsa, fair}
use dreddit.Tx.Wire.{tx_hash, tx_out_pack, pack_int, validate_components}
use dreddit.Utxo.Spend.{holdings}
use dreddit.Merkle.Defs.{build_merkle_tree_store}
use dreddit.Block.Types.{Block}
use dreddit.Block.Defs.{validate_block, proof_of_work}
use dreddit.Block.Genesis.{genesis_block, genesis_tx, genesis_addresses}
use dreddit.Node.State.{DrNode}
use dreddit.Node.Accepts.{anyone}
use dreddit.Node.Requests.{append_tx, is_among}
use dreddit.Node.Peers.{merge, gossip, hear_reply}
use dreddit.Node.Run.Step.{here, next, gossiped, heard}
use dreddit.Node.Run.Sound.{IsSound}
use dreddit.Node.Run.Always.{Reach-IsSound}
use dreddit.Node.Start.{bootstrap, new_node}
use dreddit.Node.Pending.{Started, append_tx-Started}
use dreddit.Node.PeerList.{IsPeerList, merge-IsPeerList}
use dreddit.Keys.Defs.{main_output}
use dreddit.Keys.Read.{IsPlainEncoding, new_key}
use dreddit.Clerk.Defs.{Clerk}
use dreddit.Client.Defs.{Client}
use dreddit.Client.SetUp.{Outside, port_10000, client_main, IsOpen, client_main-IsOpen}
use dreddit.Tests.ClerkTests.{alice_key}
use dreddit.Node.Bootstrap.{bootstrap-supply, genesis_block-refused}

abbrev toy_decode : Bytes → Bytes
toy_decode a = fit 20 a

abbrev toy_genesis : Block
unfolding genesis_tx
toy_genesis = record {
  prev_block = make_bytes 32;
  merkle_root = fit 32 (234 ∷ []);
  timestamp = 1494688622;
  nonce = 39;
  bits = 1;
  block_hash = make_bytes 32;
  transactions = genesis_tx toy_decode ∷ [];
}

toy_genesis_made : genesis_block toy_setting toy_decode ≡ ok toy_genesis
unfolding genesis_block build_merkle_tree_store tx_hash tx_out_pack copy_slice pack_int hash slice
    toy_genesis proof_of_work
toy_genesis_made = refl

abbrev fresh_node : DrNode
fresh_node = new_node 1 (56 ∷ []) []

genesis_sizes : (addresses : List Bytes) → All (λ a. length (toy_decode a) ≡ 20) addresses
genesis_sizes [] = tt
genesis_sizes (a ∷ addresses) = (length-fit 20 a, genesis_sizes addresses)

bootstrap-supply_example :
    (n' : DrNode) × (bootstrap toy_setting toy_decode fresh_node ≡ ok n')
    × (n'.blockchain ≡ some toy_genesis ∷ [])
    × (n'.log ≡ toy_genesis ∷ [])
    × (holdings anyone n'.utxo ≡ 1000)
bootstrap-supply_example =
    bootstrap-supply toy_setting toy_decode toy_genesis fresh_node toy_genesis_made
      (genesis_sizes genesis_addresses)

genesis_block-refused_example : validate_block toy_setting toy_genesis ≢ ok tt
genesis_block-refused_example =
    genesis_block-refused toy_setting toy_decode toy_genesis toy_genesis_made

fair_validated : validate_components fair ≡ ok tt
unfolding validate_components
fair_validated = refl

append_tx-Started_example :
    (h : Bytes) × (tx_hash toy_scrypt fair ≡ ok h)
    × (((is_among h fresh_node.seen_txs ≡ true)
          × (append_tx toy_scrypt fair 3 fresh_node ≡ ok (fresh_node, none)))
        ⊎ ((n' : DrNode) × (append_tx toy_scrypt fair 3 fresh_node ≡ ok (n', some h))
            × Started toy_scrypt fair 3 fresh_node n' h))
append_tx-Started_example = append_tx-Started toy_scrypt fair 3 fresh_node fair_validated

fresh_node-IsPeerList : IsPeerList fresh_node
unfolding is_among
fresh_node-IsPeerList = record { distinct = tt; stranger = refl; parallel = refl }

abbrev new_ports : List Bytes
new_ports = (56 ∷ []) ∷ (57 ∷ []) ∷ (57 ∷ []) ∷ []

abbrev dials : Bytes → Bool
dials port = true

merge-IsPeerList_example :
    IsPeerList (merge dials new_ports fresh_node)
    × ((merge dials new_ports fresh_node).port ≡ fresh_node.port)
    × ((q : Bytes)
        → is_among q (merge dials new_ports fresh_node).ports ≡ (
            is_among q fresh_node.ports
            || (is_among q new_ports && (dials q && not (bytes_equal q fresh_node.port)))))
merge-IsPeerList_example = merge-IsPeerList dials new_ports fresh_node fresh_node-IsPeerList

started : (n : DrNode) × (bootstrap toy_setting toy_decode fresh_node ≡ ok n)
started =
    let (n, run, chain, log, worth) =
      bootstrap-supply toy_setting toy_decode toy_genesis fresh_node toy_genesis_made
        (genesis_sizes genesis_addresses) in
    (n, run)

-- A peer gossips, and then a reply comes in.
abbrev met : DrNode
met = (gossip dials (57 ∷ []) [] started.0).0

Reach-IsSound_example : IsSound (hear_reply dials (57 ∷ []) new_ports met)
Reach-IsSound_example =
    Reach-IsSound toy_setting toy_ecdsa toy_decode 1 (56 ∷ []) [] started.0
      (hear_reply dials (57 ∷ []) new_ports met) started.1
      (next (next here (gossiped dials (57 ∷ []) [] refl)) (heard dials (57 ∷ []) new_ports refl))

-- Texts that are their bytes, moved past the space.
abbrev moved : Bytes → Bytes
moved [] = []
moved (b ∷ data') = (b + 33) ∷ moved data'

abbrev back : Bytes → Bytes
back [] = []
back (b ∷ data') = (b - 33) ∷ back data'

moved-IsPlainEncoding : IsPlainEncoding moved
moved-IsPlainEncoding [] = refl
moved-IsPlainEncoding (b ∷ data') = ground (arith, moved-IsPlainEncoding data')

back-moved : (data' : Bytes) → back (moved data') ≡ data'
back-moved [] = refl
back-moved (b ∷ data') = rw (back-moved data') (ap (λ (x : ℕ). x ∷ data') (omega arith))

abbrev some_keys : List (Bytes × Bytes)
some_keys = replicate 8 (1 ∷ 2 ∷ [], 3 ∷ [])

abbrev ten_keys : List (Bytes × Bytes)
ten_keys = (1 ∷ [], 2 ∷ []) ∷ (3 ∷ [], 4 ∷ []) ∷ some_keys

abbrev small_world : Outside
small_world = record {
  setting = toy_setting;
  ecdsa = toy_ecdsa;
  decode_address = toy_decode;
  dial = dials;
  decode = λ text. some (back text);
  key_from_bytes = λ b. alice_key;
  clerk_id = 7;
  text = main_output toy_scrypt moved (map new_key ten_keys);
}

client_main-IsOpen_example :
    (n : DrNode) × (rest : Option Clerk × Client) × (client_main small_world ≡ ok (n, rest))
    × (n.blockchain ≡ some toy_genesis ∷ [])
    × (holdings anyone n.utxo ≡ 1000)
    × (n.pub_hash ≡ moved (pk_hash toy_scrypt (2 ∷ [])))
    × IsOpen small_world moved moved-IsPlainEncoding
        (λ b. ap some (back-moved b))
        (1 ∷ [], 2 ∷ [])
        (3 ∷ [], 4 ∷ [])
        some_keys
        port_10000
        rest.0
        rest.1
client_main-IsOpen_example =
    client_main-IsOpen small_world moved moved-IsPlainEncoding (λ b. ap some (back-moved b))
      (1 ∷ [], 2 ∷ []) (3 ∷ [], 4 ∷ []) some_keys toy_genesis refl (omega arith)
      (genesis_sizes genesis_addresses) toy_genesis_made refl
