-- ===== src/Tests/BadTests.antt =====
-- The transactions of a bad clerk, and the peers of a clerk.
use dreddit.Base.{
  ◌≡◌, refl, Bool, true, false, ◌&&◌, ◌||◌, List, [], ◌∷◌, ◌++◌, Option, none, some, Bytes,
  bytes_eq, ok, pos, inl,
}
use dreddit.Tests.Toy.{toy_scrypt, toy_ecdsa, toy_setting, alice, old_hash, bob_hash, small_db}
use dreddit.Tests.ChainTests.{first_block, paid_to_bob}
use dreddit.Slice.{slice, copy_slice, fit}
use dreddit.Hash.{hash}
use dreddit.Dict.{insert, lookup}
use dreddit.Tx.Types.{Transaction, TxIn, post}
use dreddit.Tx.Wire.{
  pack_int, tx_in_pack, tx_in_pack_no_sig, tx_out_pack, tx_hash, tx_hash_no_sig,
  validate_components,
}
use dreddit.Merkle.Defs.{build_merkle_tree_store}
use dreddit.Utxo.Defs.{UnspentTx, update_utxo_db, spend_all, add_outputs, add_output}
use dreddit.Block.Defs.{make_coinbase_tx, generate_block}
use dreddit.Node.Validate.{validate_transaction}
use dreddit.Node.State.{DrNode, TxNode, pending, invalid}
use dreddit.Node.Chain.SendBlock.{extends}
use dreddit.Node.Requests.{is_among}
use dreddit.Node.Mine.{mine_block, prev_block_hash}
use dreddit.Node.Run.Sound.{IsSound}
use dreddit.Node.Run.Live.{Replies}
use dreddit.Clerk.Defs.{PrivateKey, Clerk, Network, sign_tx, merge_peers, query_utxo, submit, ask}
use dreddit.Clerk.Make.{make_clerk}
use dreddit.Clerk.Peers.{make_clerk-peers}
use dreddit.Clerk.Bad.{bad_content_tx, bad_post_structure}
use dreddit.Clerk.Refused.{bad_clerk-answers}
use dreddit.Clerk.BadCalls.{IsHonest, HasReturned, bad_clerk-fails}

abbrev alice_key : PrivateKey
alice_key = record { pub_key = alice; sign = some }

abbrev alice_coin : UnspentTx
alice_coin = record { tx_hash = old_hash; tx_out_index = 0; value = 100 }

abbrev bad_post : Transaction
unfolding bad_content_tx
bad_post = bad_content_tx alice_key post none (104 ∷ []) alice_coin

abbrev signed_in : TxIn
signed_in = record {
  prev_tx_hash = old_hash;
  prev_tx_out_index = 0;
  sig = fit 32 (189 ∷ []);
  pub_key = alice;
}

abbrev signed_post : Transaction
signed_post = record {
  type = post;
  tx_ins = some (signed_in ∷ []);
  tx_outs = [];
  parent = none;
  content = some (104 ∷ []);
}

bad_signed : sign_tx toy_scrypt alice_key bad_post ≡ ok signed_post
unfolding sign_tx tx_hash_no_sig validate_components bad_post tx_in_pack_no_sig copy_slice pack_int
    hash
bad_signed = refl

abbrev bad_hash : Bytes
bad_hash = fit 32 (54 ∷ [])

bad_hashed : tx_hash toy_scrypt signed_post ≡ ok bad_hash
unfolding tx_hash tx_in_pack copy_slice pack_int hash
bad_hashed = refl

abbrev bad_node : TxNode
bad_node = record { tx = signed_post; clerk_id = 3; status = pending; hash = bad_hash }

-- A node on which the bad post waits.
abbrev spammed : DrNode
spammed = record {
  me = 0;
  pub_hash = [];
  num_pending = pos 1;
  pending_txs = (bad_hash, bad_node) ∷ [];
  seen_txs = bad_hash ∷ [];
  blockchain = [];
  heap = [];
  side_chains = [];
  orphan_chains = [];
  log = [];
  utxo = small_db;
  port = [];
  ports = [];
  servers = [];
}

-- It has mined a block without it.
abbrev cleared : DrNode
cleared = record spammed {
  pending_txs = (bad_hash, record bad_node { status = invalid }) ∷ [];
  blockchain = some first_block ∷ [];
  log = first_block ∷ [];
  utxo = small_db ++ (fit 32 (100 ∷ []), (0, paid_to_bob) ∷ []) ∷ [];
}

bad_mined : mine_block toy_setting toy_ecdsa bob_hash 5 spammed ≡ ok cleared
unfolding mine_block validate_transaction tx_hash tx_in_pack copy_slice pack_int tx_out_pack hash
    generate_block build_merkle_tree_store make_coinbase_tx insert lookup extends prev_block_hash
    slice add_output add_outputs spend_all update_utxo_db
bad_mined = refl

spammed-IsSound : IsSound spammed
unfolding lookup is_among
spammed-IsSound = record {
  linked = tt;
  database = record { entries = (refl, tt); outputs = ((refl, tt), tt) };
  entries = record { once = (refl, tt); keyed = (refl, tt) };
  peers = record { distinct = tt; stranger = refl; parallel = refl };
  quiet = record { no_side_chains = refl; no_orphans = refl };
}

bad_clerk-answers_example : Replies bad_hash cleared false
unfolding lookup bad_post
bad_clerk-answers_example =
    bad_clerk-answers toy_setting toy_ecdsa alice_key bad_post bob_hash 5 spammed cleared bad_hash
      bad_node (inl (post, none, 104 ∷ [], alice_coin, refl)) bad_signed spammed-IsSound refl refl
      bad_mined

-- One server, which knows alice's coin and refuses every transaction.
abbrev refusing : Network
refusing = record {
  get_utxo = λ attempt server key. some (alice_coin ∷ [], true);
  append_tx = λ attempt server tx. some false;
}

refusing-IsHonest : IsHonest toy_scrypt toy_ecdsa refusing
refusing-IsHonest attempt server tx h = absurd (clash h)
  where
    clash : some false ≡ some true → ⊥
    clash q = cc

abbrev dials : Bytes → Bool
dials port = true

abbrev lone_clerk : Clerk
lone_clerk = record {
  port = 57 ∷ [];
  ports = (56 ∷ []) ∷ [];
  servers = (56 ∷ []) ∷ [];
  clerk_id = 3;
  current = 0;
  priv_key = alice_key;
}

bad_post_refused : bad_post_structure toy_scrypt lone_clerk refusing 4 (104 ∷ []) ≡ ok false
unfolding bad_post_structure query_utxo submit ask sign_tx tx_hash_no_sig validate_components
    tx_in_pack_no_sig copy_slice pack_int
bad_post_refused = refl

bad_post_returned : HasReturned toy_scrypt toy_ecdsa lone_clerk refusing 4 false
bad_post_returned = inl (104 ∷ [], bad_post_refused)

bad_clerk-fails_example : ¬ HasReturned toy_scrypt toy_ecdsa lone_clerk refusing 4 true
bad_clerk-fails_example =
    bad_clerk-fails toy_scrypt toy_ecdsa lone_clerk refusing 4 refusing-IsHonest

abbrev no_decoding : Bytes → Option Bytes
no_decoding = some

abbrev as_alice : Bytes → PrivateKey
as_alice pk_bytes = alice_key

lone_clerk_made :
    make_clerk dials no_decoding as_alice 3 (57 ∷ []) [] ((56 ∷ []) ∷ []) ≡ some lone_clerk
unfolding make_clerk
lone_clerk_made = refl

abbrev more_ports : List Bytes
more_ports = (56 ∷ []) ∷ (58 ∷ []) ∷ []

make_clerk-peers_example :
    ((pk_bytes : Bytes) × (no_decoding [] ≡ some pk_bytes))
    × ((merge_peers dials more_ports lone_clerk).servers
        ≡ (merge_peers dials more_ports lone_clerk).ports)
    × ((q : Bytes)
        → is_among q (merge_peers dials more_ports lone_clerk).ports
          ≡ ((is_among q ((56 ∷ []) ∷ []) && dials q) || (is_among q more_ports && dials q)))
make_clerk-peers_example =
    make_clerk-peers dials dials no_decoding as_alice 3 (57 ∷ []) [] ((56 ∷ []) ∷ []) more_ports
      lone_clerk lone_clerk_made
