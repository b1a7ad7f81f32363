-- ===== src/Tests/ServedTests.antt =====
-- A clerk's requests on a network of one node.
use dreddit.Base.{
  ◌+◌, ◌≤◌, ◌<◌, ◌≡◌, refl, true, false, [], ◌∷◌, Option, none, some, Bytes, Bool, Result, ok, List,
  length, arith,
}
use dreddit.Hash.{hash}
use dreddit.Slice.{copy_slice}
use dreddit.Tests.Toy.{toy_scrypt, toy_ecdsa, bob_hash, small_db, alice}
use dreddit.Tests.ClerkTests.{
  alice_key, alice_coin, alice_SignsWell, alice_query, small_db-IsUtxoDb,
}
use dreddit.Tests.ClientTests.{hello_hash, hello_chain}
use dreddit.Tx.Wire.{tx_hash, tx_out_pack, pack_int}
use dreddit.Tx.Types.{comment, upvote}
use dreddit.Utxo.Defs.{get_unspent_txs}
use dreddit.Utxo.Query.{value_of}
use dreddit.Block.Types.{Block}
use dreddit.Node.Validate.{validate_transaction, check_parent, find_tx, find_tx_in_block_chain}
use dreddit.Clerk.Defs.{Clerk, Network, gather, unsigned_spend}
use dreddit.Clerk.Requests.{
  transfer_to, upvote_to, post_content, comment_on, payment_tx, content_tx,
}
use dreddit.Clerk.Served.{
  IsServed, IsFunded, transfer_to-succeeds, upvote_to-succeeds, post_content-succeeds,
  comment_on-succeeds,
}

abbrev is_ok : Result (Unit {0}) → Bool
is_ok (ok u) = true
is_ok r = false

abbrev chain : List (Option Block)
chain = dreddit.Base.map some hello_chain

-- Its servers check what they are sent.
abbrev one_node : Network
one_node = record {
  get_utxo = λ attempt server key. some (get_unspent_txs small_db key);
  append_tx = λ attempt server tx.
      some (is_ok (validate_transaction toy_scrypt toy_ecdsa small_db chain tx));
}

one_node-IsServed : IsServed toy_scrypt toy_ecdsa small_db chain one_node
one_node-IsServed = record {
  query = λ attempt server key. refl;
  accept = λ attempt server tx valid. rw valid refl;
}

abbrev alice_clerk : Clerk
alice_clerk = record {
  port = 57 ∷ [];
  ports = (56 ∷ []) ∷ [];
  servers = (56 ∷ []) ∷ [];
  clerk_id = 3;
  current = 0;
  priv_key = alice_key;
}

first_server : 0 < length alice_clerk.servers
first_server = omega arith

alice-IsFunded :
    IsFunded toy_scrypt toy_ecdsa alice_clerk one_node 0 small_db chain one_node-IsServed
      first_server alice_coin []
unfolding value_of
alice-IsFunded = record {
  signs = alice_SignsWell;
  kept = small_db-IsUtxoDb;
  answer = alice_query;
  sized = (refl, tt);
  small = omega arith;
}

transfer_to-succeeds_example : transfer_to toy_scrypt alice_clerk one_node 1 bob_hash 60 ≡ ok true
unfolding value_of
transfer_to-succeeds_example =
    transfer_to-succeeds toy_scrypt toy_ecdsa alice_clerk one_node 0 small_db chain
      one_node-IsServed first_server bob_hash 60 alice_coin [] alice-IsFunded refl refl
      (omega arith)

post_content-succeeds_example : post_content toy_scrypt alice_clerk one_node 1 (104 ∷ []) ≡ ok true
post_content-succeeds_example =
    post_content-succeeds toy_scrypt toy_ecdsa alice_clerk one_node 0 small_db chain
      one_node-IsServed first_server (104 ∷ []) alice_coin [] alice-IsFunded (omega arith)

gathers_upvote :
    gather alice 11 (alice_coin ∷ []) 0 [] ≡ (100, unsigned_spend alice alice_coin ∷ [])
unfolding gather
gathers_upvote = refl

hello_found :
    check_parent toy_scrypt chain (
      payment_tx toy_scrypt alice_key upvote bob_hash 10
        (some hello_hash)
        100
        (unsigned_spend alice alice_coin ∷ []))
    ≡ ok tt
unfolding check_parent payment_tx find_tx find_tx_in_block_chain tx_hash tx_out_pack pack_int
    copy_slice hash
hello_found = refl

upvote_to-succeeds_example :
    upvote_to toy_scrypt alice_clerk one_node 1 hello_hash bob_hash ≡ ok true
unfolding value_of
upvote_to-succeeds_example =
    upvote_to-succeeds toy_scrypt toy_ecdsa alice_clerk one_node 0 small_db chain one_node-IsServed
      first_server hello_hash bob_hash alice_coin [] 100 (unsigned_spend alice alice_coin ∷ [])
      alice-IsFunded refl gathers_upvote (omega arith) hello_found

hello_commented :
    check_parent toy_scrypt chain
      (content_tx toy_scrypt alice_key comment (some hello_hash) (104 ∷ []) alice_coin)
    ≡ ok tt
unfolding check_parent content_tx find_tx find_tx_in_block_chain tx_hash tx_out_pack pack_int
    copy_slice hash
hello_commented = refl

comment_on-succeeds_example :
    comment_on toy_scrypt alice_clerk one_node 1 hello_hash (104 ∷ []) ≡ ok true
comment_on-succeeds_example =
    comment_on-succeeds toy_scrypt toy_ecdsa alice_clerk one_node 0 small_db chain one_node-IsServed
      first_server hello_hash (104 ∷ []) alice_coin [] alice-IsFunded (omega arith) hello_commented
