-- ===== src/Tests/ClientTests.antt =====
-- The client's page of a block with a post, a comment and an upvote.
use mathlib.Core.List.Memᴰ.{head, tail}
use dreddit.Base.{
  ℕ, replicate, true, ◌≡◌, refl, sym, ap, ◌∙◌, inr, map, List, [], ◌∷◌, ◌++◌, none, some, Bytes,
  bytes_eq, ok,
}
use dreddit.Tests.Toy.{toy_scrypt, bob_hash}
use dreddit.Tests.ClerkTests.{alice_key}
use dreddit.Tests.ChainTests.{first_block}
use dreddit.Slice.{fit, slice, copy_slice}
use dreddit.Dict.{lookup, insert}
use dreddit.Hash.{hash}
use dreddit.Tx.Types.{Transaction, post, comment, upvote}
use dreddit.Tx.Wire.{tx_hash, tx_out_pack, pack_int}
use dreddit.Block.Types.{Block}
use dreddit.Client.Defs.{Client, tx_key, all_txs, make_client}
use dreddit.Client.Page.{Shown, render_front_page}
use dreddit.Node.Validate.{check_parent}
use dreddit.Client.Parents.{AreHashed, IsCollisionFree, Listed-check_parent}
use dreddit.Client.Session.{help_command, help, not_recognized, World, session}
use dreddit.Client.Endless.{session-endless}
use dreddit.Client.Votes.{votes}
use dreddit.Client.Scores.{Listed, render_front_page-Listed}

abbrev pub hello : Transaction
hello = record {
  type = post;
  tx_ins = none;
  tx_outs = record { value = 9; pub_key_hash = bob_hash } ∷ [];
  parent = none;
  content = some (104 ∷ []);
}

abbrev pub hello_hash : Bytes
hello_hash = fit 32 (94 ∷ [])

-- "5e0000000000\n"
abbrev hello_key : Bytes
hello_key = 53 ∷ 101 ∷ 48 ∷ 48 ∷ 48 ∷ 48 ∷ 48 ∷ 48 ∷ 48 ∷ 48 ∷ 48 ∷ 48 ∷ 10 ∷ []

abbrev answer : Transaction
answer = record hello { type = comment; parent = some hello_hash; content = some (97 ∷ []) }

abbrev praise : Transaction
praise = record hello { type = upvote; parent = some hello_hash; content = none }

abbrev small_chain : List Block
small_chain = record first_block { transactions = hello ∷ answer ∷ praise ∷ [] } ∷ []

abbrev new_client : Client
unfolding make_client
new_client = make_client (λ port. true) (57 ∷ []) (56 ∷ [])

hello_hashed : tx_hash toy_scrypt hello ≡ ok hello_hash
unfolding tx_hash tx_out_pack copy_slice pack_int hash
hello_hashed = refl

hello_keyed : tx_key hello_hash ≡ ok hello_key
unfolding tx_key slice
hello_keyed = refl

-- The key of a hash that starts with a byte of these two digits and five zeros.
abbrev key_of : ℕ → ℕ → Bytes
key_of a b = a ∷ b ∷ (replicate 10 48 ++ 10 ∷ [])

abbrev seen : Client
seen = record {
  clerk_port = 57 ∷ [];
  node_port = 56 ∷ [];
  server = some (56 ∷ []);
  hash_map =
      (hello_key, record { tx = hello; hash = hello_hash; score = 1; address = bob_hash })
      ∷ (
        key_of 98 101,
        record { tx = answer; hash = fit 32 (190 ∷ []); score = 0; address = bob_hash },
      )
      ∷ (key_of 55 49, record { tx = praise; hash = fit 32 (113 ∷ []); score = 0; address = [] })
      ∷ [];
}

abbrev hello_page : List Shown
hello_page =
    record { indent = 0; score = 1; content = 104 ∷ []; front = fit 6 (94 ∷ []) }
    ∷ record { indent = 1; score = 0; content = 97 ∷ []; front = fit 6 (190 ∷ []) }
    ∷ []

hello_rendered : render_front_page toy_scrypt 4 small_chain new_client ≡ ok (hello_page, seen)
unfolding render_front_page tx_hash tx_out_pack copy_slice pack_int hash tx_key slice insert lookup
    new_client
hello_rendered = refl

render_front_page-Listed_example : Listed toy_scrypt (hello ∷ answer ∷ praise ∷ []) hello_key seen
unfolding all_txs
render_front_page-Listed_example =
    render_front_page-Listed toy_scrypt 4 small_chain new_client seen hello_page hello hello_hash
      hello_key hello_rendered (head refl) hello_hashed hello_keyed

abbrev pub hello_chain : List Block
hello_chain = record first_block { transactions = hello ∷ [] } ∷ []

abbrev hello_seen : Client
hello_seen = record {
  clerk_port = 57 ∷ [];
  node_port = 56 ∷ [];
  server = some (56 ∷ []);
  hash_map =
      (hello_key, record { tx = hello; hash = hello_hash; score = 0; address = bob_hash }) ∷ [];
}

hello-AreHashed : AreHashed toy_scrypt (hello ∷ [])
hello-AreHashed t (head q) = (hello_hash, ap (tx_hash toy_scrypt) q ∙ hello_hashed)
hello-AreHashed t (tail later) = elim later [ ]

hello-IsCollisionFree : IsCollisionFree toy_scrypt (hello ∷ [])
hello-IsCollisionFree t u (head q) (head r) same = q ∙ sym r
hello-IsCollisionFree t u (tail later) at same = elim later [ ]
hello-IsCollisionFree t u (head q) (tail later) same = elim later [ ]

abbrev hello_listed : Listed toy_scrypt (hello ∷ []) hello_key hello_seen
unfolding lookup votes
hello_listed = record {
  e = record { tx = hello; hash = hello_hash; score = 0; address = bob_hash };
  there = refl;
  shows = record {
    listed = head refl;
    hashed = hello_hashed;
    keyed = hello_keyed;
    owned = inr (record { value = 9; pub_key_hash = bob_hash }, refl, refl);
  };
  scored = refl;
}

Listed-check_parent_example : check_parent toy_scrypt (map some hello_chain) praise ≡ ok tt
unfolding all_txs hello_listed
Listed-check_parent_example =
    Listed-check_parent toy_scrypt hello_chain hello_key hello_seen hello_listed praise
      hello-AreHashed hello-IsCollisionFree refl
      (refl, inr (refl, (record { value = 9; pub_key_hash = bob_hash }, refl, refl)))

-- A node that answers nothing.
abbrev silent_world : World
silent_world = record {
  scrypt = toy_scrypt;
  clerk = record {
    port = 57 ∷ [];
    ports = (56 ∷ []) ∷ [];
    servers = (56 ∷ []) ∷ [];
    clerk_id = 3;
    current = 0;
    priv_key = alice_key;
  };
  net = record { get_utxo = λ attempt server key. none; append_tx = λ attempt server tx. none };
  fuel = 4;
  chain_at = λ round. some small_chain;
}

-- "help\n" and no more.
session-endless_example : ¬ (
    session silent_world 3 (help_command ∷ []) new_client
    ≡ ok (help ∷ not_recognized ∷ not_recognized ∷ [], new_client))
session-endless_example =
    session-endless silent_world 3 (help_command ∷ []) new_client
      (help ∷ not_recognized ∷ not_recognized ∷ [], new_client) (refl, tt)
