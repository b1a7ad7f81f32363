-- ===== src/Tests/ClerkTests.antt =====
-- The query of the database, the clerk's calls and its posts.
use dreddit.Base.{
  ℕ, ◌+◌, ◌≤◌, ◌≡◌, refl, Bool, true, not, [], ◌∷◌, Option, none, some, bytes_equal_refl, ◌==◌,
  if◌then◌else◌, length, All, ok, arith, inl,
}
use dreddit.Hash.{pk_hash}
use dreddit.Dict.{lookup}
use dreddit.Tx.Types.{Transaction, post, transfer}
use dreddit.Tests.Toy.{toy_scrypt, toy_ecdsa, alice, alice_hash, bob_hash, old_hash, small_db}
use dreddit.Utxo.Defs.{UnspentTx, get_unspent_txs, unspent_in, unspent_of}
use dreddit.Utxo.Spend.{holdings}
use dreddit.Utxo.Query.{IsUtxoDb, Owned, value_of, its_own, get_unspent_txs-holdings}
use dreddit.Node.Validate.{verify_signature, validate_transaction}
use dreddit.Clerk.Defs.{PrivateKey, ask, sign_tx, gather, unsigned_spend}
use dreddit.Clerk.Requests.{content_tx}
use dreddit.Clerk.Retry.{ask-answered, server_after}
use dreddit.Clerk.Gather.{Gathered}
use dreddit.Clerk.Paid.{IsPaid, pay-accepted}
use dreddit.Clerk.Published.{SignsWell}
use dreddit.Clerk.Posted.{post-accepted}

pub small_db-IsUtxoDb : IsUtxoDb small_db
unfolding lookup
small_db-IsUtxoDb = record { entries = (refl, tt); outputs = ((refl, tt), tt) }

get_unspent_txs-holdings_example :
    All (Owned small_db alice_hash) (get_unspent_txs small_db alice_hash).0
    × (value_of (get_unspent_txs small_db alice_hash).0 ≡ holdings (its_own alice_hash) small_db)
    × ((get_unspent_txs small_db alice_hash).1
        ≡ not (length (get_unspent_txs small_db alice_hash).0 == 0))
get_unspent_txs-holdings_example = get_unspent_txs-holdings alice_hash small_db small_db-IsUtxoDb

-- The second of two servers answers.
abbrev second_answers : ℕ → ℕ → Option Bool
second_answers attempt server = if server == 1 then some true else none

ask-answered_example :
    (m : ℕ) × (b : Bool) × (m ≤ 1)
    × (second_answers (0 + m) (server_after second_answers 2 0 m) ≡ some b)
    × (ask 2 second_answers 2 0 0 ≡ ok b)
ask-answered_example = ask-answered second_answers 2 1 2 0 0 true (omega arith) (omega arith) refl

abbrev pub alice_key : PrivateKey
alice_key = record { pub_key = alice; sign = some }

abbrev pub alice_coin : UnspentTx
alice_coin = record { tx_hash = old_hash; tx_out_index = 0; value = 100 }

pub alice_SignsWell : SignsWell toy_ecdsa alice_key
unfolding verify_signature
alice_SignsWell h sized = (h, refl, λ t e f. rw (e, verify_signature) (bytes_equal_refl h))

pub alice_query : (get_unspent_txs small_db (pk_hash toy_scrypt alice)).0 ≡ alice_coin ∷ []
unfolding get_unspent_txs unspent_in unspent_of pk_hash
alice_query = refl

post-accepted_example :
    (tx : Transaction) × (sign_tx toy_scrypt alice_key
        (content_tx toy_scrypt alice_key post none (104 ∷ []) alice_coin)
      ≡ ok tx)
    × (validate_transaction toy_scrypt toy_ecdsa small_db [] tx ≡ ok tt)
post-accepted_example =
    post-accepted toy_scrypt toy_ecdsa alice_key (104 ∷ []) alice_coin refl small_db [] []
      alice_SignsWell small_db-IsUtxoDb alice_query (omega arith) (omega arith)

pub alice_gathers :
    gather alice 61 (alice_coin ∷ []) 0 [] ≡ (100, unsigned_spend alice alice_coin ∷ [])
unfolding gather
alice_gathers = refl

pay-accepted_example :
    Gathered alice (alice_coin ∷ []) 0 [] (100, unsigned_spend alice alice_coin ∷ [])
    × IsPaid toy_scrypt toy_ecdsa alice_key transfer bob_hash 60 none small_db [] 100
        (unsigned_spend alice alice_coin ∷ [])
unfolding value_of
pay-accepted_example =
    pay-accepted toy_scrypt toy_ecdsa alice_key transfer bob_hash 60 none small_db []
      (alice_coin ∷ []) 100 (unsigned_spend alice alice_coin ∷ []) alice_SignsWell small_db-IsUtxoDb
      alice_query (refl, tt) (omega arith) refl alice_gathers (omega arith) (inl (refl, refl))
