-- ===== src/Clerk/Served.antt =====
-- Transfer, Upvote and Post of src/clerk/clerk.go on a network whose nodes have one database.
use dreddit.Base.{
  ℕ, suc, ◌+◌, ◌%◌, ◌^◌, ◌≤◌, ◌<◌, ◌≡◌, refl, true, false, ◌==◌, List, [], ◌∷◌, Option, none, some,
  Bytes, ltb, length, All, ok, arith, inl, inr,
}
use dreddit.Slice.{u32_mod}
use dreddit.Hash.{Scrypt, pk_hash}
use dreddit.Tx.Types.{TxIn, Transaction, transfer, comment, upvote, tx_fee, tx_upvote}
use dreddit.Utxo.Defs.{UtxoDb, UnspentTx, get_unspent_txs}
use dreddit.Utxo.Query.{IsUtxoDb, value_of, get_unspent_txs-holdings}
use dreddit.Block.Types.{Block}
use dreddit.Node.Validate.{Ecdsa, check_parent, validate_transaction}
use dreddit.Clerk.Defs.{Clerk, Network, ask, gather, query_utxo, submit}
use dreddit.Clerk.Requests.{
  content_tx, payment_tx, pay, publish, transfer_to, upvote_to, post_content, comment_on,
}
use dreddit.Clerk.Published.{SignsWell}
use dreddit.Clerk.Posted.{post-accepted, comment-accepted}
use dreddit.Clerk.Paid.{IsPaid, pay-accepted}

-- Every server answers the query from this database, and says `true` to what is valid on it.
pub record IsServed (s : Scrypt) (c : Ecdsa) (db : UtxoDb) (chain : List (Option Block))
    (net : Network) : Type 0 where
  pub query :
      (attempt server : ℕ) (key : Bytes)
      → net.get_utxo attempt server key ≡ some (get_unspent_txs db key)
  pub accept :
      (attempt server : ℕ) (tx : Transaction)
      → validate_transaction s c db chain tx ≡ ok tt
      → net.append_tx attempt server tx ≡ some true

in_range : (a b : ℕ) → a < b → ltb a b ≡ true
in_range a b h = ground arith

not_empty : (n : ℕ) → (suc n == 0) ≡ false
not_empty n = ground arith

not_below : (amount sum : ℕ) → amount + tx_fee ≤ sum → ltb sum ((amount + tx_fee) % u32_mod) ≡ false
not_below amount sum h = ground arith

module _ (s : Scrypt) (c : Ecdsa) (ck : Clerk) (net : Network) (fuel : ℕ) (db : UtxoDb)
    (chain : List (Option Block)) (served : IsServed s c db chain net)
    (here : ck.current < length ck.servers) where
  submit-true :
      (tx : Transaction)
      → validate_transaction s c db chain tx ≡ ok tt
      → submit ck net (suc fuel) tx ≡ ok true
  unfolding submit ask
  submit-true tx valid =
      rw (in_range ck.current (length ck.servers) here, served.accept 0 ck.current tx valid) refl

  query_utxo-found :
      (key : Bytes) (u : UnspentTx) (us : List UnspentTx)
      → IsUtxoDb db
      → (get_unspent_txs db key).0 ≡ u ∷ us
      → query_utxo ck net (suc fuel) key ≡ ok (u ∷ us, true)
  unfolding query_utxo ask
  query_utxo-found key u us kept first =
      let (each, total, flag) = get_unspent_txs-holdings key db kept in
      rw (in_range ck.current (length ck.servers) here, served.query 0 ck.current key)
        (rw (flag, first, not_empty (length us)) refl)

  pay-true :
      (type : ℕ) (destination : Bytes) (amount : ℕ) (parent : Option Bytes) (us : List UnspentTx)
      (sum : ℕ) (ins : List TxIn)
      → gather ck.priv_key.pub_key ((amount + tx_fee) % u32_mod) us 0 [] ≡ (sum, ins)
      → IsPaid s c ck.priv_key type destination amount parent db chain sum ins
      → pay s ck net (suc fuel) type destination amount parent us ≡ ok true
  unfolding pay
  pay-true type destination amount parent us sum ins ran (tx, signed, valid, (rest, left, outs)) =
      rw (ran, pay) (rw (not_below amount sum (omega (arith, left)), signed) (submit-true tx valid))

  -- What the three requests ask: the key signs well, the database's maps hold a key once, and the
  -- answer to the query is not empty, has hashes of 32 bytes and is worth less than 2 ^ 32 - 1 in
  -- all.
  pub record IsFunded (u : UnspentTx) (us : List UnspentTx) : Type 0 where
    pub signs : SignsWell c ck.priv_key
    pub kept : IsUtxoDb db
    pub answer : (get_unspent_txs db (pk_hash s ck.priv_key.pub_key)).0 ≡ u ∷ us
    pub sized : All (λ (v : UnspentTx). length v.tx_hash ≡ 32) (u ∷ us)
    pub small : value_of (u ∷ us) + 1 < 2 ^ 32

  -- On a network whose servers answer from one database and say `true` to what is valid on it,
  -- and with fuel for one call, Transfer returns `true` if the clerk's current server is one of
  -- its servers, the clerk is funded (`IsFunded`: its key signs well, the database's maps hold a
  -- key once, and the answer to its query is not empty, has hashes of 32 bytes and is worth less
  -- than 2 ^ 32 - 1 in all), the amount is not 0, the destination has 20 bytes, and the answer is
  -- worth the amount and the fee at least.
  pub transfer_to-succeeds :
      (destination : Bytes) (amount : ℕ) (u : UnspentTx) (us : List UnspentTx)
      → IsFunded u us
      → length destination ≡ 20
      → (amount == 0) ≡ false
      → amount + tx_fee ≤ value_of (u ∷ us)
      → transfer_to s ck net (suc fuel) destination amount ≡ ok true
  unfolding transfer_to
  transfer_to-succeeds destination amount u us w addressed some_value enough =
      let r = gather ck.priv_key.pub_key ((amount + tx_fee) % u32_mod) (u ∷ us) 0 [] in
      rw (query_utxo-found (pk_hash s ck.priv_key.pub_key) u us w.kept w.answer, transfer_to)
        (rw some_value (
          pay-true transfer destination amount none (u ∷ us) r.0 r.1 refl
            (pay-accepted s c ck.priv_key transfer destination amount none db chain (u ∷ us) r.0 r.1
              w.signs w.kept w.answer w.sized w.small addressed refl enough (inl (refl, refl))).1))

  -- On a network whose servers answer from one database and say `true` to what is valid on it,
  -- and with fuel for one call, Upvote returns `true` if the clerk's current server is one of its
  -- servers, the clerk is funded (`IsFunded`: its key signs well, the database's maps hold a key
  -- once, and the answer to its query is not empty, has hashes of 32 bytes and is worth less than
  -- 2 ^ 32 - 1 in all), the destination has 20 bytes, the answer is worth an upvote and the fee
  -- at least, and the parent passes the node's check.
  pub upvote_to-succeeds :
      (parent destination : Bytes) (u : UnspentTx) (us : List UnspentTx) (sum : ℕ) (ins : List TxIn)
      → IsFunded u us
      → length destination ≡ 20
      → gather ck.priv_key.pub_key ((tx_upvote + tx_fee) % u32_mod) (u ∷ us) 0 [] ≡ (sum, ins)
      → tx_upvote + tx_fee ≤ value_of (u ∷ us)
      → check_parent s chain
          (payment_tx s ck.priv_key upvote destination tx_upvote (some parent) sum ins)
        ≡ ok tt
      → upvote_to s ck net (suc fuel) parent destination ≡ ok true
  unfolding upvote_to
  upvote_to-succeeds parent destination u us sum ins w addressed ran enough found =
      rw (query_utxo-found (pk_hash s ck.priv_key.pub_key) u us w.kept w.answer, upvote_to)
        (pay-true upvote destination tx_upvote (some parent) (u ∷ us) sum ins ran
          (pay-accepted s c ck.priv_key upvote destination tx_upvote (some parent) db chain (u ∷ us)
            sum ins w.signs w.kept w.answer w.sized w.small addressed ran enough
            (inr (refl, (parent, refl), found))).1)

  -- On a network whose servers answer from one database and say `true` to what is valid on it,
  -- and with fuel for one call, Post returns `true` if the clerk's current server is one of its
  -- servers, the clerk is funded (`IsFunded`: its key signs well, the database's maps hold a key
  -- once, and the answer to its query is not empty, has hashes of 32 bytes and is worth less than
  -- 2 ^ 32 - 1 in all), and the first output of the answer is worth something.
  pub post_content-succeeds :
      (content : Bytes) (u : UnspentTx) (us : List UnspentTx)
      → IsFunded u us
      → 1 ≤ u.value
      → post_content s ck net (suc fuel) content ≡ ok true
  unfolding post_content publish value_of
  post_content-succeeds content u us w some_value =
      let (tx, signed, valid) =
        post-accepted s c ck.priv_key content u w.sized.0 db chain us w.signs w.kept w.answer
          some_value (omega (arith, w.small)) in
      rw (query_utxo-found (pk_hash s ck.priv_key.pub_key) u us w.kept w.answer, publish)
        (rw signed (submit-true tx valid))

  -- On a network whose servers answer from one database and say `true` to what is valid on it,
  -- and with fuel for one call, Comment returns `true` if the clerk's current server is one of
  -- its servers, the clerk is funded (`IsFunded`: its key signs well, the database's maps hold a
  -- key once, and the answer to its query is not empty, has hashes of 32 bytes and is worth less
  -- than 2 ^ 32 - 1 in all), the first output of the answer is worth something, and the parent
  -- passes the node's check.
  pub comment_on-succeeds :
      (parent content : Bytes) (u : UnspentTx) (us : List UnspentTx)
      → IsFunded u us
      → 1 ≤ u.value
      → check_parent s chain (content_tx s ck.priv_key comment (some parent) content u) ≡ ok tt
      → comment_on s ck net (suc fuel) parent content ≡ ok true
  unfolding comment_on publish value_of
  comment_on-succeeds parent content u us w some_value found =
      let (tx, signed, valid) =
        comment-accepted s c ck.priv_key content u w.sized.0 parent db chain us w.signs w.kept
          w.answer some_value (omega (arith, w.small)) found in
      rw (query_utxo-found (pk_hash s ck.priv_key.pub_key) u us w.kept w.answer, publish)
        (rw signed (submit-true tx valid))
