-- ===== src/Clerk/Requests.antt =====
-- Transfer, Post, Comment and Upvote of src/clerk/clerk.go.
use dreddit.Base.{
  ℕ, ◌+◌, ◌%◌, Bool, false, List, [], ◌∷◌, Option, none, some, Bytes, ltb, ◌==◌, if◌then◌else◌,
  get_elem?, Result, ok, ◌>>=◌, or_panic, index_out_of_range,
}
use dreddit.Slice.{u32_mod}
use dreddit.Hash.{Scrypt, pk_hash}
use dreddit.Tx.Types.{TxIn, Transaction, transfer, post, comment, upvote, tx_fee, tx_upvote}
use dreddit.Utxo.Defs.{UnspentTx}
use dreddit.Clerk.Defs.{
  PrivateKey, Clerk, Network, sign_tx, u32_sub, unsigned_spend, gather, query_utxo, submit,
}

-- The transaction that Transfer and Upvote build: `amount` to `destination`, and the rest back.
unfoldable pub payment_tx :
    Scrypt → PrivateKey → ℕ → Bytes → ℕ → Option Bytes → ℕ → List TxIn → Transaction
payment_tx s k type destination amount parent sum ins = record {
  type = type;
  tx_ins = some ins;
  tx_outs =
      record { value = amount; pub_key_hash = destination }
      ∷ record { value = u32_sub (u32_sub sum tx_fee) amount; pub_key_hash = pk_hash s k.pub_key }
      ∷ [];
  parent = parent;
  content = none;
}

-- The transaction that Post and Comment build: what the output is worth, less the fee, back.
unfoldable pub content_tx : Scrypt → PrivateKey → ℕ → Option Bytes → Bytes → UnspentTx → Transaction
content_tx s k type parent content u = record {
  type = type;
  tx_ins = some (unsigned_spend k.pub_key u ∷ []);
  tx_outs =
      record { value = u32_sub (u.value % u32_mod) tx_fee; pub_key_hash = pk_hash s k.pub_key }
      ∷ [];
  parent = parent;
  content = some content;
}

-- Transfer and Upvote from their loops on.
unfoldable pub pay :
    Scrypt → Clerk → Network → ℕ → ℕ → Bytes → ℕ → Option Bytes → List UnspentTx → Result Bool
unfolding gather payment_tx
pay s ck net fuel type destination amount parent utxs =
    let need = (amount + tx_fee) % u32_mod in
    let (sum, ins) = gather ck.priv_key.pub_key need utxs 0 [] in
    if ltb sum need
    then ok false
    else sign_tx s ck.priv_key (payment_tx s ck.priv_key type destination amount parent sum ins)
      >>= submit ck net fuel

-- Post and Comment, whose two bodies differ in type and parent alone.
unfoldable pub publish : Scrypt → Clerk → Network → ℕ → ℕ → Option Bytes → Bytes → Result Bool
unfolding content_tx
publish s ck net fuel type parent content = do
  (utxs, found) ← query_utxo ck net fuel (pk_hash s ck.priv_key.pub_key)
  if found
      then (or_panic (get_elem? utxs 0) index_out_of_range >>= λ u.
          sign_tx s ck.priv_key (content_tx s ck.priv_key type parent content u)
          >>= submit ck net fuel)
      else ok false

unfoldable pub transfer_to : Scrypt → Clerk → Network → ℕ → Bytes → ℕ → Result Bool
unfolding pay
transfer_to s ck net fuel destination value = do
  (utxs, found) ← query_utxo ck net fuel (pk_hash s ck.priv_key.pub_key)
  if found
      then (if value == 0 then ok false else pay s ck net fuel transfer destination value none utxs)
      else ok false

unfoldable pub post_content : Scrypt → Clerk → Network → ℕ → Bytes → Result Bool
unfolding publish
post_content s ck net fuel content = publish s ck net fuel post none content

unfoldable pub comment_on : Scrypt → Clerk → Network → ℕ → Bytes → Bytes → Result Bool
unfolding publish
comment_on s ck net fuel parent content = publish s ck net fuel comment (some parent) content

unfoldable pub upvote_to : Scrypt → Clerk → Network → ℕ → Bytes → Bytes → Result Bool
unfolding pay
upvote_to s ck net fuel parent destination = do
  (utxs, found) ← query_utxo ck net fuel (pk_hash s ck.priv_key.pub_key)
  if found then pay s ck net fuel upvote destination tx_upvote (some parent) utxs else ok false
