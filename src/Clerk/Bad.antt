-- ===== src/Clerk/Bad.antt =====
-- The clerk of src/clerk/bad_clerk.go, which a test lets send malformed transactions.
use dreddit.Base.{
  ℕ, ◌+◌, Bool, false, List, [], ◌∷◌, Option, none, some, Bytes, ltb, if◌then◌else◌, get_elem?,
  Result, ok, ◌>>=◌, or_panic, index_out_of_range,
}
use dreddit.Hash.{Scrypt, pk_hash}
use dreddit.Tx.Types.{TxIn, Transaction, post, comment, upvote, tx_fee, tx_upvote}
use dreddit.Utxo.Defs.{UnspentTx}
use dreddit.Clerk.Make.{make_clerk}
use dreddit.Clerk.Defs.{
  PrivateKey, Clerk, Network, sign_tx, unsigned_spend, gather, query_utxo, submit,
}

-- It embeds a clerk and adds nothing.
abbrev pub BadClerk : Type 0
BadClerk = Clerk

-- MakeBadClerk has the body of MakeClerk.
unfoldable pub make_bad_clerk :
    (Bytes → Bool)
    → (Bytes → Option Bytes)
    → (Bytes → PrivateKey)
    → ℕ
    → Bytes
    → Bytes
    → List Bytes
    → Option BadClerk
make_bad_clerk dial decode key_from_bytes id port priv_key servers =
    make_clerk dial decode key_from_bytes id port priv_key servers

-- What BadPostStructure and BadCommentStructure build: nothing goes back.
unfoldable pub bad_content_tx : PrivateKey → ℕ → Option Bytes → Bytes → UnspentTx → Transaction
bad_content_tx k type parent content u = record {
  type = type;
  tx_ins = some (unsigned_spend k.pub_key u ∷ []);
  tx_outs = [];
  parent = parent;
  content = some content;
}

-- What BadUpvoteStructure builds: the upvote without the rest.
unfoldable pub bad_upvote_tx : Bytes → Bytes → List TxIn → Transaction
bad_upvote_tx parent destination ins = record {
  type = upvote;
  tx_ins = some ins;
  tx_outs = record { value = tx_upvote; pub_key_hash = destination } ∷ [];
  parent = some parent;
  content = none;
}

-- The bodies of BadPostStructure and BadCommentStructure differ in type and parent alone.
unfoldable pub bad_publish :
    Scrypt → BadClerk → Network → ℕ → ℕ → Option Bytes → Bytes → Result Bool
unfolding bad_content_tx
bad_publish s ck net fuel type parent content = do
  (utxs, found) ← query_utxo ck net fuel (pk_hash s ck.priv_key.pub_key)
  if found
      then (or_panic (get_elem? utxs 0) index_out_of_range >>= λ u.
          sign_tx s ck.priv_key (bad_content_tx ck.priv_key type parent content u)
          >>= submit ck net fuel)
      else ok false

unfoldable pub bad_post_structure : Scrypt → BadClerk → Network → ℕ → Bytes → Result Bool
unfolding bad_publish
bad_post_structure s ck net fuel content = bad_publish s ck net fuel post none content

unfoldable pub bad_comment_structure : Scrypt → BadClerk → Network → ℕ → Bytes → Bytes → Result Bool
unfolding bad_publish
bad_comment_structure s ck net fuel parent content =
    bad_publish s ck net fuel comment (some parent) content

unfoldable pub bad_upvote_structure : Scrypt → BadClerk → Network → ℕ → Bytes → Bytes → Result Bool
unfolding bad_upvote_tx
bad_upvote_structure s ck net fuel parent destination = do
  (utxs, found) ← query_utxo ck net fuel (pk_hash s ck.priv_key.pub_key)
  let (sum, ins) = gather ck.priv_key.pub_key (tx_upvote + tx_fee) utxs 0 []
  if found
      then (if ltb sum (tx_upvote + tx_fee)
          then ok false
          else (sign_tx s ck.priv_key (bad_upvote_tx parent destination ins)
              >>= submit ck net fuel))
      else ok false
