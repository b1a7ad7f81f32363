-- ===== src/Clerk/Posted.antt =====
-- A clerk against a node: the transaction that Post builds, before the node's validateTransaction.
use dreddit.Base.{
  ◌+◌, ◌^◌, ◌≤◌, ◌<◌, ◌≡◌, refl, inl, inr, List, ◌∷◌, Option, none, some, Bytes, length, ok,
}
use dreddit.Hash.{Scrypt, pk_hash}
use dreddit.Tx.Types.{Transaction, post, comment}
use dreddit.Utxo.Defs.{UtxoDb, UnspentTx, get_unspent_txs}
use dreddit.Utxo.Query.{IsUtxoDb}
use dreddit.Block.Types.{Block}
use dreddit.Node.Validate.{Ecdsa, check_parent, validate_transaction}
use dreddit.Clerk.Defs.{PrivateKey, sign_tx}
use dreddit.Clerk.Requests.{content_tx}
use dreddit.Clerk.Published.{SignsWell, content-accepted}

module _ (s : Scrypt) (c : Ecdsa) (k : PrivateKey) (content : Bytes) (u : UnspentTx)
    (sized : length u.tx_hash ≡ 32) where
  -- If the database's maps hold a key once and its query for the clerk's key gives an output
  -- first that has a hash of 32 bytes and a value from 1 to 2 ^ 32 - 2, and the key signs well,
  -- then the transaction of `Post` for that output is signed, and the node that has this database
  -- accepts it.
  pub post-accepted :
      (db : UtxoDb) (chain : List (Option Block)) (us : List UnspentTx)
      → SignsWell c k
      → IsUtxoDb db
      → (get_unspent_txs db (pk_hash s k.pub_key)).0 ≡ u ∷ us
      → 1 ≤ u.value
      → u.value + 1 < 2 ^ 32
      → (tx : Transaction) × (sign_tx s k (content_tx s k post none content u) ≡ ok tx)
        × (validate_transaction s c db chain tx ≡ ok tt)
  post-accepted db chain us signs kept first some_value small =
      content-accepted s c k post none content u sized db chain us signs kept first some_value small
        (inl (refl, refl))

  -- Under the same conditions the transaction of `Comment` is signed and accepted if its parent passes
  -- the node's check.
  pub comment-accepted :
      (parent : Bytes) (db : UtxoDb) (chain : List (Option Block)) (us : List UnspentTx)
      → SignsWell c k
      → IsUtxoDb db
      → (get_unspent_txs db (pk_hash s k.pub_key)).0 ≡ u ∷ us
      → 1 ≤ u.value
      → u.value + 1 < 2 ^ 32
      → check_parent s chain (content_tx s k comment (some parent) content u) ≡ ok tt
      → (tx : Transaction) × (sign_tx s k (content_tx s k comment (some parent) content u) ≡ ok tx)
        × (validate_transaction s c db chain tx ≡ ok tt)
  comment-accepted parent db chain us signs kept first some_value small found =
      content-accepted s c k comment (some parent) content u sized db chain us signs kept first
        some_value small (inr (refl, (parent, refl), found))
