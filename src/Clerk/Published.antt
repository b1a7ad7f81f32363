-- ===== src/Clerk/Published.antt =====
-- A clerk against a node: the transactions that Post and Comment build, before the node's
-- validateTransaction.
use dreddit.Base.{
  ◌+◌, ◌^◌, ◌≤◌, ◌<◌, ◌≡◌, refl, true, false, ◌⊎◌, inl, inr, ◌||◌, ◌==◌, ℕ, List, [], ◌∷◌, Option,
  none, some, Bytes, bytes_equal_refl, length, ok, All, arith,
}
use mathlib.Core.Path.{subst}
use dreddit.Hash.{Scrypt, hash, pk_hash, length-hash, length-pk_hash}
use dreddit.Tx.Types.{TxIn, Transaction, post, comment, upvote}
use dreddit.Tx.Wire.{tx_hash_no_sig}
use dreddit.Tx.Check.{validate_structure}
use dreddit.Tx.Preimage.{
  IsWellSized, tx_bytes, unsigned_bytes, tx_in_bytes_no_sig, tx_hash-bytes, tx_hash_no_sig-bytes,
}
use dreddit.Utxo.Defs.{UtxoDb, UnspentTx, get_unspent_txs}
use dreddit.Utxo.Conserve.{worth_all, paid}
use dreddit.Utxo.Query.{IsUtxoDb, Owned, get_unspent_txs-holdings}
use dreddit.Block.Types.{Block}
use dreddit.Node.Validate.{Ecdsa, verify_signature, check_parent, validate_transaction}
use dreddit.Node.Accepts.{Accepted, live_worth}
use dreddit.Node.Supply.{validate_transaction_iff}
use dreddit.Clerk.Defs.{PrivateKey, sign_tx, with_sig, unsigned_spend}
use dreddit.Clerk.Requests.{content_tx}

-- What the clerk relies on of btcec: a hash is signed, and what is signed is verified with the key.
abbrev pub SignsWell : Ecdsa → PrivateKey → Type 0
SignsWell c k =
    (h : Bytes)
    → length h ≡ 32
    → (g : Bytes) × (k.sign h ≡ some g)
      × ((t : TxIn) → t.sig ≡ g → t.pub_key ≡ k.pub_key → verify_signature c t h ≡ true)

module _ (s : Scrypt) (c : Ecdsa) (k : PrivateKey) (type : ℕ) (parent : Option Bytes)
    (content : Bytes) (u : UnspentTx) (sized : length u.tx_hash ≡ 32) where
  abbrev raw : Transaction
  unfolding content_tx
  raw = content_tx s k type parent content u

  abbrev signed : Bytes → Transaction
  signed g = record raw { tx_ins = some (with_sig g (unsigned_spend k.pub_key u) ∷ []) }

  abbrev digest : Bytes
  digest = hash s (unsigned_bytes raw)

  signed-IsWellSized : (g : Bytes) → IsWellSized (signed g)
  unfolding raw
  signed-IsWellSized g = record { ins = (sized, tt); outs = (length-pk_hash s k.pub_key, tt) }

  raw-IsWellSized : IsWellSized raw
  unfolding raw
  raw-IsWellSized = record { ins = (sized, tt); outs = (length-pk_hash s k.pub_key, tt) }

  signed-digest : (g : Bytes) → tx_hash_no_sig s (signed g) ≡ ok digest
  unfolding unsigned_bytes tx_in_bytes_no_sig raw
  signed-digest g = tx_hash_no_sig-bytes s (signed g) (signed-IsWellSized g)

  sign_tx-signed : (g : Bytes) → k.sign digest ≡ some g → sign_tx s k raw ≡ ok (signed g)
  unfolding sign_tx raw
  sign_tx-signed g signs = rw (tx_hash_no_sig-bytes s raw raw-IsWellSized, sign_tx) (rw signs)

  -- A post without a parent, or a comment whose parent the node finds in order.
  abbrev pub IsContent : List (Option Block) → Transaction → Type 0
  IsContent chain tx =
      ((type ≡ post) × (parent ≡ none))
      ⊎ ((type ≡ comment) × ((p : Bytes) × (parent ≡ some p)) × (check_parent s chain tx ≡ ok tt))

  signed-structure :
      (chain : List (Option Block)) (g : Bytes)
      → IsContent chain raw
      → validate_structure s (signed g) ≡ ok tt
  unfolding validate_structure raw
  signed-structure chain g (inl (kind, none_given)) =
      rw (kind, none_given, bytes_equal_refl (pk_hash s k.pub_key)) refl
  signed-structure chain g (inr (kind, (p, given), found)) =
      rw (kind, given, bytes_equal_refl (pk_hash s k.pub_key)) refl

  signed-parented :
      (chain : List (Option Block)) (g : Bytes)
      → IsContent chain raw
      → (type == comment || type == upvote) ≡ true
      → check_parent s chain (signed g) ≡ ok tt
  unfolding check_parent raw
  signed-parented chain g (inl (kind, none_given)) e = absurd (clash (rw kind at e))
    where
      clash : false ≡ true → ⊥
      clash q = cc
  signed-parented chain g (inr (kind, given, found)) e = found

  signed-Accepted :
      (db : UtxoDb) (chain : List (Option Block)) (g : Bytes)
      → IsContent chain raw
      → (owned : Owned db (pk_hash s k.pub_key) u) → 1 ≤ u.value
      → u.value + 1 < 2 ^ 32
      → verify_signature c (with_sig g (unsigned_spend k.pub_key u)) digest ≡ true
      → Accepted s c db chain (signed g) (owned.0 ∷ [])
  unfolding worth_all paid raw
  signed-Accepted db chain g allowed (o, (there, free), own, worth) some_value small verified =
      record {
        spendable = (((there, free), own, (digest, signed-digest g, verified)), tt);
        has_ins = λ e. omega arith;
        has_outs = λ e. omega arith;
        balanced = omega (arith, live_worth o free, worth);
        structured = signed-structure chain g allowed;
        parented = λ e. signed-parented chain g allowed e;
      }

  pub content-accepted :
      (db : UtxoDb) (chain : List (Option Block)) (us : List UnspentTx)
      → SignsWell c k
      → IsUtxoDb db
      → (get_unspent_txs db (pk_hash s k.pub_key)).0 ≡ u ∷ us
      → 1 ≤ u.value
      → u.value + 1 < 2 ^ 32
      → IsContent chain (content_tx s k type parent content u)
      → (tx : Transaction) × (sign_tx s k (content_tx s k type parent content u) ≡ ok tx)
        × (validate_transaction s c db chain tx ≡ ok tt)
  unfolding content_tx raw
  content-accepted db chain us signs kept first some_value small allowed =
      let (g, made, verifies) = signs digest (length-hash s (unsigned_bytes raw)) in
      let (each, total, flag) = get_unspent_txs-holdings (pk_hash s k.pub_key) db kept in
      let owned = (subst (All (Owned db (pk_hash s k.pub_key))) first each).0 in
      (
        signed g,
        sign_tx-signed g made,
        (validate_transaction_iff s c db chain (signed g) (hash s (tx_bytes (signed g)))
              (tx_hash-bytes s (signed g) (signed-IsWellSized g))).1
            (
              owned.0 ∷ [],
              signed-Accepted db chain g allowed owned some_value small
                  (verifies (with_sig g (unsigned_spend k.pub_key u)) refl refl),
            ),
      )
