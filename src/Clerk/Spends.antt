-- ===== src/Clerk/Spends.antt =====
-- The inputs of the transactions that Transfer and Upvote of src/clerk/clerk.go build.
use dreddit.Base.{◌≡◌, refl, ap, true, List, [], ◌∷◌, ◌++◌, Bytes, length, map, ok, All, arith}
use dreddit.Hash.{Scrypt, pk_hash}
use dreddit.Tx.Types.{TxIn, Transaction}
use dreddit.Tx.Wire.{tx_hash_no_sig}
use dreddit.Tx.Preimage.{bytes_each, tx_in_bytes_no_sig}
use dreddit.Utxo.Defs.{UtxoOutput, UtxoDb, UnspentTx}
use dreddit.Utxo.Conserve.{worth_all}
use dreddit.Utxo.Query.{Owned, value_of}
use dreddit.Node.Validate.{Ecdsa, verify_signature}
use dreddit.Node.Accepts.{AreSpendable, anyone, live_worth}
use dreddit.Clerk.Defs.{PrivateKey, with_sig, unsigned_spend}

-- The inputs of the outputs, unsigned and signed.
abbrev pub spends : Bytes → List UnspentTx → List TxIn
spends pub_key us = map (unsigned_spend pub_key) us

abbrev pub signed_spends : Bytes → Bytes → List UnspentTx → List TxIn
signed_spends g pub_key us = map (with_sig g) (spends pub_key us)

pub same_bytes :
    (g pub_key : Bytes) (us : List UnspentTx)
    → bytes_each tx_in_bytes_no_sig (signed_spends g pub_key us)
      ≡ bytes_each tx_in_bytes_no_sig (spends pub_key us)
unfolding tx_in_bytes_no_sig
same_bytes g pub_key [] = refl
same_bytes g pub_key (u ∷ us) =
    ap (◌++◌ (tx_in_bytes_no_sig (unsigned_spend pub_key u))) (same_bytes g pub_key us)

pub spends-sized :
    (pub_key : Bytes) (us : List UnspentTx)
    → All (λ (u : UnspentTx). length u.tx_hash ≡ 32) us
    → All (λ (t : TxIn). length t.prev_tx_hash ≡ 32) (spends pub_key us)
spends-sized pub_key [] h = tt
spends-sized pub_key (u ∷ us) h = (h.0, spends-sized pub_key us h.1)

pub signed_spends-sized :
    (g pub_key : Bytes) (us : List UnspentTx)
    → All (λ (u : UnspentTx). length u.tx_hash ≡ 32) us
    → All (λ (t : TxIn). length t.prev_tx_hash ≡ 32) (signed_spends g pub_key us)
signed_spends-sized g pub_key [] h = tt
signed_spends-sized g pub_key (u ∷ us) h = (h.0, signed_spends-sized g pub_key us h.1)

pub spends-AreSpendable :
    (s : Scrypt) (c : Ecdsa) (k : PrivateKey) (db : UtxoDb) (tx : Transaction) (g digest : Bytes)
    (us : List UnspentTx)
    → tx_hash_no_sig s tx ≡ ok digest
    → ((t : TxIn) → t.sig ≡ g → t.pub_key ≡ k.pub_key → verify_signature c t digest ≡ true)
    → All (Owned db (pk_hash s k.pub_key)) us
    → (os : List UtxoOutput) × AreSpendable s c db tx (signed_spends g k.pub_key us) os
      × (worth_all anyone os ≡ value_of us)
unfolding worth_all value_of
spends-AreSpendable s c k db tx g digest [] signed verifies owned = ([], tt, refl)
spends-AreSpendable s c k db tx g digest (u ∷ us) signed verifies ((o, live, own, worth), owned) =
    let (os, spendable, sum) = spends-AreSpendable s c k db tx g digest us signed verifies owned in
    (
      o ∷ os,
      (
        (live, own, (digest, signed, verifies (with_sig g (unsigned_spend k.pub_key u)) refl refl)),
        spendable,
      ),
      omega (arith, live_worth o live.1, worth, sum),
    )
