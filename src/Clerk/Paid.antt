-- ===== src/Clerk/Paid.antt =====
-- A clerk against a node: the transactions that Transfer and Upvote build, before the node's
-- validateTransaction.
use mathlib.Core.Path.{subst}
use dreddit.Base.{
  ℕ, ◌+◌, ◌-◌, ◌%◌, ◌^◌, ◌≤◌, ◌<◌, ◌≡◌, ◌⊎◌, refl, sym, ap, ◌∙◌, inl, inr, true, false, ◌||◌, ◌==◌,
  List, [], ◌∷◌, ◌++◌, Option, none, some, Bytes, bytes_equal_refl, length, elems, ok, All, arith,
}
use dreddit.Slice.{u32_mod}
use dreddit.Hash.{Scrypt, hash, pk_hash, length-hash, length-pk_hash}
use dreddit.Tx.Types.{TxIn, Transaction, transfer, comment, upvote, tx_fee}
use dreddit.Tx.Wire.{pack_int, tx_hash_no_sig}
use dreddit.Tx.Check.{validate_structure}
use dreddit.Tx.Preimage.{
  IsWellSized, tx_bytes, unsigned_bytes, bytes_each, tx_out_bytes, tx_hash-bytes,
  tx_hash_no_sig-bytes,
}
use dreddit.Utxo.Defs.{UtxoOutput, UtxoDb, UnspentTx, get_unspent_txs}
use dreddit.Utxo.Conserve.{paid}
use dreddit.Utxo.Query.{IsUtxoDb, Owned, value_of, get_unspent_txs-holdings}
use dreddit.Block.Types.{Block}
use dreddit.Node.Validate.{Ecdsa, verify_signature, check_parent, validate_transaction}
use dreddit.Node.Accepts.{Accepted}
use dreddit.Node.Supply.{validate_transaction_iff}
use dreddit.Clerk.Defs.{PrivateKey, sign_tx, gather, u32_sub}
use dreddit.Clerk.Requests.{payment_tx}
use dreddit.Clerk.Published.{SignsWell}
use dreddit.Clerk.Gather.{Gathered, gather-Gathered, gather_enough, value_of-left, All-taken}
use dreddit.Clerk.Spends.{
  spends, signed_spends, same_bytes, spends-sized, signed_spends-sized, spends-AreSpendable,
}

change :
    (sum amount : ℕ)
    → sum + 1 < 2 ^ 32
    → amount + tx_fee ≤ sum
    → u32_sub (u32_sub sum tx_fee) amount ≡ sum - tx_fee - amount
change sum amount small enough = omega arith

module _ (s : Scrypt) (c : Ecdsa) (k : PrivateKey) (type : ℕ) (destination : Bytes) (amount : ℕ)
    (parent : Option Bytes) where
  -- A transfer without a parent, or an upvote whose parent the node finds in order.
  abbrev pub IsAllowed : List (Option Block) → Transaction → Type 0
  IsAllowed chain tx =
      ((type ≡ transfer) × (parent ≡ none))
      ⊎ ((type ≡ upvote) × ((p : Bytes) × (parent ≡ some p)) × (check_parent s chain tx ≡ ok tt))

  -- The amount for the destination, and what is left of the sum after the fee for the clerk.
  abbrev pub LeavesFee : ℕ → Transaction → Type 0
  LeavesFee sum tx =
      (rest : ℕ) × (amount + rest + tx_fee ≡ sum)
      × (tx.tx_outs
          ≡ record { value = amount; pub_key_hash = destination }
            ∷ record { value = rest; pub_key_hash = pk_hash s k.pub_key }
            ∷ [])

  module _ (u : UnspentTx) (us : List UnspentTx) (sum : ℕ)
      (sized : All (λ (v : UnspentTx). length v.tx_hash ≡ 32) (u ∷ us))
      (addressed : length destination ≡ 20) where
    abbrev raw : Transaction
    unfolding payment_tx
    raw = payment_tx s k type destination amount parent sum (spends k.pub_key (u ∷ us))

    abbrev signed : Bytes → Transaction
    signed g = record raw { tx_ins = some (signed_spends g k.pub_key (u ∷ us)) }

    abbrev digest : Bytes
    digest = hash s (unsigned_bytes raw)

    raw-IsWellSized : IsWellSized raw
    unfolding raw
    raw-IsWellSized = record {
      ins = spends-sized k.pub_key (u ∷ us) sized;
      outs = (addressed, (length-pk_hash s k.pub_key, tt));
    }

    signed-IsWellSized : (g : Bytes) → IsWellSized (signed g)
    unfolding raw
    signed-IsWellSized g = record {
      ins = signed_spends-sized g k.pub_key (u ∷ us) sized;
      outs = (addressed, (length-pk_hash s k.pub_key, tt));
    }

    signed-digest : (g : Bytes) → tx_hash_no_sig s (signed g) ≡ ok digest
    unfolding unsigned_bytes raw
    signed-digest g =
        tx_hash_no_sig-bytes s (signed g) (signed-IsWellSized g)
        ∙ ap
            (λ (z : Bytes). ok (
              hash s (
                (((pack_int type ++ z) ++ bytes_each tx_out_bytes raw.tx_outs) ++ elems parent)
                ++ [])))
            (same_bytes g k.pub_key (u ∷ us))

    sign_tx-signed : (g : Bytes) → k.sign digest ≡ some g → sign_tx s k raw ≡ ok (signed g)
    unfolding sign_tx raw
    sign_tx-signed g signs = rw (tx_hash_no_sig-bytes s raw raw-IsWellSized, sign_tx) (rw signs)

    signed-structure :
        (chain : List (Option Block)) (g : Bytes)
        → IsAllowed chain raw
        → validate_structure s (signed g) ≡ ok tt
    unfolding validate_structure raw
    signed-structure chain g (inl (kind, none_given)) = rw (kind, none_given) refl
    signed-structure chain g (inr (kind, (p, given), found)) =
        rw (kind, given, bytes_equal_refl (pk_hash s k.pub_key)) refl

    signed-parented :
        (chain : List (Option Block)) (g : Bytes)
        → IsAllowed chain raw
        → (type == comment || type == upvote) ≡ true
        → check_parent s chain (signed g) ≡ ok tt
    unfolding check_parent raw
    signed-parented chain g (inl (kind, none_given)) e = absurd (clash (rw kind at e))
      where
        clash : false ≡ true → ⊥
        clash q = cc
    signed-parented chain g (inr (kind, given, found)) e = found

    signed-Accepted :
        (db : UtxoDb) (chain : List (Option Block)) (g : Bytes)
        → ((t : TxIn) → t.sig ≡ g → t.pub_key ≡ k.pub_key → verify_signature c t digest ≡ true)
        → All (Owned db (pk_hash s k.pub_key)) (u ∷ us)
        → IsAllowed chain raw
        → sum ≡ value_of (u ∷ us)
        → sum + 1 < 2 ^ 32
        → amount + tx_fee ≤ sum
        → (os : List UtxoOutput) × Accepted s c db chain (signed g) os
    unfolding raw paid
    signed-Accepted db chain g verifies owned allowed total small enough =
        let (os, spendable, worth) =
          spends-AreSpendable s c k db (signed g) g digest (u ∷ us) (signed-digest g) verifies
            owned in
        (
          os,
          record {
            spendable = spendable;
            has_ins = λ e. omega arith;
            has_outs = λ e. omega arith;
            balanced = omega (arith, change sum amount small enough, worth, total, small, enough);
            structured = signed-structure chain g allowed;
            parented = λ e. signed-parented chain g allowed e;
          },
        )

    gathered-accepted :
        (db : UtxoDb) (chain : List (Option Block))
        → SignsWell c k
        → All (Owned db (pk_hash s k.pub_key)) (u ∷ us)
        → IsAllowed chain raw
        → sum ≡ value_of (u ∷ us)
        → sum + 1 < 2 ^ 32
        → amount + tx_fee ≤ sum
        → (tx : Transaction) × (sign_tx s k raw ≡ ok tx)
          × (validate_transaction s c db chain tx ≡ ok tt)
          × LeavesFee sum tx
    unfolding raw
    gathered-accepted db chain signs owned allowed total small enough =
        let (g, made, verifies) = signs digest (length-hash s (unsigned_bytes raw)) in
        (
          signed g,
          sign_tx-signed g made,
          (validate_transaction_iff s c db chain (signed g) (hash s (tx_bytes (signed g)))
                (tx_hash-bytes s (signed g) (signed-IsWellSized g))).1
              (signed-Accepted db chain g verifies owned allowed total small enough),
          (sum - tx_fee - amount, omega (arith, enough), rw (change sum amount small enough) refl),
        )

  -- It is signed and accepted, and leaves the fee.
  abbrev pub IsPaid : UtxoDb → List (Option Block) → ℕ → List TxIn → Type 0
  IsPaid db chain sum ins =
      (tx : Transaction) × (sign_tx s k (payment_tx s k type destination amount parent sum ins)
        ≡ ok tx)
      × (validate_transaction s c db chain tx ≡ ok tt)
      × LeavesFee sum tx

  taken-IsPaid :
      (db : UtxoDb) (chain : List (Option Block)) (taken : List UnspentTx) (sum : ℕ)
      (ins : List TxIn)
      → SignsWell c k
      → All (Owned db (pk_hash s k.pub_key)) taken
      → All (λ (u : UnspentTx). length u.tx_hash ≡ 32) taken
      → length destination ≡ 20
      → sum ≡ value_of taken
      → sum + 1 < 2 ^ 32
      → amount + tx_fee ≤ sum
      → ins ≡ spends k.pub_key taken
      → IsAllowed chain (payment_tx s k type destination amount parent sum ins)
      → IsPaid db chain sum ins
  unfolding value_of payment_tx raw
  taken-IsPaid db chain [] sum ins signs owned fits addressed total small enough e allowed =
      absurd (omega arith)
  taken-IsPaid db chain (u ∷ us) sum ins signs owned fits addressed total small enough e allowed =
      subst
        (λ (xs : List TxIn).
          IsAllowed chain (payment_tx s k type destination amount parent sum xs)
          → IsPaid db chain sum xs)
        (sym e)
        (λ a. gathered-accepted u us sum fits addressed db chain signs owned a total small enough)
        allowed

  -- If the database's maps hold a key once and its query for the clerk's key gives outputs with
  -- hashes of 32 bytes that are worth less than 2 ^ 32 - 1 in all, and the amount and the fee at
  -- least, the key signs well and the destination has 20 bytes, then the loop of Transfer and
  -- Upvote gathers the first ones of these outputs, with the sum of their values. The transaction
  -- that is built of them, if it is a transfer without a parent or an upvote whose parent passes
  -- the node's check, is signed, and the node that has this database accepts it. It pays the
  -- amount to the destination and all but the fee of the rest to the clerk.
  pub pay-accepted :
      (db : UtxoDb) (chain : List (Option Block)) (us : List UnspentTx) (sum : ℕ) (ins : List TxIn)
      → SignsWell c k
      → IsUtxoDb db
      → (get_unspent_txs db (pk_hash s k.pub_key)).0 ≡ us
      → All (λ (u : UnspentTx). length u.tx_hash ≡ 32) us
      → value_of us + 1 < 2 ^ 32
      → length destination ≡ 20
      → gather k.pub_key ((amount + tx_fee) % u32_mod) us 0 [] ≡ (sum, ins)
      → amount + tx_fee ≤ value_of us
      → IsAllowed chain (payment_tx s k type destination amount parent sum ins)
      → Gathered k.pub_key us 0 [] (sum, ins) × IsPaid db chain sum ins
  unfolding value_of
  pay-accepted db chain us sum ins signs kept query sized small addressed ran enough allowed =
      let w =
        subst (Gathered k.pub_key us 0 []) ran
          (gather-Gathered k.pub_key ((amount + tx_fee) % u32_mod) us 0 [] (omega arith)) in
      let (each, total, flag) = get_unspent_txs-holdings (pk_hash s k.pub_key) db kept in
      let owned =
        All-taken (Owned db (pk_hash s k.pub_key)) w.taken w.left
          (subst (All (Owned db (pk_hash s k.pub_key))) (query ∙ w.split) each) in
      let fits =
        All-taken (λ (u : UnspentTx). length u.tx_hash ≡ 32) w.taken w.left
          (subst (All (λ (u : UnspentTx). length u.tx_hash ≡ 32)) w.split sized) in
      let bound = value_of-left w.taken w.left in
      let reached : (amount + tx_fee) % u32_mod ≤ sum =
        subst (λ (r : ℕ × List TxIn). (amount + tx_fee) % u32_mod ≤ r.0) ran
          (gather_enough k.pub_key ((amount + tx_fee) % u32_mod) us 0 [] (omega arith)
            (omega (arith, enough, small))) in
      (
        w,
        taken-IsPaid db chain w.taken sum ins signs owned fits addressed (omega (arith, w.total))
            (omega (arith, w.total, bound, ap value_of w.split))
            (omega (arith, reached, enough, small)) w.inputs allowed,
      )
