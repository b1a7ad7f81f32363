-- ===== src/Utxo/Conserve.antt =====
-- `updateUtxoDb` moves exactly the inputs' worth to the outputs, for every set of owners.
use dreddit.Base.{
  ℕ, suc, ◌+◌, ◌%◌, ◌^◌, ◌≤◌, ◌≡◌, refl, Bool, false, ◌&&◌, List, [], ◌∷◌, Option, none, some,
  Bytes, bytes_equal, bytes_equal_refl, bytes_eq, nat_eq, if◌then◌else◌, elems, length, ok, ◌==◌,
  All, arith,
}
use dreddit.Slice.{u32_mod}
use dreddit.Dict.{lookup, insert, old_of, sum_of, sum_of-insert, lookup-insert}
use dreddit.Hash.{Scrypt}
use dreddit.Tx.Types.{TxIn, TxOut, Transaction}
use dreddit.Tx.Wire.{tx_hash}
use dreddit.Utxo.Defs.{
  UtxoOutput, UtxoEntry, UtxoDb, spend_all, entry_or_new, add_output, add_outputs, update_utxo_db,
}
use dreddit.Utxo.Spend.{worth, holdings, Unspent, Spent, spend-Spent}

-- Two inputs name the same output.
abbrev pub same_point : TxIn → TxIn → Bool
same_point t u =
    bytes_equal t.prev_tx_hash u.prev_tx_hash && (t.prev_tx_out_index == u.prev_tx_out_index)

-- No two inputs name the same output.
abbrev pub IsDistinct : List TxIn → Type 0
IsDistinct [] = Unit {0}
IsDistinct (t ∷ ts) = All (λ u. same_point t u ≡ false) ts × IsDistinct ts

-- The outputs that the inputs name, each unspent.
abbrev pub AreUnspent : UtxoDb → List TxIn → List UtxoOutput → Type 0
AreUnspent db [] [] = Unit {0}
AreUnspent db [] (o ∷ os) = ⊥
AreUnspent db (t ∷ ts) [] = ⊥
AreUnspent db (t ∷ ts) (o ∷ os) =
    Unspent db t.prev_tx_hash t.prev_tx_out_index o × AreUnspent db ts os

unfoldable pub worth_all : (Bytes → Bool) → List UtxoOutput → ℕ
worth_all p [] = 0
worth_all p (o ∷ os) = worth p o + worth_all p os

-- What a transaction pays the owners that `p` picks.
unfoldable pub paid : (Bytes → Bool) → List TxOut → ℕ
paid p [] = 0
paid p (o ∷ os) = (if p o.pub_key_hash then o.value else 0) + paid p os

record AllSpent (os : List UtxoOutput) (db db' : UtxoDb) : Type 0 where
  worth_less : (p : Bytes → Bool) → holdings p db' + worth_all p os ≡ holdings p db
  no_new_entry : (h : Bytes) → lookup h db ≡ none → lookup h db' ≡ none

Spent-AreUnspent :
    (t : TxIn) (o : UtxoOutput) {db db' : UtxoDb}
    → Spent t o db db'
    → (ts : List TxIn) (os : List UtxoOutput) → All (λ u. same_point t u ≡ false) ts
    → AreUnspent db ts os
    → AreUnspent db' ts os
Spent-AreUnspent t o sp [] [] far live = tt
Spent-AreUnspent t o sp [] (x ∷ os) far live = live
Spent-AreUnspent t o sp (u ∷ ts) [] far live = live
Spent-AreUnspent t o sp (u ∷ ts) (x ∷ os) far live = (
  sp.others_live u.prev_tx_hash u.prev_tx_out_index x far.0 live.0,
  Spent-AreUnspent t o sp ts os far.1 live.1,
)

spend_all-AllSpent :
    (ts : List TxIn) (os : List UtxoOutput) (db : UtxoDb)
    → AreUnspent db ts os
    → IsDistinct ts
    → (db' : UtxoDb) × (spend_all ts db ≡ ok db') × AllSpent os db db'
unfolding spend_all worth_all
spend_all-AllSpent [] [] db live far =
    (db, refl, record { worth_less = λ p. omega arith; no_new_entry = λ h e. e })
spend_all-AllSpent [] (o ∷ os) db live far = absurd live
spend_all-AllSpent (t ∷ ts) [] db live far = absurd live
spend_all-AllSpent (t ∷ ts) (o ∷ os) db live far =
    let (db1, spent, one) = spend-Spent t o db live.0 in
    let (db2, rest, all) =
      spend_all-AllSpent ts os db1 (Spent-AreUnspent t o one ts os far.0 live.1) far.1 in
    (
      db2,
      rw spent rest,
      record {
        worth_less = λ p. omega (arith, one.worth_less p, all.worth_less p);
        no_new_entry = λ h e. all.no_new_entry h (one.no_new_entry h e);
      },
    )

-- Distinct unspent outputs are worth at most what the database holds.
pub worth_all-le-holdings :
    (p : Bytes → Bool) (ts : List TxIn) (os : List UtxoOutput) (db : UtxoDb)
    → AreUnspent db ts os
    → IsDistinct ts
    → worth_all p os ≤ holdings p db
worth_all-le-holdings p ts os db live far =
    let (db', spent, all) = spend_all-AllSpent ts os db live far in omega (arith, all.worth_less p)

-- The output numbers from `idx` on are free in the entry of `h`.
abbrev IsFreeFrom : Bytes → ℕ → UtxoDb → Type 0
IsFreeFrom h idx db = (j : ℕ) → idx ≤ j → lookup j (entry_or_new (lookup h db)) ≡ none

old_of-entry :
    (p : Bytes → Bool) (e : Option UtxoEntry)
    → old_of (sum_of (worth p)) e ≡ sum_of (worth p) (entry_or_new e)
unfolding sum_of
old_of-entry p none = refl
old_of-entry p (some e) = refl

ne_of_lt : (i j : ℕ) → suc i ≤ j → (i == j) ≡ false
ne_of_lt i j h = ground arith

module _ (h : Bytes) (idx : ℕ) (o : TxOut) (db : UtxoDb) (small : suc idx ≤ 2 ^ 32)
    (free : IsFreeFrom h idx db) where
  abbrev entry : UtxoEntry
  entry = entry_or_new (lookup h db)

  abbrev fresh : UtxoOutput
  fresh = record { spent = false; pub_key_hash = o.pub_key_hash; value = o.value }

  index_fits : idx % u32_mod ≡ idx
  index_fits = omega arith

  free_index : lookup (idx % u32_mod) entry ≡ none
  free_index = rw index_fits (free idx (omega arith))

  add_output-holdings :
      (p : Bytes → Bool)
      → holdings p (add_output h idx o db)
        ≡ holdings p db + (if p o.pub_key_hash then o.value else 0)
  unfolding holdings add_output
  add_output-holdings p = omega (arith, in_entry, in_db, old_of-entry p (lookup h db))
    where
      in_entry :
          sum_of (worth p) (insert (idx % u32_mod) fresh entry) + 0
          ≡ sum_of (worth p) entry + (if p o.pub_key_hash then o.value else 0)
      in_entry = rw free_index at (sum_of-insert (worth p) (idx % u32_mod) fresh entry)

      in_db :
          sum_of (sum_of (worth p)) (insert h (insert (idx % u32_mod) fresh entry) db)
            + old_of (sum_of (worth p)) (lookup h db)
          ≡ sum_of (sum_of (worth p)) db + sum_of (worth p) (insert (idx % u32_mod) fresh entry)
      in_db = sum_of-insert (sum_of (worth p)) h (insert (idx % u32_mod) fresh entry) db

  add_output-IsFreeFrom : IsFreeFrom h (suc idx) (add_output h idx o db)
  unfolding add_output
  add_output-IsFreeFrom j le =
      rw
        (
          lookup-insert h h (insert (idx % u32_mod) fresh entry) db,
          bytes_equal_refl h,
          lookup-insert (idx % u32_mod) j fresh entry,
          index_fits,
          ne_of_lt idx j le,
        )
        (free j (omega arith))

add_outputs-holdings :
    (h : Bytes) (idx : ℕ) (os : List TxOut) (db : UtxoDb) (p : Bytes → Bool)
    → idx + length os ≤ 2 ^ 32
    → IsFreeFrom h idx db
    → holdings p (add_outputs h idx os db) ≡ holdings p db + paid p os
unfolding add_outputs paid
add_outputs-holdings h idx [] db p small free = omega arith
add_outputs-holdings h idx (o ∷ os) db p small free = omega (
  arith,
  add_output-holdings h idx o db (omega arith) free p,
  add_outputs-holdings h (suc idx) os (add_output h idx o db) p (omega arith)
      (add_output-IsFreeFrom h idx o db (omega arith) free),
)

no_entry-IsFreeFrom : (h : Bytes) (db : UtxoDb) → lookup h db ≡ none → IsFreeFrom h 0 db
unfolding lookup
no_entry-IsFreeFrom h db e j le = rw e

-- If a transaction's inputs name distinct unspent outputs, its hash is new to the database and it
-- has at most 2 ^ 32 outputs, then `updateUtxoDb` succeeds, and for every set of owners it takes
-- what the inputs were worth and adds what the outputs pay.
pub update_utxo_db-conserves :
    (s : Scrypt) (tx : Transaction) (db : UtxoDb) (os : List UtxoOutput) (h : Bytes)
    → tx_hash s tx ≡ ok h
    → lookup h db ≡ none
    → AreUnspent db (elems tx.tx_ins) os
    → IsDistinct (elems tx.tx_ins)
    → length tx.tx_outs ≤ 2 ^ 32
    → (db' : UtxoDb) × (update_utxo_db s tx db ≡ ok db')
      × ((p : Bytes → Bool) → holdings p db' + worth_all p os ≡ holdings p db + paid p tx.tx_outs)
unfolding update_utxo_db
update_utxo_db-conserves s tx db os h hashed new live far small =
    let (db1, spent, all) = spend_all-AllSpent (elems tx.tx_ins) os db live far in
    (
      add_outputs h 0 tx.tx_outs db1,
      rw (spent, hashed),
      λ p. omega (
        arith,
        all.worth_less p,
        add_outputs-holdings h 0 tx.tx_outs db1 p (omega arith)
            (no_entry-IsFreeFrom h db1 (all.no_new_entry h new)),
      ),
    )
