-- ===== src/Utxo/Defs.antt =====
-- The database of unspent outputs. An entry's outputs and the entries are Go maps.
-- No two entries share an output, so the pointers of the source are values here.
use dreddit.Base.{
  ℕ, ◌%◌, suc, Bool, true, false, not, ◌&&◌, List, [], ◌∷◌, ◌++◌, Option, none, some, Bytes,
  bytes_equal, bytes_eq, nat_eq, if◌then◌else◌, elems, Result, ok, ◌>>=◌, or_panic,
  invalid_transaction, nil_dereference,
}
use dreddit.Slice.{u32_mod}
use dreddit.Dict.{Dict, lookup, insert, delete}
use dreddit.Hash.{Scrypt}
use dreddit.Tx.Types.{TxIn, TxOut, Transaction}
use dreddit.Tx.Wire.{tx_hash}

pub record UtxoOutput : Type 0 where
  pub spent : Bool
  pub pub_key_hash : Bytes
  pub value : ℕ

-- UtxoEntry: its one field
abbrev pub UtxoEntry : Type 0
UtxoEntry = Dict ℕ UtxoOutput

-- UtxoDb: its one field
abbrev pub UtxoDb : Type 0
UtxoDb = Dict Bytes UtxoEntry

pub record UnspentTx : Type 0 where
  pub tx_hash : Bytes
  pub tx_out_index : ℕ
  pub value : ℕ

-- The outputs of one entry that are unspent and belong to the key.
unfoldable pub unspent_of : Bytes → Bytes → UtxoEntry → List UnspentTx
unspent_of pkh h [] = []
unspent_of pkh h ((i, o) ∷ m) =
    let rest = unspent_of pkh h m in
    if not o.spent && bytes_equal o.pub_key_hash pkh
    then record { tx_hash = h; tx_out_index = i; value = o.value } ∷ rest
    else rest

unfoldable pub unspent_in : Bytes → UtxoDb → List UnspentTx
unspent_in pkh [] = []
unspent_in pkh ((h, e) ∷ db) = unspent_of pkh h e ++ unspent_in pkh db

unfoldable pub get_unspent_txs : UtxoDb → Bytes → List UnspentTx × Bool
unfolding unspent_in unspent_of
get_unspent_txs db pkh =
    let out = unspent_in pkh db in (out, elim out [ [] ↦ false | ◌∷◌ x xs ↦ true ])

-- The scan of `updateUtxoDb` for an output that is left.
unfoldable pub all_spent : UtxoEntry → Bool
all_spent [] = true
all_spent ((i, o) ∷ m) = o.spent && all_spent m

-- One round of the loop over the inputs.
unfoldable pub spend : TxIn → UtxoDb → Result UtxoDb
unfolding all_spent
spend t db = do
  entry ← or_panic (lookup t.prev_tx_hash db) invalid_transaction
  out ← or_panic (lookup t.prev_tx_out_index entry) nil_dereference
  let entry' = insert t.prev_tx_out_index (record out { spent = true }) entry
  ok (if all_spent entry' then delete t.prev_tx_hash db else insert t.prev_tx_hash entry' db)

unfoldable pub spend_all : List TxIn → UtxoDb → Result UtxoDb
spend_all [] db = ok db
spend_all (t ∷ ts) db = spend t db >>= spend_all ts

abbrev pub entry_or_new : Option UtxoEntry → UtxoEntry
entry_or_new none = []
entry_or_new (some e) = e

-- One round of the loop over the outputs.
unfoldable pub add_output : Bytes → ℕ → TxOut → UtxoDb → UtxoDb
add_output h idx o db =
    insert h
      (insert (idx % u32_mod)
        (record { spent = false; pub_key_hash = o.pub_key_hash; value = o.value })
        (entry_or_new (lookup h db)))
      db

unfoldable pub add_outputs : Bytes → ℕ → List TxOut → UtxoDb → UtxoDb
add_outputs h idx [] db = db
add_outputs h idx (o ∷ os) db = add_outputs h (suc idx) os (add_output h idx o db)

unfoldable pub update_utxo_db : Scrypt → Transaction → UtxoDb → Result UtxoDb
update_utxo_db s tx db = do
  db' ← spend_all (elems tx.tx_ins) db
  h ← tx_hash s tx
  ok (add_outputs h 0 tx.tx_outs db')

-- The output that an input names.
unfoldable pub lookup_output : Bytes → ℕ → UtxoDb → Option UtxoOutput
lookup_output h i db = elim (lookup h db) [ none ↦ none | some e ↦ lookup i e ]
