-- ===== src/Utxo/Maps.antt =====
-- The maps of the database hold a key once: `updateUtxoDb` of src/node/miner.go keeps this.
use mathlib.Core.Path.{subst}
use dreddit.Base.{
  ℕ, ◌%◌, suc, ◌≡◌, refl, true, List, [], ◌∷◌, Option, none, some, Bytes, bytes_eq, nat_eq, Eq,
  Bool-cases, inl, inr, elems, All, ok, ok_injective, >>=-eq-ok, or_panic, or_panic-eq-ok,
  invalid_transaction, nil_dereference,
}
use dreddit.Dict.{Dict, lookup, insert, delete, IsMap, insert-IsMap, delete-IsMap}
use dreddit.Hash.{Scrypt}
use dreddit.Slice.{u32_mod}
use dreddit.Tx.Types.{TxIn, TxOut, Transaction}
use dreddit.Tx.Wire.{tx_hash}
use dreddit.Utxo.Defs.{
  UtxoEntry, UtxoDb, all_spent, spend, spend_all, entry_or_new, add_output, add_outputs,
  update_utxo_db,
}
use dreddit.Utxo.Query.{IsUtxoDb}

-- A predicate of every value of a map.
module _ {ℓ κ μ} {K : Type ℓ} {V : Type κ} ⦃e : Eq K⦄ (P : V → Type μ) where
  abbrev pub OfValues : Dict K V → Type μ
  OfValues m = All (λ (x : K × V). P x.1) m

  pub insert-OfValues : (k : K) (v : V) (m : Dict K V) → P v → OfValues m → OfValues (insert k v m)
  unfolding insert
  insert-OfValues k v [] p h = (p, tt)
  insert-OfValues k v ((j, w) ∷ m) p h = elim (Bool-cases (e.beq j k)) [
    | inl same ↦ rw same (p, h.1)
    | inr other ↦ rw other (h.0, insert-OfValues k v m p h.1)
  ]

  pub delete-OfValues : (k : K) (m : Dict K V) → OfValues m → OfValues (delete k m)
  unfolding delete
  delete-OfValues k [] h = tt
  delete-OfValues k ((j, w) ∷ m) h = elim (Bool-cases (e.beq j k)) [
    | inl same ↦ rw same h.1
    | inr other ↦ rw other (h.0, delete-OfValues k m h.1)
  ]

  pub lookup-OfValues : (k : K) (m : Dict K V) {v : V} → lookup k m ≡ some v → OfValues m → P v
  unfolding lookup
  lookup-OfValues k [] found h = cc
  lookup-OfValues k ((j, w) ∷ m) {v} found h = elim (Bool-cases (e.beq j k)) [
    | inl same ↦ subst P (some_value (rw (same, lookup) at found)) h.0
    | inr other ↦ lookup-OfValues k m (rw (other, lookup) at found) h.1
  ]
    where
      some_value : {a b : V} → some a ≡ some b → a ≡ b
      some_value q = cc

IsUtxoDb-insert :
    (h : Bytes) (e : UtxoEntry) (db : UtxoDb) → IsMap e → IsUtxoDb db → IsUtxoDb (insert h e db)
IsUtxoDb-insert h e db own w = record {
  entries = insert-IsMap h e db w.entries;
  outputs = insert-OfValues IsMap h e db own w.outputs;
}

spend-IsUtxoDb : (t : TxIn) (db db' : UtxoDb) → IsUtxoDb db → spend t db ≡ ok db' → IsUtxoDb db'
unfolding spend
spend-IsUtxoDb t db db' w run =
    let (entry, found, h1) =
      >>=-eq-ok (or_panic (lookup t.prev_tx_hash db) invalid_transaction) _ run in
    let (out, there, h2) =
      >>=-eq-ok (or_panic (lookup t.prev_tx_out_index entry) nil_dereference) _ h1 in
    let marked = insert t.prev_tx_out_index (record out { spent = true }) entry in
    let own =
      insert-IsMap t.prev_tx_out_index (record out { spent = true }) entry
        (lookup-OfValues IsMap t.prev_tx_hash db (or_panic-eq-ok _ invalid_transaction found)
          w.outputs) in
    subst IsUtxoDb (ok_injective h2) (elim (Bool-cases (all_spent marked)) [
      | inl gone ↦ rw gone (record {
        entries = delete-IsMap t.prev_tx_hash db w.entries;
        outputs = delete-OfValues IsMap t.prev_tx_hash db w.outputs;
      })
      | inr left ↦ rw left (IsUtxoDb-insert t.prev_tx_hash marked db own w)
    ])

spend_all-IsUtxoDb :
    (ts : List TxIn) (db db' : UtxoDb) → IsUtxoDb db → spend_all ts db ≡ ok db' → IsUtxoDb db'
unfolding spend_all
spend_all-IsUtxoDb [] db db' w run = subst IsUtxoDb (ok_injective run) w
spend_all-IsUtxoDb (t ∷ ts) db db' w run =
    let (next, one, more) = >>=-eq-ok (spend t db) _ run in
    spend_all-IsUtxoDb ts next db' (spend-IsUtxoDb t db next w one) more

entry_or_new-IsMap : (h : Bytes) (db : UtxoDb) → IsUtxoDb db → IsMap (entry_or_new (lookup h db))
entry_or_new-IsMap h db w = go (lookup h db) refl
  where
    go : (o : Option UtxoEntry) → lookup h db ≡ o → IsMap (entry_or_new o)
    go none q = tt
    go (some e) q = lookup-OfValues IsMap h db q w.outputs

add_outputs-IsUtxoDb :
    (h : Bytes) (idx : ℕ) (os : List TxOut) (db : UtxoDb)
    → IsUtxoDb db
    → IsUtxoDb (add_outputs h idx os db)
unfolding add_outputs add_output
add_outputs-IsUtxoDb h idx [] db w = w
add_outputs-IsUtxoDb h idx (o ∷ os) db w =
    add_outputs-IsUtxoDb h (suc idx) os (add_output h idx o db) (
      IsUtxoDb-insert h _ db
        (insert-IsMap (idx % u32_mod) _ (entry_or_new (lookup h db)) (entry_or_new-IsMap h db w)) w)

-- `updateUtxoDb` keeps the database's maps so that a key stands once.
pub update_utxo_db-IsUtxoDb :
    (s : Scrypt) (tx : Transaction) (db db' : UtxoDb)
    → IsUtxoDb db
    → update_utxo_db s tx db ≡ ok db'
    → IsUtxoDb db'
unfolding update_utxo_db
update_utxo_db-IsUtxoDb s tx db db' w run =
    let (spent, all, h1) = >>=-eq-ok (spend_all (elems tx.tx_ins) db) _ run in
    let (h, hashed, h2) = >>=-eq-ok (tx_hash s tx) _ h1 in
    subst IsUtxoDb (ok_injective h2) (
      add_outputs-IsUtxoDb h 0 tx.tx_outs spent
        (spend_all-IsUtxoDb (elems tx.tx_ins) db spent w all))
