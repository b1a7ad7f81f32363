-- ===== src/Node/Run/Entries.antt =====
-- The pending map of src/node/miner.go: every transaction node stands under its own hash.
use mathlib.Core.Path.{subst}
use dreddit.Base.{
  ◌≡◌, sym, ap, ◌∙◌, List, [], ◌∷◌, some, Bytes, bytes_eq, bytes_equal, bytes_equal_iff,
  if◌then◌else◌, Bool-cases, inl, inr, All, Option-cases, ◌==◌, ok, ◌>>=◌, ok_injective, >>=-eq-ok,
  or_panic, or_panic-eq-ok, nil_dereference,
}
use dreddit.Dict.{Dict, lookup, insert, IsMap, insert-IsMap}
use dreddit.Hash.{Scrypt}
use dreddit.Tx.Types.{Transaction, coinbase}
use dreddit.Tx.Wire.{tx_hash}
use dreddit.Utxo.Defs.{UtxoDb, update_utxo_db}
use dreddit.Utxo.Query.{IsUtxoDb}
use dreddit.Utxo.Maps.{update_utxo_db-IsUtxoDb}
use dreddit.Block.Defs.{Setting}
use dreddit.Node.Validate.{Ecdsa}
use dreddit.Node.State.{TxNode, Status, success, invalid, DrNode}
use dreddit.Node.Chain.SendBlock.{with_status, succeed, settle_txs}
use dreddit.Node.Collect.{collect_one-cases}
use dreddit.Node.Mine.{Batch, collect_one, collect, apply_mined}

abbrev pub Entries : Type 0
Entries = Dict Bytes TxNode

-- A key stands once, and it is the hash that its entry holds.
pub record IsKeyed (m : Entries) : Type 0 where
  pub once : IsMap m
  pub keyed : All (λ (x : Bytes × TxNode). x.1.hash ≡ x.0) m

insert-keyed :
    (h : Bytes) (t : TxNode) (m : Entries)
    → t.hash ≡ h
    → All (λ (x : Bytes × TxNode). x.1.hash ≡ x.0) m
    → All (λ (x : Bytes × TxNode). x.1.hash ≡ x.0) (insert h t m)
unfolding insert
insert-keyed h t [] own k = (own, tt)
insert-keyed h t ((j, w) ∷ m) own k = elim (Bool-cases (bytes_equal j h)) [
  | inl same ↦ rw same (own ∙ sym ((bytes_equal_iff j h).0 same), k.1)
  | inr other ↦ rw other (k.0, insert-keyed h t m own k.1)
]

pub insert-IsKeyed :
    (h : Bytes) (t : TxNode) (m : Entries) → t.hash ≡ h → IsKeyed m → IsKeyed (insert h t m)
insert-IsKeyed h t m own w = record {
  once = insert-IsMap h t m w.once;
  keyed = insert-keyed h t m own w.keyed;
}

lookup-keyed :
    (h : Bytes) (m : Entries) {t : TxNode}
    → lookup h m ≡ some t
    → All (λ (x : Bytes × TxNode). x.1.hash ≡ x.0) m
    → t.hash ≡ h
unfolding lookup
lookup-keyed h [] found k = cc
lookup-keyed h ((j, w) ∷ m) {t} found k = elim (Bool-cases (bytes_equal j h)) [
  | inl same ↦
      ap (λ (x : TxNode). x.hash) (sym (some_value (rw (same, lookup) at found)))
      ∙ k.0
      ∙ (bytes_equal_iff j h).0 same
  | inr other ↦ lookup-keyed h m (rw (other, lookup) at found) k.1
]
  where
    some_value : {a b : TxNode} → some a ≡ some b → a ≡ b
    some_value q = cc

-- An entry that is there gets another status.
pub restatus-IsKeyed :
    (h : Bytes) (st : Status) (m : Entries) {t : TxNode}
    → lookup h m ≡ some t
    → IsKeyed m
    → IsKeyed (insert h (with_status st t) m)
restatus-IsKeyed h st m {t} found w =
    insert-IsKeyed h (with_status st t) m (lookup-keyed h m found w.keyed) w

succeed-IsKeyed : (h : Bytes) (m : Entries) → IsKeyed m → IsKeyed (succeed h m)
unfolding succeed
succeed-IsKeyed h m w = elim (Option-cases (lookup h m)) [
  | inl absent ↦ rw (absent, succeed) w
  | inr (t, found) ↦ rw (found, succeed) (restatus-IsKeyed h success m found w)
]

-- Map and database after the transactions of a block.
abbrev pub AreSound : Entries × UtxoDb → Type 0
AreSound r = IsKeyed r.0 × IsUtxoDb r.1

pub settle_txs-AreSound :
    (s : Scrypt) (txs : List Transaction) (m : Entries) (db : UtxoDb) {r : Entries × UtxoDb}
    → AreSound (m, db)
    → settle_txs s txs m db ≡ ok r
    → AreSound r
unfolding settle_txs
settle_txs-AreSound s [] m db w run = subst AreSound (ok_injective run) w
settle_txs-AreSound s (tx ∷ txs) m db w run =
    let (m1, marked, h1) =
      >>=-eq-ok (if tx.type == coinbase then ok m else (tx_hash s tx >>= λ h. ok (succeed h m))) _
        run in
    let (db1, updated, h2) = >>=-eq-ok (update_utxo_db s tx db) _ h1 in
    settle_txs-AreSound s txs m1 db1
      (keep m1 marked, update_utxo_db-IsUtxoDb s tx db db1 w.1 updated) h2
  where
    keep :
        (m1 : Entries)
        → (if tx.type == coinbase then ok m else (tx_hash s tx >>= λ h. ok (succeed h m))) ≡ ok m1
        → IsKeyed m1
    keep m1 marked = elim (Bool-cases (tx.type == coinbase)) [
      | inl reward ↦ subst IsKeyed (ok_injective (rw reward at marked)) w.0
      | inr plain ↦
          let (h, hashed, h1) = >>=-eq-ok (tx_hash s tx) _ (rw plain at marked) in
          subst IsKeyed (ok_injective h1) (succeed-IsKeyed h m w.0)
    ]

pub apply_mined-AreSound :
    (s : Scrypt) (ts : List TxNode) (m : Entries) (db : UtxoDb) {r : Entries × UtxoDb}
    → AreSound (m, db)
    → apply_mined s ts m db ≡ ok r
    → AreSound r
unfolding apply_mined
apply_mined-AreSound s [] m db w run = subst AreSound (ok_injective run) w
apply_mined-AreSound s (t ∷ ts) m db w run =
    let (entry, found, h1) = >>=-eq-ok (or_panic (lookup t.hash m) nil_dereference) _ run in
    let (db1, updated, h2) = >>=-eq-ok (update_utxo_db s t.tx db) _ h1 in
    apply_mined-AreSound s ts (insert t.hash (with_status success entry) m) db1
      (
        restatus-IsKeyed t.hash success m (or_panic-eq-ok _ nil_dereference found) w.0,
        update_utxo_db-IsUtxoDb s t.tx db db1 w.1 updated,
      )
      h2

module _ (g : Setting) (c : Ecdsa) (n : DrNode) where
  pub collect-IsKeyed :
      (m : Entries) (batch batch' : Batch)
      → All (λ (x : Bytes × TxNode). x.1.hash ≡ x.0) m
      → IsKeyed batch.pending_txs
      → collect g c n m batch ≡ ok batch'
      → IsKeyed batch'.pending_txs
  unfolding collect
  collect-IsKeyed [] batch batch' own before run =
      subst (λ (x : Batch). IsKeyed x.pending_txs) (ok_injective run) before
  collect-IsKeyed ((h, t) ∷ m) batch batch' own before run =
      let (next, one, more) = >>=-eq-ok (collect_one g c n h t batch) _ run in
      collect-IsKeyed m next batch' own.1
        (elim (collect_one-cases g c n h t batch next one) [
          | inl skipped ↦ subst (λ (x : Batch). IsKeyed x.pending_txs) (sym skipped.same) before
          | inr (inl taken) ↦ subst (λ (x : Batch). IsKeyed x.pending_txs) (sym taken.grown) before
          | inr (inr marked) ↦
              subst (λ (x : Batch). IsKeyed x.pending_txs) (sym marked.struck)
                (insert-IsKeyed h (with_status invalid t) batch.pending_txs own.0 before)
        ])
        more
