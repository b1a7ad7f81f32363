-- ===== src/Node/Run/Fate.antt =====
-- What a round of `mine` in src/node/miner.go does to one entry of the pending map.
use mathlib.Core.Path.{subst}
use dreddit.Base.{
  ◌≡◌, ◌⊎◌, refl, sym, ap, ◌∙◌, Bool, true, false, List, [], ◌∷◌, ◌++◌, none, some, Bytes, bytes_eq,
  bytes_equal, bytes_equal_iff, Bool-cases, inl, inr, ◌||◌, Error, All, ok, err, ok_injective,
  >>=-eq-ok, or_panic, nil_dereference, arith,
}
use dreddit.Dict.{lookup, insert, IsMap, lookup-insert}
use dreddit.Hash.{Scrypt}
use dreddit.Utxo.Defs.{UtxoDb, update_utxo_db}
use dreddit.Block.Defs.{Setting}
use dreddit.Node.Validate.{Ecdsa, validate_transaction}
use dreddit.Node.State.{TxNode, success, invalid, DrNode}
use dreddit.Node.Chain.SendBlock.{with_status}
use dreddit.Node.Collect.{collect_one-cases}
use dreddit.Node.Mine.{Batch, is_pending, collect_one, collect, apply_mined}
use dreddit.Node.Run.Entries.{Entries}

-- A transaction node with this hash is among the nodes.
unfoldable pub has_node : Bytes → List TxNode → Bool
has_node h [] = false
has_node h (t ∷ ts) = bytes_equal t.hash h || has_node h ts

has_node-append :
    (h : Bytes) (ts : List TxNode) (t : TxNode)
    → has_node h (ts ++ t ∷ []) ≡ (bytes_equal t.hash h || has_node h ts)
unfolding has_node
has_node-append h [] t = refl
has_node-append h (u ∷ ts) t = ground (arith, has_node-append h ts t)

either_false : (a : Bool) {b : Bool} → (a || b) ≡ false → (a ≡ false) × (b ≡ false)
either_false false e = (refl, e)
either_false true e = cc

-- The entry under `h` is there and has succeeded.
abbrev pub Succeeded : Bytes → Entries → Type 0
Succeeded h m = (t : TxNode) × (lookup h m ≡ some (with_status success t))

lookup-insert_same :
    (k h : Bytes) (v : TxNode) (m : Entries)
    → bytes_equal k h ≡ true
    → lookup h (insert k v m) ≡ some v
lookup-insert_same k h v m same = lookup-insert k h v m ∙ rw same refl

lookup-insert_other :
    (k h : Bytes) (v : TxNode) (m : Entries)
    → bytes_equal k h ≡ false
    → lookup h (insert k v m) ≡ lookup h m
lookup-insert_other k h v m other = lookup-insert k h v m ∙ rw other refl

insert-Succeeded :
    (k h : Bytes) (v : TxNode) (m : Entries)
    → Succeeded h m
    → Succeeded h (insert k (with_status success v) m)
insert-Succeeded k h v m (t, found) = elim (Bool-cases (bytes_equal k h)) [
  | inl same ↦ (v, lookup-insert_same k h (with_status success v) m same)
  | inr other ↦ (t, lookup-insert_other k h (with_status success v) m other ∙ found)
]

module _ (s : Scrypt) (h : Bytes) where
  apply_mined-Succeeded :
      (ts : List TxNode) (m : Entries) (db : UtxoDb) {r : Entries × UtxoDb}
      → apply_mined s ts m db ≡ ok r
      → Succeeded h m
      → Succeeded h r.0
  unfolding apply_mined
  apply_mined-Succeeded [] m db run done =
      subst (λ (x : Entries × UtxoDb). Succeeded h x.0) (ok_injective run) done
  apply_mined-Succeeded (t ∷ ts) m db run done =
      let (entry, found, h1) = >>=-eq-ok (or_panic (lookup t.hash m) nil_dereference) _ run in
      let (db1, updated, h2) = >>=-eq-ok (update_utxo_db s t.tx db) _ h1 in
      apply_mined-Succeeded ts (insert t.hash (with_status success entry) m) db1 h2
        (insert-Succeeded t.hash h entry m done)

  -- A mined transaction succeeds.
  pub apply_mined-marks :
      (ts : List TxNode) (m : Entries) (db : UtxoDb) {r : Entries × UtxoDb}
      → apply_mined s ts m db ≡ ok r
      → has_node h ts ≡ true
      → Succeeded h r.0
  unfolding apply_mined has_node
  apply_mined-marks [] m db run there = cc
  apply_mined-marks (t ∷ ts) m db run there =
      let (entry, found, h1) = >>=-eq-ok (or_panic (lookup t.hash m) nil_dereference) _ run in
      let (db1, updated, h2) = >>=-eq-ok (update_utxo_db s t.tx db) _ h1 in
      elim (Bool-cases (bytes_equal t.hash h)) [
        | inl same ↦
            apply_mined-Succeeded ts (insert t.hash (with_status success entry) m) db1 h2
              (entry, lookup-insert_same t.hash h (with_status success entry) m same)
        | inr other ↦
            apply_mined-marks ts (insert t.hash (with_status success entry) m) db1 h2
              (rw other at there)
      ]

  -- An entry that is not mined stays as it is.
  pub apply_mined-spares :
      (ts : List TxNode) (m : Entries) (db : UtxoDb) {r : Entries × UtxoDb}
      → apply_mined s ts m db ≡ ok r
      → has_node h ts ≡ false
      → lookup h r.0 ≡ lookup h m
  unfolding apply_mined has_node
  apply_mined-spares [] m db run absent =
      ap (λ (x : Entries × UtxoDb). lookup h x.0) (sym (ok_injective run))
  apply_mined-spares (t ∷ ts) m db run absent =
      let (entry, found, h1) = >>=-eq-ok (or_panic (lookup t.hash m) nil_dereference) _ run in
      let (db1, updated, h2) = >>=-eq-ok (update_utxo_db s t.tx db) _ h1 in
      apply_mined-spares ts (insert t.hash (with_status success entry) m) db1 h2
        (either_false (bytes_equal t.hash h) absent).1
      ∙ lookup-insert_other t.hash h (with_status success entry) m
          (either_false (bytes_equal t.hash h) absent).0

module _ (g : Setting) (c : Ecdsa) (n : DrNode) (h : Bytes) where
  -- Neither entry nor batch knows more of `h` than before.
  abbrev Spared : Batch → Batch → Type 0
  Spared batch batch' =
      (lookup h batch'.pending_txs ≡ lookup h batch.pending_txs)
      × (has_node h batch'.tx_nodes ≡ has_node h batch.tx_nodes)

  -- The entry `t` under `h` is in the batch, or marked as invalid.
  abbrev pub Fate : TxNode → Batch → Type 0
  Fate t batch =
      ((has_node h batch.tx_nodes ≡ true)
        × (validate_transaction g.scrypt c n.utxo n.blockchain t.tx ≡ ok tt))
      ⊎ ((has_node h batch.tx_nodes ≡ false)
          × (lookup h batch.pending_txs ≡ some (with_status invalid t))
          × ((e : Error) × (validate_transaction g.scrypt c n.utxo n.blockchain t.tx ≡ err e)))

  collect_one-Spared :
      (k : Bytes) (t : TxNode) (batch batch' : Batch)
      → t.hash ≡ k
      → bytes_equal k h ≡ false
      → collect_one g c n k t batch ≡ ok batch'
      → Spared batch batch'
  collect_one-Spared k t batch batch' own other run =
      elim (collect_one-cases g c n k t batch batch' run) [
        | inl skipped ↦ rw skipped.same (refl, refl)
        | inr (inl taken) ↦
            rw taken.grown (refl, has_node-append h batch.tx_nodes t ∙ rw (own, other) refl)
        | inr (inr marked) ↦
            rw marked.struck
              (lookup-insert_other k h (with_status invalid t) batch.pending_txs other, refl)
      ]

  collect-Spared :
      (m : Entries) (batch batch' : Batch)
      → All (λ (x : Bytes × TxNode). x.1.hash ≡ x.0) m
      → lookup h m ≡ none
      → collect g c n m batch ≡ ok batch'
      → Spared batch batch'
  unfolding collect lookup
  collect-Spared [] batch batch' own absent run = rw (sym (ok_injective run)) (refl, refl)
  collect-Spared ((k, t) ∷ m) batch batch' own absent run =
      let (next, one, more) = >>=-eq-ok (collect_one g c n k t batch) _ run in
      elim (Bool-cases (bytes_equal k h)) [
        | inl same ↦ absurd (clash (rw (same, lookup) at absent))
        | inr other ↦
            let (kept, out) = collect_one-Spared k t batch next own.0 other one in
            let (kept', out') =
              collect-Spared m next batch' own.1 (rw (other, lookup) at absent) more in
            (kept' ∙ kept, out' ∙ out)
      ]
    where
      clash : {t : TxNode} → some t ≡ none → ⊥
      clash q = cc

  Spared-Fate :
      (t : TxNode) (batch batch' : Batch) → Spared batch batch' → Fate t batch → Fate t batch'
  Spared-Fate t batch batch' (kept, out) (inl (there, valid)) = inl (out ∙ there, valid)
  Spared-Fate t batch batch' (kept, out) (inr (absent, struck, refused)) =
      inr (out ∙ absent, kept ∙ struck, refused)

  collect_one-Fate :
      (k : Bytes) (t : TxNode) (batch batch' : Batch)
      → t.hash ≡ k
      → bytes_equal k h ≡ true
      → is_pending t.status ≡ true
      → has_node h batch.tx_nodes ≡ false
      → collect_one g c n k t batch ≡ ok batch'
      → Fate t batch'
  collect_one-Fate k t batch batch' own same waiting fresh run =
      elim (collect_one-cases g c n k t batch batch' run) [
        | inl skipped ↦ absurd (clash (sym waiting ∙ skipped.settled))
        | inr (inl taken) ↦
            subst (Fate t) (sym taken.grown)
              (inl (has_node-append h batch.tx_nodes t ∙ rw (own, same) refl, taken.valid))
        | inr (inr marked) ↦ subst (Fate t) (sym marked.struck) (
            inr (
              fresh,
              lookup-insert_same k h (with_status invalid t) batch.pending_txs same,
              marked.refused,
            ))
      ]
    where
      clash : true ≡ false → ⊥
      clash q = cc

  -- A pending entry is decided by the collection.
  pub collect-Fate :
      (m : Entries) (batch batch' : Batch) {w : TxNode}
      → IsMap m
      → All (λ (x : Bytes × TxNode). x.1.hash ≡ x.0) m
      → lookup h m ≡ some w
      → is_pending w.status ≡ true
      → has_node h batch.tx_nodes ≡ false
      → collect g c n m batch ≡ ok batch'
      → Fate w batch'
  unfolding collect lookup
  collect-Fate [] batch batch' once own found waiting fresh run = cc
  collect-Fate ((k, t) ∷ m) batch batch' {w} once own found waiting fresh run =
      let (next, one, more) = >>=-eq-ok (collect_one g c n k t batch) _ run in
      elim (Bool-cases (bytes_equal k h)) [
        | inl same ↦
            Spared-Fate w next batch'
              (collect-Spared m next batch' own.1
                (subst (λ (x : Bytes). lookup x m ≡ none) ((bytes_equal_iff k h).0 same) once.0)
                more)
              (subst (λ (x : TxNode). Fate x next) (some_value (rw (same, lookup) at found))
                (collect_one-Fate k t batch next own.0 same
                  (rw (some_value (rw (same, lookup) at found)) waiting) fresh one))
        | inr other ↦
            let (kept, out) = collect_one-Spared k t batch next own.0 other one in
            collect-Fate m next batch' once.1 own.1 (rw (other, lookup) at found) waiting
              (out ∙ fresh) more
      ]
    where
      some_value : {a b : TxNode} → some a ≡ some b → a ≡ b
      some_value q = cc
