-- ===== src/Utxo/Spend.antt =====
-- What one spent input does to the database: to the worth of what is unspent, and to other outputs.
use dreddit.Base.{
  ℕ, ◌+◌, ◌≡◌, refl, sym, ap, ◌∙◌, Bool, true, false, ◌&&◌, inl, inr, [], ◌∷◌, none, some, Bytes,
  bytes_equal, bytes_equal_iff, bytes_equal_refl, bytes_eq, nat_eq, if◌then◌else◌, Bool-cases,
  Option-cases, ok, ◌==◌, arith,
}
use dreddit.Dict.{
  lookup, insert, delete, sum_of, sum_of-insert, sum_of-delete, lookup-insert, lookup-delete_ne,
}
use dreddit.Tx.Types.{TxIn}
use dreddit.Utxo.Defs.{UtxoOutput, UtxoEntry, UtxoDb, all_spent, spend, lookup_output}

-- What an output is worth to the owners that `p` picks; a spent one is worth nothing.
abbrev pub worth : (Bytes → Bool) → UtxoOutput → ℕ
worth p o = if o.spent then 0 else if p o.pub_key_hash then o.value else 0

-- What the database holds, unspent, for the owners that `p` picks.
unfoldable pub holdings : (Bytes → Bool) → UtxoDb → ℕ
holdings p db = sum_of (sum_of (worth p)) db

-- The output is there and unspent.
abbrev pub Unspent : UtxoDb → Bytes → ℕ → UtxoOutput → Type 0
Unspent db h i o = (lookup_output h i db ≡ some o) × (o.spent ≡ false)

pub lookup-lookup_output :
    (h : Bytes) (i : ℕ) (db : UtxoDb) (o : UtxoOutput)
    → lookup_output h i db ≡ some o
    → (e : UtxoEntry) × (lookup h db ≡ some e) × (lookup i e ≡ some o)
unfolding lookup_output
lookup-lookup_output h i db o p = elim (Option-cases (lookup h db)) [
  | inl a ↦ absurd (none_some (rw (a, lookup_output) at p))
  | inr (e, a) ↦ (e, a, (rw (a, lookup_output) at p))
]
  where
    none_some : none ≡ some o → ⊥
    none_some q = cc

all_spent-worth : (p : Bytes → Bool) (e : UtxoEntry) → all_spent e ≡ true → sum_of (worth p) e ≡ 0
unfolding all_spent sum_of
all_spent-worth p [] h = refl
all_spent-worth p ((i, o) ∷ m) h = ground (arith, all_spent-worth p m)

all_spent-lookup :
    (i : ℕ) (o : UtxoOutput) (e : UtxoEntry)
    → all_spent e ≡ true
    → lookup i e ≡ some o
    → o.spent ≡ true
unfolding all_spent lookup
all_spent-lookup i o [] h k = cc
all_spent-lookup i o ((j, x) ∷ m) h k = ground (arith, all_spent-lookup i o m)

-- The entry after the output is marked, and the database with it.
abbrev marked : TxIn → UtxoOutput → UtxoEntry → UtxoEntry
marked t o e = insert t.prev_tx_out_index (record o { spent = true }) e

abbrev settled : TxIn → UtxoOutput → UtxoEntry → UtxoDb → UtxoDb
settled t o e db =
    if all_spent (marked t o e)
    then delete t.prev_tx_hash db
    else insert t.prev_tx_hash (marked t o e) db

module _ (t : TxIn) (db : UtxoDb) (o : UtxoOutput) (e : UtxoEntry)
    (at_hash : lookup t.prev_tx_hash db ≡ some e)
    (at_index : lookup t.prev_tx_out_index e ≡ some o) where
  spend-settled : spend t db ≡ ok (settled t o e db)
  unfolding spend
  spend-settled = rw (at_hash, at_index)

  settled-holdings : (p : Bytes → Bool) → holdings p (settled t o e db) + worth p o ≡ holdings p db
  unfolding holdings
  settled-holdings p = elim (Bool-cases (all_spent (marked t o e))) [
    | inl all ↦ rw all (omega (arith, in_entry, deleted, all_spent-worth p (marked t o e) all))
    | inr left ↦ rw left (omega (arith, in_entry, inserted))
  ]
    where
      in_entry : sum_of (worth p) (marked t o e) + worth p o ≡ sum_of (worth p) e
      in_entry = omega (
        arith,
        (rw at_index at
            (sum_of-insert (worth p) t.prev_tx_out_index (record o { spent = true }) e)),
      )

      deleted :
          sum_of (sum_of (worth p)) (delete t.prev_tx_hash db) + sum_of (worth p) e
          ≡ sum_of (sum_of (worth p)) db
      deleted = rw at_hash at (sum_of-delete (sum_of (worth p)) t.prev_tx_hash db)

      inserted :
          sum_of (sum_of (worth p)) (insert t.prev_tx_hash (marked t o e) db) + sum_of (worth p) e
          ≡ sum_of (sum_of (worth p)) db + sum_of (worth p) (marked t o e)
      inserted = rw at_hash at (sum_of-insert (sum_of (worth p)) t.prev_tx_hash (marked t o e) db)

  lookup-settled_ne :
      (h : Bytes) → bytes_equal t.prev_tx_hash h ≡ false → lookup h (settled t o e db) ≡ lookup h db
  lookup-settled_ne h ne = ground (
    arith,
    lookup-insert t.prev_tx_hash h (marked t o e) db,
    lookup-delete_ne t.prev_tx_hash h db ne,
  )

  lookup-settled_none : (h : Bytes) → lookup h db ≡ none → lookup h (settled t o e db) ≡ none
  lookup-settled_none h absent = elim (Bool-cases (bytes_equal t.prev_tx_hash h)) [
    | inl same ↦ absurd (clash ((bytes_equal_iff t.prev_tx_hash h).0 same))
    | inr other ↦ lookup-settled_ne h other ∙ absent
  ]
    where
      clash : t.prev_tx_hash ≡ h → ⊥
      clash eq = cc (ap (λ (k : Bytes). lookup k db) eq)

  lookup-marked_ne :
      (i : ℕ) (x : UtxoOutput)
      → (t.prev_tx_out_index == i) ≡ false
      → lookup i e ≡ some x
      → lookup i (marked t o e) ≡ some x
  lookup-marked_ne i x ne there =
      rw (lookup-insert t.prev_tx_out_index i (record o { spent = true }) e, ne) there

  -- An unspent output that is left keeps its entry in the database.
  lookup-settled_self :
      (i : ℕ) (x : UtxoOutput)
      → lookup i (marked t o e) ≡ some x
      → x.spent ≡ false
      → lookup t.prev_tx_hash (settled t o e db) ≡ some (marked t o e)
  lookup-settled_self i x there live = elim (Bool-cases (all_spent (marked t o e))) [
    | inl all ↦ absurd (true_false (sym (all_spent-lookup i x (marked t o e) all there) ∙ live))
    | inr left ↦ rw left (
        rw (
          lookup-insert t.prev_tx_hash t.prev_tx_hash (marked t o e) db,
          bytes_equal_refl t.prev_tx_hash,
        ))
  ]
    where
      true_false : true ≡ false → ⊥
      true_false q = cc

  pub settled-keeps :
      (h : Bytes) (i : ℕ) (x : UtxoOutput)
      → (bytes_equal t.prev_tx_hash h && (t.prev_tx_out_index == i)) ≡ false
      → Unspent db h i x
      → Unspent (settled t o e db) h i x
  unfolding lookup_output
  settled-keeps h i x ne (there, live) = elim (Bool-cases (bytes_equal t.prev_tx_hash h)) [
    | inl same ↦ (keeps_same ((bytes_equal_iff t.prev_tx_hash h).0 same) (rw same at ne), live)
    | inr other ↦ (rw (lookup-settled_ne h other, lookup_output) there, live)
  ]
    where
      in_entry : t.prev_tx_hash ≡ h → lookup i e ≡ some x
      in_entry eq = rw (← eq, at_hash, lookup_output) at there

      keeps_same :
          t.prev_tx_hash ≡ h
          → (t.prev_tx_out_index == i) ≡ false
          → lookup_output h i (settled t o e db) ≡ some x
      keeps_same eq ne' =
          let m = lookup-marked_ne i x ne' (in_entry eq) in
          rw (← eq) (rw (lookup-settled_self i x m live, lookup_output) m)

pub record Spent (t : TxIn) (o : UtxoOutput) (db db' : UtxoDb) : Type 0 where
  pub worth_less : (p : Bytes → Bool) → holdings p db' + worth p o ≡ holdings p db
  pub others_live :
      (h : Bytes) (i : ℕ) (x : UtxoOutput)
      → (bytes_equal t.prev_tx_hash h && (t.prev_tx_out_index == i)) ≡ false
      → Unspent db h i x
      → Unspent db' h i x
  pub no_new_entry : (h : Bytes) → lookup h db ≡ none → lookup h db' ≡ none

pub spend-Spent :
    (t : TxIn) (o : UtxoOutput) (db : UtxoDb)
    → Unspent db t.prev_tx_hash t.prev_tx_out_index o
    → (db' : UtxoDb) × (spend t db ≡ ok db') × Spent t o db db'
spend-Spent t o db (there, live) =
    let (e, at_hash, at_index) =
      lookup-lookup_output t.prev_tx_hash t.prev_tx_out_index db o there in
    (
      settled t o e db,
      spend-settled t db o e at_hash at_index,
      record {
        worth_less = settled-holdings t db o e at_hash at_index;
        others_live = settled-keeps t db o e at_hash at_index;
        no_new_entry = lookup-settled_none t db o e at_hash at_index;
      },
    )
