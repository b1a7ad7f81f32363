-- ===== src/Utxo/Query.antt =====
-- The query for the unspent outputs of a key, `GetUnspentTxs` of src/node/utxodb.go.
use dreddit.Base.{
  ℕ, ◌+◌, ◌≡◌, refl, sym, Bool, true, false, not, ◌&&◌, List, [], ◌∷◌, ◌++◌, none, some, Bytes,
  bytes_equal, bytes_equal_iff, bytes_eq, nat_eq, Bool-cases, inl, inr, All, All-append, All-map,
  ◌==◌, ==_iff, length, arith,
}
use dreddit.Dict.{lookup, sum_of, IsMap, lookup-older}
use dreddit.Utxo.Defs.{
  UtxoOutput, UtxoEntry, UtxoDb, UnspentTx, unspent_of, unspent_in, get_unspent_txs, lookup_output,
}
use dreddit.Utxo.Spend.{worth, holdings, Unspent, lookup-lookup_output}

-- The entry and the database as Go keeps them: a key stands once.
pub record IsUtxoDb (db : UtxoDb) : Type 0 where
  pub entries : IsMap db
  pub outputs : All (λ (x : Bytes × UtxoEntry). IsMap x.1) db

-- The answer names an unspent output of the key, with its value.
abbrev pub Owned : UtxoDb → Bytes → UnspentTx → Type 0
Owned db pkh u =
    (o : UtxoOutput) × Unspent db u.tx_hash u.tx_out_index o
    × (o.pub_key_hash ≡ pkh)
    × (o.value ≡ u.value)

abbrev InEntry : Bytes → UtxoEntry → Bytes → UnspentTx → Type 0
InEntry h e pkh u =
    (o : UtxoOutput) × (u.tx_hash ≡ h)
    × (lookup u.tx_out_index e ≡ some o)
    × (o.spent ≡ false)
    × (o.pub_key_hash ≡ pkh)
    × (o.value ≡ u.value)

-- The sum of the answers' values.
unfoldable pub value_of : List UnspentTx → ℕ
value_of [] = 0
value_of (u ∷ us) = u.value + value_of us

first_output :
    (k : Bytes) (i : ℕ) (h : Bytes) (e : UtxoEntry) (db : UtxoDb) (o : UtxoOutput)
    → h ≡ k
    → lookup i e ≡ some o
    → lookup_output k i ((h, e) ∷ db) ≡ some o
unfolding lookup_output lookup
first_output k i h e db o at there = rw ((bytes_equal_iff h k).1 at, lookup_output, lookup) there

later_output :
    (k : Bytes) (i : ℕ) (h : Bytes) (e : UtxoEntry) (db : UtxoDb) (o : UtxoOutput)
    → lookup h db ≡ none
    → lookup_output k i db ≡ some o
    → lookup_output k i ((h, e) ∷ db) ≡ some o
unfolding lookup_output lookup
later_output k i h e db o new there =
    let (x, at, inside) = lookup-lookup_output k i db o there in
    rw (lookup-older h k x e db new at, lookup_output) inside

module _ (pkh : Bytes) where
  abbrev pub its_own : Bytes → Bool
  its_own k = bytes_equal k pkh

  value_of-append : (us vs : List UnspentTx) → value_of (us ++ vs) ≡ value_of us + value_of vs
  unfolding value_of
  value_of-append [] vs = omega arith
  value_of-append (u ∷ us) vs = omega (arith, value_of-append us vs)

  unspent_of-worth :
      (h : Bytes) (e : UtxoEntry) → value_of (unspent_of pkh h e) ≡ sum_of (worth its_own) e
  unfolding value_of unspent_of sum_of
  unspent_of-worth h [] = refl
  unspent_of-worth h ((i, o) ∷ m) = ground (arith, unspent_of-worth h m)

  unspent_in-holdings : (db : UtxoDb) → value_of (unspent_in pkh db) ≡ holdings its_own db
  unfolding value_of unspent_in holdings sum_of
  unspent_in-holdings [] = refl
  unspent_in-holdings ((h, e) ∷ db) = omega (
    arith,
    value_of-append (unspent_of pkh h e) (unspent_in pkh db),
    unspent_of-worth h e,
    unspent_in-holdings db,
  )

  unspent_of-InEntry :
      (h : Bytes) (e : UtxoEntry) → IsMap e → All (InEntry h e pkh) (unspent_of pkh h e)
  unfolding unspent_of lookup
  unspent_of-InEntry h [] w = tt
  unspent_of-InEntry h ((i, o) ∷ m) w =
      elim (Bool-cases (not o.spent && bytes_equal o.pub_key_hash pkh)) [
        | inl mine ↦ rw mine (
          (
            o,
            refl,
            rw ((==_iff i i).1 refl),
            live o.spent (bytes_equal o.pub_key_hash pkh) mine,
            (bytes_equal_iff o.pub_key_hash pkh).0
                (owned o.spent (bytes_equal o.pub_key_hash pkh) mine),
            refl,
          ),
          later (unspent_of-InEntry h m w.1),
        )
        | inr other ↦ rw other (later (unspent_of-InEntry h m w.1))
      ]
    where
      live : (a b : Bool) → (not a && b) ≡ true → a ≡ false
      live a b h = ground arith

      owned : (a b : Bool) → (not a && b) ≡ true → b ≡ true
      owned a b h = ground arith

      later :
          All (InEntry h m pkh) (unspent_of pkh h m)
          → All (InEntry h ((i, o) ∷ m) pkh) (unspent_of pkh h m)
      later below =
          All-map
            (λ u (x, at, there, free, own, worth).
              (x, at, lookup-older i u.tx_out_index x o m w.0 there, free, own, worth))
            (unspent_of pkh h m) below

  unspent_in-Owned : (db : UtxoDb) → IsUtxoDb db → All (Owned db pkh) (unspent_in pkh db)
  unfolding unspent_in lookup_output
  unspent_in-Owned [] w = tt
  unspent_in-Owned ((h, e) ∷ db) w =
      All-append (Owned ((h, e) ∷ db) pkh) (unspent_of pkh h e) (unspent_in pkh db)
        (All-map
          (λ u (x, at, there, free, own, worth).
            (x, (first_output u.tx_hash u.tx_out_index h e db x (sym at) there, free), own, worth))
          (unspent_of pkh h e) (unspent_of-InEntry h e w.outputs.0))
        (All-map
          (λ u (x, (there, free), own, worth). (
            x,
            (later_output u.tx_hash u.tx_out_index h e db x w.entries.0 there, free),
            own,
            worth,
          ))
          (unspent_in pkh db)
          (unspent_in-Owned db (record { entries = w.entries.1; outputs = w.outputs.1 })))

  -- On a database whose maps hold a key once, `GetUnspentTxs` gives outputs that are there,
  -- unspent and the key's, with their values; the values sum up to all that the database holds
  -- for the key; and it reports success unless it gives none.
  pub get_unspent_txs-holdings :
      (db : UtxoDb)
      → IsUtxoDb db
      → All (Owned db pkh) (get_unspent_txs db pkh).0
        × (value_of (get_unspent_txs db pkh).0 ≡ holdings its_own db)
        × ((get_unspent_txs db pkh).1 ≡ not (length (get_unspent_txs db pkh).0 == 0))
  unfolding get_unspent_txs
  get_unspent_txs-holdings db w =
      (unspent_in-Owned db w, unspent_in-holdings db, reported (unspent_in pkh db))
    where
      reported :
          (us : List UnspentTx) → elim us [ [] ↦ false | ◌∷◌ x xs ↦ true ] ≡ not (length us == 0)
      reported [] = refl
      reported (u ∷ us) = ground arith
