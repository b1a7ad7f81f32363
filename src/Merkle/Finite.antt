-- ===== src/Merkle/Finite.antt =====
-- BuildMerkleTreeStore of src/node/merkle.go ends: its second loop has fuel for all its rounds.
use dreddit.Base.{
  ℕ, zero, suc, ◌+◌, ◌-◌, ◌*◌, ◌≤◌, ◌<◌, ◌≡◌, refl, ◌∙◌, List, [], ◌∷◌, Option, none, some, Bytes,
  ltb, ◌==◌, if◌then◌else◌, length, get_elem?, replicate, length-set, length-replicate, elems,
  arith, ok, panic, negative_length, ◌>>=◌, Ends, Any, Ends-map, Ends-then, Ends-found, Ends-bind,
  Ends-if,
}
use dreddit.Hash.{Scrypt}
use dreddit.Tx.Types.{Transaction}
use dreddit.Tx.Finite.{tx_hash-Ends, copy_slice-Ends}
use dreddit.Tx.Wire.{tx_hash}
use dreddit.Merkle.Defs.{
  next_power_of_two, hash_merkle_branches, load, store, store_leaves, parent_of, fill_parents,
  build_merkle_tree_store,
}

-- An array of the same length.
abbrev AsLong : List (Option Bytes) → List (Option Bytes) → Type 0
AsLong m m' = length m' ≡ length m

store-Ends : (i : ℕ) (v : Option Bytes) (m : List (Option Bytes)) → Ends (AsLong m) (store i v m)
unfolding store
store-Ends i v m =
    Ends-if (AsLong m) (ltb i (length m)) _ _ (λ inside. length-set m i v) (λ outside. tt)

module _ (s : Scrypt) where
  store_leaves-Ends :
      (txs : List Transaction) (i : ℕ) (m : List (Option Bytes))
      → Ends (AsLong m) (store_leaves s txs i m)
  unfolding store_leaves
  store_leaves-Ends [] i m = refl
  store_leaves-Ends (tx ∷ txs) i m =
      Ends-bind Any (AsLong m) (tx_hash s tx) _ (tx_hash-Ends s tx) (λ h hashed u.
        Ends-bind (AsLong m) (AsLong m) (store i (some h) m) _ (store-Ends i (some h) m)
          (λ m1 stored same.
            Ends-map (AsLong m1) (AsLong m) (store_leaves s txs (suc i) m1)
              (store_leaves-Ends txs (suc i) m1) (λ m2 same2. same2 ∙ same)))

  hash_merkle_branches-Ends : (left right : Bytes) → Ends Any (hash_merkle_branches s left right)
  unfolding hash_merkle_branches
  hash_merkle_branches-Ends left right =
      Ends-then _ _ (copy_slice-Ends _ _ left _)
        (λ d. Ends-then _ _ (copy_slice-Ends _ _ right d) (λ e. tt))

  parent_of-Ends : (i : ℕ) (m : List (Option Bytes)) → Ends Any (parent_of s i m)
  unfolding parent_of load
  parent_of-Ends i m = Ends-found (get_elem? m i) _ _ by_left
    where
      hashed : (a b : Bytes) → Ends Any (hash_merkle_branches s a b >>= λ h. ok (some h))
      hashed a b =
          Ends-then (hash_merkle_branches s a b) (λ h. ok (some h)) (hash_merkle_branches-Ends a b)
            (λ h. tt)

      by_right :
          (a : Bytes) (r : Option Bytes)
          → Ends Any (elim r [
            | none ↦ hash_merkle_branches s a a >>= λ h. ok (some h)
            | some b ↦ hash_merkle_branches s a b >>= λ h. ok (some h)
          ])
      by_right a none = hashed a a
      by_right a (some b) = hashed a b

      by_left :
          (l : Option Bytes)
          → Ends Any (elim l [
            | none ↦ ok none
            | some a ↦ load (i + 1) m >>= λ r. elim r [
              | none ↦ hash_merkle_branches s a a >>= λ h. ok (some h)
              | some b ↦ hash_merkle_branches s a b >>= λ h. ok (some h)
            ]
          ])
      by_left none = tt
      by_left (some a) = Ends-found (get_elem? m (i + 1)) _ _ (by_right a)

  fill_parents-Ends :
      (fuel i offset : ℕ) (m : List (Option Bytes))
      → length m + 1 ≤ i + 2 * fuel
      → (fuel ≡ 0 → i + 1 < length m)
      → Ends (AsLong m) (fill_parents s fuel i offset m)
  unfolding fill_parents
  fill_parents-Ends zero i offset m enough left =
      let lt : i + 1 < length m = left refl in absurd (omega (arith, enough, lt))
  fill_parents-Ends (suc fuel) i offset m enough left =
      Ends-if (AsLong m) (ltb i (length m - 1)) _ _
        (λ more. Ends-bind Any (AsLong m) (parent_of s i m) _ (parent_of-Ends i m) (λ p found u.
          Ends-bind (AsLong m) (AsLong m) (store offset p m) _ (store-Ends offset p m)
            (λ m1 stored same.
              let lt : i + 1 < length m = ground arith in
              Ends-map (AsLong m1) (AsLong m) (fill_parents s fuel (i + 2) (offset + 1) m1)
                (fill_parents-Ends fuel (i + 2) (offset + 1) m1 (omega (arith, same))
                  (λ none_left. absurd (omega (arith, none_left, lt))))
                (λ m2 same2. same2 ∙ same))))
        (λ done. refl)

  pub build_merkle_tree_store-Ends :
      (log2 : ℕ → ℕ) (txs : List Transaction) → Ends Any (build_merkle_tree_store log2 s txs)
  unfolding build_merkle_tree_store load
  build_merkle_tree_store-Ends log2 txs = sized (next_power_of_two log2 (length txs))
    where
      sized :
          (n : ℕ)
          → Ends Any (
              if n == 0
              then panic negative_length
              else (store_leaves s txs 0 (replicate (n * 2 - 1) none) >>= λ m.
                  fill_parents s (length m) 0 n m >>= λ m'.
                  load (length m' - 1) m' >>= λ root. ok (elems root)))
      sized n =
          Ends-if Any (n == 0) _ _ (λ empty. tt)
            (λ some_row.
              Ends-bind (AsLong (replicate (n * 2 - 1) none)) Any
                (store_leaves s txs 0 (replicate (n * 2 - 1) none)) _
                (store_leaves-Ends txs 0 (replicate (n * 2 - 1) none))
                (λ m stored same.
                  let positive : 1 ≤ length m =
                    ground (arith, same, length-replicate {A = Option Bytes} (n * 2 - 1) none) in
                  Ends-bind (AsLong m) Any (fill_parents s (length m) 0 n m) _
                    (fill_parents-Ends (length m) 0 n m (omega arith) (λ e. absurd (omega arith)))
                    (λ m' filled same'.
                      Ends-found (get_elem? m' (length m' - 1)) _ _ (λ root. tt))))
