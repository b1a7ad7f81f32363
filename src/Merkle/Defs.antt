-- ===== src/Merkle/Defs.antt =====
-- The functions of src/node/merkle.go. A row's empty places are nil, here `none`.
use dreddit.Base.{
  ℕ, zero, suc, ◌+◌, ◌-◌, ◌*◌, ◌^◌, List, [], ◌∷◌, Option, none, some, Bytes, ltb, ◌==◌, bit_and,
  if◌then◌else◌, length, get_elem?, set, replicate, elems, Result, ok, panic, out_of_fuel, ◌>>=◌,
  or_panic, index_out_of_range, negative_length,
}
use dreddit.Slice.{make_bytes, copy_slice}
use dreddit.Hash.{Scrypt, hash, hash_num_bytes}
use dreddit.Tx.Types.{Transaction}
use dreddit.Tx.Wire.{tx_hash}

-- `log2 n` stands for `uint(math.Log2(float64(n)))`.
unfoldable pub next_power_of_two : (ℕ → ℕ) → ℕ → ℕ
next_power_of_two log2 n = if bit_and n (n - 1) == 0 then n else 2 ^ (log2 n + 1)

unfoldable pub hash_merkle_branches : Scrypt → Bytes → Bytes → Result Bytes
hash_merkle_branches s left right = do
  d ← copy_slice 0 hash_num_bytes left (make_bytes (hash_num_bytes * 2))
  e ← copy_slice hash_num_bytes (hash_num_bytes * 2) right d
  ok (hash s e)

-- `merkles[i]` and `merkles[i] = v`
unfoldable pub load : ℕ → List (Option Bytes) → Result (Option Bytes)
load i m = or_panic (get_elem? m i) index_out_of_range

unfoldable pub store : ℕ → Option Bytes → List (Option Bytes) → Result (List (Option Bytes))
store i v m = if ltb i (length m) then ok (set m i v) else panic index_out_of_range

-- The first loop: the hash of each transaction, from place `i` on.
unfoldable pub store_leaves :
    Scrypt → List Transaction → ℕ → List (Option Bytes) → Result (List (Option Bytes))
unfolding store
store_leaves s [] i m = ok m
store_leaves s (tx ∷ txs) i m = do
  h ← tx_hash s tx
  m' ← store i (some h) m
  store_leaves s txs (suc i) m'

-- The `switch` of the second loop.
unfoldable pub parent_of : Scrypt → ℕ → List (Option Bytes) → Result (Option Bytes)
unfolding load hash_merkle_branches
parent_of s i m = load i m >>= λ l. elim l [
  | none ↦ ok none
  | some a ↦ load (i + 1) m >>= λ r. elim r [
    | none ↦ hash_merkle_branches s a a >>= λ h. ok (some h)
    | some b ↦ hash_merkle_branches s a b >>= λ h. ok (some h)
  ]
]

-- The second loop, on fuel: `i` goes up by two and `offset` by one.
unfoldable pub fill_parents :
    Scrypt → ℕ → ℕ → ℕ → List (Option Bytes) → Result (List (Option Bytes))
unfolding parent_of store
fill_parents s zero i offset m = out_of_fuel
fill_parents s (suc fuel) i offset m =
    let round =
      parent_of s i m >>= λ p. store offset p m >>= fill_parents s fuel (i + 2) (offset + 1) in
    if ltb i (length m - 1) then round else ok m

-- `length m` rounds of fuel are more than the loop's `(length m - 1) / 2` rounds.
-- The root is read by `bytes.Equal` alone, which takes nil for the empty slice.
unfoldable pub build_merkle_tree_store : (ℕ → ℕ) → Scrypt → List Transaction → Result Bytes
unfolding next_power_of_two store_leaves fill_parents
build_merkle_tree_store log2 s txs =
    let next_pot = next_power_of_two log2 (length txs) in
    let array_size = next_pot * 2 - 1 in
    if next_pot == 0 then panic negative_length else do
      m ← store_leaves s txs 0 (replicate array_size none)
      m' ← fill_parents s (length m) 0 next_pot m
      root ← load (length m' - 1) m'
      ok (elems root)
