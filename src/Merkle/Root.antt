-- ===== src/Merkle/Root.antt =====
-- BuildMerkleTreeStore computes the Merkle root: the linear array against the tree row by row.
use mathlib.Core.Path.{subst, ap₂}
use mathlib.Core.List.{append_assoc}
use dreddit.Base.{
  ℕ, zero, suc, ◌+◌, ◌-◌, ◌*◌, ◌^◌, ◌≤◌, ◌<◌, ◌≡◌, refl, sym, ap, ◌∙◌, true, false, inl, inr, List,
  [], ◌∷◌, ◌++◌, Option, none, some, Bytes, ◌==◌, ==_iff, Bool-cases, length, map, replicate,
  bit_and, ok, length-append, length-replicate, length-map, replicate-append, ◌≢◌, arith,
}
use dreddit.Base.Bits.{pow_of_bit_and, bit_and-pow}
use dreddit.Hash.{Scrypt}
use dreddit.Tx.Types.{Transaction}
use dreddit.Tx.Wire.{tx_hash}
use dreddit.Merkle.Defs.{
  next_power_of_two, load, store, store_leaves, fill_parents, build_merkle_tree_store,
}
use dreddit.Merkle.Rows.{run-top, top-root, padded, root_of, pow_double, pow_pos}
use dreddit.Merkle.Loop.{branches, fill_parents-run, store-at, get_elem?-at}

-- What the program relies on of `uint(math.Log2(float64(n)))`.
abbrev pub IsLog2 : (ℕ → ℕ) → Type 0
IsLog2 log2 = (n : ℕ) → 1 ≤ n → n < 2 ^ 32 → (2 ^ log2 n ≤ n) × (n < 2 ^ (log2 n + 1))

-- If the logarithm is right below 2 ^ 32, then for a number from 1 to 2 ^ 32 - 1 the result is a
-- power of two that is at least the number and less than twice it.
pub next_power_of_two-least :
    (log2 : ℕ → ℕ) (n : ℕ)
    → IsLog2 log2
    → 1 ≤ n
    → n < 2 ^ 32
    → (k : ℕ) × (next_power_of_two log2 n ≡ 2 ^ k) × (n ≤ 2 ^ k) × (2 ^ k < 2 * n)
unfolding next_power_of_two
next_power_of_two-least log2 n good pos small = elim (Bool-cases (bit_and n (n - 1) == 0)) [
  | inl zero_and ↦
      let (k, p) = pow_of_bit_and n n (omega arith) pos ((==_iff _ 0).0 zero_and) in
      (k, rw zero_and p, omega (arith, p), omega (arith, p))
  | inr some_and ↦ (
    suc (log2 n),
    rw some_and (ap (λ (m : ℕ). 2 ^ m) (omega arith)),
    omega (arith, upper),
    omega (arith, pow_double (log2 n), (good n pos small).0, not_pow some_and),
  )
]
  where
    upper : n < 2 ^ suc (log2 n)
    upper = subst (λ (m : ℕ). n < 2 ^ m) {x = log2 n + 1} (omega arith) (good n pos small).1

    not_pow : (bit_and n (n - 1) == 0) ≡ false → n ≢ 2 ^ log2 n
    not_pow some_and e =
        clash ((==_iff _ 0).1 (ap (λ (m : ℕ). bit_and m (m - 1)) e ∙ bit_and-pow (log2 n))) some_and
      where
        clash : (bit_and n (n - 1) == 0) ≡ true → (bit_and n (n - 1) == 0) ≡ false → ⊥
        clash a b = cc

-- The hashes of the transactions, in order.
abbrev pub AreHashes : Scrypt → List Transaction → List Bytes → Type 0
AreHashes s [] [] = Unit {0}
AreHashes s [] (h ∷ hs) = ⊥
AreHashes s (tx ∷ txs) [] = ⊥
AreHashes s (tx ∷ txs) (h ∷ hs) = (tx_hash s tx ≡ ok h) × AreHashes s txs hs

length-AreHashes :
    (s : Scrypt) (txs : List Transaction) (hs : List Bytes)
    → AreHashes s txs hs
    → length hs ≡ length txs
length-AreHashes s [] [] a = refl
length-AreHashes s [] (h ∷ hs) a = absurd a
length-AreHashes s (tx ∷ txs) [] a = absurd a
length-AreHashes s (tx ∷ txs) (h ∷ hs) a = ap suc (length-AreHashes s txs hs a.1)

store_leaves-some :
    (s : Scrypt) (txs : List Transaction) (hs : List Bytes) (front : List (Option Bytes)) (i p : ℕ)
    → AreHashes s txs hs
    → i ≡ length front
    → store_leaves s txs i (front ++ replicate (length txs + p) none) ≡ ok (front ++ padded hs p)
unfolding store_leaves
store_leaves-some s [] [] front i p a e =
    ap (λ (n : ℕ). ok (front ++ replicate n none)) {y = p} (omega arith)
store_leaves-some s [] (h ∷ hs) front i p a e = absurd a
store_leaves-some s (tx ∷ txs) [] front i p a e = absurd a
store_leaves-some s (tx ∷ txs) (h ∷ hs) front i p a e = rw a.0 (
    rw stored (
      ap (store_leaves s txs (suc i))
        (sym (append_assoc front (some h ∷ []) (replicate (length txs + p) none)))
      ∙ store_leaves-some s txs hs (front ++ some h ∷ []) (suc i) p a.1
          (omega (arith, e, length-append front (some h ∷ [])))
      ∙ ap ok (append_assoc front (some h ∷ []) (padded hs p))))
  where
    stored :
        store i (some h) (front ++ replicate (suc (length txs) + p) none)
        ≡ ok (front ++ some h ∷ replicate (length txs + p) none)
    stored =
        ap (λ (n : ℕ). store i (some h) (front ++ replicate n none)) {y = suc (length txs + p)}
          (omega arith)
        ∙ store-at front (replicate (length txs + p) none) none (some h) i e

below_pow : (k : ℕ) → k < 2 ^ k
below_pow zero = omega arith
below_pow (suc k) = omega (arith, pow_double k, below_pow k)

low_rows : (k n : ℕ) → 2 ^ k < 2 * n → k < n
low_rows zero n h = omega arith
low_rows (suc k) n h = omega (arith, pow_double k, below_pow k)

length-padded : (hs : List Bytes) (p : ℕ) → length (padded hs p) ≡ length hs + p
length-padded hs p =
    length-append (map some hs) (replicate p none)
    ∙ ap₂ (λ (a b : ℕ). a + b) (length-map hs some) (length-replicate p none)

-- The array before the second loop, its free places for the parents written apart.
padded-split : (hs : List Bytes) (p r : ℕ) → padded hs (p + r) ≡ padded hs p ++ replicate r none
padded-split hs p r =
    ap (λ (l : List (Option Bytes)). map some hs ++ l) (sym (replicate-append p r none))
    ∙ sym (append_assoc (map some hs) (replicate p none) (replicate r none))

leaves :
    (s : Scrypt) (txs : List Transaction) (hs : List Bytes) (p r m : ℕ)
    → AreHashes s txs hs
    → m ≡ length txs + (p + r)
    → store_leaves s txs 0 (replicate m none) ≡ ok (padded hs p ++ replicate r none)
leaves s txs hs p r m a e =
    ap (λ (n : ℕ). store_leaves s txs 0 (replicate n none)) e
    ∙ store_leaves-some s txs hs [] 0 (p + r) a refl
    ∙ ap ok (padded-split hs p r)

-- The array after the second loop ends with the root of the rows.
parents :
    (s : Scrypt) (hs : List Bytes) (k : ℕ)
    → length hs ≤ 2 ^ k
    → 2 ^ k < 2 * length hs
    → (rest : List (Option Bytes)) × (fill_parents s
          (length (padded hs (2 ^ k - length hs) ++ replicate (2 ^ k - 1) none))
          0
          (2 ^ k)
          (padded hs (2 ^ k - length hs) ++ replicate (2 ^ k - 1) none)
        ≡ ok (rest ++ some (root_of (branches s) (length hs) hs) ∷ []))
parents s hs k le half =
    let q = padded hs (2 ^ k - length hs) in
    let lq = length-padded hs (2 ^ k - length hs) ∙ whole in
    let (rest, e) =
      fill_parents-run s (2 ^ k - 1) (length (q ++ replicate (2 ^ k - 1) none)) 0 (2 ^ k) [] q
        (omega (arith, lq, pow_pos k, length-append q (replicate (2 ^ k - 1) none)))
        (omega (arith, lq, pow_pos k)) refl (omega (arith, lq)) in
    (
      rest,
      e
          ∙ ap (λ (x : Option Bytes). ok (rest ++ x ∷ []))
              (run-top (branches s) k q lq ∙ top-root (branches s) k (length hs) hs deep le half),
    )
  where
    whole : length hs + (2 ^ k - length hs) ≡ 2 ^ k
    whole = omega arith

    deep : k < length hs
    deep = low_rows k (length hs) half

-- If the logarithm is right below 2 ^ 32, then `BuildMerkleTreeStore` returns, for 1 to 2 ^ 32 -
-- 1 transactions whose hashes are `hs`, the hash that is left when rows are formed of `hs` until
-- one hash is left.
pub build_merkle_tree_store-root_of :
    (log2 : ℕ → ℕ) (s : Scrypt) (txs : List Transaction) (hs : List Bytes)
    → IsLog2 log2
    → AreHashes s txs hs
    → 1 ≤ length txs
    → length txs < 2 ^ 32
    → build_merkle_tree_store log2 s txs ≡ ok (root_of (branches s) (length hs) hs)
unfolding build_merkle_tree_store load
build_merkle_tree_store-root_of log2 s txs hs good are pos small =
    let (k, p, le, half) = next_power_of_two-least log2 (length txs) good pos small in
    let count = length-AreHashes s txs hs are in
    let (rest, e) = parents s hs k (omega (arith, count)) (omega (arith, count)) in
    rw p (
      rw (some_places k) (
        rw
          (leaves s txs hs (2 ^ k - length hs) (2 ^ k - 1) (2 ^ k * 2 - 1) are
            (omega (arith, count, pow_pos k)))
          (rw e (
            rw (
              get_elem?-at rest [] (some (root_of (branches s) (length hs) hs))
                (length (rest ++ some (root_of (branches s) (length hs) hs) ∷ []) - 1)
                (omega (
                  arith,
                  length-append rest (some (root_of (branches s) (length hs) hs) ∷ []),
                )))))))
  where
    some_places : (k : ℕ) → (2 ^ k == 0) ≡ false
    some_places k = ground (arith, pow_pos k)
