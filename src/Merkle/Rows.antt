-- ===== src/Merkle/Rows.antt =====
-- The Merkle tree row by row, and the linear array as a queue that the loop works off.
use mathlib.Core.List.{append_assoc, append-nil}
use native.Mathlib.Nat.{pow-suc}
use dreddit.Base.{
  ℕ, zero, suc, ◌+◌, ◌-◌, ◌*◌, ◌^◌, ◌≤◌, ◌<◌, ◌≡◌, refl, sym, ap, ◌∙◌, List, [], ◌∷◌, ◌++◌, Option,
  none, some, ◌⊎◌, inl, inr, Bytes, length, map, replicate, arith,
}

pub pow_double : (k : ℕ) → 2 ^ suc k ≡ 2 ^ k * 2
pow_double k = pow-suc 2 k

pub pow_pos : (k : ℕ) → 1 ≤ 2 ^ k
pow_pos zero = omega arith
pow_pos (suc k) = omega (arith, pow_double k, pow_pos k)

-- The hashes of a row, and empty places after them.
abbrev pub padded : List Bytes → ℕ → List (Option Bytes)
padded xs p = map some xs ++ replicate p none

-- A row that starts with its hashes and goes on with empty places: `up` joins two of its places.
module _ (c : Bytes → Bytes → Bytes) where
  abbrev pub up : Option Bytes → Option Bytes → Option Bytes
  up none y = none
  up (some a) none = some (c a a)
  up (some a) (some b) = some (c a b)

  abbrev pub ups : List (Option Bytes) → List (Option Bytes)
  ups [] = []
  ups (x ∷ []) = up x none ∷ []
  ups (x ∷ y ∷ xs) = up x y ∷ ups xs

  -- The row above a row of hashes: the last one of an odd row is paired with itself.
  unfoldable pub row : List Bytes → List Bytes
  row [] = []
  row (a ∷ []) = c a a ∷ []
  row (a ∷ b ∷ xs) = c a b ∷ row xs

  -- The Merkle root: rows are formed until one hash is left.
  unfoldable pub root_of : ℕ → List Bytes → Bytes
  unfolding row
  root_of zero xs = []
  root_of (suc fuel) [] = []
  root_of (suc fuel) (a ∷ []) = a
  root_of (suc fuel) (a ∷ b ∷ xs) = root_of fuel (row (a ∷ b ∷ xs))

  -- `r` rounds of the loop: the first two places leave the queue and their parent joins it.
  abbrev pub run : ℕ → List (Option Bytes) → Option Bytes
  run zero [] = none
  run zero (x ∷ q) = x
  run (suc r) [] = none
  run (suc r) (x ∷ []) = none
  run (suc r) (x ∷ y ∷ q) = run r (q ++ up x y ∷ [])

  -- The place at the top of `k` rows.
  abbrev pub top : ℕ → List (Option Bytes) → Option Bytes
  top zero [] = none
  top zero (x ∷ xs) = x
  top (suc k) xs = top k (ups xs)

  run-row :
      (j r : ℕ) (xs acc : List (Option Bytes))
      → length xs ≡ j * 2
      → run (j + r) (xs ++ acc) ≡ run r (acc ++ ups xs)
  run-row zero r [] acc e =
      ap (λ (n : ℕ). run n acc) {y = r} (omega arith) ∙ ap (run r) (sym (append-nil acc))
  run-row zero r (x ∷ xs) acc e = absurd (omega arith)
  run-row (suc j) r [] acc e = absurd (omega arith)
  run-row (suc j) r (x ∷ []) acc e = absurd (omega arith)
  run-row (suc j) r (x ∷ y ∷ xs) acc e =
      ap (λ (n : ℕ). run n (x ∷ y ∷ xs ++ acc)) {y = suc (j + r)} (omega arith)
      ∙ ap (run (j + r)) (append_assoc xs acc (up x y ∷ []))
      ∙ run-row j r xs (acc ++ up x y ∷ []) (omega arith)
      ∙ ap (run r) (append_assoc acc (up x y ∷ []) (ups xs))

  length-ups : (j : ℕ) (xs : List (Option Bytes)) → length xs ≡ j * 2 → length (ups xs) ≡ j
  length-ups zero [] e = refl
  length-ups zero (x ∷ xs) e = absurd (omega arith)
  length-ups (suc j) [] e = absurd (omega arith)
  length-ups (suc j) (x ∷ []) e = absurd (omega arith)
  length-ups (suc j) (x ∷ y ∷ xs) e = ap suc (length-ups j xs (omega arith))

  pub run-top :
      (k : ℕ) (xs : List (Option Bytes)) → length xs ≡ 2 ^ k → run (2 ^ k - 1) xs ≡ top k xs
  run-top zero [] e = refl
  run-top zero (x ∷ xs) e = refl
  run-top (suc k) xs e =
      ap (λ (n : ℕ). run n xs) {y = 2 ^ k + (2 ^ k - 1)} (omega (arith, pow_double k, pow_pos k))
      ∙ ap (run (2 ^ k + (2 ^ k - 1))) (sym (append-nil xs))
      ∙ run-row (2 ^ k) (2 ^ k - 1) xs [] (omega (arith, pow_double k))
      ∙ run-top k (ups xs) (length-ups (2 ^ k) xs (omega (arith, pow_double k)))

  pub length-row :
      (xs : List Bytes) → (length (row xs) * 2 ≡ length xs) ⊎ (length (row xs) * 2 ≡ length xs + 1)
  unfolding row
  length-row [] = inl refl
  length-row (a ∷ []) = inr refl
  length-row (a ∷ b ∷ xs) = omega (arith, length-row xs)

  ups-nones : (j : ℕ) → ups (replicate (j * 2) none) ≡ replicate j none
  ups-nones zero = refl
  ups-nones (suc j) =
      ap (λ (n : ℕ). ups (replicate n none)) {y = suc (suc (j * 2))} (omega arith)
      ∙ ap (◌∷◌ none) (ups-nones j)

  ups-padded :
      (xs : List Bytes) (p j : ℕ)
      → length xs + p ≡ j * 2
      → ups (padded xs p) ≡ padded (row xs) (j - length (row xs))
  unfolding row
  ups-padded [] p j e =
      ap (λ (n : ℕ). ups (replicate n none)) {y = j * 2} (omega arith)
      ∙ ups-nones j
      ∙ ap (λ (n : ℕ). replicate n none) (omega arith)
  ups-padded (a ∷ []) zero j e = absurd (omega arith)
  ups-padded (a ∷ []) (suc p) j e =
      ap (◌∷◌ (some (c a a)))
        (ap (λ (n : ℕ). ups (replicate n none)) {y = (j - 1) * 2} (omega arith) ∙ ups-nones (j - 1))
  ups-padded (a ∷ b ∷ xs) p zero e = absurd (omega arith)
  ups-padded (a ∷ b ∷ xs) p (suc j) e =
      ap (◌∷◌ (some (c a b)))
        (ups-padded xs p j (omega arith) ∙ ap (λ (n : ℕ). padded (row xs) n) (omega arith))

  -- A row of `n` hashes in `2 ^ k` places, of which more than half are taken, has its root at the
  -- top.
  pub top-root :
      (k fuel : ℕ) (xs : List Bytes)
      → k < fuel
      → length xs ≤ 2 ^ k
      → 2 ^ k < 2 * length xs
      → top k (padded xs (2 ^ k - length xs)) ≡ some (root_of fuel xs)
  unfolding root_of
  top-root k fuel [] lt le half = absurd (omega arith)
  top-root zero zero (a ∷ xs) lt le half = absurd (omega arith)
  top-root zero (suc fuel) (a ∷ []) lt le half = refl
  top-root zero (suc fuel) (a ∷ b ∷ xs) lt le half = absurd (omega arith)
  top-root (suc k) zero (a ∷ xs) lt le half = absurd (omega arith)
  top-root (suc k) (suc fuel) (a ∷ []) lt le half = absurd (omega (arith, pow_double k, pow_pos k))
  top-root (suc k) (suc fuel) (a ∷ b ∷ xs) lt le half =
      ap (top k) (
        ups-padded (a ∷ b ∷ xs) (2 ^ suc k - length (a ∷ b ∷ xs)) (2 ^ k)
          (omega (arith, pow_double k)))
      ∙ top-root k fuel (row (a ∷ b ∷ xs)) (omega arith)
          (omega (arith, pow_double k, length-row (a ∷ b ∷ xs)))
          (omega (arith, pow_double k, length-row (a ∷ b ∷ xs)))
