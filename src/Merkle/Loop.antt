-- ===== src/Merkle/Loop.antt =====
-- The two loops of BuildMerkleTreeStore over the linear array.
use mathlib.Core.List.{append_assoc, append-nil}
use dreddit.Base.{
  ℕ, zero, suc, ◌+◌, ◌-◌, ◌≤◌, ◌<◌, ◌≡◌, refl, sym, ap, ◌∙◌, true, false, List, [], ◌∷◌, ◌++◌,
  Option, none, some, Bytes, ltb, length, get_elem?, set, replicate, ok, length-append, arith,
}
use dreddit.Slice.{fit, length-fit}
use dreddit.Hash.{Scrypt, hash}
use dreddit.Merkle.Defs.{hash_merkle_branches, load, store, parent_of, fill_parents}
use dreddit.Merkle.Rows.{up, run}
use dreddit.Slice.Fill.{copy_slice-fill}

pub get_elem?-at {ℓ} :
    {A : Type ℓ} (xs ys : List A) (y : A) (i : ℕ)
    → i ≡ length xs
    → get_elem? (xs ++ y ∷ ys) i ≡ some y
get_elem?-at [] ys y zero e = refl
get_elem?-at [] ys y (suc i) e = absurd (omega arith)
get_elem?-at (x ∷ xs) ys y zero e = absurd (omega arith)
get_elem?-at (x ∷ xs) ys y (suc i) e = get_elem?-at xs ys y i (omega arith)

get_elem?-next {ℓ} :
    {A : Type ℓ} (xs ys : List A) (x y : A) (i : ℕ)
    → i ≡ length xs
    → get_elem? (xs ++ (x ∷ y ∷ ys)) (i + 1) ≡ some y
get_elem?-next xs ys x y i e =
    ap (λ (l : List _). get_elem? l (i + 1)) (sym (append_assoc xs (x ∷ []) (y ∷ ys)))
    ∙ get_elem?-at (xs ++ x ∷ []) ys y (i + 1) (omega (arith, length-append xs (x ∷ [])))

set-at {ℓ} :
    {A : Type ℓ} (xs ys : List A) (y v : A) (i : ℕ)
    → i ≡ length xs
    → set (xs ++ y ∷ ys) i v ≡ xs ++ v ∷ ys
set-at [] ys y v zero e = refl
set-at [] ys y v (suc i) e = absurd (omega arith)
set-at (x ∷ xs) ys y v zero e = absurd (omega arith)
set-at (x ∷ xs) ys y v (suc i) e = ap (◌∷◌ x) (set-at xs ys y v i (omega arith))

lt_test : (a b : ℕ) → a < b → ltb a b ≡ true
lt_test a b h = ground arith

ge_test : (a b : ℕ) → b ≤ a → ltb a b ≡ false
ge_test a b h = ground arith

pub store-at :
    (xs ys : List (Option Bytes)) (y v : Option Bytes) (i : ℕ)
    → i ≡ length xs
    → store i v (xs ++ y ∷ ys) ≡ ok (xs ++ v ∷ ys)
unfolding store
store-at xs ys y v i e = rw (
  lt_test i (length (xs ++ y ∷ ys)) (omega (arith, length-append xs (y ∷ ys))),
  set-at xs ys y v i e,
)

module _ (s : Scrypt) where
  -- The hash of two branches, each cut or padded to 32 bytes.
  unfoldable pub branches : Bytes → Bytes → Bytes
  branches a b = hash s (fit 32 a ++ fit 32 b)

  hash_merkle_branches-branches : (a b : Bytes) → hash_merkle_branches s a b ≡ ok (branches a b)
  unfolding hash_merkle_branches branches
  hash_merkle_branches-branches a b = rw (copy_slice-fill 0 32 32 a [] refl (omega arith)) (
      rw (copy_slice-fill 32 64 0 b (fit 32 a) (length-fit 32 a) (omega arith))
        (ap (λ (x : Bytes). ok (hash s x)) (append-nil (fit 32 a ++ fit 32 b))))

  parent_of-up :
      (i : ℕ) (xs ys : List (Option Bytes)) (x y : Option Bytes)
      → i ≡ length xs
      → parent_of s i (xs ++ x ∷ y ∷ ys) ≡ ok (up branches x y)
  unfolding parent_of load
  parent_of-up i xs ys none y e = rw (get_elem?-at xs (y ∷ ys) none i e)
  parent_of-up i xs ys (some a) none e =
      rw (get_elem?-at xs (none ∷ ys) (some a) i e, get_elem?-next xs ys (some a) none i e)
        (rw (hash_merkle_branches-branches a a))
  parent_of-up i xs ys (some a) (some b) e =
      rw (get_elem?-at xs (some b ∷ ys) (some a) i e, get_elem?-next xs ys (some a) (some b) i e)
        (rw (hash_merkle_branches-branches a b))

  -- The loop works the queue `q` off: the root comes last in the array.
  pub fill_parents-run :
      (r fuel i offset : ℕ) (front q : List (Option Bytes))
      → r < fuel
      → length q ≡ suc r
      → i ≡ length front
      → offset ≡ length front + length q
      → (rest : List (Option Bytes)) × (fill_parents s fuel i offset
            (front ++ (q ++ replicate r none))
          ≡ ok (rest ++ run branches r q ∷ []))
  unfolding fill_parents
  fill_parents-run r zero i offset front q lt lq ei eo = absurd (omega arith)
  fill_parents-run zero (suc fuel) i offset front [] lt lq ei eo = absurd (omega arith)
  fill_parents-run zero (suc fuel) i offset front (x ∷ y ∷ q) lt lq ei eo = absurd (omega arith)
  fill_parents-run zero (suc fuel) i offset front (x ∷ []) lt lq ei eo = (
    front,
    rw (ge_test i (length (front ++ x ∷ []) - 1) (omega (arith, length-append front (x ∷ [])))),
  )
  fill_parents-run (suc r) (suc fuel) i offset front [] lt lq ei eo = absurd (omega arith)
  fill_parents-run (suc r) (suc fuel) i offset front (x ∷ []) lt lq ei eo = absurd (omega arith)
  fill_parents-run (suc r) (suc fuel) i offset front (x ∷ y ∷ q) lt lq ei eo =
      let (rest, e) =
        fill_parents-run r fuel (i + 2) (offset + 1) (front ++ x ∷ y ∷ []) (q ++ v ∷ [])
          (omega arith) (omega (arith, length-append q (v ∷ [])))
          (omega (arith, length-append front (x ∷ y ∷ [])))
          (omega (arith, length-append front (x ∷ y ∷ []), length-append q (v ∷ []))) in
      (rest, rw (in_loop, parent_of-up i front (q ++ none ∷ replicate r none) x y ei) (rw stored e))
    where
      v : Option Bytes
      v = up branches x y

      in_loop : ltb i (length (front ++ (x ∷ y ∷ (q ++ none ∷ replicate r none))) - 1) ≡ true
      in_loop = lt_test i (length (front ++ (x ∷ y ∷ (q ++ none ∷ replicate r none))) - 1) (
          omega (
            arith,
            length-append front (x ∷ y ∷ (q ++ none ∷ replicate r none)),
            length-append q (none ∷ replicate r none),
          ))

      stored :
          store offset v (front ++ (x ∷ y ∷ (q ++ none ∷ replicate r none)))
          ≡ ok ((front ++ x ∷ y ∷ []) ++ ((q ++ v ∷ []) ++ replicate r none))
      stored =
          ap (store offset v) (sym (append_assoc front (x ∷ y ∷ q) (none ∷ replicate r none)))
          ∙ store-at (front ++ (x ∷ y ∷ q)) (replicate r none) none v offset
              (omega (arith, length-append front (x ∷ y ∷ q)))
          ∙ ap ok (simp append_assoc)
