-- ===== src/Slice/Fill.antt =====
-- Filling a fresh slice from left to right: each `copy` writes its source, cut or padded to size.
use dreddit.Base.{
  ℕ, zero, suc, ◌+◌, ◌-◌, ◌≤◌, ◌≡◌, refl, ap, ◌∙◌, sym, Bool, true, List, [], ◌∷◌, ◌++◌, Bytes, leb,
  le→leb, length, min, take, drop, replicate, Result, ok, panic, arith, take_all, take-append,
  length-append, length-take, length-replicate, drop-drop-append, drop-replicate,
}
use mathlib.Core.List.{append_assoc}
use dreddit.Slice.Defs.{make_bytes, copy_slice}

pub length-make_bytes : (n : ℕ) → length (make_bytes n) ≡ n
length-make_bytes n = length-replicate {A = ℕ} n 0

-- `src` cut to `k` bytes, or padded with zeros to `k` bytes
abbrev pub fit : ℕ → Bytes → Bytes
fit k src = take k src ++ make_bytes (k - length src)

pub fit_exact : (k : ℕ) (src : Bytes) → length src ≡ k → fit k src ≡ src
fit_exact k src h =
    ap (λ (n : ℕ). take k src ++ make_bytes n) {y = 0} (omega arith)
    ∙ append_nil_lem (take k src)
    ∙ take_all k src (omega arith)
  where
    append_nil_lem : (xs : Bytes) → xs ++ [] ≡ xs
    append_nil_lem xs = mathlib.Core.List.append-nil xs

pub length-fit : (k : ℕ) (src : Bytes) → length (fit k src) ≡ k
length-fit k src = omega (
  arith,
  length-append (take k src) (make_bytes (k - length src)),
  length-take k src,
  length-make_bytes (k - length src),
)

-- What is left of the zeros after `n` bytes of them are overwritten.
drop-zeros : (n m : ℕ) → n ≤ m → drop n (make_bytes m) ≡ make_bytes (m - n)
drop-zeros n m h = ap (λ (k : ℕ). drop n (make_bytes k)) (split n m h) ∙ drop-replicate n (m - n) 0
  where
    split : (n m : ℕ) → n ≤ m → m ≡ n + (m - n)
    split n m h = omega arith

zeros-split : (n m k : ℕ) → m ≡ n + k → make_bytes n ++ make_bytes k ≡ make_bytes m
zeros-split n m k h = dreddit.Base.replicate-append n k 0 ∙ ap make_bytes (sym h)

-- The next `copy` into a slice whose bytes from `lo` on are still zero.
pub copy_slice-fill :
    (lo hi r : ℕ) (src filled : Bytes)
    → length filled ≡ lo
    → lo ≤ hi
    → copy_slice lo hi src (filled ++ make_bytes (hi - lo + r))
      ≡ ok ((filled ++ fit (hi - lo) src) ++ make_bytes r)
unfolding copy_slice
copy_slice-fill lo hi r src filled h le =
    rw
      (
        le→leb lo hi le,
        le→leb hi (length (filled ++ make_bytes (hi - lo + r))) in_bounds,
        take-append lo filled (make_bytes (hi - lo + r)) h,
        drop-drop-append lo (min (hi - lo) (length src)) filled (make_bytes (hi - lo + r)) h,
        drop-zeros (min (hi - lo) (length src)) (hi - lo + r) (omega arith),
      )
      (ap (λ (z : Bytes). ok (filled ++ (take (hi - lo) src ++ z))) tail_split ∙ ap ok reassoc)
  where
    in_bounds : hi ≤ length (filled ++ make_bytes (hi - lo + r))
    in_bounds =
        omega
          (arith, length-append filled (make_bytes (hi - lo + r)), length-make_bytes (hi - lo + r))

    tail_split :
        make_bytes (hi - lo + r - min (hi - lo) (length src))
        ≡ make_bytes (hi - lo - length src) ++ make_bytes r
    tail_split = sym (zeros-split (hi - lo - length src) _ r (omega arith))

    reassoc :
        filled ++ (take (hi - lo) src ++ (make_bytes (hi - lo - length src) ++ make_bytes r))
        ≡ (filled ++ fit (hi - lo) src) ++ make_bytes r
    reassoc = simp append_assoc
