-- ===== src/Tx/Preimage.antt =====
-- What is hashed: with validated components the packed bytes are the plain concatenation of fields.
use mathlib.Core.List.{append_assoc, append-nil}
use dreddit.Base.{
  ℕ, ◌+◌, ◌-◌, ◌≤◌, ◌≡◌, refl, sym, ap, ◌∙◌, List, [], ◌∷◌, ◌++◌, Bytes, ◌==◌, ==_iff, length,
  elems, All, Result, ok, require, for_each, >>=-eq-ok, require-eq-ok, arith, Error, length-append,
  out_pub_key_hash_size, in_prev_tx_hash_size,
}
use dreddit.Slice.{make_bytes, copy_slice, copy_slice-fill, fit_exact}
use dreddit.Hash.{Scrypt, hash}
use dreddit.Tx.Types.{TxIn, TxOut, Transaction}
use dreddit.Tx.Wire.{
  pack_int, tx_in_pack, tx_in_pack_no_sig, tx_out_pack, pack_each, tx_hash, validate_components,
  tx_hash_no_sig,
}

-- The next `copy` of a source that has the very size of its place.
pub copy_next :
    (lo hi total : ℕ) (src filled : Bytes)
    → length filled ≡ lo
    → lo + length src ≡ hi
    → hi ≤ total
    → copy_slice lo hi src (filled ++ make_bytes (total - lo))
      ≡ ok ((filled ++ src) ++ make_bytes (total - hi))
copy_next lo hi total src filled h k le =
    ap (λ (n : ℕ). copy_slice lo hi src (filled ++ make_bytes n)) {y = hi - lo + (total - hi)}
      (omega arith)
    ∙ copy_slice-fill lo hi (total - hi) src filled h (omega arith)
    ∙ ap (λ (z : Bytes). ok ((filled ++ z) ++ make_bytes (total - hi)))
        (fit_exact (hi - lo) src (omega arith))

pub copy_first :
    (hi total : ℕ) (src : Bytes)
    → length src ≡ hi
    → hi ≤ total
    → copy_slice 0 hi src (make_bytes total) ≡ ok (src ++ make_bytes (total - hi))
copy_first hi total src k le =
    ap (λ (n : ℕ). copy_slice 0 hi src (make_bytes n)) {y = total - 0} (omega arith)
    ∙ copy_next 0 hi total src [] refl (omega arith) le

pub copy_last :
    (lo hi total : ℕ) (src filled : Bytes)
    → length filled ≡ lo
    → lo + length src ≡ hi
    → total ≡ hi
    → copy_slice lo hi src (filled ++ make_bytes (total - lo)) ≡ ok (filled ++ src)
copy_last lo hi total src filled h k e =
    copy_next lo hi total src filled h k (omega arith)
    ∙ ap (λ (n : ℕ). ok ((filled ++ src) ++ make_bytes n)) {y = 0} (omega arith)
    ∙ ap ok (append-nil (filled ++ src))

-- The fields of an input, one after the other.
unfoldable pub tx_in_bytes : TxIn → Bytes
tx_in_bytes t = ((t.prev_tx_hash ++ pack_int t.prev_tx_out_index) ++ t.sig) ++ t.pub_key

unfoldable pub tx_in_bytes_no_sig : TxIn → Bytes
tx_in_bytes_no_sig t = (t.prev_tx_hash ++ pack_int t.prev_tx_out_index) ++ t.pub_key

unfoldable pub tx_out_bytes : TxOut → Bytes
tx_out_bytes t = pack_int t.value ++ t.pub_key_hash

pub length-pack_int : (n : ℕ) → length (pack_int n) ≡ 4
unfolding pack_int
length-pack_int n = refl

-- An output point's 36 bytes.
module _ (t : TxIn) (h : length t.prev_tx_hash ≡ 32) where
  abbrev point : Bytes
  point = t.prev_tx_hash ++ pack_int t.prev_tx_out_index

  length-point : length point ≡ 36
  length-point = omega (
    arith,
    length-append t.prev_tx_hash (pack_int t.prev_tx_out_index),
    length-pack_int t.prev_tx_out_index,
  )

  copy_hash :
      (total : ℕ)
      → 32 ≤ total
      → copy_slice 0 32 t.prev_tx_hash (make_bytes total)
        ≡ ok (t.prev_tx_hash ++ make_bytes (total - 32))
  copy_hash total le = copy_first 32 total t.prev_tx_hash h le

  copy_index :
      (total : ℕ)
      → 36 ≤ total
      → copy_slice 32 36 (pack_int t.prev_tx_out_index) (t.prev_tx_hash ++ make_bytes (total - 32))
        ≡ ok (point ++ make_bytes (total - 36))
  copy_index total le =
      copy_next 32 36 total (pack_int t.prev_tx_out_index) t.prev_tx_hash h
        (omega (arith, length-pack_int t.prev_tx_out_index)) le

  tx_in_pack-bytes : tx_in_pack t ≡ ok (tx_in_bytes t)
  unfolding tx_in_pack tx_in_bytes
  tx_in_pack-bytes =
      rw (copy_hash total (omega arith), copy_index total (omega arith), copy_sig)
        (copy_last (36 + length t.sig) (36 + length t.sig + length t.pub_key) total t.pub_key
          (point ++ t.sig) (omega (arith, length-append point t.sig, length-point)) refl
          (omega arith))
    where
      total : ℕ
      total = length t.prev_tx_hash + 4 + length t.sig + length t.pub_key

      copy_sig :
          copy_slice 36 (36 + length t.sig) t.sig (point ++ make_bytes (total - 36))
          ≡ ok ((point ++ t.sig) ++ make_bytes (total - (36 + length t.sig)))
      copy_sig = copy_next 36 (36 + length t.sig) total t.sig point length-point refl (omega arith)

  tx_in_pack_no_sig-bytes : tx_in_pack_no_sig t ≡ ok (tx_in_bytes_no_sig t)
  unfolding tx_in_pack_no_sig tx_in_bytes_no_sig
  tx_in_pack_no_sig-bytes =
      rw (copy_hash total (omega arith), copy_index total (omega arith))
        (copy_last 36 (36 + length t.pub_key) total t.pub_key point length-point refl (omega arith))
    where
      total : ℕ
      total = length t.prev_tx_hash + 4 + length t.pub_key

tx_out_pack-bytes : (t : TxOut) → length t.pub_key_hash ≡ 20 → tx_out_pack t ≡ ok (tx_out_bytes t)
unfolding tx_out_pack tx_out_bytes
tx_out_pack-bytes t h =
    rw (copy_first 4 total (pack_int t.value) (length-pack_int t.value) (omega arith)) (
      copy_last 4 24 total t.pub_key_hash (pack_int t.value) (length-pack_int t.value) (omega arith)
        (omega arith))
  where
    total : ℕ
    total = 4 + length t.pub_key_hash

-- A loop that appends the packing of each element.
abbrev pub bytes_each {ℓ} : {A : Type ℓ} → (A → Bytes) → List A → Bytes
bytes_each f [] = []
bytes_each f (x ∷ xs) = f x ++ bytes_each f xs

pack_each-bytes {ℓ} :
    {A : Type ℓ} (size : A → Bytes) (n : ℕ) (pack : A → Result Bytes) (f : A → Bytes)
    → ((x : A) → length (size x) ≡ n → pack x ≡ ok (f x))
    → (xs : List A) (d : Bytes) → All (λ x. length (size x) ≡ n) xs
    → pack_each pack xs d ≡ ok (d ++ bytes_each f xs)
pack_each-bytes size n pack f h [] d a = ap ok (sym (append-nil d))
pack_each-bytes size n pack f h (x ∷ xs) d a = rw (h x a.0) (
    pack_each-bytes size n pack f h xs (d ++ f x) a.1
    ∙ ap ok (append_assoc d (f x) (bytes_each f xs)))

for_each-All {ℓ} :
    {A : Type ℓ} (size : A → Bytes) (n : ℕ) (e : Error) {u : Unit {0}} (xs : List A)
    → for_each xs (λ x. require (length (size x) == n) e) ≡ ok u
    → All (λ x. length (size x) ≡ n) xs
for_each-All size n e [] h = tt
for_each-All size n e (x ∷ xs) h =
    let (v, p, q) = >>=-eq-ok (require (length (size x) == n) e) _ h in
    ((==_iff _ n).0 (require-eq-ok _ e p), for_each-All size n e xs q)

pub record IsWellSized (tx : Transaction) : Type 0 where
  pub ins : All (λ i. length i.prev_tx_hash ≡ 32) (elems tx.tx_ins)
  pub outs : All (λ o. length o.pub_key_hash ≡ 20) tx.tx_outs

pub validate_components-IsWellSized :
    (tx : Transaction) {u : Unit {0}} → validate_components tx ≡ ok u → IsWellSized tx
unfolding validate_components
validate_components-IsWellSized tx h =
    let (v, p, q) = >>=-eq-ok _ _ h in
    record {
      ins = for_each-All (λ i. i.prev_tx_hash) 32 in_prev_tx_hash_size (elems tx.tx_ins) q;
      outs = for_each-All (λ o. o.pub_key_hash) 20 out_pub_key_hash_size tx.tx_outs p;
    }

All-for_each {ℓ} :
    {A : Type ℓ} (size : A → Bytes) (n : ℕ) (e : Error) (xs : List A)
    → All (λ x. length (size x) ≡ n) xs
    → for_each xs (λ x. require (length (size x) == n) e) ≡ ok tt
All-for_each size n e [] h = refl
All-for_each size n e (x ∷ xs) h =
    rw ((==_iff (length (size x)) n).1 h.0) (All-for_each size n e xs h.1)

pub IsWellSized-validate_components :
    (tx : Transaction) → IsWellSized tx → validate_components tx ≡ ok tt
unfolding validate_components
IsWellSized-validate_components tx w =
    rw (All-for_each (λ o. o.pub_key_hash) 20 out_pub_key_hash_size tx.tx_outs w.outs)
      (All-for_each (λ i. i.prev_tx_hash) 32 in_prev_tx_hash_size (elems tx.tx_ins) w.ins)

-- The transaction's fields, one after the other, and the same without signatures.
unfoldable pub tx_bytes : Transaction → Bytes
tx_bytes tx =
    (((pack_int tx.type ++ bytes_each tx_in_bytes (elems tx.tx_ins))
        ++ bytes_each tx_out_bytes tx.tx_outs)
      ++ elems tx.parent)
    ++ elems tx.content

unfoldable pub unsigned_bytes : Transaction → Bytes
unsigned_bytes tx =
    (((pack_int tx.type ++ bytes_each tx_in_bytes_no_sig (elems tx.tx_ins))
        ++ bytes_each tx_out_bytes tx.tx_outs)
      ++ elems tx.parent)
    ++ elems tx.content

module _ (s : Scrypt) (tx : Transaction) where
  pub tx_hash-bytes : IsWellSized tx → tx_hash s tx ≡ ok (hash s (tx_bytes tx))
  unfolding tx_hash tx_bytes
  tx_hash-bytes w = rw (
    pack_each-bytes (λ i. i.prev_tx_hash) 32 tx_in_pack tx_in_bytes tx_in_pack-bytes
        (elems tx.tx_ins) (pack_int tx.type) w.ins,
    pack_each-bytes (λ o. o.pub_key_hash) 20 tx_out_pack tx_out_bytes tx_out_pack-bytes tx.tx_outs
        (pack_int tx.type ++ bytes_each tx_in_bytes (elems tx.tx_ins)) w.outs,
  )

  pub tx_hash_no_sig-bytes : IsWellSized tx → tx_hash_no_sig s tx ≡ ok (hash s (unsigned_bytes tx))
  unfolding tx_hash_no_sig unsigned_bytes
  tx_hash_no_sig-bytes w = rw (
    IsWellSized-validate_components tx w,
    pack_each-bytes (λ i. i.prev_tx_hash) 32 tx_in_pack_no_sig tx_in_bytes_no_sig
        tx_in_pack_no_sig-bytes (elems tx.tx_ins) (pack_int tx.type) w.ins,
    pack_each-bytes (λ o. o.pub_key_hash) 20 tx_out_pack tx_out_bytes tx_out_pack-bytes tx.tx_outs
        (pack_int tx.type ++ bytes_each tx_in_bytes_no_sig (elems tx.tx_ins)) w.outs,
  )

  -- For a transaction with valid components, `Hash` hashes the plain concatenation of the fields,
  -- and `HashNoSig` that of the fields without the signatures: no field is cut or padded.
  pub tx_hash-preimage :
      validate_components tx ≡ ok tt
      → (tx_hash s tx ≡ ok (hash s (tx_bytes tx)))
        × (tx_hash_no_sig s tx ≡ ok (hash s (unsigned_bytes tx)))
  tx_hash-preimage h =
      let w = validate_components-IsWellSized tx h in (tx_hash-bytes w, tx_hash_no_sig-bytes w)
