-- ===== src/Keys/Read.antt =====
-- ReadPKPairs of src/util/pk_pairs.go reads what its main prints.
use mathlib.Core.List.{append_assoc}
use dreddit.Base.{
  ℕ, zero, suc, ◌≡◌, refl, ap, ◌∙◌, true, false, List, [], ◌∷◌, ◌++◌, Bytes, leb, le→leb,
  if◌then◌else◌, length, map, take, Result, ok, panic, ◌>>=◌, index_out_of_range, arith, Bool-cases,
  inl, inr,
}
use dreddit.Hash.{Scrypt}
use dreddit.Keys.Text.{
  split, lines, println, is_line, is_plain, is_plain-is_line, is_line-append, split_plain,
  lines-line,
}
use dreddit.Keys.Defs.{
  PkPair, NewKey, made, generate_pk_pairs, priv_label, pub_label, pubhash_label, print_pair,
  main_output, read_field, read_pairs, read_pk_pairs,
}

-- base64 writes no space and no end of line.
abbrev pub IsPlainEncoding : (Bytes → Bytes) → Type 0
IsPlainEncoding encode = (data' : Bytes) → is_plain (encode data') ≡ true

-- The line with this label and this field.
abbrev labelled : Bytes → Bytes → Bytes
labelled label field = label ++ 32 ∷ field

println-line :
    (label field rest : Bytes)
    → is_line label ≡ true
    → is_plain field ≡ true
    → lines [] (println label field ++ rest) ≡ labelled label field ∷ lines [] rest
println-line label field rest clean plain =
    ap (λ (t : Bytes). lines [] t) (simp append_assoc)
    ∙ lines-line (labelled label field) rest
        (is_line-append label (32 ∷ field) clean (is_plain-is_line field plain))

record IsPlainPair (p : PkPair) : Type 0 where
  priv : is_plain p.priv ≡ true
  pub_key : is_plain p.pub_key ≡ true
  pub_hash : is_plain p.pub_hash ≡ true

print_pair-lines :
    (p : PkPair) (rest : Bytes)
    → IsPlainPair p
    → lines [] (print_pair p ++ rest)
      ≡ labelled priv_label p.priv
        ∷ labelled pub_label p.pub_key
        ∷ labelled pubhash_label p.pub_hash
        ∷ []
        ∷ lines [] rest
print_pair-lines p rest w =
    ap (λ (t : Bytes). lines [] t) regroup
    ∙ println-line priv_label p.priv after_priv refl w.priv
    ∙ ap (◌∷◌ (labelled priv_label p.priv)) (
        println-line pub_label p.pub_key after_pub refl w.pub_key
        ∙ ap (◌∷◌ (labelled pub_label p.pub_key)) (
            println-line pubhash_label p.pub_hash (10 ∷ rest) refl w.pub_hash
            ∙ ap (◌∷◌ (labelled pubhash_label p.pub_hash)) (lines-line [] rest refl)))
  where
    after_pub : Bytes
    after_pub = println pubhash_label p.pub_hash ++ 10 ∷ rest

    after_priv : Bytes
    after_priv = println pub_label p.pub_key ++ after_pub

    regroup : print_pair p ++ rest ≡ println priv_label p.priv ++ after_priv
    regroup = simp append_assoc

read_priv :
    (field : Bytes) → is_plain field ≡ true → read_field (labelled priv_label field) ≡ ok field
unfolding read_field split
read_priv field plain = rw (split_plain [] field plain) refl

read_pub :
    (field : Bytes) → is_plain field ≡ true → read_field (labelled pub_label field) ≡ ok field
unfolding read_field split
read_pub field plain = rw (split_plain [] field plain) refl

read_pubhash :
    (field : Bytes) → is_plain field ≡ true → read_field (labelled pubhash_label field) ≡ ok field
unfolding read_field split
read_pubhash field plain = rw (split_plain [] field plain) refl

-- A round of the reading loop on the four lines of a pair.
read_pairs-round :
    (n : ℕ) (p : PkPair) (rest : List Bytes)
    → IsPlainPair p
    → read_pairs (suc n) (
        labelled priv_label p.priv
        ∷ labelled pub_label p.pub_key
        ∷ labelled pubhash_label p.pub_hash
        ∷ []
        ∷ rest)
      ≡ (read_pairs n rest >>= λ pairs. ok (p ∷ pairs))
unfolding read_pairs
read_pairs-round n p rest w =
    rw (read_priv p.priv w.priv, read_pub p.pub_key w.pub_key, read_pubhash p.pub_hash w.pub_hash)
      refl

-- A key that btcec has made: its bytes, and those of its public key.
abbrev pub new_key : Bytes × Bytes → NewKey
new_key (priv, pub_key) = made priv pub_key

leb-suc : (m n : ℕ) → leb (suc m) (suc n) ≡ leb m n
leb-suc m n = ground arith

none_left : (n : ℕ) → leb (suc n) 0 ≡ false
none_left n = ground arith

module _ (s : Scrypt) (encode : Bytes → Bytes) where
  abbrev pub pair_of : Bytes × Bytes → PkPair
  pair_of key = (generate_pk_pairs s encode (new_key key)).1

  -- The first `n` pairs, or the panic of a text that ends before.
  abbrev pub read_back : ℕ → List (Bytes × Bytes) → Result (List PkPair)
  read_back n keys =
      if leb n (length keys) then ok (map pair_of (take n keys)) else panic index_out_of_range

  read_back-cons :
      (n : ℕ) (key : Bytes × Bytes) (keys : List (Bytes × Bytes))
      → (read_back n keys >>= λ pairs. ok (pair_of key ∷ pairs)) ≡ read_back (suc n) (key ∷ keys)
  read_back-cons n key keys = elim (Bool-cases (leb n (length keys))) [
    | inl enough ↦ rw (leb-suc n (length keys), enough) refl
    | inr few ↦ rw (leb-suc n (length keys), few) refl
  ]

module _ (s : Scrypt) (encode : Bytes → Bytes) (plain : IsPlainEncoding encode) where
  pair_of-IsPlainPair : (key : Bytes × Bytes) → IsPlainPair (pair_of s encode key)
  unfolding generate_pk_pairs
  pair_of-IsPlainPair (priv, pub_key) = record {
    priv = plain _;
    pub_key = plain _;
    pub_hash = plain _;
  }

  read_pairs-main :
      (n : ℕ) (keys : List (Bytes × Bytes))
      → read_pairs n (lines [] (main_output s encode (map new_key keys)))
        ≡ read_back s encode n keys
  unfolding main_output read_pairs lines read_field split
  read_pairs-main zero keys = rw (le→leb 0 (length keys) (omega arith)) refl
  read_pairs-main (suc n) [] = rw (none_left n) refl
  read_pairs-main (suc n) (key ∷ keys) =
      ap (read_pairs (suc n)) (
        print_pair-lines (pair_of s encode key) (main_output s encode (map new_key keys))
          (pair_of-IsPlainPair key))
      ∙ read_pairs-round n (pair_of s encode key) _ (pair_of-IsPlainPair key)
      ∙ ap (λ (r : Result (List PkPair)). r >>= λ pairs. ok (pair_of s encode key ∷ pairs))
          (read_pairs-main n keys)
      ∙ read_back-cons s encode n key keys

  -- If base64 writes no space and no end of line, then ReadPKPairs on the output of main gives
  -- back the first ten pairs that main has made, and panics if there are fewer.
  pub read_pk_pairs-main :
      (keys : List (Bytes × Bytes))
      → read_pk_pairs (main_output s encode (map new_key keys)) ≡ read_back s encode 10 keys
  unfolding read_pk_pairs
  read_pk_pairs-main keys = read_pairs-main 10 keys
