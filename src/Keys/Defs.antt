-- ===== src/Keys/Defs.antt =====
-- GeneratePKPairs, ReadPKPairs and main of src/util/pk_pairs.go. The keys that btcec makes and the
-- encoding of base64 are arguments, as is the file's text.
use dreddit.Base.{
  ℕ, zero, suc, List, [], ◌∷◌, ◌++◌, Bytes, get_elem?, Result, ok, ◌>>=◌, or_panic,
  index_out_of_range,
}
use dreddit.Hash.{Scrypt, pk_hash}
use dreddit.Keys.Text.{split, lines, scan, println}

pub record PkPair : Type 0 where
  pub priv : Bytes
  pub pub_key : Bytes
  pub pub_hash : Bytes

-- btcec.NewPrivateKey: an error with its text, or the bytes of a key and of its compressed public
-- key.
pub data NewKey : Type 0 where
  failed : Bytes → NewKey
  made : (priv pub_key : Bytes) → NewKey

-- What it prints, and the pair.
unfoldable pub generate_pk_pairs : Scrypt → (Bytes → Bytes) → NewKey → Bytes × PkPair
generate_pk_pairs s encode (failed text) =
    (text ++ 10 ∷ [], record { priv = []; pub_key = []; pub_hash = [] })
generate_pk_pairs s encode (made priv pub_key) = (
  [],
  record { priv = encode priv; pub_key = encode pub_key; pub_hash = encode (pk_hash s pub_key) },
)

-- "priv: ", "pub: " and "pubhash: "
abbrev pub priv_label : Bytes
priv_label = 112 ∷ 114 ∷ 105 ∷ 118 ∷ 58 ∷ 32 ∷ []

abbrev pub pub_label : Bytes
pub_label = 112 ∷ 117 ∷ 98 ∷ 58 ∷ 32 ∷ []

abbrev pub pubhash_label : Bytes
pubhash_label = 112 ∷ 117 ∷ 98 ∷ 104 ∷ 97 ∷ 115 ∷ 104 ∷ 58 ∷ 32 ∷ []

abbrev pub print_pair : PkPair → Bytes
print_pair p =
    println priv_label p.priv
    ++ (println pub_label p.pub_key ++ (println pubhash_label p.pub_hash ++ 10 ∷ []))

-- The loop of main, over the keys that its rounds make.
unfoldable pub main_output : Scrypt → (Bytes → Bytes) → List NewKey → Bytes
unfolding generate_pk_pairs
main_output s encode [] = []
main_output s encode (key ∷ keys) =
    let (printed, p) = generate_pk_pairs s encode key in
    printed ++ (print_pair p ++ main_output s encode keys)

-- `strings.Split(scanner.Text(), "  ")[1]`
unfoldable pub read_field : Bytes → Result Bytes
unfolding split
read_field text = or_panic (get_elem? (split [] text) 1) index_out_of_range

-- `n` rounds of the loop of ReadPKPairs.
unfoldable pub read_pairs : ℕ → List Bytes → Result (List PkPair)
unfolding read_field
read_pairs zero rest = ok []
read_pairs (suc n) rest = do
  let (line1, rest1) = scan rest
  priv ← read_field line1
  let (line2, rest2) = scan rest1
  pub_key ← read_field line2
  let (line3, rest3) = scan rest2
  pub_hash ← read_field line3
  let (line4, rest4) = scan rest3
  pairs ← read_pairs n rest4
  ok (record { priv = priv; pub_key = pub_key; pub_hash = pub_hash } ∷ pairs)

-- A file that cannot be opened gives no line.
unfoldable pub read_pk_pairs : Bytes → Result (List PkPair)
unfolding read_pairs lines
read_pk_pairs text = read_pairs 10 (lines [] text)
