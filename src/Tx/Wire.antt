-- ===== src/Tx/Wire.antt =====
-- Packing and hashing of transactions: `pack`, `packNoSig`, `Hash`, `HashNoSig` and
-- `validateComponents` of src/node/transaction.go, and `packInt` of src/node/block.go.
use dreddit.Base.{
  ℕ, ◌+◌, ◌/◌, ◌%◌, List, [], ◌∷◌, ◌++◌, Bytes, ◌==◌, length, elems, Result, ok, ◌>>=◌, ◌>>◌,
  require, for_each, out_pub_key_hash_size, in_prev_tx_hash_size,
}
use dreddit.Slice.{make_bytes, copy_slice}
use dreddit.Hash.{Scrypt, hash, hash_num_bytes, pkhash_num_bytes}
use dreddit.Tx.Types.{TxIn, TxOut, Transaction}

-- binary.LittleEndian.PutUint32
unfoldable pub pack_int : ℕ → Bytes
pack_int n = (n % 256) ∷ (n / 256 % 256) ∷ (n / 65536 % 256) ∷ (n / 16777216 % 256) ∷ []

unfoldable pub tx_in_pack : TxIn → Result Bytes
tx_in_pack t = do
  let n_sig = length t.sig
  let n_key = length t.pub_key
  d ←
      copy_slice 0 hash_num_bytes t.prev_tx_hash
        (make_bytes (length t.prev_tx_hash + 4 + n_sig + n_key))
  e ← copy_slice hash_num_bytes (4 + hash_num_bytes) (pack_int t.prev_tx_out_index) d
  f ← copy_slice (4 + hash_num_bytes) (4 + hash_num_bytes + n_sig) t.sig e
  copy_slice (4 + hash_num_bytes + n_sig) (4 + hash_num_bytes + n_sig + n_key) t.pub_key f

unfoldable pub tx_in_pack_no_sig : TxIn → Result Bytes
tx_in_pack_no_sig t = do
  let n_key = length t.pub_key
  d ← copy_slice 0 hash_num_bytes t.prev_tx_hash (make_bytes (length t.prev_tx_hash + 4 + n_key))
  e ← copy_slice hash_num_bytes (4 + hash_num_bytes) (pack_int t.prev_tx_out_index) d
  copy_slice (4 + hash_num_bytes) (4 + hash_num_bytes + n_key) t.pub_key e

unfoldable pub tx_out_pack : TxOut → Result Bytes
tx_out_pack t = do
  d ← copy_slice 0 4 (pack_int t.value) (make_bytes (4 + length t.pub_key_hash))
  copy_slice 4 (4 + pkhash_num_bytes) t.pub_key_hash d

-- `for _, x := range xs { data = append(data, x.pack()...) }`
abbrev pub pack_each {ℓ} : {A : Type ℓ} → (A → Result Bytes) → List A → Bytes → Result Bytes
pack_each pack [] data' = ok data'
pack_each pack (x ∷ xs) data' = pack x >>= λ d. pack_each pack xs (data' ++ d)

unfoldable pub tx_hash : Scrypt → Transaction → Result Bytes
tx_hash s tx = do
  d ← pack_each tx_in_pack (elems tx.tx_ins) (pack_int tx.type)
  e ← pack_each tx_out_pack tx.tx_outs d
  ok (hash s ((e ++ elems tx.parent) ++ elems tx.content))

unfoldable pub validate_components : Transaction → Result (Unit {0})
validate_components tx = do
  for_each tx.tx_outs
      (λ o. require (length o.pub_key_hash == pkhash_num_bytes) out_pub_key_hash_size)
  for_each (elems tx.tx_ins)
      (λ i. require (length i.prev_tx_hash == hash_num_bytes) in_prev_tx_hash_size)

unfoldable pub tx_hash_no_sig : Scrypt → Transaction → Result Bytes
tx_hash_no_sig s tx = do
  validate_components tx
  d ← pack_each tx_in_pack_no_sig (elems tx.tx_ins) (pack_int tx.type)
  e ← pack_each tx_out_pack tx.tx_outs d
  ok (hash s ((e ++ elems tx.parent) ++ elems tx.content))
