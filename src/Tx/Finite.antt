-- ===== src/Tx/Finite.antt =====
-- The packing and hashing of src/node/transaction.go and src/node/block.go, and the checks of a
-- transaction's structure, end.
use dreddit.Base.{
  ℕ, ◌&&◌, List, [], ◌∷◌, ◌++◌, Bytes, leb, length, elems, get_elem?, arith, Result, Ends, Any,
  Ends-then, Ends-found, Ends-Any_if, Ends-require, Ends-for_each,
}
use dreddit.Slice.{slice, copy_slice}
use dreddit.Hash.{Scrypt}
use dreddit.Tx.Types.{Transaction, TxIn, TxOut}
use dreddit.Tx.Wire.{
  tx_in_pack, tx_in_pack_no_sig, tx_out_pack, pack_each, tx_hash, tx_hash_no_sig,
  validate_components, pack_int,
}
use dreddit.Tx.Check.{pays_back, validate_structure}

pub slice-Ends : (d : Bytes) (lo hi : ℕ) → Ends Any (slice d lo hi)
unfolding slice
slice-Ends d lo hi = Ends-Any_if (leb lo hi && leb hi (length d)) _ _ tt tt

pub copy_slice-Ends : (lo hi : ℕ) (src d : Bytes) → Ends Any (copy_slice lo hi src d)
unfolding copy_slice
copy_slice-Ends lo hi src d = Ends-Any_if (leb lo hi && leb hi (length d)) _ _ tt tt

tx_in_pack-Ends : (t : TxIn) → Ends Any (tx_in_pack t)
unfolding tx_in_pack
tx_in_pack-Ends t = Ends-then _ _ (copy_slice-Ends _ _ _ _) (λ d.
    Ends-then _ _ (copy_slice-Ends _ _ _ d)
      (λ e. Ends-then _ _ (copy_slice-Ends _ _ _ e) (λ f. copy_slice-Ends _ _ _ f)))

tx_in_pack_no_sig-Ends : (t : TxIn) → Ends Any (tx_in_pack_no_sig t)
unfolding tx_in_pack_no_sig
tx_in_pack_no_sig-Ends t =
    Ends-then _ _ (copy_slice-Ends _ _ _ _)
      (λ d. Ends-then _ _ (copy_slice-Ends _ _ _ d) (λ e. copy_slice-Ends _ _ _ e))

tx_out_pack-Ends : (t : TxOut) → Ends Any (tx_out_pack t)
unfolding tx_out_pack
tx_out_pack-Ends t = Ends-then _ _ (copy_slice-Ends _ _ _ _) (λ d. copy_slice-Ends _ _ _ d)

pack_each-Ends {ℓ} :
    {A : Type ℓ} (pack : A → Result Bytes) (xs : List A) (data' : Bytes)
    → ((x : A) → Ends Any (pack x))
    → Ends Any (pack_each pack xs data')
pack_each-Ends pack [] data' h = tt
pack_each-Ends pack (x ∷ xs) data' h =
    Ends-then (pack x) _ (h x) (λ d. pack_each-Ends pack xs (data' ++ d) h)

module _ (s : Scrypt) where
  pub tx_hash-Ends : (tx : Transaction) → Ends Any (tx_hash s tx)
  unfolding tx_hash
  tx_hash-Ends tx =
      Ends-then _ _ (pack_each-Ends tx_in_pack (elems tx.tx_ins) (pack_int tx.type) tx_in_pack-Ends)
        (λ d. Ends-then _ _ (pack_each-Ends tx_out_pack tx.tx_outs d tx_out_pack-Ends) (λ e. tt))

  validate_components-Ends : (tx : Transaction) → Ends Any (validate_components tx)
  unfolding validate_components
  validate_components-Ends tx =
      Ends-then _ _ (Ends-for_each tx.tx_outs _ (λ o. Ends-require _ _))
        (λ u. Ends-for_each (elems tx.tx_ins) _ (λ i. Ends-require _ _))

  pub tx_hash_no_sig-Ends : (tx : Transaction) → Ends Any (tx_hash_no_sig s tx)
  unfolding tx_hash_no_sig
  tx_hash_no_sig-Ends tx = Ends-then _ _ (validate_components-Ends tx) (λ u.
      Ends-then _ _
        (pack_each-Ends tx_in_pack_no_sig (elems tx.tx_ins) (pack_int tx.type)
          tx_in_pack_no_sig-Ends)
        (λ d. Ends-then _ _ (pack_each-Ends tx_out_pack tx.tx_outs d tx_out_pack-Ends) (λ e. tt)))

  pays_back-Ends : (tx : Transaction) (i : ℕ) → Ends Any (pays_back s tx i)
  unfolding pays_back
  pays_back-Ends tx i =
      Ends-found (get_elem? (elems tx.tx_ins) 0) _ _
        (λ t. Ends-found (get_elem? tx.tx_outs i) _ _ (λ o. Ends-require _ _))

  pub validate_structure-Ends : (tx : Transaction) → Ends Any (validate_structure s tx)
  unfolding validate_structure
  validate_structure-Ends tx = ground (arith, pays_back-Ends tx 0, pays_back-Ends tx 1)
