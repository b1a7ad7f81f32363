-- ===== src/Tests/TxTests.antt =====
-- Transactions and the database.
use dreddit.Base.{◌≡◌, refl, [], ◌∷◌, ok}
use dreddit.Tests.Toy.{toy_scrypt, payment}
use dreddit.Hash.{hash}
use dreddit.Slice.{copy_slice, fit}
use dreddit.Tx.Wire.{
  pack_int, tx_in_pack, tx_out_pack, tx_hash, tx_hash_no_sig, validate_components,
}
use dreddit.Tx.Preimage.{tx_hash-preimage, tx_bytes, unsigned_bytes}

tx_hash-preimage_example :
    (tx_hash toy_scrypt (payment (4 ∷ []) 39)
      ≡ ok (hash toy_scrypt (tx_bytes (payment (4 ∷ []) 39))))
    × (tx_hash_no_sig toy_scrypt (payment (4 ∷ []) 39)
        ≡ ok (hash toy_scrypt (unsigned_bytes (payment (4 ∷ []) 39))))
unfolding validate_components
tx_hash-preimage_example = tx_hash-preimage toy_scrypt (payment (4 ∷ []) 39) refl

-- The hash of the payment, by running the packing code.
payment_hash : tx_hash toy_scrypt (payment (4 ∷ []) 39) ≡ ok (fit 32 (26 ∷ []))
unfolding tx_hash hash copy_slice pack_int tx_in_pack tx_out_pack
payment_hash = refl
