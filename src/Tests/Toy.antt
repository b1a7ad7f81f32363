-- ===== src/Tests/Toy.antt =====
-- Concrete parameters and data: a checksum for scrypt, signatures that repeat what is signed, and
-- a small database with one transaction that spends from it.
use dreddit.Base.{
  zero, suc, ◌/◌, ltb, if◌then◌else◌, ℕ, ◌+◌, ◌*◌, ◌%◌, ◌≤◌, ◌≡◌, false, [], ◌∷◌, none, some, Bytes,
  bytes_equal, length, replicate,
}
use dreddit.Slice.{fit, length-fit}
use dreddit.Hash.{Scrypt}
use dreddit.Tx.Types.{TxIn, Transaction, transfer}
use dreddit.Utxo.Defs.{UtxoOutput, UtxoDb}
use dreddit.Block.Defs.{Setting}
use dreddit.Node.Validate.{Ecdsa}

abbrev pub checksum : Bytes → ℕ
checksum [] = 7
checksum (b ∷ bs) = (b + 3 * checksum bs) % 251

pub toy_key_length :
    (password salt : Bytes) (n : ℕ) → n ≤ 32 → length (fit n (checksum password ∷ [])) ≡ n
toy_key_length password salt n h = length-fit n (checksum password ∷ [])

abbrev pub toy_scrypt : Scrypt
toy_scrypt = record {
  key = λ password salt cost r p n. fit n (checksum password ∷ []);
  key_length = toy_key_length;
}

-- A signature is the signed hash itself, with the key left out.
abbrev pub toy_ecdsa : Ecdsa
toy_ecdsa = record {
  Signature = Bytes;
  PublicKey = Bytes;
  parse_signature = some;
  parse_pub_key = some;
  verify = λ g signed k. bytes_equal g signed;
}

-- The integral part of the binary logarithm, for numbers below `2 ^ rounds`.
abbrev pub floor_log2 : ℕ → ℕ → ℕ
floor_log2 zero n = 0
floor_log2 (suc rounds) n = if ltb n 2 then 0 else suc (floor_log2 rounds (n / 2))

abbrev pub log2_32 : ℕ → ℕ
log2_32 n = floor_log2 32 n

abbrev pub toy_setting : Setting
toy_setting = record { scrypt = toy_scrypt; log2 = log2_32; difficulty = 1; fuel = 300 }

abbrev pub alice : Bytes
alice = 9 ∷ 9 ∷ []

abbrev pub alice_hash : Bytes
alice_hash = fit 20 (checksum alice ∷ [])

abbrev pub bob_hash : Bytes
bob_hash = replicate 20 5

abbrev pub old_hash : Bytes
old_hash = replicate 32 1

abbrev pub coin : UtxoOutput
coin = record { spent = false; pub_key_hash = alice_hash; value = 100 }

abbrev pub small_db : UtxoDb
small_db = (old_hash, (0, coin) ∷ []) ∷ []

abbrev pub unsigned_in : TxIn
unsigned_in = record { prev_tx_hash = old_hash; prev_tx_out_index = 0; sig = []; pub_key = alice }

-- A transfer of 60 to bob, with `change` going back to alice.
abbrev pub payment : Bytes → ℕ → Transaction
payment signature change = record {
  type = transfer;
  tx_ins = some (record unsigned_in { sig = signature } ∷ []);
  tx_outs =
      record { value = 60; pub_key_hash = bob_hash }
      ∷ record { value = change; pub_key_hash = alice_hash }
      ∷ [];
  parent = none;
  content = none;
}

abbrev pub fair : Transaction
fair = payment (fit 32 (187 ∷ [])) 39

-- It pays out 101 from a coin of 100.
abbrev pub minting : Transaction
minting = payment (fit 32 (99 ∷ [])) 41
