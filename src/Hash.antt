-- ===== src/Hash.antt =====
-- src/node/hash.go: the scrypt hashes of blocks, transactions and addresses.
-- golang.org/x/crypto/scrypt is a parameter; what is relied on is the length of its result.
use dreddit.Base.{ℕ, ◌≤◌, ◌≡◌, Bytes, length, arith}

pub record Scrypt : Type 0 where
  -- scrypt.Key(password, salt, N, r, p, keyLen), whose error the program drops
  pub key : Bytes → Bytes → ℕ → ℕ → ℕ → ℕ → Bytes
  pub key_length :
      (password salt : Bytes) (n : ℕ) → n ≤ 32 → length (key password salt 1024 1 1 n) ≡ n

abbrev pub hash_num_bytes : ℕ
hash_num_bytes = 32

abbrev pub pkhash_num_bytes : ℕ
pkhash_num_bytes = 20

module _ (s : Scrypt) where
  unfoldable pub hash : Bytes → Bytes
  hash d = s.key d d 1024 1 1 32

  unfoldable pub pk_hash : Bytes → Bytes
  pk_hash d = s.key d d 1024 1 1 20

  pub length-hash : (d : Bytes) → length (hash d) ≡ 32
  unfolding hash
  length-hash d = s.key_length d d 32 (omega arith)

  pub length-pk_hash : (d : Bytes) → length (pk_hash d) ≡ 20
  unfolding pk_hash
  length-pk_hash d = s.key_length d d 20 (omega arith)
