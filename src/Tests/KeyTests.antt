-- ===== src/Tests/KeyTests.antt =====
-- Ten keys, printed and read.
use dreddit.Base.{◌≡◌, refl, List, [], ◌∷◌, Bytes, map, replicate}
use dreddit.Tests.Toy.{toy_scrypt}
use dreddit.Keys.Defs.{main_output, read_pk_pairs}
use dreddit.Keys.Read.{IsPlainEncoding, new_key, read_back, read_pk_pairs-main}

-- Every byte becomes an `A`.
abbrev all_a : Bytes → Bytes
all_a data' = map (λ b. 65) data'

all_a-IsPlainEncoding : IsPlainEncoding all_a
all_a-IsPlainEncoding [] = refl
all_a-IsPlainEncoding (b ∷ data') = all_a-IsPlainEncoding data'

abbrev ten_keys : List (Bytes × Bytes)
ten_keys = replicate 10 (1 ∷ 2 ∷ [], 3 ∷ [])

read_pk_pairs-main_example :
    read_pk_pairs (main_output toy_scrypt all_a (map new_key ten_keys))
    ≡ read_back toy_scrypt all_a 10 ten_keys
read_pk_pairs-main_example = read_pk_pairs-main toy_scrypt all_a all_a-IsPlainEncoding ten_keys
