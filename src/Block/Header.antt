-- ===== src/Block/Header.antt =====
-- The 80 bytes of a block's header: `pack` of src/node/block.go.
use dreddit.Base.{
  ℕ, ◌+◌, ◌*◌, ◌^◌, ◌<◌, ◌≡◌, refl, sym, ap, ◌∙◌, [], ◌∷◌, ◌++◌, Bytes, length, take, drop, ok,
  ok_injective, length-append, take-append, drop-append, arith,
}
use dreddit.Slice.{make_bytes, copy_slice, copy_slice-fill, fit, fit_exact, length-fit}
use dreddit.Tx.Wire.{pack_int}
use dreddit.Tx.Preimage.{copy_next, copy_first, copy_last, length-pack_int}
use dreddit.Block.Types.{Block}
use dreddit.Block.Defs.{version, pack}

-- The header up to the nonce: 76 bytes.
unfoldable pub header : Block → Bytes
header b =
    (((version ++ fit 32 b.prev_block) ++ fit 32 b.merkle_root) ++ pack_int b.timestamp)
    ++ pack_int b.bits

module _ (b : Block) where
  abbrev part1 : Bytes
  part1 = version ++ fit 32 b.prev_block

  abbrev part2 : Bytes
  part2 = part1 ++ fit 32 b.merkle_root

  abbrev part3 : Bytes
  part3 = part2 ++ pack_int b.timestamp

  length-part1 : length part1 ≡ 36
  length-part1 =
      omega (arith, length-append version (fit 32 b.prev_block), length-fit 32 b.prev_block)

  length-part2 : length part2 ≡ 68
  length-part2 =
      omega (
        arith,
        length-append part1 (fit 32 b.merkle_root),
        length-fit 32 b.merkle_root,
        length-part1,
      )

  length-part3 : length part3 ≡ 72
  length-part3 =
      omega (
        arith,
        length-append part2 (pack_int b.timestamp),
        length-pack_int b.timestamp,
        length-part2,
      )

  pub length-header : length (header b) ≡ 76
  unfolding header
  length-header =
      omega (arith, length-append part3 (pack_int b.bits), length-pack_int b.bits, length-part3)

  pub pack-header : pack b ≡ ok (header b ++ pack_int b.nonce)
  unfolding pack header
  pack-header = rw (first, prev, root, time, bits) nonce
    where
      first : copy_slice 0 4 version (make_bytes 80) ≡ ok (version ++ make_bytes 76)
      first = copy_first 4 80 version refl (omega arith)

      prev : copy_slice 4 36 b.prev_block (version ++ make_bytes 76) ≡ ok (part1 ++ make_bytes 44)
      prev = copy_slice-fill 4 36 44 b.prev_block version refl (omega arith)

      root : copy_slice 36 68 b.merkle_root (part1 ++ make_bytes 44) ≡ ok (part2 ++ make_bytes 12)
      root = copy_slice-fill 36 68 12 b.merkle_root part1 length-part1 (omega arith)

      time :
          copy_slice 68 72 (pack_int b.timestamp) (part2 ++ make_bytes 12)
          ≡ ok (part3 ++ make_bytes 8)
      time =
          copy_next 68 72 80 (pack_int b.timestamp) part2 length-part2
            (omega (arith, length-pack_int b.timestamp)) (omega arith)

      bits :
          copy_slice 72 76 (pack_int b.bits) (part3 ++ make_bytes 8)
          ≡ ok ((part3 ++ pack_int b.bits) ++ make_bytes 4)
      bits =
          copy_next 72 76 80 (pack_int b.bits) part3 length-part3
            (omega (arith, length-pack_int b.bits)) (omega arith)

      nonce :
          copy_slice 76 80 (pack_int b.nonce) ((part3 ++ pack_int b.bits) ++ make_bytes 4)
          ≡ ok ((part3 ++ pack_int b.bits) ++ pack_int b.nonce)
      nonce =
          copy_last 76 80 80 (pack_int b.nonce) (part3 ++ pack_int b.bits)
            (omega
              (arith, length-append part3 (pack_int b.bits), length-pack_int b.bits, length-part3))
            (omega (arith, length-pack_int b.nonce)) refl

append_split :
    (xs ys xs' ys' : Bytes)
    → length xs ≡ length xs'
    → xs ++ ys ≡ xs' ++ ys'
    → (xs ≡ xs') × (ys ≡ ys')
append_split xs ys xs' ys' l e = (
  sym (take-append (length xs) xs ys refl)
      ∙ ap (take (length xs)) e
      ∙ take-append (length xs) xs' ys' (sym l),
  sym (drop-append (length xs) xs ys refl)
      ∙ ap (drop (length xs)) e
      ∙ drop-append (length xs) xs' ys' (sym l),
)

abbrev unpack_int : Bytes → ℕ
unpack_int [] = 0
unpack_int (b ∷ bs) = b + 256 * unpack_int bs

unpack_int-pack_int : (n : ℕ) → n < 2 ^ 32 → unpack_int (pack_int n) ≡ n
unfolding pack_int
unpack_int-pack_int n h = omega arith

pack_int_injective : (m n : ℕ) → m < 2 ^ 32 → n < 2 ^ 32 → pack_int m ≡ pack_int n → m ≡ n
pack_int_injective m n hm hn e =
    sym (unpack_int-pack_int m hm) ∙ ap unpack_int e ∙ unpack_int-pack_int n hn

-- The hashes of a header have 32 bytes, and its numbers are uint32.
pub record IsSized (b : Block) : Type 0 where
  pub prev : length b.prev_block ≡ 32
  pub root : length b.merkle_root ≡ 32
  pub time : b.timestamp < 2 ^ 32
  pub bits : b.bits < 2 ^ 32
  pub nonce : b.nonce < 2 ^ 32

-- Two blocks whose hashes have 32 bytes and whose numbers are below 2 ^ 32 are packed alike only
-- if predecessor, Merkle root, time, difficulty and nonce are equal: the 80 bytes hold all five.
pub pack_injective :
    (b b' : Block)
    → IsSized b
    → IsSized b'
    → pack b ≡ pack b'
    → (b.prev_block ≡ b'.prev_block)
      × (b.merkle_root ≡ b'.merkle_root)
      × (b.timestamp ≡ b'.timestamp)
      × (b.bits ≡ b'.bits)
      × (b.nonce ≡ b'.nonce)
unfolding header
pack_injective b b' w w' e =
    let (heads, nonces) =
      append_split (header b) (pack_int b.nonce) (header b') (pack_int b'.nonce)
        (length-header b ∙ sym (length-header b'))
        (ok_injective (sym (pack-header b) ∙ e ∙ pack-header b')) in
    let (threes, bits) =
      append_split (part3 b) (pack_int b.bits) (part3 b') (pack_int b'.bits)
        (length-part3 b ∙ sym (length-part3 b')) heads in
    let (twos, times) =
      append_split (part2 b) (pack_int b.timestamp) (part2 b') (pack_int b'.timestamp)
        (length-part2 b ∙ sym (length-part2 b')) threes in
    let (ones, roots) =
      append_split (part1 b) (fit 32 b.merkle_root) (part1 b') (fit 32 b'.merkle_root)
        (length-part1 b ∙ sym (length-part1 b')) twos in
    let (versions, prevs) =
      append_split version (fit 32 b.prev_block) version (fit 32 b'.prev_block) refl ones in
    (
      sym (fit_exact 32 b.prev_block w.prev) ∙ prevs ∙ fit_exact 32 b'.prev_block w'.prev,
      sym (fit_exact 32 b.merkle_root w.root) ∙ roots ∙ fit_exact 32 b'.merkle_root w'.root,
      pack_int_injective b.timestamp b'.timestamp w.time w'.time times,
      pack_int_injective b.bits b'.bits w.bits w'.bits bits,
      pack_int_injective b.nonce b'.nonce w.nonce w'.nonce nonces,
    )
