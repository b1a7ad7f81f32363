-- ===== src/Block/Valid.antt =====
-- What `ValidateBlock` of src/node/block.go establishes.
use mathlib.Core.Logic.{◌≢◌}
use mathlib.Core.Path.{subst}
use mathlib.Core.Option.{some-injective}
use dreddit.Base.{
  ℕ, refl, none, false, Option, is_some, All, last_not_coinbase, coinbase_has_tx_in,
  coinbase_tx_out_count, coinbase_has_parent, coinbase_has_content, coinbase_not_last, ◌≡◌, ◌↔◌,
  sym, ap, ◌∙◌, true, not, List, [], ◌∷◌, ◌++◌, some, bytes_equal, bytes_equal_iff,
  bytes_equal_refl, ◌==◌, ==_iff, length, last?, ok, >>=-eq-ok, ok_injective, require,
  require-eq-ok, or_panic, or_panic-eq-ok, index_out_of_range, empty_transaction_list,
  wrong_difficulty, hash_misses_difficulty, wrong_block_hash, wrong_merkle_root, arith,
}
use dreddit.Slice.{make_bytes, slice}
use dreddit.Hash.{hash}
use dreddit.Tx.Types.{TxOut, Transaction, coinbase}
use dreddit.Tx.Wire.{pack_int}
use dreddit.Merkle.Defs.{build_merkle_tree_store}
use dreddit.Block.Types.{Block}
use dreddit.Block.Defs.{Setting, pack, verify_coinbase_tx, no_early_coinbase, validate_block}
use dreddit.Block.Header.{header, pack-header}
use dreddit.Block.Mined.{Meets}

-- A coinbase without inputs, parent and content, and with one output.
pub record IsReward (tx : Transaction) : Type 0 where
  pub kind : tx.type ≡ coinbase
  pub no_ins : tx.tx_ins ≡ none
  pub one_out : (o : TxOut) × (tx.tx_outs ≡ o ∷ [])
  pub no_parent : tx.parent ≡ none
  pub no_content : tx.content ≡ none

abbrev IsEarlier : Transaction → Type 0
IsEarlier tx = tx.type ≢ coinbase

-- The last transaction is the reward, and no transaction before it is a coinbase.
abbrev pub IsRewarded : List Transaction → Type 0
IsRewarded txs =
    (front : List Transaction) × (last : Transaction) × (txs ≡ front ++ last ∷ [])
    × All IsEarlier front
    × IsReward last

-- The bits are the difficulty, the hash meets it and is that of the header, and the Merkle root is
-- that of the transactions, which end with their only coinbase, the reward.
pub record IsValid (g : Setting) (b : Block) : Type 0 where
  pub bits : b.bits ≡ g.difficulty
  pub zeros : Meets b.bits b.block_hash
  pub hashed : b.block_hash ≡ hash g.scrypt (header b ++ pack_int b.nonce)
  pub rooted : build_merkle_tree_store g.log2 g.scrypt b.transactions ≡ ok b.merkle_root
  pub rewarded : IsRewarded b.transactions

is_none : {A : Type 0} (o : Option A) → not (is_some o) ≡ true → o ≡ none
is_none none e = refl
is_none (some x) e = cc

one_element : {A : Type 0} (xs : List A) → (length xs == 1) ≡ true → (x : A) × (xs ≡ x ∷ [])
one_element [] e = cc
one_element (x ∷ []) e = (x, refl)
one_element (x ∷ y ∷ xs) e = absurd (ground (arith, e))

verify_coinbase_tx-IsReward : (tx : Transaction) → verify_coinbase_tx tx ≡ ok tt → IsReward tx
unfolding verify_coinbase_tx
verify_coinbase_tx-IsReward tx h =
    let (u1, kind, h1) = >>=-eq-ok (require (tx.type == coinbase) last_not_coinbase) _ h in
    let (u2, ins, h2) = >>=-eq-ok (require (not (is_some tx.tx_ins)) coinbase_has_tx_in) _ h1 in
    let (u3, outs, h3) = >>=-eq-ok (require (length tx.tx_outs == 1) coinbase_tx_out_count) _ h2 in
    let (u4, parent, content) =
      >>=-eq-ok (require (not (is_some tx.parent)) coinbase_has_parent) _ h3 in
    record {
      kind = (==_iff tx.type coinbase).0 (require-eq-ok _ last_not_coinbase kind);
      no_ins = is_none tx.tx_ins (require-eq-ok _ coinbase_has_tx_in ins);
      one_out = one_element tx.tx_outs (require-eq-ok _ coinbase_tx_out_count outs);
      no_parent = is_none tx.parent (require-eq-ok _ coinbase_has_parent parent);
      no_content = is_none tx.content (require-eq-ok _ coinbase_has_content content);
    }

IsReward-verify_coinbase_tx : (tx : Transaction) → IsReward tx → verify_coinbase_tx tx ≡ ok tt
unfolding verify_coinbase_tx
IsReward-verify_coinbase_tx tx w =
    let (o, one) = w.one_out in rw (w.kind, w.no_ins, one, w.no_parent, w.no_content) refl

other_type : (type : ℕ) → not (type == coinbase) ≡ true → type ≢ coinbase
other_type type e same = absurd (ground (arith, e, same))

type_differs : (type : ℕ) → type ≢ coinbase → (type == coinbase) ≡ false
type_differs type other = ground (arith, other)

split_last :
    (txs : List Transaction) (last : Transaction)
    → last? txs ≡ some last
    → (front : List Transaction) × (txs ≡ front ++ last ∷ [])
split_last [] last e = cc
split_last (tx ∷ []) last e = ([], ap (λ (t : Transaction). t ∷ []) (some-injective _ _ e))
split_last (tx ∷ t ∷ txs) last e =
    let (front, split) = split_last (t ∷ txs) last e in (tx ∷ front, ap (◌∷◌ tx) split)

pub last?-end :
    (front : List Transaction) (last : Transaction) → last? (front ++ last ∷ []) ≡ some last
last?-end [] last = refl
last?-end (tx ∷ []) last = refl
last?-end (tx ∷ t ∷ front) last = last?-end (t ∷ front) last

-- The loop over the transactions before the last one.
no_early_coinbase-All :
    (front : List Transaction) (last : Transaction)
    → no_early_coinbase (front ++ last ∷ []) ≡ ok tt
    → All IsEarlier front
unfolding no_early_coinbase
no_early_coinbase-All [] last h = tt
no_early_coinbase-All (tx ∷ []) last h =
    let (u, other, rest) = >>=-eq-ok (require (not (tx.type == coinbase)) coinbase_not_last) _ h in
    (other_type tx.type (require-eq-ok _ coinbase_not_last other), tt)
no_early_coinbase-All (tx ∷ t ∷ front) last h =
    let (u, other, rest) = >>=-eq-ok (require (not (tx.type == coinbase)) coinbase_not_last) _ h in
    (
      other_type tx.type (require-eq-ok _ coinbase_not_last other),
      no_early_coinbase-All (t ∷ front) last rest,
    )

All-no_early_coinbase :
    (front : List Transaction) (last : Transaction)
    → All IsEarlier front
    → no_early_coinbase (front ++ last ∷ []) ≡ ok tt
unfolding no_early_coinbase
All-no_early_coinbase [] last w = refl
All-no_early_coinbase (tx ∷ []) last (other, w) = rw (type_differs tx.type other) refl
All-no_early_coinbase (tx ∷ t ∷ front) last (other, w) =
    rw (type_differs tx.type other) (All-no_early_coinbase (t ∷ front) last w)

nonempty :
    {tx : Transaction} (txs : List Transaction) → last? txs ≡ some tx → not (length txs == 0) ≡ true
nonempty [] e = cc
nonempty (t ∷ txs) e = ground arith

module _ (g : Setting) (b : Block) where
  validate_block-IsValid : validate_block g b ≡ ok tt → IsValid g b
  unfolding validate_block
  validate_block-IsValid h =
      let (u1, e1, h1) =
        >>=-eq-ok (require (not (length b.transactions == 0)) empty_transaction_list) _ h in
      let (u2, bits, h2) = >>=-eq-ok (require (b.bits == g.difficulty) wrong_difficulty) _ h1 in
      let (front, cut, h3) = >>=-eq-ok (slice b.block_hash 0 b.bits) _ h2 in
      let (u4, zeros, h4) =
        >>=-eq-ok (require (bytes_equal front (make_bytes b.bits)) hash_misses_difficulty) _ h3 in
      let (d, packed, h5) = >>=-eq-ok (pack b) _ h4 in
      let (u6, hashed, h6) =
        >>=-eq-ok (require (bytes_equal b.block_hash (hash g.scrypt d)) wrong_block_hash) _ h5 in
      let (root, built, h7) =
        >>=-eq-ok (build_merkle_tree_store g.log2 g.scrypt b.transactions) _ h6 in
      let (u8, rooted, h8) =
        >>=-eq-ok (require (bytes_equal b.merkle_root root) wrong_merkle_root) _ h7 in
      let (last, at_end, h9) =
        >>=-eq-ok (or_panic (last? b.transactions) index_out_of_range) _ h8 in
      let (u10, reward, others) = >>=-eq-ok (verify_coinbase_tx last) _ h9 in
      let (front', split) =
        split_last b.transactions last (or_panic-eq-ok _ index_out_of_range at_end) in
      record {
        bits = (==_iff b.bits g.difficulty).0 (require-eq-ok _ wrong_difficulty bits);
        zeros = (front, cut, require-eq-ok _ hash_misses_difficulty zeros);
        hashed =
            (bytes_equal_iff b.block_hash (hash g.scrypt d)).0
              (require-eq-ok _ wrong_block_hash hashed)
            ∙ ap (hash g.scrypt) (ok_injective (sym packed ∙ pack-header b));
        rooted =
            built
            ∙ ap ok (
                sym (
                  (bytes_equal_iff b.merkle_root root).0
                    (require-eq-ok _ wrong_merkle_root rooted)));
        rewarded = (
          front',
          last,
          split,
          no_early_coinbase-All front' last
              (subst (λ (txs : List Transaction). no_early_coinbase txs ≡ ok tt) split others),
          verify_coinbase_tx-IsReward last reward,
        );
      }

  IsValid-validate_block : IsValid g b → validate_block g b ≡ ok tt
  unfolding validate_block
  IsValid-validate_block v =
      let (front, cut, zeros) = v.zeros in
      let (txs, last, split, others, reward) = v.rewarded in
      let at_end : last? b.transactions ≡ some last = rw split (last?-end txs last) in
      let no_early : no_early_coinbase b.transactions ≡ ok tt =
        rw split (All-no_early_coinbase txs last others) in
      rw (nonempty b.transactions at_end, (==_iff b.bits g.difficulty).1 v.bits)
        (rw (cut, zeros, pack-header b, ← v.hashed, bytes_equal_refl b.block_hash)
          (rw (v.rooted, bytes_equal_refl b.merkle_root, at_end)
            (rw (IsReward-verify_coinbase_tx last reward) no_early)))

  -- `ValidateBlock` accepts a block exactly when its bits are the difficulty, its hash begins
  -- with as many zero bytes and is the hash of its header, its Merkle root is that of its
  -- transactions, the last of these is a coinbase without inputs, parent and content and with one
  -- output, and no transaction before it is a coinbase.
  pub validate_block_iff : (validate_block g b ≡ ok tt) ↔ IsValid g b
  validate_block_iff = (validate_block-IsValid, IsValid-validate_block)
