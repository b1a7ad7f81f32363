-- ===== src/Tx/Check.antt =====
-- `ValidateStructure` of src/node/transaction.go.
use dreddit.Base.{
  ℕ, not, ◌||◌, bytes_equal, ◌==◌, if◌then◌else◌, length, get_elem?, elems, is_some, Result, ok,
  ◌>>=◌, ◌>>◌, require, or_panic, index_out_of_range, should_have_one_output,
  upvote_should_have_two_outputs, output_not_consistent_with_input, must_have_parent,
  should_not_have_parent,
}
use dreddit.Hash.{Scrypt, pk_hash}
use dreddit.Tx.Types.{Transaction, post, comment, upvote}

-- `bytes.Equal(PKHash(tx.TxIns[0].PubKey), tx.TxOuts[i].PubKeyHash)`, with Go's bounds checks
unfoldable pub pays_back : Scrypt → Transaction → ℕ → Result (Unit {0})
pays_back s tx i = do
  t ← or_panic (get_elem? (elems tx.tx_ins) 0) index_out_of_range
  o ← or_panic (get_elem? tx.tx_outs i) index_out_of_range
  require (bytes_equal (pk_hash s t.pub_key) o.pub_key_hash) output_not_consistent_with_input

unfoldable pub validate_structure : Scrypt → Transaction → Result (Unit {0})
unfolding pays_back
validate_structure s tx = do
  if tx.type == post || tx.type == comment
      then (require (length tx.tx_outs == 1) should_have_one_output >> pays_back s tx 0)
      else ok tt
  if tx.type == upvote
      then (require (length tx.tx_outs == 2) upvote_should_have_two_outputs >> pays_back s tx 1)
      else ok tt
  if tx.type == comment || tx.type == upvote
      then require (is_some tx.parent) must_have_parent
      else require (not (is_some tx.parent)) should_not_have_parent
