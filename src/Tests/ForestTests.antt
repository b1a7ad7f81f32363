-- ===== src/Tests/ForestTests.antt =====
-- A node with a side chain of two blocks, an orphan, and the block between them.
use mathlib.Core.Path.{subst}
use mathlib.Core.Option.{some-injective}
use dreddit.Base.{
  ℕ, ◌≤◌, ◌≡◌, refl, inl, inr, true, List, [], ◌∷◌, ◌++◌, Option, none, some, Bytes, get_elem?,
  is_some, pos, arith, Error, ok, Ends, zero, suc, sym, ap, ◌∙◌, false, All, All-at, ◌==◌,
  if◌then◌else◌,
}
use dreddit.Slice.{make_bytes, fit}
use dreddit.Hash.{hash}
use dreddit.Slice.{slice, copy_slice}
use dreddit.Tx.Wire.{tx_hash, tx_out_pack, pack_int}
use dreddit.Merkle.Defs.{build_merkle_tree_store}
use dreddit.Block.Defs.{validate_block, pack, make_coinbase_tx}
use dreddit.Block.Types.{Block}
use dreddit.Tests.Toy.{toy_setting, toy_ecdsa, small_db}
use dreddit.Tests.ChainTests.{first_block}
use dreddit.Node.State.{Ref, SideChain, Heap, DrNode}
use dreddit.Node.Chain.Tree.{below, find_parent, recompute}
use dreddit.Node.Chain.SendBlock.{send_block}
use dreddit.Node.Chain.Frame.{IsChildOf, IsTied, IsOrdered, IsAged}
use dreddit.Node.Chain.Walk.{Walk, first_of, find_parent-first}
use dreddit.Node.Chain.Recompute.{Repainted, recompute-Repainted}
use dreddit.Node.Chain.Forest.{IsForest, IsNode}
use dreddit.Node.Chain.Placing.{IsDeep}
use dreddit.Node.Chain.Moving.{IsRun}
use dreddit.Node.Chain.Healthy.{IsWell}
use dreddit.Node.Well.{send_block-IsWell}

-- The first byte of a hash; a difficulty of 1 makes it 0 in a valid block.
abbrev age : Bytes → ℕ
age [] = 0
age (x ∷ h) = if x == 0 then 100 else x

-- Two blocks of the main chain, two of a side chain below the first, and an orphan.
abbrev root_block : Block
root_block = record first_block { prev_block = []; block_hash = 1 ∷ [] }

abbrev main_block : Block
main_block = record first_block { prev_block = 1 ∷ []; block_hash = 2 ∷ [] }

abbrev side_block : Block
side_block = record first_block { prev_block = 1 ∷ []; block_hash = 3 ∷ [] }

abbrev top_block : Block
top_block = record first_block { prev_block = 3 ∷ []; block_hash = fit 32 (4 ∷ []) }

abbrev orphan_block : Block
orphan_block = record first_block { prev_block = make_bytes 32; block_hash = 200 ∷ [] }

-- The block that comes after the side chain and before the orphan.
abbrev late_block : Block
late_block = record first_block {
  prev_block = fit 32 (4 ∷ []);
  nonce = 188;
  block_hash = make_bytes 32;
}

abbrev woods : Heap
woods =
    record {
      parent = none;
      parent_index = some 0;
      block = side_block;
      depth = 0;
      children = 1 ∷ [];
    }
    ∷ record { parent = some 0; parent_index = some 0; block = top_block; depth = 1; children = [] }
    ∷ record { parent = none; parent_index = none; block = orphan_block; depth = 0; children = [] }
    ∷ []

abbrev main_chain : List (Option Block)
main_chain = some root_block ∷ some main_block ∷ []

abbrev wooded : DrNode
wooded = record {
  me = 0;
  pub_hash = [];
  num_pending = pos 0;
  pending_txs = [];
  seen_txs = [];
  blockchain = main_chain;
  heap = woods;
  side_chains = 0 ∷ [];
  orphan_chains = 2 ∷ [];
  log = [];
  utxo = small_db;
  port = [];
  ports = [];
  servers = [];
}

woods-IsTied : IsTied woods
woods-IsTied r sc at =
    All-at (λ (sc : SideChain). All (IsChildOf woods sc) sc.children) woods r sc at
      (((_, refl, refl), tt), (tt, (tt, tt)))

woods-IsAged : IsAged age woods
woods-IsAged = (omega arith, (omega arith, (omega arith, tt)))

woods-IsDeep : IsDeep woods
woods-IsDeep r sc at =
    All-at (λ (sc : SideChain). is_some sc.parent ≡ true → 1 ≤ sc.depth) woods r sc at
      (none_left, ((λ has. omega arith), (none_left, tt)))
  where
    none_left : {d : ℕ} → false ≡ true → 1 ≤ d
    none_left e = cc

woods-IsForest : IsForest age main_chain (0 ∷ []) (2 ∷ []) woods
woods-IsForest = record {
  tied = woods-IsTied;
  aged = woods-IsAged;
  nodes = λ r sc at. All-at (IsNode main_chain woods) woods r sc at (
    record { kids = ((_, refl, refl), tt); hangs = inr (0, refl, (root_block, refl, refl)) },
    (record { kids = tt; hangs = (_, refl, refl) }, (record { kids = tt; hangs = inl refl }, tt)),
  );
  side_roots = ((_, refl, refl, refl), tt);
  orphan_roots = ((_, refl, inl refl), tt);
}

main_chain-IsRun : IsRun age main_chain
main_chain-IsRun = record {
  linked = linked;
  ordered = λ i b at.
      All-at (λ (p : Option Block). (b : Block) → p ≡ some b → IsOrdered age b) main_chain i
        (some b) at
        (
          (λ x e. subst (IsOrdered age) (some-injective _ _ e) (omega arith)),
          ((λ x e. subst (IsOrdered age) (some-injective _ _ e) (omega arith)), tt),
        )
        b refl;
  there = λ i at.
      All-at (λ (p : Option Block). p ≡ none → ⊥) main_chain i none at ((λ e. cc), ((λ e. cc), tt))
        refl;
}
  where
    linked :
        (i : ℕ) (a b : Block)
        → get_elem? main_chain i ≡ some (some a)
        → get_elem? main_chain (suc i) ≡ some (some b)
        → b.prev_block ≡ a.block_hash
    linked zero a b at_a at_b =
        ap (λ (x : Block). x.prev_block) (sym (some-injective _ _ (some-injective _ _ at_b)))
        ∙ ap (λ (x : Block). x.block_hash) (some-injective _ _ (some-injective _ _ at_a))
    linked (suc zero) a b at_a at_b = cc
    linked (suc (suc i)) a b at_a at_b = cc

wooded-IsWell : IsWell age wooded
wooded-IsWell =
    inl (record { run = main_chain-IsRun; forest = woods-IsForest; deep = woods-IsDeep })

send_block-IsWell_example :
    Ends
      (λ (r : DrNode × Option Error). IsWell age r.0)
      (send_block toy_setting toy_ecdsa wooded late_block)
send_block-IsWell_example =
    send_block-IsWell age late_block (omega arith) toy_setting toy_ecdsa wooded wooded-IsWell

find_parent-first_example :
    (xs : List Ref) × Walk woods (1 ∷ []) xs
    × (find_parent 4 woods (3 ∷ []) (fit 32 (4 ∷ [])) 0
        ≡ ok (first_of woods (3 ∷ []) (fit 32 (4 ∷ [])) (0 ∷ xs)))
find_parent-first_example =
    find_parent-first woods (3 ∷ []) (fit 32 (4 ∷ [])) age woods-IsTied woods-IsAged 0 _ refl

-- The block and its predecessor are both there, and the predecessor comes first.
found_before : find_parent 4 woods (3 ∷ []) (fit 32 (4 ∷ [])) 0 ≡ ok (below 0)
unfolding find_parent
found_before = refl

recompute-Repainted_example :
    (h' : Heap) × (recompute 4 6 (some 9) woods 0 ≡ ok h') × Repainted 6 (some 9) woods 0 h'
recompute-Repainted_example =
    recompute-Repainted age (some 9) woods 6 0 _ woods-IsTied woods-IsAged refl

-- The block that joins the side chain makes it longer than the main chain, which keeps its blocks,
-- and is then followed by a nil in place of the side chain's first block.
reorganised :
    (n' : DrNode) × (send_block toy_setting toy_ecdsa wooded late_block ≡ ok (n', none))
    × (n'.blockchain ≡ main_chain ++ none ∷ some top_block ∷ some late_block ∷ [])
unfolding send_block validate_block slice pack copy_slice pack_int hash build_merkle_tree_store
    tx_hash make_coinbase_tx tx_out_pack
reorganised = (_, refl, refl)
