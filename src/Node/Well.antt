-- ===== src/Node/Well.antt =====
-- SendBlock of src/node/miner.go on a node whose side chains and orphans are a forest.
use dreddit.Base.{
  ℕ, zero, suc, ◌-◌, ◌≡◌, inl, inr, Bool, true, false, List, [], ◌∷◌, ◌++◌, Option, none, some,
  Bytes, bytes_equal, bytes_eq, if◌then◌else◌, length, get_elem?, get_elem?-append, sub_ℕ, Error,
  Result, ok, err, panic, out_of_fuel, ◌>>=◌, Ends, Any, Ends-bind, Ends-if,
}
use dreddit.Block.Types.{Block}
use dreddit.Block.Defs.{Setting, validate_block}
use dreddit.Node.State.{Ref, Heap, DrNode}
use dreddit.Node.Validate.{Ecdsa, validate_block_txs}
use dreddit.Node.Finite.{
  validate_block-Ends, validate_block_txs-Ends, settle_txs-Ends, extends-Ends,
}
use dreddit.Node.Chain.Place.{Placed, known, placed, scan_main}
use dreddit.Node.Chain.SendBlock.{
  extends, extend_main, join_side, after_main, send_block, settle_txs,
}
use dreddit.Node.Chain.Frame.{IsOrdered}
use dreddit.Node.Chain.Healthy.{HasGap, IsWell, join_side-Ends}
use dreddit.Node.Chain.Grown.{IsRun-append, IsForest-append}

module _ (age : Bytes → ℕ) (b : Block) (ordered : IsOrdered age b) where
  module _ (g : Setting) (c : Ecdsa) where
    abbrev WellNode : DrNode × Option Error → Type 0
    WellNode r = IsWell age r.0

    -- A block that joins the main chain.
    grown-IsWell :
        (n : DrNode) (m : _) (db : _) (count : _)
        → extends b.prev_block n.blockchain ≡ ok true
        → IsWell age n
        → IsWell age (record n {
          blockchain = n.blockchain ++ some b ∷ [];
          pending_txs = m;
          utxo = db;
          num_pending = count;
        })
    grown-IsWell n m db count at_end (inl w) = inl (record {
      run = IsRun-append age b ordered n.blockchain at_end w.run;
      forest =
          IsForest-append age b ordered n.blockchain n.side_chains n.orphan_chains n.heap w.forest;
      deep = w.deep;
    })
    grown-IsWell n m db count at_end (inr (i, gap)) =
        inr (i, get_elem?-append n.blockchain (some b ∷ []) i none gap)

    extend_main-Ends :
        (n : DrNode)
        → extends b.prev_block n.blockchain ≡ ok true
        → IsWell age n
        → Ends WellNode (extend_main g c n b)
    unfolding extend_main
    extend_main-Ends n at_end w =
        by_verdict (validate_block_txs g.scrypt c n.utxo n.blockchain b)
          (validate_block_txs-Ends g.scrypt c n.utxo n.blockchain b)
      where
        by_verdict :
            (r : Result (Unit {0}))
            → Ends Any r
            → Ends WellNode (elim r [
              | err e ↦ ok (n, some e)
              | panic p ↦ panic p
              | out_of_fuel ↦ out_of_fuel
              | ok u ↦ settle_txs g.scrypt b.transactions n.pending_txs n.utxo >>= λ (m, db). ok (
                record n {
                  blockchain = n.blockchain ++ some b ∷ [];
                  pending_txs = m;
                  utxo = db;
                  num_pending = sub_ℕ n.num_pending (length b.transactions - 1);
                },
                none,
              )
            ])
        by_verdict (err e) h = w
        by_verdict (panic p) h = tt
        by_verdict out_of_fuel h = h
        by_verdict (ok u) h =
            Ends-bind Any WellNode (settle_txs g.scrypt b.transactions n.pending_txs n.utxo) _
              (settle_txs-Ends g.scrypt b.transactions n.pending_txs n.utxo)
              (λ (m, db) run v. grown-IsWell n m db _ at_end w)

    -- A scan of a chain with a gap comes to no place.
    abbrev IsKnown : Placed → Type 0
    IsKnown (known h) = Unit {0}
    IsKnown (placed cur h) = ⊥

    scan_gap-Ends :
        (index i : ℕ) (rest : List (Option Block)) (cur : Option Ref) (h : Heap)
        → get_elem? rest i ≡ some none
        → Ends IsKnown (scan_main b index rest cur h)
    unfolding scan_main
    scan_gap-Ends index i [] cur h gap = cc
    scan_gap-Ends index i (none ∷ rest) cur h gap = tt
    scan_gap-Ends index zero (some a ∷ rest) cur h gap = absurd (clash gap)
      where
        clash : some (some a) ≡ some none → ⊥
        clash q = cc
    scan_gap-Ends index (suc i) (some a ∷ rest) cur h gap =
        Ends-if IsKnown (bytes_equal b.block_hash a.block_hash) _ _ (λ same. tt)
          (λ other.
            Ends-if IsKnown (bytes_equal b.prev_block a.block_hash) _ _
              (λ below. scan_gap-Ends (suc index) i rest _ _ gap)
              (λ past. scan_gap-Ends (suc index) i rest cur h gap))

    join_gap-Ends : (n : DrNode) → HasGap n.blockchain → Ends (IsWell age) (join_side n b)
    unfolding join_side after_main
    join_gap-Ends n (i, gap) =
        Ends-bind IsKnown (IsWell age) (scan_main b 0 n.blockchain none n.heap) _
          (scan_gap-Ends 0 i n.blockchain none n.heap gap) on_known
      where
        on_known :
            (p : Placed)
            → scan_main b 0 n.blockchain none n.heap ≡ ok p
            → IsKnown p
            → Ends (IsWell age) (after_main n b p)
        on_known (known h) run k = inr (i, gap)
        on_known (placed cur h) run k = absurd k

    join_side-IsWell : (n : DrNode) → IsWell age n → Ends (IsWell age) (join_side n b)
    join_side-IsWell n (inl w) = join_side-Ends age b ordered n w
    join_side-IsWell n (inr gap) = join_gap-Ends n gap

    logged-IsWell :
        (n : DrNode) (log : List Block) → IsWell age n → IsWell age (record n { log = log })
    logged-IsWell n log (inl w) = inl (record { run = w.run; forest = w.forest; deep = w.deep })
    logged-IsWell n log (inr gap) = inr gap

    placed-Ends :
        (n : DrNode) (on_main : Bool)
        → extends b.prev_block n.blockchain ≡ ok on_main
        → IsWell age n
        → Ends WellNode
            (if on_main then extend_main g c n b else (join_side n b >>= λ n'. ok (n', none)))
    placed-Ends n true at w = extend_main-Ends n at w
    placed-Ends n false at w =
        Ends-bind (IsWell age) WellNode (join_side n b) _ (join_side-IsWell n w) (λ n' run w'. w')

    -- On a node whose side chains and orphans are a forest that hangs on its main chain, and
    -- whose blocks and the new one are put in an order by their hashes (so that no hash leads
    -- back to itself), or whose main chain has a nil block, `SendBlock` is not out of fuel; and
    -- if it returns, the node is again such a node.
    pub send_block-IsWell : (n : DrNode) → IsWell age n → Ends WellNode (send_block g c n b)
    unfolding send_block
    send_block-IsWell n w = by_verdict (validate_block g b) (validate_block-Ends g b)
      where
        logged : DrNode
        logged = record n { log = n.log ++ b ∷ [] }

        by_verdict :
            (r : Result (Unit {0}))
            → Ends Any r
            → Ends WellNode (elim r [
              | err e ↦ ok (logged, some e)
              | panic p ↦ panic p
              | out_of_fuel ↦ out_of_fuel
              | ok u ↦ extends b.prev_block logged.blockchain >>= λ on_main.
                  if on_main
                  then extend_main g c logged b
                  else (join_side logged b >>= λ n'. ok (n', none))
            ])
        by_verdict (err e) h = logged-IsWell n _ w
        by_verdict (panic p) h = tt
        by_verdict out_of_fuel h = h
        by_verdict (ok u) h =
            Ends-bind Any WellNode (extends b.prev_block n.blockchain) _
              (extends-Ends b.prev_block n.blockchain)
              (λ on_main at v. placed-Ends logged on_main at (logged-IsWell n _ w))
