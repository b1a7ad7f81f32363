-- ===== src/Node/Run/Links.antt =====
-- Neighbouring blocks of the main chain name each other: what SendBlock and mine of
-- src/node/miner.go ask of a block before they append it.
use mathlib.Core.Path.{sym, ◌∙◌}
use mathlib.Core.List.{append-nil}
use dreddit.Base.{
  ◌≡◌, refl, ap, arith, length, true, List, [], ◌∷◌, ◌++◌, Option, none, some, Bytes,
  bytes_equal_iff, ok, ok_injective,
}
use dreddit.Slice.{make_bytes, copy_slice}
use dreddit.Slice.Fill.{fit, copy_slice-fill, fit_exact}
use dreddit.Hash.{hash_num_bytes}
use dreddit.Block.Types.{Block}
use dreddit.Block.Hashed.{IsHashed}
use dreddit.Node.Mine.{prev_block_hash}
use dreddit.Node.Chain.SendBlock.{extends}

-- No block is nil, each has a hash of full length, and each names the one before it.
abbrev pub IsLinked : List (Option Block) → Type 0
IsLinked [] = Unit {0}
IsLinked (none ∷ chain) = ⊥
IsLinked (some b ∷ []) = IsHashed b
IsLinked (some b ∷ none ∷ chain) = ⊥
IsLinked (some a ∷ some b ∷ chain) =
    IsHashed a × (b.prev_block ≡ a.block_hash) × IsLinked (some b ∷ chain)

pub extends-IsLinked :
    (chain : List (Option Block)) (b : Block)
    → IsLinked chain
    → IsHashed b
    → extends b.prev_block chain ≡ ok true
    → IsLinked (chain ++ some b ∷ [])
unfolding extends
extends-IsLinked [] b w full e = full
extends-IsLinked (none ∷ chain) b w full e = absurd w
extends-IsLinked (some a ∷ []) b w full e =
    (w, (bytes_equal_iff b.prev_block a.block_hash).0 (ok_injective e), full)
extends-IsLinked (some a ∷ none ∷ chain) b w full e = absurd w
extends-IsLinked (some a ∷ some x ∷ chain) b w full e =
    (w.0, w.1, extends-IsLinked (some x ∷ chain) b w.2 full e)

copied_hash :
    (h prev : Bytes)
    → length h ≡ 32
    → copy_slice 0 hash_num_bytes h (make_bytes hash_num_bytes) ≡ ok prev
    → prev ≡ h
copied_hash h prev full copied =
    sym (ok_injective (sym (copy_slice-fill 0 32 0 h [] refl (omega arith)) ∙ copied))
    ∙ append-nil (fit 32 h)
    ∙ fit_exact 32 h full

-- The hash that mine copies out of the chain's last block names it.
pub prev_block_hash-extends :
    (chain : List (Option Block)) (prev : Bytes)
    → IsLinked chain
    → prev_block_hash chain ≡ ok prev
    → extends prev chain ≡ ok true
unfolding extends prev_block_hash
prev_block_hash-extends [] prev w copied = refl
prev_block_hash-extends (none ∷ chain) prev w copied = absurd w
prev_block_hash-extends (some a ∷ []) prev w copied =
    ap ok ((bytes_equal_iff prev a.block_hash).1 (copied_hash a.block_hash prev w copied))
prev_block_hash-extends (some a ∷ none ∷ chain) prev w copied = absurd w
prev_block_hash-extends (some a ∷ some x ∷ chain) prev w copied =
    prev_block_hash-extends (some x ∷ chain) prev w.2 copied
