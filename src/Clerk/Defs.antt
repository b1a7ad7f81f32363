-- ===== src/Clerk/Defs.antt =====
-- The clerk of src/clerk/clerk.go: its state, its calls of servers, and how it signs and pays.
-- `base64`, the random identity and the goroutine of GossipProtocol are left out.
use dreddit.Base.{
  ℕ, zero, suc, ◌+◌, ◌-◌, ◌%◌, Bool, not, ◌&&◌, List, [], ◌∷◌, ◌++◌, Option, none, some, Bytes, ltb,
  ◌==◌, if◌then◌else◌, length, map, Result, ok, err, panic, out_of_fuel, ◌>>=◌, index_out_of_range,
}
use dreddit.Slice.{u32_mod}
use dreddit.Hash.{Scrypt}
use dreddit.Tx.Types.{TxIn, Transaction}
use dreddit.Tx.Wire.{tx_hash_no_sig}
use dreddit.Utxo.Defs.{UnspentTx}
use dreddit.Node.Requests.{is_among}

-- A private key of btcec: `priv.PubKey().SerializeCompressed()`, and `priv.Sign(hash)` with
-- `sig.Serialize()`, where `none` is an error.
pub record PrivateKey : Type 0 where
  pub pub_key : Bytes
  pub sign : Bytes → Option Bytes

-- `servers` counts the clients of net/rpc, as the node's does.
pub record Clerk : Type 0 where
  pub port : Bytes
  pub ports : List Bytes
  pub servers : List Bytes
  pub clerk_id : ℕ
  pub current : ℕ
  pub priv_key : PrivateKey

-- net/rpc: what the call with the given number to the given server replies; `none` is an error.
pub record Network : Type 0 where
  pub get_utxo : ℕ → ℕ → Bytes → Option (List UnspentTx × Bool)
  pub append_tx : ℕ → ℕ → Transaction → Option Bool

-- The loop that goes on to the next server until a call has no error, on fuel.
unfoldable pub ask {ℓ} : {A : Type ℓ} → ℕ → (ℕ → ℕ → Option A) → ℕ → ℕ → ℕ → Result A
ask zero call servers attempt current = out_of_fuel
ask (suc fuel) call servers attempt current =
    if ltb current servers
    then elim (call attempt current) [
      | some reply ↦ ok reply
      | none ↦ ask fuel call servers (suc attempt) ((current + 1) % servers)
    ]
    else panic index_out_of_range

-- An input that has been given the signature.
abbrev pub with_sig : Bytes → TxIn → TxIn
with_sig g t = record t { sig = g }

-- A transaction that cannot be hashed or signed stays unsigned.
unfoldable pub sign_tx : Scrypt → PrivateKey → Transaction → Result Transaction
sign_tx s k tx = elim (tx_hash_no_sig s tx) [
  | err e ↦ ok tx
  | panic p ↦ panic p
  | out_of_fuel ↦ out_of_fuel
  | ok h ↦ elim (k.sign h) [
    | none ↦ ok tx
    | some g ↦ elim tx.tx_ins [
      | none ↦ ok tx
      | some ts ↦ ok (record tx { tx_ins = some (map (with_sig g) ts) })
    ]
  ]
]

-- `a - b` on uint32
abbrev pub u32_sub : ℕ → ℕ → ℕ
u32_sub a b = (a + u32_mod - b) % u32_mod

-- An input that spends the output and is not signed yet.
abbrev pub unsigned_spend : Bytes → UnspentTx → TxIn
unsigned_spend pub_key u = record {
  prev_tx_hash = u.tx_hash;
  prev_tx_out_index = u.tx_out_index;
  sig = [];
  pub_key = pub_key;
}

-- The loop of Transfer and Upvote over the unspent outputs, which stops above `need`: the sum and
-- the inputs.
unfoldable pub gather : Bytes → ℕ → List UnspentTx → ℕ → List TxIn → ℕ × List TxIn
gather pub_key need [] sum ins = (sum, ins)
gather pub_key need (u ∷ us) sum ins =
    let sum' = (sum + u.value) % u32_mod in
    let ins' = ins ++ unsigned_spend pub_key u ∷ [] in
    let rest = gather pub_key need us sum' ins' in if ltb need sum' then (sum', ins') else rest

-- QueryUtxo: a reply without outputs is no success.
unfoldable pub query_utxo : Clerk → Network → ℕ → Bytes → Result (List UnspentTx × Bool)
unfolding ask
query_utxo ck net fuel pub_key_hash =
    ask fuel (λ attempt server. net.get_utxo attempt server pub_key_hash) (length ck.servers) 0
      ck.current
    >>= λ (utxs, success). ok (utxs, success && not (length utxs == 0))

-- The loop at the end of Transfer, Post, Comment and Upvote.
unfoldable pub submit : Clerk → Network → ℕ → Transaction → Result Bool
unfolding ask
submit ck net fuel tx =
    ask fuel (λ attempt server. net.append_tx attempt server tx) (length ck.servers) 0 ck.current

-- Merge: unlike a node's, it does not ask for a port of its own. `dial` says whether net/rpc
-- reaches a port.
unfoldable pub merge_peers : (Bytes → Bool) → List Bytes → Clerk → Clerk
unfolding is_among
merge_peers dial [] ck = ck
merge_peers dial (port ∷ ports) ck = merge_peers dial ports (
    if is_among port ck.ports
    then ck
    else if dial port
    then record ck { servers = ck.servers ++ port ∷ []; ports = ck.ports ++ port ∷ [] }
    else ck)
