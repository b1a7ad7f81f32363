-- ===== src/Client/SetUp.antt =====
-- The start of `main` of src/client/client.go and of src/client/client2.go: their node, their clerk
-- and their client, each of which the programs make once. Base64, btcec and net/rpc are arguments,
-- as they are where the parts are made.
use dreddit.Base.{
  ℕ, ◌≡◌, refl, sym, ap, ◌∙◌, Bool, true, List, [], ◌∷◌, Option, some, Bytes, All, length, ◌≤◌,
  le→leb, get_elem?, map, take, Result, ok, ◌>>=◌, ok_injective, >>=-eq-ok, or_panic,
  index_out_of_range,
}
use dreddit.Hash.{pk_hash}
use dreddit.Utxo.Spend.{holdings}
use dreddit.Block.Types.{Block}
use dreddit.Block.Defs.{Setting}
use dreddit.Block.Genesis.{genesis_addresses, genesis_block}
use dreddit.Node.State.{DrNode}
use dreddit.Node.Validate.{Ecdsa}
use dreddit.Node.Accepts.{anyone}
use dreddit.Node.Start.{Server, new_node, apply_txs, bootstrap, join_servers, start_node}
use dreddit.Node.Bootstrap.{bootstrap-supply}
use dreddit.Clerk.Defs.{PrivateKey, Clerk}
use dreddit.Clerk.Make.{dial_servers, make_clerk}
use dreddit.Keys.Defs.{generate_pk_pairs, main_output, read_pk_pairs}
use dreddit.Keys.Read.{IsPlainEncoding, pair_of, read_back, new_key, read_pk_pairs-main}
use dreddit.Client.Defs.{Client, make_client}

-- What the programs are given from outside: `dial` says which ports net/rpc reaches, `decode` and
-- `decode_address` are base64's decoding of a private key and of an address of the genesis block,
-- and `text` is the file of keys.
pub record Outside : Type 1 where
  pub setting : Setting
  pub ecdsa : Ecdsa
  pub decode_address : Bytes → Bytes
  pub dial : Bytes → Bool
  pub decode : Bytes → Option Bytes
  pub key_from_bytes : Bytes → PrivateKey
  pub clerk_id : ℕ
  pub text : Bytes

-- `node.DIFFICULTY = 1`. BLOCK_SIZE_THRESHOLD, which the mining loop waits for, is no part of a
-- setting.
abbrev pub easy : Setting → Setting
easy g = record g { difficulty = 1 }

-- The programs differ in the ports of the node and of the clerk, and in the servers of the node.
unfoldable pub set_up :
    Outside → Bytes → Bytes → List Server → Result (DrNode × (Option Clerk × Client))
unfolding read_pk_pairs start_node make_clerk make_client
set_up o node_port clerk_port servers = do
  pairs ← read_pk_pairs o.text
  first ← or_panic (get_elem? pairs 0) index_out_of_range
  node ← start_node (easy o.setting) o.ecdsa o.decode_address 0 node_port first.pub_hash servers
  second ← or_panic (get_elem? pairs 1) index_out_of_range
  ok (
    node,
    (
      make_clerk o.dial o.decode o.key_from_bytes o.clerk_id clerk_port second.priv
          (node_port ∷ []),
      make_client o.dial clerk_port node_port,
    ),
  )

-- "10000" and "10100"
abbrev pub port_10000 : Bytes
port_10000 = 49 ∷ 48 ∷ 48 ∷ 48 ∷ 48 ∷ []

abbrev port_10100 : Bytes
port_10100 = 49 ∷ 48 ∷ 49 ∷ 48 ∷ 48 ∷ []

-- "20000" and "20200"
abbrev pub port_20000 : Bytes
port_20000 = 50 ∷ 48 ∷ 48 ∷ 48 ∷ 48 ∷ []

abbrev port_20200 : Bytes
port_20200 = 50 ∷ 48 ∷ 50 ∷ 48 ∷ 48 ∷ []

unfoldable pub client_main : Outside → Result (DrNode × (Option Clerk × Client))
unfolding set_up
client_main o = set_up o port_10000 port_10100 []

-- `dialled` is what becomes of the node's call of the node at port 10000.
unfoldable pub client2_main :
    Outside → Option (Option (List Block)) → Result (DrNode × (Option Clerk × Client))
unfolding set_up
client2_main o dialled =
    set_up o port_20000 port_20200 (record { port = port_10000; dialled = dialled } ∷ [])

bootstrap-pub_hash :
    (g : Setting) (decode : Bytes → Bytes) (n n' : DrNode)
    → bootstrap g decode n ≡ ok n'
    → n'.pub_hash ≡ n.pub_hash
unfolding bootstrap
bootstrap-pub_hash g decode n n' booted =
    let (b, made, h) = >>=-eq-ok (genesis_block g decode) _ booted in
    let (db, applied, h') = >>=-eq-ok (apply_txs g.scrypt b.transactions []) _ h in
    ap (λ (x : DrNode). x.pub_hash) (sym (ok_injective h'))

module _ (o : Outside) (encode : Bytes → Bytes) (plain : IsPlainEncoding encode)
    (inverse : (b : Bytes) → o.decode (encode b) ≡ some b) (k1 k2 : Bytes × Bytes)
    (keys : List (Bytes × Bytes)) where
  -- The clerk has the second key, and clerk and client speak to the node at this port.
  pub record IsOpen (node_port : Bytes) (clerk : Option Clerk) (cl : Client) : Type 0 where
    pub ck : Clerk
    pub made : clerk ≡ some ck
    pub key : ck.priv_key ≡ o.key_from_bytes k2.0
    pub servers : ck.servers ≡ node_port ∷ []
    pub current : ck.current ≡ 0
    pub server : cl.server ≡ some node_port
    pub same_clerk : cl.clerk_port ≡ ck.port

  abbrev first_hash : Bytes
  first_hash = encode (pk_hash o.setting.scrypt k1.1)

  read_file :
      o.text ≡ main_output o.setting.scrypt encode (map new_key (k1 ∷ k2 ∷ keys))
      → 10 ≤ length (k1 ∷ k2 ∷ keys)
      → read_pk_pairs o.text ≡ ok (map (pair_of o.setting.scrypt encode) (take 10 (k1 ∷ k2 ∷ keys)))
  read_file file ten = rw file (
      read_pk_pairs-main o.setting.scrypt encode plain (k1 ∷ k2 ∷ keys)
      ∙ rw (le→leb 10 (length (k1 ∷ k2 ∷ keys)) ten, read_back) refl)

  set_up-IsOpen :
      (node_port clerk_port : Bytes) (servers : List Server) (n : DrNode)
      → o.text ≡ main_output o.setting.scrypt encode (map new_key (k1 ∷ k2 ∷ keys))
      → 10 ≤ length (k1 ∷ k2 ∷ keys)
      → o.dial node_port ≡ true
      → start_node (easy o.setting) o.ecdsa o.decode_address 0 node_port first_hash servers ≡ ok n
      → (rest : Option Clerk × Client) × (set_up o node_port clerk_port servers ≡ ok (n, rest))
        × IsOpen node_port rest.0 rest.1
  unfolding set_up make_clerk make_client dial_servers generate_pk_pairs
  set_up-IsOpen node_port clerk_port servers n file ten up started = (
    (
      make_clerk o.dial o.decode o.key_from_bytes o.clerk_id clerk_port (encode k2.0)
          (node_port ∷ []),
      make_client o.dial clerk_port node_port,
    ),
    rw (read_file file ten, started) refl,
    record {
      ck = dial_servers o.dial (node_port ∷ []) (record {
        port = clerk_port;
        ports = [];
        servers = [];
        clerk_id = o.clerk_id;
        current = 0;
        priv_key = o.key_from_bytes k2.0;
      });
      made = rw (inverse k2.0, make_clerk) refl;
      key = rw up refl;
      servers = rw up refl;
      current = rw up refl;
      server = rw up refl;
      same_clerk = rw up refl;
    },
  )

  -- If base64 writes plain text that it decodes again, the file is what the keys' program prints
  -- of ten keys or more, each address decodes to 20 bytes, the genesis block of difficulty 1 can
  -- be generated, and the node's port can be reached, then the start of client.go returns: the
  -- node's chain is the genesis block alone with a supply of 1000, it mines for the first key,
  -- the clerk has the second one, and clerk and client speak to the node.
  pub client_main-IsOpen :
      (b : Block)
      → o.text ≡ main_output o.setting.scrypt encode (map new_key (k1 ∷ k2 ∷ keys))
      → 10 ≤ length (k1 ∷ k2 ∷ keys)
      → All (λ a. length (o.decode_address a) ≡ 20) genesis_addresses
      → genesis_block (easy o.setting) o.decode_address ≡ ok b
      → o.dial port_10000 ≡ true
      → (n : DrNode) × (rest : Option Clerk × Client) × (client_main o ≡ ok (n, rest))
        × (n.blockchain ≡ some b ∷ [])
        × (holdings anyone n.utxo ≡ 1000)
        × (n.pub_hash ≡ first_hash)
        × IsOpen port_10000 rest.0 rest.1
  unfolding client_main start_node join_servers
  client_main-IsOpen b file ten sized made up =
      let (n, booted, chain, log, supply) =
        bootstrap-supply (easy o.setting) o.decode_address b (new_node 0 port_10000 first_hash) made
          sized in
      let (rest, run, open') =
        set_up-IsOpen port_10000 port_10100 [] n file ten up (rw booted refl) in
      (
        n,
        rest,
        run,
        chain,
        supply,
        bootstrap-pub_hash (easy o.setting) o.decode_address (new_node 0 port_10000 first_hash) n
            booted,
        open',
      )
