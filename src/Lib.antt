-- ===== src/Lib.antt =====
-- A verification library for dreddit, a social network that stores its posts in a blockchain.
--
-- The program. A node (src/node) keeps a chain of blocks, a tree of side chains, a database of the
-- outputs that are not yet spent, and the transactions that wait for a block. Clerks (src/clerk)
-- build and sign transactions and send them to nodes; nodes mine blocks and send them to each other.
-- A transaction is hashed (transaction.go, hash.go), blocks bind their transactions by a Merkle root
-- (merkle.go) and are mined and checked in block.go; miner.go validates transactions against the
-- database of utxodb.go, updates that database, and keeps the chain.
--
-- The files.
--   Base: shared names, lists over the native numbers (Lists, Places), the result type of fallible code
--     (Outcome) and predicates on it (Endings), integers.
--   Slice: Go's make, slicing and copy. Dict: Go's maps as association lists.
--   Hash: Hash and PKHash of hash.go over scrypt.
--   Tx: transaction.go. Types has the structures, Wire the packing and the two hashes, Check has
--     ValidateStructure, Preimage the bytes that are hashed, Finite that none of it runs out of fuel.
--   Utxo: utxodb.go and updateUtxoDb of miner.go. Spend and Conserve have the effect of an update on
--     what the database holds, Maps that its maps stay well formed, Query has GetUnspentTxs.
--   Merkle: merkle.go. Rows has the tree row by row, Loop and Root the linear array against it, Finite
--     that the array's loops end.
--   Block: block.go. Defs has pack, the coinbase, proofOfWork, GenerateBlock and ValidateBlock,
--     Genesis has GenerateGenesisBlock; Header, Hashed, Mined and Valid have their theorems.
--   Node: miner.go. State has DRNode; Validate the checks of transactions; Chain has SendBlock and
--     replayLog (Tree: FindParent and Recompute; Place: the scans; Reorganise: a new main chain);
--     Mine one round of mine; Requests AppendTx and the queries; Peers merge, Gossip and
--     gossipProtocol; Start bootstrap and the joining of a network. Accepts, Supply, Chain/Growth, Mined,
--     Pending, PeerList and Bootstrap have their theorems; Collect and Round take a round of mine apart.
--     The heap of side chains: Chain/Frame has its shape and how many blocks may come after a hash,
--     Search and Walk what FindParent finds, Paint and Recompute what Recompute marks, Forest the invariant,
--     Planting and Repaint the changes of single nodes. Placing (the scans), Adopting (the orphans),
--     Moving, Hanging and Shifting (the old end of the main chain), Climb and Healing (the new one) and
--     Healthy (all of it) go through a block off the main chain, Grown through one that extends it;
--     Finite is about the checks, Well about SendBlock.
--     Run is a node over time: Step has its steps in any order, Sound the invariant that they keep, Live
--     the reply that a waiting request gets, Links, Entries and Fate the lemmas.
--   Clerk: clerk.go. Make has MakeClerk, Defs has signing, the retry loop and the choice of outputs,
--     Requests has Transfer, Post, Comment and Upvote. Posted (with Published), Paid (with Gather and
--     Spends) and Served have what becomes of them at a node, Retry and Peers the rest. Bad is the clerk
--     of bad_clerk.go, Refused and BadCalls have what becomes of its transactions.
--   Keys: src/util/pk_pairs.go. Text has the texts of Go's library, Defs the code, Read its theorem.
--   Tests: concrete parameters, and the theorems at concrete inputs.
--   Client: src/client/client.go, whose functions client2.go repeats. Defs has the entries of
--     transactions, Page the front page, SetUp the start of both programs, Session the command loop,
--     Endless what it is without a quit; Votes, Entries and Scores have what the page knows of a
--     transaction, Parents what a reply to it is to the node.
--
-- How the code is read. Bytes and strings are lists of numbers, a uint32 is a number whose sums are
-- taken modulo 2 ^ 32, and numPending is an integer. A map is an association list in the order of its
-- iteration. A call ends with a value, with one of the program's errors, with a panic, or out of
-- fuel. A handler that holds the node's lock throughout is one function on the state; AppendTx, which
-- lets go of it, is two. The nodes of the side chains are places of a
-- heap. A nil block of the main chain never gets to the reorganisation, since the scan of the chain
-- panics on it before.
--
-- Fuel. The search for a nonce has the fuel of the setting, since it may not end; every nonce below
-- 2 ^ 32 is reached with more fuel than the nonce. The second loop of the Merkle array has the
-- array's length, more than its rounds. FindParent, Recompute and the walk up a side chain have one
-- more than the heap's nodes, which is enough where no hash leads back to itself. The
-- clerk's retry loop, the nesting of comments on the page and the client's command loop have an
-- argument.
--
-- Parameters. scrypt (with the length of its key), btcec, net/rpc, math.Log2, the decoding of
-- base64, the clock and the variables DIFFICULTY and BLOCK_SIZE_THRESHOLD.
--
-- Not modelled: printing (but for the keys, and the contents of the client's page), timers, goroutines
-- and channels, the registration of RPC services, the limit of bufio.Scanner on a line, the copied
-- network library (src/labrpc) and the tests.
pub mod Base
pub mod Slice
pub mod Hash
pub mod Dict
pub mod Tx
pub mod Utxo
pub mod Merkle
pub mod Block
pub mod Node
pub mod Clerk
pub mod Keys
pub mod Client
pub mod Tests
