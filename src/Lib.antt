-- ===== src/Lib.antt =====
-- Verification library of opencoin, a proof-of-stake chain in Go.
--
-- The program. A transaction (pkg/types) carries an encoded payload (pkg/tx). The state machine
-- (pkg/state) decodes it, resolves and checks the sender's key and signature (pkg/tx, pkg/crypto),
-- regenerates the sender's resource credit (pkg/rc), performs the payload, for contracts through the
-- engine of pkg/contracts, charges the cost and writes the accounts to the store. The mempool
-- (pkg/mempool) admits transactions before that by an estimate of the cost. Validators and what is
-- delegated to them are kept by pkg/consensus, apart from the accounts' stake, which runs the rounds
-- of votes. Blocks and consensus messages are encoded, hashed and signed by pkg/encoding and
-- pkg/consensus. A node (pkg/node) starts from a genesis document (pkg/genesis), and peers exchange
-- session keys (pkg/p2p).
--
-- The files.
-- - Prelude: numbers, int64 and uint64, byte lists, Go maps as association lists, Go's (value, error).
-- - Wire: protowire as a record of functions with its documented laws, and the loop that every
--   decoder of the program is; Wire/Loop has its proof rules.
-- - Types: pkg/types/types.go.
-- - Payload, Payload/Decode: pkg/tx/payload.go and pkg/tx/payload_encoding.go; a case of a decoder's
--   switch is a `..._step` function. Payload/Amounts, Fields, Total and RoundTrip hold proofs.
-- - Encoding, Encoding/Unmarshal: pkg/encoding, pkg/tx/signing.go and pkg/consensus/signing.go.
-- - Store, Store/Codec: pkg/state/store.go and pkg/state/codec.go over a database. Store/Accounts,
--   Timestamps, Agree and Metadata hold proofs.
-- - Crypto: pkg/crypto/address.go, VerifyEd25519 of pkg/crypto/ed25519.go and pkg/tx/verify.go.
-- - Rc: pkg/rc/rc.go; Rc/Bounds and Rc/Median hold proofs.
-- - Contracts: pkg/contracts/engine.go; Contracts/Deploy has the reachable engines;
--   Contracts/Deploy and Taken hold proofs.
-- - Ledger: applyTransactionWithKV of pkg/state/state.go, split into its checks (`authorize`,
--   `prepare`), its type switch (`run_payload`) and its end (`settle`); Ledger/Block is the loop over
--   a block's transactions. The source's closures get and set are the interface `Accounts`, which
--   Ledger/Backend fills by the store. Ledger/Apply, Effects, Payments, Invariant and Preview
--   hold proofs.
-- - Ledger/Coster: pkg/tx/coster.go.
-- - Dpos: pkg/consensus/dpos.go; Dpos/Power, Slashing, Ranking, Unique and
--   Keyed hold proofs.
-- - Consensus: the handlers of pkg/consensus/hotstuff.go, over the interface `Machine` for the
--   state, the store and the mempool; Consensus/Proposer and Tally: who proposes, and `tryBuildQC`;
--   Consensus/Certificate: pkg/consensus/qc.go. Consensus/Quorum, Decided, Handlers, Turns,
--   Cast, Proposed, Recovery and Certificate/Built hold proofs.
-- - Mempool: AddTx of pkg/mempool/mempool.go; Mempool/Select: SelectForBlock and the heap under it;
--   Mempool/Order, Heap, Offered, Filled and Selection hold proofs.
-- - Roots: pkg/state/merkle.go; Roots/Inputs lists what is hashed on the way to a root; Roots/Levels,
--   Leaves and Binding hold proofs.
-- - Dag: pkg/state/dag.go; Dag/Seen and Pruning hold proofs.
-- - Chain: PreviewBlock and ApplyBlock of pkg/state/state.go; Chain/Outcome and
--   Chain/Previewed hold proofs.
-- - Governance: pkg/governance/governance.go; Governance/Ids holds proofs.
-- - Genesis: pkg/genesis/genesis.go. Config: pkg/config/config.go and pkg/config/io.go.
-- - Node: applyGenesis of pkg/node/node.go; Node/Services: the state, the store and the mempool of a
--   node as the consensus engine is given them, which fills the interface `Machine`; Node/Start: Start
--   and toMultiaddr, OpenStore of pkg/state/store.go, and the commands `init`, `start` and
--   `query account` of cmd/opencoin/cmd/root.go. Node/Restart, Recovery, Progress, Untouched, Started,
--   Rejoin and Fresh hold proofs.
-- - P2p: the key exchange, the framing and the encryption of pkg/p2p/p2p.go, with the wrappers of
--   pkg/crypto/kyber_cgo.go; P2p/Host: New and connectPeer. P2p/Framing and Channel hold proofs.
-- - Keys: pkg/crypto/dilithium.go, dilithium_cgo.go, keystore.go and the key pairs of ed25519.go;
--   Keys/Stored holds proofs. Wallet: the commands `keys add`, `keys validator` and
--   `tx transfer` of cmd/opencoin/cmd/root.go; Wallet/Accepted and Validator hold proofs.
-- - Tests: concrete instances of the parameters and runs.
--
-- Conventions. Strings, byte slices and addresses are lists of bytes; a hash is 32 bytes. A pointer is
-- an option where the source tests it for nil. A uint64 is a number with its wrap-around written out,
-- an int64 an integer. A Go error is `err` with its message less the formatted values; a Go panic is
-- `panics`. A mutated account is returned. A decoder's loop runs on fuel, the length of its
-- input, and `stuck` is an exhausted loop: each turn consumes at least the tag, so that the fuel is
-- enough.
--
-- Parameters. Code outside the repository enters as records: protowire (Wire, with its laws), the
-- database Pebble (Kv: a read sees the last write; Database: its iterator, which reads only what is under the accounts'
-- prefix, and its commits, which change no read; that no write fails is a hypothesis of its own), wazero (Runtime, without laws), container/heap (HeapPackage: it rearranges),
-- SHA-256, bech32 and the verification of Ed25519 (Crypto, without laws), Kyber-768 and Dilithium2 in
-- C and Go's Ed25519 (sizes; a ciphertext opens to its secret, a signature verifies), libp2p and
-- net.SplitHostPort (Libp2p and Platform, without laws), HKDF and
-- ChaCha20-Poly1305 (what was sealed is opened), and the files with base64, JSON and paths (Disk: what
-- was written is read back). What is drawn at random is an argument.
--
-- Not modelled. Locks and contexts, since every operation is one step. Closing the store, the HTTP
-- server, the topics of libp2p, the trigger of a key exchange on a new connection, and the declaration
-- of commands and flags. What a start that fails has already written to the store. The CometBFT bridge
-- (pkg/network/abci.go), which names types that the repository does not declare.
pub mod Prelude
pub mod Wire
pub mod Types
pub mod Payload
pub mod Encoding
pub mod Store
pub mod Crypto
pub mod Contracts
pub mod Rc
pub mod Dpos
pub mod Ledger
pub mod Chain
pub mod Consensus
pub mod Dag
pub mod Roots
pub mod P2p
pub mod Genesis
pub mod Keys
pub mod Config
pub mod Wallet
pub mod Node
pub mod Mempool
pub mod Governance
pub mod Tests
