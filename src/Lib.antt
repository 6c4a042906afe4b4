-- ===== src/Lib.antt =====
-- The proposer commitment network: the gateway (interstate-gateway), a sidecar of the proposer that
-- answers preconfirmation requests with signed constraints, and the PBS module
-- (interstate-pbs-module), which stores the constraints and checks the bids of relays against them.
--
-- A request comes in through the event loop of the gateway (interstate-gateway/src/main.rs), is
-- checked by the constraint state (state/mod.rs) and then by the execution state
-- (state/execution.rs), which uses the validators of the request (commitment/request.rs), the fee
-- bounds (utils/transactions.rs), the pricing (state/pricing.rs), the account cache
-- (utils/score_cache.rs) and the block templates (builder/mod.rs). Accepted transactions become
-- constraints of a block, which the commitment deadline takes out. Head events move both states on.
-- The PBS module saves the same constraints per slot (constraints.rs), and get_header_with_proofs
-- (server.rs) takes them, drops the bids whose multiproofs fail (proofs.rs), and picks the best.
--
-- The gateway stands between the beacon node and the relays as a proxy of the builder API
-- (constraints/constraints_proxy_server.rs). If the relays give no header in time, it offers the block
-- that it has built itself from the constraints (constraints/builder.rs, constraints/block_builder.rs),
-- whose header it completes with the execution engine's complaints, and gives the payload for it.
-- Validators name the gateway by signed delegations, which scripts make and revoke (scripts/).
--
-- The files, with the code each is about:
--   Base: Boolean tests, lists, results, machine words, association lists and integers
--   Errors: PricingError and ValidationError
--   Tx: TransactionExt and Constraint (interstate-gateway/src/constraints/mod.rs)
--   Tx/Fees: AccountState, calculate_max_basefee, max_transaction_cost, validate_transaction
--   Tx/Basefee, Tx/Cost: on the base fee and on the cost
--   Pricing: PreconfPricer
--   Request: PreconfRequest and its validators; Request/Validators, Request/Fees: on them
--   ScoreCache: ScoreCache; ScoreCache/Eviction, ScoreCache/Reads: on clear_stales and the accesses
--   Constraints: ConstraintsMessage and SignedConstraints; Constraints/Texts: serialize_txs and
--     deserialize_txs
--   Template: BlockTemplate and StateDiff; Template/Retain: on retain
--   Execution: ExecutionState and the loop of verify_el_tx; Execution/Verify: verify_el_tx;
--     Execution/Head: update_head and what it calls; Execution/Bundle, Execution/Reach: on them
--   State: ConstraintState, Block, CommitmentDeadline; State/Head: update_head with its retries;
--     State/Checks: validate_preconf_request; State/Listener: HeadEventListener; State/Epochs,
--     State/Blocks: on them
--   Gateway: the handlers of main.rs; Gateway/Deadline, Gateway/Promises, Gateway/Amounts: on them
--   Gateway/EventLoop: the loop of main.rs; Gateway/EventLoop/Kept, Gateway/EventLoop/Sent,
--     Gateway/EventLoop/Offered: on its runs, with Gateway/EventLoop/Blocks and
--     Gateway/EventLoop/Heads on what single handlers do to the blocks
--   Pbs/Message: types.rs; Pbs/Store: ConstraintStore; Pbs/Proofs: validate_multiproofs;
--     Pbs/Server: the handlers; Pbs/Store/Invariant, Pbs/Store/Lookup, Pbs/Server/Bids: on them
--     Pbs/Store/Concurrent: calls of the store at the same time; Pbs/Store/Concurrent/Bounds,
--     Pbs/Store/Concurrent/Duplicates: on them; Pbs/Routes: the other routes; Pbs/Routes/Runs: on two
--     requests for a header;
--     Pbs/Submission, Pbs/Submission/Blocks: on how a block of the gateway is saved;
--     Pbs/Submission/Chosen: on the header that is then given;
--     Pbs/Store/Refinement: on sequences of calls; Pbs/Server/Timing: the requests to one relay, and
--     Pbs/Server/Timing/Deadlines on them
--   Digest: the bytes that are signed, of requests and of messages on both sides; Digest/Bytes,
--     Digest/Binding: on them
--   Commitment: CommitmentRequestHandler and the responses; Commitment/Admission: on it
--   Fetcher: ExecutionClient and ClientState; Fetcher/Updates: on them
--   Config: ChainConfig, Chain, ValidatorIndexes; Config/Environment: Config; Config/Indexes,
--     Config/Domains, Config/Environment/Reads: on them
--   Keys: Keystores; Keys/Signed: on it
--   Builder: the data of the fallback builder; Builder/Draft: hints and the header; Builder/Payload:
--     the conversions of a block; Builder/Engine: EngineHinter; Builder/Sealing: the loop of
--     build_sealed_block; Builder/Fallback: FallbackBuilder; Builder/Engine/Answers and the files
--     in Builder/Sealing: on them
--   Proxy: ConstraintsAPIProxyServer; Proxy/Integrity, Proxy/Requests: on it
--   Relay: CommitBoostApi; Relay/Retries: on its retries; Relay/Responses: the responses of
--     CommitBoostError (errors/mod.rs)
--   Delegation: the messages of the scripts and their verification; Delegation/Keystores,
--     Delegation/Web3Signer: the two ways to sign; Delegation/Scripts: the flow of both scripts;
--     Delegation/Verified: on them; Delegation/Signers: the signers of interstate-gateway/src/delegation;
--     Delegation/Signers/Revocations: on them; Delegation/Sidecar: the delegate-only sidecar;
--     Delegation/Sidecar/Posted: on it
--   Examples: concrete runs
--
-- How the code is written here. Stateful methods take the state and return it, with a result that is
-- ok, err or panic (unwrap, expect, unimplemented). Integers are natural numbers, with the
-- wrap-around of a release build written out; addresses, hashes, keys and signatures are numbers. A
-- HashMap is an association list, whose order stands for the order of iteration. The handlers of the
-- gateway hold one lock from start to end, so a run of the gateway is a sequence of them: the event
-- loop is a step relation, whose steps are the branches of its select and the runs of spawned
-- handlers, in any order. The logs in its state are read by no code. The routes of the PBS module run
-- concurrently: a function of them or of its store is a request or a call that no other interrupts, and
-- Pbs/Store/Concurrent cuts the calls where they hold no lock and lets the parts run in any order. A
-- loop is
-- structural on its list or on the retries that are left; clear_stales has fuel, two rounds more
-- than the largest score, which is enough since its round i keeps the scores above i; the hint loop
-- of the block builder has 22 rounds, after which its counter ends it, and the repeated requests to
-- a relay have fuel for the time that is left, of which each takes some. Texts are lists of code
-- points, keys and signatures of the delegation scripts and of the keystores lists of bytes.
--
-- Parameters stand for what the repository does not hold: the transaction libraries (TxLib), floats
-- (F64), hashing, decoding and Merkle proofs (PbsLib), block hashes, SSZ and the regular expression
-- of the hints (BuilderLib), SHA-256 and BLS (BlsLib, SignLib), the encoding of transactions and hex
-- (Encoding), URLs and addresses (Parsers), and as arguments the clock, the
-- signers, files, environment variables and the answers of the beacon node, the execution client,
-- the engine and the relays.
--
-- Not modelled: metrics, the routers and listeners of the HTTP servers, the bodies of HTTP errors, the
-- command line, the start-up of main before its loop, the ECDSA
-- signatures of state/signature.rs, the contract with the list of allowed addresses, and test
-- helpers.
pub mod Base
pub mod Errors
pub mod Tx
pub mod Pricing
pub mod Request
pub mod ScoreCache
pub mod Builder
pub mod Config
pub mod Constraints
pub mod Template
pub mod Execution
pub mod State
pub mod Gateway
pub mod Proxy
pub mod Relay
pub mod Delegation
pub mod Keys
pub mod Digest
pub mod Commitment
pub mod Fetcher
pub mod Pbs
mod Examples
