-- ===== src/Lib.antt =====
-- Sekisho is a gateway in an enclave: it takes inference requests from callers with a key, checks
-- them against a policy, sends them to Anthropic or to an OpenAI-compatible provider, and signs a
-- receipt for what it relayed. Contracts on the Sui chain register enclaves and check their
-- receipts. This library models the enclave's Rust code in enclave/src, the Move contracts in
-- move/sources, and what the SDK in sdk/src does with a receipt.
--
-- The parts, and how they meet. A request goes to one of two handlers of enclave/src/server.rs.
-- The handler looks its bearer key up (auth.rs), takes a permit, has the provider's adapter
-- (providers/openai.rs, providers/anthropic.rs) read the body into the canonical schema
-- (canonical.rs), hashes that (blob.rs), asks the policy (policy.rs), calls the provider through
-- the adapter, and puts what comes back into a receipt, which is serialized, signed and stored
-- (receipt.rs). A streamed answer is relayed chunk by chunk while an accumulator of the adapter
-- assembles it; its receipt comes at the end. On chain, checkpoint.move keeps the approved code
-- versions and registers a gateway from an attestation document, and receipt.move serializes a
-- receipt that someone submits and checks the enclave's signature on it.
--
-- Base has the names that all modules share: Boolean tests on the native numbers, lists, Result,
-- bits.
-- Text, Text.Utf8 and Text.Decimal model what the code uses of str, String and char. A text is
-- the list of its code points, a byte string the list of its bytes.
-- Json is serde_json::Value with sorted objects, and its accessors.
-- External holds, as one record of functions, the crates that the code calls: serde_json's reader
-- and writer, sha2, walrus-core, hex, nautilus's signing context, subtle and http, and with them
-- how far a vector can grow. The derived deserializers are the records Decoders of the two
-- adapters.
-- Policy is enclave/src/policy.rs: PolicyDocument and the compiled forms, compile, ModelMatcher
-- (compile_matcher, matches); Policy.Evaluate is CompiledPolicy::evaluate with the texts of its
-- denials. Policy.Matcher, Policy.Compile and Policy.Evaluate.Verdict relate them to the document
-- as it is written, and Policy.Evaluate.Reasons is on the texts of denials.
-- Receipt is the first half of enclave/src/receipt.rs, serialize_intent_message and its writers;
-- Receipt.Encoding lists the fields, Receipt.Reader is a reader written from the format, and
-- Receipt.Reader.RoundTrip relates the two, with Receipt.Reader.Reads on each of the readers.
-- Receipt.Stored is StoredReceipt and ReceiptStore, whose lock is taken for granted: each
-- operation is one step. History and Lookup below it are on the history of inserts.
-- Auth is enclave/src/auth.rs; Callers below it is on the keys and Bearer on the header that
-- carries them.
-- Canonical is enclave/src/canonical.rs; Canonical.Serialize is what its derived serializers
-- make, canonical_bytes and sha256_of, and blob_id_of of enclave/src/blob.rs. Readers and Commits
-- below it read the canonical JSON of a request back, and Responses that of a response and its
-- metadata.
-- Providers is enclave/src/providers/mod.rs and what the two adapters have in common;
-- Providers.OpenAi and Providers.Anthropic are the adapters, with their wire types in Wire and
-- their StreamAccumulator in Accumulator, Providers.Stream is the loop of both feed functions,
-- Providers.Drained is on that loop, and Providers.Requests on what is sent and recorded. Below
-- the accumulators, Chunking is on the cuts between chunks; Order and Deltas (OpenAI) and Blocks
-- and Events (Anthropic) are on what is assembled of a stream, Growth and Panics on the events
-- that end the process, Opaque on what is left out of it, and Same on the response without a
-- stream that says the same.
-- Config is enclave/src/config.rs; Hash below it is on the configuration hash and the document
-- that decides, Env on the environment, and Errors on what is refused.
-- Server is enclave/src/server.rs: the state (Inner) and the answers; Server.Receipts is the
-- making of receipts (finish_error_receipt, finish_non_streaming_ok, sign_and_store);
-- Server.Surfaces are the functions of an adapter that a handler calls, Server.Upstream what a
-- handler makes of an upstream's answer, with poll_stream for the body of a stream, and
-- Server.Handlers the handlers, handle at the surface chat_completions or messages. Below it,
-- Gate is on what must hold before anything is sent, Answers on the receipts behind the answers,
-- Streams on the ends of streams, Reachable on all reachable states, Served on GET /receipts,
-- Nonce on the ids of receipts, Commits on the receipts of responses, and Relays on the receipts
-- that must come, with Relays.Streamed on a stream from its request to its receipt. Server.Routes
-- is the router of build_router with its body limit, and the routes for health and attestation;
-- Limits below it is on the limit, Bodies on the streams and Attestation on the documents.
-- Move is the contracts of move/sources: Move.Checkpoint is checkpoint.move, with Matching and
-- Register below it on who is registered, Attested on who can register with the documents that
-- the gateway gives out, and Versions on the list of code versions as it grows; Move.Receipt is
-- receipt.move, with Parity on the bytes of both sides, Accepted on the receipts of an enclave
-- and Verified on what verify accepts; Move.Bcs is bcs::to_bytes at the types that are
-- serialized. Move.Chain is the checkpoint, the gateways and the events after any calls: Gateways
-- below it is on registration and revocation over time, Events on what is emitted, and Receipts
-- on the receipts of a registered enclave.
-- Sdk is the client's side of a receipt: receipt.ts and extension.ts of sdk/src, and the reading
-- of a served receipt in scripts/e2e_demo.ts. BlobId below it is on parseBlobId, Parity on the
-- bytes that a client and the contract check, Check on a client that checks a receipt, and
-- Accepted on the way of a receipt from the gateway over a client to the chain.
-- Boot is main of enclave/src/main.rs: boot is from the attestor and the environment to the
-- gateway and its address, context its switch between the attestors, and socket_addr the function
-- of that name. Boot.Port is on the port and Boot.Start on the gateway and what becomes of it.
-- Fixtures and the modules named Runs hold concrete data and runs. The modules named Tests, other
-- than that of Base, are the tests that stand beside the code, run on the model: the policy's,
-- the keys', the configuration's, the receipts' with their two parity vectors byte for byte, the
-- adapters' and their accumulators', the handlers', where the mock server is the upstream of the
-- model, and the nonces'. What serde reads is given there as data, so the tests of serde alone
-- have no counterpart.
--
-- State. Functions that change AppState take it and give it back; ReceiptStore and the count of
-- free permits are part of it. What the world gives a handler is an argument: headers, body, a
-- fresh UUID, the clock, and the upstream as a function from the request sent to the response. A
-- header is absent, not visible ASCII, or a text.
--
-- Bounds and fuel. Numbers of Rust's and Move's u64, of usize and of u256 are natural numbers;
-- the one sum that can wrap, of the index of a content block, is taken modulo 2 ^ 64, and a time
-- that does not fit becomes the greatest that does. The loops of write_uleb128 and feed run on
-- fuel: the number itself and the length of the buffer are enough, as each round divides the
-- number by 128 and takes at least a separator off the buffer. The vector of content blocks grows
-- up to max_blocks of External, a number that stands for the overflow of its capacity and for the
-- end of memory alike; beyond it, and at an index out of bounds, the process ends, which is the
-- value none of the Anthropic accumulator.
--
-- The chain. A call of the contracts is a function to its result or its abort; an abort undoes
-- everything, so the steps of Move.Chain are the calls that do not abort. What is shared,
-- transferred or emitted is in the result. The attestation document is what the getters of
-- sui::nitro_attestation give, and ed25519_verify is a parameter. So are the client's libraries
-- for BCS, hex and signatures, and what JSON.parse makes of a number. Only one who holds the cap
-- can approve and revoke, which the steps leave open: what is proved holds whoever calls.
--
-- Not modelled: the SDK's HTTP client and its hashing of JSON, the app and the scripts but for
-- the reading of a receipt; the HTTP client's settings, the socket in main.rs and the lines that
-- main prints, all of them I/O of crates. The context of nautilus, with its attestation, and the
-- extractor of a JSON body are parameters of the routes. Reachable lets requests interleave:
-- their admission and their answer are steps of their own, and the answer is one step, since all
-- that it does to the state is to store one receipt under the store's lock.
pub mod Base
pub mod Text
pub mod Policy
pub mod Receipt
pub mod Auth
pub mod Json
pub mod Canonical
pub mod External
pub mod Providers
pub mod Config
pub mod Server
pub mod Boot
pub mod Move
pub mod Sdk
pub mod Fixtures
