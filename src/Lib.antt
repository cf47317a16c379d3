-- ===== src/Lib.antt =====
-- The transfer client of a stateless relay system: a file is encrypted into wire blocks, each under a
-- token of its own; the registry says at which relays the block of a token is kept; blocks are PUT to
-- their primary relay, copied to replicas, and fetched again by whoever holds the credential.
--
-- Parts, with the files that model them. Paths are those of the repository.
--   Policy      the size policies of client/transfer/src: segment-policy.ts (Policy/Segment),
--               wire-block-policy.ts (Policy/WireBlock) and protocol/receive-prefetch-policy.ts
--               (Policy/Prefetch); what they read of `navigator` is Policy/Environment.
--   Resilience  resilience/put-with-retry.ts and retry-policy.ts (Resilience/Failure, the
--               classification of errors, and Resilience/Retry, the loop),
--               get-with-fallbacks.ts (Resilience/Fallbacks), stripe-put-concurrency.ts
--               (Resilience/Ramp).
--   Transport   transport/put-wire-block-body.ts (Transport/Put),
--               get-response-body.ts (Transport/Body) and byte-transfer-progress.ts
--               (Transport/Meter, the byte counts of concurrent requests; Transport/Throttle, the
--               throttled listener).
--   Registry    router/registry-client.ts: its records (Registry/Records), what a JSON body is to it
--               (Registry/Json), the parsers of the answers (Registry/Response), HttpRegistryClient
--               (Registry/HttpClient) and CoalescingRegistryClient (Registry/Coalescing); and
--               endpoints-from-registry.ts (Registry/Endpoints) and relay-router.ts (Registry/Router).
--   Upload      session/upload-session.ts: the reading of a file in slices (Upload/Reading), the blocks
--               and reports of a preparation (Upload/Blocks), prepareUploadStreaming with its fallbacks
--               (Upload/Prepare) and its worker (Upload/InWorker), and uploadStripePrimaryBlocks
--               (Upload/Stripe);
--               protocol/block-hash-pool.ts (Upload/Hashing); session/upload-registry.ts
--               (Upload/Registration); session/replica-replication.ts (Upload/Replication); and
--               uploadPrepared, which joins them (Upload/Session).
--   Download    protocol/receive-plan.ts (Download/Plan); types.ts (Download/Credential); the plaintext
--               accumulator of session/finalize-receive-decrypt.ts (Download/Accumulator);
--               session/download-session.ts (Download/Interfaces and Download/Session, written with the
--               steps of Download/Act); transport/fetch-receive-transport.ts, its state
--               (Download/Receiver), what happens to it (Download/Receiver/Events) and the loop of
--               get (Download/Getting); the status reports (Download/Status).
--   App         client/app/src: credential/credential-style.ts (App/Style and App/Style/Words),
--               upload/send-file.ts (App/Sending) and download/receive-file.ts (App/Receiving).
-- The download session asks its transport, which asks the router for endpoints and the fallback GET for
-- blocks, and hands the blocks to the decryption session. The upload workers call the retry loop, which
-- calls the PUT; the router turns the registry's records into endpoints, which the fallback GET goes
-- through in order.
--
-- How the code corresponds to the model. A function of the source has a definition of the same name in
-- snake case. What is thrown is a value of `Thrown`, and a function that may throw returns a `Result`
-- (Base/Outcome). A `Map` is a list of entries in insertion order (Base/StringMap), a `Set` the list of
-- `[...set]` (Base/StringSet). Where the code may meet NaN, an infinity, a negative or a fractional
-- number, Base/Number has the numbers with a whole part and a flag for a fraction; sizes of blocks and
-- counters are natural numbers. A text is a `String` where it is compared or joined; a credential, which
-- is measured and cut, is the list of its UTF-16 code units. Asynchronous code is cut at its `await`s: an event is one run of the
-- event loop, a list of events is an interleaving, and statements hold for all of them. The network,
-- the registry and the clock are arguments: a request takes a world to a result and the next world.
--
-- Fuel: the retry loop takes fuel, and the larger of its two attempt limits is enough. The loops that
-- cut a file into slices take one more than the bytes that are left, which the definitions give them.
-- Draining the accumulator takes one more than the bytes that the buffer has left, and the loop of `get`
-- one more than its two attempt limits together; both are enough, as the theorems on them show.
--
-- Not modelled: the cryptography core and its WASM loader, the web workers, the user interface, and the
-- Python servers, which are other programs to this client or glue around them; of the download when the
-- transport reports its activities.
pub mod Base
pub mod App
pub mod Download
pub mod Policy
pub mod Registry
pub mod Resilience
pub mod Transport
pub mod Upload
pub mod Tests
