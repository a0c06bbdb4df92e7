-- ===== src/Lib.antt =====
-- A model of trackward, an append-only ledger that records what AI agents did and lets an auditor check
-- the record offline.
--
-- The program has four parts. `crates/chain-core` turns a row into canonical bytes, chains the rows'
-- hashes, and builds the Merkle tree over row hashes. `services/ledger` writes rows to Postgres, each
-- linked to the row before it in its run and table, and from time to time anchors the row hashes of a
-- time window: it signs their Merkle root and uploads the signed document. `services/gateway` stands
-- between an agent and its tools and posts what it sees to the ledger. `tools/verifier` checks a signed
-- document against row hashes, with no access to the ledger.
--
-- Where the model is:
-- - Prelude: names, tests, lists and results that the other modules share.
-- - ChainCore: crates/chain-core. Its modules are named for the files: CanonicalJson, Encode, Chain and
--   Merkle. A definition has the name of the Rust function. A panic or a failed assertion is an `err`.
-- - External: the functions of other crates, as the fields of a record, and what they document.
-- - Ledger/Db, Ledger/Chain: services/ledger/src/chain.rs and errors.rs. A table is the list of its
--   committed rows. `compute_chain` reads the table as a transaction that holds the chain's advisory
--   lock sees it; `insert_chained` is the insertion that every write handler makes with its result.
-- - Ledger/Anchoring: services/ledger/src/anchoring.rs and services/ledger/src/anchors.
--   `anchor_tick` takes the ledger's state and the sink and returns both; the clock and the fresh id are
--   arguments.
-- - Ledger/Routes: services/ledger/src/routes and services/ledger/src/models, the handlers that write to
--   the chained tables, and services/ledger/src/s3.rs. A handler is a function from the request and the
--   database to a result with the new row and the database after it. Columns has the fields that each
--   handler hashes.
-- - Ledger/Exports: services/ledger/src/routes/export_bundles.rs and case_evidence.rs beside it.
-- - Ledger/Records: the other files of services/ledger/src/routes: runs, versions, bindings, eval results,
--   cases, custody events and the reading of anchors. Ledger/Queries has WHERE, ORDER BY and LIMIT.
-- - Verifier: tools/verifier/src/lib.rs and anchor.rs beside it; Cli has main.rs, a run of the command as
--   its exit code; LedgerCheck has the function
--   `verify_anchor_doc` of services/ledger/src/anchoring.rs.
-- - Ledger/Guards: services/ledger/src/auth.rs, actor.rs and signing.rs beside it, the checks that a
--   request passes before its handler. Ledger/Tls: tls.rs there, over what rustls reads and builds.
-- - Gateway/Approval: services/gateway/src/approval/mod.rs. A request's oneshot channel is a state of its
--   own; the entry of the map stands for its sender. Request has the handler around its await.
-- - Gateway/Http: what the gateway's handlers do on the wire. A handler is a function of the exchanges so
--   far, the latest first, to a result and the exchanges after it; the network is a function from the
--   exchanges so far and a request to an answer or none, so it may answer as it likes.
-- - Gateway/LedgerClient: services/gateway/src/ledger_client.rs. Gateway/ToolProxy: tool_proxy beside it.
--   Gateway/RetrievalProxy: retrieval_proxy/mod.rs there. Gateway/LedgerApi has the requests to the ledger
--   as its routes take them, with which the statements on the proxies and the approvals are written. Gateway/Config and Gateway/Auth: config.rs, auth.rs and
--   approval/gates.rs. Gateway/Registry: registry.rs, over a file tree, and the start-up of lib.rs.
-- - Examples: tests, and each result at a concrete input.
--
-- A text is the list of its UTF-8 bytes, a UUID its 16 bytes, and a timestamp the nanoseconds since
-- 1970. Integers are unbounded where the source's cannot overflow; the others keep their width:
-- the length of a field name is cut to 16 bits, as `as u16` does, and an `i64` is written as its bit
-- pattern. The loops of `compute_root` run on fuel the number of leaves, and `decimal` on fuel above
-- the number it prints.
--
-- An object that serde_json reads has its keys sorted, as its map keeps them
-- (ChainCore/CanonicalJson/Sorted), since the program does not turn on `preserve_order`.
--
-- SHA-256 is a parameter. A statement that needs it to be free of collisions has an alternative in its
-- conclusion: two different inputs with one digest. The proof computes them from the two readings of
-- the hashed data.
--
-- The whole text of a gateway's error is not kept, only its kind. The proxies of concurrent calls run one
-- after the other in the model; only the approvals are shared, and those have interleavings.
--
-- Not modelled: the HTTP layer, the SQL driver's own errors, telemetry, certificates' own checks and
-- the services' entry points, which only pass values on; a failed query leaves the database as it
-- was. The timer of the anchoring loop is the order of the turns in Ledger/Anchoring/Loop, where a tick
-- is two turns: it reads and uploads, and later it inserts or fails to. Several ticks may be under way.
pub mod Prelude
pub mod ChainCore
pub mod External
pub mod Ledger
pub mod Verifier
pub mod Gateway
pub mod Examples
