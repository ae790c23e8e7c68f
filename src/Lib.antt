-- ===== src/Lib.antt =====
-- chat-store: a store of signed keypackages, account bundles and account logs, over HTTP and a
-- delivery network.
--
-- The parts of the program, and the files that model them:
-- - src/store.rs and migrations/: Store. The state is the record `Store` of the three tables; an
--   operation is an `Exec`, a function from the tables to a result and the tables. Store/Rows has
--   the rows and errors, Store/Sql the failures of statements and the clock, Store/Lamport
--   `BUNDLE_DOMAIN` and `payload_lamport`, Store/KeyPackages `insert`, `latest` and
--   `prune_key_packages`, Store/Accounts `upsert_account`, `get_account` and `prune_accounts`,
--   Store/AccountLogs `put_account_log` and `get_account_log`. Store/Cases lists how each writing
--   operation can end, which is all that the modules above it use of them. Store/Locking has the
--   writing operations statement by statement, and `write_lock` with any interleaving of tasks;
--   Store/Locking/Reads is about the tasks that read without the lock.
--   Store/Isolation has the part of the tables that some ids own, and what each operation does to
--   it; Bundle/Isolation, Handlers/Isolation and Service/Isolation carry this to the whole service.
-- - src/bundle.rs: Bundle, with `Bundle::from_bytes`, `key_hex`, `verify` and the three `apply_*`,
--   in which both write paths end. Bundle/Devices is `apply_account_log` as an account sees it, by
--   the devices that its log endorses.
-- - src/handlers.rs, src/handlers/keypackage.rs, src/handlers/account/v0.rs and v1.rs: Handlers.
--   Handlers/Errors has `decode_bundle` and `ApiError`, Handlers/Endpoints the six endpoints;
--   `submit_account_log` and `fetch_account_log` are v1's `submit_account` and `fetch_account`.
-- - src/delivery.rs: Delivery, with the filter that `start` gives the node, the two ingest
--   functions and the loop of the ingest thread.
-- - src/main.rs: Service, with the options, the retention and the prune task. `step` is one input
--   to the running service, and `run` a list of them, in the order in which they take effect.
--   Service/Transitions is the abstract machine that the service is shown to follow, and
--   Service/Runs has the properties of whole runs. Service/Startup is `main` up to serving, with
--   `Store::open` and delivery's `start`, as the calls that they make; Service/Startup/Serving is
--   what they ensure.
-- - examples/benchmark.rs: Clients/Benchmark, with the options, the wait for the server, the check of
--   the error paths, one business flow and its payloads, a worker's flows and the seeds of their
--   keys, the shares of the workers, a worker among others, and `main` with the server of its own; the
--   order in which its threads run is an argument of `main`, and Clients/Benchmark/Shifts has the
--   one in which each is over before the next begins.
-- - examples/smoke_test.rs: Clients/SmokeTest; examples/delivery_smoke_test.rs:
--   Clients/DeliverySmokeTest, with the two publications and the polls. Clients/Requests is a
--   request of a client to the modelled service, which may be lost on its way, and
--   Clients/Publishing and Clients/Fetching what the service answers to who signs with a key of its
--   own; Clients/Versions is a client that publishes versions while others use the service, and
--   Clients/Threads any client program as its requests, between which others use the service.
-- - the test modules of src/store.rs and src/bundle.rs: Suite, with each test as code that runs
--   against the modelled store, and `Passing` modules that run them. Where a name of the source is
--   that of an example program too, the test's begins with `test_`: `test_key` is `signing_key`,
--   `test_payload` is `account_payload`.
-- Common and Rust are what the source takes from Rust itself: results, tables as lists, casts of
-- fixed-width integers, byte slices. Tests has a stand-in for each crate, and runs of the code.
--
-- The crates ed25519_dalek, hex, base64, account_log and the protobuf messages are the record
-- `Crates` of Crates.antt, an argument of what uses them; Crates/Laws has what the account_log crate
-- documents, Crates/Signing the signing side of ed25519_dalek and the encoding side of prost, and
-- Crates/Drafting the drafting side of account_log, which only clients and tests use, with what
-- these, hex and base64 document: named hypotheses of the theorems that need them. That different
-- seeds give different keys is one more, of the workers only. The stand-ins of Tests satisfy them.
--
-- Each operation of an input gets its own surroundings `Env`: the clock, which may stand still or go
-- back, and whether each SQL statement fails. A statement that fails does nothing, and a transaction
-- publishes its writes at its commit. The source holds `write_lock` over every operation that
-- writes, so an operation is one step, which Store/Locking justifies; the prune round is two.
-- Integers are natural numbers with the casts `as u64` and `as i64` written out.
-- Two loops run on fuel: `wait_until_ready` 201 rounds, since it sleeps 25 ms in each and gives up
-- after 5000, and `poll_until_stored` 47, since it sleeps 2 s and gives up after 90.
--
-- Not modelled: what sqlx does on opening, the shutdown in `main`, the embedded node, axum's
-- routing and JSON extraction, log output other than that of ingestion, the times that the benchmark
-- measures; of the tests, `non_protobuf_bytes_are_rejected`, which is about prost alone.
pub mod Common
pub mod Rust
pub mod Crates
pub mod Store
pub mod Bundle
pub mod Handlers
pub mod Delivery
pub mod Service
pub mod Clients
pub mod Suite
mod Tests
