-- ===== src/Clients/Benchmark.antt =====
-- examples/benchmark.rs: a load generator that runs complete business flows against a server of
-- its own, with its options, the way it shares out the work, and the wait for the server.
pub mod Payloads
pub mod Flow
pub mod Work
pub mod Waiting
pub mod Accepted
pub mod Success
pub mod Options
pub mod Seeds
pub mod Workers
pub mod Shifts
pub mod Requests
pub mod Keys
pub mod Interleaved
pub mod Turns
pub mod Together
pub mod Server
