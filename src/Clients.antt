-- ===== src/Clients.antt =====
-- examples/: the programs that use the service over HTTP, as they meet the modelled service.
pub mod Requests
pub mod Fetching
pub mod Publishing
pub mod Versions
pub mod Threads
pub mod Benchmark
pub mod SmokeTest
pub mod DeliverySmokeTest
