-- ===== src/Lab.antt =====
-- cmd/lab: the payloads, the requests and the figures of the experiments.
pub mod Fixtures
pub mod Requests
pub mod Latency
pub mod Benchmark
pub mod Summaries
