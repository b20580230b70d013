-- ===== src/Core.antt =====
-- core: metrics, the log store, responses, the router and the life of a connection.
pub mod Metrics
pub mod LogSink
pub mod Response
pub mod Router
pub mod Connection
