-- ===== src/Http.antt =====
-- http/parser.go and http/request.go.
pub mod Action
pub mod Chars
pub mod Read
pub mod Body
pub mod Parser
pub mod Lines
pub mod Inspection
pub mod Fields
pub mod Sizes
pub mod Chunks
pub mod Framing
pub mod Accepted
pub mod Complete
pub mod Harmless
pub mod Errors
pub mod Ends
