-- ===== src/Waf.antt =====
-- security/waf: the matching engine. `Normalize` is normalize.go, `Automaton` and `Scanner` are
-- automaton.go, `Policy` is policy.go; the other modules prove what they compute.
pub mod Normalize
pub mod Automaton
pub mod Initial
pub mod Trie
pub mod Links
pub mod Occurs
pub mod Tracks
pub mod Reports
pub mod Policy
pub mod Scanner
pub mod Walk
pub mod Pending
pub mod Stream
