-- ===== src/Gloss.antt =====
-- adapters/mcp-bridge/src/gloss.ts: the glossary that two agents negotiate. `Words` has how terms
-- are found, shortened and expanded, `Agent` the conversations, `Session` the operations and the
-- handler of `GlossAgent`, and `Steps` what can happen next. The other modules prove: `Cut` to
-- `RoundTrip` and `Heard` that expansion reverses compaction, `Entries` and `Handshake` what a
-- negotiation agrees on, `Bulk` and `Stored` the stored glossary, `Fresh` and `Guarded` to `Runs`
-- which abbreviations are drawn.
pub mod Words
pub mod Agent
pub mod Session
pub mod Fresh
pub mod Entries
pub mod Handshake
pub mod Bulk
pub mod Stored
pub mod Heard
pub mod Guarded
pub mod Steps
pub mod Conversations
pub mod Runs
pub mod Cut
pub mod Cutting
pub mod Expansion
pub mod RoundTrip
mod Tests
