-- ===== src/Client.antt =====
-- adapters/mcp-bridge/src/client.ts: the DAP/1 client, as a state machine over socket events, timers
-- and jobs. `State` has the data, `Wire` what goes out, `Calls` the
-- public operations up to their first await, `Resume` what each does after one, `Handlers` the
-- handlers of hub frames, `Socket` the connection, and `Steps` what can happen next.
pub mod State
pub mod Wire
pub mod Calls
pub mod Invites
pub mod Resume
pub mod Handlers
pub mod Socket
pub mod Steps
pub mod Identity
pub mod Launch
pub mod Laws
mod Tests
