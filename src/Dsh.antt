-- ===== src/Dsh.antt =====
-- adapters/dsh-plugin/src: the Cordis plugin's client, as a state machine over numbered sockets, and
-- the plugin around it. Its crypto.ts and keepalive.ts are the same files as the bridge's; of
-- config.ts and channels.ts it uses what `Config` and `Channels` model.
pub mod State
pub mod Wire
pub mod Calls
pub mod Handlers
pub mod Inbound
pub mod Resume
pub mod Socket
pub mod Plugin
pub mod Invites
pub mod Tools
pub mod Settings
pub mod Launch
pub mod Steps
pub mod Tests
pub mod Laws
