-- ===== src/Client/Laws.antt =====
-- What the operations of client.ts guarantee.
pub mod Frames
pub mod Backoff
pub mod Window
pub mod Presence
pub mod Enrolment
pub mod Roster
pub mod Sealing
pub mod Directory
pub mod Parked
pub mod Invites
pub mod Arming
pub mod Identity
pub mod Retarget
pub mod Runs
