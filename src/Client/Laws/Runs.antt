-- ===== src/Client/Laws/Runs.antt =====
-- client.ts: what holds in every run of the client. `Noted` has the part of the state that the
-- invariants are about, and `Stable` what a predicate on it is to keep; `Bounds` is one that keeps
-- it. `Calls`, `Invites`, `Hub`, `Jobs` and `Socket` show what each function does to every such
-- predicate, and `Invariant` what the steps do.
pub mod Noted
pub mod Stable
pub mod Bounds
pub mod Calls
pub mod Invites
pub mod Hub
pub mod Jobs
pub mod Socket
pub mod Invariant
