-- ===== src/Dsh/Laws.antt =====
-- What is proved of dsh-plugin/src.
pub mod Links
pub mod Handled
pub mod Tools
pub mod Connection
pub mod Moves
pub mod Refinement
pub mod Single
pub mod Awake
pub mod Reachable
pub mod Errors
