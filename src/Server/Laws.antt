-- ===== src/Server/Laws.antt =====
-- What is proved of server.ts.
pub mod Gate
pub mod Relaunch
