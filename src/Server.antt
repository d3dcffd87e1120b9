-- ===== src/Server.antt =====
-- adapters/mcp-bridge/src/server.ts: the MCP server around the client.
pub mod Tools
pub mod Launch
pub mod Laws
mod Tests
