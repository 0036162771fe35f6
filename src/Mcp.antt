-- ===== src/Mcp.antt =====
-- The package mcp/: tools for a model, served as JSON-RPC over HTTP.
pub mod Schema
pub mod Context
pub mod Server
mod Examples
