-- ===== src/Mcp.antt =====
-- The tools that the language model may call: crates/xiaozhi-mcp, and the servers that give them.
pub mod Imported
pub mod ToolName
