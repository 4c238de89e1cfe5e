-- ===== src/Mcp.antt =====
-- pkg/mcp: the agent's MCP server and its transports.
pub mod Oneshot
pub mod Server
pub mod Stdio
pub mod Http
mod Examples
