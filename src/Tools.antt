-- ===== src/Tools.antt =====
-- pkg/tools: the MCP tools of the agent.
pub mod GpuHealth
pub mod AnalyzeXid
pub mod NodeName
pub mod PodGpuAllocation
pub mod GpuInventory
pub mod DescribeGpuNode
mod Examples
