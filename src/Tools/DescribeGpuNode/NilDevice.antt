-- ===== src/Tools/DescribeGpuNode/NilDevice.antt =====
-- A device that NVML returns as nil without an error, in pkg/tools/gpu_inventory.go and
-- pkg/tools/describe_gpu_node.go.
