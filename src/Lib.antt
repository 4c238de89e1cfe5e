-- ===== src/Lib.antt =====
-- A model of k8s-gpu-mcp-server (Go): an agent that diagnoses the NVIDIA GPUs of a Kubernetes node,
-- and a gateway that forwards tool calls to the agents of all nodes.
--
-- The parts and how they interact. The gateway's proxy (pkg/gateway/proxy.go) builds a JSON-RPC
-- request (pkg/gateway/framing.go), gives it to the router (pkg/gateway/router.go), and aggregates the
-- nodes' results. The router sends the request to every ready node of the list that the Kubernetes
-- client (pkg/k8s/client.go) returns, in a bounded number of goroutines; a circuit breaker
-- (pkg/gateway/circuit_breaker.go) that all of them share keeps requests from nodes that failed, and
-- the HTTP client (pkg/gateway/http_client.go) retries a call; in exec mode the request is the standard
-- input of an agent with the oneshot transport (pkg/mcp/oneshot.go). An agent answers with a tool. The
-- tools are get_gpu_health (pkg/tools/gpu_health.go), get_gpu_inventory (pkg/tools/gpu_inventory.go),
-- describe_gpu_node (pkg/tools/describe_gpu_node.go), get_pod_gpu_allocation
-- (pkg/tools/pod_gpu_allocation.go) and analyze_xid_errors (pkg/tools/analyze_xid.go, over the codes of
-- pkg/xid/codes.go); they ask the devices through the interface of pkg/nvml/interface.go and the nodes
-- and pods through client-go. The gateway makes the inventories of the nodes into one of the cluster.
-- cmd/agent/main.go reads the flags and starts the MCP server (pkg/mcp/server.go) as a gateway or as an
-- agent, with stdio or HTTP (pkg/mcp/http.go) as its transport; the server also has the prompts of
-- pkg/prompts, which tell a client how to use the tools.
--
-- Which file models which part:
--   Gateway/CircuitBreaker   circuit_breaker.go: allow, record_success, record_failure, reset and the
--                            callback, as functions to the new record; any interleaving of callers
--                            is a list of operations.
--   Gateway/Framing          SplitJSONObjects of framing.go: split_json_objects, a loop over bytes.
--   Gateway/Messages         the rest of framing.go, and parseToolResponse of proxy.go. encoding/json
--                            is a parameter, the record Codec.
--   Gateway/HttpClient       http_client.go: call_mcp, do_request, calculate_backoff. What the network,
--                            the clock and the context do is a parameter, the record World.
--   Gateway/Router           router.go: route_to_gpu_node, and in Router/FanOut RouteToAllNodes as a
--                            step relation of the loop, the goroutines and the collector, in which a
--                            sender that waits for room in resultsCh is a state. What agents
--                            answer is a parameter, the record Agents. Router/Metrics has the
--                            metrics of NewRouter's callback and of routeToGPUNode.
--   Gateway/Proxy            the request of Handle and aggregateDefault of proxy.go; in Metadata and
--                            Inventory what the gateway reads of nodes and pods, and
--                            aggregateGPUInventory; in Results Handle, which chooses the aggregation by
--                            the tool. Cluster joins Handle to the runs of RouteToAllNodes.
--   Mcp/Oneshot              oneshot.go: new_oneshot_transport, run with the scanner and its rounds,
--                            process_request. The MCP server and encoding/json are the record Server.
--   Mcp/Server               New and Run of pkg/mcp/server.go, with the tools and prompts that are
--                            registered.
--   Mcp/Stdio                runStdio of server.go, as a step relation of its goroutine and its caller.
--   Mcp/Http                 http.go: the paths and the probes, and ListenAndServe as a step relation.
--   Agent                    cmd/agent/main.go: the tests of the flags, what is started with them, and the
--                            end of the process by a signal or by the server.
--   Metrics                  pkg/metrics/metrics.go: the metrics, and what updates them.
--   Prompts                  pkg/prompts: render_template, handle_prompt and, in Library, the three prompts
--                            with their texts. Pieces has templates as texts and placeholders,
--                            and ArgMap the arguments as a map without an order, a quotient.
--   K8s                      pkg/k8s/client.go: GPUNode and its endpoints, and in Client the calls, the
--                            options and the exec timeout, with NewClient in Client/Config. Objects
--                            holds the objects of the API, with the fields that are read, and
--                            client-go as the record Clientset; Metadata what proxy.go and
--                            describe_gpu_node.go do with labels and conditions.
--   Nvml                     the devices, as records of their answers, and the implementations of pkg/nvml:
--                            Mock for mock.go, Real for real.go over a library that is a parameter, with
--                            Init and Shutdown in Real/Client, RealStub, Unimplemented and Errors.
--   Tools/GpuHealth          gpu_health.go: Checks for the check functions, Score for
--                            calculateHealthScore and determineStatus, Overall for the summary, Handle
--                            for collectGPUHealth and Handle.
--   Tools/NodeName           validation.go, with its regular expression matched by derivatives.
--   Tools/PodGpuAllocation   pod_gpu_allocation.go.
--   Tools/GpuInventory       gpu_inventory.go.
--   Tools/DescribeGpuNode    describe_gpu_node.go: Gpus for the devices and the scores, Handle for Handle;
--                            Allocated compares the counts of allocated GPUs of three files.
--   Xid                      the table and the lookups of pkg/xid/codes.go; in Kmsg and Parser the reader of
--                            /dev/kmsg and the parsers of pkg/xid/kmsg.go and parser.go, over bytes. The
--                            regular expressions of the parser are the record Parser.
--   Tools/AnalyzeXid         analyze_xid.go: enrichEvents with findGPUByPCI, the summary and the status,
--                            and in Response the recommendation and Handle.
--   Prelude                  helpers: tests, lists, Go's ints and maps, results with errors, numbers in
--                            texts, and the interface to float64.
--
-- Conventions. A function that returns (A, error) returns a Result; each fmt.Errorf of the gateway is a
-- constructor with its arguments. uint32 and uint64 readings are natural numbers, with the wrap-around
-- written out where the code subtracts or shifts; Go's int is the type of integers of Prelude/Int where
-- it can be negative; an int64 of Kubernetes is its 64-bit pattern (Prelude/Int64), and sums of them wrap
-- around. A context is what it shows at each place where the code asks. float64 is a parameter with no law. The
-- loops are structural recursions on the list or on the number of rounds left, so no fuel is chosen.
-- Code of several goroutines is a step relation of the places where they can be. Logs and the marshalling
-- of answers to JSON are output and left out.
--
-- Not modelled: the timestamps of XID events, what the Prometheus client makes of an update, and the
-- correlation ids of pkg/gateway/tracing.go, which only logs show.
mod Prelude
pub mod Agent
pub mod Gateway
pub mod K8s
pub mod Mcp
pub mod Metrics
pub mod Nvml
pub mod Prompts
pub mod Tools
pub mod Xid
