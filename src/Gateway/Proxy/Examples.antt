-- ===== src/Gateway/Proxy/Examples.antt =====
-- The aggregation of one result and one error.
use k8s_mcp_agent.Prelude.{ℕ, ◌≡◌, refl, String, false, none, List, [], ◌∷◌, map, length, count_if}
use k8s_mcp_agent.Prelude.Result.{Result, ok, err}
use k8s_mcp_agent.Gateway.Framing.{Bytes}
use k8s_mcp_agent.Gateway.Messages.{Codec, tool_request, build_http_tool_request}
use k8s_mcp_agent.Gateway.Router.{routing_mode_http, NodeResult, exec_failed, send, route_via_exec}
use k8s_mcp_agent.Gateway.Proxy.{aggregate_default, build_request, tally_results, tally_result}
use k8s_mcp_agent.Gateway.Proxy.Results.{handle_tool}
use k8s_mcp_agent.Prelude.{true, ◌==◌, ◌%◌, ◌^◌, some, if◌then◌else◌}
use k8s_mcp_agent.Prelude.Int.{pos}
use k8s_mcp_agent.Prelude.Int64.{add64, sub64}
use k8s_mcp_agent.Prelude.GoMap.{lookup, store}
use k8s_mcp_agent.K8s.Client.{get_node, list_pods_all_namespaces}
use k8s_mcp_agent.K8s.Metadata.{copy_labels, set_conditions}
use k8s_mcp_agent.K8s.Examples.{client as k8s_client}
use k8s_mcp_agent.Tools.GpuHealth.Examples.{fractions}
use k8s_mcp_agent.Gateway.Messages.{
  parse_http_response, parse_tool_response, response_data, tool_result_data, content_data,
}
use k8s_mcp_agent.Gateway.Proxy.Metadata.{
  filter_gpu_labels, get_node_k8s_metadata, get_node_gpu_allocation, add_pods, add_containers,
  allocated_or,
}
use k8s_mcp_agent.Gateway.Proxy.Inventory.{Assertions, NodeEntry, ClusterInventory}
use k8s_mcp_agent.Gateway.Proxy.Inventory.Collect.{
  aggregate_gpu_inventory, collect_nodes, take_answer, metadata_of, add_metadata, gpu_counts,
  inventory_map, node_inventory, flatten_devices, flatten_gpu_info, collect_types, sort_texts,
  insert_text, codes_leb,
}
use k8s_mcp_agent.Gateway.Proxy.Inventory.Sorting.{IsSorted, is_member}
use k8s_mcp_agent.Gateway.Proxy.Inventory.Types.{
  reports_type, device_count, aggregate_gpu_inventory-types,
}
use k8s_mcp_agent.Gateway.Proxy.Inventory.Sums.{is_ready, total}
use k8s_mcp_agent.Gateway.Proxy.Inventory.Totals.{aggregate_gpu_inventory-totals}
use k8s_mcp_agent.Gateway.Router.Examples.{
  router, agents, nodes, breaker, done_state, finished, finished-IsDone,
}
use k8s_mcp_agent.Gateway.Proxy.Cluster.{AnswersFor, handle-AnswersFor}

-- Every tool answers with the text "x".
abbrev codec : Codec ℕ
codec = record {
  marshal_request = λ r. ok (b'{' ∷ b'}' ∷ []);
  unmarshal_request = λ bs. ok (tool_request "get_gpu_health" 7);
  unmarshal_response = λ bs. ok (record { result = bs; error = none });
  unmarshal_tool_result = λ bs.
      ok (record { content = record { kind = "text"; text = b'x' ∷ [] } ∷ []; is_error = false });
  unmarshal_value = λ bs. err "not JSON";
}

abbrev results : List NodeResult
results =
    record { node_name = "gpu-1"; pod_name = "agent-1"; outcome = ok (b'{' ∷ b'}' ∷ []) }
    ∷ record {
      node_name = "gpu-2";
      pod_name = "agent-2";
      outcome = err (exec_failed "gpu-2" "timeout");
    }
    ∷ []

partial_status : (aggregate_default codec results).status ≡ "partial"
unfolding aggregate_default tally_results tally_result
partial_status = refl

abbrev route : Bytes → Result String (List NodeResult)
route request = ok (done_state request).collected

abbrev sent_request : Bytes
sent_request = b'{' ∷ b'}' ∷ []

-- The numbers 0 to 3 stand for {"devices": [{"name": "T4"}]} and the values in it.
abbrev tree_codec : Codec ℕ
tree_codec = record codec { unmarshal_value = λ bs. ok 0 }

abbrev assertions : Assertions fractions ℕ
assertions = record {
  as_map = λ v.
      if v == 0
      then some (("devices", 1) ∷ [])
      else if v == 2
      then some (("name", 3) ∷ [])
      else none;
  as_list = λ v. if v == 1 then some (2 ∷ []) else none;
  as_text = λ v. if v == 3 then some "T4" else none;
  as_float = λ v. none;
}

handle-AnswersFor_example :
    AnswersFor fractions
      (λ x. pos x.0)
      assertions
      codec
      nodes
      1
      "get_gpu_health"
      (handle_tool fractions
        (λ x. pos x.0)
        assertions
        codec
        none
        routing_mode_http
        route
        "get_gpu_health"
        7
        none)
unfolding build_request build_http_tool_request send route_via_exec
handle-AnswersFor_example =
    handle-AnswersFor fractions (λ x. pos x.0) assertions codec none routing_mode_http route
      "get_gpu_health" 7 none sent_request router agents breaker nodes 8 (done_state sent_request)
      refl (finished sent_request) (finished-IsDone sent_request) refl

abbrev inventory : ClusterInventory fractions ℕ
inventory =
    aggregate_gpu_inventory fractions (λ x. pos x.0) assertions tree_codec (some k8s_client) true
      results

-- One node answers, with one GPU; the other one has no metadata.
one_gpu : inventory.cluster_summary ≡ record {
  total_nodes = 2;
  ready_nodes = 1;
  total_gpus = 1;
  gpu_types = "T4" ∷ [];
  resources =
      some (record {
        gpus_capacity = 4;
        gpus_allocatable = 4;
        gpus_allocated = 3;
        gpus_available = 1;
      });
}
unfolding aggregate_gpu_inventory collect_nodes take_answer metadata_of add_metadata gpu_counts
    inventory_map node_inventory flatten_devices flatten_gpu_info collect_types sort_texts
    insert_text codes_leb get_node_k8s_metadata get_node_gpu_allocation add_pods add_containers
    allocated_or list_pods_all_namespaces get_node set_conditions filter_gpu_labels copy_labels
    parse_tool_response parse_http_response response_data tool_result_data content_data lookup store
    add64 sub64
one_gpu = refl

aggregate_gpu_inventory-totals_example :
    let allocatable = total (λ g. g.allocatable) inventory.nodes % 2 ^ 64 in
    let allocated = total (λ g. g.allocated) inventory.nodes % 2 ^ 64 in
    (map (λ (n : NodeEntry fractions ℕ). n.name) inventory.nodes
      ≡ map (λ (r : NodeResult). r.node_name) results)
    × (inventory.cluster_summary.total_nodes ≡ length results)
    × (inventory.cluster_summary.ready_nodes ≡ count_if is_ready inventory.nodes)
    × (inventory.cluster_summary.resources
        ≡ some (record {
          gpus_capacity = total (λ g. g.capacity) inventory.nodes % 2 ^ 64;
          gpus_allocatable = allocatable;
          gpus_allocated = allocated;
          gpus_available = sub64 allocatable allocated;
        }))
aggregate_gpu_inventory-totals_example =
    aggregate_gpu_inventory-totals fractions (λ x. pos x.0) assertions tree_codec k8s_client results

aggregate_gpu_inventory-types_example :
    IsSorted inventory.cluster_summary.gpu_types
    × (is_member "T4" inventory.cluster_summary.gpu_types
        ≡ reports_type fractions (λ x. pos x.0) assertions tree_codec "T4" results)
    × (inventory.cluster_summary.total_gpus
        ≡ device_count fractions (λ x. pos x.0) assertions tree_codec results)
aggregate_gpu_inventory-types_example =
    aggregate_gpu_inventory-types fractions (λ x. pos x.0) assertions tree_codec (some k8s_client)
      true results "T4"
