-- ===== src/K8s/Client/Config.antt =====
-- pkg/k8s/client.go, NewClient: where the configuration comes from.
use k8s_mcp_agent.Prelude.{◌≡◌, refl, String, List, ◌+ˢ◌, ◌=ˢ◌, if◌then◌else◌}
use k8s_mcp_agent.Prelude.Int.{ℤ}
use k8s_mcp_agent.Prelude.Result.{Result, ok, err, ◌>>=◌, wrap}
use k8s_mcp_agent.K8s.Objects.{Clientset}
use k8s_mcp_agent.K8s.Client.{Client, ClientOption, new_client_with_config}

-- What client-go and the environment of the process answer; C is rest.Config. `default_path` is
-- filepath.Join(home, ".kube", "config") of the user's home directory.
pub record ClientGo (C : Type 0) : Type 0 where
  pub in_cluster_config : Result String C
  pub kubeconfig : String
  pub default_path : String
  pub build_config_from_flags : String → Result String C
  pub new_for_config : C → Result String Clientset

module _ {C : Type 0} (k : ClientGo C) where
  -- The file that is read outside a cluster.
  abbrev pub kubeconfig_path : String
  kubeconfig_path = if k.kubeconfig =ˢ "" then k.default_path else k.kubeconfig

  abbrev pub config_or_fallback : Result String C
  config_or_fallback = elim (k.in_cluster_config) [
    | ok config ↦ ok config
    | err e ↦
        wrap (λ e. "failed to get k8s config: " +ˢ e) (k.build_config_from_flags kubeconfig_path)
  ]

  -- NewClient
  unfoldable pub new_client : ℤ → String → String → List ClientOption → Result String Client
  new_client default_timeout default_service namespace opts = do
    config ← config_or_fallback
    clientset ← wrap (λ e. "failed to create clientset: " +ˢ e) (k.new_for_config config)
    ok (new_client_with_config default_timeout default_service clientset namespace opts)

  -- A configuration that NewClient can use: that of the cluster, or outside one that of the file.
  pub data IsUsed : C → Type 0 where
    in_cluster : (config : C) → k.in_cluster_config ≡ ok config → IsUsed config
    from_file :
        (config : C) (e : String)
        → k.in_cluster_config ≡ err e
        → k.build_config_from_flags kubeconfig_path ≡ ok config
        → IsUsed config

  -- With a configuration that it can use and a clientset for it, NewClient is NewClientWithConfig.
  pub new_client-IsUsed :
      (default_timeout : ℤ) (default_service namespace : String) (opts : List ClientOption)
      (config : C) (clientset : Clientset)
      → IsUsed config
      → k.new_for_config config ≡ ok clientset
      → new_client default_timeout default_service namespace opts
        ≡ ok (new_client_with_config default_timeout default_service clientset namespace opts)
  unfolding new_client
  new_client-IsUsed t service namespace opts config clientset (in_cluster c h) made =
      rw (h, made) refl
  new_client-IsUsed t service namespace opts config clientset (from_file c e h b) made =
      rw (h, b, made) refl
