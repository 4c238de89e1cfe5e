-- ===== src/Agent/Shutdown.antt =====
-- cmd/agent/main.go: what happens to NVML at the end of the process.
use k8s_mcp_agent.Prelude.{
  true, false, Option, none, some, ◌≡◌, inl, inr, refl, arith, Option-cases, List, [], ◌∷◌, ◌++◌, ℕ,
}
use k8s_mcp_agent.Prelude.Result.{ok, Result-cases}
use k8s_mcp_agent.Mcp.Server.{Config, Server}
use k8s_mcp_agent.Nvml.Real.{Return, success, error_not_supported, error_code, Library}
use k8s_mcp_agent.Nvml.Real.Client.{LibraryCall, nvml_init, nvml_shutdown, init, shutdown}
use k8s_mcp_agent.Agent.{
  shut_down_nvml, with_cgo, init_nvml, with_client, client_of, config_of, invalid_flags,
  transport_of, Flags, Surroundings, Nvml, real_nvml, Event, signal, server_returns, finish, ended,
  start, main,
}

-- The calls of the library's functions that a process with the real NVML made, the last first.
abbrev pub calls_of : Option Nvml → List LibraryCall
calls_of (some (real_nvml lib r)) = r.calls
calls_of _ = []

-- A real NVML as main has it after Init.
abbrev pub initialized_nvml : Library → Nvml
initialized_nvml lib = real_nvml lib (record { initialized = true; calls = nvml_init success ∷ [] })

-- What the end of main asks of the library.
abbrev pub last_calls : Event → Return → List LibraryCall
last_calls (server_returns none) ret = nvml_shutdown ret ∷ []
last_calls _ ret = []

finish-calls :
    (lib : Library) (event : Event) (ret : Return)
    → calls_of (some (finish event ret (initialized_nvml lib)))
      ≡ last_calls event ret ++ (nvml_init success ∷ [])
unfolding finish shut_down_nvml shutdown
finish-calls lib (signal result) ret = refl
finish-calls lib (server_returns none) success = refl
finish-calls lib (server_returns none) error_not_supported = refl
finish-calls lib (server_returns none) (error_code n) = refl
finish-calls lib (server_returns (some e)) ret = refl

module _ (env : Surroundings) (f : Flags) (lib : Library) (built : env.build ≡ with_cgo lib success)
    (alone : f.gateway_mode ≡ false) (real : f.nvml_mode ≡ "real") where
  init_nvml-real : init_nvml env.build f.nvml_mode ≡ ok (initialized_nvml lib)
  unfolding init_nvml init
  init_nvml-real = rw (built, real) refl

  with_client-real :
      (cfg : Config)
      → with_client env f cfg
        ≡ ok (
          record cfg { nvml_client = some (client_of (initialized_nvml lib)) },
          some (initialized_nvml lib),
        )
  unfolding with_client
  with_client-real cfg = rw (alone, init_nvml-real) refl

  start-nvml :
      (server : Server) (nvml : Option Nvml)
      → start env f ≡ ok (server, nvml)
      → nvml ≡ some (initialized_nvml lib)
  unfolding start
  start-nvml server nvml h = elim (Option-cases (invalid_flags env.log_level f)) [
    | inr (e, i) ↦ absurd (ground (arith, h, i))
    | inl i ↦ elim (Result-cases (transport_of f)) [
      | inr (e, t) ↦ absurd (ground (arith, h, i, t))
      | inl (transport, t) ↦ ground (arith, h, i, t, with_client-real (config_of env f transport))
    ]
  ]

  -- When main runs an agent with the real NVML, in a build with cgo whose nvml.Init() succeeds, and
  -- comes to its end, it has asked the library to shut down exactly if the server returned by itself
  -- and without an error: after a signal the deferred Shutdown refuses, as the context is cancelled,
  -- and after an error of the server no deferred call runs.
  pub main-calls :
      (event : Event) (ret : Return) (code : ℕ) (left : Option Nvml)
      → main env f event ret ≡ ended code left
      → calls_of left ≡ last_calls event ret ++ (nvml_init success ∷ [])
  unfolding main
  main-calls event ret code left h = elim (Result-cases (start env f)) [
    | inr (e, s) ↦ absurd (ground (arith, h, s))
    | inl ((server, nvml), s) ↦
        let n = start-nvml server nvml s in ground (arith, h, s, n, finish-calls lib event ret)
  ]
