-- ===== src/Nvml/Real/Lifecycle.antt =====
-- pkg/nvml/real.go: Init and Shutdown, in any interleaving of callers.
use k8s_mcp_agent.Prelude.{◌≡◌, refl, String, Bool, true, false, Option, none, some, List, [], ◌∷◌}
use k8s_mcp_agent.Nvml.Real.{Return, success, error_not_supported, error_code}
use k8s_mcp_agent.Nvml.Real.Client.{
  LibraryCall, nvml_init, nvml_shutdown, Real, new_real, init, shutdown,
}

-- A call of Init or Shutdown: what its context shows, and what the library answers if it is asked.
pub data Call : Type 0 where
  call_init call_shutdown : Option String → Return → Call

-- The calls of the library, the last first, are in order and leave it initialized or not as told:
-- nvml.Init() is asked while it is not initialized and nvml.Shutdown() while it is, and a call that
-- fails changes nothing.
abbrev pub IsProper : List LibraryCall → Bool → Type 0
IsProper [] on = on ≡ false
IsProper (nvml_init success ∷ calls) on = (on ≡ true) × IsProper calls false
IsProper (nvml_init other ∷ calls) on = (on ≡ false) × IsProper calls false
IsProper (nvml_shutdown success ∷ calls) on = (on ≡ false) × IsProper calls true
IsProper (nvml_shutdown other ∷ calls) on = (on ≡ true) × IsProper calls true

module _ (error_string : Return → String) where
  abbrev pub make : Call → Real → Real
  make (call_init ctx ret) r = (init error_string ctx ret r).1
  make (call_shutdown ctx ret) r = (shutdown error_string ctx ret r).1

  abbrev pub make_all : List Call → Real → Real
  make_all [] r = r
  make_all (c ∷ cs) r = make_all cs (make c r)

  init-IsProper :
      (ctx : Option String) (ret : Return) (on : Bool) (calls : List LibraryCall)
      → IsProper calls on
      → let after = (init error_string ctx ret (record { initialized = on; calls = calls })).1 in
        IsProper after.calls after.initialized
  unfolding init
  init-IsProper (some e) ret on calls h = h
  init-IsProper none ret true calls h = h
  init-IsProper none success false calls h = (refl, h)
  init-IsProper none error_not_supported false calls h = (refl, h)
  init-IsProper none (error_code n) false calls h = (refl, h)

  shutdown-IsProper :
      (ctx : Option String) (ret : Return) (on : Bool) (calls : List LibraryCall)
      → IsProper calls on
      → let after =
          (shutdown error_string ctx ret (record { initialized = on; calls = calls })).1 in
        IsProper after.calls after.initialized
  unfolding shutdown
  shutdown-IsProper (some e) ret on calls h = h
  shutdown-IsProper none ret false calls h = h
  shutdown-IsProper none success true calls h = (refl, h)
  shutdown-IsProper none error_not_supported true calls h = (refl, h)
  shutdown-IsProper none (error_code n) true calls h = (refl, h)

  make_all-IsProper :
      (cs : List Call) (r : Real)
      → IsProper r.calls r.initialized
      → IsProper (make_all cs r).calls (make_all cs r).initialized
  make_all-IsProper [] r h = h
  make_all-IsProper (call_init ctx ret ∷ cs) r h =
      make_all-IsProper cs (init error_string ctx ret r).1
        (init-IsProper ctx ret r.initialized r.calls h)
  make_all-IsProper (call_shutdown ctx ret ∷ cs) r h =
      make_all-IsProper cs (shutdown error_string ctx ret r).1
        (shutdown-IsProper ctx ret r.initialized r.calls h)

  -- After any calls of Init and Shutdown, from any number of goroutines and with any answers of the
  -- library and states of their contexts, the library was asked to initialize only while it was not
  -- initialized and to shut down only while it was, and the flag of Real tells which of the two it is.
  pub new_real-IsProper :
      (cs : List Call) → IsProper (make_all cs new_real).calls (make_all cs new_real).initialized
  new_real-IsProper cs = make_all-IsProper cs new_real refl
