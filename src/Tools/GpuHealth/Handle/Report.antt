-- ===== src/Tools/GpuHealth/Handle/Report.antt =====
-- What the report of pkg/tools/gpu_health.go says of the devices that answered.
use k8s_mcp_agent.Prelude.{
  ℕ, zero, suc, ◌+◌, ◌≤◌, ◌<◌, ◌≡◌, refl, sym, ◌∙◌, ap, subst, ◌⊎◌, inl, inr, String, true, ◌||◌,
  List, [], ◌∷◌, Option, none, some, ltb, ◌=ˢ◌, arith, eq_iff, map,
}
use k8s_mcp_agent.Prelude.Float.{Float64}
use k8s_mcp_agent.Prelude.Result.{ok, err}
use k8s_mcp_agent.Nvml
use k8s_mcp_agent.Nvml.{Device, NvmlClient}
use k8s_mcp_agent.Tools.GpuHealth.{GpuHealthStatus, GpuHealthResponse}
use k8s_mcp_agent.Tools.GpuHealth.Checks.{
  check_temperature, check_memory, check_power, check_throttling, check_ecc_errors,
}
use k8s_mcp_agent.Tools.GpuHealth.Score.{determine_status}
use k8s_mcp_agent.Tools.GpuHealth.Score.Critical.{has_critical-calculate_health_score}
use k8s_mcp_agent.Tools.GpuHealth.Overall.{calculate_overall_health, generate_recommendation}
use k8s_mcp_agent.Tools.GpuHealth.Overall.Worst.{any_status, calculate_overall_health-worst}
use k8s_mcp_agent.Tools.GpuHealth.Handle.{
  Context, basic_info, with_metrics, collect_gpu_health, collect_from, handle,
}

-- The context is never cancelled.
pub record Alive (ctx : Context) : Type 0 where
  pub start : ctx.at_start ≡ none
  pub round : (i : ℕ) → ctx.at_round i ≡ none
  pub metrics : (i : ℕ) → ctx.at_metrics i ≡ none

-- The devices that answer among the `left` ones from index i on, with their indices.
abbrev pub answering : NvmlClient → ℕ → ℕ → List (ℕ × Device)
answering client i zero = []
answering client i (suc left) =
    let rest = answering client (suc i) left in
    elim (client.get_device_by_index i) [
      | err e ↦ rest
      | ok none ↦ rest
      | ok (some device) ↦ (i, device) ∷ rest
    ]

-- What is reported of a device with its index.
abbrev pub reported : (fl : Float64) → (ℕ × Device) → GpuHealthStatus fl.Float
reported fl (index, device) = with_metrics fl device (basic_info fl index device)

-- The three ways in which the NVIDIA library answers a request for a device.
Device-cases :
    (answer : Nvml.Answer (Option Device))
    → ((e : String) × (answer ≡ err e))
      ⊎ ((answer ≡ ok none) ⊎ ((device : Device) × (answer ≡ ok (some device))))
Device-cases (err e) = inl (e, refl)
Device-cases (ok none) = inr (inl refl)
Device-cases (ok (some device)) = inr (inr (device, refl))

module _ (fl : Float64) (ctx : Context) (client : NvmlClient) (alive : Alive ctx) where
  collect_from-alive :
      (i left : ℕ)
      → collect_from fl ctx client i left ≡ ok (map (reported fl) (answering client i left))
  unfolding collect_from collect_gpu_health
  collect_from-alive i zero = refl
  collect_from-alive i (suc left) =
      let ih = collect_from-alive (suc i) left in
      elim (Device-cases (client.get_device_by_index i)) [
        | inl (e, p) ↦ simp (alive.round i, p, ih, collect_from, answering)
        | inr (inl p) ↦ simp (alive.round i, p, ih, collect_from, answering)
        | inr (inr (device, p)) ↦
            simp
              (alive.round i, p, ih, alive.metrics i, collect_from, answering, collect_gpu_health)
      ]

-- While the context is not cancelled, the tool reports every device that answers, in the order of
-- the indices and with all its metrics, and leaves out the devices that fail; the summary and the
-- recommendation are those of this list.
pub handle-reports :
    (fl : Float64) (ctx : Context) (client : NvmlClient) (count : ℕ)
    → Alive ctx
    → client.get_device_count ≡ ok count
    → let r = calculate_overall_health (map (reported fl) (answering client 0 count)) in
      handle fl ctx client ≡ ok (record r { recommendation = generate_recommendation r })
unfolding handle
handle-reports fl ctx client count alive h =
    simp (alive.start, h, collect_from-alive fl ctx client alive 0 count, handle)

-- A device whose temperature, memory, throttling or ECC counts call for a critical issue.
abbrev pub Alarmed : Float64 → Device → Type 0
Alarmed fl device =
    ((check_temperature device).status ≡ "critical")
    ⊎ (((check_memory fl device).status ≡ "critical")
        ⊎ (((check_throttling device).status ≡ "severe")
            ⊎ (0 < (check_ecc_errors device).total_uncorrectable_errors)))

pub any_of_four :
    (s t u : String) (n : ℕ)
    → (s ≡ "critical") ⊎ ((t ≡ "critical") ⊎ ((u ≡ "severe") ⊎ (0 < n)))
    → (s =ˢ "critical" || t =ˢ "critical" || u =ˢ "severe" || ltb 0 n) ≡ true
any_of_four s t u n h =
    ground (arith, h, eq_iff s "critical", eq_iff t "critical", eq_iff u "severe")

reported-critical :
    (fl : Float64) (index : ℕ) (device : Device)
    → Alarmed fl device
    → (reported fl (index, device)).status ≡ "critical"
unfolding with_metrics determine_status
reported-critical fl index device h =
    let t = check_temperature device in
    let m = check_memory fl device in
    let p = check_power fl device in
    let u = check_throttling device in
    let e = check_ecc_errors device in
    let q = any_of_four t.status m.status u.status e.total_uncorrectable_errors h in
    rw (has_critical-calculate_health_score fl t m p u e ∙ q)

first_or_later : (first index : ℕ) → first ≤ index → (first ≡ index) ⊎ (suc first ≤ index)
first_or_later first index h = omega arith

any_status-of_answering :
    (fl : Float64) (client : NvmlClient) (first left index : ℕ) (device : Device)
    → first ≤ index
    → index < first + left
    → client.get_device_by_index index ≡ ok (some device)
    → (reported fl (index, device)).status ≡ "critical"
    → any_status "critical" (map (reported fl) (answering client first left)) ≡ true
any_status-of_answering fl client first zero index device lo hi p c = ground arith
any_status-of_answering fl client first (suc left) index device lo hi p c =
    elim (first_or_later first index lo) [
      | inl here ↦
          let q = ap client.get_device_by_index here ∙ p in
          let c' = subst (λ i. (reported fl (i, device)).status ≡ "critical") (sym here) c in
          simp (q, c', answering) (ground arith)
      | inr later ↦
          let ih =
            any_status-of_answering fl client (suc first) left index device later (omega arith) p
              c in
          elim (Device-cases (client.get_device_by_index first)) [
            | inl (e, q) ↦ simp (q, answering) ih
            | inr (inl q) ↦ simp (q, answering) ih
            | inr (inr (d, q)) ↦ simp (q, answering, ih) (ground arith)
          ]
    ]

calculate_overall_health-critical :
    {F : Type 0} (gpus : List (GpuHealthStatus F))
    → any_status "critical" gpus ≡ true
    → (calculate_overall_health gpus).status ≡ "critical"
calculate_overall_health-critical [] h = ground arith
calculate_overall_health-critical (gpu ∷ gpus) h =
    (calculate_overall_health-worst gpu gpus).5 ∙ rw h

-- If the context is not cancelled and some device that answers has a critical temperature or memory
-- status, severe throttling or an uncorrectable ECC error, then the tool succeeds and the status of
-- its response is "critical", whatever the other devices answer.
pub handle-critical :
    (fl : Float64) (ctx : Context) (client : NvmlClient) (count index : ℕ) (device : Device)
    → Alive ctx
    → client.get_device_count ≡ ok count
    → index < count
    → client.get_device_by_index index ≡ ok (some device)
    → Alarmed fl device
    → (r : GpuHealthResponse fl.Float) × (handle fl ctx client ≡ ok r) × (r.status ≡ "critical")
handle-critical fl ctx client count index device alive h lt p alarm =
    let c = reported-critical fl index device alarm in
    (
      _,
      handle-reports fl ctx client count alive h,
      calculate_overall_health-critical _
          (any_status-of_answering fl client 0 count index device (omega arith) (omega arith) p c),
    )
