-- ===== src/Tools/GpuHealth/Score/Critical.antt =====
-- Which issues of pkg/tools/gpu_health.go are critical.
use k8s_mcp_agent.Prelude.{◌≡◌, ◌||◌, List, [], ◌∷◌, ◌++◌, ltb, ◌=ˢ◌, arith}
use k8s_mcp_agent.Prelude.Float.{Float64}
use k8s_mcp_agent.Prelude.Int.{pos}
use k8s_mcp_agent.Tools.GpuHealth.{
  TemperatureHealth, MemoryHealth, PowerHealth, ThrottlingStatus, EccHealth, HealthIssue,
}
use k8s_mcp_agent.Tools.GpuHealth.Score.{
  Tally, temperature_impact, memory_impact, power_impact, throttling_impact, ecc_impact,
  calculate_health_score, has_critical,
}

has_critical-snoc :
    (issues : List HealthIssue) (i : HealthIssue)
    → has_critical (issues ++ (i ∷ [])) ≡ (has_critical issues || i.severity =ˢ "critical")
has_critical-snoc [] i = ground arith
has_critical-snoc (j ∷ issues) i = ground (arith, has_critical-snoc issues i)

temperature-critical :
    (h : TemperatureHealth) (t : Tally)
    → has_critical (temperature_impact h t).issues
      ≡ (has_critical t.issues || h.status =ˢ "critical")
unfolding temperature_impact
temperature-critical h t = grind (arith, has_critical-snoc)

memory-critical :
    (fl : Float64) (h : MemoryHealth fl.Float) (t : Tally)
    → has_critical (memory_impact fl h t).issues ≡ (has_critical t.issues || h.status =ˢ "critical")
unfolding memory_impact
memory-critical fl h t = grind (arith, has_critical-snoc)

power-critical :
    {F : Type 0} (h : PowerHealth F) (t : Tally)
    → has_critical (power_impact h t).issues ≡ has_critical t.issues
unfolding power_impact
power-critical h t = grind (arith, has_critical-snoc)

throttling-critical :
    (h : ThrottlingStatus) (t : Tally)
    → has_critical (throttling_impact h t).issues ≡ (has_critical t.issues || h.status =ˢ "severe")
unfolding throttling_impact
throttling-critical h t = grind (arith, has_critical-snoc)

ecc-critical :
    (h : EccHealth) (t : Tally)
    → has_critical (ecc_impact h t).issues
      ≡ (has_critical t.issues || ltb 0 h.total_uncorrectable_errors)
unfolding ecc_impact
ecc-critical h t = grind (arith, has_critical-snoc)

-- The issues that the score collects hold a critical one exactly if the temperature or the memory
-- is critical, the throttling is severe, or an uncorrectable ECC error was counted.
pub has_critical-calculate_health_score :
    (fl : Float64) (temperature : TemperatureHealth) (memory : MemoryHealth fl.Float)
    (power : PowerHealth fl.Float) (throttling : ThrottlingStatus) (ecc : EccHealth)
    → has_critical (calculate_health_score fl temperature memory power throttling ecc).issues ≡ (
        temperature.status =ˢ "critical"
        || memory.status =ˢ "critical"
        || throttling.status =ˢ "severe"
        || ltb 0 ecc.total_uncorrectable_errors)
unfolding calculate_health_score
has_critical-calculate_health_score fl temperature memory power throttling ecc =
    let t0 : Tally = record { score = pos 100; issues = [] } in
    let t1 : Tally = temperature_impact temperature t0 in
    let t2 : Tally = memory_impact fl memory t1 in
    let t3 : Tally = power_impact power t2 in
    let t4 : Tally = throttling_impact throttling t3 in
    rw (
      ecc-critical ecc t4,
      throttling-critical throttling t3,
      power-critical power t2,
      memory-critical fl memory t1,
      temperature-critical temperature t0,
    )
