-- ===== src/Tools/GpuHealth/Score/Penalty.antt =====
-- The health score of pkg/tools/gpu_health.go against a table of penalties.
use k8s_mcp_agent.Prelude.{ℕ, ◌+◌, ◌-◌, ◌≡◌, String, [], ltb, ◌=ˢ◌, if◌then◌else◌, arith}
use k8s_mcp_agent.Prelude.Int.{ℤ, pos, pos_part, neg_part, ◌-ℤ◌, -ℤ_parts}
use k8s_mcp_agent.Prelude.Float.{Float64}
use k8s_mcp_agent.Tools.GpuHealth.{
  TemperatureHealth, MemoryHealth, PowerHealth, ThrottlingStatus, EccHealth,
}
use k8s_mcp_agent.Tools.GpuHealth.Score.{
  Tally, temperature_impact, memory_impact, power_impact, throttling_impact, ecc_impact, floor_zero,
  calculate_health_score,
}

-- The points that each subsystem costs, by its status or its counts.
abbrev pub temperature_penalty : String → ℕ
temperature_penalty s =
    if s =ˢ "critical" then 30 else if s =ˢ "high" then 20 else if s =ˢ "elevated" then 10 else 0

abbrev pub memory_penalty : String → ℕ
memory_penalty s = if s =ˢ "critical" then 20 else if s =ˢ "high" then 10 else 0

abbrev pub power_penalty : String → ℕ
power_penalty s = if s =ˢ "over_limit" then 15 else if s =ˢ "high" then 10 else 0

abbrev pub throttling_penalty : String → ℕ
throttling_penalty s = if s =ˢ "severe" then 25 else if s =ˢ "minor" then 10 else 0

abbrev pub ecc_penalty : ℕ → ℕ → ℕ
ecc_penalty uncorrectable correctable =
    if ltb 0 uncorrectable then 30 else if ltb 1000 correctable then 10 else 0

-- `score` after a step that costs `points`, as a difference of two numbers.
abbrev Costs : ℕ → ℤ → ℤ → Type 0
Costs points after before =
    pos_part after + neg_part before + points ≡ neg_part after + pos_part before

sub-Costs : (s : ℤ) (n : ℕ) → Costs n (s -ℤ pos n) s
sub-Costs s n = omega (arith, -ℤ_parts s (pos n))

stay-Costs : (s : ℤ) → Costs 0 s s
stay-Costs s = omega arith

temperature-Costs :
    (h : TemperatureHealth) (t : Tally)
    → Costs (temperature_penalty h.status) (temperature_impact h t).score t.score
unfolding temperature_impact
temperature-Costs h t =
    ground (arith, sub-Costs t.score 30, sub-Costs t.score 20, sub-Costs t.score 10)

memory-Costs :
    (fl : Float64) (h : MemoryHealth fl.Float) (t : Tally)
    → Costs (memory_penalty h.status) (memory_impact fl h t).score t.score
unfolding memory_impact
memory-Costs fl h t = ground (arith, sub-Costs t.score 20, sub-Costs t.score 10)

power-Costs :
    {F : Type 0} (h : PowerHealth F) (t : Tally)
    → Costs (power_penalty h.status) (power_impact h t).score t.score
unfolding power_impact
power-Costs h t = ground (arith, sub-Costs t.score 15, sub-Costs t.score 10)

throttling-Costs :
    (h : ThrottlingStatus) (t : Tally)
    → Costs (throttling_penalty h.status) (throttling_impact h t).score t.score
unfolding throttling_impact
throttling-Costs h t = ground (arith, sub-Costs t.score 25, sub-Costs t.score 10)

ecc-Costs :
    (h : EccHealth) (t : Tally)
    → Costs
        (ecc_penalty h.total_uncorrectable_errors h.total_correctable_errors)
        (ecc_impact h t).score
        t.score
unfolding ecc_impact
ecc-Costs h t = ground (arith, sub-Costs t.score 30, sub-Costs t.score 10)

floor_zero-of_Costs : (s : ℤ) (n : ℕ) → Costs n s (pos 100) → floor_zero s ≡ pos (100 - n)
unfolding floor_zero
floor_zero-of_Costs s n h = ground arith

-- The health score is 100 less the penalties of the five subsystems, and 0 where these exceed 100;
-- so it always lies between 0 and 100. This holds for every status, known or not.
pub calculate_health_score-penalties :
    (fl : Float64) (temperature : TemperatureHealth) (memory : MemoryHealth fl.Float)
    (power : PowerHealth fl.Float) (throttling : ThrottlingStatus) (ecc : EccHealth)
    → (calculate_health_score fl temperature memory power throttling ecc).score
      ≡ pos (
          100
          - (temperature_penalty temperature.status
              + memory_penalty memory.status
              + power_penalty power.status
              + throttling_penalty throttling.status
              + ecc_penalty ecc.total_uncorrectable_errors ecc.total_correctable_errors))
unfolding calculate_health_score
calculate_health_score-penalties fl temperature memory power throttling ecc =
    let t0 : Tally = record { score = pos 100; issues = [] } in
    let t1 : Tally = temperature_impact temperature t0 in
    let t2 : Tally = memory_impact fl memory t1 in
    let t3 : Tally = power_impact power t2 in
    let t4 : Tally = throttling_impact throttling t3 in
    floor_zero-of_Costs (ecc_impact ecc t4).score _ (
      omega (
        arith,
        temperature-Costs temperature t0,
        memory-Costs fl memory t1,
        power-Costs power t2,
        throttling-Costs throttling t3,
        ecc-Costs ecc t4,
      ))
