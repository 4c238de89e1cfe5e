-- ===== src/Tools/GpuHealth/Overall/Worst.antt =====
-- The summary of pkg/tools/gpu_health.go against the list of GPUs.
use k8s_mcp_agent.Prelude.{
  ℕ, ◌+◌, ◌≡◌, refl, ap, ◌∙◌, ◌⊎◌, inl, inr, String, Bool, true, false, ◌||◌, List, [], ◌∷◌, ltb,
  ◌=ˢ◌, if◌then◌else◌, arith, eq_iff, All, length, count_if,
}
use k8s_mcp_agent.Prelude.Int.{ℤ, pos, leb_ℤ}
use k8s_mcp_agent.Tools.GpuHealth.{GpuHealthStatus}
use k8s_mcp_agent.Tools.GpuHealth.Overall.{
  Counts, count_status, count_gpu, count_gpus, no_counts, overall_status, calculate_overall_health,
  generate_recommendation, worst_of,
}

-- 1 or 0, as the test holds.
abbrev bit : Bool → ℕ
bit b = if b then 1 else 0

-- A text that equals one literal is compared as that literal.
=ˢ-of_equal : (s a b : String) → s =ˢ a ≡ true → s =ˢ b ≡ (a =ˢ b)
=ˢ-of_equal s a b h = ap (λ x. x =ˢ b) ((eq_iff s a).0 h)

count_status_lem :
    (s : String) (c : Counts)
    → ((count_status s c).healthy ≡ c.healthy + bit (s =ˢ "healthy"))
      × ((count_status s c).warning ≡ c.warning + bit (s =ˢ "warning"))
      × ((count_status s c).degraded ≡ c.degraded + bit (s =ˢ "degraded"))
      × ((count_status s c).critical ≡ c.critical + bit (s =ˢ "critical"))
unfolding count_status
count_status_lem s c = ground (
  arith,
  =ˢ-of_equal s "healthy" "warning",
  =ˢ-of_equal s "healthy" "degraded",
  =ˢ-of_equal s "healthy" "critical",
  =ˢ-of_equal s "warning" "degraded",
  =ˢ-of_equal s "warning" "critical",
  =ˢ-of_equal s "degraded" "critical",
)

worst_of_lem : (a b : ℤ) → leb_ℤ (worst_of a b) a ≡ true × leb_ℤ (worst_of a b) b ≡ true
unfolding worst_of
worst_of_lem a b = ground arith

leb_ℤ-trans : (a b c : ℤ) → leb_ℤ a b ≡ true → leb_ℤ b c ≡ true → leb_ℤ a c ≡ true
leb_ℤ-trans a b c p q = ground arith

module _ {F : Type 0} where
  count_gpu-worst :
      (gpu : GpuHealthStatus F) (c : Counts)
      → leb_ℤ (count_gpu gpu c).worst c.worst ≡ true
        × leb_ℤ (count_gpu gpu c).worst gpu.health_score ≡ true
  unfolding count_gpu count_status worst_of
  count_gpu-worst gpu c = ground arith

  count_gpu-cases :
      (gpu : GpuHealthStatus F) (c : Counts)
      → ((count_gpu gpu c).worst ≡ gpu.health_score) ⊎ ((count_gpu gpu c).worst ≡ c.worst)
  unfolding count_gpu count_status worst_of
  count_gpu-cases gpu c = ground arith

  -- How many GPUs have the status.
  abbrev pub with_status : String → List (GpuHealthStatus F) → ℕ
  with_status s = count_if (λ gpu. gpu.status =ˢ s)

  counted :
      (c : Counts) (gpus : List (GpuHealthStatus F))
      → ((count_gpus c gpus).healthy ≡ c.healthy + with_status "healthy" gpus)
        × ((count_gpus c gpus).warning ≡ c.warning + with_status "warning" gpus)
        × ((count_gpus c gpus).degraded ≡ c.degraded + with_status "degraded" gpus)
        × ((count_gpus c gpus).critical ≡ c.critical + with_status "critical" gpus)
  unfolding count_gpus count_gpu
  counted c [] = omega arith
  counted c (gpu ∷ gpus) =
      ground (arith, counted (count_gpu gpu c) gpus, count_status_lem gpu.status c)

  worst-count_gpus :
      (c : Counts) (gpus : List (GpuHealthStatus F))
      → leb_ℤ (count_gpus c gpus).worst c.worst ≡ true
        × All (λ gpu. leb_ℤ (count_gpus c gpus).worst gpu.health_score ≡ true) gpus
  unfolding count_gpus
  worst-count_gpus c [] = ground arith
  worst-count_gpus c (gpu ∷ gpus) =
      let ih = worst-count_gpus (count_gpu gpu c) gpus in
      let w = count_gpu-worst gpu c in
      let last : ℤ = (count_gpus (count_gpu gpu c) gpus).worst in
      let mid : ℤ = (count_gpu gpu c).worst in
      (
        leb_ℤ-trans last mid c.worst (ih.0) (w.0),
        (leb_ℤ-trans last mid gpu.health_score (ih.0) (w.1), ih.1),
      )

  -- Whether some GPU has the status.
  abbrev pub any_status : String → List (GpuHealthStatus F) → Bool
  any_status s [] = false
  any_status s (gpu ∷ gpus) = gpu.status =ˢ s || any_status s gpus

  with_status-positive :
      (s : String) (gpus : List (GpuHealthStatus F))
      → ltb 0 (with_status s gpus) ≡ any_status s gpus
  with_status-positive s [] = refl
  with_status-positive s (gpu ∷ gpus) = ground (arith, with_status-positive s gpus)

  -- The severest of "critical", "degraded" and "warning" that some GPU has, and "healthy" without one.
  abbrev pub severest : List (GpuHealthStatus F) → String
  severest gpus =
      if any_status "critical" gpus
      then "critical"
      else if any_status "degraded" gpus
      then "degraded"
      else if any_status "warning" gpus
      then "warning"
      else "healthy"

  overall_status-counted :
      (gpus : List (GpuHealthStatus F)) → overall_status (count_gpus no_counts gpus) ≡ severest gpus
  unfolding overall_status
  overall_status-counted gpus = ground (
    arith,
    counted no_counts gpus,
    with_status-positive "critical" gpus,
    with_status-positive "degraded" gpus,
    with_status-positive "warning" gpus,
  )

  -- The GPUs with this score.
  abbrev pub HasScore : ℤ → List (GpuHealthStatus F) → Type 0
  HasScore score [] = ⊥
  HasScore score (gpu ∷ gpus) = (score ≡ gpu.health_score) ⊎ HasScore score gpus

  -- The worst score is the one before the loop or that of a GPU.
  worst-HasScore :
      (c : Counts) (gpus : List (GpuHealthStatus F))
      → ((count_gpus c gpus).worst ≡ c.worst) ⊎ HasScore (count_gpus c gpus).worst gpus
  unfolding count_gpus
  worst-HasScore c [] = inl refl
  worst-HasScore c (gpu ∷ gpus) = elim (worst-HasScore (count_gpu gpu c) gpus) [
    | inr h ↦ inr (inr h)
    | inl h ↦ elim (count_gpu-cases gpu c) [ inl e ↦ inr (inl (h ∙ e)) | inr e ↦ inl (h ∙ e) ]
  ]

  -- For one GPU or more, the summary counts every device, and its four counters are the numbers of
  -- GPUs with those statuses. Its status is the severest of "critical", "degraded" and "warning" that
  -- some GPU has, and "healthy" if none has one of these, so also if every GPU is "unknown". Its score
  -- is the least of 100 and the scores of the GPUs.
  pub calculate_overall_health-worst :
      (gpu : GpuHealthStatus F) (gpus : List (GpuHealthStatus F))
      → let r = calculate_overall_health (gpu ∷ gpus) in
        (r.device_count ≡ length (gpu ∷ gpus))
        × (r.healthy_count ≡ with_status "healthy" (gpu ∷ gpus))
        × (r.warning_count ≡ with_status "warning" (gpu ∷ gpus))
        × (r.degraded_count ≡ with_status "degraded" (gpu ∷ gpus))
        × (r.critical_count ≡ with_status "critical" (gpu ∷ gpus))
        × (r.status ≡ severest (gpu ∷ gpus))
        × (leb_ℤ r.overall_score (pos 100) ≡ true)
        × All (λ g. leb_ℤ r.overall_score g.health_score ≡ true) (gpu ∷ gpus)
        × ((r.overall_score ≡ pos 100) ⊎ HasScore r.overall_score (gpu ∷ gpus))
  unfolding calculate_overall_health
  calculate_overall_health-worst gpu gpus =
      let c = counted no_counts (gpu ∷ gpus) in
      let w = worst-count_gpus no_counts (gpu ∷ gpus) in
      (
        refl,
        omega (arith, c),
        omega (arith, c),
        omega (arith, c),
        omega (arith, c),
        overall_status-counted (gpu ∷ gpus),
        w.0,
        w.1,
        worst-HasScore no_counts (gpu ∷ gpus),
      )

  with_status-of_unknown :
      (s : String)
      → "unknown" =ˢ s ≡ false
      → (gpus : List (GpuHealthStatus F)) → All (λ g. g.status ≡ "unknown") gpus
      → with_status s gpus ≡ 0
  with_status-of_unknown s ne [] h = refl
  with_status-of_unknown s ne (gpu ∷ gpus) h =
      let ih = with_status-of_unknown s ne gpus (h.1) in
      let q = ap (λ x. x =ˢ s) (h.0) in ground (arith, ih, q)

  -- If the metrics of no GPU could be collected, so that the status of each is "unknown", the
  -- summary still is "healthy", with the recommendation that all GPUs are healthy, although its
  -- count of healthy GPUs is 0.
  pub calculate_overall_health-unknown :
      (gpu : GpuHealthStatus F) (gpus : List (GpuHealthStatus F))
      → All (λ g. g.status ≡ "unknown") (gpu ∷ gpus)
      → let r = calculate_overall_health (gpu ∷ gpus) in
        (r.status ≡ "healthy")
        × (r.healthy_count ≡ 0)
        × (generate_recommendation r ≡ "All GPUs healthy. No action required.")
  unfolding calculate_overall_health generate_recommendation overall_status
  calculate_overall_health-unknown gpu gpus h =
      let c = counted no_counts (gpu ∷ gpus) in
      let h0 = with_status-of_unknown "healthy" refl (gpu ∷ gpus) h in
      let h1 = with_status-of_unknown "warning" refl (gpu ∷ gpus) h in
      let h2 = with_status-of_unknown "degraded" refl (gpu ∷ gpus) h in
      let h3 = with_status-of_unknown "critical" refl (gpu ∷ gpus) h in
      ground (arith, c, h0, h1, h2, h3)
