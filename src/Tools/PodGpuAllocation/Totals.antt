-- ===== src/Tools/PodGpuAllocation/Totals.antt =====
-- pkg/tools/pod_gpu_allocation.go: the totals of a response agree with the pods that it lists.
use k8s_mcp_agent.Prelude.{
  ℕ, suc, ◌+◌, ◌%◌, ◌^◌, ◌≡◌, refl, sym, ap, subst, ◌∙◌, ◌+ˢ◌, String, List, [], ◌∷◌, ◌++◌, arith,
  eq_iff, length, Option, some, All, Bool-cases, Option-cases, inl, inr, ◌⊎◌, ◌=ˢ◌,
}
use k8s_mcp_agent.Prelude.Int64.{add64-mod}
use k8s_mcp_agent.Prelude.Result.{Result, ok, err, bind-ok}
use k8s_mcp_agent.K8s.Objects.{Pod, Clientset}
use k8s_mcp_agent.Tools.PodGpuAllocation.{
  ContainerGpuAllocation, PodGpuAllocation, PodGpuAllocationResponse, extract_gpu_allocation,
  add_requests, Collected, take_pod, collect_pods, allocation_response, list_failed, answer_pods,
  namespace_of, checked_node_name, handle,
}

-- The GPUs that the containers ask for.
abbrev pub requested : List ContainerGpuAllocation → ℕ
requested [] = 0
requested (c ∷ cs) = c.gpu_request + requested cs

abbrev pub requested_by : List PodGpuAllocation → ℕ
requested_by [] = 0
requested_by (pod ∷ pods) = requested pod.containers + requested_by pods

requested_by-snoc :
    (pods : List PodGpuAllocation) (pod : PodGpuAllocation)
    → requested_by (pods ++ (pod ∷ [])) ≡ requested_by pods + requested pod.containers
requested_by-snoc [] pod = omega arith
requested_by-snoc (p ∷ ps) pod = omega (arith, requested_by-snoc ps pod)

pub add_requests_lem :
    (total : ℕ) (cs : List ContainerGpuAllocation)
    → add_requests (total % 2 ^ 64) cs ≡ (total + requested cs) % 2 ^ 64
unfolding add_requests
add_requests_lem total [] = omega arith
add_requests_lem total (c ∷ cs) =
    ap (λ (n : ℕ). add_requests n cs) (add64-mod total c.gpu_request)
    ∙ add_requests_lem (total + c.gpu_request) cs
    ∙ ap (λ (n : ℕ). n % 2 ^ 64) (omega arith)

-- The summary of a response agrees with its pods, and they are those of the node.
pub record IsConsistent (node_name : String) (r : PodGpuAllocationResponse) : Type 0 where
  pub named : r.node_name ≡ node_name
  pub counted : r.summary.total_pods ≡ length r.pods
  pub total : r.summary.total_gpus_allocated ≡ requested_by r.pods % 2 ^ 64
  pub on_node : All (λ (p : PodGpuAllocation). p.node ≡ node_name) r.pods

-- What holds of the variables of the loop.
record IsTotalled (node_name : String) (s : Collected) : Type 0 where
  total : s.total_gpus ≡ requested_by s.gpu_pods % 2 ^ 64
  on_node : All (λ (p : PodGpuAllocation). p.node ≡ node_name) s.gpu_pods

All-snoc {ℓ κ} :
    {A : Type ℓ} (P : A → Type κ) (xs : List A) (x : A) → All P xs → P x → All P (xs ++ (x ∷ []))
All-snoc P [] x h p = (p, tt)
All-snoc P (y ∷ ys) x h p = (h.0, All-snoc P ys x h.1 p)

extract-node :
    (pod : Pod) (a : PodGpuAllocation)
    → extract_gpu_allocation pod ≡ some a
    → a.node ≡ pod.node_name
unfolding extract_gpu_allocation
extract-node pod a h = ground (arith, h)

take_pod-IsTotalled :
    (node_name : String) (pod : Pod) (s : Collected)
    → IsTotalled node_name s
    → IsTotalled node_name (take_pod node_name pod s)
unfolding take_pod
take_pod-IsTotalled node_name pod s h = elim (Bool-cases (pod.node_name =ˢ node_name)) [
  | inr other ↦ simp (other, take_pod) h
  | inl same ↦ elim (Option-cases (extract_gpu_allocation pod)) [
    | inl nothing ↦ simp (same, nothing, take_pod) h
    | inr (a, found) ↦
        simp (same, found, take_pod)
          (record {
            total =
                ap (λ (n : ℕ). add_requests n a.containers) h.total
                ∙ add_requests_lem (requested_by s.gpu_pods) a.containers
                ∙ ap (λ (n : ℕ). n % 2 ^ 64) (sym (requested_by-snoc s.gpu_pods a));
            on_node =
                All-snoc (λ (p : PodGpuAllocation). p.node ≡ node_name) s.gpu_pods a h.on_node
                  (extract-node pod a found ∙ ground (arith, same, eq_iff pod.node_name node_name));
          })
  ]
]

module _ (done : ℕ → Option String) (node_name : String) where
  collect_pods-IsTotalled :
      (i : ℕ) (pods : List Pod) (s r : Collected)
      → IsTotalled node_name s
      → collect_pods done node_name i pods s ≡ ok r
      → IsTotalled node_name r
  unfolding collect_pods
  collect_pods-IsTotalled i [] s r h e = subst (IsTotalled node_name) (cc e) h
  collect_pods-IsTotalled i (pod ∷ pods) s r h e = elim (Option-cases (done i)) [
    | inr (x, d) ↦ absurd (cc (rw (d, collect_pods) at e))
    | inl d ↦
        collect_pods-IsTotalled (suc i) pods (take_pod node_name pod s) r
          (take_pod-IsTotalled node_name pod s h) (rw (d, collect_pods) at e)
  ]

  answer_pods-totals :
      (pods : Result String (List Pod)) (r : PodGpuAllocationResponse)
      → answer_pods done node_name pods ≡ ok r
      → IsConsistent node_name r
  unfolding answer_pods allocation_response list_failed
  answer_pods-totals (err e) r h =
      let it : list_failed node_name e ≡ r = cc h in
      subst (IsConsistent node_name) it
        (record { named = refl; counted = refl; total = refl; on_node = tt })
  answer_pods-totals (ok pods) r h =
      let start : Collected = record { gpu_pods = []; total_gpus = 0 } in
      let (s, collected, same) =
        bind-ok (collect_pods done node_name 0 pods start)
          (λ s. ok (allocation_response node_name s)) r h in
      let totalled =
        collect_pods-IsTotalled 0 pods start s (record { total = refl; on_node = tt }) collected in
      let it : allocation_response node_name s ≡ r = cc same in
      subst (IsConsistent node_name) it (record {
        named = refl;
        counted = refl;
        total = totalled.total;
        on_node = totalled.on_node;
      })

checked_node_name-same : (name n : String) → checked_node_name (some name) ≡ ok n → name ≡ n
unfolding checked_node_name
checked_node_name-same name n h = ground (arith, h)

-- The pods that Handle asks for: those of the node.
abbrev pub listed_pods : Clientset → String → Option String → Result String (List Pod)
listed_pods clientset name namespace =
    clientset.list_pods (namespace_of namespace)
      (record { label_selector = ""; field_selector = "spec.nodeName=" +ˢ name })

-- The response for a list of pods that failed: an error, with no pods and nothing counted.
pub record IsEmpty (name : String) (r : PodGpuAllocationResponse) : Type 0 where
  pub named : r.node_name ≡ name
  pub failed : r.status ≡ "error"
  pub no_pods : r.pods ≡ []
  pub no_count : r.summary.total_pods ≡ 0
  pub no_gpus : r.summary.total_gpus_allocated ≡ 0

answer_pods-cases :
    (done : ℕ → Option String) (name : String) (pods : Result String (List Pod))
    (r : PodGpuAllocationResponse)
    → answer_pods done name pods ≡ ok r
    → ((e : String) × (pods ≡ err e) × IsEmpty name r)
      ⊎ ((found : List Pod) × (pods ≡ ok found) × IsConsistent name r)
unfolding answer_pods list_failed
answer_pods-cases done name (ok pods) r h =
    inr (pods, refl, answer_pods-totals done name (ok pods) r h)
answer_pods-cases done name (err e) r h =
    let it : list_failed name e ≡ r = cc h in
    inl (
      e,
      refl,
      subst (IsEmpty name) it
          (record { named = refl; failed = refl; no_pods = refl; no_count = refl; no_gpus = refl }),
    )

-- A response for a node name, with a client of the cluster, that is not an error of the tool comes
-- from a list of pods that failed or one that was found. If it failed, the response
-- has the status "error", lists no pods and counts nothing. If it was found, the response counts the
-- pods that it lists, its number of allocated GPUs is the sum of the requests of their containers, as
-- an int64, and each of these pods runs on the node asked for.
pub handle-totals :
    (clientset : Clientset) (done : ℕ → Option String) (name : String) (namespace : Option String)
    (r : PodGpuAllocationResponse)
    → handle (some clientset) done (some name) namespace ≡ ok r
    → ((e : String) × (listed_pods clientset name namespace ≡ err e) × IsEmpty name r)
      ⊎ ((pods : List Pod) × (listed_pods clientset name namespace ≡ ok pods) × IsConsistent name r)
unfolding handle
handle-totals clientset done name namespace r h =
    let (n, checked, answered) =
      bind-ok (checked_node_name (some name))
        (λ n. answer_pods done n (listed_pods clientset n namespace)) r h in
    subst
      (λ (n : String).
        ((e : String) × (listed_pods clientset n namespace ≡ err e) × IsEmpty n r)
        ⊎ ((pods : List Pod) × (listed_pods clientset n namespace ≡ ok pods) × IsConsistent n r))
      (sym (checked_node_name-same name n checked))
      (answer_pods-cases done n (listed_pods clientset n namespace) r answered)
