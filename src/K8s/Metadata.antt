-- ===== src/K8s/Metadata.antt =====
-- What pkg/gateway/proxy.go and pkg/tools/describe_gpu_node.go both do with the labels and the
-- conditions of a node.
use k8s_mcp_agent.Prelude.{
  String, Bool, false, ◌||◌, List, [], ◌∷◌, ◌=ˢ◌, if◌then◌else◌, ◌≡◌, refl, ap, ◌∙◌, arith, eq_iff,
  Option, none, some,
}
use k8s_mcp_agent.Prelude.Text.{starts_with, codes}
use k8s_mcp_agent.Prelude.GoMap.{GoMap, lookup, store, lookup-store}
use k8s_mcp_agent.K8s.Objects.{Condition}

-- strings.HasPrefix(key, prefix)
abbrev pub has_prefix : String → String → Bool
has_prefix key prefix = starts_with (codes prefix) (codes key)

-- The inner loop over the prefixes.
abbrev pub has_any_prefix : List String → String → Bool
has_any_prefix [] key = false
has_any_prefix (p ∷ ps) key = has_prefix key p || has_any_prefix ps key

-- The loop over the labels: those that pass the test are copied.
unfoldable pub copy_labels : (String → Bool) → GoMap String → GoMap String
copy_labels relevant [] = []
copy_labels relevant ((key, value) ∷ labels) =
    let rest = copy_labels relevant labels in if relevant key then store rest key value else rest

-- The loop over the conditions: a later one of the same type replaces an earlier one.
unfoldable pub set_conditions : GoMap Bool → List Condition → GoMap Bool
set_conditions m [] = m
set_conditions m (cond ∷ conds) = set_conditions (store m cond.kind (cond.status =ˢ "True")) conds

-- The map has the conditions of the list, each with the value of its last entry there.
abbrev pub last_status : String → Option Bool → List Condition → Option Bool
last_status kind o [] = o
last_status kind o (cond ∷ conds) =
    last_status kind (if cond.kind =ˢ kind then some (cond.status =ˢ "True") else o) conds

pub lookup-set_conditions :
    (conds : List Condition) (m : GoMap Bool) (kind : String)
    → lookup (set_conditions m conds) kind ≡ last_status kind (lookup m kind) conds
unfolding set_conditions
lookup-set_conditions [] m kind = refl
lookup-set_conditions (cond ∷ conds) m kind =
    lookup-set_conditions conds (store m cond.kind (cond.status =ˢ "True")) kind
    ∙ ap (λ (o : Option Bool). last_status kind o conds)
        (lookup-store m cond.kind kind (cond.status =ˢ "True"))

pub lookup-copy_labels :
    (relevant : String → Bool) (labels : GoMap String) (key : String)
    → lookup (copy_labels relevant labels) key ≡ (if relevant key then lookup labels key else none)
unfolding copy_labels lookup
lookup-copy_labels relevant [] key = ground arith
lookup-copy_labels relevant ((k, v) ∷ labels) key = ground (
  arith,
  lookup-store (copy_labels relevant labels) k key v,
  lookup-copy_labels relevant labels key,
  eq_iff k key,
)
