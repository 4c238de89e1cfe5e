-- ===== src/Prompts/ArgMap.antt =====
-- pkg/prompts: a prompt as a function of the map of its arguments, the visiting orders forgotten.
use mathlib.Core.List.{Perm}
use mathlib.Core.HLevel.{×_prop}
use mathlib.Core.Quot
use mathlib.Core.Quot.{Quot}
use k8s_mcp_agent.Prelude.{[], ◌∷◌, All}
use k8s_mcp_agent.Gateway.Framing.{Bytes}
use k8s_mcp_agent.Prompts.{PromptDef, Args, render_template}
use k8s_mcp_agent.Prompts.Pieces.{NoOpen}
use k8s_mcp_agent.Prompts.Filling.{IsPlainArg, defaults_of}
use k8s_mcp_agent.Prompts.Closed.{pieces, all_plain-IsPlainArg, IsClosed}
use k8s_mcp_agent.Prompts.Rendered.{all_declared-IsPlain, render_template-NoOpen}
use k8s_mcp_agent.Prompts.Orders.{IsMap, render_template-orders}

-- One order of the entries of a map, with plain keys and values.
abbrev pub Visit : Type 0
Visit = (args : Args) × IsMap args × All IsPlainArg args

abbrev pub SameVisit : Visit → Visit → Type 0
SameVisit v w = Perm v.0 w.0

-- map[string]string, as the code sees it.
abbrev pub ArgMap : Type 0
ArgMap = Quot SameVisit

-- RenderTemplate on the map.
unfoldable pub render_map : (p : PromptDef) → IsClosed p → ArgMap → Bytes
render_map p c =
    Quot.lift (hlevel) (λ (v : Visit). render_template p v.0)
      (λ v w same.
        render_template-orders p v.0 w.0 (pieces p) c.cut_right
          (all_declared-IsPlain (defaults_of p.arguments) (pieces p) c.declared) v.2
          (all_plain-IsPlainArg (defaults_of p.arguments) c.plain_defaults) v.1 same)

NoOpen-prop : (s : Bytes) → IsProp (NoOpen s)
NoOpen-prop [] = hlevel
NoOpen-prop (c ∷ s) = ×_prop (hlevel) (NoOpen-prop s)

-- Whatever the map holds, a closed prompt renders without an opening brace.
pub render_map-NoOpen : (p : PromptDef) (c : IsClosed p) (m : ArgMap) → NoOpen (render_map p c m)
unfolding render_map
render_map-NoOpen p c =
    Quot.ind (λ m. NoOpen-prop (render_map p c m)) (λ v. render_template-NoOpen p v.0 c v.2)
