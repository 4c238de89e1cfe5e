-- ===== src/Prompts/Examples.antt =====
-- pkg/prompts at concrete inputs.
use mathlib.Core.List.Perm
use k8s_mcp_agent.Prelude.{◌≡◌, refl, true, false, none, some, List, [], ◌∷◌, ◌++◌, All, map}
use k8s_mcp_agent.Prelude.Text.{codes}
use k8s_mcp_agent.Prelude.Result.{err}
use k8s_mcp_agent.Xid.Kmsg.{contains}
use k8s_mcp_agent.Prompts.{
  PromptDef, Args, replace_from, fill_default, render_template, missing_argument,
  missing_required_argument, trim_left, trim_space, handle_prompt, get_prompt_by_name,
  get_all_prompt_names,
}
use k8s_mcp_agent.Prompts.Library.{library, gpu_triage}
use k8s_mcp_agent.Prompts.Pieces.{Piece, text, hole, template_of, NoOpen, IsPlain}
use k8s_mcp_agent.Prompts.Filling.{IsPlainArg, defaults_of, filled, render_template-filled}
use k8s_mcp_agent.Prompts.Closed.{no_open-NoOpen, is_key-IsKey, all_plain-IsPlainArg}
use k8s_mcp_agent.Prompts.Orders.{render_template-orders}
use k8s_mcp_agent.Prompts.Rendered.{library-NoOpen}

abbrev check_node : PromptDef
check_node = record {
  name = codes "check";
  description = codes "Checks a node";
  arguments =
      (record { name = codes "node"; description = []; required = true; default = codes "all" })
      ∷ (record { name = codes "id"; description = []; required = false; default = [] })
      ∷ [];
  template = codes " Check {{node}} for {{id}}{{who}} ";
}

abbrev check_pieces : List Piece
check_pieces =
    text (codes " Check ")
    ∷ hole (codes "node")
    ∷ text (codes " for ")
    ∷ hole (codes "id")
    ∷ hole (codes "who")
    ∷ text (codes " ")
    ∷ []

abbrev given : Args
given = (codes "node", codes "gpu-1") ∷ []

given-IsPlainArg : All IsPlainArg given
given-IsPlainArg = all_plain-IsPlainArg given refl

check_pieces-IsPlain : All IsPlain check_pieces
check_pieces-IsPlain = (
  no_open-NoOpen (codes " Check ") refl,
  (
    is_key-IsKey (codes "node") refl,
    (
      no_open-NoOpen (codes " for ") refl,
      (
        is_key-IsKey (codes "id") refl,
        (is_key-IsKey (codes "who") refl, (no_open-NoOpen (codes " ") refl, tt)),
      ),
    ),
  ),
)

rendered :
    (render_template check_node given ≡ codes "Check gpu-1 for {{who}}")
    × (render_template check_node [] ≡ codes "Check all for {{who}}")
    × (handle_prompt check_node none []
        ≡ err (missing_required_argument (codes "check") (codes "node")))
unfolding render_template replace_from fill_default trim_space trim_left contains handle_prompt
    missing_argument
rendered = (refl, refl, refl)

-- With a placeholder in a value the result depends on the order in which the map is visited.
visited :
    (render_template check_node ((codes "node", codes "{{id}}") ∷ (codes "id", codes "7") ∷ [])
      ≡ codes "Check 7 for 7{{who}}")
    × (render_template check_node ((codes "id", codes "7") ∷ (codes "node", codes "{{id}}") ∷ [])
        ≡ codes "Check  for 7{{who}}")
unfolding render_template replace_from fill_default trim_space trim_left contains
visited = (refl, refl)

found_by_name :
    (get_prompt_by_name library (codes "gpu-triage") ≡ some gpu_triage)
    × (get_all_prompt_names library
        ≡ codes "gpu-health-check" ∷ codes "diagnose-xid-errors" ∷ codes "gpu-triage" ∷ [])
unfolding get_prompt_by_name get_all_prompt_names
found_by_name = (refl, refl)

render_template-filled_example :
    render_template check_node given
    ≡ trim_space
        (template_of (map (filled (given ++ defaults_of check_node.arguments)) check_pieces))
unfolding template_of
render_template-filled_example =
    render_template-filled check_node given check_pieces refl check_pieces-IsPlain given-IsPlainArg
      (all_plain-IsPlainArg (defaults_of check_node.arguments) refl)

library-NoOpen_example : All (λ p. NoOpen (render_template p given)) library
library-NoOpen_example = library-NoOpen given given-IsPlainArg

abbrev both_given : Args
both_given = (codes "node", codes "gpu-1") ∷ (codes "id", codes "7") ∷ []

abbrev both_reversed : Args
both_reversed = (codes "id", codes "7") ∷ (codes "node", codes "gpu-1") ∷ []

render_template-orders_example :
    render_template check_node both_given ≡ render_template check_node both_reversed
unfolding template_of
render_template-orders_example =
    render_template-orders check_node both_given both_reversed check_pieces refl
      check_pieces-IsPlain (all_plain-IsPlainArg both_given refl)
      (all_plain-IsPlainArg (defaults_of check_node.arguments) refl) (refl, (refl, tt))
      (Perm.swap _ _ _)
