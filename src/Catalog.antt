-- ===== src/Catalog.antt =====
-- backend/app/kernel/declare/catalog.py: the page of the declared operations.

use agent_quilt.Base.{Option, none, some, String, List, [], ◌∷◌, map, concat, str_eq, if◌then◌else◌}
use mathlib.Core.Option
use agent_quilt.Runtime.{Runtime}
use agent_quilt.Registry.{
  Registry, Operation, operations, version_id, mode_text, reversal_text, stage_text, taint_text,
  Reversal, Taint,
}
use agent_quilt.Context.{take_text}

-- `separator.join`
joined : String → List String → String
joined separator [] = ""
joined separator (s ∷ []) = s
joined separator (s ∷ t ∷ ts) = concat (s ∷ separator ∷ joined separator (t ∷ ts) ∷ [])

header : String
header =
    "# Operations\n\nGenerated by `agentquilt catalog` from the registry; edit the declarations, not this file.\n\n"

columns : List String
columns =
    "name" ∷ "mode" ∷ "reversal" ∷ "compensator" ∷ "aggregate" ∷ "stage" ∷ "taint" ∷ "version" ∷ []

-- `cell or "-"`: the empty text is no cell either.
cell : Option String → String
cell none = "-"
cell (some s) = if str_eq s "" then "-" else s

-- `_row`
row : Runtime → Operation → String
unfolding joined cell
row rt op = concat (
    "| "
    ∷ joined " | " (
        map cell (
          some op.name
          ∷ some (mode_text op.mode)
          ∷ Option.map (λ (r : Reversal). reversal_text r) op.reversal
          ∷ op.compensator
          ∷ Option.map (λ (a : String × String). concat (a.0 ∷ "." ∷ a.1 ∷ [])) op.aggregate
          ∷ some (stage_text op.stage)
          ∷ Option.map (λ (t : Taint). taint_text t) op.taint
          ∷ some (take_text 12 (version_id rt op))
          ∷ []))
    ∷ " |"
    ∷ [])

page : Runtime → List Operation → String
unfolding header columns row joined
page rt [] = concat (header ∷ "No operations declared.\n" ∷ [])
page rt (op ∷ ops) = concat (
    header
    ∷ "| "
    ∷ joined " | " columns
    ∷ " |\n| "
    ∷ joined " | " (map (λ (c : String). "---") columns)
    ∷ " |\n"
    ∷ joined "\n" (map (row rt) (op ∷ ops))
    ∷ "\n"
    ∷ [])

unfoldable pub render : Runtime → Registry → String
unfolding page operations
render rt registry = page rt (operations registry)
