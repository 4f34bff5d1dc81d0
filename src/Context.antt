-- ===== src/Context.antt =====
-- backend/app/kernel/context/service.py: one prompt per model call. A contributor
-- (backend/app/kernel/ports/context_contributor.py) is a parameter: what it returns is a function of
-- the database. The kernel's policy text is a parameter too: nothing reads it but the rendering.
mod Slices
unfoldable pub use Slices.*
pub mod Fitting
pub mod Slots
pub mod Assembly
pub mod Contributors
use Prim.Native.String
use agent_quilt.Base.{
  ℕ, zero, suc, ◌+◌, ◌/◌, ◌==◌, ◌&&◌, ◌||◌, Bool, true, false, not, Option, none, some, String,
  List, [], ◌∷◌, ◌++◌, map, find, filter, length, leb, ltb, str_eq, if◌then◌else◌, concat, is_some,
}
use agent_quilt.Base.Dict.{Dict, lookup, insert}
use agent_quilt.Base.Sorting.{sorted}
use agent_quilt.Json.{
  Json, JsonValue, number, text, boolean, object, array, end, field, items, get, as_object, as_text,
}
use agent_quilt.Runtime.{Uuid, Runtime}
use agent_quilt.Store.{
  Db, Session, M, Result, ok, raise, Raised, value_error, no_result, Run, TierBinding,
  AgentDefinition, ContextManifest, Stage, prod, PrefixProfile, personal, space, none_profile,
}
use agent_quilt.Identity.{effective_grants}
use agent_quilt.Registry.{Registry, Operation, operations, ToolDefinition, tool_definitions}
use agent_quilt.Registry.Names.{codes}
use agent_quilt.Runs.{grants_json}

-- `_claim`: the owners with the slot taken, or the error.
unfoldable pub claim_slot : Owners → PrefixSlot → String → List PrefixSlot → Result Owners
claim_slot seen slot owner declared =
    if not (declares slot declared)
    then raise (
        value_error (
          concat
            ("'" ∷ owner ∷ "' returned slot " ∷ slot_text slot ∷ ", which it never declared" ∷ [])))
    else elim (owner_of slot seen) [
      | none ↦ ok ((slot, owner) ∷ seen)
      | some other ↦
          if str_eq other owner
          then raise (
              value_error
                (concat ("'" ∷ owner ∷ "' returned slot " ∷ slot_text slot ∷ " twice" ∷ [])))
          else raise (
              value_error (
                concat (
                  "slot "
                  ∷ slot_text slot
                  ∷ " is owned by '"
                  ∷ other
                  ∷ "', not '"
                  ∷ owner
                  ∷ "'"
                  ∷ [])))
    ]

-- The layers of one contributor, then those of the rest: in each, the slots before the layers.
claim_layers :
    Owners → PrefixContributor → List Layer → List PrefixLayer → Result (Owners × List PrefixLayer)
claim_layers seen c [] layers = ok (seen, layers)
claim_layers seen c (l ∷ rest) layers = elim (claim_slot seen l.slot c.owner c.prefix_slots) [
  | raise e ↦ raise e
  | ok taken ↦ claim_layers taken c rest (
      layers
      ++ (record { slot = l.slot; owner = c.owner; version = l.version; body = l.body }) ∷ [])
]

claim_returned :
    Owners
    → PrefixContributor
    → Result (List Layer)
    → List PrefixLayer
    → Result (Owners × List PrefixLayer)
unfolding claim_layers
claim_returned seen c (raise e) layers = raise e
claim_returned seen c (ok returned) layers = claim_layers seen c returned layers

claim_all :
    Scope
    → Db
    → Owners
    → List PrefixContributor
    → List PrefixLayer
    → Result (Owners × List PrefixLayer)
unfolding claim_returned
claim_all scope db seen [] layers = ok (seen, layers)
claim_all scope db seen (c ∷ cs) layers = elim (claim_returned seen c (c.layers scope db) layers) [
  | raise e ↦ raise e
  | ok (taken, more) ↦ claim_all scope db taken cs more
]

-- `_tools`
abbrev pub is_usable : Option String → Bool
is_usable none = false
is_usable (some l) = str_eq l "may_use" || str_eq l "asks_first"

abbrev pub levels_of : Json → Json
levels_of ceiling = elim (as_object (get "operations" ceiling)) [ none ↦ end | some d ↦ d ]

abbrev pub is_prod : Stage → Bool
is_prod prod = true
is_prod _ = false

unfoldable pub is_core : Registry → Json → String → Bool
unfolding operations
is_core registry ceiling name = is_some (
    find
      (λ op.
        str_eq op.name name
        && is_prod op.stage
        && is_usable (as_text (get op.name (levels_of ceiling))))
      (operations registry))

-- The order of the fields is that of the source; `dumps` of Runtime writes them by their sorted keys.
abbrev pub tool_json : ToolDefinition → JsonValue
tool_json t = object (
    field "name" (text t.name) (
      field "description" (text t.description)
        (field "parameters" (object t.parameters_json_schema) end)))

unfoldable pub tools : Runtime → Registry → Json → PrefixLayer
unfolding is_core tool_definitions
tools rt registry ceiling =
    let body = rt.dumps (
      array (
        items (
          map tool_json
            (filter (λ t. is_core registry ceiling t.name) (tool_definitions registry))))) in
    record { slot = l5; owner = "kernel"; version = version_of_layer rt "tools" body; body = body }

abbrev pub policy_layer : Runtime → String → PrefixLayer
policy_layer rt policy = record {
  slot = l0;
  owner = "kernel";
  version = version_of_layer rt "policy" policy;
  body = policy;
}

unfoldable pub layer_le : PrefixLayer → PrefixLayer → Bool
layer_le a b = leb (prefix_index a.slot) (prefix_index b.slot)

ordered : Result (Owners × List PrefixLayer) → Result (List PrefixLayer)
unfolding layer_le sorted
ordered (raise e) = raise e
ordered (ok (seen, layers)) = ok (sorted layer_le layers)

-- `_prefix`: the kernel's L0 and L5, then what the contributors claim, in the order of the slots.
unfoldable pub prefix :
    Runtime
    → String
    → List PrefixContributor
    → Scope
    → Json
    → Registry
    → Db
    → Result (List PrefixLayer)
unfolding claim_all ordered
prefix rt policy contributors scope ceiling registry db = ordered (
    claim_all scope db ((l0, "kernel") ∷ (l5, "kernel") ∷ []) contributors
      (policy_layer rt policy ∷ tools rt registry ceiling ∷ []))

-- `"\n".join`
pub join_lines : List String → String
join_lines [] = ""
join_lines (s ∷ []) = s
join_lines (s ∷ t ∷ ts) = concat (s ∷ "\n" ∷ join_lines (t ∷ ts) ∷ [])

unfoldable pub prefix_key : Runtime → List PrefixLayer → TierBinding → String
unfolding join_lines
prefix_key rt layers bound = rt.sha256 (
    join_lines (
      map (λ l. concat (slot_text l.slot ∷ "|" ∷ l.owner ∷ "|" ∷ l.version ∷ [])) layers
      ++ bound.provider ∷ bound.model ∷ (elim bound.effort [ none ↦ "" | some e ↦ e ]) ∷ []))

abbrev pub priority_le : Slice → Slice → Bool
priority_le a b = leb a.priority b.priority

abbrev pub envelope_le : Slice → Slice → Bool
envelope_le a b = leb (envelope_index a.slot) (envelope_index b.slot)

-- The loop of `_fit` on a total: what it keeps and what it drops, each in the order of the slices.
unfoldable pub fit_each : ℕ → ℕ → List Slice → List Slice × List Slice
fit_each total budget [] = ([], [])
fit_each total budget (x ∷ xs) =
    let cost = tokens x.body in
    let dropping = fit_each total budget xs in
    let keeping = fit_each (total + cost) budget xs in
    if ltb budget (total + cost) then (dropping.0, x ∷ dropping.1) else (x ∷ keeping.0, keeping.1)

-- `_fit`
unfoldable pub fit : List Slice → ℕ → ℕ → List Slice × List Slice
unfolding fit_each sorted
fit slices prefix_tokens budget = (
  sorted envelope_le (fit_each prefix_tokens budget (sorted priority_le slices)).0,
  (fit_each prefix_tokens budget (sorted priority_le slices)).1,
)
