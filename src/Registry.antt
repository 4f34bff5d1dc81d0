-- ===== src/Registry.antt =====
-- backend/app/kernel/declare/registry.py: what a module declares, and the checks of a declaration.
-- An operation's body is a parameter: any function of the call's context and parsed arguments on
-- the database. `CallContext` leaves out the registry, which dispatch takes beside it.
mod Declaration
unfoldable pub use Declaration.*
pub mod Names
pub mod Declaring
pub mod Publishing
use Prim.Native.String.{compare}
use Prim.Native.Nat.{Ordering}
use agent_quilt.Base.{
  ℕ, suc, ◌==◌, ◌&&◌, ◌||◌, Bool, true, false, not, Option, none, some, String, List, [], ◌∷◌, ◌++◌,
  map, str_eq, leb, length, is_some, if◌then◌else◌, find, concat,
}
use agent_quilt.Base.Dict.{Dict, lookup, insert}
use agent_quilt.Base.Sorting.{sorted}
use agent_quilt.Json.{
  Json, JsonValue, JsonItems, null, text, array, object, end, field, items, optional_text,
}
use agent_quilt.Runtime.{Uuid, Time, Runtime}
use agent_quilt.Store.{
  Db, M, Stage, dev, qa, prod, Result, ok, raise, value_error, type_error, OperationVersion,
}
use Names.{codes, is_name, verb_of, has_underscore, starts_with}

annotated : Option ArgsModel → Result ArgsModel
annotated none = raise (type_error "parameter must be annotated with a BaseModel subclass")
annotated (some m) = ok m

-- `_args_model`
args_model_of : Handler → Result ArgsModel
unfolding annotated
args_model_of fn =
    if not fn.is_coroutine
    then raise (type_error "operation must be an async function")
    else if not (length fn.parameters == 2)
    then raise (type_error "operation must take (ctx, args)")
    else annotated fn.annotation

abbrev pub operation_of : String → Declares → Handler → ArgsModel → Operation
operation_of name d fn m = record {
  name = name;
  mode = d.mode;
  reversal = d.reversal;
  compensator = d.compensator;
  aggregate = d.aggregate;
  stage = d.stage;
  taint = d.taint;
  args_model = m;
  fn = fn.fn;
  description = fn.summary;
}

registered : String → Declares → Handler → Registry → Result ArgsModel → Result Registry
registered name d fn reg (raise e) = raise e
registered name d fn reg (ok m) = ok (insert name (operation_of name d fn m) reg)

-- The inner function of the decorator.
register : String → Declares → Handler → Registry → Result Registry
unfolding registered args_model_of
register name d fn reg =
    if is_some (lookup name reg)
    then raise (value_error "operation is declared twice")
    else registered name d fn reg (args_model_of fn)

-- `Registry.operation` on a function: a declaration is checked before the function is looked at.
unfoldable pub operation : String → Declares → Handler → Registry → Result Registry
unfolding validate register
operation name d fn reg = elim (validate name d) [
  | raise e ↦ raise e
  | ok _ ↦ register name d fn reg
]

name_le : Operation → Operation → Bool
name_le a b = elim (compare a.name b.name) [ Ordering.gt ↦ false | _ ↦ true ]

values : Registry → List Operation
values [] = []
values ((_, op) ∷ reg) = op ∷ values reg

-- In the order of their names.
unfoldable pub operations : Registry → List Operation
unfolding name_le values sorted
operations reg = sorted name_le (values reg)

abbrev pub mode_text : Mode → String
mode_text read = "read"
mode_text write = "write"

abbrev pub reversal_text : Reversal → String
reversal_text reversible = "reversible"
reversal_text draftable = "draftable"
reversal_text irreversible = "irreversible"

abbrev pub stage_text : Stage → String
stage_text dev = "DEV"
stage_text qa = "QA"
stage_text prod = "PROD"

abbrev pub taint_text : Taint → String
taint_text web_fetch = "web_fetch"
taint_text untrusted_file = "untrusted_file"
taint_text inbound_external_message = "inbound_external_message"

abbrev optional_reversal : Option Reversal → JsonValue
optional_reversal none = null
optional_reversal (some r) = text (reversal_text r)

abbrev optional_taint : Option Taint → JsonValue
optional_taint none = null
optional_taint (some t) = text (taint_text t)

abbrev optional_pair : Option (String × String) → JsonValue
optional_pair none = null
optional_pair (some (a, b)) = array (items (text a ∷ text b ∷ []))

unfoldable pub declaration : Operation → Json
declaration op = field "name" (text op.name) (
    field "mode" (text (mode_text op.mode)) (
      field "reversal" (optional_reversal op.reversal) (
        field "compensator" (optional_text op.compensator) (
          field "aggregate" (optional_pair op.aggregate) (
            field "stage" (text (stage_text op.stage)) (
              field "taint" (optional_taint op.taint) (
                field "description" (text op.description)
                  (field "args_schema" (object op.args_model.schema) end))))))))

unfoldable pub version_id : Runtime → Operation → String
unfolding declaration
version_id rt op = rt.sha256 (rt.dumps (object (declaration op)))

-- `insert … on conflict do nothing` by the primary key.
publish_one : Runtime → Operation → List OperationVersion → List OperationVersion
publish_one rt op rows =
    elim (find (λ (v : OperationVersion). str_eq v.id (version_id rt op)) rows) [
      | some _ ↦ rows
      | none ↦
          record {
            id = version_id rt op;
            operation_name = op.name;
            stage = op.stage;
            declaration = declaration op;
          }
          ∷ rows
    ]

publish_all : Runtime → List Operation → List OperationVersion → List OperationVersion
unfolding publish_one
publish_all rt [] rows = rows
publish_all rt (op ∷ ops) rows = publish_all rt ops (publish_one rt op rows)

unfoldable pub publish : Runtime → Registry → Db → Db
unfolding publish_all operations
publish rt reg db = record db { versions = publish_all rt (operations reg) db.versions }

-- The definition of one tool, as the model is offered it.
pub record ToolDefinition : Type 0 where
  pub name : String
  pub description : String
  pub parameters_json_schema : Json

unfoldable pub tool_definitions : Registry → List ToolDefinition
unfolding operations
tool_definitions reg =
    map
      (λ op. record {
        name = op.name;
        description = op.description;
        parameters_json_schema = op.args_model.schema;
      })
      (operations reg)
