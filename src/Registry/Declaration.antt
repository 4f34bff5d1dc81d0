-- ===== src/Registry/Declaration.antt =====
-- backend/app/kernel/declare/registry.py: what a declaration says, and its checks.
use agent_quilt.Base.{
  ℕ, ◌||◌, Bool, true, false, not, Option, some, String, List, is_some, if◌then◌else◌,
}
use agent_quilt.Base.Dict.{Dict}
use agent_quilt.Json.{Json, JsonItems}
use agent_quilt.Runtime.{Uuid, Time}
use agent_quilt.Store.{M, Stage, Result, ok, raise, value_error}
use agent_quilt.Registry.Names.{codes, is_name, verb_of, has_underscore, starts_with}

pub data Mode : Type 0 where
  read write : Mode

pub data Reversal : Type 0 where
  reversible draftable irreversible : Reversal

pub data Taint : Type 0 where
  web_fetch untrusted_file inbound_external_message : Taint

-- `clock` gives the readings of the wall clock in the order in which a dispatch takes them.
pub record CallContext : Type 0 where
  pub principal_id : Uuid
  pub run_id : Option Uuid
  pub step_no : Option ℕ
  pub capability_ceiling : Option Json
  pub clock : ℕ → Time

pub record Declares : Type 0 where
  pub mode : Mode
  pub reversal : Option Reversal
  pub compensator : Option String
  pub aggregate : Option (String × String)
  pub stage : Stage
  pub taint : Option Taint

-- `model_validate` of the arguments: the model as it dumps back to JSON, or the errors.
pub data Validated : Type 0 where
  valid : Json → Validated
  invalid : JsonItems → Validated

-- A pydantic model: its schema and its validation.
pub record ArgsModel : Type 0 where
  pub schema : Json
  pub validate : Json → Validated

pub record Operation : Type 0 where
  pub name : String
  pub mode : Mode
  pub reversal : Option Reversal
  pub compensator : Option String
  pub aggregate : Option (String × String)
  pub stage : Stage
  pub taint : Option Taint
  pub args_model : ArgsModel
  pub fn : CallContext → Json → M Json
  pub description : String

-- The decorated function, as `inspect` reads it: the first line of its docstring, whether it is a
-- coroutine function, its parameters and the model that annotates the second.
pub record Handler : Type 0 where
  pub summary : String
  pub is_coroutine : Bool
  pub parameters : List String
  pub annotation : Option ArgsModel
  pub fn : CallContext → Json → M Json

abbrev pub Registry : Type 0
Registry = Dict Operation

abbrev pub is_read : Mode → Bool
is_read read = true
is_read write = false

abbrev pub is_reversible : Option Reversal → Bool
is_reversible (some reversible) = true
is_reversible _ = false

-- `a != b` of two truth values
abbrev pub differ : Bool → Bool → Bool
differ true b = not b
differ false b = b

-- `verb.startswith(("get_", "list_", "search_"))`
abbrev pub is_read_verb : List ℕ → Bool
is_read_verb verb =
    starts_with (codes "get_") verb
    || starts_with (codes "list_") verb
    || starts_with (codes "search_") verb

unfoldable pub validate_reversal : Declares → Result (Unit {0})
validate_reversal d =
    if differ (not (is_some d.reversal)) (is_read d.mode)
    then raise (value_error "a write declares a reversal class and a read declares none")
    else if differ (not (is_some d.compensator)) (not (is_reversible d.reversal))
    then raise (value_error "a reversible operation names a compensator and no other class may")
    else ok tt

unfoldable pub validate : String → Declares → Result (Unit {0})
unfolding validate_reversal
validate name d =
    let verb = verb_of (codes name) in
    if not (is_name (codes name)) || not (has_underscore verb)
    then raise (value_error "operation name is not module.verb_noun")
    else if differ (is_read_verb verb) (is_read d.mode)
    then raise
        (value_error "a read's verb starts with get_, list_ or search_ and a write's does not")
    else validate_reversal d
