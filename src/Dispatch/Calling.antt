-- ===== src/Dispatch/Calling.antt =====
-- backend/app/kernel/declare/service.py: a call, the level it may be made at, its reservation and its refusal.
use agent_quilt.Base.{
  ℕ, ◌||◌, not, Option, none, some, String, List, [], ◌∷◌, str_eq, filter, concat, if◌then◌else◌,
}
use agent_quilt.Json.{
  Json, JsonValue, null, text, end, field, get, as_object, as_text, optional_text,
}
use agent_quilt.Runtime.{Uuid, Time, Runtime}
use agent_quilt.Store.{
  Db, Result, ok, raise, value_error, Level, may_use, asks_first, never, Event, Action,
  ApprovalState, requested, opened, consumed, rejected, expired, superseded, IdempotencyKey,
}
use agent_quilt.Identity.{
  Park, ParkOutcome, asked, decided, args_hash, consume_approval, park_approval,
}
use agent_quilt.Ledger.{refusal, append, is_key, stored_action, reserve_key}
use agent_quilt.Registry.{CallContext, Operation}

pub record Call : Type 0 where
  pub operation_name : String
  pub args : Json
  pub tool_call_id : String
  pub expected_version : Option ℕ

pub data Outcome : Type 0 where
  committed : Option Action → Json → Outcome
  replayed : Action → Outcome
  denied : String → Event → Outcome
  waiting : Uuid → Time → Outcome

abbrev pub level_text : Level → String
level_text may_use = "may_use"
level_text asks_first = "asks_first"
level_text never = "never"

abbrev pub optional_level : Option Level → JsonValue
optional_level none = null
optional_level (some l) = text (level_text l)

-- Where both sides grant, the stricter level wins. The bound is a text of the stored ceiling.
abbrev pub stricter : Level → String → Level
stricter level bound =
    if str_eq (level_text level) "never" || str_eq bound "never"
    then never
    else if str_eq (level_text level) "asks_first" || str_eq bound "asks_first"
    then asks_first
    else level

abbrev pub bounded : Option Level → Option String → Option Level
bounded (some level) (some bound) = some (stricter level bound)
bounded _ _ = none

-- The text that a stored ceiling gives an operation.
abbrev pub ceiling_bound : Json → String → Option String
ceiling_bound ceiling name = elim (as_object (get "operations" ceiling)) [
  | none ↦ none
  | some operations ↦ as_text (get name operations)
]

-- `_under_ceiling`
unfoldable pub under_ceiling : Option Json → String → Option Level → Option Level
under_ceiling none name level = level
under_ceiling (some ceiling) name level = bounded level (ceiling_bound ceiling name)

abbrev pub optional_uuid : Runtime → Option Uuid → String
optional_uuid rt none = "None"
optional_uuid rt (some i) = rt.str_uuid i

abbrev pub optional_step : Runtime → Option ℕ → String
optional_step rt none = "None"
optional_step rt (some n) = rt.str_number n

-- `_idempotency_key`
unfoldable pub idempotency_key : Runtime → CallContext → Call → String
idempotency_key rt ctx call = rt.sha256 (
    concat (
      optional_uuid rt ctx.run_id
      ∷ ":"
      ∷ optional_step rt ctx.step_no
      ∷ ":"
      ∷ call.tool_call_id
      ∷ []))

-- `_operation_id`
abbrev pub operation_id : Runtime → String → Uuid
operation_id rt name = rt.uuid5 name

-- `UUID(str(value))`
abbrev pub parsed_uuid : Runtime → Option JsonValue → Result Uuid
parsed_uuid rt none = raise (value_error "badly formed UUID")
parsed_uuid rt (some v) = elim (rt.parse_uuid (rt.str_value v)) [
  | none ↦ raise (value_error "badly formed UUID")
  | some i ↦ ok i
]

-- `_aggregate`: the field of the parsed arguments that names the aggregate.
unfoldable pub aggregate_at :
    Runtime → String → Json → Option (String × String) → Result (String × Uuid)
aggregate_at rt name args none = ok ("operation", operation_id rt name)
aggregate_at rt name args (some (kind, path)) = elim (parsed_uuid rt (get path args)) [
  | raise e ↦ raise e
  | ok i ↦ ok (kind, i)
]

unfoldable pub aggregate_of : Runtime → Operation → Json → Result (String × Uuid)
unfolding aggregate_at
aggregate_of rt op args = aggregate_at rt op.name args op.aggregate

-- `_reserve`: claim the key, and read the action that it names.
unfoldable pub reserve : String → String → Db → Option Action × Db
reserve name key db =
    let claimed = record db { keys = reserve_key name key db.keys } in
    (stored_action name key claimed, claimed)

abbrev pub release_key : String → String → List IdempotencyKey → List IdempotencyKey
release_key name key = filter (λ k. not (is_key name key k))

abbrev pub denied_aggregate : Runtime → String → Option (String × Uuid) → String × Uuid
denied_aggregate rt name none = ("operation", operation_id rt name)
denied_aggregate rt name (some a) = a

-- `_deny`: the reservation goes, and a denial is appended.
unfoldable pub deny :
    Runtime → CallContext → Call → String → Json → Option (String × Uuid) → Db → Outcome × Db
deny rt ctx call reason detail aggregate db =
    let freed = record db {
      keys = release_key call.operation_name (idempotency_key rt ctx call) db.keys;
    } in
    let (kind, i) = denied_aggregate rt call.operation_name aggregate in
    let (event, after) =
      append
        (record {
          kind = refusal;
          aggregate_kind = kind;
          aggregate_id = i;
          principal_id = ctx.principal_id;
          payload = field "reason" (text reason) (
              field "operation_name" (text call.operation_name)
                (field "tool_call_id" (text call.tool_call_id) detail));
          run_id = ctx.run_id;
          step_no = ctx.step_no;
          operation_name = some call.operation_name;
        })
        freed in
    (denied reason event, after)

-- `_spend`, at the first reading of the clock.
unfoldable pub spend_approval :
    Runtime → CallContext → Call → String → Option Uuid → Db → Option Uuid × Db
spend_approval rt ctx call version action_id = consume_approval (record {
  granted_to = ctx.principal_id;
  operation_version_id = version;
  args_hash = args_hash rt version call.args "";
  action_id = action_id;
  now = ctx.clock 0;
})

abbrev pub approval_text : ApprovalState → String
approval_text requested = "requested"
approval_text opened = "open"
approval_text consumed = "consumed"
approval_text rejected = "rejected"
approval_text expired = "expired"
approval_text superseded = "superseded"

unfoldable pub parked_outcome : Runtime → CallContext → Call → ParkOutcome × Db → Outcome × Db
parked_outcome rt ctx call (asked a, db) = (waiting a.id a.expires_at, db)
parked_outcome rt ctx call (decided state reason, db) =
    deny rt ctx call "approval_unavailable"
      (field "state" (text (approval_text state))
        (field "approval_reason" (optional_text reason) end))
      none db

abbrev pub park_request : Runtime → CallContext → Call → String → Uuid → ℕ → Park
park_request rt ctx call version run_id step_no = record {
  granted_to = ctx.principal_id;
  operation_version_id = version;
  args_hash = args_hash rt version call.args "";
  run_id = run_id;
  step_no = step_no;
  tool_call_id = call.tool_call_id;
  now = ctx.clock 1;
}

-- A call from outside any run has nowhere to park.
unfoldable pub park_at :
    Runtime → CallContext → Call → String → Option Uuid → Option ℕ → Db → Outcome × Db
unfolding parked_outcome
park_at rt ctx call version (some run_id) (some step_no) db =
    parked_outcome rt ctx call
      (park_approval rt (park_request rt ctx call version run_id step_no) db)
park_at rt ctx call version _ _ db =
    deny rt ctx call "approval_required" (field "grant_level" (text "asks_first") end) none db

-- `_park`
unfoldable pub park : Runtime → CallContext → Call → String → Db → Outcome × Db
unfolding park_at
park rt ctx call version db = park_at rt ctx call version ctx.run_id ctx.step_no db
