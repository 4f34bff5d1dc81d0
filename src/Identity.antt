-- ===== src/Identity.antt =====
-- backend/app/kernel/identity/service.py: who may do what, and the approvals that a person gives.
pub mod Spending
pub mod Parking
use agent_quilt.Base.{
  ℕ, ◌+◌, ◌*◌, ◌==◌, ◌&&◌, ◌||◌, Bool, true, false, Option, none, some, String, List, [], ◌∷◌,
  str_eq, ltb, find, update_where, if◌then◌else◌, concat,
}
use agent_quilt.Base.Dict.{Dict, insert}
use agent_quilt.Json.{Json}
use agent_quilt.Runtime.{Uuid, Time, Runtime}
use agent_quilt.Store.{
  Db, Level, Approval, ApprovalState, requested, opened, consumed, rejected, expired, superseded,
  Raised, value_error, Grant, is_requested, is_opened, draw_uuid,
}
use mathlib.Core.Option

-- The rows of one principal, as the dict comprehension fills it: a later row overwrites.
fill_grants : Uuid → List Grant → Dict Level → Dict Level
fill_grants p [] d = d
fill_grants p (g ∷ gs) d =
    fill_grants p gs (if g.principal_id == p then insert g.operation_name g.level d else d)

unfoldable pub effective_grants : Uuid → Db → Dict Level
unfolding fill_grants
effective_grants p db = fill_grants p db.grants []

-- What `rfc8785.dumps` raises on arguments that it cannot represent.
abbrev pub not_canonical : Raised
not_canonical = value_error "the arguments have no canonical form"

-- The four parts joined by a zero byte, under the domain, for arguments with a canonical form. On any
-- others the source raises: a caller asks `is_canonical` first and raises `not_canonical`.
unfoldable pub args_hash : Runtime → String → Json → String → String
args_hash rt version_id args scope = rt.sha256 (
    concat (
      "agentquilt.approval.v1"
      ∷ "\0"
      ∷ version_id
      ∷ "\0"
      ∷ rt.canonical_json args
      ∷ "\0"
      ∷ scope
      ∷ []))

pub record Consume : Type 0 where
  pub granted_to : Uuid
  pub operation_version_id : String
  pub args_hash : String
  pub action_id : Option Uuid
  pub now : Time

pub record Park : Type 0 where
  pub granted_to : Uuid
  pub operation_version_id : String
  pub args_hash : String
  pub run_id : Uuid
  pub step_no : ℕ
  pub tool_call_id : String
  pub now : Time

-- What `park_approval` answers: the request, or the state and the reason of an answered one.
pub data ParkOutcome : Type 0 where
  asked : Approval → ParkOutcome
  decided : ApprovalState → Option String → ParkOutcome

-- The consume-once predicate of the `where`.
abbrev pub is_spendable : Consume → Approval → Bool
is_spendable r a =
    a.granted_to == r.granted_to
    && str_eq a.operation_version_id r.operation_version_id
    && str_eq a.args_hash r.args_hash
    && is_opened a.state
    && ltb r.now a.expires_at

abbrev pub spend : Consume → Approval → Approval
spend r a = record a { state = consumed; consumed_by_action_id = r.action_id }

-- `update … returning`: every row that passes, and the first one's id.
unfoldable pub consume_approval : Consume → Db → Option Uuid × Db
consume_approval r db = (
  Option.map (λ a. a.id) (find (is_spendable r) db.approvals),
  record db { approvals = update_where (is_spendable r) (spend r) db.approvals },
)

-- `_LIFETIME`: 72 hours, in microseconds.
abbrev pub lifetime : Time
lifetime = 72 * 3600 * 1000000

-- `_PARKED`
abbrev pub is_parked : ApprovalState → Bool
is_parked requested = true
is_parked rejected = true
is_parked expired = true
is_parked _ = false

abbrev pub is_continuation : Park → Approval → Bool
is_continuation r a =
    a.run_id == r.run_id
    && a.step_no == r.step_no
    && str_eq a.tool_call_id r.tool_call_id
    && is_parked a.state

abbrev pub request_of : Uuid → Park → Approval
request_of i r = record {
  id = i;
  granted_to = r.granted_to;
  granted_by = none;
  operation_version_id = r.operation_version_id;
  args_hash = r.args_hash;
  state = requested;
  reason = none;
  run_id = r.run_id;
  step_no = r.step_no;
  tool_call_id = r.tool_call_id;
  expires_at = r.now + lifetime;
  consumed_by_action_id = none;
}

found_parked : Approval → Db → ParkOutcome × Db
found_parked a db = (if is_requested a.state then asked a else decided a.state a.reason, db)

open_request : Runtime → Park → Db → ParkOutcome × Db
open_request rt r db =
    let a = request_of (rt.uuid4 db.draws) r in
    (asked a, record (draw_uuid rt db).1 { approvals = a ∷ db.approvals })

unfoldable pub park_approval : Runtime → Park → Db → ParkOutcome × Db
unfolding found_parked open_request
park_approval rt r db = elim (find (is_continuation r) db.approvals) [
  | some a ↦ found_parked a db
  | none ↦ open_request rt r db
]
