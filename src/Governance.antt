-- ===== src/Governance.antt =====
-- backend/app/modules/governance/service.py: a person's answer to a parked call, and the reversal of
-- a committed one. Both are bodies of declared operations: they run in the transaction of the
-- dispatch that calls them, and what they answer is the result of the action.
pub mod Deciding
pub mod Keeping
pub mod Undoing
use agent_quilt.Base.{
  ℕ, suc, ◌==◌, ◌&&◌, ◌||◌, Bool, true, false, not, Option, none, some, String, List, [], ◌∷◌, find,
  filter, update_where, is_some, ltb, str_eq, if◌then◌else◌, concat, and_then,
}
use mathlib.Core.Option
use agent_quilt.Json.{Json, JsonValue, null, boolean, text, object, end, field}
use agent_quilt.Runtime.{Uuid, Runtime}
use agent_quilt.Store.{
  Db, Session, M, Result, ok, raise, Raised, value_error, no_result, Approval, ApprovalState,
  requested, opened, consumed, rejected, expired, superseded, Action, OperationVersion,
  AgentDefinition, Principal, PrincipalClass, user, agent, run, system, external, find_approval,
  find_principal, find_action, is_requested, prod, steer, Run,
}
use agent_quilt.Registry.{CallContext}
use agent_quilt.Runs.{create, post, Posted}
use agent_quilt.Tick.{hand_back}

pub data Decision : Type 0 where
  approve reject : Decision

pub record DecideApproval : Type 0 where
  pub approval_id : Uuid
  pub decision : Decision
  pub reason : Option String

-- `DECIDERS`
abbrev pub may_decide : Option Principal → Bool
may_decide none = false
may_decide (some p) = elim p.class_ [ user ↦ true | system ↦ true | _ ↦ false ]

abbrev pub state_text : ApprovalState → String
state_text requested = "requested"
state_text opened = "open"
state_text consumed = "consumed"
state_text rejected = "rejected"
state_text expired = "expired"
state_text superseded = "superseded"

abbrev pub undecided : Option Approval → Json
undecided a =
    field "decided" (boolean false)
      (field "state" (elim a [ none ↦ null | some x ↦ text (state_text x.state) ]) end)

abbrev pub decided_state : Decision → ApprovalState
decided_state approve = opened
decided_state reject = rejected

-- The approval's row with the answer on it.
abbrev pub answer : Uuid → DecideApproval → Approval → Approval
answer by args a = elim args.decision [
  | approve ↦ record a { state = opened; granted_by = some by }
  | reject ↦ record a { state = rejected; reason = args.reason }
]

abbrev pub decided_json : Decision → Bool → Json
decided_json d moved =
    field "decided" (boolean true)
      (field "state" (text (state_text (decided_state d))) (field "run_queued" (boolean moved) end))

decided : Decision → Result (Bool × Db) → Result (Json × Db)
decided d (raise e) = raise e
decided d (ok (moved, db)) = ok (decided_json d moved, db)

abbrev pub answer_row : Uuid → DecideApproval → List Approval → List Approval
answer_row by args = update_where (λ a. a.id == args.approval_id) (answer by args)

decide_row : CallContext → DecideApproval → Option Approval → Db → Result (Json × Db)
unfolding decided
decide_row ctx args none db = ok (undecided none, db)
decide_row ctx args (some a) db =
    if not (is_requested a.state)
    then ok (undecided (some a), db)
    else decided args.decision (
        hand_back a.run_id a.step_no
          (record db { approvals = answer_row ctx.principal_id args db.approvals }))

abbrev pub decided_inside : Raised
decided_inside =
    value_error "governance.decide_approval: an approval is decided from outside any run"

abbrev pub not_decider : Raised
not_decider =
    value_error
      "governance.decide_approval: a principal of class ('user', 'system') decides an approval"

unfoldable pub decide_approval : CallContext → DecideApproval → M Json
unfolding decide_row
decide_approval ctx args db =
    if is_some ctx.run_id
    then raise decided_inside
    else if not (may_decide (find_principal ctx.principal_id db.principals))
    then raise not_decider
    else decide_row ctx args (find_approval args.approval_id db.approvals) db

-- The action joined with the operation version it was made under.
abbrev pub version_of_action : Action → Db → Option OperationVersion
version_of_action a db = find (λ v. str_eq v.id a.operation_version_id) db.versions

abbrev pub not_undone : String → Json
not_undone reason = field "undo_run_id" null (field "reason" (text reason) end)

-- `order by version desc limit 1`
unfoldable pub newest : List AgentDefinition → Option AgentDefinition
newest [] = none
newest (d ∷ ds) = elim (newest ds) [
  | none ↦ some d
  | some e ↦ if ltb d.version e.version then some e else some d
]

undo_posted : Runtime → Uuid → String → Result (Posted × Db) → Result (Json × Db)
undo_posted rt i compensator (raise e) = raise e
undo_posted rt i compensator (ok (p, db)) =
    ok (field "undo_run_id" (text (rt.str_uuid i)) (field "compensator" (text compensator) end), db)

-- The message that asks the new run for the compensating call. `json_dumps` is
-- `json.dumps(…, sort_keys=True)`, with its default separators.
abbrev pub undo_text :
    Runtime → (JsonValue → String) → Uuid → String → String → Option Json → String
undo_text rt json_dumps i name compensator args = concat (
    "Undo action "
    ∷ rt.str_uuid i
    ∷ " ("
    ∷ name
    ∷ "). Call "
    ∷ compensator
    ∷ " with these arguments: "
    ∷ json_dumps (elim args [ none ↦ null | some d ↦ object d ])
    ∷ [])

start_undo : Runtime → Session → String → String → Result (Run × Db) → Result (Json × Db)
unfolding undo_posted
start_undo rt s message compensator (raise e) = raise e
start_undo rt s message compensator (ok (r, db)) =
    undo_posted rt r.id compensator (post rt s r.id steer (field "text" (text message) end) db)

undo_as :
    Runtime
    → Session
    → (JsonValue → String)
    → Action
    → OperationVersion
    → Option String
    → Option AgentDefinition
    → Db
    → Result (Json × Db)
unfolding start_undo
undo_as rt s json_dumps a v none d db = ok (
  not_undone (concat (v.operation_name ∷ " is irreversible: it declares no compensator" ∷ [])),
  db,
)
undo_as rt s json_dumps a v (some compensator) none db = raise no_result
undo_as rt s json_dumps a v (some compensator) (some d) db =
    start_undo rt s (undo_text rt json_dumps a.id v.operation_name compensator a.compensator_args)
      compensator (create rt s d none prod db)

-- The action `i` with the version it was made under.
undo_target : Uuid → Db → Option (Action × OperationVersion)
undo_target i db =
    and_then (find_action i db.actions) λ a. Option.map (λ v. (a, v)) (version_of_action a db)

unfoldable pub undo_action : Runtime → Session → (JsonValue → String) → CallContext → Uuid → M Json
unfolding undo_as undo_target newest
undo_action rt s json_dumps ctx i db =
    if is_some ctx.run_id
    then raise (value_error "governance.undo_action: an action is undone from outside any run")
    else elim (undo_target i db) [
      | none ↦ ok (not_undone (concat ("no action " ∷ rt.str_uuid i ∷ [])), db)
      | some (a, v) ↦ undo_as rt s json_dumps a v a.compensator_ref (newest db.definitions) db
    ]
