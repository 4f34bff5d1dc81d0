-- ===== src/Dispatch.antt =====
-- backend/app/kernel/declare/service.py: the one way a declared operation runs. A function that
-- raises loses the transaction, and so returns no state; the savepoint of a write gives back the
-- state at which it began.
mod Calling
unfoldable pub use Calling.*
pub mod Ceiling
pub mod Refusals
pub mod Uncommitted
pub mod Permission
pub mod Remembering
pub mod Once
pub mod Keeping
pub mod Outside
use agent_quilt.Base.{
  ℕ, suc, ◌==◌, ◌&&◌, ◌||◌, Bool, true, false, not, Option, none, some, String, List, [], ◌∷◌,
  str_eq, filter, is_some, concat, if◌then◌else◌,
}
use agent_quilt.Base.Dict.{Dict, lookup}
use agent_quilt.Json.{
  Json, JsonValue, JsonItems, null, number, text, array, object, end, field, get, as_object,
  as_text, optional_text,
}
use agent_quilt.Runtime.{Uuid, Time, Runtime}
use agent_quilt.Store.{
  Db, M, Result, ok, raise, Raised, version_conflict, value_error, Level, may_use, asks_first,
  never, Event, Action, Approval, ApprovalState, requested, opened, consumed, rejected, expired,
  superseded, IdempotencyKey, draw_uuid,
}
use agent_quilt.Identity.{
  not_canonical, Consume, Park, ParkOutcome, asked, decided, args_hash, consume_approval,
  park_approval, effective_grants,
}
use agent_quilt.Ledger.{
  Commit, Append, refusal, audit, commit, append, is_key, stored_action, reserve_key,
}
use agent_quilt.Registry.{
  CallContext, Operation, Registry, Mode, read, write, Validated, valid, invalid, version_id,
}

-- How the savepoint of a write ends.
pub data Attempt : Type 0 where
  performed : Action → Json → Db → Attempt
  unapproved : Attempt
  failed : Raised → Attempt

-- The request that `_write` hands to `commit`.
abbrev pub commit_request :
    Runtime
    → CallContext
    → Call
    → Operation
    → Level
    → String × Uuid
    → Uuid
    → Option Uuid
    → Json
    → Json
    → Commit
commit_request rt ctx call op level (kind, i) action_id approval_id args result = record {
  operation_version_id = version_id rt op;
  operation_name = op.name;
  aggregate_kind = kind;
  aggregate_id = i;
  expected_version = if is_some op.aggregate then call.expected_version else none;
  principal_id = ctx.principal_id;
  run_id = ctx.run_id;
  step_no = ctx.step_no;
  idempotency_key = idempotency_key rt ctx call;
  payload = field "args" (object args) (field "result" (object result) end);
  decision_trace =
      field "grant_level" (text (level_text level))
        (field "operation_version_id" (text (version_id rt op)) end);
  compensator_ref = op.compensator;
  compensator_args = some result;
  action_id = some action_id;
  approval_id = approval_id;
}

committed_attempt : Json → Result (Action × Db) → Attempt
committed_attempt result (ok (action, db)) = performed action result db
committed_attempt result (raise e) = failed e

after_body : Runtime → (Json → Commit) → Result (Json × Db) → Attempt
unfolding committed_attempt
after_body rt request (raise e) = failed e
after_body rt request (ok (result, db)) = committed_attempt result (commit rt (request result) db)

-- The body and its commit, under the approval that the call has spent, if it needed one.
perform :
    Runtime
    → CallContext
    → Call
    → Operation
    → Level
    → String × Uuid
    → Uuid
    → Json
    → Option Uuid
    → Db
    → Attempt
unfolding after_body
perform rt ctx call op level aggregate action_id args approval_id db =
    after_body rt (commit_request rt ctx call op level aggregate action_id approval_id args)
      (op.fn ctx args db)

perform_spent :
    Runtime
    → CallContext
    → Call
    → Operation
    → String × Uuid
    → Uuid
    → Json
    → Option Uuid × Db
    → Attempt
unfolding perform
perform_spent rt ctx call op aggregate action_id args (none, db) = unapproved
perform_spent rt ctx call op aggregate action_id args (some approval, db) =
    perform rt ctx call op asks_first aggregate action_id args (some approval) db

attempt :
    Runtime → CallContext → Call → Operation → Level → String × Uuid → Uuid → Json → Db → Attempt
unfolding perform_spent perform
attempt rt ctx call op asks_first aggregate action_id args db =
    if rt.is_canonical call.args
    then perform_spent rt ctx call op aggregate action_id args
        (spend_approval rt ctx call (version_id rt op) (some action_id) db)
    else failed not_canonical
attempt rt ctx call op level aggregate action_id args db =
    perform rt ctx call op level aggregate action_id args none db

-- The handlers of the savepoint, at the state `db` at which it began.
settle_attempt :
    Runtime → CallContext → Call → Operation → String × Uuid → Db → Attempt → Result (Outcome × Db)
settle_attempt rt ctx call op aggregate db (performed action result after) =
    ok (committed (some action) result, after)
settle_attempt rt ctx call op aggregate db unapproved = ok (park rt ctx call (version_id rt op) db)
settle_attempt rt ctx call op aggregate db (failed (version_conflict expected actual)) = ok (
    deny rt ctx call "version_conflict"
      (field "expected" (number expected) (field "actual" (number actual) end)) (some aggregate) db)
settle_attempt rt ctx call op aggregate db (failed e) = raise e

write_to :
    Runtime
    → CallContext
    → Call
    → Operation
    → Json
    → Level
    → Db
    → Result (String × Uuid)
    → Result (Outcome × Db)
unfolding settle_attempt attempt
write_to rt ctx call op args level db (raise e) = raise e
write_to rt ctx call op args level db (ok aggregate) =
    let (action_id, drawn) = draw_uuid rt db in
    settle_attempt rt ctx call op aggregate drawn
      (attempt rt ctx call op level aggregate action_id args drawn)

-- `_write`
unfoldable pub write_call : Runtime → CallContext → Call → Operation → Json → Level → M Outcome
unfolding write_to
write_call rt ctx call op args level db =
    if is_some op.aggregate && not (is_some call.expected_version)
    then ok (deny rt ctx call "expected_version_required" end none db)
    else write_to rt ctx call op args level db (aggregate_of rt op args)

audited :
    Runtime
    → CallContext
    → Operation
    → Json
    → Json
    → Db
    → Result (String × Uuid)
    → Result (Outcome × Db)
audited rt ctx op args result db (raise e) = raise e
audited rt ctx op args result db (ok (kind, i)) =
    let (_, after) =
      append
        (record {
          kind = audit;
          aggregate_kind = kind;
          aggregate_id = i;
          principal_id = ctx.principal_id;
          payload = field "args" (object args) end;
          run_id = ctx.run_id;
          step_no = ctx.step_no;
          operation_name = some op.name;
        })
        db in
    ok (committed none result, after)

read_result : Runtime → CallContext → Operation → Json → Result (Json × Db) → Result (Outcome × Db)
unfolding audited
read_result rt ctx op args (raise e) = raise e
read_result rt ctx op args (ok (result, db)) =
    audited rt ctx op args result db (aggregate_of rt op args)

read_spent :
    Runtime → CallContext → Call → Operation → Json → Option Uuid × Db → Result (Outcome × Db)
unfolding read_result
read_spent rt ctx call op args (none, db) = ok (park rt ctx call (version_id rt op) db)
read_spent rt ctx call op args (some _, db) = read_result rt ctx op args (op.fn ctx args db)

-- `_read`
unfoldable pub read_call : Runtime → CallContext → Call → Operation → Json → Level → M Outcome
unfolding read_spent read_result
read_call rt ctx call op args asks_first db =
    if rt.is_canonical call.args
    then read_spent rt ctx call op args (spend_approval rt ctx call (version_id rt op) none db)
    else raise not_canonical
read_call rt ctx call op args level db = read_result rt ctx op args (op.fn ctx args db)

perform_mode : Runtime → CallContext → Call → Operation → Json → Level → Mode → M Outcome
perform_mode rt ctx call op args level read db = read_call rt ctx call op args level db
perform_mode rt ctx call op args level write db = write_call rt ctx call op args level db

-- The arguments are parsed, or the call is denied.
parsed_call : Runtime → CallContext → Call → Operation → Level → Validated → M Outcome
unfolding perform_mode
parsed_call rt ctx call op level (invalid errors) db =
    ok (deny rt ctx call "invalid_args" (field "errors" (array errors) end) none db)
parsed_call rt ctx call op level (valid args) db = perform_mode rt ctx call op args level op.mode db

-- A level that grants nothing is refused by its name.
level_refusal : Runtime → CallContext → Call → String → Option Level → Db → Outcome × Db
level_refusal rt ctx call reason level db =
    deny rt ctx call reason (field "grant_level" (optional_level level) end) none db

granted_call : Runtime → CallContext → Call → Operation → Option Level → M Outcome
unfolding level_refusal parsed_call
granted_call rt ctx call op none db = ok (level_refusal rt ctx call "no_grant" none db)
granted_call rt ctx call op (some never) db = ok (level_refusal rt ctx call "never" (some never) db)
granted_call rt ctx call op (some level) db =
    parsed_call rt ctx call op level (op.args_model.validate call.args) db

-- The level at which a principal may make a call.
unfoldable pub granted_level : CallContext → String → Db → Option Level
granted_level ctx name db =
    under_ceiling ctx.capability_ceiling name (lookup name (effective_grants ctx.principal_id db))

pub reserved_call :
    Runtime → CallContext → Call → Operation → Option Action × Db → Result (Outcome × Db)
unfolding granted_call
reserved_call rt ctx call op (some stored, db) = ok (replayed stored, db)
reserved_call rt ctx call op (none, db) =
    granted_call rt ctx call op (granted_level ctx call.operation_name db) db

known_call : Runtime → CallContext → Call → Option Operation → M Outcome
unfolding reserved_call
known_call rt ctx call none db = ok (deny rt ctx call "unknown_operation" end none db)
known_call rt ctx call (some op) db =
    reserved_call rt ctx call op (reserve call.operation_name (idempotency_key rt ctx call) db)

unfoldable pub dispatch : Runtime → Registry → CallContext → Call → M Outcome
unfolding known_call
dispatch rt registry ctx call db = known_call rt ctx call (lookup call.operation_name registry) db
