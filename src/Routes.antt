-- ===== src/Routes.antt =====
-- The HTTP routes of the serve role: backend/app/kernel/runs/router.py and
-- backend/app/modules/governance/router.py, in the session that backend/app/serve.py opens for them. What a
-- route changes is committed where it returns; where it raises, an HTTP error included, it is rolled back.
pub mod Answering
pub mod Streaming
use agent_quilt.Base.{ℕ, suc, Option, none, some, String, List, [], ◌∷◌, ◌++◌, concat}
use agent_quilt.Json.{Json, JsonValue, null, text, object, end, field}
use agent_quilt.Runtime.{Uuid, Time, Runtime}
use agent_quilt.Store.{
  Db, Session, Result, ok, raise, no_result, runtime_error, Run, prod, Event, AgentDefinition,
}
use agent_quilt.Registry.{CallContext, Registry}
use agent_quilt.Dispatch.{Call, Outcome, committed, replayed, denied, waiting, dispatch}
use agent_quilt.Runs.{create, send, Posted, sent, ended, no_run, events}
use agent_quilt.Governance.{Decision, approve, reject, newest}
use agent_quilt.Tenancy.{Served, served, refused, failed}

-- `scoped`: the transaction of a request that began at `db`.
abbrev pub in_session {ℓ} : {A : Type ℓ} → Db → Served (A × Db) → Served A × Db
in_session db (served (a, after)) = (served a, after)
in_session db (refused status detail) = (refused status detail, db)
in_session db (failed e) = (failed e, db)

abbrev opened_thread : Result (Run × Db) → Served (Uuid × Db)
opened_thread (raise e) = failed e
opened_thread (ok (run, db)) = served (run.id, db)

abbrev thread_of : Runtime → Session → Option AgentDefinition → Db → Served (Uuid × Db)
thread_of rt s none db = failed no_result
thread_of rt s (some d) db = opened_thread (create rt s d none prod db)

-- `open_thread`
unfoldable pub open_thread : Runtime → Session → Db → Served (Uuid × Db)
unfolding newest
open_thread rt s db = thread_of rt s (newest db.definitions) db

abbrev steered : Result (Posted × Db) → Served (ℕ × Db)
steered (raise e) = failed e
steered (ok (no_run, db)) = refused 404 "no such run"
steered (ok (ended, db)) = refused 410 "the thread has ended"
steered (ok (sent m, db)) = served (m.seq, db)

-- `steer_run`
unfoldable pub steer_run : Runtime → Session → Uuid → String → Db → Served (ℕ × Db)
steer_run rt s i message db = steered (send rt s i message db)

-- A call without a run.
abbrev pub outside_context : Session → (ℕ → Time) → CallContext
outside_context s clock = record {
  principal_id = s.principal;
  run_id = none;
  step_no = none;
  capability_ceiling = none;
  clock = clock;
}

abbrev pub outside_call : Runtime → String → Json → Db → Call
outside_call rt name args db = record {
  operation_name = name;
  args = args;
  tool_call_id = rt.str_uuid (rt.uuid4 db.draws);
  expected_version = none;
}

abbrev pub unreachable : String → Served (Json × Db)
unreachable name = failed (runtime_error (concat (name ∷ ": unreachable outcome" ∷ [])))

abbrev pub answered : String → Result (Outcome × Db) → Served (Json × Db)
answered name (raise e) = failed e
answered name (ok (committed a result, db)) = served (result, db)
answered name (ok (denied reason e, db)) = refused 403 reason
answered name (ok (replayed a, db)) = unreachable name
answered name (ok (waiting a t, db)) = unreachable name

-- `_call`
unfoldable pub call_operation :
    Runtime → Registry → Session → (ℕ → Time) → String → Json → Db → Served (Json × Db)
call_operation rt registry s clock name args db = answered name (
    dispatch rt registry (outside_context s clock) (outside_call rt name args db)
      (record db { draws = suc db.draws }))

abbrev decision_text : Decision → String
decision_text approve = "approve"
decision_text reject = "reject"

abbrev optional_reason : Option String → JsonValue
optional_reason none = null
optional_reason (some t) = text t

-- `decide`
unfoldable pub decide :
    Runtime
    → Registry
    → Session
    → (ℕ → Time)
    → Uuid
    → Decision
    → Option String
    → Db
    → Served (Json × Db)
unfolding call_operation
decide rt registry s clock i decision reason db =
    call_operation rt registry s clock "governance.decide_approval"
      (field "approval_id" (text (rt.str_uuid i)) (
        field "decision" (text (decision_text decision))
          (field "reason" (optional_reason reason) end)))
      db

-- `undo`
unfoldable pub undo : Runtime → Registry → Session → (ℕ → Time) → Uuid → Db → Served (Json × Db)
unfolding call_operation
undo rt registry s clock i db =
    call_operation rt registry s clock "governance.undo_action"
      (field "action_id" (text (rt.str_uuid i)) end) db

-- The identifier of the last event of a batch, or the cursor that it was read from.
abbrev pub cursor_after : ℕ → List Event → ℕ
cursor_after cursor [] = cursor
cursor_after cursor (e ∷ es) = cursor_after e.id es

-- `stream_events`: what the passes yield, each on the database that its own session sees.
unfoldable pub stream_events : Uuid → ℕ → List Db → List Event
stream_events i cursor [] = []
stream_events i cursor (db ∷ later) =
    let batch = events i cursor db in batch ++ stream_events i (cursor_after cursor batch) later
