-- ===== src/Work.antt =====
-- backend/app/kernel/runs/work.py: claiming a step, dispatching its plan and settling it.
mod Queue
unfoldable pub use Queue.*
pub mod Claiming
pub mod Leaving
pub mod Settling
pub mod Keeping
pub mod Lifecycle
pub mod Progress
pub mod Stale
use agent_quilt.Base.{
  ℕ, suc, ◌+◌, ◌*◌, ◌==◌, ◌&&◌, ◌||◌, Bool, true, false, not, Option, none, some, String, List, [],
  ◌∷◌, ◌++◌, map, find, filter, update_where, is_some, ltb, leb, if◌then◌else◌, str_eq, and_then,
  concat,
}
use agent_quilt.Base.Dict.{Dict, lookup}
use agent_quilt.Base.Sorting.{sorted}
use agent_quilt.Json.{
  Json, JsonValue, null, number, text, object, array, end, field, items, get, int_or, as_text,
}
use agent_quilt.Runtime.{Uuid, Time, Runtime}
use agent_quilt.Store.{
  Db, Session, M, Result, ok, raise, Run, RunState, queued, running, waiting_approval, done, failed,
  cancelled, StepQueue, MailboxMessage, MessageKind, steer, conflict, context_lost, Checkpoint,
  Event, find_run, is_running, StreamHead, Action,
}
use agent_quilt.Ledger.{append, is_stream, version_of}
use agent_quilt.Registry.{CallContext, Registry, Operation}
use agent_quilt.Dispatch.{Call, Outcome, committed, replayed, denied, waiting, dispatch}
use agent_quilt.Runs.{
  is_of, is_step, enqueue, move_run, is_moved, may_move, any_state, post, Posted, journal_of,
  events,
}

pub record Parked : Type 0 where
  pub approval_id : Uuid
  pub operation_name : String

-- What a step produced.
pub record StepOutcome : Type 0 where
  pub said : String
  pub results : List Json
  pub parked : Option Parked
  pub mailbox_seq : ℕ

-- `_journal_parked`
unfoldable pub journal_parked : Runtime → Session → Uuid → ℕ → Parked → Db → Db
journal_parked rt s i n p db =
    (append
      (journal_of s i (some n) (
        field "event" (text "step.parked") (
          field "approval_id" (text (rt.str_uuid p.approval_id))
            (field "operation_name" (text p.operation_name) end))))
      db).1

abbrev pub is_same_state : RunState → RunState → Bool
is_same_state queued queued = true
is_same_state running running = true
is_same_state waiting_approval waiting_approval = true
is_same_state done done = true
is_same_state failed failed = true
is_same_state cancelled cancelled = true
is_same_state _ _ = false

abbrev pub is_empty {ℓ} : {A : Type ℓ} → List A → Bool
is_empty [] = true
is_empty (x ∷ xs) = false

-- The state that a step with these results asks for.
abbrev pub next_state : List Json → RunState
next_state results = if is_empty results then done else queued

abbrev pub checkpoint_of : Runtime → Uuid → ℕ → StepOutcome → Db → Checkpoint
checkpoint_of rt i n o db = record {
  id = rt.uuid4 db.draws;
  run_id = i;
  step_no = n;
  state = field "mailbox_seq" (number o.mailbox_seq) (
      field "text" (text o.said)
        (field "results" (array (items (map (λ r. object r) o.results))) end));
}

settled : RunState → Result Db → Result (RunState × Db)
settled state (raise e) = raise e
settled state (ok db) = ok (state, db)

park_step : Runtime → Session → Uuid → ℕ → Parked → Db → RunState × Db
park_step rt s i n p db =
    let (state, moved) = set_state i waiting_approval none (journal_parked rt s i n p db) in
    (state, leave i n moved)

close_step : Runtime → Uuid → ℕ → StepOutcome → RunState → Db → Result (RunState × Db)
unfolding settled
close_step rt i n o state db =
    let wanted = next_state o.results in
    if not (is_same_state state wanted)
    then ok (state, db)
    else let saved = record db {
      draws = suc db.draws;
      checkpoints = checkpoint_of rt i n o db ∷ db.checkpoints;
    } in
      settled wanted (if is_empty o.results then ok saved else enqueue i (n + 1) saved)

finish_step : Runtime → Uuid → ℕ → StepOutcome → RunState × Db → Result (RunState × Db)
unfolding close_step
finish_step rt i n o (state, moved) = close_step rt i n o state (leave i n moved)

settle_parked :
    Runtime → Session → Uuid → ℕ → StepOutcome → Option Parked → Db → Result (RunState × Db)
unfolding park_step finish_step
settle_parked rt s i n o (some p) db = ok (park_step rt s i n p db)
settle_parked rt s i n o none db = finish_step rt i n o (set_state i (next_state o.results) none db)

-- `_settle`
unfoldable pub settle : Runtime → Session → Uuid → ℕ → StepOutcome → M RunState
unfolding settle_parked
settle rt s i n o db = settle_parked rt s i n o o.parked db

-- The end of a step that the model's budget refused.
unfoldable pub refuse_step : Uuid → ℕ → String → Db → RunState × Db
refuse_step i n reason db =
    let (state, moved) = set_state i failed (some reason) db in (state, leave i n moved)

-- `_expected_version`: the version that the call's aggregate has, where the call names one.
head_version : Runtime → String → Json → String → Db → Option ℕ
head_version rt kind args path db =
    elim (rt.parse_uuid (elim (get path args) [ none ↦ "None" | some v ↦ rt.str_value v ])) [
      | none ↦ none
      | some i ↦ some (version_of (find (is_stream kind i) db.heads))
    ]

unfoldable pub expected_version : Runtime → Registry → ProposedCall → Db → Option ℕ
unfolding head_version
expected_version rt registry call db =
    and_then (lookup call.name registry)
      λ op. and_then op.aggregate λ a. head_version rt a.0 call.args a.1 db

abbrev optional : Option JsonValue → JsonValue
optional none = null
optional (some v) = v

result_of_post : Json → Result (Posted × Db) → Result (Json × Db)
result_of_post r (raise e) = raise e
result_of_post r (ok (p, db)) = ok (r, db)

denied_result : Runtime → Session → Uuid → ProposedCall → String → Event → M Json
unfolding result_of_post
denied_result rt s i call reason event db =
    let r =
      field "tool_call_id" (text call.tool_call_id)
        (field "outcome" (text "denied") (field "reason" (text reason) end)) in
    if str_eq reason "version_conflict"
    then result_of_post r (
        post rt s i conflict
          (field "text"
            (text (concat (call.name ∷ " was refused: the record moved under it." ∷ [])))
            (field "expected" (optional (get "expected" event.payload)) (
              field "actual" (optional (get "actual" event.payload))
                (field "tool_call_id" (text call.tool_call_id) end))))
          db)
    else ok (r, db)

-- What one dispatched call leaves the plan with: its result, or the approval that it waits for.
pub data Dispatched : Type 0 where
  answered : Json → Dispatched
  parks : Uuid → Dispatched

as_answered : Result (Json × Db) → Result (Dispatched × Db)
as_answered (raise e) = raise e
as_answered (ok (r, db)) = ok (answered r, db)

-- `_result`
result_of :
    Runtime → Session → Uuid → ProposedCall → Result (Outcome × Db) → Result (Dispatched × Db)
unfolding as_answered denied_result
result_of rt s i call (raise e) = raise e
result_of rt s i call (ok (committed a r, db)) = ok (
  answered (
      field "tool_call_id" (text call.tool_call_id)
        (field "outcome" (text "committed") (field "result" (object r) end))),
  db,
)
result_of rt s i call (ok (replayed a, db)) = ok (
  answered (
      field "tool_call_id" (text call.tool_call_id)
        (field "outcome" (text "replayed") (field "action_id" (text (rt.str_uuid a.id)) end))),
  db,
)
result_of rt s i call (ok (denied reason event, db)) =
    as_answered (denied_result rt s i call reason event db)
result_of rt s i call (ok (waiting approval t, db)) = ok (parks approval, db)

abbrev pub tool_call : Runtime → Registry → ProposedCall → Db → Call
tool_call rt registry call db = record {
  operation_name = call.name;
  args = call.args;
  tool_call_id = call.tool_call_id;
  expected_version = expected_version rt registry call db;
}

unfoldable pub dispatch_one :
    Runtime → Session → Registry → CallContext → Uuid → ProposedCall → M Dispatched
unfolding result_of
dispatch_one rt s registry ctx i call db =
    result_of rt s i call (dispatch rt registry ctx (tool_call rt registry call db) db)

-- `_dispatch_all`: in order, up to the first call that parks. `ctx n` is the context of the n-th
-- call: the same but for the readings of the clock.
unfoldable pub dispatch_all :
    Runtime
    → Session
    → Registry
    → (ℕ → CallContext)
    → Uuid
    → List Json
    → List ProposedCall
    → M (List Json × Option Parked)
dispatch_all rt s registry ctx i results [] db = ok ((results, none), db)
dispatch_all rt s registry ctx i results (call ∷ calls) db =
    elim (dispatch_one rt s registry (ctx 0) i call db) [
      | raise e ↦ raise e
      | ok (parks approval, after) ↦
          ok
            ((results, some (record { approval_id = approval; operation_name = call.name })), after)
      | ok (answered r, after) ↦
          dispatch_all rt s registry (λ n. ctx (suc n)) i (results ++ r ∷ []) calls after
    ]

-- `_drain`: the watermark of the last checkpoint, and the messages past it, the oldest first.
last_checkpoint : Uuid → List Checkpoint → Option Checkpoint
last_checkpoint i [] = none
last_checkpoint i (c ∷ cs) = elim (last_checkpoint i cs) [
  | none ↦ if c.run_id == i then some c else none
  | some d ↦ if c.run_id == i && ltb d.step_no c.step_no then some c else some d
]

unfoldable pub watermark : Uuid → Db → ℕ
unfolding last_checkpoint
watermark i db = elim (last_checkpoint i db.checkpoints) [
  | none ↦ 0
  | some c ↦ int_or 0 (get "mailbox_seq" c.state)
]

message_le : MailboxMessage → MailboxMessage → Bool
message_le a b = leb a.seq b.seq

-- The run's messages with numbers past the first bound and up to the second, in order.
unfoldable pub unread : Uuid → Db → List MailboxMessage
unfolding message_le sorted
unread i db =
    sorted message_le (filter (λ m. m.run_id == i && ltb (watermark i db) m.seq) db.mailbox)

-- `_transcript`'s messages: those up to the watermark.
unfoldable pub already_read : Uuid → Db → List MailboxMessage
unfolding message_le sorted
already_read i db =
    sorted message_le (filter (λ m. m.run_id == i && leb m.seq (watermark i db)) db.mailbox)
