-- ===== src/Runs.antt =====
-- backend/app/kernel/runs/service.py: starting, steering, reading and cancelling a run, and the two
-- tables that its life goes through, `run` and `step_queue`.
pub mod Scheduling
pub mod Mailbox
pub mod Keeping
pub mod Creating
pub mod Lifecycle
use Prim.Native.Nat.{max}
use agent_quilt.Base.{
  ℕ, suc, ◌+◌, ◌==◌, ◌&&◌, ◌||◌, Bool, true, false, not, Option, none, some, String, List, [], ◌∷◌,
  find, filter, update_where, is_some, ltb, if◌then◌else◌,
}
use agent_quilt.Base.Dict.{Dict}
use agent_quilt.Base.Sorting.{sorted}
use agent_quilt.Json.{Json, JsonValue, text, object, end, field}
use agent_quilt.Runtime.{Uuid, Runtime}
use agent_quilt.Store.{
  Db, Session, M, Result, ok, raise, value_error, integrity_error, Level, Stage, dev, qa, prod, Run,
  RunState, queued, running, waiting_approval, done, failed, cancelled, StepQueue, MailboxMessage,
  MessageKind, steer, conflict, context_lost, Checkpoint, Approval, ApprovalState, requested,
  opened, expired, Event, AgentDefinition, SkillVersion, personal, is_done, find_run, is_requested,
  is_opened,
}
use agent_quilt.Identity.{effective_grants}
use agent_quilt.Ledger.{Append, journal, append}
use agent_quilt.Registry.{stage_text}
use agent_quilt.Dispatch.{level_text}
use mathlib.Core.Option

-- The rows of one run, and the row of one step of it.
abbrev pub is_of : Uuid → StepQueue → Bool
is_of i q = q.run_id == i

abbrev pub is_step : Uuid → ℕ → StepQueue → Bool
is_step i n q = q.run_id == i && q.step_no == n

-- `session.add(StepQueue(…))`: the primary key is the run and the step number.
abbrev pub queue_row : Uuid → ℕ → StepQueue
queue_row i n = record {
  run_id = i;
  step_no = n;
  queue_tag = "main";
  lease_until = none;
  claimed_by = none;
}

unfoldable pub enqueue : Uuid → ℕ → Db → Result Db
enqueue i n db =
    if is_some (find (is_step i n) db.queue)
    then raise integrity_error
    else ok (record db { queue = queue_row i n ∷ db.queue })

-- `update run set state where id = … and state …`: the rows that the guard lets move.
abbrev pub may_move : (RunState → Bool) → Uuid → Run → Bool
may_move guard i r = r.id == i && guard r.state

abbrev pub move_run : (RunState → Bool) → RunState → Uuid → List Run → List Run
move_run guard new i = update_where (may_move guard i) (λ r. record r { state = new })

-- `returning id`: whether the guard matched the row of this primary key.
abbrev pub is_moved : (RunState → Bool) → Uuid → List Run → Bool
is_moved guard i runs = elim (find_run i runs) [ none ↦ false | some r ↦ guard r.state ]

-- `coalesce(max(column), 0) + 1` over the rows of one run
abbrev pub last_seq : Uuid → List MailboxMessage → ℕ
last_seq i [] = 0
last_seq i (m ∷ ms) = let rest = last_seq i ms in if m.run_id == i then max m.seq rest else rest

abbrev pub last_step : Uuid → List Checkpoint → ℕ
last_step i [] = 0
last_step i (c ∷ cs) =
    let rest = last_step i cs in if c.run_id == i then max c.step_no rest else rest

abbrev pub first_step : ℕ
first_step = 1

abbrev pub grants_json : Dict Level → Json
grants_json [] = end
grants_json ((name, level) ∷ d) = field name (text (level_text level)) (grants_json d)

-- A PROD run binds only a skill version promoted to PROD.
abbrev pub may_bind : Stage → Option SkillVersion → Bool
may_bind prod (some v) = elim v.stage [ prod ↦ true | _ ↦ false ]
may_bind _ _ = true

abbrev pub new_run : Uuid → Uuid → AgentDefinition → Option SkillVersion → Stage → Db → Run
new_run i principal d v stage db = record {
  id = i;
  agent_definition_id = d.id;
  skill_version_id = Option.map (λ (s : SkillVersion). s.id) v;
  stage = stage;
  state = queued;
  failure_reason = none;
  budget_cap_tokens = d.budget_cap_tokens;
  prefix_key = "";
  capability_ceiling =
      field "operations" (object (grants_json (effective_grants principal db)))
        (field "memory_scope" (text d.memory_scope) end);
  prefix_profile = personal;
}

abbrev pub journal_of : Session → Uuid → Option ℕ → Json → Append
journal_of s i n payload = record {
  kind = journal;
  aggregate_kind = "run";
  aggregate_id = i;
  principal_id = s.principal;
  payload = payload;
  run_id = some i;
  step_no = n;
  operation_name = none;
}

created : Session → Run → Result Db → Result (Run × Db)
created s run (raise e) = raise e
created s run (ok db) = ok (
  run,
  (append
      (journal_of s run.id (some first_step) (
        field "event" (text "run.created")
          (field "stage" (text (stage_text run.stage)) (field "state" (text "queued") end))))
      db).1,
)

-- The primary key of `run` is its identifier.
unfoldable pub create : Runtime → Session → AgentDefinition → Option SkillVersion → Stage → M Run
unfolding created
create rt s d v stage db =
    if not (may_bind stage v)
    then raise (value_error "a PROD run cannot bind this skill version")
    else if is_some (find_run (rt.uuid4 db.draws) db.runs)
    then raise integrity_error
    else let run = new_run (rt.uuid4 db.draws) s.principal d v stage db in
      created s run
        (enqueue run.id first_step (record db { draws = suc db.draws; runs = run ∷ db.runs }))

-- What `post` answers: the message, that the thread has ended, or that there is no such run.
pub data Posted : Type 0 where
  sent : MailboxMessage → Posted
  ended no_run : Posted

-- The wake of a finished thread: `done -> queued`, and the step after its last checkpoint.
unfoldable pub wake : Uuid → Db → Result Db
unfolding enqueue
wake i db =
    if is_moved is_done i db.runs
    then enqueue i (last_step i db.checkpoints + 1)
        (record db { runs = move_run is_done queued i db.runs })
    else ok db

abbrev pub new_message : Runtime → Session → Uuid → MessageKind → Json → Db → MailboxMessage
new_message rt s i kind body db = record {
  id = rt.uuid4 db.draws;
  run_id = i;
  seq = last_seq i db.mailbox + 1;
  kind = kind;
  author_principal_id = s.principal;
  body = body;
}

answered : MailboxMessage → Result Db → Result (Posted × Db)
answered m (raise e) = raise e
answered m (ok db) = ok (sent m, db)

post_message : Runtime → Session → Uuid → MessageKind → Json → RunState → Db → Result (Posted × Db)
unfolding answered
post_message rt s i kind body state db =
    let m = new_message rt s i kind body db in
    let added = record db { draws = suc db.draws; mailbox = m ∷ db.mailbox } in
    answered m (if is_done state then wake i added else ok added)

post_to : Runtime → Session → Uuid → MessageKind → Json → Option Run → Db → Result (Posted × Db)
unfolding post_message
post_to rt s i kind body none db = ok (no_run, db)
post_to rt s i kind body (some run) db = elim run.state [
  | cancelled ↦ ok (ended, db)
  | failed ↦ ok (ended, db)
  | state ↦ post_message rt s i kind body state db
]

unfoldable pub post : Runtime → Session → Uuid → MessageKind → Json → M Posted
unfolding post_to
post rt s i kind body db = post_to rt s i kind body (find_run i db.runs) db

unfoldable pub send : Runtime → Session → Uuid → String → M Posted
unfolding post
send rt s i body = post rt s i steer (field "text" (text body) end)

-- The run's stream past a cursor, in the order of the ledger.
unfoldable pub event_le : Event → Event → Bool
event_le a b = not (ltb b.id a.id)

abbrev pub is_event_of : Uuid → Event → Bool
is_event_of i e = elim e.run_id [ none ↦ false | some j ↦ j == i ]

unfoldable pub events : Uuid → ℕ → Db → List Event
unfolding event_le sorted
events i after db = sorted event_le (filter (λ e. is_event_of i e && ltb after e.id) db.events)

abbrev pub is_answerable : ApprovalState → Bool
is_answerable s = is_requested s || is_opened s

abbrev pub any_state : RunState → Bool
any_state s = true

unfoldable pub cancel : Session → Uuid → Db → Bool × Db
cancel s i db =
    if is_moved any_state i db.runs
    then (
      true,
      (append (journal_of s i none (field "event" (text "run.cancelled") end)) (record db {
        runs = move_run any_state cancelled i db.runs;
        queue = filter (λ q. not (is_of i q)) db.queue;
        approvals =
            update_where (λ a. a.run_id == i && is_answerable a.state)
              (λ a. record a { state = expired }) db.approvals;
      })).1,
    )
    else (false, db)
