-- ===== src/Work/Queue.antt =====
-- backend/app/kernel/runs/work.py: the claim of a step, the guarded write of a run's state and the leaving
-- of the queue.
use agent_quilt.Base.{
  ℕ, ◌+◌, ◌*◌, ◌==◌, ◌&&◌, ◌||◌, Bool, true, false, not, Option, none, some, String, List, [], ◌∷◌,
  filter, update_where, ltb, leb, if◌then◌else◌, str_eq,
}
use agent_quilt.Json.{Json}
use agent_quilt.Runtime.{Uuid, Time}
use agent_quilt.Store.{Db, Run, RunState, queued, running, StepQueue, find_run, is_running}
use agent_quilt.Runs.{is_step, move_run, is_moved, may_move, any_state}

-- A tool call that the model proposed (backend/app/kernel/ports/model_runner.py).
pub record ProposedCall : Type 0 where
  pub name : String
  pub args : Json
  pub tool_call_id : String

pub record Claimed : Type 0 where
  pub run_id : Uuid
  pub step_no : ℕ

-- `LEASE`: five minutes, in microseconds.
abbrev pub lease : Time
lease = 5 * 60 * 1000000

abbrev pub is_claimable : Option Run → Bool
is_claimable none = false
is_claimable (some r) = elim r.state [ queued ↦ true | running ↦ true | _ ↦ false ]

abbrev pub is_free : Time → Option Time → Bool
is_free now none = true
is_free now (some t) = leb t now

-- The `where` of the claim. `locked` are the runs whose rows other transactions hold: these the
-- claim skips.
abbrev pub may_claim : (Uuid → Bool) → Time → Db → StepQueue → Bool
may_claim locked now db q =
    str_eq q.queue_tag "main"
    && is_claimable (find_run q.run_id db.runs)
    && is_free now q.lease_until
    && not (locked q.run_id)

-- `order by step_no, run_id`
abbrev pub is_before : StepQueue → StepQueue → Bool
is_before a b = ltb a.step_no b.step_no || a.step_no == b.step_no && leb a.run_id b.run_id

-- `limit 1`
abbrev pub earliest : List StepQueue → Option StepQueue
earliest [] = none
earliest (q ∷ rows) = elim (earliest rows) [
  | none ↦ some q
  | some r ↦ if is_before r q then some r else some q
]

unfoldable pub take_lease : String → Time → StepQueue → Db → Claimed × Db
take_lease worker now q db = (
  record { run_id = q.run_id; step_no = q.step_no },
  record db {
    queue =
        update_where (is_step q.run_id q.step_no)
          (λ x. record x { lease_until = some (now + lease); claimed_by = some worker }) db.queue;
    runs = move_run any_state running q.run_id db.runs;
  },
)

unfoldable pub claim_row : String → Time → Option StepQueue → Db → Option Claimed × Db
unfolding take_lease
claim_row worker now none db = (none, db)
claim_row worker now (some q) db =
    (some (take_lease worker now q db).0, (take_lease worker now q db).1)

unfoldable pub claim : (Uuid → Bool) → String → Time → Db → Option Claimed × Db
unfolding claim_row
claim locked worker now db =
    claim_row worker now (earliest (filter (may_claim locked now db) db.queue)) db

-- The state of a run row, or the default where there is none.
abbrev pub state_or : RunState → Option Run → RunState
state_or s none = s
state_or s (some r) = r.state

-- `_state`: guarded on `running`, it answers the state that the run then has.
unfoldable pub set_state : Uuid → RunState → Option String → Db → RunState × Db
set_state i state reason db =
    if is_moved is_running i db.runs
    then (
      state,
      record db {
        runs =
            update_where (may_move is_running i)
              (λ r. record r { state = state; failure_reason = reason }) db.runs;
      },
    )
    else (state_or state (find_run i db.runs), db)

-- `_leave`
unfoldable pub leave : Uuid → ℕ → Db → Db
leave i n db = record db { queue = filter (λ q. not (is_step i n q)) db.queue }
