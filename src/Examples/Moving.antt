-- ===== src/Examples/Moving.antt =====
-- Tests and witnesses of whole steps and of sequences of transactions. The registry has the write of
-- the examples, the operation that answers an approval and the one that undoes an action.
use agent_quilt.Base.{
  ℕ, ◌+◌, ◌≡◌, refl, false, none, some, [], ◌∷◌, arith, inl, inr, Bool-cases, str_eq,
}
use agent_quilt.Json.{Json, end, field, object, text}
use agent_quilt.Runtime.{Uuid}
use mathlib.Core.Path.{subst}
use agent_quilt.Store.{Db, M, Session, Result, ok, raise, Run, RunState, queued, running, cancelled}
use agent_quilt.Store.Keeping.{Keeps}
use agent_quilt.Registry.{CallContext, Registry, Operation}
use agent_quilt.Dispatch.Keeping.{BodyKeeps}
use agent_quilt.Governance.{DecideApproval, approve, decide_approval, undo_action}
use agent_quilt.Governance.Undoing.{
  undo_action-IsScheduled, undo_action-Follows, undo_action-inside,
}
use agent_quilt.Governance.Keeping.{
  decide_approval-IsScheduled, decide_approval-Follows, decide_approval-inside,
}
use agent_quilt.Runs.Scheduling.{IsScheduled, state_at}
use agent_quilt.Runs.Lifecycle.{Follows, Keeps-Follows}
use agent_quilt.Work.{Claimed, claim, lease}
use agent_quilt.Work.Keeping.{RegistryKeeps, IsEntitled}
use agent_quilt.Step.{Surroundings, step}
use agent_quilt.Step.Keeping.{step-IsScheduled}
use agent_quilt.Context.{prefix, tools, fit}
use agent_quilt.Context.Assembly.{assemble, envelope, binding}
use agent_quilt.Model.{run_model}
use agent_quilt.Ledger.{append, commit, write_commit, stored_action}
use agent_quilt.Identity.{effective_grants}
use agent_quilt.Registry.{version_id}
use agent_quilt.Runs.{cancel, enqueue, events}
use agent_quilt.Work.{
  unread, already_read, watermark, dispatch_all, dispatch_one, expected_version, settle, set_state,
  leave,
}
use agent_quilt.Step.{transcript, intake, journal_plan}
use agent_quilt.Dispatch.{
  dispatch, reserve, write_call, granted_level, under_ceiling, idempotency_key, aggregate_of,
}
use agent_quilt.Machine.{AllFenced, Move, Reach, claimed_by, stepped, cancelled_by, here, next}
use agent_quilt.Machine.Kept.{RegistryIsScheduled, Reach-IsScheduled, Reach-cancelled}
use agent_quilt.Examples.{rt, write_note, empty_db, note_args, granted_db}
use agent_quilt.Examples.Stepping.{world, poor_run, poor_db}

abbrev anyone : Session
anyone = record { principal = 1 }

abbrev decision : DecideApproval
decision = record { approval_id = 9; decision = approve; reason = none }

abbrev decide : Operation
decide = record write_note {
  name = "governance.decide_approval";
  fn = λ ctx args db. decide_approval ctx decision db;
}

-- The examples' texts of JSON are all one.
abbrev undo_one : CallContext → M Json
undo_one ctx = undo_action rt anyone (λ v. "v1") ctx 5

abbrev undo : Operation
undo = record write_note { name = "governance.undo_action"; fn = λ ctx args. undo_one ctx }

abbrev registry : Registry
registry =
    ("notes.write_note", write_note)
    ∷ ("governance.decide_approval", decide)
    ∷ ("governance.undo_action", undo)
    ∷ []

-- What the bodies of both operations keep, the registry keeps.
registry-Keeps :
    (P : Db → Type 0) (ctx : CallContext)
    → ((db : Db) → P db → Keeps P (decide_approval ctx decision db))
    → ((db : Db) → P db → Keeps P (undo_one ctx db))
    → RegistryKeeps P registry ctx
registry-Keeps P ctx decides undoes name op e = elim (Bool-cases (str_eq "notes.write_note" name)) [
  | inl f ↦ keeps_of {known = write_note} (let k = rw f at e in ground arith) (λ args db h. h)
  | inr f ↦ elim (Bool-cases (str_eq "governance.decide_approval" name)) [
    | inl g ↦
        keeps_of {known = decide} (let k = rw (f, g) at e in ground arith)
          (λ args db h. decides db h)
    | inr g ↦ elim (Bool-cases (str_eq "governance.undo_action" name)) [
      | inl u ↦
          keeps_of {known = undo} (let k = rw (f, g, u) at e in ground arith)
            (λ args db h. undoes db h)
      | inr u ↦ absurd (let k = rw (f, g, u) at e in ground arith)
    ]
  ]
]
  where
    keeps_of : {known : Operation} → known ≡ op → BodyKeeps P ctx known → BodyKeeps P ctx op
    keeps_of same = subst (BodyKeeps P ctx) same

registry-IsEntitled :
    (i : Uuid) (n : ℕ) (ctx : CallContext)
    → ctx.run_id ≡ some i
    → RegistryKeeps (IsEntitled i n) registry ctx
registry-IsEntitled i n ctx e =
    registry-Keeps (IsEntitled i n) ctx
      (λ db h. decide_approval-inside (IsEntitled i n) ctx decision db (rw e refl))
      (λ db h. undo_action-inside (IsEntitled i n) rt anyone (λ v. "v1") ctx 5 db (rw e refl))

registry-IsScheduled : RegistryIsScheduled registry
registry-IsScheduled = (
  registry-IsEntitled,
  λ ctx e.
      registry-Keeps IsScheduled ctx (λ db h. decide_approval-IsScheduled ctx decision db h)
        (λ db h. undo_action-IsScheduled rt anyone (λ v. "v1") ctx 5 db h),
)

registry-Follows : (before : Db) (ctx : CallContext) → RegistryKeeps (Follows before) registry ctx
registry-Follows before ctx =
    registry-Keeps (Follows before) ctx
      (λ db h.
        Keeps-Follows before db (decide_approval ctx decision db) h
          (decide_approval-Follows ctx decision db))
      (λ db h.
        Keeps-Follows before db (undo_one ctx db) h
          (undo_action-Follows rt anyone (λ v. "v1") ctx 5 db))

-- A model that proposes one write and ends its turn.
abbrev rich_world : Surroundings
rich_world = record world {
  rt = rt;
  registry = registry;
  runner = λ turn. record {
    text = "I write a note.";
    calls = record { name = "notes.write_note"; args = note_args; tool_call_id = "t1" } ∷ [];
    usage = record { input_tokens = 3; output_tokens = 2; cached_tokens = 0 };
    cache = end;
  };
}

abbrev rich_run : Run
rich_run = record poor_run {
  state = queued;
  budget_cap_tokens = 100000;
  capability_ceiling =
      field "operations" (object (field "notes.write_note" (text "may_use") end)) end;
}

abbrev rich_db : Db
rich_db = record poor_db {
  runs = rich_run ∷ [];
  grants = granted_db.grants;
  queue =
      record { run_id = 40; step_no = 1; queue_tag = "main"; lease_until = none; claimed_by = none }
      ∷ [];
}

rich_db-IsScheduled : IsScheduled rich_db
rich_db-IsScheduled i = ground arith

abbrev held_db : Db
held_db = record rich_db {
  runs = record rich_run { state = running } ∷ [];
  queue =
      record {
        run_id = 40;
        step_no = 1;
        queue_tag = "main";
        lease_until = some (100 + lease);
        claimed_by = some "w1";
      }
      ∷ [];
}

held_db-IsScheduled : IsScheduled held_db
held_db-IsScheduled i = ground arith

abbrev first : Claimed
first = record { run_id = 40; step_no = 1 }

step-IsScheduled_example : Keeps IsScheduled (step rich_world first held_db)
step-IsScheduled_example =
    step-IsScheduled rich_world first held_db
      (held_db-IsScheduled, inl (refl, λ e. ground (arith, e)))
      (λ ctx e. registry-IsEntitled 40 1 ctx e)

-- The claimed step: its write is committed, and the run is queued for the next one.
abbrev stepped_result : Result (RunState × Db)
stepped_result = step rich_world first held_db

abbrev state_after : Result (RunState × Db) → RunState
state_after (ok (t, d)) = t
state_after (raise e) = running

abbrev db_after : Result (RunState × Db) → Db
db_after (ok (t, d)) = d
db_after (raise e) = empty_db

steps : stepped_result ≡ ok (state_after stepped_result, db_after stepped_result)
unfolding step assemble binding prefix envelope run_model tools fit transcript intake unread
    dispatch_all dispatch_one dispatch reserve write_call stored_action journal_plan append commit
    write_commit effective_grants granted_level under_ceiling idempotency_key aggregate_of
    expected_version settle set_state leave enqueue watermark already_read events version_id
steps = refl

stepped_queued : state_after stepped_result ≡ queued
unfolding step assemble binding prefix envelope run_model tools fit transcript intake unread
    dispatch_all dispatch_one dispatch reserve write_call stored_action journal_plan append commit
    write_commit effective_grants granted_level under_ceiling idempotency_key aggregate_of
    expected_version settle set_state leave enqueue watermark already_read events version_id
stepped_queued = refl

-- The worker claims the step, works it, and the run is cancelled.
abbrev stopped_db : Db
stopped_db = (cancel world.session 40 (db_after stepped_result)).1

claims : Move rt registry rich_db held_db
unfolding claim
claims = claimed_by (λ i. false) "w1" 100

reaches : Reach rt registry rich_db stopped_db
reaches =
    next (next (next here claims) (stepped rich_world first (state_after stepped_result) steps))
      (cancelled_by world.session 40)

fenced : AllFenced reaches
unfolding reaches claims
fenced = (((tt, tt), inl (refl, λ e. ground (arith, e))), tt)

Reach-IsScheduled_example : IsScheduled stopped_db
Reach-IsScheduled_example =
    Reach-IsScheduled rt registry registry-IsScheduled reaches fenced rich_db-IsScheduled

-- A cancelled run, and a worker that claims whatever may be claimed.
abbrev cancelled_db : Db
cancelled_db = record held_db { runs = record rich_run { state = cancelled } ∷ [] }

works_on : Reach rt registry cancelled_db (claim (λ i. false) "w2" 900 cancelled_db).1
works_on = next here (claimed_by (λ i. false) "w2" 900)

Reach-cancelled_example :
    state_at 40 (claim (λ i. false) "w2" 900 cancelled_db).1.runs ≡ some cancelled
Reach-cancelled_example = Reach-cancelled rt registry 40 registry-Follows works_on refl
