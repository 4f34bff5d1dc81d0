-- ===== src/Step.antt =====
-- backend/app/kernel/runs/work.py: `step` and `work_once`, and the texts that a step is told. What the
-- step gets from outside (the policy text, the contributors, the model and `json.dumps` with sorted
-- keys) is in `Surroundings`.
pub mod Refusing
pub mod Keeping
pub mod Lifecycle
use agent_quilt.Base.{
  ℕ, suc, ◌+◌, ◌==◌, ◌&&◌, Bool, true, false, Option, none, some, String, List, [], ◌∷◌, ◌++◌, map,
  filter, leb, str_eq, if◌then◌else◌, concat, and_then,
}
use agent_quilt.Base.Sorting.{sorted}
use agent_quilt.Json.{Json, JsonValue, text, array, object, end, field, items, get, as_text, int_or}
use agent_quilt.Runtime.{Uuid, Time, Runtime}
use agent_quilt.Store.{
  Db, Session, M, Result, ok, raise, no_result, Run, RunState, MailboxMessage, MessageKind, steer,
  conflict, context_lost, Checkpoint, Event, find_run,
}
use agent_quilt.Ledger.{append}
use agent_quilt.Registry.{CallContext, Registry}
use agent_quilt.Runs.{journal_of, events}
use agent_quilt.Work.{
  ProposedCall, Claimed, claim, settle, refuse_step, dispatch_all, watermark, unread, already_read,
  Parked,
}
use agent_quilt.Context.{AssembledTurn, TurnCall, PrefixContributor, EnvelopeContributor}
use agent_quilt.Context.Assembly.{assemble}
use agent_quilt.Model.{Completion, ModelOutcome, answered, refused, run_model}

pub record Surroundings : Type 0 where
  pub rt : Runtime
  pub session : Session
  pub registry : Registry
  pub policy : String
  pub prefixes : List PrefixContributor
  pub envelopes : List EnvelopeContributor
  pub runner : AssembledTurn → Completion
  pub json_dumps : Json → String
  pub clock : ℕ → ℕ → Time

abbrev pub kind_text : MessageKind → String
kind_text steer = "steer"
kind_text conflict = "conflict"
kind_text context_lost = "context_lost"

-- `"\n\n".join`
unfoldable pub join_paragraphs : List String → String
join_paragraphs [] = ""
join_paragraphs (s ∷ []) = s
join_paragraphs (s ∷ t ∷ ts) = concat (s ∷ "\n\n" ∷ join_paragraphs (t ∷ ts) ∷ [])

-- `_body`
abbrev pub body_text : (Json → String) → MailboxMessage → String
body_text dumps m = elim (as_text (get "text" m.body)) [ none ↦ dumps m.body | some t ↦ t ]

-- `_intake`
unfoldable pub intake : (Json → String) → List MailboxMessage → String
unfolding join_paragraphs
intake dumps messages =
    join_paragraphs
      (map (λ m. concat ("[" ∷ kind_text m.kind ∷ "] " ∷ body_text dumps m ∷ [])) messages)

-- `_said`: the last plan of a step.
abbrev pub is_plan_of : ℕ → Event → Bool
is_plan_of n e =
    elim (as_text (get "event" e.payload)) [ none ↦ false | some t ↦ str_eq t "step.planned" ]
    && elim e.step_no [ none ↦ false | some k ↦ k == n ]

said_at : ℕ → List Event → Option String
said_at n [] = none
said_at n (e ∷ es) = elim (said_at n es) [
  | some t ↦ some t
  | none ↦ if is_plan_of n e then as_text (get "text" e.payload) else none
]

-- A person's steer reads as a person.
abbrev pub tag_text : MessageKind → String
tag_text steer = "person"
tag_text kind = kind_text kind

-- The messages up to a number, as lines, and those after them.
read_upto : (Json → String) → ℕ → List MailboxMessage → List String × List MailboxMessage
read_upto dumps upto [] = ([], [])
read_upto dumps upto (m ∷ ms) =
    let rest = read_upto dumps upto ms in
    if leb m.seq upto
    then (concat ("[" ∷ tag_text m.kind ∷ "] " ∷ body_text dumps m ∷ []) ∷ rest.0, rest.1)
    else ([], m ∷ ms)

abbrev pub reply_lines : Option String → List String
reply_lines none = []
reply_lines (some t) = if str_eq t "" then [] else concat ("[agent] " ∷ t ∷ []) ∷ []

transcript_lines :
    (Json → String) → List Event → List Checkpoint → List MailboxMessage → List String
unfolding read_upto said_at
transcript_lines dumps plans [] messages = []
transcript_lines dumps plans (c ∷ cs) messages =
    let upto = int_or 0 (get "mailbox_seq" c.state) in
    (read_upto dumps upto messages).0
    ++ reply_lines (said_at c.step_no plans)
    ++ transcript_lines dumps plans cs (read_upto dumps upto messages).1

checkpoint_le : Checkpoint → Checkpoint → Bool
checkpoint_le a b = leb a.step_no b.step_no

-- `_transcript`
unfoldable pub transcript : (Json → String) → Uuid → Db → String
unfolding transcript_lines join_paragraphs checkpoint_le sorted
transcript dumps i db = join_paragraphs (
    transcript_lines dumps (events i 0 db)
      (sorted checkpoint_le (filter (λ c. c.run_id == i) db.checkpoints)) (already_read i db))

abbrev pub call_json : ProposedCall → JsonValue
call_json c = object (
    field "name" (text c.name)
      (field "args" (object c.args) (field "tool_call_id" (text c.tool_call_id) end)))

-- `_journal`
unfoldable pub journal_plan : Session → Uuid → ℕ → Completion → Db → Db
journal_plan s i n c db =
    (append
      (journal_of s i (some n) (
        field "event" (text "step.planned")
          (field "text" (text c.text) (field "calls" (array (items (map call_json c.calls))) end))))
      db).1

last_of : ℕ → List MailboxMessage → ℕ
last_of seen [] = seen
last_of seen (m ∷ ms) = last_of m.seq ms

step_context : Surroundings → Run → ℕ → ℕ → CallContext
step_context w run n call = record {
  principal_id = w.session.principal;
  run_id = some run.id;
  step_no = some n;
  capability_ceiling = some run.capability_ceiling;
  clock = w.clock call;
}

settle_plan :
    Surroundings
    → Run
    → ℕ
    → Completion
    → ℕ
    → Result ((List Json × Option Parked) × Db)
    → Result (RunState × Db)
settle_plan w run n c seq (raise e) = raise e
settle_plan w run n c seq (ok ((results, parked), db)) =
    settle w.rt w.session run.id n
      (record { said = c.text; results = results; parked = parked; mailbox_seq = seq }) db

after_model : Surroundings → Run → ℕ → ℕ → Result (ModelOutcome × Db) → Result (RunState × Db)
unfolding settle_plan step_context
after_model w run n seq (raise e) = raise e
after_model w run n seq (ok (refused reason event, db)) = ok (refuse_step run.id n reason db)
after_model w run n seq (ok (answered c, db)) = settle_plan w run n c seq (
    dispatch_all w.rt w.session w.registry (step_context w run n) run.id [] c.calls
      (journal_plan w.session run.id n c db))

after_assembly : Surroundings → Run → ℕ → ℕ → Result (AssembledTurn × Db) → Result (RunState × Db)
unfolding after_model
after_assembly w run n seq (raise e) = raise e
after_assembly w run n seq (ok (turn, db)) =
    after_model w run n seq (run_model w.rt w.session w.runner turn run db)

abbrev pub turn_call : Surroundings → Run → Db → TurnCall
turn_call w run db = record {
  budget_tokens = run.budget_cap_tokens;
  intake = intake w.json_dumps (unread run.id db);
  transcript = transcript w.json_dumps run.id db;
}

step_of : Surroundings → ℕ → Option Run → Db → Result (RunState × Db)
unfolding after_assembly last_of
step_of w n none db = raise no_result
step_of w n (some run) db =
    after_assembly w run n (last_of (watermark run.id db) (unread run.id db)) (
      assemble w.rt w.policy w.prefixes w.envelopes w.session w.registry run n (turn_call w run db)
        db)

unfoldable pub step : Surroundings → Claimed → M RunState
unfolding step_of
step w c db = step_of w c.step_no (find_run c.run_id db.runs) db

-- The second transaction: where it raises, the database stays as the claim left it.
second : Db → Result (RunState × Db) → Option (Result RunState) × Db
second claimed (raise e) = (some (raise e), claimed)
second claimed (ok (state, db)) = (some (ok state), db)

unfoldable pub work_once :
    Surroundings → (Uuid → Bool) → String → Time → Db → Option (Result RunState) × Db
unfolding second
work_once w locked worker now db =
    let (taken, after) = claim locked worker now db in
    elim taken [ none ↦ (none, after) | some c ↦ second after (step w c after) ]
