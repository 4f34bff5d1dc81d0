-- ===== src/Examples.antt =====
-- One small organisation: the state, the operations and the runtime that the tests and the
-- witnesses run on.
mod Kernel
mod Work
pub mod Stepping
mod Moving
mod Serving
use agent_quilt.Base.{ℕ, ◌+◌, ◌≡◌, refl, true, Option, none, some, String, List, [], ◌∷◌}
use agent_quilt.Json.{Json, end, field, text}
use agent_quilt.Runtime.{Runtime}
use agent_quilt.Store.{
  Db, Result, ok, raise, Grant, may_use, asks_first, dev, prod, Approval, opened, Action, Principal,
}
use agent_quilt.Registry.{
  CallContext, Registry, Operation, read, write, reversible, valid, ArgsModel,
}
use agent_quilt.Dispatch.{Call, Outcome, committed, replayed, denied, waiting}

abbrev pub rt : Runtime
rt = record {
  sha256 = λ s. s;
  is_canonical = λ j. true;
  canonical_json = λ j. "{}";
  dumps = λ v. "v1";
  uuid4 = λ n. n + 1000;
  uuid5 = λ s. 7;
  parse_uuid = λ s. some 5;
  str_uuid = λ i. "u";
  str_number = λ n. "n";
  str_value = λ v. "5";
}

abbrev pub anything : ArgsModel
anything = record { schema = end; validate = λ args. valid args }

-- A versioned write, and a read; both bodies answer `{}`.
abbrev pub write_note : Operation
write_note = record {
  name = "notes.write_note";
  mode = write;
  reversal = some reversible;
  compensator = some "notes.write_note";
  aggregate = some ("note", "note_id");
  stage = prod;
  taint = none;
  args_model = anything;
  fn = λ ctx args db. ok (end, db);
  description = "Write a note.";
}

abbrev pub get_note : Operation
get_note = record {
  name = "notes.get_note";
  mode = read;
  reversal = none;
  compensator = none;
  aggregate = none;
  stage = prod;
  taint = none;
  args_model = anything;
  fn = λ ctx args db. ok (end, db);
  description = "Read a note.";
}

abbrev pub registry : Registry
registry = ("notes.write_note", write_note) ∷ ("notes.get_note", get_note) ∷ []

abbrev pub empty_db : Db
empty_db = record {
  draws = 0;
  event_seq = 0;
  orgs = [];
  users = [];
  events = [];
  heads = [];
  actions = [];
  keys = [];
  versions = [];
  grants = [];
  principals = [];
  approvals = [];
  definitions = [];
  runs = [];
  queue = [];
  mailbox = [];
  checkpoints = [];
  usage = [];
  bindings = [];
  manifests = [];
  skills = [];
  skill_versions = [];
}

-- Principal 1 may write notes, and asks before it reads one.
abbrev pub granted_db : Db
granted_db = record empty_db {
  grants =
      record { principal_id = 1; operation_name = "notes.write_note"; level = may_use }
      ∷ record { principal_id = 1; operation_name = "notes.get_note"; level = asks_first }
      ∷ [];
}

abbrev pub ctx : CallContext
ctx = record {
  principal_id = 1;
  run_id = some 40;
  step_no = some 1;
  capability_ceiling = none;
  clock = λ n. 100;
}

abbrev pub note_args : Json
note_args = field "note_id" (text "5") end

abbrev pub note_call : Call
note_call = record {
  operation_name = "notes.write_note";
  args = note_args;
  tool_call_id = "t1";
  expected_version = some 0;
}

-- The state, the action and the result that a dispatch returned.
abbrev pub db_of : Result (Outcome × Db) → Db
db_of (ok (o, db)) = db
db_of (raise e) = empty_db

abbrev pub no_action : Action
no_action = record {
  id = 0;
  event_id = 0;
  operation_version_id = "";
  approval_id = none;
  idempotency_key = "";
  decision_trace = end;
  compensator_ref = none;
  compensator_args = none;
}

abbrev pub action_of : Result (Outcome × Db) → Action
action_of (ok (committed (some a) r, db)) = a
action_of _ = no_action

abbrev pub state_or {ℓ} : {A : Type ℓ} → Db → Result (A × Db) → Db
state_or d (ok (a, db)) = db
state_or d (raise e) = d
