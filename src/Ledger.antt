-- ===== src/Ledger.antt =====
-- backend/app/kernel/declare/ledger.py: `commit` for an operation, `append` for the rest. The role
-- that the connection writes under is the database's concern and leaves no trace in the tables.
pub mod Streams
pub mod Writes
pub mod Replay
pub mod Refinement
use agent_quilt.Base.{
  ℕ, suc, ◌+◌, ◌==◌, ◌&&◌, Bool, true, false, not, Option, none, some, String, List, [], ◌∷◌,
  str_eq, find, update_where, is_some, and_then, if◌then◌else◌,
}
use agent_quilt.Json.{Json}
use agent_quilt.Runtime.{Uuid, Runtime}
use agent_quilt.Store.{
  Db, M, Result, ok, raise, version_conflict, Event, EventKind, operation_commit, run_journal,
  read_audit, denial, StreamHead, Action, IdempotencyKey, find_action,
}

pub record Commit : Type 0 where
  pub operation_version_id : String
  pub operation_name : String
  pub aggregate_kind : String
  pub aggregate_id : Uuid
  pub expected_version : Option ℕ
  pub principal_id : Uuid
  pub run_id : Option Uuid
  pub step_no : Option ℕ
  pub idempotency_key : String
  pub payload : Json
  pub decision_trace : Json
  pub compensator_ref : Option String
  pub compensator_args : Option Json
  pub action_id : Option Uuid
  pub approval_id : Option Uuid

-- The three kinds that `append` writes.
pub data AppendKind : Type 0 where
  journal audit refusal : AppendKind

abbrev pub event_kind : AppendKind → EventKind
event_kind journal = run_journal
event_kind audit = read_audit
event_kind refusal = denial

pub record Append : Type 0 where
  pub kind : AppendKind
  pub aggregate_kind : String
  pub aggregate_id : Uuid
  pub principal_id : Uuid
  pub payload : Json
  pub run_id : Option Uuid
  pub step_no : Option ℕ
  pub operation_name : Option String

abbrev pub is_key : String → String → IdempotencyKey → Bool
is_key name key k = str_eq k.operation_name name && str_eq k.idempotency_key key

-- The action that a key names: the join of the two tables over the key's primary key.
unfoldable pub stored_action : String → String → Db → Option Action
stored_action name key db =
    and_then (find (is_key name key) db.keys)
      λ k. and_then k.action_id λ i. find_action i db.actions

abbrev pub is_stream : String → Uuid → StreamHead → Bool
is_stream kind i h = str_eq h.aggregate_kind kind && h.aggregate_id == i

-- The version of an aggregate that no commit has touched is 0.
abbrev pub version_of : Option StreamHead → ℕ
version_of none = 0
version_of (some h) = h.version

abbrev pub current_version : String → Uuid → List StreamHead → ℕ
current_version kind i heads = version_of (find (is_stream kind i) heads)

-- `insert … on conflict do nothing`, as dispatch reserves a key.
abbrev pub reserve_key : String → String → List IdempotencyKey → List IdempotencyKey
reserve_key name key [] =
    record { operation_name = name; idempotency_key = key; action_id = none } ∷ []
reserve_key name key (k ∷ ks) = if is_key name key k then k ∷ ks else k ∷ reserve_key name key ks

-- `insert … on conflict do update … where action_id is null`.
abbrev pub complete_key : String → String → Uuid → List IdempotencyKey → List IdempotencyKey
complete_key name key i [] =
    record { operation_name = name; idempotency_key = key; action_id = some i } ∷ []
complete_key name key i (k ∷ ks) =
    if is_key name key k
    then (if is_some k.action_id then k else record k { action_id = some i }) ∷ ks
    else k ∷ complete_key name key i ks

-- The head of the stream moves on; a stream's first commit makes it.
abbrev pub move_head : String → Uuid → ℕ → ℕ → Option StreamHead → List StreamHead → List StreamHead
move_head kind i v e none heads =
    record { aggregate_kind = kind; aggregate_id = i; version = 1; last_event_id = e } ∷ heads
move_head kind i v e (some h) heads =
    update_where (is_stream kind i) (λ x. record x { version = v; last_event_id = e }) heads

abbrev pub commit_event : Commit → Uuid → ℕ → ℕ → Event
commit_event r a actual e = record {
  id = e;
  kind = operation_commit;
  aggregate_kind = r.aggregate_kind;
  aggregate_id = r.aggregate_id;
  aggregate_version = actual + 1;
  run_id = r.run_id;
  step_no = r.step_no;
  principal_id = r.principal_id;
  operation_name = some r.operation_name;
  payload = r.payload;
  action_id = some a;
}

abbrev pub commit_action : Commit → Uuid → ℕ → Action
commit_action r a e = record {
  id = a;
  event_id = e;
  operation_version_id = r.operation_version_id;
  approval_id = r.approval_id;
  idempotency_key = r.idempotency_key;
  decision_trace = r.decision_trace;
  compensator_ref = r.compensator_ref;
  compensator_args = r.compensator_args;
}

-- `request.action_id or uuid4()`
abbrev pub chosen_id : Runtime → Option Uuid → Db → Uuid × Db
chosen_id rt (some a) db = (a, db)
chosen_id rt none db = (rt.uuid4 db.draws, record db { draws = suc db.draws })

-- The writes of a commit, once the version has been checked.
unfoldable pub write_commit : Runtime → Commit → Db → Action × Db
write_commit rt r db =
    let head = find (is_stream r.aggregate_kind r.aggregate_id) db.heads in
    let actual = version_of head in
    let (a, drawn) = chosen_id rt r.action_id db in
    let e = suc db.event_seq in
    let action = commit_action r a e in
    (
      action,
      record drawn {
        event_seq = e;
        events = commit_event r a actual e ∷ db.events;
        heads = move_head r.aggregate_kind r.aggregate_id (actual + 1) e head db.heads;
        actions = action ∷ db.actions;
        keys = complete_key r.operation_name r.idempotency_key a db.keys;
      },
    )

-- `expected is not None and actual != expected`; `none` declares no aggregate and checks nothing.
checked_write : Runtime → Commit → Option ℕ → Db → Result (Action × Db)
checked_write rt r none db = ok (write_commit rt r db)
checked_write rt r (some e) db =
    let actual = current_version r.aggregate_kind r.aggregate_id db.heads in
    if actual == e then ok (write_commit rt r db) else raise (version_conflict e actual)

commit_from : Runtime → Commit → Option Action → Db → Result (Action × Db)
unfolding checked_write
commit_from rt r (some a) db = ok (a, db)
commit_from rt r none db = checked_write rt r r.expected_version db

unfoldable pub commit : Runtime → Commit → M Action
unfolding commit_from
commit rt r db = commit_from rt r (stored_action r.operation_name r.idempotency_key db) db

abbrev pub append_event : Append → ℕ → Event
append_event r e = record {
  id = e;
  kind = event_kind r.kind;
  aggregate_kind = r.aggregate_kind;
  aggregate_id = r.aggregate_id;
  aggregate_version = 0;
  run_id = r.run_id;
  step_no = r.step_no;
  principal_id = r.principal_id;
  operation_name = r.operation_name;
  payload = r.payload;
  action_id = none;
}

unfoldable pub append : Append → Db → Event × Db
append r db =
    let event = append_event r (suc db.event_seq) in
    (event, record db { event_seq = suc db.event_seq; events = event ∷ db.events })
