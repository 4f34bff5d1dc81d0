-- ===== src/Examples/Kernel.antt =====
-- Tests and witnesses of identity, the ledger, the registry and dispatch.
use agent_quilt.Base.{true, ◌≡◌, ◌≢◌, ◌↔◌, refl, ap, none, some, String, [], ◌∷◌, arith}
use agent_quilt.Base.Dict.{lookup}
use Prim.Native.Nat.{min}
use mathlib.Core.List.{Mem, mem-cons_self}
use agent_quilt.Registry.Names.{is_name, has_underscore, verb_of, starts_with}
use agent_quilt.Registry.{
  Operation, Declares, Handler, Registry, validate, operation, read, write, reversible,
}
use agent_quilt.Registry.Declaring.{
  Consistent, IsNamedFor, validate_iff, Declared, operation_declares,
}
use agent_quilt.Identity.{Consume, Park, consume_approval}
use agent_quilt.Identity.Spending.{IsBound, consume_twice, consume_sound, consume_complete}
use agent_quilt.Dispatch.Permission.{Permitted, dispatch-Permitted}
use agent_quilt.Dispatch.Refusals.{IsRefusal, dispatch_denied}
use agent_quilt.Dispatch.Ceiling.{strength, strength_of_text, strength-under_ceiling}
use agent_quilt.Ledger.Streams.{IsNumbered, commit_versions, commit-IsNumbered}
use agent_quilt.Ledger.Refinement.{view, IsImplementation, commit_implements}
use mathlib.Core.Path.{subst}
use agent_quilt.Json.{Json, end, field, object, text}
use agent_quilt.Store.{
  ok, raise, Db, Result, Event, Action, Approval, opened, may_use, prod, denial,
}
use agent_quilt.Ledger.{Commit, append, stored_action, commit, write_commit}
use agent_quilt.Ledger.Replay.{IsReferential, commit_again, commit-IsReferential}
use agent_quilt.Identity.{effective_grants}
use agent_quilt.Registry.{version_id}
use agent_quilt.Dispatch.Remembering.{KeepsReferences}
use agent_quilt.Dispatch.{
  dispatch, Outcome, committed, replayed, denied, deny, ceiling_bound, idempotency_key, reserve,
  write_call, aggregate_of, granted_level, under_ceiling,
}
use agent_quilt.Dispatch.Once.{dispatch_again}
use agent_quilt.Examples.{
  rt, registry, ctx, note_call, write_note, granted_db, db_of, action_of, state_or, empty_db,
  anything,
}

abbrev first_write : Result (Outcome × Db)
first_write = dispatch rt registry ctx note_call granted_db

first_write_commits :
    first_write ≡ ok (committed (some (action_of first_write)) end, db_of first_write)
unfolding dispatch reserve write_call idempotency_key aggregate_of granted_level under_ceiling
    effective_grants stored_action commit write_commit version_id
first_write_commits = refl

note_keeps : KeepsReferences write_note
note_keeps c args db result after h e = subst IsReferential (ap (state_or db) e) h

dispatch_again_example :
    dispatch rt registry ctx note_call (db_of first_write)
    ≡ ok (replayed (action_of first_write), db_of first_write)
dispatch_again_example =
    dispatch_again rt registry ctx ctx note_call note_call write_note granted_db refl refl
      note_keeps tt refl refl first_write_commits

dispatch-Permitted_example :
    (op : Operation) × (lookup "notes.write_note" registry ≡ some op)
    × Permitted rt ctx note_call op (granted_level ctx "notes.write_note" granted_db) granted_db
dispatch-Permitted_example =
    dispatch-Permitted rt registry ctx note_call granted_db first_write_commits

-- The same call of a principal without grants.
abbrev refused_write : Result (Outcome × Db)
refused_write = dispatch rt registry ctx note_call empty_db

abbrev no_event : Event
no_event = record {
  id = 0;
  kind = denial;
  aggregate_kind = "";
  aggregate_id = 0;
  aggregate_version = 0;
  run_id = none;
  step_no = none;
  principal_id = 0;
  operation_name = none;
  payload = end;
  action_id = none;
}

abbrev event_of : Result (Outcome × Db) → Event
event_of (ok (denied reason e, db)) = e
event_of _ = no_event

abbrev reason_of : Result (Outcome × Db) → String
reason_of (ok (denied reason e, db)) = reason
reason_of _ = ""

refused_write_denied :
    refused_write
    ≡ ok (denied (reason_of refused_write) (event_of refused_write), db_of refused_write)
unfolding dispatch reserve write_call idempotency_key aggregate_of granted_level under_ceiling
    effective_grants stored_action commit write_commit version_id deny append
refused_write_denied = refl

dispatch_denied_example :
    IsRefusal rt ctx note_call
      (reason_of refused_write)
      (event_of refused_write)
      empty_db
      (db_of refused_write)
dispatch_denied_example = dispatch_denied rt ctx note_call registry empty_db refused_write_denied

abbrev ceiling : Json
ceiling = field "operations" (object (field "notes.write_note" (text "asks_first") end)) end

strength-under_ceiling_example :
    strength (under_ceiling (some ceiling) "notes.write_note" (some may_use))
    ≡ min (strength (some may_use)) (strength_of_text (ceiling_bound ceiling "notes.write_note"))
strength-under_ceiling_example = strength-under_ceiling ceiling "notes.write_note" (some may_use)

abbrev note_commit : Commit
note_commit = record {
  operation_version_id = "v1";
  operation_name = "notes.write_note";
  aggregate_kind = "note";
  aggregate_id = 5;
  expected_version = some 0;
  principal_id = 1;
  run_id = none;
  step_no = none;
  idempotency_key = "k";
  payload = end;
  decision_trace = end;
  compensator_ref = none;
  compensator_args = none;
  action_id = none;
  approval_id = none;
}

abbrev committed_note : Action × Db
committed_note = write_commit rt note_commit empty_db

note_commits : commit rt note_commit empty_db ≡ ok (committed_note.0, committed_note.1)
unfolding commit write_commit stored_action
note_commits = refl

commit-IsNumbered_example : IsNumbered committed_note.1
unfolding commit_versions
commit-IsNumbered_example = commit-IsNumbered rt note_commit empty_db (λ k i. refl) note_commits

commit-IsReferential_example : IsReferential committed_note.1
commit-IsReferential_example = commit-IsReferential rt note_commit empty_db tt note_commits

commit_again_example :
    commit rt note_commit committed_note.1 ≡ ok (committed_note.0, committed_note.1)
commit_again_example = commit_again rt note_commit note_commit empty_db tt refl refl note_commits

commit_implements_example :
    IsImplementation note_commit
      (view empty_db)
      (stored_action "notes.write_note" "k" empty_db)
      (commit rt note_commit empty_db)
commit_implements_example = commit_implements rt note_commit empty_db tt refl

abbrev given : Approval
given = record {
  id = 60;
  granted_to = 1;
  granted_by = some 2;
  operation_version_id = "v1";
  args_hash = "h";
  state = opened;
  reason = none;
  run_id = 40;
  step_no = 1;
  tool_call_id = "t1";
  expires_at = 150;
  consumed_by_action_id = none;
}

abbrev given_db : Db
given_db = record empty_db { approvals = given ∷ [] }

abbrev request : Consume
request = record {
  granted_to = 1;
  operation_version_id = "v1";
  args_hash = "h";
  action_id = some 9;
  now = 100;
}

consume_twice_example : (consume_approval request (consume_approval request given_db).1).0 ≡ none
consume_twice_example = consume_twice request request given_db (omega arith) (refl, refl, refl)

request_finds : (consume_approval request given_db).0 ≡ some 60
unfolding consume_approval
request_finds = refl

consume_sound_example : (a : Approval) × Mem a given_db.approvals × (a.id ≡ 60) × IsBound request a
consume_sound_example = consume_sound request given_db 60 request_finds

given-IsBound : IsBound request given
given-IsBound = record {
  same_principal = refl;
  same_version = refl;
  same_args = refl;
  is_open = refl;
  alive = omega arith;
}

consume_complete_example : (consume_approval request given_db).0 ≢ none
consume_complete_example = consume_complete request given_db given mem-cons_self given-IsBound

abbrev asking : Park
asking = record {
  granted_to = 1;
  operation_version_id = "v1";
  args_hash = "h";
  run_id = 40;
  step_no = 1;
  tool_call_id = "t1";
  now = 100;
}

abbrev reversible_write : Declares
reversible_write = record {
  mode = write;
  reversal = some reversible;
  compensator = some "notes.write_note";
  aggregate = some ("note", "note_id");
  stage = prod;
  taint = none;
}

validate_iff_example : (validate "notes.write_note" reversible_write ≡ ok tt) ↔ (
    IsNamedFor "notes.write_note" write
    × Consistent write (some reversible) (some "notes.write_note"))
validate_iff_example = validate_iff "notes.write_note" reversible_write

abbrev registry_or : Result Registry → Registry
registry_or (ok reg) = reg
registry_or (raise e) = []

abbrev list_notes : Handler
list_notes = record {
  summary = "List the notes.";
  is_coroutine = true;
  parameters = "ctx" ∷ "args" ∷ [];
  annotation = some anything;
  fn = λ c args db. ok (end, db);
}

abbrev listing : Declares
listing = record reversible_write { mode = read; reversal = none; compensator = none }

abbrev listed : Registry
listed = registry_or (operation "notes.list_notes" listing list_notes registry)

listing_accepted : operation "notes.list_notes" listing list_notes registry ≡ ok listed
unfolding operation validate is_name has_underscore verb_of starts_with
listing_accepted = refl

operation_declares_example : Declared "notes.list_notes" listing list_notes registry listed
operation_declares_example =
    operation_declares "notes.list_notes" listing list_notes registry listing_accepted
