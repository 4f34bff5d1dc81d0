-- ===== src/Dispatch/Remembering.antt =====
-- Each stage of a committed call leaves its key naming the action.
use mathlib.Core.Path.{subst₂, ◌∙◌}
use agent_quilt.Base.{
  ◌≡◌, refl, not, Option, none, some, String, is_some, ◌&&◌, Bool-cases, inl, inr,
}
use agent_quilt.Json.{Json}
use agent_quilt.Runtime.{Uuid, Runtime}
use agent_quilt.Store.{
  Db, Result, Result-cases, ok, raise, Level, may_use, asks_first, never, Action, version_conflict,
}
use agent_quilt.Identity.{consume_approval}
use agent_quilt.Ledger.{Commit, commit, stored_action}
use agent_quilt.Ledger.Replay.{IsReferential, stored_action-commit}
use agent_quilt.Registry.{
  CallContext, Operation, Mode, read, write, Validated, valid, invalid, version_id,
}
use agent_quilt.Dispatch.Uncommitted.{IsUncommitted, deny-IsUncommitted, park-IsUncommitted}
use agent_quilt.Dispatch.{
  Call, Outcome, committed, replayed, denied, waiting, Attempt, performed, unapproved, failed,
  settle_attempt, write_to, write_call, read_call, read_spent, read_result, perform_mode,
  parsed_call, granted_call, reserved_call, spend_approval, attempt, perform, perform_spent,
  after_body, committed_attempt, commit_request, aggregate_of, park, deny, idempotency_key,
}

-- The body of the operation leaves no key that names an action which is not there: the database
-- enforces this foreign key on whatever a body writes.
abbrev pub KeepsReferences : Operation → Type 0
KeepsReferences op =
    (ctx : CallContext) (args : Json) (db : Db) (result : Json) (after : Db)
    → IsReferential db
    → op.fn ctx args db ≡ ok (result, after)
    → IsReferential after

module _ (rt : Runtime) (ctx : CallContext) (call : Call) (op : Operation)
    (named : op.name ≡ call.operation_name) (keeps : KeepsReferences op) where
  -- The key of the call names the action that was committed.
  abbrev pub Remembers : Result (Outcome × Db) → Type 0
  Remembers (ok (committed (some a) r, after)) =
      stored_action call.operation_name (idempotency_key rt ctx call) after ≡ some a
  Remembers _ = Unit {0}

  abbrev pub RemembersAttempt : Attempt → Type 0
  RemembersAttempt (performed a r after) =
      stored_action call.operation_name (idempotency_key rt ctx call) after ≡ some a
  RemembersAttempt _ = Unit {0}

  uncommitted-Remembers : (o : Outcome) (after : Db) → IsUncommitted o → Remembers (ok (o, after))
  uncommitted-Remembers (committed a r) after h = absurd h
  uncommitted-Remembers (replayed a) after h = tt
  uncommitted-Remembers (denied r e) after h = tt
  uncommitted-Remembers (waiting i t) after h = tt

  deny-Remembers :
      (reason : String) (detail : Json) (aggregate : Option (String × Uuid)) (d : Db)
      → Remembers (ok (deny rt ctx call reason detail aggregate d))
  deny-Remembers reason detail aggregate d =
      uncommitted-Remembers _ _ (deny-IsUncommitted rt ctx call reason detail aggregate d)

  park-Remembers : (version : String) (d : Db) → Remembers (ok (park rt ctx call version d))
  park-Remembers version d = uncommitted-Remembers _ _ (park-IsUncommitted rt ctx call version d)

  settle-Remembers :
      (d : Db) (aggregate : String × Uuid) (a : Attempt)
      → RemembersAttempt a
      → Remembers (settle_attempt rt ctx call op aggregate d a)
  unfolding settle_attempt
  settle-Remembers d aggregate (performed a r after) h = h
  settle-Remembers d aggregate unapproved h = park-Remembers (version_id rt op) d
  settle-Remembers d aggregate (failed (version_conflict e v)) h = deny-Remembers _ _ _ d
  settle-Remembers d aggregate (failed x) h = tt

  commit-Remembers :
      (r : Commit) (result : Json) (db : Db) (c : Result (Action × Db))
      → r.operation_name ≡ op.name
      → r.idempotency_key ≡ idempotency_key rt ctx call
      → IsReferential db
      → commit rt r db ≡ c
      → RemembersAttempt (committed_attempt result c)
  unfolding committed_attempt
  commit-Remembers r result db (raise x) same_name same_key h e = tt
  commit-Remembers r result db (ok (a, after)) same_name same_key h e =
      subst₂ (λ name key. stored_action name key after ≡ some a) (same_name ∙ named) same_key
        (stored_action-commit rt r db h e)

  after_body-Remembers :
      (level : Level) (aggregate : String × Uuid) (action_id : Uuid) (approval : Option Uuid)
      (args : Json) (db : Db) (r : Result (Json × Db))
      → IsReferential db
      → op.fn ctx args db ≡ r
      → RemembersAttempt
          (after_body rt (commit_request rt ctx call op level aggregate action_id approval args) r)
  unfolding after_body
  after_body-Remembers level aggregate action_id approval args db (raise x) h e = tt
  after_body-Remembers level aggregate action_id approval args db (ok (result, after)) h e =
      commit-Remembers _ result after _ refl refl (keeps ctx args db result after h e) refl

  perform-Remembers :
      (level : Level) (aggregate : String × Uuid) (action_id : Uuid) (args : Json)
      (approval : Option Uuid) (db : Db)
      → IsReferential db
      → RemembersAttempt (perform rt ctx call op level aggregate action_id args approval db)
  unfolding perform
  perform-Remembers level aggregate action_id args approval db h =
      after_body-Remembers level aggregate action_id approval args db (op.fn ctx args db) h refl

  perform_spent-Remembers :
      (aggregate : String × Uuid) (action_id : Uuid) (args : Json) (o : Option Uuid) (db : Db)
      → IsReferential db
      → RemembersAttempt (perform_spent rt ctx call op aggregate action_id args (o, db))
  unfolding perform_spent
  perform_spent-Remembers aggregate action_id args none db h = tt
  perform_spent-Remembers aggregate action_id args (some i) db h =
      perform-Remembers asks_first aggregate action_id args (some i) db h

  attempt-Remembers :
      (level : Level) (aggregate : String × Uuid) (action_id : Uuid) (args : Json) (db : Db)
      → IsReferential db
      → RemembersAttempt (attempt rt ctx call op level aggregate action_id args db)
  unfolding attempt spend_approval consume_approval
  attempt-Remembers asks_first aggregate action_id args db h =
      elim (Bool-cases (rt.is_canonical call.args)) [
        | inl canonical ↦
            rw (attempt, canonical) (perform_spent-Remembers aggregate action_id args _ _ h)
        | inr other ↦ rw (RemembersAttempt, attempt, other) tt
      ]
  attempt-Remembers may_use aggregate action_id args db h =
      perform-Remembers may_use aggregate action_id args none db h
  attempt-Remembers never aggregate action_id args db h =
      perform-Remembers never aggregate action_id args none db h

  write_to-Remembers :
      (args : Json) (level : Level) (db : Db) (aggregate : Result (String × Uuid))
      → IsReferential db
      → Remembers (write_to rt ctx call op args level db aggregate)
  unfolding write_to
  write_to-Remembers args level db (raise e) h = tt
  write_to-Remembers args level db (ok aggregate) h =
      settle-Remembers _ aggregate _
        (attempt-Remembers level aggregate (rt.uuid4 db.draws) args _ h)

  write_call-Remembers :
      (args : Json) (level : Level) (db : Db)
      → IsReferential db
      → Remembers (write_call rt ctx call op args level db)
  unfolding write_call
  write_call-Remembers args level db h =
      elim (Bool-cases (is_some op.aggregate && not (is_some call.expected_version))) [
        | inl e ↦ rw e (deny-Remembers _ _ _ db)
        | inr e ↦ rw e (write_to-Remembers args level db (aggregate_of rt op args) h)
      ]

  -- A read commits no action.
  read_result-Remembers :
      (args : Json) (r : Result (Json × Db)) → Remembers (read_result rt ctx op args r)
  unfolding read_result
  read_result-Remembers args (raise e) = tt
  read_result-Remembers args (ok (result, d)) = elim (Result-cases (aggregate_of rt op args)) [
    | inl (a, e) ↦ rw e tt
    | inr (x, e) ↦ rw e tt
  ]

  read_spent-Remembers :
      (args : Json) (o : Option Uuid) (d : Db) → Remembers (read_spent rt ctx call op args (o, d))
  unfolding read_spent
  read_spent-Remembers args none d = park-Remembers (version_id rt op) d
  read_spent-Remembers args (some i) d = read_result-Remembers args (op.fn ctx args d)

  read_call-Remembers :
      (args : Json) (level : Level) (db : Db) → Remembers (read_call rt ctx call op args level db)
  unfolding read_call
  read_call-Remembers args asks_first db = elim (Bool-cases (rt.is_canonical call.args)) [
    | inl canonical ↦ rw (read_call, canonical) (read_spent-Remembers args _ _)
    | inr other ↦ rw (Remembers, read_call, other) tt
  ]
  read_call-Remembers args may_use db = read_result-Remembers args (op.fn ctx args db)
  read_call-Remembers args never db = read_result-Remembers args (op.fn ctx args db)

  perform_mode-Remembers :
      (args : Json) (level : Level) (m : Mode) (db : Db)
      → IsReferential db
      → Remembers (perform_mode rt ctx call op args level m db)
  unfolding perform_mode
  perform_mode-Remembers args level read db h = read_call-Remembers args level db
  perform_mode-Remembers args level write db h = write_call-Remembers args level db h

  parsed_call-Remembers :
      (level : Level) (v : Validated) (db : Db)
      → IsReferential db
      → Remembers (parsed_call rt ctx call op level v db)
  unfolding parsed_call
  parsed_call-Remembers level (invalid errors) db h = deny-Remembers _ _ _ db
  parsed_call-Remembers level (valid args) db h = perform_mode-Remembers args level op.mode db h

  granted_call-Remembers :
      (level : Option Level) (db : Db)
      → IsReferential db
      → Remembers (granted_call rt ctx call op level db)
  unfolding granted_call
  granted_call-Remembers none db h = deny-Remembers _ _ _ db
  granted_call-Remembers (some never) db h = deny-Remembers _ _ _ db
  granted_call-Remembers (some may_use) db h = parsed_call-Remembers may_use _ db h
  granted_call-Remembers (some asks_first) db h = parsed_call-Remembers asks_first _ db h

  pub reserved_call-Remembers :
      (o : Option Action) (db : Db)
      → IsReferential db
      → Remembers (reserved_call rt ctx call op (o, db))
  unfolding reserved_call
  reserved_call-Remembers (some stored) db h = tt
  reserved_call-Remembers none db h = granted_call-Remembers _ db h
