-- ===== src/Dispatch/Refusals.antt =====
-- A refusal leaves one denial in the ledger and nothing else.
use agent_quilt.Base.{
  ℕ, suc, ◌≡◌, refl, not, Option, none, some, String, List, [], ◌∷◌, arith, Bool-cases, inl, inr,
  is_some, ◌&&◌, str_eq_refl,
}
use mathlib.Core.Path.{subst}
use agent_quilt.Base.Dict.{lookup}
use agent_quilt.Json.{Json, text, get}
use agent_quilt.Runtime.{Uuid, Runtime}
use agent_quilt.Store.{
  Db, Result, ok, raise, Result-cases, version_conflict, Level, may_use, asks_first, never, Event,
  denial, IdempotencyKey, Action, ApprovalState,
}
use agent_quilt.Identity.{ParkOutcome, asked, decided}
use agent_quilt.Identity.Spending.{consume_none}
use agent_quilt.Identity.Parking.{park_decided}
use agent_quilt.Ledger.{append, reserve_key}
use agent_quilt.Registry.{
  CallContext, Operation, Registry, Mode, read, write, Validated, valid, invalid, version_id,
}
use agent_quilt.Dispatch.{
  Call, Outcome, committed, replayed, denied, waiting, dispatch, deny, release_key, idempotency_key,
  park, park_at, parked_outcome, Attempt, performed, unapproved, failed, settle_attempt, write_to,
  write_call, read_call, read_spent, read_result, perform_mode, parsed_call, granted_call,
  reserved_call, known_call, reserve, spend_approval, aggregate_of,
}

-- The event is the denial of this call for this reason, and it is all that was added; the call's
-- reservation is gone.
pub record IsRefusal (rt : Runtime) (ctx : CallContext) (call : Call) (reason : String)
    (event : Event) (db after : Db) : Type 0 where
  pub kind : event.kind ≡ denial
  pub principal : event.principal_id ≡ ctx.principal_id
  pub operation : event.operation_name ≡ some call.operation_name
  pub says : get "reason" event.payload ≡ some (text reason)
  pub state : after ≡ record db {
    draws = after.draws;
    event_seq = suc db.event_seq;
    events = event ∷ db.events;
    keys = release_key call.operation_name (idempotency_key rt ctx call) db.keys;
  }

release_reserved :
    (name key : String) (ks : List IdempotencyKey)
    → release_key name key (reserve_key name key ks) ≡ release_key name key ks
release_reserved name key [] = ground (arith, str_eq_refl name, str_eq_refl key)
release_reserved name key (k ∷ ks) = ground (arith, release_reserved name key ks)

-- The result of a stage of a call, if it is a refusal, is one.
abbrev pub Refuses : Runtime → CallContext → Call → Db → Result (Outcome × Db) → Type 0
Refuses rt ctx call db (ok (denied reason event, after)) =
    IsRefusal rt ctx call reason event db after
Refuses rt ctx call db _ = Unit {0}

module _ (rt : Runtime) (ctx : CallContext) (call : Call) where
  deny-Refuses :
      (reason : String) (detail : Json) (aggregate : Option (String × Uuid)) (db : Db)
      → Refuses rt ctx call db (ok (deny rt ctx call reason detail aggregate db))
  unfolding deny append
  deny-Refuses reason detail aggregate db = record {
    kind = refl;
    principal = refl;
    operation = refl;
    says = refl;
    state = refl;
  }

  parked_outcome-Refuses :
      (p : ParkOutcome) (db after : Db)
      → ((s : ApprovalState) (r : Option String) → p ≡ decided s r → after ≡ db)
      → Refuses rt ctx call db (ok (parked_outcome rt ctx call (p, after)))
  unfolding parked_outcome
  parked_outcome-Refuses (asked a) db after h = tt
  parked_outcome-Refuses (decided s r) db after h = rw (h s r refl) (deny-Refuses _ _ _ db)

  park_at-Refuses :
      (version : String) (run_id : Option Uuid) (step_no : Option ℕ) (db : Db)
      → Refuses rt ctx call db (ok (park_at rt ctx call version run_id step_no db))
  unfolding park_at
  park_at-Refuses version (some run_id) (some step_no) db =
      parked_outcome-Refuses _ db _ (λ s r e. park_decided rt _ db e)
  park_at-Refuses version (some run_id) none db = deny-Refuses _ _ _ db
  park_at-Refuses version none step_no db = deny-Refuses _ _ _ db

  park-Refuses :
      (version : String) (db : Db) → Refuses rt ctx call db (ok (park rt ctx call version db))
  unfolding park
  park-Refuses version db = park_at-Refuses version ctx.run_id ctx.step_no db

  settle-Refuses :
      (op : Operation) (aggregate : String × Uuid) (db : Db) (a : Attempt)
      → Refuses rt ctx call db (settle_attempt rt ctx call op aggregate db a)
  unfolding settle_attempt
  settle-Refuses op aggregate db (performed action result after) = tt
  settle-Refuses op aggregate db unapproved = park-Refuses (version_id rt op) db
  settle-Refuses op aggregate db (failed (version_conflict expected actual)) = deny-Refuses _ _ _ db
  settle-Refuses op aggregate db (failed e) = tt

  -- A stage that began after a uuid was drawn.
  undrawn :
      (db : Db) (n : ℕ) (r : Result (Outcome × Db))
      → Refuses rt ctx call (record db { draws = n }) r
      → Refuses rt ctx call db r
  undrawn db n (ok (denied reason event, after)) h = record {
    kind = h.kind;
    principal = h.principal;
    operation = h.operation;
    says = h.says;
    state = h.state;
  }
  undrawn db n (ok (committed a r, after)) h = tt
  undrawn db n (ok (replayed a, after)) h = tt
  undrawn db n (ok (waiting i t, after)) h = tt
  undrawn db n (raise e) h = tt

  write_to-Refuses :
      (op : Operation) (args : Json) (level : Level) (db : Db) (aggregate : Result (String × Uuid))
      → Refuses rt ctx call db (write_to rt ctx call op args level db aggregate)
  unfolding write_to
  write_to-Refuses op args level db (raise e) = tt
  write_to-Refuses op args level db (ok aggregate) =
      undrawn db (suc db.draws) _
        (settle-Refuses op aggregate (record db { draws = suc db.draws }) _)

  write_call-Refuses :
      (op : Operation) (args : Json) (level : Level) (db : Db)
      → Refuses rt ctx call db (write_call rt ctx call op args level db)
  unfolding write_call
  write_call-Refuses op args level db =
      elim (Bool-cases (is_some op.aggregate && not (is_some call.expected_version))) [
        | inl e ↦ rw e (deny-Refuses _ _ _ db)
        | inr e ↦ rw e (write_to-Refuses op args level db (aggregate_of rt op args))
      ]

  read_result-Refuses :
      (op : Operation) (args : Json) (db : Db) (r : Result (Json × Db))
      → Refuses rt ctx call db (read_result rt ctx op args r)
  unfolding read_result
  read_result-Refuses op args db (raise e) = tt
  read_result-Refuses op args db (ok (result, after)) =
      elim (Result-cases (aggregate_of rt op args)) [ inl (a, e) ↦ rw e tt | inr (x, e) ↦ rw e tt ]

  read_spent-Refuses :
      (op : Operation) (args : Json) (db : Db) (o : Option Uuid) (after : Db)
      → (o ≡ none → after ≡ db)
      → Refuses rt ctx call db (read_spent rt ctx call op args (o, after))
  unfolding read_spent
  read_spent-Refuses op args db none after h = rw (h refl) (park-Refuses (version_id rt op) db)
  read_spent-Refuses op args db (some i) after h =
      read_result-Refuses op args db (op.fn ctx args after)

  read_call-Refuses :
      (op : Operation) (args : Json) (level : Level) (db : Db)
      → Refuses rt ctx call db (read_call rt ctx call op args level db)
  unfolding read_call spend_approval
  read_call-Refuses op args asks_first db = elim (Bool-cases (rt.is_canonical call.args)) [
    | inl canonical ↦
        rw (read_call, canonical) (read_spent-Refuses op args db _ _ (consume_none _ db))
    | inr other ↦ rw (Refuses, read_call, other) tt
  ]
  read_call-Refuses op args may_use db = read_result-Refuses op args db (op.fn ctx args db)
  read_call-Refuses op args never db = read_result-Refuses op args db (op.fn ctx args db)

  perform_mode-Refuses :
      (op : Operation) (args : Json) (level : Level) (m : Mode) (db : Db)
      → Refuses rt ctx call db (perform_mode rt ctx call op args level m db)
  unfolding perform_mode
  perform_mode-Refuses op args level read db = read_call-Refuses op args level db
  perform_mode-Refuses op args level write db = write_call-Refuses op args level db

  parsed_call-Refuses :
      (op : Operation) (level : Level) (v : Validated) (db : Db)
      → Refuses rt ctx call db (parsed_call rt ctx call op level v db)
  unfolding parsed_call
  parsed_call-Refuses op level (invalid errors) db = deny-Refuses _ _ _ db
  parsed_call-Refuses op level (valid args) db = perform_mode-Refuses op args level op.mode db

  granted_call-Refuses :
      (op : Operation) (level : Option Level) (db : Db)
      → Refuses rt ctx call db (granted_call rt ctx call op level db)
  unfolding granted_call
  granted_call-Refuses op none db = deny-Refuses _ _ _ db
  granted_call-Refuses op (some never) db = deny-Refuses _ _ _ db
  granted_call-Refuses op (some may_use) db = parsed_call-Refuses op may_use _ db
  granted_call-Refuses op (some asks_first) db = parsed_call-Refuses op asks_first _ db

  -- A stage that began after the key was reserved.
  unreserved :
      (db : Db) (r : Result (Outcome × Db))
      → Refuses rt ctx call
          (record db {
            keys = reserve_key call.operation_name (idempotency_key rt ctx call) db.keys;
          })
          r
      → Refuses rt ctx call db r
  unreserved db (ok (denied reason event, after)) h = record {
    kind = h.kind;
    principal = h.principal;
    operation = h.operation;
    says = h.says;
    state =
        rw (release_reserved call.operation_name (idempotency_key rt ctx call) db.keys) at h.state;
  }
  unreserved db (ok (committed a r, after)) h = tt
  unreserved db (ok (replayed a, after)) h = tt
  unreserved db (ok (waiting i t, after)) h = tt
  unreserved db (raise e) h = tt

  reserved_call-Refuses :
      (op : Operation) (o : Option Action) (db after : Db)
      → after
        ≡ record db { keys = reserve_key call.operation_name (idempotency_key rt ctx call) db.keys }
      → Refuses rt ctx call db (reserved_call rt ctx call op (o, after))
  unfolding reserved_call
  reserved_call-Refuses op (some stored) db after h = tt
  reserved_call-Refuses op none db after h =
      unreserved db _ (rw (← h) (granted_call-Refuses op _ after))

  known_call-Refuses :
      (o : Option Operation) (db : Db) → Refuses rt ctx call db (known_call rt ctx call o db)
  unfolding known_call reserve
  known_call-Refuses none db = deny-Refuses _ _ _ db
  known_call-Refuses (some op) db = reserved_call-Refuses op _ db _ refl

  -- Whatever refuses a call, the refusal is one denial by its reason: the call's reservation is
  -- gone, and beside it no table has changed but for the denial, the writes of the operation's body
  -- included.
  pub dispatch_denied :
      (registry : Registry) (db : Db) {reason : String} {event : Event} {after : Db}
      → dispatch rt registry ctx call db ≡ ok (denied reason event, after)
      → IsRefusal rt ctx call reason event db after
  unfolding dispatch
  dispatch_denied registry db h =
      subst (Refuses rt ctx call db) h (known_call-Refuses (lookup call.operation_name registry) db)
