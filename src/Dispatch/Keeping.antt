-- ===== src/Dispatch/Keeping.antt =====
-- What a dispatch keeps of the runs and the queue: whatever the body of the operation keeps.
use agent_quilt.Base.{
  ◌≡◌, refl, not, Option, none, some, String, is_some, ◌&&◌, Bool-cases, inl, inr, Option-cases, ℕ,
  suc, find, sym,
}
use mathlib.Core.Path.{subst}
use agent_quilt.Base.Dict.{lookup}
use agent_quilt.Json.{Json}
use agent_quilt.Runtime.{Uuid, Runtime}
use agent_quilt.Store.{
  Db, Result, ok, raise, Level, may_use, asks_first, never, Action, version_conflict,
}
use agent_quilt.Store.Keeping.{SameWork, IsStable, Keeps}
use agent_quilt.Identity.{
  consume_approval, park_approval, is_continuation, Park, ParkOutcome, asked, decided,
}
use agent_quilt.Ledger.{Commit, commit, write_commit, chosen_id, append}
use agent_quilt.Ledger.Writes.{commit-eq-ok}
use agent_quilt.Registry.{
  CallContext, Operation, Registry, Mode, read, write, Validated, valid, invalid, version_id,
}
use agent_quilt.Dispatch.{
  Call, Attempt, performed, unapproved, failed, settle_attempt, write_to, write_call, read_call,
  read_spent, read_result, audited, perform_mode, parsed_call, granted_call, reserved_call,
  known_call, dispatch, spend_approval, attempt, perform, perform_spent, after_body,
  committed_attempt, aggregate_of, park, park_at, parked_outcome, deny, reserve, park_request,
  level_refusal,
}

abbrev pub KeepsAttempt : (Db → Type 0) → Attempt → Type 0
KeepsAttempt P (performed a r after) = P after
KeepsAttempt P _ = Unit {0}

-- The body, called in this context, keeps `P` where it returns.
abbrev pub BodyKeeps : (Db → Type 0) → CallContext → Operation → Type 0
BodyKeeps P ctx op = (args : Json) (db : Db) → P db → Keeps P (op.fn ctx args db)

chosen_id-SameWork : (rt : Runtime) (o : Option Uuid) (db : Db) → SameWork db (chosen_id rt o db).1
chosen_id-SameWork rt none db = (refl, refl)
chosen_id-SameWork rt (some a) db = (refl, refl)

write_commit-SameWork : (rt : Runtime) (r : Commit) (db : Db) → SameWork db (write_commit rt r db).1
unfolding write_commit
write_commit-SameWork rt r db = chosen_id-SameWork rt r.action_id db

commit-Keeps :
    (P : Db → Type 0)
    → IsStable P
    → (rt : Runtime) (r : Commit) (db : Db) (c : Result (Action × Db)) → P db
    → commit rt r db ≡ c
    → Keeps P c
commit-Keeps P stable rt r db (raise x) h e = tt
commit-Keeps P stable rt r db (ok (a, after)) h e = elim (commit-eq-ok rt r db e) [
  | inl (_, same) ↦ subst P (sym same) h
  | inr (_, _, written) ↦
      subst (λ (w : Action × Db). P w.1) written
        (stable db (write_commit rt r db).1 (write_commit-SameWork rt r db) h)
]

park_approval-SameWork : (rt : Runtime) (r : Park) (db : Db) → SameWork db (park_approval rt r db).1
unfolding park_approval
park_approval-SameWork rt r db = elim (Option-cases (find (is_continuation r) db.approvals)) [
  | inl e ↦ rw (e, park_approval) (refl, refl)
  | inr (a, e) ↦ rw (e, park_approval) (refl, refl)
]

module _ (P : Db → Type 0) (stable : IsStable P) (rt : Runtime) (ctx : CallContext)
    (call : Call) where
  deny-Keeps :
      (reason : String) (detail : Json) (aggregate : Option (String × Uuid)) (d : Db)
      → P d
      → P (deny rt ctx call reason detail aggregate d).1
  unfolding deny append
  deny-Keeps reason detail aggregate d h =
      stable d (deny rt ctx call reason detail aggregate d).1 (refl, refl) h

  parked-Keeps : (p : ParkOutcome × Db) → P p.1 → P (parked_outcome rt ctx call p).1
  unfolding parked_outcome
  parked-Keeps (asked a, d) h = h
  parked-Keeps (decided state reason, d) h = deny-Keeps _ _ _ d h

  park_at-Keeps :
      (version : String) (run_id : Option Uuid) (step_no : Option ℕ) (d : Db)
      → P d
      → P (park_at rt ctx call version run_id step_no d).1
  unfolding park_at
  park_at-Keeps version (some i) (some n) d h =
      let asking = park_request rt ctx call version i n in
      parked-Keeps (park_approval rt asking d)
        (stable d (park_approval rt asking d).1 (park_approval-SameWork rt asking d) h)
  park_at-Keeps version (some i) none d h = deny-Keeps _ _ _ d h
  park_at-Keeps version none n d h = deny-Keeps _ _ _ d h

  park-Keeps : (version : String) (d : Db) → P d → P (park rt ctx call version d).1
  unfolding park
  park-Keeps version d h = park_at-Keeps version ctx.run_id ctx.step_no d h

  module _ (op : Operation) (keeps : BodyKeeps P ctx op) where
    settle_attempt-Keeps :
        (aggregate : String × Uuid) (d : Db) (a : Attempt)
        → P d
        → KeepsAttempt P a
        → Keeps P (settle_attempt rt ctx call op aggregate d a)
    unfolding settle_attempt
    settle_attempt-Keeps aggregate d (performed action result after) h k = k
    settle_attempt-Keeps aggregate d unapproved h k = park-Keeps (version_id rt op) d h
    settle_attempt-Keeps aggregate d (failed (version_conflict e v)) h k = deny-Keeps _ _ _ d h
    settle_attempt-Keeps aggregate d (failed e) h k = tt

    after_body-Keeps :
        (request : Json → Commit) (r : Result (Json × Db))
        → Keeps P r
        → KeepsAttempt P (after_body rt request r)
    unfolding after_body committed_attempt
    after_body-Keeps request (raise e) h = tt
    after_body-Keeps request (ok (result, d)) h =
        committed (commit rt (request result) d)
          (commit-Keeps P stable rt (request result) d (commit rt (request result) d) h refl)
      where
        committed :
            (c : Result (Action × Db)) → Keeps P c → KeepsAttempt P (committed_attempt result c)
        committed (ok (a, after)) k = k
        committed (raise e) k = tt

    perform-Keeps :
        (level : Level) (aggregate : String × Uuid) (action_id : Uuid) (args : Json)
        (approval : Option Uuid) (d : Db)
        → P d
        → KeepsAttempt P (perform rt ctx call op level aggregate action_id args approval d)
    unfolding perform
    perform-Keeps level aggregate action_id args approval d h =
        after_body-Keeps _ _ (keeps args d h)

    perform_spent-Keeps :
        (aggregate : String × Uuid) (action_id : Uuid) (args : Json) (o : Option Uuid × Db)
        → P o.1
        → KeepsAttempt P (perform_spent rt ctx call op aggregate action_id args o)
    unfolding perform_spent
    perform_spent-Keeps aggregate action_id args (none, d) h = tt
    perform_spent-Keeps aggregate action_id args (some i, d) h =
        perform-Keeps asks_first aggregate action_id args (some i) d h

    attempt-Keeps :
        (level : Level) (aggregate : String × Uuid) (action_id : Uuid) (args : Json) (d : Db)
        → P d
        → KeepsAttempt P (attempt rt ctx call op level aggregate action_id args d)
    unfolding attempt spend_approval consume_approval
    attempt-Keeps asks_first aggregate action_id args d h =
        elim (Bool-cases (rt.is_canonical call.args)) [
          | inl canonical ↦
              rw (attempt, canonical)
                (perform_spent-Keeps aggregate action_id args _ (stable d _ (refl, refl) h))
          | inr other ↦ rw (KeepsAttempt, attempt, other) tt
        ]
    attempt-Keeps may_use aggregate action_id args d h =
        perform-Keeps may_use aggregate action_id args none d h
    attempt-Keeps never aggregate action_id args d h =
        perform-Keeps never aggregate action_id args none d h

    write_to-Keeps :
        (args : Json) (level : Level) (d : Db) (aggregate : Result (String × Uuid))
        → P d
        → Keeps P (write_to rt ctx call op args level d aggregate)
    unfolding write_to
    write_to-Keeps args level d (raise e) h = tt
    write_to-Keeps args level d (ok aggregate) h =
        let drawn : P (record d { draws = suc d.draws }) = stable d _ (refl, refl) h in
        settle_attempt-Keeps aggregate _ _ drawn
          (attempt-Keeps level aggregate (rt.uuid4 d.draws) args _ drawn)

    write_call-Keeps :
        (args : Json) (level : Level) (d : Db)
        → P d
        → Keeps P (write_call rt ctx call op args level d)
    unfolding write_call
    write_call-Keeps args level d h =
        elim (Bool-cases (is_some op.aggregate && not (is_some call.expected_version))) [
          | inl e ↦ rw e (deny-Keeps _ _ _ d h)
          | inr e ↦ rw e (write_to-Keeps args level d (aggregate_of rt op args) h)
        ]

    audited-Keeps :
        (args result : Json) (d : Db) (aggregate : Result (String × Uuid))
        → P d
        → Keeps P (audited rt ctx op args result d aggregate)
    unfolding audited append
    audited-Keeps args result d (raise e) h = tt
    audited-Keeps args result d (ok (kind, i)) h = stable d _ (refl, refl) h

    read_result-Keeps :
        (args : Json) (r : Result (Json × Db)) → Keeps P r → Keeps P (read_result rt ctx op args r)
    unfolding read_result
    read_result-Keeps args (raise e) h = tt
    read_result-Keeps args (ok (result, d)) h =
        audited-Keeps args result d (aggregate_of rt op args) h

    read_spent-Keeps :
        (args : Json) (o : Option Uuid × Db) → P o.1 → Keeps P (read_spent rt ctx call op args o)
    unfolding read_spent
    read_spent-Keeps args (none, d) h = park-Keeps (version_id rt op) d h
    read_spent-Keeps args (some i, d) h = read_result-Keeps args _ (keeps args d h)

    read_call-Keeps :
        (args : Json) (level : Level) (d : Db)
        → P d
        → Keeps P (read_call rt ctx call op args level d)
    unfolding read_call spend_approval consume_approval
    read_call-Keeps args asks_first d h = elim (Bool-cases (rt.is_canonical call.args)) [
      | inl canonical ↦
          rw (read_call, canonical) (read_spent-Keeps args _ (stable d _ (refl, refl) h))
      | inr other ↦ rw (Keeps, read_call, other) tt
    ]
    read_call-Keeps args may_use d h = read_result-Keeps args _ (keeps args d h)
    read_call-Keeps args never d h = read_result-Keeps args _ (keeps args d h)

    perform_mode-Keeps :
        (args : Json) (level : Level) (m : Mode) (d : Db)
        → P d
        → Keeps P (perform_mode rt ctx call op args level m d)
    unfolding perform_mode
    perform_mode-Keeps args level read d h = read_call-Keeps args level d h
    perform_mode-Keeps args level write d h = write_call-Keeps args level d h

    parsed_call-Keeps :
        (level : Level) (v : Validated) (d : Db)
        → P d
        → Keeps P (parsed_call rt ctx call op level v d)
    unfolding parsed_call
    parsed_call-Keeps level (invalid errors) d h = deny-Keeps _ _ _ d h
    parsed_call-Keeps level (valid args) d h = perform_mode-Keeps args level op.mode d h

    granted_call-Keeps :
        (level : Option Level) (d : Db) → P d → Keeps P (granted_call rt ctx call op level d)
    unfolding granted_call level_refusal
    granted_call-Keeps none d h = deny-Keeps _ _ _ d h
    granted_call-Keeps (some never) d h = deny-Keeps _ _ _ d h
    granted_call-Keeps (some may_use) d h = parsed_call-Keeps may_use _ d h
    granted_call-Keeps (some asks_first) d h = parsed_call-Keeps asks_first _ d h

    reserved_call-Keeps :
        (o : Option Action × Db) → P o.1 → Keeps P (reserved_call rt ctx call op o)
    unfolding reserved_call
    reserved_call-Keeps (some stored, d) h = h
    reserved_call-Keeps (none, d) h = granted_call-Keeps _ d h

  known_call-Keeps :
      (o : Option Operation) (d : Db)
      → ((op : Operation) → o ≡ some op → BodyKeeps P ctx op)
      → P d
      → Keeps P (known_call rt ctx call o d)
  unfolding known_call reserve
  known_call-Keeps none d keeps h = deny-Keeps _ _ _ d h
  known_call-Keeps (some op) d keeps h =
      reserved_call-Keeps op (keeps op refl) _ (stable d _ (refl, refl) h)

  -- Whatever a dispatch does, what depends on the runs and the queue alone is kept, where the body of
  -- the called operation keeps it.
  pub dispatch-Keeps :
      (registry : Registry) (d : Db)
      → ((name : String) (op : Operation) → lookup name registry ≡ some op → BodyKeeps P ctx op)
      → P d
      → Keeps P (dispatch rt registry ctx call d)
  unfolding dispatch
  dispatch-Keeps registry d keeps h =
      known_call-Keeps (lookup call.operation_name registry) d (keeps call.operation_name) h
