-- ===== src/Dispatch/Outside.antt =====
-- A call from outside any run is answered at once: it is never left waiting for an approval.
use agent_quilt.Base.{
  not, Option, none, some, String, is_some, ◌&&◌, Bool-cases, inl, inr, ◌≡◌, ℕ, arith, find,
  eq_refl, List, [], ◌∷◌, refl,
}
use agent_quilt.Base.Dict.{lookup}
use agent_quilt.Json.{Json}
use agent_quilt.Runtime.{Uuid, Runtime}
use agent_quilt.Store.{
  Db, Result, ok, raise, IdempotencyKey, Level, may_use, asks_first, never, Action,
  version_conflict,
}
use agent_quilt.Ledger.{stored_action, is_key, reserve_key}
use agent_quilt.Registry.{
  CallContext, Operation, Registry, Mode, read, write, Validated, valid, invalid,
}
use agent_quilt.Dispatch.{
  Call, Outcome, committed, replayed, denied, waiting, Attempt, performed, unapproved, failed,
  settle_attempt, write_to, write_call, read_call, read_spent, read_result, audited, perform_mode,
  parsed_call, granted_call, reserved_call, known_call, dispatch, aggregate_of, park, park_at, deny,
  reserve, level_refusal, idempotency_key,
}

-- The dispatch ran the operation or refused it, where it returned.
abbrev pub IsAnswered : Result (Outcome × Db) → Type 0
IsAnswered (ok (committed a r, d)) = Unit {0}
IsAnswered (ok (denied reason e, d)) = Unit {0}
IsAnswered (ok (replayed a, d)) = ⊥
IsAnswered (ok (waiting a t, d)) = ⊥
IsAnswered (raise e) = Unit {0}

module _ (rt : Runtime) (ctx : CallContext) (call : Call) (outside : ctx.run_id ≡ none) where
  deny-IsAnswered :
      (reason : String) (detail : Json) (aggregate : Option (String × Uuid)) (d : Db)
      → IsAnswered (ok (deny rt ctx call reason detail aggregate d))
  unfolding deny
  deny-IsAnswered reason detail aggregate d = tt

  park_at-IsAnswered :
      (version : String) (run_id : Option Uuid) (step_no : Option ℕ) (d : Db)
      → run_id ≡ none
      → IsAnswered (ok (park_at rt ctx call version run_id step_no d))
  unfolding park_at
  park_at-IsAnswered version none n d e = deny-IsAnswered _ _ none d
  park_at-IsAnswered version (some i) n d e = absurd (ground (arith, e))

  park-IsAnswered : (version : String) (d : Db) → IsAnswered (ok (park rt ctx call version d))
  unfolding park
  park-IsAnswered version d = park_at-IsAnswered version ctx.run_id ctx.step_no d outside

  module _ (op : Operation) where
    settle_attempt-IsAnswered :
        (aggregate : String × Uuid) (d : Db) (a : Attempt)
        → IsAnswered (settle_attempt rt ctx call op aggregate d a)
    unfolding settle_attempt
    settle_attempt-IsAnswered aggregate d (performed action result after) = tt
    settle_attempt-IsAnswered aggregate d unapproved = park-IsAnswered _ d
    settle_attempt-IsAnswered aggregate d (failed (version_conflict e v)) = deny-IsAnswered _ _ _ d
    settle_attempt-IsAnswered aggregate d (failed e) = tt

    write_to-IsAnswered :
        (args : Json) (level : Level) (d : Db) (aggregate : Result (String × Uuid))
        → IsAnswered (write_to rt ctx call op args level d aggregate)
    unfolding write_to
    write_to-IsAnswered args level d (raise e) = tt
    write_to-IsAnswered args level d (ok aggregate) = settle_attempt-IsAnswered aggregate _ _

    write_call-IsAnswered :
        (args : Json) (level : Level) (d : Db) → IsAnswered (write_call rt ctx call op args level d)
    unfolding write_call
    write_call-IsAnswered args level d =
        elim (Bool-cases (is_some op.aggregate && not (is_some call.expected_version))) [
          | inl e ↦ rw e (deny-IsAnswered _ _ _ d)
          | inr e ↦ rw e (write_to-IsAnswered args level d (aggregate_of rt op args))
        ]

    audited-IsAnswered :
        (args result : Json) (d : Db) (aggregate : Result (String × Uuid))
        → IsAnswered (audited rt ctx op args result d aggregate)
    unfolding audited
    audited-IsAnswered args result d (raise e) = tt
    audited-IsAnswered args result d (ok (kind, i)) = tt

    read_result-IsAnswered :
        (args : Json) (r : Result (Json × Db)) → IsAnswered (read_result rt ctx op args r)
    unfolding read_result
    read_result-IsAnswered args (raise e) = tt
    read_result-IsAnswered args (ok (result, d)) =
        audited-IsAnswered args result d (aggregate_of rt op args)

    read_spent-IsAnswered :
        (args : Json) (o : Option Uuid × Db) → IsAnswered (read_spent rt ctx call op args o)
    unfolding read_spent
    read_spent-IsAnswered args (none, d) = park-IsAnswered _ d
    read_spent-IsAnswered args (some i, d) = read_result-IsAnswered args _

    perform_mode-IsAnswered :
        (args : Json) (level : Level) (m : Mode) (d : Db)
        → IsAnswered (perform_mode rt ctx call op args level m d)
    unfolding perform_mode read_call
    perform_mode-IsAnswered args asks_first read d = elim (Bool-cases (rt.is_canonical call.args)) [
      | inl canonical ↦ rw (perform_mode, read_call, canonical) (read_spent-IsAnswered args _)
      | inr other ↦ rw (IsAnswered, perform_mode, read_call, other) tt
    ]
    perform_mode-IsAnswered args may_use read d = read_result-IsAnswered args _
    perform_mode-IsAnswered args never read d = read_result-IsAnswered args _
    perform_mode-IsAnswered args level write d = write_call-IsAnswered args level d

    parsed_call-IsAnswered :
        (level : Level) (v : Validated) (d : Db) → IsAnswered (parsed_call rt ctx call op level v d)
    unfolding parsed_call
    parsed_call-IsAnswered level (invalid errors) d = deny-IsAnswered _ _ _ d
    parsed_call-IsAnswered level (valid args) d = perform_mode-IsAnswered args level op.mode d

    granted_call-IsAnswered :
        (level : Option Level) (d : Db) → IsAnswered (granted_call rt ctx call op level d)
    unfolding granted_call level_refusal
    granted_call-IsAnswered none d = deny-IsAnswered _ _ _ d
    granted_call-IsAnswered (some never) d = deny-IsAnswered _ _ _ d
    granted_call-IsAnswered (some may_use) d = parsed_call-IsAnswered may_use _ d
    granted_call-IsAnswered (some asks_first) d = parsed_call-IsAnswered asks_first _ d

    reserved_call-IsAnswered :
        (o : Option Action × Db) → o.0 ≡ none → IsAnswered (reserved_call rt ctx call op o)
    unfolding reserved_call
    reserved_call-IsAnswered (none, d) e = granted_call-IsAnswered _ d
    reserved_call-IsAnswered (some a, d) e = absurd (ground (arith, e))

  reserved_row :
      (name key : String) (ks : List IdempotencyKey)
      → find (is_key name key) ks ≡ none
      → find (is_key name key) (reserve_key name key ks)
        ≡ some (record { operation_name = name; idempotency_key = key; action_id = none })
  reserved_row name key [] fresh = rw (eq_refl name, eq_refl key) refl
  reserved_row name key (k ∷ ks) fresh = ground (arith, fresh, reserved_row name key ks)

  -- A key that no row has is reserved, and no action is stored under it.
  reserve_fresh :
      (key : String) (d : Db)
      → find (is_key call.operation_name key) d.keys ≡ none
      → (reserve call.operation_name key d).0 ≡ none
  unfolding reserve stored_action
  reserve_fresh key d fresh = rw (reserved_row call.operation_name key d.keys fresh) refl

  pub dispatch-IsAnswered :
      (registry : Registry) (d : Db)
      → find (is_key call.operation_name (idempotency_key rt ctx call)) d.keys ≡ none
      → IsAnswered (dispatch rt registry ctx call d)
  unfolding dispatch known_call
  dispatch-IsAnswered registry d fresh = known (lookup call.operation_name registry)
    where
      known : (o : Option Operation) → IsAnswered (known_call rt ctx call o d)
      known none = deny-IsAnswered _ _ _ d
      known (some op) =
          reserved_call-IsAnswered op (reserve call.operation_name (idempotency_key rt ctx call) d)
            (reserve_fresh (idempotency_key rt ctx call) d fresh)
