-- ===== src/Dispatch/Permission.antt =====
-- A call's body runs only where the principal and the ceiling allow it, or a person does.
use mathlib.Core.List.{Mem}
use mathlib.Core.Path.{subst}
use agent_quilt.Base.{
  ◌≡◌, refl, not, Option, none, some, String, is_some, ◌&&◌, Bool-cases, Option-cases, inl, inr,
}
use agent_quilt.Base.Dict.{lookup}
use agent_quilt.Json.{Json}
use agent_quilt.Runtime.{Uuid, Runtime}
use agent_quilt.Store.{
  Db, Result, ok, raise, Level, may_use, asks_first, never, Approval, Action, version_conflict,
}
use agent_quilt.Identity.{Consume, args_hash, effective_grants}
use agent_quilt.Identity.Spending.{IsBound, consume_sound}
use agent_quilt.Registry.{
  CallContext, Operation, Registry, Mode, read, write, Validated, valid, invalid, version_id,
}
use agent_quilt.Dispatch.Uncommitted.{IsUncommitted, deny-IsUncommitted, park-IsUncommitted}
use agent_quilt.Dispatch.{
  Call, Outcome, committed, replayed, denied, waiting, dispatch, Attempt, performed, unapproved,
  failed, settle_attempt, write_to, write_call, read_call, read_spent, perform_mode, parsed_call,
  granted_call, reserved_call, known_call, reserve, spend_approval, attempt, perform_spent,
  aggregate_of, granted_level, park, deny,
}

-- The approval that a call asks for.
abbrev pub wanted : Runtime → CallContext → Call → Operation → Option Uuid → Consume
wanted rt ctx call op action_id = record {
  granted_to = ctx.principal_id;
  operation_version_id = version_id rt op;
  args_hash = args_hash rt (version_id rt op) call.args "";
  action_id = action_id;
  now = ctx.clock 0;
}

-- The call may run outright, or it may ask and an open approval of exactly this call is at hand.
pub data Permitted (rt : Runtime) (ctx : CallContext) (call : Call) (op : Operation)
    (level : Option Level) (db : Db) : Type 0 where
  outright : level ≡ some may_use → Permitted rt ctx call op level db
  approved :
      level ≡ some asks_first
      → (action_id : Option Uuid) (a : Approval) → Mem a db.approvals
      → IsBound (wanted rt ctx call op action_id) a
      → Permitted rt ctx call op level db

granted_level_same :
    (ctx : CallContext) (name : String) (d db : Db)
    → d.grants ≡ db.grants
    → granted_level ctx name d ≡ granted_level ctx name db
unfolding granted_level effective_grants
granted_level_same ctx name d db e = rw e

-- The result, if there is one, has committed nothing.
abbrev Unknown : Result (Outcome × Db) → Type 0
Unknown (ok (o, after)) = IsUncommitted o
Unknown (raise e) = Unit {0}

module _ (rt : Runtime) (ctx : CallContext) (call : Call) (op : Operation) where
  abbrev Permits : Option Level → Db → Result (Outcome × Db) → Type 0
  Permits level db (ok (committed a r, after)) = Permitted rt ctx call op level db
  Permits level db _ = Unit {0}

  abbrev PermitsAttempt : Option Level → Db → Attempt → Type 0
  PermitsAttempt level db (performed a r after) = Permitted rt ctx call op level db
  PermitsAttempt level db _ = Unit {0}

  uncommitted-Permits :
      (level : Option Level) (db : Db) (o : Outcome) (after : Db)
      → IsUncommitted o
      → Permits level db (ok (o, after))
  uncommitted-Permits level db (committed a r) after h = absurd h
  uncommitted-Permits level db (replayed a) after h = tt
  uncommitted-Permits level db (denied r e) after h = tt
  uncommitted-Permits level db (waiting i t) after h = tt

  deny-Permits :
      (level : Option Level) (db d : Db) (reason : String) (detail : Json)
      (aggregate : Option (String × Uuid))
      → Permits level db (ok (deny rt ctx call reason detail aggregate d))
  deny-Permits level db d reason detail aggregate =
      uncommitted-Permits level db _ _ (deny-IsUncommitted rt ctx call reason detail aggregate d)

  park-Permits :
      (level : Option Level) (db d : Db) (version : String)
      → Permits level db (ok (park rt ctx call version d))
  park-Permits level db d version =
      uncommitted-Permits level db _ _ (park-IsUncommitted rt ctx call version d)

  settle-Permits :
      (level : Option Level) (db d : Db) (aggregate : String × Uuid) (a : Attempt)
      → PermitsAttempt level db a
      → Permits level db (settle_attempt rt ctx call op aggregate d a)
  unfolding settle_attempt
  settle-Permits level db d aggregate (performed a r after) h = h
  settle-Permits level db d aggregate unapproved h = park-Permits level db d (version_id rt op)
  settle-Permits level db d aggregate (failed (version_conflict e v)) h =
      deny-Permits level db d _ _ _
  settle-Permits level db d aggregate (failed x) h = tt

  any_attempt :
      (level : Option Level) (db : Db) (a : Attempt)
      → Permitted rt ctx call op level db
      → PermitsAttempt level db a
  any_attempt level db (performed a r after) h = h
  any_attempt level db unapproved h = tt
  any_attempt level db (failed e) h = tt

  any_result :
      (level : Option Level) (db : Db) (r : Result (Outcome × Db))
      → Permitted rt ctx call op level db
      → Permits level db r
  any_result level db (ok (committed a r, after)) h = h
  any_result level db (ok (replayed a, after)) h = tt
  any_result level db (ok (denied a e, after)) h = tt
  any_result level db (ok (waiting i t, after)) h = tt
  any_result level db (raise e) h = tt

  spent-Permitted :
      (db d : Db) (action_id : Option Uuid) (i : Uuid)
      → d.approvals ≡ db.approvals
      → (spend_approval rt ctx call (version_id rt op) action_id d).0 ≡ some i
      → Permitted rt ctx call op (some asks_first) db
  unfolding spend_approval
  spent-Permitted db d action_id i same e =
      let (a, m, _, bound) = consume_sound (wanted rt ctx call op action_id) d i e in
      approved refl action_id a (rw (← same) m) bound

  perform_spent-Permits :
      (db d : Db) (aggregate : String × Uuid) (action_id : Uuid) (args : Json) (o : Option Uuid)
      → ((i : Uuid) → o ≡ some i → Permitted rt ctx call op (some asks_first) db)
      → PermitsAttempt
          (some asks_first)
          db
          (perform_spent rt ctx call op aggregate action_id args (o, d))
  unfolding perform_spent
  perform_spent-Permits db d aggregate action_id args none h = tt
  perform_spent-Permits db d aggregate action_id args (some i) h =
      any_attempt (some asks_first) db _ (h i refl)

  -- The level is one that grants.
  abbrev Grants : Level → Type 0
  Grants never = ⊥
  Grants _ = Unit {0}

  attempt-Permits :
      (level : Level) (db d : Db) (aggregate : String × Uuid) (action_id : Uuid) (args : Json)
      → Grants level
      → d.approvals ≡ db.approvals
      → PermitsAttempt (some level) db (attempt rt ctx call op level aggregate action_id args d)
  unfolding attempt
  attempt-Permits asks_first db d aggregate action_id args g same =
      elim (Bool-cases (rt.is_canonical call.args)) [
        | inl canonical ↦
            rw (attempt, canonical)
              (perform_spent-Permits db _ aggregate action_id args _
                (λ i e. spent-Permitted db d (some action_id) i same e))
        | inr other ↦ rw (PermitsAttempt, attempt, other) tt
      ]
  attempt-Permits may_use db d aggregate action_id args g same =
      any_attempt (some may_use) db _ (outright refl)
  attempt-Permits never db d aggregate action_id args g same = absurd g

  write_to-Permits :
      (args : Json) (level : Level) (db d : Db) (aggregate : Result (String × Uuid))
      → Grants level
      → d.approvals ≡ db.approvals
      → Permits (some level) db (write_to rt ctx call op args level d aggregate)
  unfolding write_to
  write_to-Permits args level db d (raise e) g same = tt
  write_to-Permits args level db d (ok aggregate) g same =
      settle-Permits (some level) db _ aggregate _
        (attempt-Permits level db _ aggregate (rt.uuid4 d.draws) args g same)

  write_call-Permits :
      (args : Json) (level : Level) (db d : Db)
      → Grants level
      → d.approvals ≡ db.approvals
      → Permits (some level) db (write_call rt ctx call op args level d)
  unfolding write_call
  write_call-Permits args level db d g same =
      elim (Bool-cases (is_some op.aggregate && not (is_some call.expected_version))) [
        | inl e ↦ rw e (deny-Permits (some level) db d _ _ _)
        | inr e ↦ rw e (write_to-Permits args level db d (aggregate_of rt op args) g same)
      ]

  read_spent-Permits :
      (args : Json) (db d : Db) (o : Option Uuid)
      → ((i : Uuid) → o ≡ some i → Permitted rt ctx call op (some asks_first) db)
      → Permits (some asks_first) db (read_spent rt ctx call op args (o, d))
  unfolding read_spent
  read_spent-Permits args db d none h = park-Permits (some asks_first) db d (version_id rt op)
  read_spent-Permits args db d (some i) h = any_result (some asks_first) db _ (h i refl)

  read_call-Permits :
      (args : Json) (level : Level) (db d : Db)
      → Grants level
      → d.approvals ≡ db.approvals
      → Permits (some level) db (read_call rt ctx call op args level d)
  unfolding read_call
  read_call-Permits args asks_first db d g same = elim (Bool-cases (rt.is_canonical call.args)) [
    | inl canonical ↦
        rw (read_call, canonical)
          (read_spent-Permits args db _ _ (λ i e. spent-Permitted db d none i same e))
    | inr other ↦ rw (Permits, read_call, other) tt
  ]
  read_call-Permits args may_use db d g same = any_result (some may_use) db _ (outright refl)
  read_call-Permits args never db d g same = absurd g

  perform_mode-Permits :
      (args : Json) (level : Level) (m : Mode) (db d : Db)
      → Grants level
      → d.approvals ≡ db.approvals
      → Permits (some level) db (perform_mode rt ctx call op args level m d)
  unfolding perform_mode
  perform_mode-Permits args level read db d g same = read_call-Permits args level db d g same
  perform_mode-Permits args level write db d g same = write_call-Permits args level db d g same

  parsed_call-Permits :
      (level : Level) (v : Validated) (db d : Db)
      → Grants level
      → d.approvals ≡ db.approvals
      → Permits (some level) db (parsed_call rt ctx call op level v d)
  unfolding parsed_call
  parsed_call-Permits level (invalid errors) db d g same = deny-Permits (some level) db d _ _ _
  parsed_call-Permits level (valid args) db d g same =
      perform_mode-Permits args level op.mode db d g same

  granted_call-Permits :
      (level : Option Level) (db d : Db)
      → d.approvals ≡ db.approvals
      → Permits level db (granted_call rt ctx call op level d)
  unfolding granted_call
  granted_call-Permits none db d same = deny-Permits none db d _ _ _
  granted_call-Permits (some never) db d same = deny-Permits (some never) db d _ _ _
  granted_call-Permits (some may_use) db d same = parsed_call-Permits may_use _ db d tt same
  granted_call-Permits (some asks_first) db d same = parsed_call-Permits asks_first _ db d tt same

  reserved_call-Permits :
      (o : Option Action) (db d : Db)
      → d.approvals ≡ db.approvals
      → d.grants ≡ db.grants
      → Permits (granted_level ctx call.operation_name db) db (reserved_call rt ctx call op (o, d))
  unfolding reserved_call granted_level
  reserved_call-Permits (some stored) db d same grants = tt
  reserved_call-Permits none db d same grants =
      subst
        (λ l.
          Permits l db (granted_call rt ctx call op (granted_level ctx call.operation_name d) d))
        (granted_level_same ctx call.operation_name d db grants)
        (granted_call-Permits (granted_level ctx call.operation_name d) db d same)

-- A call that ran was of a declared operation, which the principal's grants and the run's ceiling
-- let it make outright, or let it ask for while an open approval in the table was bound to this
-- principal, operation version and arguments and had not run out.
pub dispatch-Permitted :
    (rt : Runtime) (registry : Registry) (ctx : CallContext) (call : Call) (db : Db)
    {action : Option Action} {result : Json} {after : Db}
    → dispatch rt registry ctx call db ≡ ok (committed action result, after)
    → (op : Operation) × (lookup call.operation_name registry ≡ some op)
      × Permitted rt ctx call op (granted_level ctx call.operation_name db) db
unfolding dispatch known_call reserve
dispatch-Permitted rt registry ctx call db h =
    elim (Option-cases (lookup call.operation_name registry)) [
      | inl missing ↦ absurd (
          subst (λ r. Unknown r) (rw (missing, dispatch, known_call) at h)
            (deny-IsUncommitted rt ctx call _ _ _ db))
      | inr (op, declared) ↦ (
        op,
        declared,
        subst (Permits rt ctx call op (granted_level ctx call.operation_name db) db)
            (rw (declared, dispatch, known_call) at h)
            (reserved_call-Permits rt ctx call op _ db _ refl refl),
      )
    ]
