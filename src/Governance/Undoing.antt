-- ===== src/Governance/Undoing.antt =====
-- The reversal of a committed action, as the body of an operation: what it keeps of runs and queue.
use agent_quilt.Base.{
  ◌≡◌, true, Option, none, some, is_some, Bool-cases, Option-cases, inl, inr, String,
}
use agent_quilt.Json.{Json, JsonValue}
use agent_quilt.Runtime.{Uuid, Runtime}
use agent_quilt.Store.{
  Db, Session, Result, ok, raise, Run, Action, OperationVersion, AgentDefinition, MessageKind, prod,
}
use agent_quilt.Store.Keeping.{Keeps}
use agent_quilt.Runs.{create, post, Posted}
use agent_quilt.Runs.Scheduling.{IsScheduled}
use agent_quilt.Runs.Creating.{create-IsScheduled}
use agent_quilt.Runs.Keeping.{post-IsScheduled}
use agent_quilt.Runs.Lifecycle.{Follows, Follows-refl, Keeps-Follows, create-Follows, post-Follows}
use agent_quilt.Registry.{CallContext}
use agent_quilt.Governance.{undo_posted, start_undo, undo_as, undo_target, undo_action, newest}

-- An undo changes the runs and the queue as a new run and a message to it do.
module _ (P : Db → Type 0) (rt : Runtime) (s : Session) (json_dumps : JsonValue → String) (db : Db)
    (h : P db) (creates : (d : AgentDefinition) → Keeps P (create rt s d none prod db))
    (posts : (i : Uuid) (kind : MessageKind) (body : Json) (d : Db)
      → P d
      → Keeps P (post rt s i kind body d)) where
  undo_posted-Keeps :
      (i : Uuid) (compensator : String) (r : Result (Posted × Db))
      → Keeps P r
      → Keeps P (undo_posted rt i compensator r)
  unfolding undo_posted
  undo_posted-Keeps i compensator (raise e) k = tt
  undo_posted-Keeps i compensator (ok (p, d)) k = k

  start_undo-Keeps :
      (message compensator : String) (r : Result (Run × Db))
      → Keeps P r
      → Keeps P (start_undo rt s message compensator r)
  unfolding start_undo
  start_undo-Keeps message compensator (raise e) k = tt
  start_undo-Keeps message compensator (ok (r, d)) k =
      undo_posted-Keeps r.id compensator _ (posts r.id _ _ d k)

  undo_as-Keeps :
      (a : Action) (v : OperationVersion) (c : Option String) (d : Option AgentDefinition)
      → Keeps P (undo_as rt s json_dumps a v c d db)
  unfolding undo_as
  undo_as-Keeps a v none d = h
  undo_as-Keeps a v (some c) none = tt
  undo_as-Keeps a v (some c) (some d) = start_undo-Keeps _ c _ (creates d)

  undo_action-Keeps :
      (ctx : CallContext) (i : Uuid) → Keeps P (undo_action rt s json_dumps ctx i db)
  unfolding undo_action
  undo_action-Keeps ctx i = elim (Bool-cases (is_some ctx.run_id)) [
    | inl e ↦ rw (Keeps, undo_action, e) tt
    | inr e ↦ elim (Option-cases (undo_target i db)) [
      | inl missing ↦ rw (Keeps, undo_action, e, missing) h
      | inr ((a, v), found) ↦
          rw (undo_action, e, found) (undo_as-Keeps a v a.compensator_ref (newest db.definitions))
    ]
  ]

pub undo_action-IsScheduled :
    (rt : Runtime) (s : Session) (json_dumps : JsonValue → String) (ctx : CallContext) (i : Uuid)
    (db : Db)
    → IsScheduled db
    → Keeps IsScheduled (undo_action rt s json_dumps ctx i db)
undo_action-IsScheduled rt s json_dumps ctx i db h =
    undo_action-Keeps IsScheduled rt s json_dumps db h
      (λ d. create-IsScheduled rt s d none prod db h)
      (λ j kind body d. post-IsScheduled rt s j kind body d) ctx i

pub undo_action-Follows :
    (rt : Runtime) (s : Session) (json_dumps : JsonValue → String) (ctx : CallContext) (i : Uuid)
    (db : Db)
    → Keeps (Follows db) (undo_action rt s json_dumps ctx i db)
undo_action-Follows rt s json_dumps ctx i db =
    undo_action-Keeps (Follows db) rt s json_dumps db (Follows-refl db)
      (λ d. create-Follows rt s d none prod db)
      (λ j kind body d k. Keeps-Follows db d _ k (post-Follows rt s j kind body d)) ctx i

-- From inside a run it raises, and keeps everything.
pub undo_action-inside :
    (P : Db → Type 0) (rt : Runtime) (s : Session) (json_dumps : JsonValue → String)
    (ctx : CallContext) (i : Uuid) (db : Db)
    → is_some ctx.run_id ≡ true
    → Keeps P (undo_action rt s json_dumps ctx i db)
unfolding undo_action
undo_action-inside P rt s json_dumps ctx i db e = rw (Keeps, undo_action, e) tt
