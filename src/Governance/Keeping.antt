-- ===== src/Governance/Keeping.antt =====
-- The answer to a parked call, as the body of an operation: what it keeps of runs and queue.
use agent_quilt.Base.{◌≡◌, Bool, true, Option, none, some, is_some, Bool-cases, inl, inr, sym}
use mathlib.Core.Path.{subst}
use agent_quilt.Store.{Db, Result, ok, raise, Approval, find_approval, find_principal, is_requested}
use agent_quilt.Store.Keeping.{Keeps}
use agent_quilt.Runs.Scheduling.{IsScheduled}
use agent_quilt.Runs.Lifecycle.{Follows, Follows-refl}
use agent_quilt.Tick.{hand_back}
use agent_quilt.Tick.Expiry.{hand_back-IsScheduled}
use agent_quilt.Tick.Lifecycle.{hand_back-Follows}
use agent_quilt.Registry.{CallContext}
use agent_quilt.Governance.{
  DecideApproval, may_decide, answer_row, decided, decide_row, decide_approval,
}

-- An answer changes the runs and the queue as the hand-back does.
module _ (P : Db → Type 0) (ctx : CallContext) (args : DecideApproval) (db : Db) (h : P db)
    (hands : (a : Approval)
      → Keeps P (
          hand_back a.run_id a.step_no
            (record db { approvals = answer_row ctx.principal_id args db.approvals }))) where
  decided-Keeps : (r : Result (Bool × Db)) → Keeps P r → Keeps P (decided args.decision r)
  unfolding decided
  decided-Keeps (ok (b, after)) k = k
  decided-Keeps (raise e) k = tt

  decide_row-Keeps : (o : Option Approval) → Keeps P (decide_row ctx args o db)
  unfolding decide_row
  decide_row-Keeps none = h
  decide_row-Keeps (some a) = elim (Bool-cases (is_requested a.state)) [
    | inr e ↦ rw (Keeps, decide_row, e) h
    | inl e ↦ rw (decide_row, e) (decided-Keeps _ (hands a))
  ]

  decide_approval-Keeps : Keeps P (decide_approval ctx args db)
  unfolding decide_approval
  decide_approval-Keeps = elim (Bool-cases (is_some ctx.run_id)) [
    | inl e ↦ rw (Keeps, decide_approval, e) tt
    | inr e ↦ elim (Bool-cases (may_decide (find_principal ctx.principal_id db.principals))) [
      | inr f ↦ rw (Keeps, decide_approval, e, f) tt
      | inl f ↦
          rw (decide_approval, e, f)
            (decide_row-Keeps (find_approval args.approval_id db.approvals))
    ]
  ]

pub decide_approval-IsScheduled :
    (ctx : CallContext) (args : DecideApproval) (db : Db)
    → IsScheduled db
    → Keeps IsScheduled (decide_approval ctx args db)
decide_approval-IsScheduled ctx args db h = decide_approval-Keeps IsScheduled ctx args db h (λ a.
    let (after, e, agrees, _, _) =
      hand_back-IsScheduled a.run_id a.step_no
        (record db { approvals = answer_row ctx.principal_id args db.approvals }) h in
    subst (Keeps IsScheduled) (sym e) agrees)

pub decide_approval-Follows :
    (ctx : CallContext) (args : DecideApproval) (db : Db)
    → Keeps (Follows db) (decide_approval ctx args db)
decide_approval-Follows ctx args db =
    decide_approval-Keeps (Follows db) ctx args db (Follows-refl db) (λ a.
      hand_back-Follows a.run_id a.step_no
        (record db { approvals = answer_row ctx.principal_id args db.approvals }))

-- From inside a run it raises, and keeps everything.
pub decide_approval-inside :
    (P : Db → Type 0) (ctx : CallContext) (args : DecideApproval) (db : Db)
    → is_some ctx.run_id ≡ true
    → Keeps P (decide_approval ctx args db)
unfolding decide_approval
decide_approval-inside P ctx args db e = rw (Keeps, decide_approval, e) tt
