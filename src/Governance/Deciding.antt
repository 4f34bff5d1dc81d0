-- ===== src/Governance/Deciding.antt =====
-- Who may answer a parked call, and what an answer changes.
use agent_quilt.Base.{
  ◌≡◌, ◌↔◌, ◌==◌, refl, Bool, true, false, some, is_some, List, Bool-cases, Option-cases, inl, inr,
  ◌⊎◌, arith, find-update_where, find_holds, if◌then◌else◌, ap,
}
use mathlib.Core.Option
use agent_quilt.Json.{Json, field, boolean, text, end}
use agent_quilt.Runtime.{Uuid}
use agent_quilt.Store.{
  Db, ok, raise, Raised, Approval, find_approval, find_principal, is_requested, is_waiting, queued,
  waiting_approval, opened, rejected, Run, find_run,
}
use agent_quilt.Runs.{is_moved}
use agent_quilt.Runs.Scheduling.{IsScheduled, state_at}
use agent_quilt.Tick.Expiry.{hand_back-IsScheduled}
use agent_quilt.Registry.{CallContext}
use agent_quilt.Governance.{
  DecideApproval, Decision, approve, reject, answer, may_decide, undecided, decided_json, decided,
  answer_row, decide_row, decide_approval, decided_inside, not_decider,
}

-- A call from inside a run, or by a principal of another class than user and system, is refused,
-- whatever the approval is.
pub decide_refused :
    (ctx : CallContext) (args : DecideApproval) (db : Db)
    → (is_some ctx.run_id ≡ true)
      ⊎ (may_decide (find_principal ctx.principal_id db.principals) ≡ false)
    → (e : Raised) × (decide_approval ctx args db ≡ raise e)
unfolding decide_approval
decide_refused ctx args db (inl e) = (decided_inside, rw e refl)
decide_refused ctx args db (inr e) = elim (Bool-cases (is_some ctx.run_id)) [
  | inl inside ↦ (decided_inside, rw inside refl)
  | inr outside ↦ (not_decider, rw (outside, e) refl)
]

-- The approval with the answer on it: an approval opens it in the decider's name, a rejection closes it
-- with the reason that was given.
abbrev pub IsAnswered : Uuid → DecideApproval → Decision → Approval → Approval → Type 0
IsAnswered by args approve a b =
    (b.state ≡ opened) × (b.granted_by ≡ some by) × (b.reason ≡ a.reason)
IsAnswered by args reject a b =
    (b.state ≡ rejected) × (b.granted_by ≡ a.granted_by) × (b.reason ≡ args.reason)

-- What the decider is told.
abbrev pub reply : Decision → Bool → Json
reply approve moved =
    field "decided" (boolean true)
      (field "state" (text "open") (field "run_queued" (boolean moved) end))
reply reject moved =
    field "decided" (boolean true)
      (field "state" (text "rejected") (field "run_queued" (boolean moved) end))

-- What the answer leaves of the call that it is bound to.
abbrev pub IsSameCall : Approval → Approval → Type 0
IsSameCall a b =
    (b.id ≡ a.id)
    × (b.granted_to ≡ a.granted_to)
    × (b.operation_version_id ≡ a.operation_version_id)
    × (b.args_hash ≡ a.args_hash)
    × (b.expires_at ≡ a.expires_at)

answer-IsAnswered :
    (by : Uuid) (args : DecideApproval) (a : Approval) (d : Decision)
    → args.decision ≡ d
    → IsAnswered by args d a (answer by args a) × IsSameCall a (answer by args a)
answer-IsAnswered by args a approve e = rw e ((refl, refl, refl), (refl, refl, refl, refl, refl))
answer-IsAnswered by args a reject e = rw e ((refl, refl, refl), (refl, refl, refl, refl, refl))

decided-reply : (d : Decision) (moved : Bool) → decided_json d moved ≡ reply d moved
decided-reply approve moved = refl
decided-reply reject moved = refl

answer-id : (by : Uuid) (args : DecideApproval) (a : Approval) → (answer by args a).id ≡ a.id
answer-id by args a = go args.decision refl
  where
    go : (d : Decision) → args.decision ≡ d → (answer by args a).id ≡ a.id
    go approve e = rw e refl
    go reject e = rw e refl

find-answer_row :
    (by : Uuid) (args : DecideApproval) (j : Uuid) (rows : List Approval)
    → find_approval j (answer_row by args rows)
      ≡ Option.map
          (λ a. if a.id == args.approval_id then answer by args a else a)
          (find_approval j rows)
find-answer_row by args j rows =
    find-update_where (λ (a : Approval). a.id == j) (λ a. a.id == args.approval_id) (answer by args)
      rows (λ a. rw (answer-id by args a) refl)

-- The approvals after an answer: the one that was answered, and the others as they were.
abbrev pub Answers : Uuid → DecideApproval → Approval → List Approval → List Approval → Type 0
Answers by args a rows after =
    ((b : Approval) × (find_approval args.approval_id after ≡ some b)
      × IsAnswered by args args.decision a b
      × IsSameCall a b)
    × ((j : Uuid) → (args.approval_id == j) ≡ false → find_approval j after ≡ find_approval j rows)

answer_row-Answers :
    (by : Uuid) (args : DecideApproval) (a : Approval) (rows : List Approval)
    → find_approval args.approval_id rows ≡ some a
    → Answers by args a rows (answer_row by args rows)
answer_row-Answers by args a rows found = (
  (
    answer by args a,
    rw (find-answer_row by args args.approval_id rows, found)
        (ground (arith, find_holds (λ (x : Approval). x.id == args.approval_id) rows a found)),
    (answer-IsAnswered by args a args.decision refl).0,
    (answer-IsAnswered by args a args.decision refl).1,
  ),
  λ j other. rw (find-answer_row by args j rows) (elim (Option-cases (find_approval j rows)) [
    | inl missing ↦ rw missing refl
    | inr (x, there) ↦
        let same : x.id ≡ j =
          ground (arith, find_holds (λ (y : Approval). y.id == j) rows x there) in
        rw there (ground (arith, same, other))
  ]),
)

waiting_iff :
    (i : Uuid) (runs : List Run)
    → (is_moved is_waiting i runs ≡ true) ↔ (state_at i runs ≡ some waiting_approval)
waiting_iff i runs = elim (Option-cases (find_run i runs)) [
  | inl missing ↦ rw missing ((λ e. absurd (ground (arith, e))), (λ e. absurd (ground (arith, e))))
  | inr (r, found) ↦ rw found ((λ e. ground (arith, e)), (λ e. ground (arith, e)))
]

-- Where runs and queue agree, a decider (a principal of class user or system) outside any run answers a
-- requested approval. An approval opens the row in the decider's name; a rejection closes it with the
-- reason given. The call that the row is bound to and all other approvals are as they were. The decider
-- is told `open` or `rejected`, and whether the run was queued: that is exactly if it still waited, and
-- then it is handed back to the queue. Runs and queue agree afterwards.
pub decide_requested :
    (ctx : CallContext) (args : DecideApproval) (db : Db) (a : Approval)
    → IsScheduled db
    → is_some ctx.run_id ≡ false
    → may_decide (find_principal ctx.principal_id db.principals) ≡ true
    → find_approval args.approval_id db.approvals ≡ some a
    → is_requested a.state ≡ true
    → (moved : Bool) × (after : Db) × (decide_approval ctx args db
        ≡ ok (reply args.decision moved, after))
      × Answers ctx.principal_id args a db.approvals after.approvals
      × IsScheduled after
      × ((moved ≡ true) ↔ (state_at a.run_id db.runs ≡ some waiting_approval))
      × (state_at a.run_id db.runs ≡ some waiting_approval
          → state_at a.run_id after.runs ≡ some queued)
unfolding decide_approval decide_row decided
decide_requested ctx args db a h outside decider found waits =
    let (after, handed, agrees, same, moves) =
      hand_back-IsScheduled a.run_id a.step_no
        (record db { approvals = answer_row ctx.principal_id args db.approvals }) h in
    (
      is_moved is_waiting a.run_id db.runs,
      after,
      rw (outside, decider, found, waits, handed)
          (ap (λ x. ok (x, after)) (decided-reply args.decision _)),
      rw same (answer_row-Answers ctx.principal_id args a db.approvals found),
      agrees,
      waiting_iff a.run_id db.runs,
      moves,
    )

-- For a decider outside any run, an approval that is not requested any more is not answered again:
-- it is told the state, and nothing changes.
pub decide_again :
    (ctx : CallContext) (args : DecideApproval) (db : Db) (a : Approval)
    → is_some ctx.run_id ≡ false
    → may_decide (find_principal ctx.principal_id db.principals) ≡ true
    → find_approval args.approval_id db.approvals ≡ some a
    → is_requested a.state ≡ false
    → decide_approval ctx args db ≡ ok (undecided (some a), db)
unfolding decide_approval decide_row
decide_again ctx args db a outside decider found closed = rw (outside, decider, found, closed) refl
