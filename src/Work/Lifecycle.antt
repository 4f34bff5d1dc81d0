-- ===== src/Work/Lifecycle.antt =====
-- A claim and the end of a step move the run along the diagram of its life.
use agent_quilt.Base.{
  ℕ, suc, ◌+◌, ◌≡◌, ◌==◌, Bool, true, Option, none, some, String, ◌∷◌, arith, inl, inr, Bool-cases,
  Option-cases, filter,
}
use agent_quilt.Runtime.{Uuid, Time, Runtime}
use agent_quilt.Store.{
  Db, Session, Result, ok, raise, RunState, queued, running, waiting_approval, done, failed,
  cancelled, find_run, is_running, StepQueue,
}
use agent_quilt.Store.Keeping.{Keeps}
use agent_quilt.Ledger.{append}
use agent_quilt.Runs.{is_moved, any_state}
use agent_quilt.Runs.Scheduling.{state_at}
use agent_quilt.Runs.Lifecycle.{
  ◌⟶*◌, claimed, continued, parked, finished, refused, stay, one, Along-refl, moved-Along, Follows,
  Follows-refl, Leaves, enqueue-Follows, move_run-Follows,
}
use agent_quilt.Work.{
  claim, claim_row, take_lease, earliest, may_claim, set_state, leave, settle, settle_parked,
  park_step, journal_parked, finish_step, close_step, settled, is_same_state, next_state, is_empty,
  StepOutcome, Parked, checkpoint_of, refuse_step,
}
use agent_quilt.Work.Claiming.{earliest-filter, IsThere, All-IsThere}
use agent_quilt.Work.Leaving.{state_at-set}

set_state-Follows :
    (i : Uuid) (new : RunState) (reason : Option String) (db : Db)
    → running ⟶* new
    → Follows db (set_state i new reason db).1
unfolding set_state
set_state-Follows i new reason db h = elim (Bool-cases (is_moved is_running i db.runs)) [
  | inr e ↦ rw e (Follows-refl db)
  | inl e ↦ rw e (λ j. rw (state_at-set new reason i j db.runs) (elim (Bool-cases (i == j)) [
    | inl same ↦ rw same (moved-Along is_running new (state_at j db.runs) (λ s at g. run_only s g))
    | inr other ↦ rw other (Along-refl (state_at j db.runs))
  ]))
]
  where
    run_only : (s : RunState) → is_running s ≡ true → s ⟶* new
    run_only running e = h
    run_only queued e = absurd (ground arith)
    run_only waiting_approval e = absurd (ground arith)
    run_only done e = absurd (ground arith)
    run_only failed e = absurd (ground arith)
    run_only cancelled e = absurd (ground arith)

pub refuse_step-Follows :
    (i : Uuid) (n : ℕ) (reason : String) (db : Db) → Follows db (refuse_step i n reason db).1
unfolding refuse_step leave
refuse_step-Follows i n reason db = set_state-Follows i failed (some reason) db (one refused)

module _ (rt : Runtime) (s : Session) (i : Uuid) (n : ℕ) (o : StepOutcome) where
  settled-Follows :
      (before : Db) (state : RunState) (r : Result Db)
      → Leaves (Follows before) r
      → Keeps (Follows before) (settled state r)
  unfolding settled
  settled-Follows before state (ok after) h = h
  settled-Follows before state (raise e) h = tt

  saved_as : Db → Db
  saved_as db = record db {
    draws = suc db.draws;
    checkpoints = checkpoint_of rt i n o db ∷ db.checkpoints;
  }

  close_step-Follows :
      (before : Db) (state : RunState) (db : Db)
      → Follows before db
      → Keeps (Follows before) (close_step rt i n o state db)
  unfolding close_step saved_as
  close_step-Follows before state db h =
      elim (Bool-cases (is_same_state state (next_state o.results))) [
        | inr e ↦ rw (Keeps, close_step, e) h
        | inl e ↦ elim (Bool-cases (is_empty o.results)) [
          | inl idle ↦ rw (close_step, e) (settled-Follows before _ _ (rw (Leaves, idle) h))
          | inr busy ↦
              rw (close_step, e)
                (settled-Follows before _ _
                  (rw busy (enqueue-Follows i (n + 1) before (saved_as db) h)))
        ]
      ]

  next_state-step : running ⟶* next_state o.results
  next_state-step = elim (Bool-cases (is_empty o.results)) [
    | inl e ↦ rw e (one finished)
    | inr e ↦ rw e (one continued)
  ]

  settle_parked-Follows :
      (p : Option Parked) (db : Db) → Keeps (Follows db) (settle_parked rt s i n o p db)
  unfolding settle_parked park_step finish_step journal_parked append leave
  settle_parked-Follows (some p) db =
      set_state-Follows i waiting_approval none (journal_parked rt s i n p db) (one parked)
  settle_parked-Follows none db =
      close_step-Follows db (set_state i (next_state o.results) none db).0
        (leave i n (set_state i (next_state o.results) none db).1)
        (set_state-Follows i (next_state o.results) none db next_state-step)

  pub settle-Follows : (db : Db) → Keeps (Follows db) (settle rt s i n o db)
  unfolding settle
  settle-Follows db = settle_parked-Follows o.parked db

module _ (locked : Uuid → Bool) (worker : String) (now : Time) (db : Db) where
  claimable :
      (q : StepQueue)
      → may_claim locked now db q ≡ true
      → (s : RunState) → state_at q.run_id db.runs ≡ some s
      → s ⟶* running
  claimable q may queued at = one claimed
  claimable q may running at = stay
  claimable q may waiting_approval at = elim (Option-cases (find_run q.run_id db.runs)) [
    | inl missing ↦ absurd (ground (arith, missing))
    | inr (r, found) ↦ absurd (ground (arith, found))
  ]
  claimable q may done at = elim (Option-cases (find_run q.run_id db.runs)) [
    | inl missing ↦ absurd (ground (arith, missing))
    | inr (r, found) ↦ absurd (ground (arith, found))
  ]
  claimable q may failed at = elim (Option-cases (find_run q.run_id db.runs)) [
    | inl missing ↦ absurd (ground (arith, missing))
    | inr (r, found) ↦ absurd (ground (arith, found))
  ]
  claimable q may cancelled at = elim (Option-cases (find_run q.run_id db.runs)) [
    | inl missing ↦ absurd (ground (arith, missing))
    | inr (r, found) ↦ absurd (ground (arith, found))
  ]

  pub claim-Follows : Follows db (claim locked worker now db).1
  unfolding claim claim_row take_lease
  claim-Follows = elim (Option-cases (earliest (filter (may_claim locked now db) db.queue))) [
    | inl e ↦ rw e (Follows-refl db)
    | inr (q, e) ↦
        let (may, _) =
          earliest-filter (IsThere db.queue) (may_claim locked now db) db.queue q
            (All-IsThere db.queue) e in
        rw e (move_run-Follows any_state running q.run_id db.runs (λ s at g. claimable q may s at))
  ]
