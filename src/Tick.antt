-- ===== src/Tick.antt =====
-- backend/app/kernel/runs/tick.py: stale leases and dead approvals. `lead n` tells whether the n-th
-- try of a pass for the advisory lock gets it; `begin` and `later` are the two readings of the clock.
pub mod Expiry
pub mod Lifecycle
use agent_quilt.Base.{
  ℕ, suc, ◌+◌, ◌==◌, ◌&&◌, Bool, true, false, Option, none, some, List, [], ◌∷◌, count, filter,
  find, update_where, is_some, leb, if◌then◌else◌,
}
use agent_quilt.Runtime.{Uuid, Time}
use agent_quilt.Store.{
  Db, Result, ok, raise, Approval, ApprovalState, requested, expired, StepQueue, queued,
  is_requested, is_waiting,
}
use agent_quilt.Runs.{enqueue, move_run, is_moved}

pub record Pass : Type 0 where
  pub reaped : ℕ
  pub expired : ℕ

-- `lease_until <= when`: false where there is no lease, which SQL leaves unknown.
abbrev pub is_lapsed : Time → StepQueue → Bool
is_lapsed now q = elim q.lease_until [ none ↦ false | some t ↦ leb t now ]

unfoldable pub reap : Time → Db → ℕ × Db
reap now db = (
  count (is_lapsed now) db.queue,
  record db {
    queue =
        update_where (is_lapsed now) (λ q. record q { lease_until = none; claimed_by = none })
          db.queue;
  },
)

abbrev pub is_stale : Time → Approval → Bool
is_stale now a = is_requested a.state && leb a.expires_at now

abbrev pub is_open_request : Uuid → Approval → Bool
is_open_request i a = a.id == i && is_requested a.state

flagged : Bool → Result Db → Result (Bool × Db)
flagged b (raise e) = raise e
flagged b (ok db) = ok (b, db)

-- The run moves only if it still waits, and the queue row goes in only when that guard matched.
unfoldable pub hand_back : Uuid → ℕ → Db → Result (Bool × Db)
unfolding flagged
hand_back i n db =
    if is_moved is_waiting i db.runs
    then flagged true (enqueue i n (record db { runs = move_run is_waiting queued i db.runs }))
    else ok (false, db)

counted : Result (Bool × Db) → Result (ℕ × Db)
counted (raise e) = raise e
counted (ok (b, db)) = ok (1, db)

abbrev pub expire_request : Uuid → List Approval → List Approval
expire_request i =
    update_where (is_open_request i) (λ a. record a { state = expired; reason = some "expired" })

-- `_continue`
unfoldable pub continue_expired : Approval → Db → Result (ℕ × Db)
unfolding counted
continue_expired a db =
    if is_some (find (is_open_request a.id) db.approvals)
    then counted
        (hand_back a.run_id a.step_no (record db { approvals = expire_request a.id db.approvals }))
    else ok (0, db)

-- The loop of `_expire`: a pass that has lost the lead stops with what it has done.
unfoldable pub expire_each : (ℕ → Bool) → ℕ → List Approval → Db → Result (ℕ × Db)
expire_each lead n [] db = ok (n, db)
expire_each lead n (a ∷ stale) db =
    if lead 0
    then elim (continue_expired a db) [
      | raise e ↦ raise e
      | ok (k, after) ↦ expire_each (λ x. lead (suc x)) (n + k) stale after
    ]
    else ok (n, db)

-- `_expire`
unfoldable pub expire : (ℕ → Bool) → Time → Db → Result (ℕ × Db)
unfolding expire_each
expire lead now db = expire_each lead 0 (filter (is_stale now) db.approvals) db

passed : ℕ → Result (ℕ × Db) → Result (Option Pass × Db)
passed n (raise e) = raise e
passed n (ok (k, db)) = ok (some (record { reaped = n; expired = k }), db)

unfoldable pub tick_once : (ℕ → Bool) → Time → Time → Db → Result (Option Pass × Db)
unfolding reap expire passed
tick_once lead begin later db =
    if lead 0
    then passed (reap begin db).0 (expire (λ x. lead (suc x)) later (reap begin db).1)
    else ok (none, db)
