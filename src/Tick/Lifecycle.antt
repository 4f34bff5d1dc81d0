-- ===== src/Tick/Lifecycle.antt =====
-- The hand-back of an answered or expired request, and a whole pass, along the diagram of a run's life.
use agent_quilt.Base.{
  ℕ, suc, ◌+◌, ◌≡◌, Bool, true, List, [], ◌∷◌, arith, inl, inr, Bool-cases, filter, is_some, find,
}
use mathlib.Core.Path.{subst}
use agent_quilt.Runtime.{Uuid, Time}
use agent_quilt.Store.{
  Db, Result, Result-cases, ok, raise, Approval, RunState, queued, running, waiting_approval, done,
  failed, cancelled, is_waiting,
}
use agent_quilt.Store.Keeping.{Keeps}
use agent_quilt.Runs.{is_moved, move_run, enqueue}
use agent_quilt.Runs.Lifecycle.{
  ◌⟶*◌, handed_back, one, Follows, Follows-refl, Keeps-Follows, Leaves, enqueue-Follows,
  move_run-Follows,
}
use agent_quilt.Tick.{
  hand_back, flagged, counted, continue_expired, expire_each, expire, passed, tick_once, reap,
  expire_request, is_stale, is_open_request,
}

waiting_only : (s : RunState) → is_waiting s ≡ true → s ⟶* queued
waiting_only waiting_approval e = one handed_back
waiting_only queued e = absurd (ground arith)
waiting_only running e = absurd (ground arith)
waiting_only done e = absurd (ground arith)
waiting_only failed e = absurd (ground arith)
waiting_only cancelled e = absurd (ground arith)

flagged-Follows :
    (before : Db) (b : Bool) (r : Result Db)
    → Leaves (Follows before) r
    → Keeps (Follows before) (flagged b r)
unfolding flagged
flagged-Follows before b (ok after) h = h
flagged-Follows before b (raise e) h = tt

pub hand_back-Follows : (i : Uuid) (n : ℕ) (db : Db) → Keeps (Follows db) (hand_back i n db)
unfolding hand_back
hand_back-Follows i n db = elim (Bool-cases (is_moved is_waiting i db.runs)) [
  | inr e ↦ rw (Keeps, hand_back, e) (Follows-refl db)
  | inl e ↦
      let moved = record db { runs = move_run is_waiting queued i db.runs } in
      rw (hand_back, e)
        (flagged-Follows db true (enqueue i n moved) (
          enqueue-Follows i n db moved
            (move_run-Follows is_waiting queued i db.runs (λ s at g. waiting_only s g))))
]

counted-Follows :
    (before : Db) (r : Result (Bool × Db))
    → Keeps (Follows before) r
    → Keeps (Follows before) (counted r)
unfolding counted
counted-Follows before (ok (b, after)) h = h
counted-Follows before (raise e) h = tt

continue_expired-Follows : (a : Approval) (db : Db) → Keeps (Follows db) (continue_expired a db)
unfolding continue_expired
continue_expired-Follows a db =
    elim (Bool-cases (is_some (find (is_open_request a.id) db.approvals))) [
      | inr e ↦ rw (Keeps, continue_expired, e) (Follows-refl db)
      | inl e ↦
          let expired = record db { approvals = expire_request a.id db.approvals } in
          rw (continue_expired, e)
            (counted-Follows db (hand_back a.run_id a.step_no expired)
              (hand_back-Follows a.run_id a.step_no expired))
    ]

expire_each-Follows :
    (lead : ℕ → Bool) (n : ℕ) (stale : List Approval) (db : Db)
    → Keeps (Follows db) (expire_each lead n stale db)
unfolding expire_each
expire_each-Follows lead n [] db = Follows-refl db
expire_each-Follows lead n (a ∷ stale) db = elim (Bool-cases (lead 0)) [
  | inr e ↦ rw (Keeps, expire_each, e) (Follows-refl db)
  | inl e ↦
      let here = continue_expired-Follows a db in
      elim (Result-cases (continue_expired a db)) [
        | inr (x, f) ↦ rw (Keeps, expire_each, e, f) tt
        | inl ((k, after), f) ↦
            rw (expire_each, e, f)
              (Keeps-Follows db after (expire_each (λ x. lead (suc x)) (n + k) stale after)
                (subst (Keeps (Follows db)) f here)
                (expire_each-Follows (λ x. lead (suc x)) (n + k) stale after))
      ]
]

passed-Follows :
    (before : Db) (n : ℕ) (r : Result (ℕ × Db))
    → Keeps (Follows before) r
    → Keeps (Follows before) (passed n r)
unfolding passed
passed-Follows before n (ok (k, after)) h = h
passed-Follows before n (raise e) h = tt

pub tick_once-Follows :
    (lead : ℕ → Bool) (begin later : Time) (db : Db)
    → Keeps (Follows db) (tick_once lead begin later db)
unfolding tick_once expire reap
tick_once-Follows lead begin later db = elim (Bool-cases (lead 0)) [
  | inr e ↦ rw (Keeps, tick_once, e) (Follows-refl db)
  | inl e ↦
      let mid = (reap begin db).1 in
      rw (tick_once, e)
        (passed-Follows db (reap begin db).0 (expire (λ x. lead (suc x)) later mid)
          (expire_each-Follows (λ x. lead (suc x)) 0 (filter (is_stale later) mid.approvals) mid))
]
