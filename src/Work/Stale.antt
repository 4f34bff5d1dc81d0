-- ===== src/Work/Stale.antt =====
-- A worker that settles after its lease ran out and others have worked the run on.
use agent_quilt.Base.{
  ℕ, suc, ◌+◌, ◌≡◌, refl, false, not, none, some, List, [], ◌∷◌, arith, find, filter, count, inl,
  inr, Option-cases, ==_refl, ◌∙◌,
}
use agent_quilt.Runtime.{Uuid, Runtime}
use agent_quilt.Store.{Db, Session, ok, RunState, queued, StepQueue, find_run, is_running}
use agent_quilt.Runs.{is_of, is_step, is_moved, enqueue, queue_row}
use agent_quilt.Runs.Scheduling.{IsScheduled, state_at}
use agent_quilt.Work.{
  settle, settle_parked, finish_step, close_step, settled, set_state, leave, StepOutcome, is_empty,
  checkpoint_of,
}

left_before :
    (i : Uuid) (n : ℕ) (rows : List StepQueue)
    → find (is_step i n) rows ≡ none
    → filter (λ q. not (is_step i n q)) rows ≡ rows
left_before i n [] h = refl
left_before i n (q ∷ rows) h = ground (arith, h, left_before i n rows)

-- The second checkpoint of the step, and the second queue row of the run.
abbrev pub stale_db : Runtime → Uuid → ℕ → StepOutcome → Db → Db
stale_db rt i n o db = record db {
  draws = suc db.draws;
  checkpoints = checkpoint_of rt i n o db ∷ db.checkpoints;
  queue = queue_row i (n + 1) ∷ db.queue;
}

module _ (rt : Runtime) (s : Session) (i : Uuid) (n : ℕ) (o : StepOutcome) (db : Db)
    (at : state_at i db.runs ≡ some queued) where
  set_state_queued : (new : RunState) → set_state i new none db ≡ (queued, db)
  unfolding set_state
  set_state_queued new = elim (Option-cases (find_run i db.runs)) [
    | inl missing ↦ absurd (ground (arith, at, missing))
    | inr (r, found) ↦
        let waits : r.state ≡ queued = ground (arith, at, found) in
        let still : is_moved is_running i db.runs ≡ false = ground (arith, found, waits) in
        rw (set_state, still) (rw (found, waits) refl)
  ]

  -- The fence of a settle is the state of the run, not the lease. Where the run is queued again, though
  -- neither for the worker's step nor for the next one, and runs and queue agree, a late settle of a step
  -- that made calls and parked none is not refused: it adds a second checkpoint and a second queue row,
  -- so that runs and queue do not agree any more.
  pub stale_settle :
      IsScheduled db
      → find (is_step i n) db.queue ≡ none
      → find (is_step i (n + 1)) db.queue ≡ none
      → o.parked ≡ none
      → is_empty o.results ≡ false
      → (settle rt s i n o db ≡ ok (queued, stale_db rt i n o db))
        × (count (is_of i) (stale_db rt i n o db).queue ≡ 2)
        × (IsScheduled (stale_db rt i n o db) → ⊥)
  unfolding settle settle_parked finish_step close_step settled leave enqueue
  stale_settle h gone free unparked busy =
      let once : count (is_of i) db.queue ≡ 1 = h i ∙ rw at refl in
      let twice : count (is_of i) (stale_db rt i n o db).queue ≡ 2 =
        ground (arith, once, ==_refl i) in
      (
        rw (unparked, busy, set_state_queued queued, left_before i n db.queue gone, free) refl,
        twice,
        λ k. ground (arith, k i, twice, at),
      )
