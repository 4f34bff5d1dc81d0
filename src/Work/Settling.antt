-- ===== src/Work/Settling.antt =====
-- How a step ends: parked, answered, handed on to the next step, or felt a cancel.
use agent_quilt.Base.{
  ℕ, suc, ◌+◌, ◌≡◌, refl, ◌==◌, ==_refl, Bool, true, false, not, Option, none, some, String, List,
  [], ◌∷◌, arith, filter, if◌then◌else◌, Bool-cases, inl, inr, ap, ◌∙◌,
}
use agent_quilt.Runtime.{Uuid, Runtime}
use agent_quilt.Store.{
  Db, Session, Result, ok, RunState, queued, waiting_approval, cancelled, Checkpoint, StepQueue,
}
use agent_quilt.Ledger.{append}
use agent_quilt.Runs.{is_of, enqueue, queue_row}
use agent_quilt.Runs.Scheduling.{IsScheduled, state_at, enqueue_idle}
use agent_quilt.Work.{
  set_state, leave, settle, settle_parked, park_step, finish_step, close_step, settled, next_state,
  StepOutcome, Parked, checkpoint_of, journal_parked, is_empty,
}
use agent_quilt.Work.Leaving.{
  IsHeld, left, held_state, held-IsScheduled, held_enqueued-IsScheduled, left-checkpoints,
  held_others, left-tables, filter-none, filter-leave, left-draws, leave_idle-IsScheduled,
  set_state_cancelled,
}

-- The state that a step ends in.
abbrev pub end_state : StepOutcome → RunState
end_state o = elim o.parked [ none ↦ next_state o.results | some p ↦ waiting_approval ]

-- A parked step saves nothing, so that the step is worked again; any other saves its checkpoint.
abbrev pub saved_by : Runtime → Uuid → ℕ → StepOutcome → Db → List Checkpoint
saved_by rt i n o db = elim o.parked [
  | none ↦ checkpoint_of rt i n o db ∷ db.checkpoints
  | some p ↦ db.checkpoints
]

-- A run that is queued again waits with the row of the next step, which nobody holds; any other run has
-- no row.
abbrev pub next_rows : Uuid → ℕ → RunState → List StepQueue
next_rows i n queued =
    record {
      run_id = i;
      step_no = n + 1;
      queue_tag = "main";
      lease_until = none;
      claimed_by = none;
    }
    ∷ []
next_rows i n _ = []

-- The rows of the run, and the rows and the states of the others.
abbrev pub IsQueued : Uuid → ℕ → RunState → Db → Db → Type 0
IsQueued i n state db after =
    (filter (is_of i) after.queue ≡ next_rows i n state)
    × (filter (λ q. not (is_of i q)) after.queue ≡ filter (λ q. not (is_of i q)) db.queue)
    × ((j : Uuid) → (i == j) ≡ false → state_at j after.runs ≡ state_at j db.runs)

own_row :
    (i : Uuid) (m : ℕ) (rows : List StepQueue)
    → filter (is_of i) rows ≡ []
    → filter (is_of i) (queue_row i m ∷ rows) ≡ queue_row i m ∷ []
own_row i m rows h = rw (==_refl i) (ap (λ l. queue_row i m ∷ l) h)

other_rows :
    (i : Uuid) (m : ℕ) (rows : List StepQueue)
    → filter (λ q. not (is_of i q)) (queue_row i m ∷ rows) ≡ filter (λ q. not (is_of i q)) rows
other_rows i m rows = rw (==_refl i) refl

abbrev pub SettlesTo : Uuid → ℕ → Db → RunState → List Checkpoint → Result (RunState × Db) → Type 0
SettlesTo i n db state saved r =
    (after : Db) × (r ≡ ok (state, after))
    × IsScheduled after
    × (state_at i after.runs ≡ some state)
    × (after.checkpoints ≡ saved)
    × IsQueued i n state db after

handed_on :
    (d d₁ : Db) (r : Result Db) (state : RunState) (b : Bool)
    → b ≡ false
    → r ≡ ok d₁
    → settled state (if b then ok d else r) ≡ ok (state, d₁)
unfolding settled
handed_on d d₁ r state true e h = absurd (ground arith)
handed_on d d₁ r state false e h = rw h

module _ (rt : Runtime) (s : Session) (i : Uuid) (n : ℕ) (o : StepOutcome) (db : Db)
    (h : IsScheduled db) where
  close_same :
      (d : Db)
      → close_step rt i n o (next_state o.results) d
        ≡ settled (next_state o.results) (
            let saved = record d {
              draws = suc d.draws;
              checkpoints = checkpoint_of rt i n o d ∷ d.checkpoints;
            } in
            if is_empty o.results then ok saved else enqueue i (n + 1) saved)
  unfolding close_step
  close_same d = elim (Bool-cases (is_empty o.results)) [ inl e ↦ rw e | inr e ↦ rw e ]

  abbrev pub saved_in : Db → Db
  saved_in d = record d {
    draws = suc d.draws;
    checkpoints = checkpoint_of rt i n o d ∷ d.checkpoints;
  }

  finish_held :
      IsHeld i n db
      → finish_step rt i n o (set_state i (next_state o.results) none db)
        ≡ close_step rt i n o (next_state o.results) (left i n (next_state o.results) none db)
  unfolding finish_step
  finish_held held =
      ap (λ x. close_step rt i n o x (left i n (next_state o.results) none db))
        (held_state i n (next_state o.results) none db h held).0

  saved-checkpoints :
      (new : RunState)
      → (saved_in (left i n new none db)).checkpoints ≡ checkpoint_of rt i n o db ∷ db.checkpoints
  saved-checkpoints new = rw (left-draws i n new none db, left-checkpoints i n new none db) refl

  -- The rows after the step has been left, and with the row of the next step.
  left_rows :
      (new : RunState) (reason : Option String) (d : Db)
      → d.queue ≡ db.queue
      → d.runs ≡ db.runs
      → IsScheduled d
      → IsHeld i n d
      → (filter (is_of i) (left i n new reason d).queue ≡ [])
        × (filter (λ q. not (is_of i q)) (left i n new reason d).queue
            ≡ filter (λ q. not (is_of i q)) db.queue)
        × ((j : Uuid)
            → (i == j) ≡ false
            → state_at j (left i n new reason d).runs ≡ state_at j db.runs)
  left_rows new reason d rows runs agrees held =
      let (_, _, none_left) = held_state i n new reason d agrees held in
      (
        filter-none (is_of i) (left i n new reason d).queue none_left,
        ap (λ (x : Db). filter (λ q. not (is_of i q)) x.queue) (left-tables i n new reason d)
            ∙ filter-leave i n d.queue
            ∙ ap (filter (λ q. not (is_of i q))) rows,
        λ j other.
            (held_others i n new reason d agrees held j other).0 ∙ ap (λ x. state_at j x) runs,
      )

  finished :
      IsHeld i n db
      → SettlesTo i n db
          (next_state o.results)
          (checkpoint_of rt i n o db ∷ db.checkpoints)
          (finish_step rt i n o (set_state i (next_state o.results) none db))
  unfolding settled
  finished held =
      let (_, at, none_left) = held_state i n (next_state o.results) none db h held in
      let (mine, theirs, states) = left_rows (next_state o.results) none db refl refl h held in
      elim (Bool-cases (is_empty o.results)) [
        | inl e ↦ (
          saved_in (left i n (next_state o.results) none db),
          finish_held held ∙ close_same (left i n (next_state o.results) none db) ∙ rw e refl,
          held-IsScheduled i n (next_state o.results) none db h held (rw e refl),
          at,
          saved-checkpoints (next_state o.results),
          (mine ∙ rw e refl, theirs, states),
        )
        | inr e ↦ (
          record (saved_in (left i n (next_state o.results) none db)) {
            queue = queue_row i (n + 1) ∷ (left i n (next_state o.results) none db).queue;
          },
          finish_held held
              ∙ close_same (left i n (next_state o.results) none db)
              ∙ handed_on _ _ _ (next_state o.results) (is_empty o.results) e (
                  enqueue_idle i (n + 1) (saved_in (left i n (next_state o.results) none db))
                    none_left),
          held_enqueued-IsScheduled i n (next_state o.results) none db h held (rw e refl) (n + 1),
          at,
          saved-checkpoints (next_state o.results),
          (own_row i (n + 1) _ mine ∙ rw e refl, other_rows i (n + 1) _ ∙ theirs, states),
        )
      ]

  settled_parked :
      (p : Parked)
      → IsHeld i n db
      → SettlesTo i n db waiting_approval db.checkpoints (ok (park_step rt s i n p db))
  unfolding park_step journal_parked append
  settled_parked p held =
      let (same, at, _) =
        held_state i n waiting_approval none (journal_parked rt s i n p db) h held in
      (
        left i n waiting_approval none (journal_parked rt s i n p db),
        ap (λ x. ok (x, left i n waiting_approval none (journal_parked rt s i n p db))) same,
        held-IsScheduled i n waiting_approval none (journal_parked rt s i n p db) h held refl,
        at,
        left-checkpoints i n waiting_approval none (journal_parked rt s i n p db),
        left_rows waiting_approval none (journal_parked rt s i n p db) refl refl h held,
      )

  settle_either :
      (p : Option Parked)
      → o.parked ≡ p
      → IsHeld i n db
      → SettlesTo i n db (end_state o) (saved_by rt i n o db) (settle_parked rt s i n o p db)
  unfolding settle_parked
  settle_either none e held = rw e (finished held)
  settle_either (some p) e held = rw e (settled_parked p held)

-- Where runs and queue agree, a worker that holds its step settles it in one way, and never collides
-- with another row: the run ends in the state that the step asks for (waiting for an approval where it
-- parked, done where it has no results, queued otherwise). Its row is left, and where the run is queued
-- its one row is that of the next step, which nobody holds; otherwise it has none. The rows and the
-- states of the other runs are as they were, runs and queue agree, and a checkpoint is saved unless the
-- step parked.
pub settle_held :
    (rt : Runtime) (s : Session) (i : Uuid) (n : ℕ) (o : StepOutcome) (db : Db)
    → IsScheduled db
    → IsHeld i n db
    → SettlesTo i n db (end_state o) (saved_by rt i n o db) (settle rt s i n o db)
unfolding settle
settle_held rt s i n o db h held = settle_either rt s i n o db h o.parked refl held

module _ (rt : Runtime) (s : Session) (i : Uuid) (n : ℕ) (o : StepOutcome) (db : Db)
    (at : state_at i db.runs ≡ some cancelled) where
  park_cancelled :
      (p : Parked) → park_step rt s i n p db ≡ (cancelled, leave i n (journal_parked rt s i n p db))
  unfolding park_step journal_parked append
  park_cancelled p =
      ap (λ (x : RunState × Db). (x.0, leave i n x.1))
        (set_state_cancelled i waiting_approval none (journal_parked rt s i n p db) at)

  close_cancelled : (d : Db) → close_step rt i n o cancelled d ≡ ok (cancelled, d)
  unfolding close_step
  close_cancelled d = elim (Bool-cases (is_empty o.results)) [ inl e ↦ rw e | inr e ↦ rw e ]

  finish_cancelled :
      finish_step rt i n o (set_state i (next_state o.results) none db)
      ≡ ok (cancelled, leave i n db)
  unfolding finish_step
  finish_cancelled =
      ap (finish_step rt i n o) (set_state_cancelled i (next_state o.results) none db at)
      ∙ close_cancelled (leave i n db)

  parked_or_finished :
      (p : Option Parked)
      → IsScheduled db
      → (after : Db) × (settle_parked rt s i n o p db ≡ ok (cancelled, after))
        × IsScheduled after
        × (after.runs ≡ db.runs)
        × (after.checkpoints ≡ db.checkpoints)
  unfolding settle_parked journal_parked append leave
  parked_or_finished none h =
      (leave i n db, finish_cancelled, leave_idle-IsScheduled i n db h (rw at refl), refl, refl)
  parked_or_finished (some p) h = (
    leave i n (journal_parked rt s i n p db),
    ap ok (park_cancelled p),
    leave_idle-IsScheduled i n (journal_parked rt s i n p db) h (rw at refl),
    refl,
    refl,
  )

-- Where runs and queue agree, a step whose run was cancelled meanwhile is settled without effect on the runs or the
-- checkpoints, whatever the step produced: it answers `cancelled`, leaves its row, queues nothing
-- and keeps runs and queue in agreement.
pub settle_cancelled :
    (rt : Runtime) (s : Session) (i : Uuid) (n : ℕ) (o : StepOutcome) (db : Db)
    → IsScheduled db
    → state_at i db.runs ≡ some cancelled
    → (after : Db) × (settle rt s i n o db ≡ ok (cancelled, after))
      × IsScheduled after
      × (after.runs ≡ db.runs)
      × (after.checkpoints ≡ db.checkpoints)
unfolding settle
settle_cancelled rt s i n o db h at = parked_or_finished rt s i n o db at o.parked h
