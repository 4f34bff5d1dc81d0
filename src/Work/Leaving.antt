-- ===== src/Work/Leaving.antt =====
-- What the guarded state write and the leaving of a held step do to the schedule.
use agent_quilt.Base.{
  ℕ, ◌≡◌, ◌≢◌, refl, ◌==◌, Bool, true, false, not, Option, none, some, String, List, [], ◌∷◌, arith,
  find, filter, count, update_where, if◌then◌else◌, Bool-cases, Option-cases, inl, inr,
  find-update_where, ==_refl, find_holds, ap, ◌∙◌,
}
use mathlib.Core.Path.{subst, sym}
use agent_quilt.Runtime.{Uuid}
use agent_quilt.Store.{Db, Run, RunState, running, cancelled, StepQueue, find_run, is_running}
use agent_quilt.Runs.{is_of, is_step, may_move, is_moved, queue_row}
use agent_quilt.Runs.Scheduling.{IsScheduled, wanted, state_at, after_move, count_zero-find}
use agent_quilt.Work.{set_state, leave}
use mathlib.Core.Option

-- The worker still holds the step: its run runs and its row is in the queue.
abbrev pub IsHeld : Uuid → ℕ → Db → Type 0
IsHeld i n db = (state_at i db.runs ≡ some running) × (find (is_step i n) db.queue ≢ none)

pub state_at-set :
    (new : RunState) (reason : Option String) (i j : Uuid) (runs : List Run)
    → state_at j (
        update_where
          (may_move is_running i)
          (λ r. record r { state = new; failure_reason = reason })
          runs)
      ≡ (if i == j
          then Option.map (after_move is_running new) (state_at j runs)
          else state_at j runs)
state_at-set new reason i j runs =
    rw
      (find-update_where (λ (r : Run). r.id == j) (may_move is_running i)
        (λ r. record r { state = new; failure_reason = reason }) runs (λ x. refl))
      (elim (Option-cases (find_run j runs)) [
        | inl missing ↦ rw missing (ground arith)
        | inr (r, found) ↦
            let same : r.id ≡ j =
              ground (arith, find_holds (λ (x : Run). x.id == j) runs r found) in
            rw found (ground (arith, same))
      ])

count_zero-filter :
    (p f : StepQueue → Bool) (rows : List StepQueue)
    → count p rows ≡ 0
    → count p (filter f rows) ≡ 0
count_zero-filter p f [] h = refl
count_zero-filter p f (q ∷ rows) h = ground (arith, count_zero-filter p f rows)

count-leave_other :
    (i j : Uuid) (n : ℕ) (rows : List StepQueue)
    → (i == j) ≡ false
    → count (is_of j) (filter (λ q. not (is_step i n q)) rows) ≡ count (is_of j) rows
count-leave_other i j n [] h = refl
count-leave_other i j n (q ∷ rows) h = ground (arith, count-leave_other i j n rows h)

count-leave_held :
    (i : Uuid) (n : ℕ) (rows : List StepQueue)
    → count (is_of i) rows ≡ 1
    → find (is_step i n) rows ≢ none
    → count (is_of i) (filter (λ q. not (is_step i n q)) rows) ≡ 0
count-leave_held i n [] h f = absurd (ground arith)
count-leave_held i n (q ∷ rows) h f = elim (Bool-cases (is_step i n q)) [
  | inl this ↦
      rw this (count_zero-filter (is_of i) (λ x. not (is_step i n x)) rows (ground (arith, this)))
  | inr other ↦ rw other (elim (Bool-cases (is_of i q)) [
    | inl mine ↦ absurd (f (rw other (count_zero-find i n rows (ground (arith, mine)))))
    | inr foreign ↦
        rw foreign
          (omega (arith, count-leave_held i n rows (ground (arith, foreign)) (λ e. f (rw other e))))
  ])
]

-- The state after a guarded write and the leaving of the step.
abbrev pub left : Uuid → ℕ → RunState → Option String → Db → Db
left i n new reason db = leave i n (set_state i new reason db).1

module _ (i : Uuid) (n : ℕ) (new : RunState) (reason : Option String) (db : Db)
    (h : IsScheduled db) where
  moved_running : state_at i db.runs ≡ some running → is_moved is_running i db.runs ≡ true
  moved_running at = elim (Option-cases (find_run i db.runs)) [
    | inl missing ↦ absurd (ground (arith, missing))
    | inr (r, found) ↦ ground (arith, found)
  ]

  pub held_state :
      IsHeld i n db
      → ((set_state i new reason db).0 ≡ new)
        × (state_at i (left i n new reason db).runs ≡ some new)
        × (count (is_of i) (left i n new reason db).queue ≡ 0)
  unfolding set_state leave
  held_state (at, row) = rw (moved_running at) (
    refl,
    rw (state_at-set new reason i i db.runs) (ground (arith, ==_refl i, at)),
    count-leave_held i n db.queue (h i ∙ ap wanted at) row,
  )

  pub held_others :
      IsHeld i n db
      → (j : Uuid) → (i == j) ≡ false
      → (state_at j (left i n new reason db).runs ≡ state_at j db.runs)
        × (count (is_of j) (left i n new reason db).queue ≡ count (is_of j) db.queue)
  unfolding set_state leave
  held_others (at, row) j other =
      rw (moved_running at) (
        rw (state_at-set new reason i j db.runs) (rw other),
        count-leave_other i j n db.queue other,
      )

  pub held-IsScheduled :
      IsHeld i n db → wanted (some new) ≡ 0 → IsScheduled (left i n new reason db)
  held-IsScheduled held idle j = elim (Bool-cases (i == j)) [
    | inl same ↦
        let ij : i ≡ j = ground arith in
        let (_, at, none_left) = held_state held in
        subst
          (λ k.
            count (is_of k) (left i n new reason db).queue
            ≡ wanted (state_at k (left i n new reason db).runs))
          ij (none_left ∙ sym idle ∙ ap wanted (sym at))
    | inr other ↦
        let (states, counts) = held_others held j other in counts ∙ h j ∙ ap wanted (sym states)
  ]

  pub held_enqueued-IsScheduled :
      IsHeld i n db
      → wanted (some new) ≡ 1
      → (m : ℕ)
      → IsScheduled (record (left i n new reason db) {
        queue = queue_row i m ∷ (left i n new reason db).queue;
      })
  held_enqueued-IsScheduled held busy m j = elim (Bool-cases (i == j)) [
    | inl same ↦
        let ij : i ≡ j = ground arith in
        let (_, at, none_left) = held_state held in
        subst
          (λ k.
            count (is_of k) (queue_row i m ∷ (left i n new reason db).queue)
            ≡ wanted (state_at k (left i n new reason db).runs))
          ij (ground (arith, ==_refl i, none_left, busy, at))
    | inr other ↦
        let (states, counts) = held_others held j other in
        rw other (omega (arith, counts, h j, ap wanted states))
  ]

pub left-checkpoints :
    (i : Uuid) (n : ℕ) (new : RunState) (reason : Option String) (db : Db)
    → (left i n new reason db).checkpoints ≡ db.checkpoints
unfolding set_state leave
left-checkpoints i n new reason db = elim (Bool-cases (is_moved is_running i db.runs)) [
  | inl e ↦ rw e
  | inr e ↦ rw e
]

-- Neither the guarded write nor the leaving of the step touches another table than the two of work.
pub left-tables :
    (i : Uuid) (n : ℕ) (new : RunState) (reason : Option String) (db : Db)
    → left i n new reason db ≡ record db {
      runs = (left i n new reason db).runs;
      queue = filter (λ q. not (is_step i n q)) db.queue;
    }
unfolding set_state leave
left-tables i n new reason db = elim (Bool-cases (is_moved is_running i db.runs)) [
  | inl e ↦ rw e
  | inr e ↦ rw e
]

pub filter-none :
    (p : StepQueue → Bool) (rows : List StepQueue) → count p rows ≡ 0 → filter p rows ≡ []
filter-none p [] h = refl
filter-none p (q ∷ rows) h = ground (arith, filter-none p rows)

pub filter-leave :
    (i : Uuid) (n : ℕ) (rows : List StepQueue)
    → filter (λ q. not (is_of i q)) (filter (λ q. not (is_step i n q)) rows)
      ≡ filter (λ q. not (is_of i q)) rows
filter-leave i n [] = refl
filter-leave i n (q ∷ rows) = ground (arith, filter-leave i n rows)

pub left-draws :
    (i : Uuid) (n : ℕ) (new : RunState) (reason : Option String) (db : Db)
    → (left i n new reason db).draws ≡ db.draws
unfolding set_state leave
left-draws i n new reason db = elim (Bool-cases (is_moved is_running i db.runs)) [
  | inl e ↦ rw e
  | inr e ↦ rw e
]

-- A run that waits for nothing has no row to leave.
pub leave_idle-IsScheduled :
    (i : Uuid) (n : ℕ) (db : Db)
    → IsScheduled db
    → wanted (state_at i db.runs) ≡ 0
    → IsScheduled (leave i n db)
unfolding leave
leave_idle-IsScheduled i n db h idle j = elim (Bool-cases (i == j)) [
  | inl same ↦
      let ij : i ≡ j = ground arith in
      subst (λ k. count (is_of k) (leave i n db).queue ≡ wanted (state_at k db.runs)) ij
        (count_zero-filter (is_of i) (λ q. not (is_step i n q)) db.queue (h i ∙ idle) ∙ sym idle)
  | inr other ↦ count-leave_other i j n db.queue other ∙ h j
]

-- A guarded write that finds the run cancelled changes nothing and answers `cancelled`.
pub set_state_cancelled :
    (i : Uuid) (new : RunState) (reason : Option String) (db : Db)
    → state_at i db.runs ≡ some cancelled
    → set_state i new reason db ≡ (cancelled, db)
unfolding set_state
set_state_cancelled i new reason db at = elim (Option-cases (find_run i db.runs)) [
  | inl missing ↦ absurd (ground (arith, missing))
  | inr (r, found) ↦ ground (arith, found)
]
