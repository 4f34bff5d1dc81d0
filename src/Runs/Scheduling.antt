-- ===== src/Runs/Scheduling.antt =====
-- A run's state and the work that waits for it agree: a run that is queued or running has one row
-- in the queue, and any other has none.
use agent_quilt.Base.{
  ℕ, ◌+◌, ◌≡◌, refl, ◌==◌, Bool, true, false, not, Option, none, some, List, [], ◌∷◌, arith, find,
  filter, count, if◌then◌else◌, Bool-cases, Option-cases, inl, inr, find-update_where, ==_refl,
  find_holds, ap, ◌∙◌,
}
use agent_quilt.Runtime.{Uuid}
use agent_quilt.Store.{
  Db, Session, ok, Run, RunState, queued, running, done, cancelled, StepQueue, find_run, is_done,
}
use agent_quilt.Runs.{
  is_of, is_step, enqueue, may_move, move_run, is_moved, wake, queue_row, last_step, cancel,
  any_state,
}
use mathlib.Core.Option
use agent_quilt.Ledger.{append}

-- The rows that a state calls for.
abbrev pub wanted : Option RunState → ℕ
wanted (some queued) = 1
wanted (some running) = 1
wanted _ = 0

abbrev pub state_at : Uuid → List Run → Option RunState
state_at i runs = Option.map (λ (r : Run). r.state) (find_run i runs)

abbrev pub IsScheduled : Db → Type 0
IsScheduled db = (i : Uuid) → count (is_of i) db.queue ≡ wanted (state_at i db.runs)

abbrev pub after_move : (RunState → Bool) → RunState → RunState → RunState
after_move guard new s = if guard s then new else s

-- A guarded move changes the state of the one run, where the guard lets it.
pub state_at-move_run :
    (guard : RunState → Bool) (new : RunState) (i j : Uuid) (runs : List Run)
    → state_at j (move_run guard new i runs)
      ≡ (if i == j then Option.map (after_move guard new) (state_at j runs) else state_at j runs)
state_at-move_run guard new i j runs =
    rw
      (find-update_where (λ (r : Run). r.id == j) (may_move guard i) (λ r. record r { state = new })
        runs (λ x. refl))
      (elim (Option-cases (find_run j runs)) [
        | inl missing ↦ rw missing (ground arith)
        | inr (r, found) ↦
            let same : r.id ≡ j =
              ground (arith, find_holds (λ (x : Run). x.id == j) runs r found) in
            rw found (ground (arith, same))
      ])

pub count_zero-find :
    (i : Uuid) (n : ℕ) (rows : List StepQueue)
    → count (is_of i) rows ≡ 0
    → find (is_step i n) rows ≡ none
count_zero-find i n [] h = refl
count_zero-find i n (q ∷ rows) h = ground (arith, count_zero-find i n rows)

-- A run without work takes a new step.
pub enqueue_idle :
    (i : Uuid) (n : ℕ) (db : Db)
    → count (is_of i) db.queue ≡ 0
    → enqueue i n db ≡ ok (record db { queue = queue_row i n ∷ db.queue })
unfolding enqueue
enqueue_idle i n db h = rw (count_zero-find i n db.queue h)

-- The state that a guard has matched.
pub is_moved_state :
    (guard : RunState → Bool) (i : Uuid) (runs : List Run)
    → is_moved guard i runs ≡ true
    → (s : RunState) × (state_at i runs ≡ some s) × (guard s ≡ true)
is_moved_state guard i runs h = elim (Option-cases (find_run i runs)) [
  | inl e ↦ absurd (ground (arith, e))
  | inr (r, e) ↦ (r.state, rw e, ground (arith, e))
]

-- A run that waits for nothing is moved to the queue with one row: the two go together.
pub requeue-IsScheduled :
    (guard : RunState → Bool) (i : Uuid) (n : ℕ) (db : Db) (s : RunState)
    → IsScheduled db
    → state_at i db.runs ≡ some s
    → guard s ≡ true
    → wanted (some s) ≡ 0
    → IsScheduled
        (record db { runs = move_run guard queued i db.runs; queue = queue_row i n ∷ db.queue })
requeue-IsScheduled guard i n db s h at g idle j =
    rw (state_at-move_run guard queued i j db.runs) (elim (Bool-cases (i == j)) [
      | inl same ↦
          let ij : i ≡ j = ground arith in ground (arith, h j, ap (λ x. state_at x db.runs) ij, at)
      | inr other ↦ ground (arith, h j)
    ])

-- Where runs and queue agree, a wake never collides with a row that is there, and they agree after
-- it; a run that is done is then queued, and the mailbox is left alone.
pub wake-IsScheduled :
    (i : Uuid) (db : Db)
    → IsScheduled db
    → (after : Db) × (wake i db ≡ ok after)
      × IsScheduled after
      × (after.mailbox ≡ db.mailbox)
      × (state_at i db.runs ≡ some done → state_at i after.runs ≡ some queued)
unfolding wake
wake-IsScheduled i db h = elim (Bool-cases (is_moved is_done i db.runs)) [
  | inl e ↦
      let (s, at, g) = is_moved_state is_done i db.runs e in
      let idle : wanted (some s) ≡ 0 = ground arith in
      let moved = record db { runs = move_run is_done queued i db.runs } in
      let n = last_step i db.checkpoints + 1 in
      (
        record moved { queue = queue_row i n ∷ db.queue },
        rw e (enqueue_idle i n moved (h i ∙ rw at idle)),
        requeue-IsScheduled is_done i n db s h at g idle,
        refl,
        λ finished.
            rw (state_at-move_run is_done queued i i db.runs) (ground (arith, ==_refl i, finished)),
      )
  | inr e ↦ (db, rw e refl, h, refl, λ finished. absurd (not_done e finished))
]
  where
    not_done : is_moved is_done i db.runs ≡ false → state_at i db.runs ≡ some done → ⊥
    not_done e finished = elim (Option-cases (find_run i db.runs)) [
      | inl missing ↦ ground (arith, missing)
      | inr (r, found) ↦ ground (arith, found)
    ]

count-filter-not :
    (i j : Uuid) (rows : List StepQueue)
    → count (is_of j) (filter (λ q. not (is_of i q)) rows)
      ≡ (if i == j then 0 else count (is_of j) rows)
count-filter-not i j [] = ground arith
count-filter-not i j (q ∷ rows) = ground (arith, count-filter-not i j rows)

-- Where runs and queue agree, they agree after a cancel: the cancelled run has no queue row left, and
-- every other run has as many as it had.
pub cancel-IsScheduled :
    (s : Session) (i : Uuid) (db : Db) → IsScheduled db → IsScheduled (cancel s i db).1
unfolding cancel append
cancel-IsScheduled s i db h = elim (Bool-cases (is_moved any_state i db.runs)) [
  | inl e ↦ rw e (λ j.
      rw (count-filter-not i j db.queue, state_at-move_run any_state cancelled i j db.runs)
        (elim (Option-cases (state_at j db.runs)) [
          | inl none_at ↦ ground (arith, none_at, h j)
          | inr (t, at) ↦ ground (arith, at, h j)
        ]))
  | inr e ↦ rw e h
]
