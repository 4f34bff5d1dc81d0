-- ===== src/Runs/Lifecycle.antt =====
-- The life of a run: the state column as a diagram, and what the operations on runs do along it.
use agent_quilt.Base.{
  ℕ, suc, ◌≡◌, refl, ◌==◌, Bool, true, Option, none, some, List, ◌∷◌, ◌+◌, arith, inl, inr,
  Bool-cases, Option-cases, ap, is_some, find,
}
use mathlib.Core.Path.{subst}
use mathlib.Core.Option
use agent_quilt.Json.{Json}
use agent_quilt.Runtime.{Uuid, Runtime}
use agent_quilt.Store.{
  Db, Session, Result, ok, raise, Run, RunState, queued, running, waiting_approval, done, failed,
  cancelled, find_run, is_done, MessageKind, AgentDefinition, SkillVersion, Stage,
}
use agent_quilt.Store.Keeping.{IsStable, Keeps, of_work}
use agent_quilt.Ledger.{append}
use agent_quilt.Runs.{
  move_run, is_moved, any_state, enqueue, is_step, wake, last_step, post, post_to, post_message,
  answered, new_message, cancel, create, created, new_run, first_step, may_bind,
}
use agent_quilt.Runs.Scheduling.{state_at, state_at-move_run, after_move}

-- One move of the state of a run.
infix 40 ◌⟶◌ ◌⟶*◌
pub data ◌⟶◌ : RunState → RunState → Type 0 where
  claimed : queued ⟶ running
  continued : running ⟶ queued
  parked : running ⟶ waiting_approval
  finished : running ⟶ done
  refused : running ⟶ failed
  handed_back : waiting_approval ⟶ queued
  woken : done ⟶ queued
  stopped : (s : RunState) → s ⟶ cancelled

pub data ◌⟶*◌ : RunState → RunState → Type 0 where
  stay : {s : RunState} → s ⟶* s
  next : {s t u : RunState} → s ⟶ t → t ⟶* u → s ⟶* u

pub one : {s t : RunState} → s ⟶ t → s ⟶* t
one e = next e stay

pub trans : {s t u : RunState} → s ⟶* t → t ⟶* u → s ⟶* u
trans stay q = q
trans (next e p) q = next e (trans p q)

-- A run that is not there may come to be, queued at first; one that is there stays.
abbrev pub Along : Option RunState → Option RunState → Type 0
Along none none = Unit {0}
Along none (some t) = queued ⟶* t
Along (some s) none = ⊥
Along (some s) (some t) = s ⟶* t

pub Along-refl : (o : Option RunState) → Along o o
Along-refl none = tt
Along-refl (some s) = stay

pub Along-trans : (a b c : Option RunState) → Along a b → Along b c → Along a c
Along-trans none none c p q = q
Along-trans none (some t) (some u) p q = trans p q
Along-trans none (some t) none p q = absurd q
Along-trans (some s) none c p q = absurd p
Along-trans (some s) (some t) none p q = absurd q
Along-trans (some s) (some t) (some u) p q = trans p q

cancelled_once : {s t : RunState} → s ⟶ t → s ≡ cancelled → t ≡ cancelled
cancelled_once claimed e = absurd (ground (arith, e))
cancelled_once continued e = absurd (ground (arith, e))
cancelled_once parked e = absurd (ground (arith, e))
cancelled_once finished e = absurd (ground (arith, e))
cancelled_once refused e = absurd (ground (arith, e))
cancelled_once handed_back e = absurd (ground (arith, e))
cancelled_once woken e = absurd (ground (arith, e))
cancelled_once (stopped s) e = refl

only_cancelled : {s t : RunState} → s ⟶* t → s ≡ cancelled → t ≡ cancelled
only_cancelled stay e = e
only_cancelled (next p q) e = only_cancelled q (cancelled_once p e)

-- A cancelled run is at the end of the diagram.
pub stays_cancelled : (a b : Option RunState) → Along a b → a ≡ some cancelled → b ≡ some cancelled
stays_cancelled none b p e = absurd (ground (arith, e))
stays_cancelled (some s) none p e = absurd p
stays_cancelled (some s) (some t) p e = ap some (only_cancelled p (ground (arith, e)))

-- Each run has moved along the diagram.
abbrev pub Follows : Db → Db → Type 0
Follows before db = (j : Uuid) → Along (state_at j before.runs) (state_at j db.runs)

pub Follows-refl : (db : Db) → Follows db db
Follows-refl db j = Along-refl (state_at j db.runs)

pub Follows-trans : (a b c : Db) → Follows a b → Follows b c → Follows a c
Follows-trans a b c p q j =
    Along-trans (state_at j a.runs) (state_at j b.runs) (state_at j c.runs) (p j) (q j)

pub Follows-IsStable : (before : Db) → IsStable (Follows before)
Follows-IsStable before =
    of_work (λ runs queue. (j : Uuid) → Along (state_at j before.runs) (state_at j runs))

pub Keeps-Follows {ℓ} :
    {A : Type ℓ} (a b : Db) (r : Result (A × Db))
    → Follows a b
    → Keeps (Follows b) r
    → Keeps (Follows a) r
Keeps-Follows a b (ok (x, c)) p q = Follows-trans a b c p q
Keeps-Follows a b (raise e) p q = tt

-- A guarded move of one run follows the diagram where the guard lets only such moves.
pub moved-Along :
    (guard : RunState → Bool) (new : RunState) (o : Option RunState)
    → ((s : RunState) → o ≡ some s → guard s ≡ true → s ⟶* new)
    → Along o (Option.map (after_move guard new) o)
moved-Along guard new none h = tt
moved-Along guard new (some s) h = elim (Bool-cases (guard s)) [
  | inl e ↦ rw e (h s refl e)
  | inr e ↦ rw e stay
]

pub move_run-Follows :
    (guard : RunState → Bool) (new : RunState) (i : Uuid) (runs : List Run)
    → ((s : RunState) → state_at i runs ≡ some s → guard s ≡ true → s ⟶* new)
    → (j : Uuid) → Along (state_at j runs) (state_at j (move_run guard new i runs))
move_run-Follows guard new i runs h j =
    rw (state_at-move_run guard new i j runs) (elim (Bool-cases (i == j)) [
      | inl e ↦
          let same : i ≡ j = ground arith in
          rw e (
            moved-Along guard new (state_at j runs) (
              subst (λ x. (s : RunState) → state_at x runs ≡ some s → guard s ≡ true → s ⟶* new)
                same h))
      | inr e ↦ rw e (Along-refl (state_at j runs))
    ])

-- The same of a function that returns the database alone.
abbrev pub Leaves : (Db → Type 0) → Result Db → Type 0
Leaves P (ok after) = P after
Leaves P (raise e) = Unit {0}

-- A new row changes no state.
pub enqueue-Follows :
    (i : Uuid) (n : ℕ) (before db : Db)
    → Follows before db
    → Leaves (Follows before) (enqueue i n db)
unfolding enqueue
enqueue-Follows i n before db h = elim (Bool-cases (is_some (find (is_step i n) db.queue))) [
  | inl t ↦ rw (Leaves, enqueue, t) tt
  | inr t ↦ rw (Leaves, enqueue, t) h
]

woken_only : (s : RunState) → is_done s ≡ true → s ⟶* queued
woken_only done e = one woken
woken_only queued e = absurd (ground arith)
woken_only running e = absurd (ground arith)
woken_only waiting_approval e = absurd (ground arith)
woken_only failed e = absurd (ground arith)
woken_only cancelled e = absurd (ground arith)

wake-Follows : (i : Uuid) (db : Db) → Leaves (Follows db) (wake i db)
unfolding wake
wake-Follows i db = elim (Bool-cases (is_moved is_done i db.runs)) [
  | inl e ↦
      rw (Leaves, wake, e)
        (enqueue-Follows i (last_step i db.checkpoints + 1) db
          (record db { runs = move_run is_done queued i db.runs })
          (move_run-Follows is_done queued i db.runs (λ s at g. woken_only s g)))
  | inr e ↦ rw (Leaves, wake, e) (Follows-refl db)
]

module _ (rt : Runtime) (s : Session) (i : Uuid) (kind : MessageKind) (body : Json) (db : Db) where
  abbrev added : Db
  added = record db { draws = suc db.draws; mailbox = new_message rt s i kind body db ∷ db.mailbox }

  answered-Follows :
      (r : Result Db)
      → Leaves (Follows added) r
      → Keeps (Follows db) (answered (new_message rt s i kind body db) r)
  unfolding answered
  answered-Follows (ok after) h = h
  answered-Follows (raise e) h = tt

  post_to-Follows :
      (r : Run) (state : RunState)
      → r.state ≡ state
      → Keeps (Follows db) (post_to rt s i kind body (some r) db)
  unfolding post_to post_message answered
  post_to-Follows r queued e = rw e (Follows-refl db)
  post_to-Follows r running e = rw e (Follows-refl db)
  post_to-Follows r waiting_approval e = rw e (Follows-refl db)
  post_to-Follows r cancelled e = rw e (Follows-refl db)
  post_to-Follows r failed e = rw e (Follows-refl db)
  post_to-Follows r done e = rw e (answered-Follows (wake i added) (wake-Follows i added))

  pub post-Follows : Keeps (Follows db) (post rt s i kind body db)
  unfolding post post_to
  post-Follows = elim (Option-cases (find_run i db.runs)) [
    | inl e ↦ rw (e, post) (Follows-refl db)
    | inr (r, e) ↦ rw (e, post) (post_to-Follows r r.state refl)
  ]

pub cancel-Follows : (s : Session) (i : Uuid) (db : Db) → Follows db (cancel s i db).1
unfolding cancel append
cancel-Follows s i db = elim (Bool-cases (is_moved any_state i db.runs)) [
  | inl e ↦ rw e (move_run-Follows any_state cancelled i db.runs (λ t at g. one (stopped t)))
  | inr e ↦ rw e (Follows-refl db)
]

module _ (rt : Runtime) (s : Session) (d : AgentDefinition) (v : Option SkillVersion)
    (stage : Stage) (db : Db) where
  abbrev row : Run
  row = new_run (rt.uuid4 db.draws) s.principal d v stage db

  row-Follows :
      find_run (rt.uuid4 db.draws) db.runs ≡ none
      → (j : Uuid) → Along (state_at j db.runs) (state_at j (row ∷ db.runs))
  row-Follows fresh j = elim (Bool-cases (rt.uuid4 db.draws == j)) [
    | inl e ↦
        let same : rt.uuid4 db.draws ≡ j = ground arith in
        let missing : find_run j db.runs ≡ none =
          subst (λ x. find_run x db.runs ≡ none) same fresh in
        rw (e, missing) stay
    | inr e ↦ rw e (Along-refl (state_at j db.runs))
  ]

  created-Follows :
      (before : Db) (r : Result Db)
      → Leaves (Follows before) r
      → Keeps (Follows before) (created s row r)
  unfolding created append
  created-Follows before (ok after) h = h
  created-Follows before (raise e) h = tt

  pub create-Follows : Keeps (Follows db) (create rt s d v stage db)
  unfolding create
  create-Follows = elim (Bool-cases (may_bind stage v)) [
    | inr e ↦ rw (Keeps, create, e) tt
    | inl e ↦ elim (Option-cases (find_run (rt.uuid4 db.draws) db.runs)) [
      | inr (old, taken) ↦ rw (Keeps, create, e, taken) tt
      | inl fresh ↦
          let with_row = record db { draws = suc db.draws; runs = row ∷ db.runs } in
          rw (create, e, fresh)
            (created-Follows db (enqueue (rt.uuid4 db.draws) first_step with_row)
              (enqueue-Follows (rt.uuid4 db.draws) first_step db with_row (row-Follows fresh)))
    ]
  ]
