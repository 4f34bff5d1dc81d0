-- ===== src/Tick/Expiry.antt =====
-- What a pass of the tick brings about.
use agent_quilt.Base.{
  ℕ, suc, ◌+◌, ◌≡◌, ◌≢◌, refl, ◌==◌, Bool, true, false, Option, none, some, List, [], ◌∷◌, arith,
  find, filter, count, update_where, Bool-cases, Option-cases, inl, inr, ==_refl, ◌∙◌, All,
  update_where-none,
}
use mathlib.Core.Path.{subst, sym}
use agent_quilt.Runtime.{Uuid, Time}
use agent_quilt.Store.{Db, ok, Approval, StepQueue, queued, waiting_approval, is_waiting, find_run}
use agent_quilt.Runs.{is_of, is_moved, move_run, queue_row}
use agent_quilt.Runs.Scheduling.{
  IsScheduled, wanted, state_at, enqueue_idle, is_moved_state, requeue-IsScheduled,
  state_at-move_run,
}
use agent_quilt.Tick.{
  Pass, is_lapsed, reap, is_stale, is_open_request, hand_back, flagged, counted, expire_request,
  continue_expired, expire_each, expire, passed, tick_once,
}

-- A run that waits for an approval is handed back with a queue row for the given step. The hand-back
-- never collides with a row that is there, keeps runs and queue in agreement and leaves the
-- approvals alone.
pub hand_back-IsScheduled :
    (i : Uuid) (n : ℕ) (db : Db)
    → IsScheduled db
    → (after : Db) × (hand_back i n db ≡ ok (is_moved is_waiting i db.runs, after))
      × IsScheduled after
      × (after.approvals ≡ db.approvals)
      × (state_at i db.runs ≡ some waiting_approval → state_at i after.runs ≡ some queued)
unfolding hand_back flagged
hand_back-IsScheduled i n db h = elim (Bool-cases (is_moved is_waiting i db.runs)) [
  | inl e ↦
      let (s, at, g) = is_moved_state is_waiting i db.runs e in
      let idle : wanted (some s) ≡ 0 = ground arith in
      let moved = record db { runs = move_run is_waiting queued i db.runs } in
      (
        record moved { queue = queue_row i n ∷ db.queue },
        rw (e, enqueue_idle i n moved (h i ∙ rw at idle)) refl,
        requeue-IsScheduled is_waiting i n db s h at g idle,
        refl,
        λ waits.
            rw (state_at-move_run is_waiting queued i i db.runs) (ground (arith, ==_refl i, waits)),
      )
  | inr e ↦ (db, rw e refl, h, refl, λ waits. absurd (not_waiting e waits))
]
  where
    not_waiting :
        is_moved is_waiting i db.runs ≡ false → state_at i db.runs ≡ some waiting_approval → ⊥
    not_waiting e waits = elim (Option-cases (find_run i db.runs)) [
      | inl missing ↦ ground (arith, missing)
      | inr (r, found) ↦ ground (arith, found)
    ]

continue_expired-IsScheduled :
    (a : Approval) (db : Db)
    → IsScheduled db
    → (k : ℕ) × (after : Db) × (continue_expired a db ≡ ok (k, after))
      × IsScheduled after
      × (after.approvals ≡ expire_request a.id db.approvals)
unfolding continue_expired counted
continue_expired-IsScheduled a db h =
    elim (Option-cases (find (is_open_request a.id) db.approvals)) [
      | inl e ↦
          (0, db, rw e refl, h, sym (update_where-none (is_open_request a.id) _ db.approvals e))
      | inr (b, e) ↦
          let (after, done, agrees, same, _) =
            hand_back-IsScheduled a.run_id a.step_no
              (record db { approvals = expire_request a.id db.approvals }) h in
          (1, after, rw (e, done) refl, agrees, same)
    ]

-- Every stale request is one that the loop still has before it.
Covered : Time → List Approval → List Approval → Type 0
Covered now stale rows =
    All (λ b. is_stale now b ≡ true → find (λ x. x.id == b.id) stale ≢ none) rows

expire_request-Covered :
    (now : Time) (a : Approval) (stale rows : List Approval)
    → Covered now (a ∷ stale) rows
    → Covered now stale (expire_request a.id rows)
unfolding Covered
expire_request-Covered now a stale [] h = tt
expire_request-Covered now a stale (b ∷ rows) (this, h) = (
  elim (Bool-cases (is_open_request a.id b)) [
    | inl t ↦ rw t (λ e. absurd (ground (arith, e)))
    | inr t ↦ rw t (λ e gone. this e (ground (arith, t, e, gone)))
  ],
  expire_request-Covered now a stale rows h,
)

Covered-cons :
    (now : Time) (a : Approval) (stale rows : List Approval)
    → Covered now stale rows
    → Covered now (a ∷ stale) rows
unfolding Covered
Covered-cons now a stale [] h = tt
Covered-cons now a stale (b ∷ rows) (this, h) =
    ((λ e gone. this e (ground (arith, gone))), Covered-cons now a stale rows h)

Covered-filter : (now : Time) (rows : List Approval) → Covered now (filter (is_stale now) rows) rows
unfolding Covered
Covered-filter now [] = tt
Covered-filter now (b ∷ rows) = elim (Bool-cases (is_stale now b)) [
  | inl e ↦
      let kept : filter (is_stale now) (b ∷ rows) ≡ b ∷ filter (is_stale now) rows = rw e refl in
      subst (λ l. Covered now l (b ∷ rows)) (sym kept)
        (
          (λ x gone. ground (arith, ==_refl b.id, gone)),
          Covered-cons now b (filter (is_stale now) rows) rows (Covered-filter now rows),
        )
  | inr e ↦
      let kept : filter (is_stale now) (b ∷ rows) ≡ filter (is_stale now) rows = rw e refl in
      subst (λ l. Covered now l (b ∷ rows)) (sym kept)
        ((λ x. absurd (ground (arith, x, e))), Covered-filter now rows)
]

Covered-none :
    (now : Time) (rows : List Approval)
    → Covered now [] rows
    → All (λ b. is_stale now b ≡ false) rows
unfolding Covered
Covered-none now [] h = tt
Covered-none now (b ∷ rows) (this, h) = elim (Bool-cases (is_stale now b)) [
  | inl e ↦ absurd (this e refl)
  | inr e ↦ (e, Covered-none now rows h)
]

expire_each-IsScheduled :
    (now : Time) (lead : ℕ → Bool) (n : ℕ) (stale : List Approval) (db : Db)
    → IsScheduled db
    → Covered now stale db.approvals
    → (k : ℕ) × (after : Db) × (expire_each lead n stale db ≡ ok (k, after))
      × IsScheduled after
      × (((x : ℕ) → lead x ≡ true) → Covered now [] after.approvals)
unfolding expire_each
expire_each-IsScheduled now lead n [] db h c = (n, db, refl, h, λ l. c)
expire_each-IsScheduled now lead n (a ∷ stale) db h c = elim (Bool-cases (lead 0)) [
  | inl e ↦
      let (k, mid, step, agrees, same) = continue_expired-IsScheduled a db h in
      let (m, after, rest, ends, none_left) =
        expire_each-IsScheduled now (λ x. lead (suc x)) (n + k) stale mid agrees
          (subst (Covered now stale) (sym same)
            (expire_request-Covered now a stale db.approvals c)) in
      (m, after, rw (e, step) rest, ends, λ l. none_left (λ x. l (suc x)))
  | inr e ↦ (n, db, rw e refl, h, λ l. absurd (let k = l 0 in ground (arith, k, e)))
]

count-reap :
    (now : Time) (i : Uuid) (rows : List StepQueue)
    → count (is_of i) (
        update_where (is_lapsed now) (λ q. record q { lease_until = none; claimed_by = none }) rows)
      ≡ count (is_of i) rows
count-reap now i [] = refl
count-reap now i (q ∷ rows) = ground (arith, count-reap now i rows)

reap-IsScheduled : (now : Time) (db : Db) → IsScheduled db → IsScheduled (reap now db).1
unfolding reap
reap-IsScheduled now db h i = count-reap now i db.queue ∙ h i

-- Where runs and queue agree, a pass of the tick never fails and they agree after it. A pass that
-- has the lead to its end leaves no request whose time has run out at its second reading of the
-- clock.
pub tick_once-IsScheduled :
    (lead : ℕ → Bool) (begin later : Time) (db : Db)
    → IsScheduled db
    → (p : Option Pass) × (after : Db) × (tick_once lead begin later db ≡ ok (p, after))
      × IsScheduled after
      × (((n : ℕ) → lead n ≡ true) → All (λ a. is_stale later a ≡ false) after.approvals)
unfolding tick_once expire passed
tick_once-IsScheduled lead begin later db h = elim (Bool-cases (lead 0)) [
  | inl e ↦
      let mid = (reap begin db).1 in
      let (k, after, done, agrees, none_left) =
        expire_each-IsScheduled later (λ x. lead (suc x)) 0 (filter (is_stale later) mid.approvals)
          mid (reap-IsScheduled begin db h) (Covered-filter later mid.approvals) in
      (
        some (record { reaped = (reap begin db).0; expired = k }),
        after,
        rw (e, done) refl,
        agrees,
        λ l. Covered-none later after.approvals (none_left (λ x. l (suc x))),
      )
  | inr e ↦ (none, db, rw e refl, h, λ l. absurd (let k = l 0 in ground (arith, k, e)))
]
