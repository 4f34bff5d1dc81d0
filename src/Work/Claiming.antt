-- ===== src/Work/Claiming.antt =====
-- What a claim takes: a free step of a run that may be worked, held until its lease runs out.
use agent_quilt.Base.{
  ℕ, ◌+◌, ◌≡◌, ◌≢◌, refl, ◌==◌, Bool, true, false, Option, none, some, String, List, [], ◌∷◌, arith,
  find, filter, count, update_where, is_some, Bool-cases, Option-cases, inl, inr, ◌⊎◌, ==_refl, ap,
  ◌∙◌, All, ◌<◌, ◌≤◌, eq_iff, not,
}
use mathlib.Core.Path.{subst, sym}
use mathlib.Core.List.{Mem, mem-cons_self, mem-cons_of_mem}
use agent_quilt.Runtime.{Uuid, Time}
use agent_quilt.Store.{Db, RunState, queued, running, StepQueue, find_run}
use agent_quilt.Runs.{is_of, is_step, any_state}
use agent_quilt.Runs.Scheduling.{IsScheduled, wanted, state_at, state_at-move_run, count_zero-find}
use agent_quilt.Work.{claim, claim_row, take_lease, earliest, may_claim, is_before, lease, Claimed}
use agent_quilt.Work.Leaving.{IsHeld}

earliest_cons :
    (q : StepQueue) (rows : List StepQueue) (r : StepQueue)
    → earliest (q ∷ rows) ≡ some r
    → (q ≡ r) ⊎ (earliest rows ≡ some r)
earliest_cons q rows r h = elim (Option-cases (earliest rows)) [
  | inl e ↦ inl (let k = rw e at h in ground arith)
  | inr (x, e) ↦ elim (Bool-cases (is_before x q)) [
    | inl first ↦ inr (e ∙ (rw (e, first) at h))
    | inr later ↦ inl (let k = rw (e, later) at h in ground arith)
  ]
]

-- The earliest of the rows that pass is a row, and passes.
pub earliest-filter :
    (P : StepQueue → Type 0) (p : StepQueue → Bool) (rows : List StepQueue) (r : StepQueue)
    → All P rows
    → earliest (filter p rows) ≡ some r
    → (p r ≡ true) × P r
earliest-filter P p [] r all h = absurd (ground arith)
earliest-filter P p (q ∷ rows) r (this, all) h = elim (Bool-cases (p q)) [
  | inl e ↦ elim (earliest_cons q (filter p rows) r (rw e at h)) [
    | inl same ↦ (subst (λ x. p x ≡ true) same e, subst P same this)
    | inr rest ↦ earliest-filter P p rows r all rest
  ]
  | inr e ↦ earliest-filter P p rows r all (rw e at h)
]

earliest_some : (q : StepQueue) (rows : List StepQueue) → earliest (q ∷ rows) ≢ none
earliest_some q rows h = elim (Option-cases (earliest rows)) [
  | inl e ↦ (let k = rw e at h in ground arith)
  | inr (x, e) ↦ elim (Bool-cases (is_before x q)) [
    | inl first ↦ (let k = rw (e, first) at h in ground arith)
    | inr later ↦ (let k = rw (e, later) at h in ground arith)
  ]
]

pub IsThere : List StepQueue → StepQueue → Type 0
IsThere rows q = find (is_step q.run_id q.step_no) rows ≢ none

-- The lease of the rows of a run.
abbrev pub IsLeased : Uuid → Time → StepQueue → Type 0
IsLeased i until q = is_of i q ≡ true → q.lease_until ≡ some until

Mem-tail :
    (q : StepQueue) (part rows : List StepQueue)
    → All (λ r. Mem r rows) part
    → All (λ r. Mem r (q ∷ rows)) part
Mem-tail q [] rows h = tt
Mem-tail q (r ∷ part) rows (this, h) = (mem-cons_of_mem q this, Mem-tail q part rows h)

All-Mem : (rows : List StepQueue) → All (λ r. Mem r rows) rows
All-Mem [] = tt
All-Mem (q ∷ rows) = (mem-cons_self, Mem-tail q rows rows (All-Mem rows))

both {ℓ κ} :
    (P : StepQueue → Type ℓ) (Q : StepQueue → Type κ) (rows : List StepQueue)
    → All P rows
    → All Q rows
    → All (λ q. P q × Q q) rows
both P Q [] h k = tt
both P Q (q ∷ rows) (p, h) (x, k) = ((p, x), both P Q rows h k)

IsThere-cons :
    (q : StepQueue) (part rows : List StepQueue)
    → All (IsThere rows) part
    → All (IsThere (q ∷ rows)) part
unfolding IsThere
IsThere-cons q [] rows h = tt
IsThere-cons q (r ∷ part) rows (h, hs) = ((λ e. h (ground arith)), IsThere-cons q part rows hs)

pub All-IsThere : (rows : List StepQueue) → All (IsThere rows) rows
unfolding IsThere
All-IsThere [] = tt
All-IsThere (q ∷ rows) = (
  (λ e. ground (arith, ==_refl q.run_id, ==_refl q.step_no)),
  IsThere-cons q rows rows (All-IsThere rows),
)

-- The queue after a claim: the lease is on the claimed step.
abbrev taken : String → Time → Uuid → ℕ → List StepQueue → List StepQueue
taken worker now i n =
    update_where (is_step i n)
      (λ x. record x { lease_until = some (now + lease); claimed_by = some worker })

count-taken :
    (worker : String) (now : Time) (i j : Uuid) (n : ℕ) (rows : List StepQueue)
    → count (is_of j) (taken worker now i n rows) ≡ count (is_of j) rows
count-taken worker now i j n [] = refl
count-taken worker now i j n (q ∷ rows) = ground (arith, count-taken worker now i j n rows)

leased_none :
    (worker : String) (now : Time) (i : Uuid) (n : ℕ) (rows : List StepQueue)
    → count (is_of i) rows ≡ 0
    → All (λ q. is_of i q ≡ true → q.lease_until ≡ some (now + lease)) (taken worker now i n rows)
leased_none worker now i n [] h = tt
leased_none worker now i n (q ∷ rows) h =
    ((λ e. absurd (ground (arith, e))), leased_none worker now i n rows (ground arith))

leased :
    (worker : String) (now : Time) (i : Uuid) (n : ℕ) (rows : List StepQueue)
    → count (is_of i) rows ≡ 1
    → find (is_step i n) rows ≢ none
    → All (λ q. is_of i q ≡ true → q.lease_until ≡ some (now + lease)) (taken worker now i n rows)
leased worker now i n [] h f = tt
leased worker now i n (q ∷ rows) h f = elim (Bool-cases (is_step i n q)) [
  | inl e ↦ rw e ((λ x. refl), leased_none worker now i n rows (ground (arith, e)))
  | inr e ↦ elim (Bool-cases (is_of i q)) [
    | inl mine ↦ absurd (f (rw e (count_zero-find i n rows (ground (arith, mine)))))
    | inr other ↦ (
      (λ x. absurd (ground (arith, x))),
      leased worker now i n rows (ground (arith, other)) (λ x. f (rw e x)),
    )
  ]
]

pub earliest-none :
    (p : StepQueue → Bool) (rows : List StepQueue)
    → earliest (filter p rows) ≡ none
    → All (λ q. p q ≡ false) rows
earliest-none p [] h = tt
earliest-none p (q ∷ rows) h = elim (Bool-cases (p q)) [
  | inl e ↦ absurd (earliest_some q (filter p rows) (rw e at h))
  | inr e ↦ (e, earliest-none p rows (rw e at h))
]

not_taken :
    (worker : String) (now : Time) (i : Uuid) (n : ℕ) (rows : List StepQueue)
    → find (is_step i n) (taken worker now i n rows) ≡ none
    → find (is_step i n) rows ≡ none
not_taken worker now i n [] h = refl
not_taken worker now i n (q ∷ rows) h = ground (arith, not_taken worker now i n rows)

kept_rows :
    (worker : String) (now : Time) (i : Uuid) (n : ℕ) (rows : List StepQueue)
    → filter (λ q. not (is_of i q)) (taken worker now i n rows) ≡ filter (λ q. not (is_of i q)) rows
kept_rows worker now i n [] = refl
kept_rows worker now i n (q ∷ rows) = ground (arith, kept_rows worker now i n rows)

kept_leases :
    (until : Time) (worker : String) (now : Time) (i j : Uuid) (n : ℕ) (rows : List StepQueue)
    → (i == j) ≡ false
    → All (IsLeased j until) rows
    → All (IsLeased j until) (taken worker now i n rows)
kept_leases until worker now i j n [] e h = tt
kept_leases until worker now i j n (q ∷ rows) e (this, h) =
    (ground (arith, e, this), kept_leases until worker now i j n rows e h)

-- A row that may be taken: it is of the main queue, its run is queued or running and is not locked, and
-- a lease that it has is over.
abbrev pub MayTake : (Uuid → Bool) → Time → Db → StepQueue → Type 0
MayTake locked now db q =
    (q.queue_tag ≡ "main")
    × ((state_at q.run_id db.runs ≡ some queued) ⊎ (state_at q.run_id db.runs ≡ some running))
    × ((t : Time) → q.lease_until ≡ some t → t ≤ now)
    × (locked q.run_id ≡ false)

may_claim-MayTake :
    (locked : Uuid → Bool) (now : Time) (db : Db) (q : StepQueue)
    → may_claim locked now db q ≡ true
    → MayTake locked now db q
may_claim-MayTake locked now db q e = (
  ground (arith, eq_iff q.queue_tag "main", e),
  elim (Option-cases (find_run q.run_id db.runs)) [
    | inl missing ↦ absurd (ground (arith, e, missing))
    | inr (r, found) ↦ ground (arith, e, found)
  ],
  (λ t leased. ground (arith, e, leased)),
  ground (arith, e),
)

MayTake-may_claim :
    (locked : Uuid → Bool) (now : Time) (db : Db) (q : StepQueue)
    → MayTake locked now db q
    → may_claim locked now db q ≡ true
MayTake-may_claim locked now db q (tag, state, free, unlocked) =
    elim (Option-cases (find_run q.run_id db.runs)) [
      | inl missing ↦ absurd (ground (arith, state, missing))
      | inr (r, found) ↦ elim (Option-cases q.lease_until) [
        | inl never ↦ ground (arith, eq_iff q.queue_tag "main", tag, state, found, never, unlocked)
        | inr (t, leased) ↦
            ground
              (arith, eq_iff q.queue_tag "main", tag, state, found, leased, free t leased, unlocked)
      ]
    ]

none_may :
    (locked : Uuid → Bool) (now : Time) (db : Db) (rows : List StepQueue)
    → All (λ q. may_claim locked now db q ≡ false) rows
    → All (λ q. MayTake locked now db q → ⊥) rows
none_may locked now db [] h = tt
none_may locked now db (q ∷ rows) (this, h) = (
  (λ may. let k = MayTake-may_claim locked now db q may in ground (arith, this)),
  none_may locked now db rows h,
)

abbrev claimed_run : Uuid → Option Claimed → Uuid
claimed_run i none = i
claimed_run i (some c) = c.run_id

-- A claim: where no row may be taken it changes nothing; otherwise the row it takes might be taken, the
-- claimed step is held, the rows of its run carry the lease, and the other runs are as they were.
abbrev pub IsClaim : (Uuid → Bool) → Time → Db → Option Claimed × Db → Type 0
IsClaim locked now db (none, after) = All (λ q. MayTake locked now db q → ⊥) db.queue × (after ≡ db)
IsClaim locked now db (some c, after) =
    IsScheduled after
    × IsHeld c.run_id c.step_no after
    × All (IsLeased c.run_id (now + lease)) after.queue
    × ((q : StepQueue) × Mem q db.queue
        × MayTake locked now db q
        × (q.run_id ≡ c.run_id)
        × (q.step_no ≡ c.step_no))
    × (filter (λ q. not (is_of c.run_id q)) after.queue
        ≡ filter (λ q. not (is_of c.run_id q)) db.queue)
    × ((j : Uuid) → (c.run_id == j) ≡ false → state_at j after.runs ≡ state_at j db.runs)

module _ (locked : Uuid → Bool) (worker : String) (now : Time) (db : Db) (h : IsScheduled db) where
  claimable :
      (q : StepQueue)
      → may_claim locked now db q ≡ true
      → (s : RunState) × (state_at q.run_id db.runs ≡ some s) × (wanted (some s) ≡ 1)
  claimable q may = elim (Option-cases (find_run q.run_id db.runs)) [
    | inl e ↦ absurd (ground (arith, e))
    | inr (r, e) ↦ (r.state, rw e refl, ground (arith, e))
  ]

  taken-IsScheduled :
      (q : StepQueue)
      → may_claim locked now db q ≡ true
      → IsScheduled (take_lease worker now q db).1
  unfolding take_lease
  taken-IsScheduled q may j =
      let (s, at, busy) = claimable q may in
      rw
        (
          count-taken worker now q.run_id j q.step_no db.queue,
          state_at-move_run any_state running q.run_id j db.runs,
        )
        (elim (Bool-cases (q.run_id == j)) [
          | inl same ↦
              let ij : q.run_id ≡ j = ground arith in
              ground (arith, h j, ap (λ x. state_at x db.runs) ij, at)
          | inr other ↦ ground (arith, h j)
        ])

  taken-IsHeld :
      (q : StepQueue)
      → may_claim locked now db q ≡ true
      → IsThere db.queue q
      → IsHeld q.run_id q.step_no (take_lease worker now q db).1
  unfolding take_lease IsThere
  taken-IsHeld q may there =
      let (s, at, busy) = claimable q may in
      (
        rw (state_at-move_run any_state running q.run_id q.run_id db.runs)
            (ground (arith, at, ==_refl q.run_id)),
        (λ e. there (not_taken worker now q.run_id q.step_no db.queue e)),
      )

  take-IsClaim :
      (q : StepQueue)
      → may_claim locked now db q ≡ true
      → IsThere db.queue q
      → Mem q db.queue
      → IsClaim locked now db (some (take_lease worker now q db).0, (take_lease worker now q db).1)
  unfolding take_lease IsThere
  take-IsClaim q may there row =
      let (s, at, busy) = claimable q may in
      (
        taken-IsScheduled q may,
        taken-IsHeld q may there,
        leased worker now q.run_id q.step_no db.queue (h q.run_id ∙ ap wanted at ∙ busy) there,
        (q, row, may_claim-MayTake locked now db q may, refl, refl),
        kept_rows worker now q.run_id q.step_no db.queue,
        λ j other. rw (state_at-move_run any_state running q.run_id j db.runs) (rw other refl),
      )

-- Where runs and queue agree, a claim takes one step at the most, and they agree afterwards. It takes
-- none only where no row may be taken, and then changes nothing. The row it takes is one of the main
-- queue whose run was queued or running and not locked, and whose lease, if it had one, was over. The
-- run is then running, the row still stands and every row of the run carries the lease, which ends
-- `lease` after the claim. The rows and the states of all other runs are as they were.
pub claim-IsClaim :
    (locked : Uuid → Bool) (worker : String) (now : Time) (db : Db)
    → IsScheduled db
    → IsClaim locked now db (claim locked worker now db)
unfolding claim claim_row IsThere
claim-IsClaim locked worker now db h =
    elim (Option-cases (earliest (filter (may_claim locked now db) db.queue))) [
      | inl e ↦
          subst (λ x. IsClaim locked now db (claim_row worker now x db)) (sym e)
            (
              none_may locked now db db.queue (earliest-none (may_claim locked now db) db.queue e),
              refl,
            )
      | inr (q, e) ↦
          let (may, (there, row)) =
            earliest-filter (λ x. IsThere db.queue x × Mem x db.queue) (may_claim locked now db)
              db.queue q (both _ _ db.queue (All-IsThere db.queue) (All-Mem db.queue)) e in
          subst (λ x. IsClaim locked now db (claim_row worker now x db)) (sym e)
            (take-IsClaim locked worker now db h q may there row)
    ]

-- The row that a claim picks.
claim_picks :
    (locked : Uuid → Bool) (worker : String) (now : Time) (db : Db) (P : StepQueue → Type 0)
    (c : Claimed) (after : Db)
    → All P db.queue
    → claim locked worker now db ≡ (some c, after)
    → (q : StepQueue) × (may_claim locked now db q ≡ true) × P q × (q.run_id ≡ c.run_id)
unfolding claim claim_row take_lease
claim_picks locked worker now db P c after all claims =
    elim (Option-cases (earliest (filter (may_claim locked now db) db.queue))) [
      | inl e ↦
          let k =
            ap (λ (x : Option Claimed × Db). is_some x.0)
              (sym claims ∙ ap (λ x. claim_row worker now x db) e) in
          absurd (ground arith)
      | inr (q, e) ↦
          let (may, holds) = earliest-filter P (may_claim locked now db) db.queue q all e in
          (
            q,
            may,
            holds,
            ap (λ (x : Option Claimed × Db). claimed_run q.run_id x.0)
                (sym (ap (λ x. claim_row worker now x db) e) ∙ claims),
          )
    ]

-- Claims before a moment, in sequence, by any workers.
pub data Claims (until : Time) : Db → Db → Type 0 where
  no_more : {db : Db} → Claims until db db
  further :
      {db mid : Db} (locked : Uuid → Bool) (worker : String) (now : Time)
      → now < until
      → Claims until db mid
      → Claims until db (claim locked worker now mid).1

-- A claim does not touch a lease that is not over.
claim-IsLeased :
    (i : Uuid) (until : Time) (locked : Uuid → Bool) (worker : String) (now : Time) (db : Db)
    → now < until
    → All (IsLeased i until) db.queue
    → All (IsLeased i until) (claim locked worker now db).1.queue
unfolding claim claim_row take_lease
claim-IsLeased i until locked worker now db early h =
    elim (Option-cases (earliest (filter (may_claim locked now db) db.queue))) [
      | inl e ↦ subst (λ x. All (IsLeased i until) (claim_row worker now x db).1.queue) (sym e) h
      | inr (q, e) ↦
          let (may, held) =
            earliest-filter (IsLeased i until) (may_claim locked now db) db.queue q h e in
          let (_, _, free, _) = may_claim-MayTake locked now db q may in
          subst (λ x. All (IsLeased i until) (claim_row worker now x db).1.queue) (sym e)
            (kept_leases until worker now q.run_id i q.step_no db.queue
              (elim (Bool-cases (q.run_id == i)) [
                | inl same ↦
                    absurd (let over = free until (held same) in omega (arith, over, early))
                | inr other ↦ other
              ])
              h)
    ]

Claims-IsLeased :
    (i : Uuid) (until : Time) {db after : Db}
    → Claims until db after
    → All (IsLeased i until) db.queue
    → All (IsLeased i until) after.queue
Claims-IsLeased i until no_more h = h
Claims-IsLeased i until (further {db} {mid} locked worker now early cs) h =
    claim-IsLeased i until locked worker now mid early (Claims-IsLeased i until cs h)

-- Where runs and queue agree, a run that a worker has claimed is not claimed again by further claims
-- before its lease has run out: whatever claims by any workers follow the first, each at a time before
-- `now + lease`, the next such claim takes another run or none. Only claims come between.
pub claim_exclusive :
    (locked locked' : Uuid → Bool) (worker worker' : String) (now now' : Time)
    (db after mid last : Db) (c d : Claimed)
    → IsScheduled db
    → claim locked worker now db ≡ (some c, after)
    → Claims (now + lease) after mid
    → claim locked' worker' now' mid ≡ (some d, last)
    → now' < now + lease
    → d.run_id ≢ c.run_id
claim_exclusive locked locked' worker worker' now now' db after mid last c d h first others second
      early same =
    let (_, _, held, _, _, _) =
      subst (IsClaim locked now db) first (claim-IsClaim locked worker now db h) in
    let (q, may, holds, run) =
      claim_picks locked' worker' now' mid (IsLeased c.run_id (now + lease)) d last
        (Claims-IsLeased c.run_id (now + lease) others held) second in
    let until = holds (ground (arith, ==_refl c.run_id)) in ground (arith, until)
