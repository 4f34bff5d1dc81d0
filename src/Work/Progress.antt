-- ===== src/Work/Progress.antt =====
-- Claims use the queue up: each takes one claimable row away, and none comes back before its lease ends.
use agent_quilt.Base.{
  ℕ, zero, suc, ◌+◌, ◌≤◌, ◌<◌, ◌≡◌, refl, ◌==◌, ◌&&◌, Bool, true, false, none, some, String, List,
  [], ◌∷◌, arith, inl, inr, Bool-cases, Option-cases, filter, count, update_where, All, ==_refl,
  find-update_where, find_holds, leb, sym,
}
use mathlib.Core.Path.{subst}
use agent_quilt.Runtime.{Uuid, Time}
use agent_quilt.Store.{Db, Run, running, StepQueue, find_run}
use agent_quilt.Runs.{is_step, any_state, may_move, move_run}
use agent_quilt.Work.{claim, claim_row, take_lease, earliest, may_claim, is_claimable, lease}
use agent_quilt.Work.Claiming.{earliest-filter, earliest-none}

module _ (locked : Uuid → Bool) (worker : String) (now : Time) where
  -- The rows that may be claimed.
  abbrev pub claimable_rows : Db → ℕ
  claimable_rows db = count (may_claim locked now db) db.queue

  module _ (db : Db) (q : StepQueue) (may : may_claim locked now db q ≡ true) where
    abbrev taken_db : Db
    taken_db = record db {
      queue =
          update_where (is_step q.run_id q.step_no)
            (λ x. record x { lease_until = some (now + lease); claimed_by = some worker }) db.queue;
      runs = move_run any_state running q.run_id db.runs;
    }

    -- The claimed run may be claimed as it could before, and so may any other.
    same_claimable :
        (i : Uuid) → is_claimable (find_run i taken_db.runs) ≡ is_claimable (find_run i db.runs)
    same_claimable i =
        rw
          (find-update_where (λ (r : Run). r.id == i) (may_move any_state q.run_id)
            (λ r. record r { state = running }) db.runs (λ x. refl))
          (elim (Option-cases (find_run i db.runs)) [
            | inl missing ↦ rw missing refl
            | inr (r, found) ↦
                let same : r.id ≡ i =
                  ground (arith, find_holds (λ (x : Run). x.id == i) db.runs r found) in
                elim (Bool-cases (r.id == q.run_id)) [
                  | inl mine ↦
                      let here : find_run q.run_id db.runs ≡ some r =
                        subst (λ x. find_run x db.runs ≡ some r) (ground (arith, mine, same))
                          found in
                      ground (arith, found, here, may, mine)
                  | inr other ↦ rw found (ground (arith, other))
                ]
          ])

    -- A row of another step may be claimed as before, and the claimed one may not.
    other_row :
        (r : StepQueue)
        → is_step q.run_id q.step_no r ≡ false
        → may_claim locked now taken_db r ≡ may_claim locked now db r
    other_row r e = rw (same_claimable r.run_id) refl

    taken_row :
        (r : StepQueue)
        → may_claim locked now taken_db
            (record r { lease_until = some (now + lease); claimed_by = some worker })
          ≡ false
    taken_row r = ground (arith, leased_out)
      where
        leased_out : leb (now + lease) now ≡ false
        leased_out = ground arith

    claimed_here : StepQueue → Bool
    claimed_here r = is_step q.run_id q.step_no r && may_claim locked now db r

    -- Of the rows that might be claimed, those of the claimed step are no more.
    count-taken_db :
        (rows : List StepQueue)
        → count (may_claim locked now taken_db) (
              update_where
                (is_step q.run_id q.step_no)
                (λ x. record x { lease_until = some (now + lease); claimed_by = some worker })
                rows)
            + count claimed_here rows
          ≡ count (may_claim locked now db) rows
    unfolding claimed_here
    count-taken_db [] = refl
    count-taken_db (r ∷ rows) = elim (Bool-cases (is_step q.run_id q.step_no r)) [
      | inl e ↦ rw (e, taken_row r) (omega (arith, count-taken_db rows))
      | inr e ↦ rw (e, other_row r e) (omega (arith, count-taken_db rows))
    ]

  -- A row that may be claimed is counted among those of its step.
  abbrev IsCounted : Db → List StepQueue → StepQueue → Type 0
  IsCounted db rows q =
      may_claim locked now db q ≡ true
      → 0 < count (λ r. is_step q.run_id q.step_no r && may_claim locked now db r) rows

  IsCounted-cons :
      (db : Db) (r : StepQueue) (part rows : List StepQueue)
      → All (IsCounted db rows) part
      → All (IsCounted db (r ∷ rows)) part
  IsCounted-cons db r [] rows h = tt
  IsCounted-cons db r (q ∷ part) rows (this, h) =
      ((λ may. omega (arith, this may)), IsCounted-cons db r part rows h)

  All-IsCounted : (db : Db) (rows : List StepQueue) → All (IsCounted db rows) rows
  All-IsCounted db [] = tt
  All-IsCounted db (q ∷ rows) = (
    (λ may. rw (==_refl q.run_id, ==_refl q.step_no, may) (omega arith)),
    IsCounted-cons db q rows rows (All-IsCounted db rows),
  )

  -- A claim that takes a step leaves fewer rows to claim.
  claim_shrinks :
      (db : Db) (q : StepQueue)
      → earliest (filter (may_claim locked now db) db.queue) ≡ some q
      → claimable_rows (take_lease worker now q db).1 < claimable_rows db
  unfolding take_lease claimed_here
  claim_shrinks db q e =
      let (may, counted) =
        earliest-filter (IsCounted db db.queue) (may_claim locked now db) db.queue q
          (All-IsCounted db db.queue) e in
      omega (arith, count-taken_db db q may db.queue, counted may)

  -- Claims one after another, with nothing between them.
  pub claim_times : ℕ → Db → Db
  claim_times zero db = db
  claim_times (suc n) db = claim_times n (claim locked worker now db).1

  count-none :
      (p : StepQueue → Bool) (rows : List StepQueue)
      → All (λ q. p q ≡ false) rows
      → count p rows ≡ 0
  count-none p [] h = refl
  count-none p (q ∷ rows) (this, h) = ground (arith, this, count-none p rows h)

  -- A worker that claims and does nothing else comes to an end: as many claims as there are claimable
  -- rows leave nothing to claim, since no claimed row is free again before its lease has run out.
  pub claims_end :
      (n : ℕ) (db : Db)
      → claimable_rows db ≤ n
      → (claim locked worker now (claim_times n db)).0 ≡ none
  unfolding claim_times claim claim_row
  claims_end zero db h =
      elim (Option-cases (earliest (filter (may_claim locked now db) db.queue))) [
        | inl e ↦ rw e refl
        | inr (q, e) ↦ absurd (omega (arith, h, claim_shrinks db q e))
      ]
  claims_end (suc n) db h =
      elim (Option-cases (earliest (filter (may_claim locked now db) db.queue))) [
        | inl e ↦
            let same : (claim locked worker now db).1 ≡ db = rw (claim, e) refl in
            subst (λ d. (claim locked worker now (claim_times n d)).0 ≡ none) (sym same)
              (claims_end n db (
                omega (
                  arith,
                  count-none (may_claim locked now db) db.queue
                      (earliest-none (may_claim locked now db) db.queue e),
                )))
        | inr (q, e) ↦
            let taken : (claim locked worker now db).1 ≡ (take_lease worker now q db).1 =
              rw (claim, e) refl in
            subst (λ d. (claim locked worker now (claim_times n d)).0 ≡ none) (sym taken)
              (claims_end n (take_lease worker now q db).1 (omega (arith, h, claim_shrinks db q e)))
      ]
