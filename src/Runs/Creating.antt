-- ===== src/Runs/Creating.antt =====
-- A new run comes with the queue row of its first step.
use agent_quilt.Base.{
  suc, ◌≡◌, refl, ◌==◌, Option, none, ◌∷◌, arith, count, inl, inr, Bool-cases, Option-cases, ap,
  ◌∙◌,
}
use agent_quilt.Runtime.{Uuid, Runtime}
use agent_quilt.Store.{Db, Session, Run, find_run, AgentDefinition, SkillVersion, Stage}
use agent_quilt.Store.Keeping.{Keeps}
use agent_quilt.Ledger.{append}
use agent_quilt.Runs.{is_of, queue_row, create, created, new_run, first_step, may_bind}
use agent_quilt.Runs.Scheduling.{IsScheduled, wanted, state_at, enqueue_idle}

module _ (rt : Runtime) (s : Session) (d : AgentDefinition) (v : Option SkillVersion)
    (stage : Stage) (db : Db) where
  abbrev row : Run
  row = new_run (rt.uuid4 db.draws) s.principal d v stage db

  with_row-IsScheduled :
      IsScheduled db
      → find_run (rt.uuid4 db.draws) db.runs ≡ none
      → (j : Uuid)
      → count (is_of j) (queue_row (rt.uuid4 db.draws) first_step ∷ db.queue)
        ≡ wanted (state_at j (row ∷ db.runs))
  with_row-IsScheduled h fresh j = elim (Bool-cases (rt.uuid4 db.draws == j)) [
    | inl e ↦
        let same : rt.uuid4 db.draws ≡ j = ground arith in
        ground (arith, e, h j, ap (λ x. state_at x db.runs) same, fresh)
    | inr e ↦ ground (arith, e, h j)
  ]

  -- Where runs and queue agree, they agree after a run was created.
  pub create-IsScheduled : IsScheduled db → Keeps IsScheduled (create rt s d v stage db)
  unfolding create created append
  create-IsScheduled h = elim (Bool-cases (may_bind stage v)) [
    | inr e ↦ rw (Keeps, create, e) tt
    | inl e ↦ elim (Option-cases (find_run (rt.uuid4 db.draws) db.runs)) [
      | inr (old, taken) ↦ rw (Keeps, create, e, taken) tt
      | inl fresh ↦
          let idle : count (is_of (rt.uuid4 db.draws)) db.queue ≡ 0 =
            h (rt.uuid4 db.draws) ∙ rw fresh refl in
          rw
            (
              Keeps,
              create,
              e,
              fresh,
              enqueue_idle (rt.uuid4 db.draws) first_step
                  (record db { draws = suc db.draws; runs = row ∷ db.runs }) idle,
            )
            (with_row-IsScheduled h fresh)
    ]
  ]
