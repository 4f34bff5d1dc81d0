-- ===== src/Step/Keeping.antt =====
-- A whole step keeps runs and queue in agreement, whatever its plan does.
use agent_quilt.Base.{
  ℕ, suc, ◌≡◌, refl, ◌==◌, Option, some, String, List, [], ◌∷◌, arith, inl, inr, Option-cases,
  find_holds, sym,
}
use mathlib.Core.Path.{subst}
use agent_quilt.Json.{Json}
use agent_quilt.Runtime.{Uuid, Runtime}
use agent_quilt.Store.{Db, Session, Result, ok, raise, Run, failed, find_run, MessageKind}
use agent_quilt.Store.Keeping.{IsStable, Keeps}
use agent_quilt.Ledger.{append}
use agent_quilt.Registry.{CallContext}
use agent_quilt.Runs.{post}
use agent_quilt.Runs.Scheduling.{IsScheduled}
use agent_quilt.Work.{Claimed, settle, refuse_step, StepOutcome, Parked, watermark, unread}
use agent_quilt.Work.Leaving.{leave_idle-IsScheduled, set_state_cancelled, held-IsScheduled}
use agent_quilt.Work.Settling.{settle_held, settle_cancelled}
use agent_quilt.Work.Keeping.{
  IsEntitled, IsEntitled-IsStable, RegistryKeeps, dispatch_all-Keeps, posts-IsEntitled,
}
use agent_quilt.Context.{AssembledTurn}
use agent_quilt.Context.Assembly.{assemble}
use agent_quilt.Context.Assembly.Recording.{IsAssembled, assemble-IsAssembled}
use agent_quilt.Model.{Completion, ModelOutcome, answered, refused, run_model}
use agent_quilt.Model.Keeping.{run_model-Keeps}
use agent_quilt.Step.{
  Surroundings, step, step_of, step_context, after_assembly, after_model, settle_plan, turn_call,
  last_of, journal_plan,
}

module _ (i : Uuid) (n : ℕ) where
  refused-IsScheduled :
      (reason : String) (d : Db) → IsEntitled i n d → IsScheduled (refuse_step i n reason d).1
  unfolding refuse_step
  refused-IsScheduled reason d (h, inl held) =
      held-IsScheduled i n failed (some reason) d h held refl
  refused-IsScheduled reason d (h, inr at) =
      rw (set_state_cancelled i failed (some reason) d at)
        (leave_idle-IsScheduled i n d h (rw at refl))

module _ (rt : Runtime) (s : Session) (i : Uuid) (n : ℕ) where
  settle-IsScheduled :
      (o : StepOutcome) (d : Db) → IsEntitled i n d → Keeps IsScheduled (settle rt s i n o d)
  settle-IsScheduled o d (h, inl held) =
      let (after, e, scheduled, _, _, _) = settle_held rt s i n o d h held in
      subst (Keeps IsScheduled) (sym e) scheduled
  settle-IsScheduled o d (h, inr at) =
      let (after, e, scheduled, _, _) = settle_cancelled rt s i n o d h at in
      subst (Keeps IsScheduled) (sym e) scheduled

-- What a step leaves of the tables of work: `P` holds until the step ends, and its end leaves `Q`.
module _ (P Q : Db → Type 0) (stable : IsStable P) (w : Surroundings) (run : Run) (n : ℕ)
    (posts : (kind : MessageKind) (body : Json) (d : Db)
      → P d
      → Keeps P (post w.rt w.session run.id kind body d))
    (keeps : (ctx : CallContext) → ctx.run_id ≡ some run.id → RegistryKeeps P w.registry ctx)
    (refuses : (reason : String) (d : Db) → P d → Q (refuse_step run.id n reason d).1)
    (settles : (o : StepOutcome) (d : Db)
      → P d
      → Keeps Q (settle w.rt w.session run.id n o d)) where
  settle_plan-Keeps :
      (c : Completion) (seq : ℕ) (r : Result ((List Json × Option Parked) × Db))
      → Keeps P r
      → Keeps Q (settle_plan w run n c seq r)
  unfolding settle_plan
  settle_plan-Keeps c seq (raise e) h = tt
  settle_plan-Keeps c seq (ok ((results, parked), d)) h = settles _ d h

  after_model-Keeps :
      (seq : ℕ) (r : Result (ModelOutcome × Db)) → Keeps P r → Keeps Q (after_model w run n seq r)
  unfolding after_model journal_plan append step_context
  after_model-Keeps seq (raise e) h = tt
  after_model-Keeps seq (ok (refused reason event, d)) h = refuses reason d h
  after_model-Keeps seq (ok (answered c, d)) h = settle_plan-Keeps c seq _ (
      dispatch_all-Keeps P stable w.rt w.session w.registry run.id posts (step_context w run n) []
        c.calls (journal_plan w.session run.id n c d) (λ k. keeps (step_context w run n k) refl)
        (stable d (journal_plan w.session run.id n c d) (refl, refl) h))

  after_assembly-Keeps :
      (seq : ℕ) (d : Db) (r : Result (AssembledTurn × Db))
      → P d
      → IsAssembled d r
      → Keeps Q (after_assembly w run n seq r)
  unfolding after_assembly
  after_assembly-Keeps seq d (raise e) h a = tt
  after_assembly-Keeps seq d (ok (turn, after)) h (m, _, same) =
      after_model-Keeps seq (run_model w.rt w.session w.runner turn run after) (
        run_model-Keeps P stable w.rt w.session w.runner turn run after (
          subst P (sym same) (
            stable d (record d { draws = suc d.draws; manifests = m ∷ d.manifests }) (refl, refl)
              h)))

  step_of-Keeps : (d : Db) → P d → Keeps Q (step_of w n (some run) d)
  unfolding step_of
  step_of-Keeps d h =
      after_assembly-Keeps (last_of (watermark run.id d) (unread run.id d)) d
        (assemble w.rt w.policy w.prefixes w.envelopes w.session w.registry run n
          (turn_call w run d) d)
        h
        (assemble-IsAssembled w.rt w.policy w.prefixes w.envelopes w.session w.registry run n
          (turn_call w run d) d)

-- The same of the claimed run, which is the run that the step finds. `P` may name the run.
pub step-Keeps :
    (P : Uuid → Db → Type 0) (Q : Db → Type 0) (w : Surroundings) (c : Claimed) (db : Db)
    → ((i : Uuid) → IsStable (P i))
    → ((i : Uuid) (kind : MessageKind) (body : Json) (d : Db)
        → P i d
        → Keeps (P i) (post w.rt w.session i kind body d))
    → ((ctx : CallContext) → ctx.run_id ≡ some c.run_id → RegistryKeeps (P c.run_id) w.registry ctx)
    → ((i : Uuid) (reason : String) (d : Db) → P i d → Q (refuse_step i c.step_no reason d).1)
    → ((i : Uuid) (o : StepOutcome) (d : Db)
        → P i d
        → Keeps Q (settle w.rt w.session i c.step_no o d))
    → P c.run_id db
    → Keeps Q (step w c db)
unfolding step step_of
step-Keeps P Q w c db stable posts keeps refuses settles h =
    elim (Option-cases (find_run c.run_id db.runs)) [
      | inl e ↦ rw (Keeps, step, step_of, e) tt
      | inr (run, e) ↦
          let same : c.run_id ≡ run.id =
            ground (arith, find_holds (λ (x : Run). x.id == c.run_id) db.runs run e) in
          subst (λ o. Keeps Q (step_of w c.step_no o db)) (sym e)
            (step_of-Keeps (P run.id) Q (stable run.id) w run c.step_no (posts run.id)
              (subst
                (λ i.
                  (ctx : CallContext) → ctx.run_id ≡ some i → RegistryKeeps (P i) w.registry ctx)
                same keeps)
              (refuses run.id) (settles run.id) db (subst (λ i. P i db) same h))
    ]

-- Where runs and queue agree and the worker is entitled to its step (it holds the row of a running
-- run, or the run was cancelled after the claim), a step that returns leaves runs and queue in
-- agreement: whatever the model answers, whatever calls it proposes, and however they end. The bodies
-- of the registered operations keep the worker entitled, when a step of its run calls them.
pub step-IsScheduled :
    (w : Surroundings) (c : Claimed) (db : Db)
    → IsEntitled c.run_id c.step_no db
    → ((ctx : CallContext)
        → ctx.run_id ≡ some c.run_id
        → RegistryKeeps (IsEntitled c.run_id c.step_no) w.registry ctx)
    → Keeps IsScheduled (step w c db)
step-IsScheduled w c db h keeps =
    step-Keeps (λ i. IsEntitled i c.step_no) IsScheduled w c db
      (λ i. IsEntitled-IsStable i c.step_no) (λ i. posts-IsEntitled w.rt w.session i c.step_no)
      keeps (λ i. refused-IsScheduled i c.step_no)
      (λ i. settle-IsScheduled w.rt w.session i c.step_no) h
