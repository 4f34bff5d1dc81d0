-- ===== src/Step/Refusing.antt =====
-- A step over the budget.
use agent_quilt.Runs.{is_of}
use agent_quilt.Base.{
  ℕ, Option, count, suc, ◌+◌, ◌<◌, ◌≡◌, refl, some, String, ◌∷◌, arith, ap, ◌∙◌, sym,
}
use mathlib.Core.Path.{subst}
use agent_quilt.Runtime.{Uuid}
use agent_quilt.Store.{
  Db, Result, ok, Run, RunState, failed, ContextManifest, Event, denial, find_run,
}
use agent_quilt.Ledger.{append}
use agent_quilt.Runs.Scheduling.{IsScheduled, state_at}
use agent_quilt.Work.{Claimed, refuse_step, watermark, unread}
use agent_quilt.Work.Leaving.{IsHeld, left, held_state, held-IsScheduled, left-tables}
use agent_quilt.Context.{AssembledTurn}
use agent_quilt.Context.Assembly.{assemble}
use agent_quilt.Context.Assembly.Recording.{IsAssembled, assemble-IsAssembled}
use agent_quilt.Model.{spent_of, budget_denial, budget_payload}
use agent_quilt.Model.Budget.{run_model_refused}
use agent_quilt.Step.{Surroundings, step, step_of, after_assembly, after_model, turn_call, last_of}

-- What a call would have left traces in.
abbrev pub IsUntouched : Db → Db → Type 0
IsUntouched db after =
    (after.checkpoints ≡ db.checkpoints)
    × (after.actions ≡ db.actions)
    × (after.heads ≡ db.heads)
    × (after.keys ≡ db.keys)
    × (after.approvals ≡ db.approvals)
    × (after.usage ≡ db.usage)
    × (after.mailbox ≡ db.mailbox)

-- The run has failed, and has no row.
abbrev pub IsFailed : Uuid → Db → Type 0
IsFailed i after =
    IsScheduled after × (state_at i after.runs ≡ some failed) × (count (is_of i) after.queue ≡ 0)

-- The step's end without a call: its one event is the denial.
abbrev pub Refused : Uuid → Db → Result (RunState × Db) → Type 0
Refused i db r =
    (after : Db) × (r ≡ ok (failed, after))
    × IsFailed i after
    × IsUntouched db after
    × ((e : Event) × (after.events ≡ e ∷ db.events) × (e.kind ≡ denial))

left-IsUntouched :
    (i : Uuid) (n : ℕ) (new : RunState) (reason : Option String) (db : Db)
    → IsUntouched db (left i n new reason db) × ((left i n new reason db).events ≡ db.events)
left-IsUntouched i n new reason db =
    subst (λ x. IsUntouched db x × (x.events ≡ db.events)) (sym (left-tables i n new reason db))
      ((refl, refl, refl, refl, refl, refl, refl), refl)

refuse_step_held :
    (i : Uuid) (n : ℕ) (reason : String) (db : Db)
    → IsScheduled db
    → IsHeld i n db
    → (after : Db) × (ok (refuse_step i n reason db) ≡ ok (failed, after))
      × IsFailed i after
      × IsUntouched db after
      × (after.events ≡ db.events)
unfolding refuse_step
refuse_step_held i n reason db h held =
    let (same, at, none_left) = held_state i n failed (some reason) db h held in
    (
      left i n failed (some reason) db,
      ap (λ x. ok (x, left i n failed (some reason) db)) same,
      (held-IsScheduled i n failed (some reason) db h held refl, at, none_left),
      (left-IsUntouched i n failed (some reason) db).0,
      (left-IsUntouched i n failed (some reason) db).1,
    )

assembled_over :
    (w : Surroundings) (run : Run) (n seq : ℕ) (turn : AssembledTurn) (m : ContextManifest)
    (db : Db)
    → IsScheduled db
    → IsHeld run.id n db
    → m.id ≡ turn.manifest_id
    → run.budget_cap_tokens < spent_of run.id db.usage + turn.token_cost
    → Refused run.id db (
        after_assembly w run n seq
          (ok (turn, record db { draws = suc db.draws; manifests = m ∷ db.manifests })))
unfolding after_assembly after_model append
assembled_over w run n seq turn m db h held same over =
    let mid = record db { draws = suc db.draws; manifests = m ∷ db.manifests } in
    let entry = budget_denial w.session m (budget_payload mid turn run) in
    let refusal =
      run_model_refused w.rt w.session w.runner turn run m mid (ground (arith, same)) over in
    let (after, e, failed_run, rest, events) =
      refuse_step_held run.id n "budget_exceeded" (append entry mid).1 h held in
    subst (λ r. Refused run.id db (after_model w run n seq r)) (sym refusal)
      (after, e, failed_run, rest, (_, events, refl))

-- Where runs and queue agree, a step that the worker holds and whose assembled turn would spend more
-- than the run's cap ends the run as failed, without a row in the queue. The one event that it appends
-- is a denial. No action, stream head, retry key, approval, checkpoint, usage or message is
-- written or changed, so that no call was dispatched and nothing was spent, and runs and queue agree.
pub step_over_budget :
    (w : Surroundings) (c : Claimed) (run : Run) (turn : AssembledTurn) (db assembled : Db)
    → IsScheduled db
    → find_run c.run_id db.runs ≡ some run
    → IsHeld run.id c.step_no db
    → assemble w.rt w.policy w.prefixes w.envelopes w.session w.registry run c.step_no
        (turn_call w run db)
        db
      ≡ ok (turn, assembled)
    → run.budget_cap_tokens < spent_of run.id db.usage + turn.token_cost
    → Refused run.id db (step w c db)
unfolding step step_of
step_over_budget w c run turn db assembled h found held built over =
    let (m, same, after) = subst (IsAssembled db) built (
      assemble-IsAssembled w.rt w.policy w.prefixes w.envelopes w.session w.registry run c.step_no
        (turn_call w run db) db) in
    let seq = last_of (watermark run.id db) (unread run.id db) in
    let settled = assembled_over w run c.step_no seq turn m db h held same over in
    let made = built ∙ ap (λ d. ok (turn, d)) after in
    subst (λ r. Refused run.id db (step_of w c.step_no r db)) (sym found)
      (subst (λ r. Refused run.id db (after_assembly w run c.step_no seq r)) (sym made) settled)
