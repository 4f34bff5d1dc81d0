-- ===== src/Model/Budget.antt =====
-- What the budget cap allows.
use agent_quilt.Base.{
  true, ◌+◌, ◌≤◌, ◌<◌, ◌≡◌, refl, ◌==◌, some, ◌∷◌, arith, Bool-cases, inl, inr, find, ltb, ==_refl,
}
use agent_quilt.Runtime.{Runtime}
use agent_quilt.Store.{Db, Session, ok, Run, ContextManifest, denial}
use agent_quilt.Ledger.{append}
use agent_quilt.Context.{AssembledTurn}
use agent_quilt.Model.{
  budget_denial, budget_payload, Completion, ModelOutcome, answered, refused, spent_of, run_turn,
  run_model, charge,
}

-- An answer within the cap, whose two charged counts are added to what the run has spent; or a
-- refusal beyond it, which spends nothing and leaves a denial at the end of the ledger.
abbrev pub IsBudgeted :
    (AssembledTurn → Completion) → AssembledTurn → Run → Db → ModelOutcome × Db → Type 0
IsBudgeted runner turn run db (answered c, after) =
    (c ≡ runner turn)
    × (spent_of run.id db.usage + turn.token_cost ≤ run.budget_cap_tokens)
    × (spent_of run.id after.usage
        ≡ spent_of run.id db.usage + (c.usage.input_tokens + c.usage.output_tokens))
    × (after.events ≡ db.events)
IsBudgeted runner turn run db (refused reason event, after) =
    (run.budget_cap_tokens < spent_of run.id db.usage + turn.token_cost)
    × (after.usage ≡ db.usage)
    × (event.kind ≡ denial)
    × (after.events ≡ event ∷ db.events)

run_turn-IsBudgeted :
    (rt : Runtime) (s : Session) (runner : AssembledTurn → Completion) (turn : AssembledTurn)
    (run : Run) (m : ContextManifest) (db : Db)
    → IsBudgeted runner turn run db (run_turn rt s runner turn run m db)
unfolding run_turn charge append
run_turn-IsBudgeted rt s runner turn run m db =
    elim (Bool-cases (ltb run.budget_cap_tokens (spent_of run.id db.usage + turn.token_cost))) [
      | inl e ↦ rw (IsBudgeted, e) (ground (arith, e), refl, refl, refl)
      | inr e ↦ rw (IsBudgeted, e) (refl, ground (arith, e), ground (arith, ==_refl run.id), refl)
    ]

-- A turn whose manifest is recorded is answered only where what the run has spent and the estimate
-- of the turn are within the run's cap, and then the tokens that the answer reports are added to what
-- it has spent. Beyond the cap it is refused: nothing is spent and the ledger ends with a denial.
pub run_model-IsBudgeted :
    (rt : Runtime) (s : Session) (runner : AssembledTurn → Completion) (turn : AssembledTurn)
    (run : Run) (m : ContextManifest) (db : Db)
    → find (λ x. x.id == turn.manifest_id) db.manifests ≡ some m
    → (outcome : ModelOutcome × Db) × (run_model rt s runner turn run db ≡ ok outcome)
      × IsBudgeted runner turn run db outcome
unfolding run_model
run_model-IsBudgeted rt s runner turn run m db h = (
  run_turn rt s runner turn run m db,
  rw (run_model, h) refl,
  run_turn-IsBudgeted rt s runner turn run m db,
)

-- Beyond the cap: the refusal, and the state with its denial.
pub run_model_refused :
    (rt : Runtime) (s : Session) (runner : AssembledTurn → Completion) (turn : AssembledTurn)
    (run : Run) (m : ContextManifest) (db : Db)
    → find (λ x. x.id == turn.manifest_id) db.manifests ≡ some m
    → run.budget_cap_tokens < spent_of run.id db.usage + turn.token_cost
    → run_model rt s runner turn run db
      ≡ ok (
        refused "budget_exceeded" (append (budget_denial s m (budget_payload db turn run)) db).0,
        (append (budget_denial s m (budget_payload db turn run)) db).1,
      )
unfolding run_model run_turn
run_model_refused rt s runner turn run m db h over =
    let beyond : ltb run.budget_cap_tokens (spent_of run.id db.usage + turn.token_cost) ≡ true =
      ground arith in
    rw (run_model, h, beyond) refl
