-- ===== src/Model.antt =====
-- backend/app/kernel/model/service.py: one model call under the run's budget. The runner
-- (backend/app/kernel/ports/model_runner.py) is a parameter: a function of the turn.
pub mod Budget
pub mod Keeping
use agent_quilt.Base.{
  ℕ, suc, ◌+◌, ◌==◌, Bool, true, false, Option, none, some, String, List, [], ◌∷◌, filter, find,
  update_where, ltb, if◌then◌else◌,
}
use agent_quilt.Json.{Json, JsonValue, number, text, end, field}
use agent_quilt.Runtime.{Uuid, Runtime}
use agent_quilt.Store.{
  Db, Session, M, Result, ok, raise, no_result, Run, ContextManifest, UsageRecord, Event,
}
use agent_quilt.Ledger.{append, Append, refusal}
use agent_quilt.Work.{ProposedCall}
use agent_quilt.Context.{AssembledTurn, PrefixLayer, total_tokens}

pub record Usage : Type 0 where
  pub input_tokens : ℕ
  pub output_tokens : ℕ
  pub cached_tokens : ℕ

pub record Completion : Type 0 where
  pub text : String
  pub calls : List ProposedCall
  pub usage : Usage
  pub cache : Json

pub data ModelOutcome : Type 0 where
  answered : Completion → ModelOutcome
  refused : String → Event → ModelOutcome

abbrev pub cost : UsageRecord → ℕ
cost u = u.input_tokens + u.output_tokens

-- `_spent`
abbrev pub spent_of : Uuid → List UsageRecord → ℕ
spent_of i [] = 0
spent_of i (u ∷ us) = (if u.run_id == i then cost u else 0) + spent_of i us

abbrev pub budget_payload : Db → AssembledTurn → Run → Json
budget_payload db turn run = field "reason" (text "budget_exceeded") (
    field "spent_tokens" (number (spent_of run.id db.usage)) (
      field "estimated_tokens" (number turn.token_cost)
        (field "budget_cap_tokens" (number run.budget_cap_tokens) end)))

-- `_deny`
abbrev pub budget_denial : Session → ContextManifest → Json → Append
budget_denial s m payload = record {
  kind = refusal;
  aggregate_kind = "run";
  aggregate_id = m.run_id;
  principal_id = s.principal;
  payload = payload;
  run_id = some m.run_id;
  step_no = some m.step_no;
  operation_name = none;
}

-- The usage row and the manifest's telemetry.
abbrev pub usage_of :
    Runtime → ContextManifest → AssembledTurn → Run → Completion → Db → UsageRecord
usage_of rt m turn run c db = record {
  id = rt.uuid4 db.draws;
  run_id = run.id;
  step_no = m.step_no;
  tier = turn.tier;
  input_tokens = c.usage.input_tokens;
  output_tokens = c.usage.output_tokens;
  cached_tokens = c.usage.cached_tokens;
}

charge : Runtime → ContextManifest → AssembledTurn → Run → Completion → Db → Db
charge rt m turn run c db = record db {
  draws = suc db.draws;
  usage = usage_of rt m turn run c db ∷ db.usage;
  manifests =
      update_where (λ x. x.id == m.id)
        (λ x. record x {
          cache_positions =
              field "prefix_end_tokens"
                (number (total_tokens (λ (l : PrefixLayer). l.body) turn.prefix)) end;
          telemetry = c.cache;
        })
        db.manifests;
}

run_turn :
    Runtime
    → Session
    → (AssembledTurn → Completion)
    → AssembledTurn
    → Run
    → ContextManifest
    → Db
    → ModelOutcome × Db
unfolding charge
run_turn rt s runner turn run m db =
    if ltb run.budget_cap_tokens (spent_of run.id db.usage + turn.token_cost)
    then (
      refused "budget_exceeded" (append (budget_denial s m (budget_payload db turn run)) db).0,
      (append (budget_denial s m (budget_payload db turn run)) db).1,
    )
    else (answered (runner turn), charge rt m turn run (runner turn) db)

unfoldable pub run_model :
    Runtime → Session → (AssembledTurn → Completion) → AssembledTurn → Run → M ModelOutcome
unfolding run_turn
run_model rt s runner turn run db = elim (find (λ m. m.id == turn.manifest_id) db.manifests) [
  | none ↦ raise no_result
  | some m ↦ ok (run_turn rt s runner turn run m db)
]
