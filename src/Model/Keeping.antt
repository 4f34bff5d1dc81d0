-- ===== src/Model/Keeping.antt =====
-- A model call changes neither the runs nor the queue.
use agent_quilt.Base.{refl, ◌+◌, Option-cases, Bool-cases, inl, inr, find, ltb, ◌==◌}
use agent_quilt.Runtime.{Runtime}
use agent_quilt.Store.{Db, Session, Run, ContextManifest}
use agent_quilt.Store.Keeping.{IsStable, Keeps}
use agent_quilt.Ledger.{append}
use agent_quilt.Context.{AssembledTurn}
use agent_quilt.Model.{Completion, run_model, run_turn, charge, spent_of}

module _ (P : Db → Type 0) (stable : IsStable P) (rt : Runtime) (s : Session)
    (runner : AssembledTurn → Completion) (turn : AssembledTurn) (run : Run) (d : Db)
    (h : P d) where
  run_turn-Keeps : (m : ContextManifest) → P (run_turn rt s runner turn run m d).1
  unfolding run_turn charge append
  run_turn-Keeps m =
      elim (Bool-cases (ltb run.budget_cap_tokens (spent_of run.id d.usage + turn.token_cost))) [
        | inl e ↦ rw (e, run_turn) (stable d _ (refl, refl) h)
        | inr e ↦ rw (e, run_turn) (stable d _ (refl, refl) h)
      ]

  pub run_model-Keeps : Keeps P (run_model rt s runner turn run d)
  unfolding run_model
  run_model-Keeps = elim (Option-cases (find (λ m. m.id == turn.manifest_id) d.manifests)) [
    | inl e ↦ rw (Keeps, run_model, e) tt
    | inr (m, e) ↦ rw (Keeps, run_model, e) (run_turn-Keeps m)
  ]
