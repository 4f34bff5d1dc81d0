-- ===== src/Work/Keeping.antt =====
-- The dispatch of a plan keeps the worker's title to settle its step.
use agent_quilt.Base.{
  ℕ, suc, ◌≡◌, ◌≢◌, none, some, String, List, [], ◌∷◌, ◌++◌, arith, ◌⊎◌, inl, inr, str_eq,
  Bool-cases, find, count,
}
use mathlib.Core.Path.{subst}
use agent_quilt.Base.Dict.{lookup}
use agent_quilt.Json.{Json}
use agent_quilt.Runtime.{Uuid, Runtime}
use agent_quilt.Store.{
  Db, Session, Result, Result-cases, ok, raise, Run, running, done, cancelled, StepQueue, Event,
  MessageKind,
}
use agent_quilt.Store.Keeping.{IsStable, Keeps, of_work}
use agent_quilt.Registry.{CallContext, Operation, Registry}
use agent_quilt.Dispatch.{Outcome, committed, replayed, denied, waiting, dispatch}
use agent_quilt.Dispatch.Keeping.{BodyKeeps, dispatch-Keeps}
use agent_quilt.Runs.{is_of, is_step, post, Posted}
use agent_quilt.Runs.Keeping.{post-Keeps}
use agent_quilt.Runs.Scheduling.{IsScheduled, wanted, state_at}
use agent_quilt.Work.{
  ProposedCall, answered, parks, as_answered, result_of_post, denied_result, result_of,
  dispatch_one, dispatch_all, tool_call,
}
use agent_quilt.Work.Leaving.{IsHeld}

-- The worker may settle its step: it holds it, or the run was cancelled after the claim.
abbrev pub IsEntitled : Uuid → ℕ → Db → Type 0
IsEntitled i n d = IsScheduled d × (IsHeld i n d ⊎ (state_at i d.runs ≡ some cancelled))

abbrev Entitles : Uuid → ℕ → List Run → List StepQueue → Type 0
Entitles i n runs queue =
    ((j : Uuid) → count (is_of j) queue ≡ wanted (state_at j runs))
    × (((state_at i runs ≡ some running) × (find (is_step i n) queue ≢ none))
        ⊎ (state_at i runs ≡ some cancelled))

pub IsEntitled-IsStable : (i : Uuid) (n : ℕ) → IsStable (IsEntitled i n)
IsEntitled-IsStable i n = of_work (Entitles i n)

-- A run that is worked or cancelled is not done.
pub IsEntitled-not_done :
    (i : Uuid) (n : ℕ) (d : Db) → IsEntitled i n d → state_at i d.runs ≢ some done
IsEntitled-not_done i n d (h, inl (at, row)) e = ground (arith, at, e)
IsEntitled-not_done i n d (h, inr at) e = ground (arith, at, e)

-- The bodies of the registered operations, called in these contexts, keep `P`.
abbrev pub RegistryKeeps : (Db → Type 0) → Registry → CallContext → Type 0
RegistryKeeps P registry ctx =
    (name : String) (op : Operation) → lookup name registry ≡ some op → BodyKeeps P ctx op

-- What a dispatched plan keeps: whatever a message to the run and the bodies of the operations keep.
module _ (P : Db → Type 0) (stable : IsStable P) (rt : Runtime) (s : Session) (registry : Registry)
    (i : Uuid)
    (posts : (kind : MessageKind) (body : Json) (d : Db)
      → P d
      → Keeps P (post rt s i kind body d)) where
  denied_result-Keeps :
      (call : ProposedCall) (reason : String) (event : Event) (d : Db)
      → P d
      → Keeps P (as_answered (denied_result rt s i call reason event d))
  unfolding denied_result as_answered
  denied_result-Keeps call reason event d h = elim (Bool-cases (str_eq reason "version_conflict")) [
    | inl e ↦ rw e (posted _ _ (posts _ _ d h))
    | inr e ↦ rw e h
  ]
    where
      posted :
          (r : Json) (p : Result (Posted × Db))
          → Keeps P p
          → Keeps P (as_answered (result_of_post r p))
      posted r (ok (m, after)) k = k
      posted r (raise e) k = tt

  result_of-Keeps :
      (call : ProposedCall) (r : Result (Outcome × Db))
      → Keeps P r
      → Keeps P (result_of rt s i call r)
  unfolding result_of
  result_of-Keeps call (raise e) h = tt
  result_of-Keeps call (ok (committed a r, d)) h = h
  result_of-Keeps call (ok (replayed a, d)) h = h
  result_of-Keeps call (ok (denied reason event, d)) h = denied_result-Keeps call reason event d h
  result_of-Keeps call (ok (waiting approval t, d)) h = h

  dispatch_one-Keeps :
      (ctx : CallContext) (call : ProposedCall) (d : Db)
      → RegistryKeeps P registry ctx
      → P d
      → Keeps P (dispatch_one rt s registry ctx i call d)
  unfolding dispatch_one
  dispatch_one-Keeps ctx call d keeps h =
      result_of-Keeps call (dispatch rt registry ctx (tool_call rt registry call d) d)
        (dispatch-Keeps P stable rt ctx (tool_call rt registry call d) registry d keeps h)

  pub dispatch_all-Keeps :
      (ctx : ℕ → CallContext) (results : List Json) (calls : List ProposedCall) (d : Db)
      → ((k : ℕ) → RegistryKeeps P registry (ctx k))
      → P d
      → Keeps P (dispatch_all rt s registry ctx i results calls d)
  unfolding dispatch_all
  dispatch_all-Keeps ctx results [] d keeps h = h
  dispatch_all-Keeps ctx results (call ∷ calls) d keeps h =
      let one = dispatch_one-Keeps (ctx 0) call d (keeps 0) h in
      elim (Result-cases (dispatch_one rt s registry (ctx 0) i call d)) [
        | inr (x, e) ↦ rw (Keeps, e) tt
        | inl ((parks approval, after), e) ↦ rw (Keeps, e) (subst (Keeps P) e one)
        | inl ((answered r, after), e) ↦
            rw (Keeps, e)
              (dispatch_all-Keeps (λ k. ctx (suc k)) (results ++ r ∷ []) calls after
                (λ k. keeps (suc k)) (subst (Keeps P) e one))
      ]

-- A message to its own run, which is not done, leaves the worker entitled.
pub posts-IsEntitled :
    (rt : Runtime) (s : Session) (i : Uuid) (n : ℕ) (kind : MessageKind) (body : Json) (d : Db)
    → IsEntitled i n d
    → Keeps (IsEntitled i n) (post rt s i kind body d)
posts-IsEntitled rt s i n kind body d h =
    post-Keeps (IsEntitled i n) (IsEntitled-IsStable i n) rt s i kind body d
      (IsEntitled-not_done i n d h) h
