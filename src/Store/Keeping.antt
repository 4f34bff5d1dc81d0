-- ===== src/Store/Keeping.antt =====
-- Predicates of the runs and the queue, and the functions that keep them.
use mathlib.Core.Path.{subst₂}
use agent_quilt.Base.{◌≡◌, sym, List}
use agent_quilt.Store.{Db, Result, ok, raise, Run, StepQueue}

-- The two tables that a run's life goes through.
abbrev pub SameWork : Db → Db → Type 0
SameWork d after = (after.runs ≡ d.runs) × (after.queue ≡ d.queue)

abbrev pub IsStable : (Db → Type 0) → Type 0
IsStable P = (d after : Db) → SameWork d after → P d → P after

abbrev pub Keeps {ℓ} : {A : Type ℓ} → (Db → Type 0) → Result (A × Db) → Type 0
Keeps P (ok (a, after)) = P after
Keeps P (raise e) = Unit {0}

-- A predicate of these two tables alone.
pub of_work : (Q : List Run → List StepQueue → Type 0) → IsStable (λ d. Q d.runs d.queue)
of_work Q d after (runs, queue) h = subst₂ Q (sym runs) (sym queue) h
