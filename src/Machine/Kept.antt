-- ===== src/Machine/Kept.antt =====
-- What every sequence of transactions keeps: the agreement of runs and queue, and the life of a run.
use agent_quilt.Base.{ℕ, Bool, ◌≡◌, none, some, Option, sym}
use mathlib.Core.Path.{subst}
use agent_quilt.Runtime.{Uuid, Time, Runtime}
use agent_quilt.Store.{Db, Result, ok, cancelled}
use agent_quilt.Store.Keeping.{IsStable, Keeps, of_work}
use agent_quilt.Registry.{CallContext, Registry}
use agent_quilt.Dispatch.{dispatch}
use agent_quilt.Dispatch.Keeping.{dispatch-Keeps}
use agent_quilt.Runs.{create, post, is_of}
use agent_quilt.Base.{count}
use agent_quilt.Runs.Scheduling.{IsScheduled, state_at, wanted, cancel-IsScheduled}
use agent_quilt.Runs.Creating.{create-IsScheduled}
use agent_quilt.Runs.Lifecycle.{
  stays_cancelled, Follows, Follows-refl, Follows-trans, Follows-IsStable, post-Follows,
  cancel-Follows, create-Follows,
}
use agent_quilt.Runs.Keeping.{post-IsScheduled}
use agent_quilt.Work.{claim, Claimed}
use agent_quilt.Work.Claiming.{claim-IsClaim, IsClaim}
use agent_quilt.Work.Keeping.{IsEntitled, RegistryKeeps}
use agent_quilt.Work.Lifecycle.{claim-Follows}
use agent_quilt.Step.{step}
use agent_quilt.Step.Keeping.{step-IsScheduled}
use agent_quilt.Step.Lifecycle.{step-Follows}
use agent_quilt.Tick.{tick_once}
use agent_quilt.Tick.Expiry.{tick_once-IsScheduled}
use agent_quilt.Tick.Lifecycle.{tick_once-Follows}
use agent_quilt.Machine.{
  Move, Reach, IsFenced, AllFenced, started, messaged, cancelled_by, ticked, claimed_by, stepped,
  called, here, next,
}

IsScheduled-IsStable : IsStable IsScheduled
IsScheduled-IsStable =
    of_work (λ runs queue. (j : Uuid) → count (is_of j) queue ≡ wanted (state_at j runs))

-- What a function keeps, of the database it returned.
returned {ℓ} :
    {A : Type ℓ} (P : Db → Type 0) (r : Result (A × Db)) {a : A} {after : Db}
    → Keeps P r
    → r ≡ ok (a, after)
    → P after
returned P r k e = subst (Keeps P) e k

-- The bodies of the operations keep runs and queue in agreement: inside a run they keep its worker
-- entitled to its step as well.
abbrev pub RegistryIsScheduled : Registry → Type 0
RegistryIsScheduled registry =
    ((i : Uuid) (n : ℕ) (ctx : CallContext)
      → ctx.run_id ≡ some i
      → RegistryKeeps (IsEntitled i n) registry ctx)
    × ((ctx : CallContext) → ctx.run_id ≡ none → RegistryKeeps IsScheduled registry ctx)

module _ (rt : Runtime) (registry : Registry) where
  claimed-IsScheduled :
      (locked : Uuid → Bool) (now : Time) (db : Db) (r : Option Claimed × Db)
      → IsScheduled db
      → IsClaim locked now db r
      → IsScheduled r.1
  claimed-IsScheduled locked now db (none, after) h (_, same) = subst IsScheduled (sym same) h
  claimed-IsScheduled locked now db (some c, after) h claim = claim.0

  Move-IsScheduled :
      {db after : Db}
      → RegistryIsScheduled registry
      → (m : Move rt registry db after) → IsFenced m
      → IsScheduled db
      → IsScheduled after
  Move-IsScheduled keeps (started {db} s d v stage run e) fence h =
      returned IsScheduled (create rt s d v stage db) (create-IsScheduled rt s d v stage db h) e
  Move-IsScheduled keeps (messaged {db} s i kind body p e) fence h =
      returned IsScheduled (post rt s i kind body db) (post-IsScheduled rt s i kind body db h) e
  Move-IsScheduled keeps (cancelled_by {db} s i) fence h = cancel-IsScheduled s i db h
  Move-IsScheduled keeps (ticked {db} lead begin later p e) fence h =
      let (_, mid, f, agrees, _) = tick_once-IsScheduled lead begin later db h in
      returned IsScheduled (tick_once lead begin later db)
        (subst (Keeps IsScheduled) (sym f) agrees) e
  Move-IsScheduled keeps (claimed_by {db} locked worker now) fence h =
      claimed-IsScheduled locked now db (claim locked worker now db) h
        (claim-IsClaim locked worker now db h)
  Move-IsScheduled keeps (stepped {db} w c state e) fence h =
      let v = record w { rt = rt; registry = registry } in
      returned IsScheduled (step v c db)
        (step-IsScheduled v c db (h, fence) (keeps.0 c.run_id c.step_no)) e
  Move-IsScheduled keeps (called {db} ctx call o outside e) fence h =
      returned IsScheduled (dispatch rt registry ctx call db)
        (dispatch-Keeps IsScheduled IsScheduled-IsStable rt ctx call registry db
          (keeps.1 ctx outside) h)
        e

  -- Where runs and queue agree, they agree after any sequence of committed transactions in which every
  -- step is fenced: runs started, messages, cancels, passes of the tick, claims, steps with whatever the
  -- model proposes, and calls from outside any run. A step is fenced where its worker holds it when it
  -- commits, or where its run was cancelled. The bodies of the registered operations keep the agreement
  -- (inside a run, together with the worker's title to its step).
  pub Reach-IsScheduled :
      {start after : Db}
      → RegistryIsScheduled registry
      → (r : Reach rt registry start after) → AllFenced r
      → IsScheduled start
      → IsScheduled after
  Reach-IsScheduled keeps here fences h = h
  Reach-IsScheduled keeps (next r m) (fences, fence) h =
      Move-IsScheduled keeps m fence (Reach-IsScheduled keeps r fences h)

  Move-Follows :
      {db after : Db}
      → ((before : Db) (ctx : CallContext) → RegistryKeeps (Follows before) registry ctx)
      → Move rt registry db after
      → Follows db after
  Move-Follows keeps (started {db} s d v stage run e) =
      returned (Follows db) (create rt s d v stage db) (create-Follows rt s d v stage db) e
  Move-Follows keeps (messaged {db} s i kind body p e) =
      returned (Follows db) (post rt s i kind body db) (post-Follows rt s i kind body db) e
  Move-Follows keeps (cancelled_by {db} s i) = cancel-Follows s i db
  Move-Follows keeps (ticked {db} lead begin later p e) =
      returned (Follows db) (tick_once lead begin later db) (tick_once-Follows lead begin later db)
        e
  Move-Follows keeps (claimed_by {db} locked worker now) = claim-Follows locked worker now db
  Move-Follows keeps (stepped {db} w c state e) =
      let v = record w { rt = rt; registry = registry } in
      returned (Follows db) (step v c db) (step-Follows v c db (keeps db)) e
  Move-Follows keeps (called {db} ctx call o outside e) =
      returned (Follows db) (dispatch rt registry ctx call db)
        (dispatch-Keeps (Follows db) (Follows-IsStable db) rt ctx call registry db (keeps db ctx)
          (Follows-refl db))
        e

  -- The state of a run after a sequence of committed transactions, of fenced steps or not, can be reached
  -- along the diagram, where the bodies of the registered operations move runs along it.
  Reach-Follows :
      {start after : Db}
      → ((before : Db) (ctx : CallContext) → RegistryKeeps (Follows before) registry ctx)
      → Reach rt registry start after
      → Follows start after
  Reach-Follows {start} keeps here = Follows-refl start
  Reach-Follows {start} {after} keeps (next {db} r m) =
      Follows-trans start db after (Reach-Follows keeps r) (Move-Follows keeps m)

  -- A cancelled run stays cancelled, whatever sequence of committed transactions follows: no step of any
  -- run, held by its worker or stale, no answer to an approval, no message and no pass of the tick brings
  -- it back. The bodies of the registered operations move runs along the diagram of a run's life.
  pub Reach-cancelled :
      {start after : Db} (i : Uuid)
      → ((before : Db) (ctx : CallContext) → RegistryKeeps (Follows before) registry ctx)
      → Reach rt registry start after
      → state_at i start.runs ≡ some cancelled
      → state_at i after.runs ≡ some cancelled
  Reach-cancelled {start} {after} i keeps r e =
      stays_cancelled (state_at i start.runs) (state_at i after.runs) (Reach-Follows keeps r i) e
