-- ===== src/Machine.antt =====
-- The kernel as a whole: the committed transactions of backend/app/kernel/ on runs, in any order. The
-- principals, the clock, the model and its prompts, and what other transactions lock may differ from
-- one transaction to the next.
pub mod Kept
use agent_quilt.Base.{ℕ, ◌≡◌, ◌⊎◌, Bool, Option, none, some, String}
use agent_quilt.Json.{Json}
use agent_quilt.Runtime.{Uuid, Time, Runtime}
use agent_quilt.Store.{
  Db, Session, ok, Run, RunState, cancelled, AgentDefinition, SkillVersion, Stage, MessageKind,
  find_run,
}
use agent_quilt.Registry.{CallContext, Registry}
use agent_quilt.Dispatch.{Call, Outcome, dispatch}
use agent_quilt.Runs.{create, post, Posted, cancel}
use agent_quilt.Runs.Scheduling.{state_at}
use agent_quilt.Work.{Claimed, claim}
use agent_quilt.Work.Leaving.{IsHeld}
use agent_quilt.Step.{Surroundings, step}
use agent_quilt.Tick.{Pass, tick_once}

-- One committed transaction. A worker may commit a step that it does not hold any more.
pub data Move (rt : Runtime) (registry : Registry) : Db → Db → Type 0 where
  started :
      {db after : Db} (s : Session) (d : AgentDefinition) (v : Option SkillVersion) (stage : Stage)
      (run : Run)
      → create rt s d v stage db ≡ ok (run, after)
      → Move rt registry db after
  messaged :
      {db after : Db} (s : Session) (i : Uuid) (kind : MessageKind) (body : Json) (p : Posted)
      → post rt s i kind body db ≡ ok (p, after)
      → Move rt registry db after
  cancelled_by : {db : Db} (s : Session) (i : Uuid) → Move rt registry db (cancel s i db).1
  ticked :
      {db after : Db} (lead : ℕ → Bool) (begin later : Time) (p : Option Pass)
      → tick_once lead begin later db ≡ ok (p, after)
      → Move rt registry db after
  claimed_by :
      {db : Db} (locked : Uuid → Bool) (worker : String) (now : Time)
      → Move rt registry db (claim locked worker now db).1
  stepped :
      {db after : Db} (w : Surroundings) (c : Claimed) (state : RunState)
      → step (record w { rt = rt; registry = registry }) c db ≡ ok (state, after)
      → Move rt registry db after
  called :
      {db after : Db} (ctx : CallContext) (call : Call) (o : Outcome)
      → ctx.run_id ≡ none
      → dispatch rt registry ctx call db ≡ ok (o, after)
      → Move rt registry db after

pub data Reach (rt : Runtime) (registry : Registry) (start : Db) : Db → Type 0 where
  here : Reach rt registry start start
  next :
      {db after : Db}
      → Reach rt registry start db
      → Move rt registry db after
      → Reach rt registry start after

-- A step is fenced where the worker holds it when it commits, or the run was cancelled.
abbrev pub IsFenced :
    {rt : Runtime} {registry : Registry} {db after : Db} → Move rt registry db after → Type 0
IsFenced (stepped {db} w c state e) =
    IsHeld c.run_id c.step_no db ⊎ (state_at c.run_id db.runs ≡ some cancelled)
IsFenced _ = Unit {0}

abbrev pub AllFenced :
    {rt : Runtime} {registry : Registry} {start after : Db} → Reach rt registry start after → Type 0
AllFenced here = Unit {0}
AllFenced (next r m) = AllFenced r × IsFenced m
