-- ===== src/Step/Lifecycle.antt =====
-- A whole step moves every run along the diagram of its life.
use agent_quilt.Store.{Db}
use agent_quilt.Store.Keeping.{Keeps}
use agent_quilt.Registry.{CallContext}
use agent_quilt.Runs.{post}
use agent_quilt.Runs.Lifecycle.{
  Follows, Follows-refl, Follows-IsStable, Follows-trans, Keeps-Follows, post-Follows,
}
use agent_quilt.Work.{Claimed, settle, refuse_step}
use agent_quilt.Work.Keeping.{RegistryKeeps}
use agent_quilt.Work.Lifecycle.{settle-Follows, refuse_step-Follows}
use agent_quilt.Step.{Surroundings, step}
use agent_quilt.Step.Keeping.{step-Keeps}

pub step-Follows :
    (w : Surroundings) (c : Claimed) (db : Db)
    → ((ctx : CallContext) → RegistryKeeps (Follows db) w.registry ctx)
    → Keeps (Follows db) (step w c db)
step-Follows w c db keeps =
    step-Keeps (λ i. Follows db) (Follows db) w c db (λ i. Follows-IsStable db)
      (λ i kind body d h.
        Keeps-Follows db d (post w.rt w.session i kind body d) h
          (post-Follows w.rt w.session i kind body d))
      (λ ctx e. keeps ctx)
      (λ i reason d h.
        Follows-trans db d (refuse_step i c.step_no reason d).1 h
          (refuse_step-Follows i c.step_no reason d))
      (λ i o d h.
        Keeps-Follows db d (settle w.rt w.session i c.step_no o d) h
          (settle-Follows w.rt w.session i c.step_no o d))
      (Follows-refl db)
