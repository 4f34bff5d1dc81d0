-- ===== src/Dispatch/Uncommitted.antt =====
-- A denied or a parked call has committed nothing.
use agent_quilt.Base.{ℕ, Option, none, some, String}
use agent_quilt.Json.{Json}
use agent_quilt.Runtime.{Uuid, Runtime}
use agent_quilt.Store.{Db}
use agent_quilt.Identity.{ParkOutcome, asked, decided}
use agent_quilt.Registry.{CallContext}
use agent_quilt.Dispatch.{Call, Outcome, committed, deny, park, park_at, parked_outcome}

abbrev pub IsUncommitted : Outcome → Type 0
IsUncommitted (committed a r) = ⊥
IsUncommitted _ = Unit {0}

module _ (rt : Runtime) (ctx : CallContext) (call : Call) where
  pub deny-IsUncommitted :
      (reason : String) (detail : Json) (aggregate : Option (String × Uuid)) (db : Db)
      → IsUncommitted (deny rt ctx call reason detail aggregate db).0
  unfolding deny
  deny-IsUncommitted reason detail aggregate db = tt

  parked-IsUncommitted :
      (p : ParkOutcome) (db : Db) → IsUncommitted (parked_outcome rt ctx call (p, db)).0
  unfolding parked_outcome
  parked-IsUncommitted (asked a) db = tt
  parked-IsUncommitted (decided s r) db = deny-IsUncommitted _ _ _ db

  park_at-IsUncommitted :
      (version : String) (run_id : Option Uuid) (step_no : Option ℕ) (db : Db)
      → IsUncommitted (park_at rt ctx call version run_id step_no db).0
  unfolding park_at
  park_at-IsUncommitted version (some run_id) (some step_no) db = parked-IsUncommitted _ _
  park_at-IsUncommitted version (some run_id) none db = deny-IsUncommitted _ _ _ db
  park_at-IsUncommitted version none step_no db = deny-IsUncommitted _ _ _ db

  pub park-IsUncommitted :
      (version : String) (db : Db) → IsUncommitted (park rt ctx call version db).0
  unfolding park
  park-IsUncommitted version db = park_at-IsUncommitted version ctx.run_id ctx.step_no db
