-- ===== src/Store/Rows.antt =====
-- The rows of the tables: backend/app/kernel/{store,identity,declare,runs,model,context}/models.py.
-- A session sees one org and one plane, whatever it asks for (row-level security), so the columns
-- `org_id` and `environment_id`, the same in every row it sees, are left out. So are `created_at`
-- and `updated_at`, which nothing reads.
use agent_quilt.Base.{ℕ, Option, String}
use agent_quilt.Json.{Json}
use agent_quilt.Runtime.{Uuid, Time}

pub data Level : Type 0 where
  may_use asks_first never : Level

pub data Stage : Type 0 where
  dev qa prod : Stage

pub data PrincipalClass : Type 0 where
  user agent run system external : PrincipalClass

-- `opened` is the state "open".
pub data ApprovalState : Type 0 where
  requested opened consumed rejected expired superseded : ApprovalState

pub data RunState : Type 0 where
  queued running waiting_approval done failed cancelled : RunState

pub data EventKind : Type 0 where
  operation_commit run_journal read_audit denial : EventKind

pub data MessageKind : Type 0 where
  steer conflict context_lost : MessageKind

pub data ExecutionMode : Type 0 where
  inline delegated : ExecutionMode

pub data PrefixProfile : Type 0 where
  personal space none_profile : PrefixProfile

pub record Org : Type 0 where
  pub id : Uuid
  pub name : String

pub record User : Type 0 where
  pub id : Uuid
  pub display_name : String

pub record Grant : Type 0 where
  pub principal_id : Uuid
  pub operation_name : String
  pub level : Level

pub record Principal : Type 0 where
  pub id : Uuid
  pub class_ : PrincipalClass
  pub user_id : Option Uuid

pub record Approval : Type 0 where
  pub id : Uuid
  pub granted_to : Uuid
  pub granted_by : Option Uuid
  pub operation_version_id : String
  pub args_hash : String
  pub state : ApprovalState
  pub reason : Option String
  pub run_id : Uuid
  pub step_no : ℕ
  pub tool_call_id : String
  pub expires_at : Time
  pub consumed_by_action_id : Option Uuid

pub record Event : Type 0 where
  pub id : ℕ
  pub kind : EventKind
  pub aggregate_kind : String
  pub aggregate_id : Uuid
  pub aggregate_version : ℕ
  pub run_id : Option Uuid
  pub step_no : Option ℕ
  pub principal_id : Uuid
  pub operation_name : Option String
  pub payload : Json
  pub action_id : Option Uuid

pub record StreamHead : Type 0 where
  pub aggregate_kind : String
  pub aggregate_id : Uuid
  pub version : ℕ
  pub last_event_id : ℕ

pub record OperationVersion : Type 0 where
  pub id : String
  pub operation_name : String
  pub stage : Stage
  pub declaration : Json

pub record Action : Type 0 where
  pub id : Uuid
  pub event_id : ℕ
  pub operation_version_id : String
  pub approval_id : Option Uuid
  pub idempotency_key : String
  pub decision_trace : Json
  pub compensator_ref : Option String
  pub compensator_args : Option Json

pub record IdempotencyKey : Type 0 where
  pub operation_name : String
  pub idempotency_key : String
  pub action_id : Option Uuid

pub record AgentDefinition : Type 0 where
  pub id : Uuid
  pub name : String
  pub version : ℕ
  pub soul_text : String
  pub tier : String
  pub budget_cap_tokens : ℕ
  pub memory_scope : String

pub record Run : Type 0 where
  pub id : Uuid
  pub agent_definition_id : Uuid
  pub skill_version_id : Option String
  pub stage : Stage
  pub state : RunState
  pub failure_reason : Option String
  pub budget_cap_tokens : ℕ
  pub prefix_key : String
  pub capability_ceiling : Json
  pub prefix_profile : PrefixProfile

pub record StepQueue : Type 0 where
  pub run_id : Uuid
  pub step_no : ℕ
  pub queue_tag : String
  pub lease_until : Option Time
  pub claimed_by : Option String

pub record MailboxMessage : Type 0 where
  pub id : Uuid
  pub run_id : Uuid
  pub seq : ℕ
  pub kind : MessageKind
  pub author_principal_id : Uuid
  pub body : Json

pub record Checkpoint : Type 0 where
  pub id : Uuid
  pub run_id : Uuid
  pub step_no : ℕ
  pub state : Json

pub record UsageRecord : Type 0 where
  pub id : Uuid
  pub run_id : Uuid
  pub step_no : ℕ
  pub tier : String
  pub input_tokens : ℕ
  pub output_tokens : ℕ
  pub cached_tokens : ℕ

pub record TierBinding : Type 0 where
  pub tier : String
  pub provider : String
  pub model : String
  pub effort : Option String
  pub version : ℕ

pub record ContextManifest : Type 0 where
  pub id : Uuid
  pub run_id : Uuid
  pub step_no : ℕ
  pub prefix_key : String
  pub layers : Json
  pub token_cost : ℕ
  pub cache_positions : Json
  pub telemetry : Json
  pub effective_scope : Json

pub record Skill : Type 0 where
  pub id : Uuid
  pub name : String

pub record SkillVersion : Type 0 where
  pub id : String
  pub skill_id : Uuid
  pub tier : String
  pub execution_mode : ExecutionMode
  pub operations : Json
  pub stage : Stage
  pub body : String
