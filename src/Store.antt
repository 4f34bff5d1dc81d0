-- ===== src/Store.antt =====
-- One transaction's view of the database (backend/app/kernel/store/), and the monad in which the
-- kernel's functions run: they read and write the tables, and may raise.
--
-- A table is the list of its rows, the newest first. `draws` counts the calls of `uuid4`, and
-- `event_seq` is the last value of the identity column `event.id`. A raise loses the state: nothing
-- of a transaction that raised is committed, and a savepoint that raised goes back to the state at
-- which it began.
mod Rows
pub mod Keeping
pub use Rows.*
use agent_quilt.Base.{
  ℕ, suc, ◌==◌, Bool, Option, none, some, String, List, str_eq, find, ◌≡◌, refl, ◌⊎◌, inl, inr,
}
use agent_quilt.Runtime.{Uuid, Runtime}

pub record Db : Type 0 where
  pub draws : ℕ
  pub event_seq : ℕ
  pub orgs : List Org
  pub users : List User
  pub events : List Event
  pub heads : List StreamHead
  pub actions : List Action
  pub keys : List IdempotencyKey
  pub versions : List OperationVersion
  pub grants : List Grant
  pub principals : List Principal
  pub approvals : List Approval
  pub definitions : List AgentDefinition
  pub runs : List Run
  pub queue : List StepQueue
  pub mailbox : List MailboxMessage
  pub checkpoints : List Checkpoint
  pub usage : List UsageRecord
  pub bindings : List TierBinding
  pub manifests : List ContextManifest
  pub skills : List Skill
  pub skill_versions : List SkillVersion

-- `session.info`: the principal that the session acts as.
pub record Session : Type 0 where
  pub principal : Uuid

pub data Raised : Type 0 where
  version_conflict : ℕ → ℕ → Raised
  value_error type_error runtime_error : String → Raised
  key_error no_result multiple_results integrity_error : Raised

pub data Result {ℓ} (A : Type ℓ) : Type ℓ where
  ok : A → Result A
  raise : Raised → Result A

pub Result-cases {ℓ} :
    {A : Type ℓ} (r : Result A) → ((a : A) × (r ≡ ok a)) ⊎ ((e : Raised) × (r ≡ raise e))
Result-cases (ok a) = inl (a, refl)
Result-cases (raise e) = inr (e, refl)

abbrev pub M : Type 0 → Type 0
M A = Db → Result (A × Db)

infixl 5 ◌>>=◌
abbrev pub ◌>>=◌ : {A B : Type 0} → M A → (A → M B) → M B
◌>>=◌ m f db = elim (m db) [ ok (a, db') ↦ f a db' | raise e ↦ raise e ]

-- `uuid4()`
abbrev pub draw_uuid : Runtime → Db → Uuid × Db
draw_uuid rt db = (rt.uuid4 db.draws, record db { draws = suc db.draws })

-- `session.get(Model, id)`
abbrev pub find_action : Uuid → List Action → Option Action
find_action i = find (λ a. a.id == i)

abbrev pub find_approval : Uuid → List Approval → Option Approval
find_approval i = find (λ a. a.id == i)

abbrev pub find_run : Uuid → List Run → Option Run
find_run i = find (λ r. r.id == i)

abbrev pub find_principal : Uuid → List Principal → Option Principal
find_principal i = find (λ p. p.id == i)

-- The rest of the tables read by a test of one state.
abbrev pub is_requested : ApprovalState → Bool
is_requested requested = Bool.true
is_requested _ = Bool.false

abbrev pub is_opened : ApprovalState → Bool
is_opened opened = Bool.true
is_opened _ = Bool.false

abbrev pub is_running : RunState → Bool
is_running running = Bool.true
is_running _ = Bool.false

abbrev pub is_waiting : RunState → Bool
is_waiting waiting_approval = Bool.true
is_waiting _ = Bool.false

abbrev pub is_done : RunState → Bool
is_done done = Bool.true
is_done _ = Bool.false
