-- ===== src/Tenancy.antt =====
-- Who a request is and which rows it may see: backend/app/kernel/identity/service.py (`resolve`, `locate`,
-- `prod_plane`), backend/app/kernel/store/service.py (`tenants`) and backend/app/serve.py. These reads are
-- made on the connecting role, which sees the rows of every org, so the rows carry their org here.
pub mod Isolation
pub mod Seeding
use agent_quilt.Base.{
  ℕ, ◌==◌, ◌&&◌, ◌||◌, Bool, true, false, Option, none, some, String, List, [], ◌∷◌, ◌++◌, map,
  find, filter, is_some, str_eq, ltb, if◌then◌else◌, concat,
}
use agent_quilt.Base.Sorting.{sorted}
use agent_quilt.Runtime.{Uuid, Time, Runtime}
use agent_quilt.Store.{
  Result, ok, raise, Raised, value_error, no_result, multiple_results, PrincipalClass, user, agent,
  run, system, external,
}
use agent_quilt.Skills.{text_le}

pub record Environment : Type 0 where
  pub id : Uuid
  pub org_id : Uuid
  pub key : String
  pub kind : String
  pub protection_level : ℕ

pub record UserToken : Type 0 where
  pub id : Uuid
  pub user_id : Uuid
  pub org_id : Uuid
  pub token_hash : String
  pub revoked_at : Option Time

-- A principal with the org that owns it.
pub record Member : Type 0 where
  pub id : Uuid
  pub org_id : Uuid
  pub class_ : PrincipalClass
  pub user_id : Option Uuid

-- A run, an approval or an action, by what addresses it: its identifier and the scope pair.
pub record Addressed : Type 0 where
  pub id : Uuid
  pub org_id : Uuid
  pub environment_id : Uuid

-- The tables as the connecting role reads them.
pub record Rail : Type 0 where
  pub draws : ℕ
  pub principals : List Member
  pub tokens : List UserToken
  pub environments : List Environment
  pub runs : List Addressed
  pub approvals : List Addressed
  pub actions : List Addressed

pub record Caller : Type 0 where
  pub org_id : Uuid
  pub principal_id : Uuid

abbrev pub is_user : PrincipalClass → Bool
is_user user = true
is_user _ = false

abbrev pub is_system : PrincipalClass → Bool
is_system system = true
is_system _ = false

abbrev pub is_user_of : Uuid → Option Uuid → Bool
is_user_of u none = false
is_user_of u (some v) = v == u

abbrev pub is_live : Option Time → Bool
is_live none = true
is_live (some t) = false

-- A live token with this digest that opens this principal.
abbrev pub opens : String → Member → UserToken → Bool
opens digest p t =
    is_user_of t.user_id p.user_id
    && t.org_id == p.org_id
    && str_eq t.token_hash digest
    && is_live t.revoked_at

abbrev pub is_opened_by : String → List UserToken → Member → Bool
is_opened_by digest tokens p = is_user p.class_ && is_some (find (opens digest p) tokens)

abbrev pub caller_of : Option Member → Option Caller
caller_of none = none
caller_of (some p) = some (record { org_id = p.org_id; principal_id = p.id })

-- `resolve`: the first pair of the join.
unfoldable pub resolve : Runtime → String → Rail → Option Caller
resolve rt token rail =
    caller_of (find (is_opened_by (rt.sha256 token) rail.tokens) rail.principals)

-- `LOCATABLE`
pub data Kind : Type 0 where
  run_id approval_id action_id : Kind

abbrev pub kind_of : String → Option Kind
kind_of name =
    if str_eq name "run_id"
    then some run_id
    else if str_eq name "approval_id"
    then some approval_id
    else if str_eq name "action_id"
    then some action_id
    else none

abbrev pub table_of : Kind → Rail → List Addressed
table_of run_id rail = rail.runs
table_of approval_id rail = rail.approvals
table_of action_id rail = rail.actions

-- `kind[:-3]`
abbrev pub kind_text : Kind → String
kind_text run_id = "run"
kind_text approval_id = "approval"
kind_text action_id = "action"

abbrev pub is_owned : Uuid → Uuid → Addressed → Bool
is_owned i org r = r.id == i && r.org_id == org

unfoldable pub locate : Kind → Uuid → Uuid → Rail → Option Uuid
locate kind i org rail = elim (find (is_owned i org) (table_of kind rail)) [
  | none ↦ none
  | some r ↦ some r.environment_id
]

-- `.one()`
abbrev pub one_of {ℓ} : {A : Type ℓ} → List A → Result A
one_of [] = raise no_result
one_of (x ∷ []) = ok x
one_of (x ∷ y ∷ rest) = raise multiple_results

abbrev pub is_prod_of : Uuid → Environment → Bool
is_prod_of org e = e.org_id == org && str_eq e.kind "prod"

unfoldable pub prod_plane : Uuid → Rail → Result Uuid
prod_plane org rail =
    one_of (map (λ (e : Environment). e.id) (filter (is_prod_of org) rail.environments))

-- What a request gets: a value, an HTTP error with its status, or an exception.
pub data Served {ℓ} (A : Type ℓ) : Type ℓ where
  served : A → Served A
  refused : ℕ → String → Served A
  failed : Raised → Served A

-- `caller`
unfoldable pub caller : Runtime → String → Rail → Served Caller
caller rt token rail = elim (resolve rt token rail) [
  | none ↦ refused 401 "unknown or revoked token"
  | some who ↦ served who
]

abbrev pub found_plane : Kind → Option Uuid → Served Uuid
found_plane kind none = refused 404 (concat ("no such " ∷ kind_text kind ∷ []))
found_plane kind (some e) = served e

abbrev pub located : Kind → Option Uuid → Uuid → Rail → Served Uuid
located kind none org rail = failed (value_error "badly formed hexadecimal UUID string")
located kind (some i) org rail = found_plane kind (locate kind i org rail)

abbrev pub served_plane : Result Uuid → Served Uuid
served_plane (ok e) = served e
served_plane (raise x) = failed x

-- `plane`, by the path's parameters with their texts.
unfoldable pub plane : Runtime → List (String × String) → Caller → Rail → Served Uuid
plane rt [] who rail = served_plane (prod_plane who.org_id rail)
plane rt ((name, raw) ∷ params) who rail = elim (kind_of name) [
  | none ↦ plane rt params who rail
  | some kind ↦ located kind (rt.parse_uuid raw) who.org_id rail
]

-- The org, the plane and the principal that a session is opened with.
pub record Scoped : Type 0 where
  pub org_id : Uuid
  pub environment_id : Uuid
  pub principal_id : Uuid

abbrev pub with_plane : Caller → Served Uuid → Served Scoped
with_plane who (refused status detail) = refused status detail
with_plane who (failed x) = failed x
with_plane who (served e) =
    served (record { org_id = who.org_id; environment_id = e; principal_id = who.principal_id })

abbrev pub with_caller : Runtime → List (String × String) → Rail → Served Caller → Served Scoped
with_caller rt params rail (refused status detail) = refused status detail
with_caller rt params rail (failed x) = failed x
with_caller rt params rail (served who) = with_plane who (plane rt params who rail)

-- `scoped`: the session of a request.
unfoldable pub scoped : Runtime → String → List (String × String) → Rail → Served Scoped
scoped rt token params rail = with_caller rt params rail (caller rt token rail)

-- `tenants`: each plane of each org with the org's system principals, by the org and the plane's key.
abbrev pub planes_of : Member → List Environment → List (String × Scoped)
planes_of p environments =
    map
      (λ (e : Environment).
        (e.key, record { org_id = p.org_id; environment_id = e.id; principal_id = p.id }))
      (filter (λ (e : Environment). e.org_id == p.org_id) environments)

abbrev pub all_planes : List Member → List Environment → List (String × Scoped)
all_planes [] environments = []
all_planes (p ∷ ps) environments =
    let rest = all_planes ps environments in
    if is_system p.class_ then planes_of p environments ++ rest else rest

tenant_le : String × Scoped → String × Scoped → Bool
unfolding text_le
tenant_le (k, s) (l, t) = ltb s.org_id t.org_id || s.org_id == t.org_id && text_le k l

unfoldable pub tenants : Rail → List Scoped
unfolding tenant_le sorted
tenants rail = map (λ x. x.1) (sorted tenant_le (all_planes rail.principals rail.environments))
