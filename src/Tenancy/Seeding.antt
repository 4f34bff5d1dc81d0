-- ===== src/Tenancy/Seeding.antt =====
-- backend/app/kernel/store/seed.py: an org with its planes, its principals and the token of its owner. The
-- rows of every org that the connecting role reads are `seed_org`'s; `seed_tables` gives those that a
-- session of the org sees. `token` is the secret that `token_urlsafe` drew.
use agent_quilt.Base.{
  ℕ, ◌+◌, ◌≡◌, refl, ◌==◌, true, false, none, some, String, List, [], ◌∷◌, ◌++◌, arith, find,
  filter, is_some, str_eq, if◌then◌else◌, concat, eq_refl, ==_refl,
}
use agent_quilt.Runtime.{Uuid, Runtime}
use agent_quilt.Store.{
  Db, Result, ok, raise, integrity_error, user, system, AgentDefinition, Grant, asks_first,
}
use agent_quilt.Tenancy.{
  Environment, UserToken, Member, Rail, Caller, opens, is_opened_by, resolve, is_prod_of,
  prod_plane, served, caller, plane, scoped,
}

pub record SeededOrg : Type 0 where
  pub org_id : Uuid
  pub dev_environment_id : Uuid
  pub prod_environment_id : Uuid
  pub system_principal_id : Uuid
  pub user_id : Uuid
  pub token : String

-- The identifiers are drawn before any row is written.
abbrev pub seeded_org : Runtime → String → ℕ → SeededOrg
seeded_org rt token n = record {
  org_id = rt.uuid4 n;
  system_principal_id = rt.uuid4 (n + 1);
  user_id = rt.uuid4 (n + 3);
  dev_environment_id = rt.uuid4 (n + 4);
  prod_environment_id = rt.uuid4 (n + 5);
  token = token;
}

abbrev pub user_principal_id : Runtime → ℕ → Uuid
user_principal_id rt n = rt.uuid4 (n + 2)

-- `PLANES`
abbrev pub planes : SeededOrg → List Environment
planes o =
    record {
      id = o.prod_environment_id;
      org_id = o.org_id;
      key = "prod";
      kind = "prod";
      protection_level = 1;
    }
    ∷ record {
      id = o.dev_environment_id;
      org_id = o.org_id;
      key = "dev";
      kind = "dev";
      protection_level = 0;
    }
    ∷ []

abbrev pub members : SeededOrg → Uuid → List Member
members o owner =
    record { id = owner; org_id = o.org_id; class_ = user; user_id = some o.user_id }
    ∷ record { id = o.system_principal_id; org_id = o.org_id; class_ = system; user_id = none }
    ∷ []

abbrev pub owner_token : Runtime → SeededOrg → Uuid → UserToken
owner_token rt o i = record {
  id = i;
  user_id = o.user_id;
  org_id = o.org_id;
  token_hash = rt.sha256 o.token;
  revoked_at = none;
}

-- The digest of a token is unique.
unfoldable pub seed_org : Runtime → String → Rail → Result (SeededOrg × Rail)
seed_org rt token rail =
    let o = seeded_org rt token rail.draws in
    if is_some (find (λ (t : UserToken). str_eq t.token_hash (rt.sha256 token)) rail.tokens)
    then raise integrity_error
    else ok (
      o,
      record rail {
        draws = rail.draws + 10;
        environments = planes o ++ rail.environments;
        principals = members o (user_principal_id rt rail.draws) ++ rail.principals;
        tokens = owner_token rt o (rt.uuid4 (rail.draws + 6)) ∷ rail.tokens;
      },
    )

-- `SOUL_TEXT` and `UNDOABLE_OPERATION`
abbrev pub soul_text : String
soul_text =
    "You are the assistant of this organization.\nYou answer from what the organization knows, and you say when it does not."

abbrev pub undoable_operation : String
undoable_operation = "skills.activate_version"

abbrev pub seeded_definition : Uuid → AgentDefinition
seeded_definition i = record {
  id = i;
  name = "assistant";
  version = 1;
  soul_text = soul_text;
  tier = "executor";
  budget_cap_tokens = 200000;
  memory_scope = "org";
}

abbrev pub seeded_grant : Uuid → Grant
seeded_grant i = record {
  principal_id = i;
  operation_name = undoable_operation;
  level = asks_first;
}

-- The rows of the org's own tables.
unfoldable pub seed_tables : Runtime → String → SeededOrg → ℕ → Db → Db
seed_tables rt name o n db = record db {
  orgs = record { id = o.org_id; name = name } ∷ db.orgs;
  users = record { id = o.user_id; display_name = concat (name ∷ " owner" ∷ []) } ∷ db.users;
  principals =
      record { id = user_principal_id rt n; class_ = user; user_id = some o.user_id }
      ∷ record { id = o.system_principal_id; class_ = system; user_id = none }
      ∷ db.principals;
  definitions = seeded_definition (rt.uuid4 (n + 7)) ∷ db.definitions;
  grants = seeded_grant (user_principal_id rt n) ∷ seeded_grant o.system_principal_id ∷ db.grants;
}

-- `seed`: the orgs one after another, each in its own transaction.
unfoldable pub seed_all : Runtime → List String → Rail → Result (List SeededOrg × Rail)
unfolding seed_org
seed_all rt [] rail = ok ([], rail)
seed_all rt (token ∷ tokens) rail = elim (seed_org rt token rail) [
  | raise e ↦ raise e
  | ok (o, mid) ↦ elim (seed_all rt tokens mid) [
    | raise e ↦ raise e
    | ok (rest, after) ↦ ok (o ∷ rest, after)
  ]
]

-- No row names the user or the org yet, and no token has the digest.
abbrev pub IsFresh : Runtime → String → SeededOrg → Rail → Type 0
IsFresh rt token o rail =
    (find (λ (t : UserToken). str_eq t.token_hash (rt.sha256 token)) rail.tokens ≡ none)
    × (find (λ (t : UserToken). t.user_id == o.user_id) rail.tokens ≡ none)
    × (filter (is_prod_of o.org_id) rail.environments ≡ [])

module _ (rt : Runtime) (token : String) (rail : Rail) where
  abbrev o : SeededOrg
  o = seeded_org rt token rail.draws

  abbrev after : Rail
  after = record rail {
    draws = rail.draws + 10;
    environments = planes o ++ rail.environments;
    principals = members o (user_principal_id rt rail.draws) ++ rail.principals;
    tokens = owner_token rt o (rt.uuid4 (rail.draws + 6)) ∷ rail.tokens;
  }

  old_tokens :
      (digest : String) (p : Member) (ts : List UserToken)
      → p.user_id ≡ some o.user_id
      → find (λ (t : UserToken). t.user_id == o.user_id) ts ≡ none
      → find (opens digest p) ts ≡ none
  old_tokens digest p [] e h = refl
  old_tokens digest p (t ∷ ts) e h = ground (arith, e, h, old_tokens digest p ts e)

  -- Another digest opens the principals that it opened.
  same_principals :
      (digest : String) (ps : List Member)
      → str_eq (rt.sha256 token) digest ≡ false
      → find (is_opened_by digest after.tokens) ps ≡ find (is_opened_by digest rail.tokens) ps
  same_principals digest [] e = refl
  same_principals digest (p ∷ ps) e = ground (arith, e, same_principals digest ps e)

  abbrev owner : Member
  owner = record {
    id = user_principal_id rt rail.draws;
    org_id = o.org_id;
    class_ = user;
    user_id = some o.user_id;
  }

  abbrev owner_caller : Caller
  owner_caller = record { org_id = o.org_id; principal_id = user_principal_id rt rail.draws }

  opens_own : opens (rt.sha256 token) owner (owner_token rt o (rt.uuid4 (rail.draws + 6))) ≡ true
  opens_own = ground (arith, ==_refl o.user_id, ==_refl o.org_id, eq_refl (rt.sha256 token))

  resolves_own : resolve rt token after ≡ some owner_caller
  unfolding resolve
  resolves_own = rw opens_own refl

  resolves_others :
      (other : String)
      → IsFresh rt token o rail
      → str_eq (rt.sha256 token) (rt.sha256 other) ≡ false
      → resolve rt other after ≡ resolve rt other rail
  unfolding resolve
  resolves_others other (_, fresh, _) e =
      let shut : is_opened_by (rt.sha256 other) after.tokens owner ≡ false =
        ground (arith, e, old_tokens (rt.sha256 other) owner rail.tokens refl fresh) in
      rw (shut, same_principals (rt.sha256 other) rail.principals e) refl

  seeds : IsFresh rt token o rail → seed_org rt token rail ≡ ok (o, after)
  unfolding seed_org
  seeds (fresh, _, _) = rw fresh refl

  plane_own : IsFresh rt token o rail → prod_plane o.org_id after ≡ ok o.prod_environment_id
  unfolding prod_plane
  plane_own (_, _, fresh) = rw (==_refl o.org_id, fresh) refl

  -- Seeding an org on fresh identifiers, with a token that is no other's, succeeds: a request with the
  -- token and no addressed row gets a session of the new org, on its prod plane, as its owner, and every
  -- token of another digest opens what it opened before.
  pub seed_org_opens :
      IsFresh rt token o rail
      → (rail_after : Rail) × (seed_org rt token rail ≡ ok (o, rail_after))
        × (scoped rt token [] rail_after
            ≡ served (record {
              org_id = o.org_id;
              environment_id = o.prod_environment_id;
              principal_id = user_principal_id rt rail.draws;
            }))
        × ((other : String)
            → str_eq (rt.sha256 token) (rt.sha256 other) ≡ false
            → resolve rt other rail_after ≡ resolve rt other rail)
  unfolding scoped caller plane
  seed_org_opens h = (
    after,
    seeds h,
    rw (caller, plane, resolves_own, plane_own h) refl,
    λ other e. resolves_others other h e,
  )
