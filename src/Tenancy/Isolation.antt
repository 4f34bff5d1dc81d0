-- ===== src/Tenancy/Isolation.antt =====
-- A request works in the caller's own org.
use agent_quilt.Base.{
  ◌≡◌, ◌≢◌, refl, true, Bool-cases, str_eq, sym, Option, none, some, String, List, [], ◌∷◌, arith,
  ◌⊎◌, inl, inr, Option-cases, find, find_holds, eq_iff, map, find-Mem, filter,
}
use mathlib.Core.Path.{subst}
use mathlib.Core.List.{Mem}
use agent_quilt.Runtime.{Uuid, Time, Runtime}
use agent_quilt.Store.{PrincipalClass, user}
use agent_quilt.Tenancy.{
  Environment, UserToken, Member, Addressed, Rail, Caller, is_user, is_user_of, is_live, one_of,
  served_plane, with_plane, opens, is_opened_by, resolve, Kind, run_id, approval_id, action_id,
  kind_of, table_of, is_owned, locate, is_prod_of, prod_plane, Served, served, refused, failed,
  caller, plane, located, Scoped, scoped,
}

-- The token opens this principal: a live token row of its org names its user.
abbrev pub Opens : Runtime → String → Rail → Uuid → Uuid → Type 0
Opens rt token rail org principal =
    (p : Member) × (t : UserToken) × Mem p rail.principals
    × Mem t rail.tokens
    × (p.org_id ≡ org)
    × (p.id ≡ principal)
    × (p.class_ ≡ user)
    × (t.org_id ≡ org)
    × (p.user_id ≡ some t.user_id)
    × (t.token_hash ≡ rt.sha256 token)
    × (t.revoked_at ≡ none)

-- The rows that a parameter of the path addresses, by its name.
pub data Names (rail : Rail) : String → List Addressed → Type 0 where
  a_run : Names rail "run_id" rail.runs
  an_approval : Names rail "approval_id" rail.approvals
  an_action : Names rail "action_id" rail.actions

-- The plane is the org's: that of the row which the first addressing parameter of the path names by its
-- identifier, and the org's only prod plane where none addresses a row.
abbrev pub IsPlane : Runtime → List (String × String) → Rail → Uuid → Uuid → Type 0
IsPlane rt [] rail org e =
    (p : Environment) × (filter (is_prod_of org) rail.environments ≡ p ∷ []) × (p.id ≡ e)
IsPlane rt ((name, raw) ∷ params) rail org e =
    ((rows : List Addressed) × (r : Addressed) × Names rail name rows
      × Mem r rows
      × (rt.parse_uuid raw ≡ some r.id)
      × (r.org_id ≡ org)
      × (r.environment_id ≡ e))
    ⊎ ((name ≢ "run_id")
        × (name ≢ "approval_id")
        × (name ≢ "action_id")
        × IsPlane rt params rail org e)

kind_Names :
    (rail : Rail) (name : String) (kind : Kind)
    → kind_of name ≡ some kind
    → Names rail name (table_of kind rail)
kind_Names rail name kind h = elim (Bool-cases (str_eq name "run_id")) [
  | inl e ↦
      let same : name ≡ "run_id" = ground (arith, e, eq_iff name "run_id") in
      let this : run_id ≡ kind = (let k = rw e at h in ground arith) in
      subst (λ k. Names rail name (table_of k rail)) this
        (subst (λ n. Names rail n rail.runs) (sym same) a_run)
  | inr e ↦ elim (Bool-cases (str_eq name "approval_id")) [
    | inl f ↦
        let same : name ≡ "approval_id" = ground (arith, f, eq_iff name "approval_id") in
        let this : approval_id ≡ kind = (let k = rw (e, f) at h in ground arith) in
        subst (λ k. Names rail name (table_of k rail)) this
          (subst (λ n. Names rail n rail.approvals) (sym same) an_approval)
    | inr f ↦ elim (Bool-cases (str_eq name "action_id")) [
      | inl g ↦
          let same : name ≡ "action_id" = ground (arith, g, eq_iff name "action_id") in
          let this : action_id ≡ kind = (let k = rw (e, f, g) at h in ground arith) in
          subst (λ k. Names rail name (table_of k rail)) this
            (subst (λ n. Names rail n rail.actions) (sym same) an_action)
      | inr g ↦ absurd (let k = rw (e, f, g) at h in ground arith)
    ]
  ]
]

no_kind :
    (name : String)
    → kind_of name ≡ none
    → (name ≢ "run_id") × (name ≢ "approval_id") × (name ≢ "action_id")
no_kind name h = (
  (λ same. absurd (let k = subst (λ n. kind_of n ≡ none) same h in ground arith)),
  (λ same. absurd (let k = subst (λ n. kind_of n ≡ none) same h in ground arith)),
  (λ same. absurd (let k = subst (λ n. kind_of n ≡ none) same h in ground arith)),
)

user_only : (c : PrincipalClass) → is_user c ≡ true → c ≡ user
user_only c e = ground (arith, e)

live_only : (o : Option Time) → is_live o ≡ true → o ≡ none
live_only o e = ground (arith, e)

user_of : (u : Uuid) (o : Option Uuid) → is_user_of u o ≡ true → o ≡ some u
user_of u none e = absurd (ground (arith, e))
user_of u (some v) e = ground (arith, e)

module _ (rt : Runtime) (token : String) (rail : Rail) where
  opened-Opens :
      (p : Member)
      → find (is_opened_by (rt.sha256 token) rail.tokens) rail.principals ≡ some p
      → Opens rt token rail p.org_id p.id
  opened-Opens p found =
      let fits = find_holds (is_opened_by (rt.sha256 token) rail.tokens) rail.principals p found in
      elim (Option-cases (find (opens (rt.sha256 token) p) rail.tokens)) [
        | inl none_there ↦ absurd (let k = fits in ground (arith, none_there))
        | inr (t, there) ↦
            let opened = find_holds (opens (rt.sha256 token) p) rail.tokens t there in
            (
              p,
              t,
              find-Mem (is_opened_by (rt.sha256 token) rail.tokens) rail.principals p found,
              find-Mem (opens (rt.sha256 token) p) rail.tokens t there,
              refl,
              refl,
              user_only p.class_ (ground (arith, fits)),
              ground (arith, opened),
              user_of t.user_id p.user_id (ground (arith, opened)),
              ground (arith, opened, eq_iff t.token_hash (rt.sha256 token)),
              live_only t.revoked_at (ground (arith, opened)),
            )
      ]

  resolve-Opens :
      (who : Caller)
      → resolve rt token rail ≡ some who
      → Opens rt token rail who.org_id who.principal_id
  unfolding resolve
  resolve-Opens who h =
      elim (Option-cases (find (is_opened_by (rt.sha256 token) rail.tokens) rail.principals)) [
        | inl e ↦ absurd (let k = rw e at h in ground arith)
        | inr (p, e) ↦
            let same : record { org_id = p.org_id; principal_id = p.id } ≡ who =
              (let k = rw e at h in ground arith) in
            subst (λ (c : Caller). Opens rt token rail c.org_id c.principal_id) same
              (opened-Opens p e)
      ]

  only-IsPlane :
      (who : Caller) (e : Uuid) (es : List Environment)
      → filter (is_prod_of who.org_id) rail.environments ≡ es
      → served_plane (one_of (map (λ (x : Environment). x.id) es)) ≡ served e
      → IsPlane rt [] rail who.org_id e
  only-IsPlane who e [] same h = absurd (ground (arith, h))
  only-IsPlane who e (p ∷ []) same h = (p, same, ground (arith, h))
  only-IsPlane who e (p ∷ q ∷ rest) same h = absurd (ground (arith, h))

  located-IsPlane :
      (who : Caller) (kind : Kind) (o : Option Uuid) (e : Uuid)
      → located kind o who.org_id rail ≡ served e
      → (r : Addressed) × Mem r (table_of kind rail)
        × (o ≡ some r.id)
        × (r.org_id ≡ who.org_id)
        × (r.environment_id ≡ e)
  unfolding locate
  located-IsPlane who kind none e h = absurd (ground (arith, h))
  located-IsPlane who kind (some i) e h =
      elim (Option-cases (find (is_owned i who.org_id) (table_of kind rail))) [
        | inl missing ↦ absurd (let k = rw (locate, missing) at h in ground arith)
        | inr (r, found) ↦
            let mine = find_holds (is_owned i who.org_id) (table_of kind rail) r found in
            (
              r,
              find-Mem (is_owned i who.org_id) (table_of kind rail) r found,
              ground (arith, mine),
              ground (arith, mine),
              let k = rw (locate, found) at h in ground arith,
            )
      ]

  plane-IsPlane :
      (who : Caller) (params : List (String × String)) (e : Uuid)
      → plane rt params who rail ≡ served e
      → IsPlane rt params rail who.org_id e
  unfolding plane prod_plane
  plane-IsPlane who [] e h =
      only-IsPlane who e (filter (is_prod_of who.org_id) rail.environments) refl h
  plane-IsPlane who ((name, raw) ∷ params) e h = elim (Option-cases (kind_of name)) [
    | inl other ↦
        let (a, b, c) = no_kind name other in
        inr (a, b, c, plane-IsPlane who params e (rw (plane, other) at h))
    | inr (kind, addressed) ↦
        let (r, row, parsed, mine, same) =
          located-IsPlane who kind (rt.parse_uuid raw) e (rw (plane, addressed) at h) in
        inl (table_of kind rail, r, kind_Names rail name kind addressed, row, parsed, mine, same)
  ]

  -- A request that gets a session works in one org: a live token row of that org opens a principal of
  -- class user there, and the plane is that org's. The first parameter of the path that is a `run_id`, an
  -- `approval_id` or an `action_id` decides it: its text is the identifier of a row of that table which
  -- belongs to the org, and the plane is the row's. Without such a parameter the plane is the org's only
  -- prod plane. So a revoked or unknown token, and an identifier that only rows of other orgs have, get no
  -- session.
  pub scoped_isolated :
      (params : List (String × String)) (s : Scoped)
      → scoped rt token params rail ≡ served s
      → Opens rt token rail s.org_id s.principal_id
        × IsPlane rt params rail s.org_id s.environment_id
  unfolding scoped caller
  scoped_isolated params s h = elim (Option-cases (resolve rt token rail)) [
    | inl e ↦ absurd (let k = rw (caller, e) at h in ground arith)
    | inr (who, e) ↦
        with_plane-IsPlane who (plane rt params who rail) refl (rw (caller, e) at h)
          (resolve-Opens who e)
  ]
    where
      with_plane-IsPlane :
          (who : Caller) (r : Served Uuid)
          → plane rt params who rail ≡ r
          → with_plane who r ≡ served s
          → Opens rt token rail who.org_id who.principal_id
          → Opens rt token rail s.org_id s.principal_id
            × IsPlane rt params rail s.org_id s.environment_id
      with_plane-IsPlane who (refused n d) e k o = absurd (ground (arith, k))
      with_plane-IsPlane who (failed x) e k o = absurd (ground (arith, k))
      with_plane-IsPlane who (served env) e k o =
          let same : record {
            org_id = who.org_id;
            environment_id = env;
            principal_id = who.principal_id;
          }
              ≡ s =
            ground (arith, k) in
          subst
            (λ (x : Scoped).
              Opens rt token rail x.org_id x.principal_id
              × IsPlane rt params rail x.org_id x.environment_id)
            same (o, plane-IsPlane who params env e)
