-- ===== src/Context/Contributors/Shipped.antt =====
-- The prefix that the shipped contributors make.
use agent_quilt.Base.{
  ◌≡◌, refl, Bool, true, false, String, List, [], ◌∷◌, find, concat, ◌==◌, inl, inr, arith, ap,
  Option-cases,
}
use agent_quilt.Json.{Json}
use agent_quilt.Runtime.{Uuid, Runtime}
use agent_quilt.Store.{
  Db, Result, raise, ok, AgentDefinition, PrefixProfile, personal, space, none_profile,
}
use agent_quilt.Registry.{Registry}
use agent_quilt.Context.{
  l0, l4, l5, PrefixLayer, Layer, Scope, prefix, claim_all, claim_returned, ordered, tools, Owners,
  policy_layer, version_of_layer,
}
use agent_quilt.Context.Contributors.{
  first_org, profile_of, fetch_instructions, instructions, rendered, Instructions, org_layer,
  agent_layer, personal_layer, skill_names, skills, skills_layer, web_surface, prefix_contributors,
}

owned : String → Layer → PrefixLayer
owned owner l = record { slot = l.slot; owner = owner; version = l.version; body = l.body }

-- The seven layers, by what `fetch` returned.
seven : Runtime → String → String → Json → Registry → Instructions → Db → List PrefixLayer
unfolding owned skills_layer
seven rt policy contract ceiling registry source db =
    policy_layer rt policy
    ∷ owned "instructions" (org_layer rt source)
    ∷ owned "instructions" (agent_layer rt source)
    ∷ owned "instructions" (personal_layer rt source)
    ∷ owned "surfaces"
        (record { slot = l4; version = version_of_layer rt "web" contract; body = contract })
    ∷ tools rt registry ceiling
    ∷ owned "skills" (skills_layer rt (skill_names db))
    ∷ []

-- What the instructions are rendered from.
source_of : Scope → Db → AgentDefinition → Instructions
source_of scope db d = record {
  org_name = first_org db.orgs;
  agent_name = d.name;
  agent_version = d.version;
  soul_text = d.soul_text;
  profile = profile_of scope.principal_id db;
  prefix_profile = scope.prefix_profile;
  principal_id = scope.principal_id;
}

module _ (rt : Runtime) (policy contract : String) (scope : Scope) (ceiling : Json)
    (registry : Registry) (db : Db) where
  abbrev kernels : Owners
  kernels = (l0, "kernel") ∷ (l5, "kernel") ∷ []

  abbrev start : List PrefixLayer
  start = policy_layer rt policy ∷ tools rt registry ceiling ∷ []

  -- What the claims go on to, once the first contributor has claimed.
  abbrev continued : Result (Owners × List PrefixLayer) → Result (Owners × List PrefixLayer)
  continued r = elim r [
    | raise e ↦ raise e
    | ok (taken, more) ↦ claim_all scope db taken (skills rt ∷ web_surface rt contract ∷ []) more
  ]

-- The text on the person: their name under the personal profile, and nothing under another.
abbrev pub person_text : PrefixProfile → String → String
person_text personal name = concat ("The person you are working with is " ∷ name ∷ "." ∷ [])
person_text _ name = ""

abbrev is_personal : PrefixProfile → Bool
is_personal personal = true
is_personal _ = false

abbrev seen_by : Uuid → PrefixProfile → Scope → Scope
seen_by i p scope = record scope { principal_id = i; prefix_profile = p }

module _ (rt : Runtime) (scope : Scope) (db : Db) (a b : Uuid) where
  same_rendering :
      (p : PrefixProfile)
      → is_personal p ≡ false
      → rendered rt (fetch_instructions (seen_by a p scope) db)
        ≡ rendered rt (fetch_instructions (seen_by b p scope) db)
  unfolding fetch_instructions rendered
  same_rendering personal e = absurd (ground (arith, e))
  same_rendering space e =
      elim (Option-cases
        (find (λ (x : AgentDefinition). x.id == scope.agent_definition_id) db.definitions)) [
          | inl missing ↦ rw (rendered, fetch_instructions, missing) refl
          | inr (d, found) ↦ rw (rendered, fetch_instructions, found) refl
        ]
  same_rendering none_profile e =
      elim (Option-cases
        (find (λ (x : AgentDefinition). x.id == scope.agent_definition_id) db.definitions)) [
          | inl missing ↦ rw (rendered, fetch_instructions, missing) refl
          | inr (d, found) ↦ rw (rendered, fetch_instructions, found) refl
        ]

  -- Under another profile than the personal one, two principals have the same prefix: nothing that the
  -- shipped contributors render names the person, and a cached prompt serves both.
  pub shared_prefix :
      (policy contract : String) (ceiling : Json) (registry : Registry) (p : PrefixProfile)
      → is_personal p ≡ false
      → prefix rt policy (prefix_contributors rt contract) (seen_by a p scope) ceiling registry db
        ≡ prefix rt policy (prefix_contributors rt contract) (seen_by b p scope) ceiling registry db
  unfolding prefix claim_all instructions skills web_surface
  shared_prefix policy contract ceiling registry p e =
      ap
        (λ r. ordered (
          continued rt policy contract scope ceiling registry db (
            claim_returned (kernels rt policy contract scope ceiling registry db) (instructions rt)
              r (start rt policy contract scope ceiling registry db))))
        (same_rendering p e)
