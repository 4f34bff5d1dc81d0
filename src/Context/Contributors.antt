-- ===== src/Context/Contributors.antt =====
-- The contributors that the program ships (backend/app/kernel/context/contributors.py and
-- backend/app/modules/surfaces/service.py).
pub mod Shipped
use agent_quilt.Base.{
  ◌==◌, ◌&&◌, Bool, true, false, Option, none, some, String, List, [], ◌∷◌, ◌++◌, map, find, concat,
  and_then, ℕ,
}
use mathlib.Core.Option
use agent_quilt.Base.Sorting.{sorted}
use agent_quilt.Runtime.{Uuid, Runtime}
use agent_quilt.Store.{
  Db, Result, ok, raise, no_result, Org, User, Principal, Skill, SkillVersion, AgentDefinition,
  PrefixProfile, personal, space, none_profile, find_principal, find_run,
}
use agent_quilt.Skills.{text_le, find_version}
use agent_quilt.Context.{
  PrefixSlot, l1, l2, l3, l4, l6, EnvelopeSlot, d1, Layer, Slice, Scope, PrefixContributor,
  EnvelopeContributor, version_of_layer, join_lines,
}
use agent_quilt.Context.Assembly.{profile_text}

-- What L1, L2 and L3 render from.
pub record Instructions : Type 0 where
  pub org_name : String
  pub agent_name : String
  pub agent_version : ℕ
  pub soul_text : String
  pub profile : String
  pub prefix_profile : PrefixProfile
  pub principal_id : Uuid

abbrev pub first_org : List Org → String
first_org [] = ""
first_org (o ∷ os) = o.name

-- The display name of the principal's user, or the empty text.
abbrev pub profile_of : Uuid → Db → String
profile_of i db =
    elim (and_then (find_principal i db.principals)
      λ p. and_then p.user_id λ u. find (λ x. x.id == u) db.users) [
        | none ↦ ""
        | some u ↦ u.display_name
      ]

-- `InstructionsContributor.fetch`
unfoldable pub fetch_instructions : Scope → Db → Result Instructions
fetch_instructions scope db = elim (find (λ d. d.id == scope.agent_definition_id) db.definitions) [
  | none ↦ raise no_result
  | some d ↦ ok (record {
    org_name = first_org db.orgs;
    agent_name = d.name;
    agent_version = d.version;
    soul_text = d.soul_text;
    profile = profile_of scope.principal_id db;
    prefix_profile = scope.prefix_profile;
    principal_id = scope.principal_id;
  })
]

-- `_personal`: under another profile than `personal` the version is the profile, and the body is empty.
abbrev pub personal_body : Instructions → String
personal_body source = elim source.prefix_profile [
  | personal ↦ concat ("The person you are working with is " ∷ source.profile ∷ "." ∷ [])
  | _ ↦ ""
]

abbrev pub personal_version : Runtime → Instructions → String
personal_version rt source = elim source.prefix_profile [
  | personal ↦
      version_of_layer rt (concat ("personal:" ∷ rt.str_uuid source.principal_id ∷ []))
        (personal_body source)
  | other ↦ profile_text other
]

abbrev pub personal_layer : Runtime → Instructions → Layer
personal_layer rt source = record {
  slot = l3;
  version = personal_version rt source;
  body = personal_body source;
}

abbrev pub org_layer : Runtime → Instructions → Layer
org_layer rt source =
    let body = concat ("You are working for " ∷ source.org_name ∷ "." ∷ []) in
    record { slot = l1; version = version_of_layer rt "org" body; body = body }

abbrev pub agent_layer : Runtime → Instructions → Layer
agent_layer rt source = record {
  slot = l2;
  version =
      version_of_layer rt
        (concat (source.agent_name ∷ "@" ∷ rt.str_number source.agent_version ∷ []))
        source.soul_text;
  body = source.soul_text;
}

-- `InstructionsContributor.layers`
abbrev pub instruction_layers : Runtime → Instructions → List Layer
instruction_layers rt source =
    org_layer rt source ∷ agent_layer rt source ∷ personal_layer rt source ∷ []

rendered : Runtime → Result Instructions → Result (List Layer)
rendered rt (raise e) = raise e
rendered rt (ok source) = ok (instruction_layers rt source)

unfoldable pub instructions : Runtime → PrefixContributor
unfolding rendered
instructions rt = record {
  owner = "instructions";
  prefix_slots = l1 ∷ l2 ∷ l3 ∷ [];
  layers = λ scope db. rendered rt (fetch_instructions scope db);
}

-- `SkillsContributor.fetch`: the names of the skills in their order.
unfoldable pub skill_names : Db → List String
unfolding text_le sorted
skill_names db = sorted text_le (map (λ (s : Skill). s.name) db.skills)

skills_layer : Runtime → List String → Layer
unfolding join_lines
skills_layer rt source =
    let body = join_lines source in
    record { slot = l6; version = version_of_layer rt "skills" body; body = body }

unfoldable pub skills : Runtime → PrefixContributor
unfolding skills_layer
skills rt = record {
  owner = "skills";
  prefix_slots = l6 ∷ [];
  layers = λ scope db. ok (skills_layer rt (skill_names db) ∷ []);
}

-- `SkillsContributor.slices`: the body of the version that the run is bound to.
abbrev pub bound_version : Uuid → Db → Option SkillVersion
bound_version i db =
    and_then (find_run i db.runs)
      λ r. and_then r.skill_version_id λ v. find_version v db.skill_versions

unfoldable pub skill_slices : EnvelopeContributor
skill_slices = record {
  owner = "skills";
  envelope_slots = d1 ∷ [];
  slices = λ scope i n db. elim (bound_version i db) [
    | none ↦ []
    | some v ↦ record { slot = d1; body = v.body; provenance = v.id; priority = 1 } ∷ []
  ];
}

-- `WebSurfaceContributor`, by the text of its contract.
unfoldable pub web_surface : Runtime → String → PrefixContributor
web_surface rt contract = record {
  owner = "surfaces";
  prefix_slots = l4 ∷ [];
  layers = λ scope db.
      ok (record { slot = l4; version = version_of_layer rt "web" contract; body = contract } ∷ []);
}

-- `register_prefix`
abbrev pub register_prefix : PrefixContributor → List PrefixContributor → List PrefixContributor
register_prefix c cs = cs ++ c ∷ []

-- `PREFIX_CONTRIBUTORS` once the modules are imported, and `ENVELOPE_CONTRIBUTORS`.
abbrev pub prefix_contributors : Runtime → String → List PrefixContributor
prefix_contributors rt contract =
    register_prefix (web_surface rt contract) (instructions rt ∷ skills rt ∷ [])

abbrev pub envelope_contributors : List EnvelopeContributor
envelope_contributors = skill_slices ∷ []
