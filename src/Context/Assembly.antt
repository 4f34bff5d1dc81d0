-- ===== src/Context/Assembly.antt =====
-- backend/app/kernel/context/service.py: the envelope, the manifest and the assembled turn.
pub mod Recording
use agent_quilt.Base.{
  ℕ, suc, ◌+◌, ◌==◌, ◌&&◌, Bool, true, false, not, Option, none, some, String, List, [], ◌∷◌, ◌++◌,
  map, find, ltb, str_eq, if◌then◌else◌, concat, is_some,
}
use agent_quilt.Json.{Json, JsonValue, number, text, boolean, object, array, end, field, items}
use agent_quilt.Runtime.{Uuid, Runtime}
use agent_quilt.Store.{
  Db, Session, M, Result, ok, raise, value_error, no_result, Run, TierBinding, PrefixProfile,
  personal, space, none_profile,
}
use agent_quilt.Identity.{effective_grants}
use agent_quilt.Registry.{Registry}
use agent_quilt.Runs.{grants_json}
use agent_quilt.Context.{
  EnvelopeSlot, d1, d3, d4, d5, d6, envelope_index, PrefixLayer, Slice, Scope, PrefixContributor,
  EnvelopeContributor, TurnCall, AssembledTurn, tokens, total_tokens, prefix, prefix_key, fit,
  slot_text,
}

abbrev pub envelope_text : EnvelopeSlot → String
envelope_text d1 = "D1"
envelope_text d3 = "D3"
envelope_text d4 = "D4"
envelope_text d5 = "D5"
envelope_text d6 = "D6"

abbrev pub EnvelopeOwners : Type 0
EnvelopeOwners = List (EnvelopeSlot × String)

abbrev pub envelope_owner : EnvelopeSlot → EnvelopeOwners → Option String
envelope_owner slot [] = none
envelope_owner slot ((s, o) ∷ owners) =
    if envelope_index s == envelope_index slot then some o else envelope_owner slot owners

-- One slice: declared, and its slot free or its contributor's own.
abbrev pub claim_slice : EnvelopeOwners → EnvelopeContributor → Slice → Result EnvelopeOwners
claim_slice owners c part =
    if not (is_some (find (λ s. envelope_index s == envelope_index part.slot) c.envelope_slots))
    then raise (
        value_error (
          concat (
            "'"
            ∷ c.owner
            ∷ "' returned slot "
            ∷ envelope_text part.slot
            ∷ ", which it never declared"
            ∷ [])))
    else elim (envelope_owner part.slot owners) [
      | none ↦ ok ((part.slot, c.owner) ∷ owners)
      | some claimed ↦
          if str_eq claimed c.owner
          then ok owners
          else raise (
              value_error (
                concat (
                  "slot "
                  ∷ envelope_text part.slot
                  ∷ " is owned by '"
                  ∷ claimed
                  ∷ "', not '"
                  ∷ c.owner
                  ∷ "'"
                  ∷ [])))
    ]

claim_slices : EnvelopeOwners → EnvelopeContributor → List Slice → Result EnvelopeOwners
claim_slices owners c [] = ok owners
claim_slices owners c (part ∷ parts) = elim (claim_slice owners c part) [
  | raise e ↦ raise e
  | ok claimed ↦ claim_slices claimed c parts
]

contributed :
    Scope
    → Uuid
    → ℕ
    → Db
    → EnvelopeOwners
    → List EnvelopeContributor
    → List Slice
    → Result (List Slice)
unfolding claim_slices
contributed scope i n db owners [] slices = ok slices
contributed scope i n db owners (c ∷ cs) slices =
    elim (claim_slices owners c (c.slices scope i n db)) [
      | raise e ↦ raise e
      | ok claimed ↦ contributed scope i n db claimed cs (slices ++ c.slices scope i n db)
    ]

-- `_envelope`: the turn's message, the conversation where there is one, and the contributors'.
unfoldable pub envelope :
    List EnvelopeContributor → Scope → Uuid → ℕ → TurnCall → Db → Result (List Slice)
unfolding contributed
envelope contributors scope i n call db =
    let intake : Slice = record {
      slot = d6;
      body = call.intake;
      provenance = "web:intake";
      priority = 0;
    } in
    let transcript : Slice = record {
      slot = d4;
      body = call.transcript;
      provenance = "web:transcript";
      priority = 1;
    } in
    contributed scope i n db ((d4, "kernel") ∷ (d6, "kernel") ∷ []) contributors
      (intake ∷ (if str_eq call.transcript "" then [] else transcript ∷ []))

-- `_binding`: the agent definition's tier, in its highest version.
highest : String → List TierBinding → Option TierBinding
highest tier [] = none
highest tier (b ∷ bs) = elim (highest tier bs) [
  | none ↦ if str_eq b.tier tier then some b else none
  | some c ↦ if str_eq b.tier tier && not (ltb b.version c.version) then some b else some c
]

unfoldable pub binding : Uuid → Db → Option TierBinding
unfolding highest
binding definition db = elim (find (λ d. d.id == definition) db.definitions) [
  | none ↦ none
  | some d ↦ highest d.tier db.bindings
]

abbrev pub layer_json : PrefixLayer → JsonValue
layer_json l = object (
    field "slot" (text (slot_text l.slot)) (
      field "owner" (text l.owner)
        (field "version" (text l.version) (field "tokens" (number (tokens l.body)) end))))

abbrev pub slice_json : Bool → Slice → JsonValue
slice_json keep s = object (
    field "slot" (text (envelope_text s.slot)) (
      field "provenance" (text s.provenance) (
        field "priority" (number s.priority)
          (field "tokens" (number (tokens s.body)) (field "kept" (boolean keep) end)))))

-- `_manifest_layers`
unfoldable pub manifest_layers : List PrefixLayer → List Slice → List Slice → Json
manifest_layers layers kept dropped = field "prefix" (array (items (map layer_json layers))) (
    field "envelope" (array (items (map (slice_json true) kept ++ map (slice_json false) dropped)))
      end)

abbrev pub profile_text : PrefixProfile → String
profile_text personal = "personal"
profile_text space = "space"
profile_text none_profile = "none"

-- `_effective_scope`
unfoldable pub effective_scope : Runtime → Scope → Db → Json
effective_scope rt scope db = field "principal_id" (text (rt.str_uuid scope.principal_id)) (
    field "agent_definition_id" (text (rt.str_uuid scope.agent_definition_id)) (
      field "prefix_profile" (text (profile_text scope.prefix_profile)) (
        field "surface" (text scope.surface)
          (field "grants" (object (grants_json (effective_grants scope.principal_id db))) end))))

abbrev pub scope_of : Session → Run → Scope
scope_of s run = record {
  agent_definition_id = run.agent_definition_id;
  principal_id = s.principal;
  prefix_profile = run.prefix_profile;
  surface = "web";
}

-- The turn, and the manifest row that records it.
recorded :
    Runtime
    → Scope
    → Run
    → ℕ
    → TurnCall
    → TierBinding
    → List PrefixLayer
    → List Slice
    → Db
    → AssembledTurn × Db
unfolding manifest_layers effective_scope
recorded rt scope run n call bound layers slices db =
    let prefix_tokens = total_tokens (λ (l : PrefixLayer). l.body) layers in
    let fitted = fit slices prefix_tokens call.budget_tokens in
    let cost = prefix_tokens + total_tokens (λ (s : Slice). s.body) fitted.0 in
    (
      record {
        prefix = layers;
        envelope = fitted.0;
        prefix_key = prefix_key rt layers bound;
        token_cost = cost;
        manifest_id = rt.uuid4 db.draws;
        binding = bound;
        tier = bound.tier;
      },
      record db {
        draws = suc db.draws;
        manifests =
            (record {
              id = rt.uuid4 db.draws;
              run_id = run.id;
              step_no = n;
              prefix_key = prefix_key rt layers bound;
              layers = manifest_layers layers fitted.0 fitted.1;
              token_cost = cost;
              cache_positions = end;
              telemetry = end;
              effective_scope = effective_scope rt scope db;
            })
            ∷ db.manifests;
      },
    )

enveloped :
    Runtime
    → Scope
    → Run
    → ℕ
    → TurnCall
    → TierBinding
    → List PrefixLayer
    → Db
    → Result (List Slice)
    → Result (AssembledTurn × Db)
unfolding recorded
enveloped rt scope run n call bound layers db (raise e) = raise e
enveloped rt scope run n call bound layers db (ok slices) =
    ok (recorded rt scope run n call bound layers slices db)

prefixed :
    Runtime
    → List EnvelopeContributor
    → Scope
    → Run
    → ℕ
    → TurnCall
    → TierBinding
    → Result (List PrefixLayer)
    → Db
    → Result (AssembledTurn × Db)
unfolding enveloped
prefixed rt contributors scope run n call bound (raise e) db = raise e
prefixed rt contributors scope run n call bound (ok layers) db =
    enveloped rt scope run n call bound layers db (envelope contributors scope run.id n call db)

unfoldable pub assemble :
    Runtime
    → String
    → List PrefixContributor
    → List EnvelopeContributor
    → Session
    → Registry
    → Run
    → ℕ
    → TurnCall
    → M AssembledTurn
unfolding prefixed
assemble rt policy prefixes envelopes s registry run n call db =
    elim (binding run.agent_definition_id db) [
      | none ↦ raise no_result
      | some bound ↦
          prefixed rt envelopes (scope_of s run) run n call bound
            (prefix rt policy prefixes (scope_of s run) run.capability_ceiling registry db) db
    ]
