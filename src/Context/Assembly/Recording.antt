-- ===== src/Context/Assembly/Recording.antt =====
-- What assembly writes.
use agent_quilt.Base.{ℕ, suc, ◌≡◌, refl, String, List, ◌∷◌, Option-cases, inl, inr}
use agent_quilt.Runtime.{Runtime}
use agent_quilt.Store.{Db, Session, Result, ok, raise, Run, ContextManifest, TierBinding}
use agent_quilt.Registry.{Registry}
use agent_quilt.Context.{
  AssembledTurn, TurnCall, PrefixContributor, EnvelopeContributor, PrefixLayer, Slice, Scope,
  prefix,
}
use agent_quilt.Context.Assembly.{
  assemble, prefixed, enveloped, recorded, envelope, binding, scope_of,
}

-- Assembly records its manifest and changes nothing else.
abbrev pub IsAssembled : Db → Result (AssembledTurn × Db) → Type 0
IsAssembled db (raise e) = Unit {0}
IsAssembled db (ok (turn, after)) =
    (m : ContextManifest) × (m.id ≡ turn.manifest_id)
    × (after ≡ record db { draws = suc db.draws; manifests = m ∷ db.manifests })

enveloped-IsAssembled :
    (rt : Runtime) (scope : Scope) (run : Run) (n : ℕ) (call : TurnCall) (bound : TierBinding)
    (layers : List PrefixLayer) (db : Db) (r : Result (List Slice))
    → IsAssembled db (enveloped rt scope run n call bound layers db r)
unfolding enveloped recorded
enveloped-IsAssembled rt scope run n call bound layers db (raise e) = tt
enveloped-IsAssembled rt scope run n call bound layers db (ok slices) = (_, refl, refl)

prefixed-IsAssembled :
    (rt : Runtime) (cs : List EnvelopeContributor) (scope : Scope) (run : Run) (n : ℕ)
    (call : TurnCall) (bound : TierBinding) (r : Result (List PrefixLayer)) (db : Db)
    → IsAssembled db (prefixed rt cs scope run n call bound r db)
unfolding prefixed
prefixed-IsAssembled rt cs scope run n call bound (raise e) db = tt
prefixed-IsAssembled rt cs scope run n call bound (ok layers) db =
    enveloped-IsAssembled rt scope run n call bound layers db (envelope cs scope run.id n call db)

pub assemble-IsAssembled :
    (rt : Runtime) (policy : String) (ps : List PrefixContributor) (es : List EnvelopeContributor)
    (s : Session) (registry : Registry) (run : Run) (n : ℕ) (call : TurnCall) (db : Db)
    → IsAssembled db (assemble rt policy ps es s registry run n call db)
unfolding assemble
assemble-IsAssembled rt policy ps es s registry run n call db =
    elim (Option-cases (binding run.agent_definition_id db)) [
      | inl e ↦ rw (IsAssembled, e) tt
      | inr (b, e) ↦
          rw (IsAssembled, e)
            (prefixed-IsAssembled rt es (scope_of s run) run n call b
              (prefix rt policy ps (scope_of s run) run.capability_ceiling registry db) db)
    ]
