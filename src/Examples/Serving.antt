-- ===== src/Examples/Serving.antt =====
-- Tests and witnesses of the shipped contributors, of tenancy and of the routes.
use agent_quilt.Base.{
  ℕ, All, arith, true, String, ◌≡◌, refl, false, none, some, String, [], ◌∷◌, str_eq,
}
use agent_quilt.Json.{end}
use agent_quilt.Store.{Event, run_journal, user, Db, Session, ok, space, personal, AgentDefinition}
use agent_quilt.Dispatch.{dispatch}
use agent_quilt.Context.{Scope, prefix}
use agent_quilt.Context.Contributors.{prefix_contributors}
use agent_quilt.Context.Contributors.Shipped.{shared_prefix}
use agent_quilt.Tenancy.{Rail, Scoped, served, scoped, caller, resolve, plane, locate}
use agent_quilt.Tenancy.Isolation.{Opens, IsPlane, scoped_isolated}
use agent_quilt.Tenancy.Seeding.{seed_org, seeded_org, user_principal_id, seed_org_opens}
use agent_quilt.Registry.{operations, publish}
use agent_quilt.Registry.Publishing.{Adds, HasVersion, publish_once}
use agent_quilt.Runs.{events, is_event_of}
use agent_quilt.Routes.Streaming.{IsAscending, AllKeyed, stream_once}
use agent_quilt.Routes.{stream_events, in_session, outside_context, outside_call, call_operation}
use agent_quilt.Routes.Answering.{IsAnswerOf, call_operation_settles}
use agent_quilt.Examples.{rt, registry, empty_db, granted_db, note_args}

abbrev assistant : AgentDefinition
assistant = record {
  id = 2;
  name = "assistant";
  version = 1;
  soul_text = "Be kind.";
  tier = "t";
  budget_cap_tokens = 1000;
  memory_scope = "";
}

abbrev org_db : Db
org_db = record empty_db {
  orgs = record { id = 60; name = "Org A" } ∷ [];
  definitions = assistant ∷ [];
}

abbrev scope : Scope
scope = record {
  agent_definition_id = 2;
  principal_id = 1;
  prefix_profile = personal;
  surface = "web";
}

shared_prefix_example :
    prefix rt "policy"
      (prefix_contributors rt "contract")
      (record scope { principal_id = 1; prefix_profile = space })
      end
      registry
      org_db
    ≡ prefix rt "policy"
        (prefix_contributors rt "contract")
        (record scope { principal_id = 3; prefix_profile = space })
        end
        registry
        org_db
shared_prefix_example =
    shared_prefix rt scope org_db 1 3 "policy" "contract" end registry space refl

abbrev no_rows : Rail
no_rows = record {
  draws = 0;
  principals = [];
  tokens = [];
  environments = [];
  runs = [];
  approvals = [];
  actions = [];
}

seed_org_opens_example :
    (after : Rail) × (seed_org rt "secret" no_rows ≡ ok (seeded_org rt "secret" 0, after))
    × (scoped rt "secret" [] after
        ≡ served (record {
          org_id = rt.uuid4 0;
          environment_id = rt.uuid4 5;
          principal_id = user_principal_id rt 0;
        }))
    × ((other : String)
        → str_eq (rt.sha256 "secret") (rt.sha256 other) ≡ false
        → resolve rt other after ≡ resolve rt other no_rows)
seed_org_opens_example = seed_org_opens rt "secret" no_rows (refl, refl, refl)

-- A seeded org with a run on its dev plane.
abbrev one_org : Rail
one_org = record no_rows {
  principals = record { id = 1002; org_id = 1000; class_ = user; user_id = some 1003 } ∷ [];
  tokens =
      record { id = 1006; user_id = 1003; org_id = 1000; token_hash = "secret"; revoked_at = none }
      ∷ [];
  runs = record { id = 5; org_id = 1000; environment_id = 1004 } ∷ [];
}

abbrev run_session : Scoped
run_session = record { org_id = 1000; environment_id = 1004; principal_id = 1002 }

opens_run : scoped rt "secret" (("run_id", "5") ∷ []) one_org ≡ served run_session
unfolding scoped caller resolve plane locate
opens_run = refl

scoped_isolated_example :
    Opens rt "secret" one_org 1000 1002 × IsPlane rt (("run_id", "5") ∷ []) one_org 1000 1004
scoped_isolated_example =
    scoped_isolated rt "secret" one_org (("run_id", "5") ∷ []) run_session opens_run

abbrev person : Session
person = record { principal = 1 }

call_operation_settles_example :
    IsAnswerOf granted_db
      (dispatch rt registry
        (outside_context person (λ n. 100))
        (outside_call rt "notes.write_note" note_args granted_db)
        (record granted_db { draws = 1 }))
      (in_session granted_db
        (call_operation rt registry person (λ n. 100) "notes.write_note" note_args granted_db))
call_operation_settles_example =
    call_operation_settles rt registry person (λ n. 100) "notes.write_note" note_args granted_db
      refl

abbrev event_at : ℕ → Event
event_at n = record {
  id = n;
  kind = run_journal;
  aggregate_kind = "run";
  aggregate_id = 40;
  aggregate_version = 0;
  run_id = some 40;
  step_no = none;
  principal_id = 1;
  operation_name = none;
  payload = end;
  action_id = none;
}

-- The event 2 commits after the event 3 has been read.
abbrev two_events : Db
two_events = record empty_db { events = event_at 3 ∷ event_at 1 ∷ [] }

abbrev four_events : Db
four_events = record empty_db { events = event_at 4 ∷ event_at 2 ∷ event_at 3 ∷ event_at 1 ∷ [] }

keyed : AllKeyed (two_events ∷ four_events ∷ [])
keyed = ground arith

stream_once_example :
    IsAscending 0 (stream_events 40 0 (two_events ∷ four_events ∷ []))
    × All (λ e. is_event_of 40 e ≡ true) (stream_events 40 0 (two_events ∷ four_events ∷ []))
stream_once_example = stream_once 40 0 (two_events ∷ four_events ∷ []) keyed

-- That stream misses the event 2.
stream_misses :
    stream_events 40 0 (two_events ∷ four_events ∷ []) ≡ event_at 1 ∷ event_at 3 ∷ event_at 4 ∷ []
unfolding stream_events events
stream_misses = refl

publish_once_example :
    Adds rt (operations registry) empty_db.versions (publish rt registry empty_db).versions
    × All (HasVersion rt (publish rt registry empty_db).versions) (operations registry)
    × (publish rt registry (publish rt registry empty_db) ≡ publish rt registry empty_db)
publish_once_example = publish_once rt registry empty_db
