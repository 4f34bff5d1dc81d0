-- ===== src/Examples/Stepping.antt =====
-- The witness of a step over its budget.
use agent_quilt.Base.{◌<◌, ◌≡◌, refl, none, some, [], ◌∷◌, arith}
use agent_quilt.Json.{end}
use agent_quilt.Store.{Db, Result, ok, raise, Run, running, prod, personal, AgentDefinition}
use agent_quilt.Runs.Scheduling.{IsScheduled}
use agent_quilt.Work.{Claimed}
use agent_quilt.Context.{AssembledTurn, prefix, tools, fit}
use agent_quilt.Context.Assembly.{assemble, envelope, binding}
use agent_quilt.Step.{Surroundings, step, turn_call}
use agent_quilt.Step.Refusing.{Refused, step_over_budget}
use agent_quilt.Examples.{rt, empty_db}

abbrev pub world : Surroundings
world = record {
  rt = rt;
  session = record { principal = 1 };
  registry = [];
  policy = "policy";
  prefixes = [];
  envelopes = [];
  runner = λ turn. record {
    text = "";
    calls = [];
    usage = record { input_tokens = 0; output_tokens = 0; cached_tokens = 0 };
    cache = end;
  };
  json_dumps = λ j. "{}";
  clock = λ call reading. 100;
}

abbrev pub poor_run : Run
poor_run = record {
  id = 40;
  agent_definition_id = 2;
  skill_version_id = none;
  stage = prod;
  state = running;
  failure_reason = none;
  budget_cap_tokens = 0;
  prefix_key = "";
  capability_ceiling = end;
  prefix_profile = personal;
}

abbrev pub poor_definition : AgentDefinition
poor_definition = record {
  id = 2;
  name = "a";
  version = 1;
  soul_text = "";
  tier = "t";
  budget_cap_tokens = 0;
  memory_scope = "";
}

abbrev pub poor_db : Db
poor_db = record empty_db {
  definitions = poor_definition ∷ [];
  bindings = record { tier = "t"; provider = "p"; model = "m"; effort = none; version = 1 } ∷ [];
  runs = poor_run ∷ [];
  queue =
      record {
        run_id = 40;
        step_no = 1;
        queue_tag = "main";
        lease_until = some 100;
        claimed_by = some "w1";
      }
      ∷ [];
}

poor_db-IsScheduled : IsScheduled poor_db
poor_db-IsScheduled i = ground arith

abbrev no_turn : AssembledTurn
no_turn = record {
  prefix = [];
  envelope = [];
  prefix_key = "";
  token_cost = 0;
  manifest_id = 0;
  binding = record { tier = ""; provider = ""; model = ""; effort = none; version = 0 };
  tier = "";
}

abbrev assembled : Result (AssembledTurn × Db)
assembled =
    assemble rt "policy" [] [] world.session [] poor_run 1 (turn_call world poor_run poor_db)
      poor_db

abbrev turn_of : Result (AssembledTurn × Db) → AssembledTurn
turn_of (ok (t, db)) = t
turn_of (raise e) = no_turn

abbrev after_of : Result (AssembledTurn × Db) → Db
after_of (ok (t, db)) = db
after_of (raise e) = empty_db

assembles : assembled ≡ ok (turn_of assembled, after_of assembled)
unfolding assemble prefix envelope binding
assembles = refl

costs : 0 < (turn_of assembled).token_cost
unfolding assemble prefix envelope binding tools fit
costs = omega arith

abbrev claimed_step : Claimed
claimed_step = record { run_id = 40; step_no = 1 }

step_over_budget_example : Refused 40 poor_db (step world claimed_step poor_db)
step_over_budget_example =
    step_over_budget world claimed_step poor_run (turn_of assembled) poor_db (after_of assembled)
      poor_db-IsScheduled refl (refl, λ e. ground arith) assembles (omega (arith, costs))
