-- ===== src/Examples/Work.antt =====
-- Tests and witnesses of runs, work, the tick, governance, context and the model's budget.
use agent_quilt.Base.{
  Bool, ◌↔◌, count, ℕ, ◌+◌, ◌≤◌, ◌≡◌, ◌≢◌, refl, true, false, Option, none, some, String, List, [],
  ◌∷◌, arith, All, ◌++◌,
}
use agent_quilt.Json.{end}
use agent_quilt.Store.{
  Db, Session, ok, Run, running, cancelled, waiting_approval, queued, done, StepQueue, RunState,
  prod, personal, Approval, requested, expired, user, steer, ContextManifest, TierBinding,
}
use agent_quilt.Runs.{is_of, post}
use agent_quilt.Runs.Scheduling.{IsScheduled, state_at}
use agent_quilt.Runs.Mailbox.{Posts, post_answers}
use agent_quilt.Work.{claim, Claimed, StepOutcome, settle}
use agent_quilt.Work.Claiming.{no_more, IsClaim, claim-IsClaim, claim_exclusive}
use agent_quilt.Work.Progress.{claim_times, claims_end}
use agent_quilt.Work.Stale.{stale_db, stale_settle}
use agent_quilt.Work.Settling.{settle_held, settle_cancelled, SettlesTo, end_state, saved_by}
use agent_quilt.Examples.{rt, empty_db, ctx, registry}
use agent_quilt.Runtime.{Uuid}
use agent_quilt.Registry.{CallContext}
use agent_quilt.Tick.{Pass, is_stale, tick_once}
use agent_quilt.Tick.Expiry.{tick_once-IsScheduled}
use agent_quilt.Governance.{DecideApproval, approve, decide_approval}
use agent_quilt.Governance.Deciding.{reply, Answers, decide_requested}
use agent_quilt.Model.{Completion, ModelOutcome, run_model}
use agent_quilt.Model.Budget.{IsBudgeted, run_model-IsBudgeted}
use agent_quilt.Context.{
  policy_layer, tools, AssembledTurn, Slice, d6, l1, fit, total_tokens, PrefixContributor, Scope,
  prefix,
}
use agent_quilt.Context.Fitting.{fit_lem}
use agent_quilt.Context.Slots.{offered, IsPrefix, prefix_lem}
use mathlib.Core.List.{Perm}
use agent_quilt.Store.{SkillVersion, inline, dev}
use agent_quilt.Skills.{activate, find_version}
use agent_quilt.Skills.Activation.{activate_undo}

-- Run 40 of principal 1, in a given state.
abbrev run_in : RunState → Run
run_in state = record {
  id = 40;
  agent_definition_id = 2;
  skill_version_id = none;
  stage = prod;
  state = state;
  failure_reason = none;
  budget_cap_tokens = 100;
  prefix_key = "";
  capability_ceiling = end;
  prefix_profile = personal;
}

abbrev row_at : ℕ → StepQueue
row_at n = record {
  run_id = 40;
  step_no = n;
  queue_tag = "main";
  lease_until = none;
  claimed_by = none;
}

abbrev db_in : RunState → List StepQueue → Db
db_in state rows = record empty_db { runs = run_in state ∷ []; queue = rows }

abbrev queued_db : Db
queued_db = db_in queued (row_at 1 ∷ [])

abbrev running_db : Db
running_db = db_in running (row_at 1 ∷ [])

abbrev waiting_db : Db
waiting_db = db_in waiting_approval []

abbrev cancelled_db : Db
cancelled_db = db_in cancelled []

abbrev done_db : Db
done_db = db_in done []

queued_db-IsScheduled : IsScheduled queued_db
queued_db-IsScheduled i = ground arith

running_db-IsScheduled : IsScheduled running_db
running_db-IsScheduled i = ground arith

waiting_db-IsScheduled : IsScheduled waiting_db
waiting_db-IsScheduled i = ground arith

cancelled_db-IsScheduled : IsScheduled cancelled_db
cancelled_db-IsScheduled i = ground arith

done_db-IsScheduled : IsScheduled done_db
done_db-IsScheduled i = ground arith

abbrev anyone : Session
anyone = record { principal = 1 }

abbrev first : Option Claimed × Db
first = claim (λ i. false) "w1" 100 queued_db

claim-IsClaim_example : IsClaim (λ i. false) 100 queued_db first
claim-IsClaim_example = claim-IsClaim (λ i. false) "w1" 100 queued_db queued_db-IsScheduled

claims_end_example :
    (claim (λ i. false) "w1" 100 (claim_times (λ i. false) "w1" 100 1 queued_db)).0 ≡ none
claims_end_example = claims_end (λ i. false) "w1" 100 1 queued_db (omega arith)

abbrev other_row : StepQueue
other_row = record (row_at 1) { run_id = 41 }

abbrev two_db : Db
two_db = record queued_db {
  runs = record (run_in queued) { id = 41 } ∷ run_in queued ∷ [];
  queue = other_row ∷ row_at 1 ∷ [];
}

two_db-IsScheduled : IsScheduled two_db
two_db-IsScheduled i = ground arith

abbrev one_claimed : Db
one_claimed = (claim (λ i. false) "w1" 100 two_db).1

abbrev both_claimed : Db
both_claimed = (claim (λ i. false) "w2" 200 one_claimed).1

claim_one :
    claim (λ i. false) "w1" 100 two_db ≡ (some (record { run_id = 40; step_no = 1 }), one_claimed)
unfolding claim
claim_one = refl

claim_other :
    claim (λ i. false) "w2" 200 one_claimed
    ≡ (some (record { run_id = 41; step_no = 1 }), both_claimed)
unfolding claim
claim_other = refl

abbrev of_run : Uuid → Claimed
of_run i = record { run_id = i; step_no = 1 }

claim_exclusive_example : (of_run 41).run_id ≢ (of_run 40).run_id
claim_exclusive_example =
    claim_exclusive (λ i. false) (λ i. false) "w1" "w2" 100 200 two_db one_claimed one_claimed
      both_claimed (of_run 40) (of_run 41) two_db-IsScheduled claim_one no_more claim_other
      (omega arith)

abbrev outcome : StepOutcome
outcome = record { said = "done"; results = end ∷ []; parked = none; mailbox_seq = 0 }

settle_held_example :
    SettlesTo 40 1 running_db
      (end_state outcome)
      (saved_by rt 40 1 outcome running_db)
      (settle rt anyone 40 1 outcome running_db)
settle_held_example =
    settle_held rt anyone 40 1 outcome running_db running_db-IsScheduled (refl, λ e. ground arith)

-- The other worker has settled steps 1 and 2.
abbrev moved_on : Db
moved_on = db_in queued (row_at 3 ∷ [])

moved_on-IsScheduled : IsScheduled moved_on
moved_on-IsScheduled i = ground arith

stale_settle_example :
    (settle rt anyone 40 1 outcome moved_on ≡ ok (queued, stale_db rt 40 1 outcome moved_on))
    × (count (is_of 40) (stale_db rt 40 1 outcome moved_on).queue ≡ 2)
    × (IsScheduled (stale_db rt 40 1 outcome moved_on) → ⊥)
stale_settle_example =
    stale_settle rt anyone 40 1 outcome moved_on refl moved_on-IsScheduled refl refl refl refl

settle_cancelled_example :
    (after : Db) × (settle rt anyone 40 1 outcome cancelled_db ≡ ok (cancelled, after))
    × IsScheduled after
    × (after.runs ≡ cancelled_db.runs)
    × (after.checkpoints ≡ [])
settle_cancelled_example =
    settle_cancelled rt anyone 40 1 outcome cancelled_db cancelled_db-IsScheduled refl

post_answers_example :
    Posts anyone steer end (some done) 40 done_db (post rt anyone 40 steer end done_db)
post_answers_example = post_answers rt anyone 40 steer end done_db done_db-IsScheduled (λ i. refl)

abbrev late_request : Approval
late_request = record {
  id = 60;
  granted_to = 1;
  granted_by = none;
  operation_version_id = "v1";
  args_hash = "h";
  state = requested;
  reason = none;
  run_id = 40;
  step_no = 1;
  tool_call_id = "t1";
  expires_at = 150;
  consumed_by_action_id = none;
}

abbrev parked_db : Db
parked_db = record waiting_db {
  approvals = late_request ∷ [];
  principals = record { id = 1; class_ = user; user_id = some 9 } ∷ [];
}

tick_once-IsScheduled_example :
    (p : Option Pass) × (after : Db) × (tick_once (λ n. true) 200 200 parked_db ≡ ok (p, after))
    × IsScheduled after
    × (((n : ℕ) → true ≡ true) → All (λ a. is_stale 200 a ≡ false) after.approvals)
tick_once-IsScheduled_example =
    tick_once-IsScheduled (λ n. true) 200 200 parked_db waiting_db-IsScheduled

abbrev outside : CallContext
outside = record ctx { run_id = none; step_no = none }

abbrev approval_answer : DecideApproval
approval_answer = record { approval_id = 60; decision = approve; reason = none }

decide_requested_example :
    (moved : Bool) × (after : Db) × (decide_approval outside approval_answer parked_db
      ≡ ok (reply approve moved, after))
    × Answers 1 approval_answer late_request parked_db.approvals after.approvals
    × IsScheduled after
    × ((moved ≡ true) ↔ (state_at 40 parked_db.runs ≡ some waiting_approval))
    × (state_at 40 parked_db.runs ≡ some waiting_approval → state_at 40 after.runs ≡ some queued)
decide_requested_example =
    decide_requested outside approval_answer parked_db late_request waiting_db-IsScheduled refl refl
      refl refl

abbrev answered_request : Approval
answered_request = record late_request { state = expired }

abbrev answered_db : Db
answered_db = record parked_db { approvals = answered_request ∷ [] }

abbrev tier_binding : TierBinding
tier_binding = record { tier = "t"; provider = "p"; model = "m"; effort = none; version = 1 }

abbrev turn : AssembledTurn
turn = record {
  prefix = [];
  envelope = [];
  prefix_key = "";
  token_cost = 30;
  manifest_id = 70;
  binding = tier_binding;
  tier = "t";
}

abbrev manifest : ContextManifest
manifest = record {
  id = 70;
  run_id = 40;
  step_no = 1;
  prefix_key = "";
  layers = end;
  token_cost = 30;
  cache_positions = end;
  telemetry = end;
  effective_scope = end;
}

abbrev model_db : Db
model_db = record running_db { manifests = manifest ∷ [] }

abbrev runner : AssembledTurn → Completion
runner t = record {
  text = "hi";
  calls = [];
  usage = record { input_tokens = 20; output_tokens = 5; cached_tokens = 0 };
  cache = end;
}

run_model-IsBudgeted_example :
    (o : ModelOutcome × Db) × (run_model rt anyone runner turn (run_in running) model_db ≡ ok o)
    × IsBudgeted runner turn (run_in running) model_db o
run_model-IsBudgeted_example =
    run_model-IsBudgeted rt anyone runner turn (run_in running) manifest model_db refl

abbrev slice_of : ℕ → String → Slice
slice_of n body = record { slot = d6; body = body; provenance = "web"; priority = n }

abbrev two_slices : List Slice
two_slices = slice_of 1 "a long conversation" ∷ slice_of 0 "hi" ∷ []

fit_lem_example :
    (2 + total_tokens (λ (s : Slice). s.body) (fit two_slices 2 4).0 ≤ 4)
    × Perm ((fit two_slices 2 4).0 ++ (fit two_slices 2 4).1) two_slices
fit_lem_example = fit_lem two_slices 2 4 (omega arith)

-- The envelope of this turn keeps its message and drops the conversation.
fit_two : fit two_slices 2 4 ≡ (slice_of 0 "hi" ∷ [], slice_of 1 "a long conversation" ∷ [])
unfolding fit
fit_two = refl

abbrev instructions : PrefixContributor
instructions = record {
  owner = "instructions";
  prefix_slots = l1 ∷ [];
  layers = λ scope db. ok (record { slot = l1; version = "v"; body = "be kind" } ∷ []);
}

abbrev scope : Scope
scope = record {
  agent_definition_id = 2;
  principal_id = 1;
  prefix_profile = personal;
  surface = "web";
}

prefix_lem_example :
    IsPrefix
      (policy_layer rt "policy"
        ∷ tools rt registry end
        ∷ offered scope empty_db (instructions ∷ []))
      (prefix rt "policy" (instructions ∷ []) scope end registry empty_db)
prefix_lem_example = prefix_lem rt "policy" (instructions ∷ []) scope end registry empty_db

abbrev draft : SkillVersion
draft = record {
  id = "s1";
  skill_id = 3;
  tier = "t";
  execution_mode = inline;
  operations = end;
  stage = dev;
  body = "Be brief.";
}

abbrev skills_db : Db
skills_db = record empty_db { skill_versions = draft ∷ [] }

activate_undo_example :
    (after : Db) × (activate (λ j. "[]") "s1" prod skills_db ≡ ok (dev, after))
    × (find_version "s1" after.skill_versions ≡ some (record draft { stage = prod }))
    × (activate (λ j. "[]") "s1" dev after ≡ ok (prod, skills_db))
activate_undo_example =
    activate_undo (λ j. "[]") "s1" prod skills_db draft refl refl ((λ e. refl), tt)
