-- ===== src/Examples/Decisions.antt =====
-- The theorems on evaluation and decision at the confirmed evaluation of Examples.Run.
use tacorank.Prelude.{
  nat_eq, string_eq, option_eq, any, all, last?, elem, find_first, find_last, int_eq, ℕ, ◌≡◌, ◌⊎◌,
  refl, true, false, none, some, [], ◌∷◌, arith,
}
use tacorank.Accounting.{aggregate_resources}
use tacorank.Dict.{get, set, contains, values}
use tacorank.Evaluation.Agreement.{
  is_decidable, IsRefused, decision_context-validate_transition, IsTrustedImprovement,
  decide-IsTrustedImprovement,
}
use tacorank.Evaluation.Assess.{
  gate_stage, suspicion_stage, policy_stage, proxy_stage, seed_stage, confirmed_stage, early_stage,
  assess, assess_trust,
}
use tacorank.Evaluation.Choosing.{
  DomainResult, single_seed_choice, confirmed_choice, full_choice, choose,
}
use tacorank.Evaluation.Consistency.{IsSound, assess_trust-IsSound}
use tacorank.Evaluation.Decisions.{
  DecisionContext, DomainDecision, same_ids, decision_from, decide, decision_context, to_canonical,
  has_valid_route, is_valid_promotion,
}
use tacorank.Evaluation.Seeds.{SeedAggregate, spread, aggregate_of, aggregate_seeds}
use tacorank.Evaluation.Trust.{
  TrustConfig, TrustEvidence, qualifies_no_op, is_no_op, directional_flags, hard_flags, assessment,
}
use tacorank.Examples.Recoveries.{no_node}
use tacorank.Examples.Run.{
  nat_scores, confirmed_trust, confirmation, confirmed_run, confirmed_event,
}
use tacorank.Projection.Experiment.{
  on_experiment_proposed, on_patch_created, on_patch_checked, on_execution_started,
  on_execution_finished, on_output_checked, on_evaluation_completed,
}
use tacorank.Projection.Fold.{
  on_experiment_decided, dispatch, observe, step, run_events, initial_projection, conclude, project,
}
use tacorank.Projection.Recovery.{on_recovery_decided}
use tacorank.Projection.Run.{
  on_run_started, on_baseline_verified, on_best_updated, on_run_stopped, on_final_selected,
  on_submission_checked,
}
use tacorank.Result.{ok, err}
use tacorank.Schemas.Events.{EventPayload}
use tacorank.Schemas.Judgements.{
  trust_verdict_eq, stability_eq, integrity_eq, ExperimentDecisionKind, experiment_decision_kind_eq,
  lesson_origin_eq, lesson_category_eq, lesson_status_eq, token_measurement_eq,
}
use tacorank.Schemas.Runs.{
  Fidelity, fidelity_eq, run_outcome_eq, recovery_action_eq, Population, population_eq,
  failure_stage_eq, role_eq,
}
use tacorank.Schemas.Statuses.{RunStatus, run_status_eq, ExperimentStatus, experiment_status_eq}
use tacorank.State.{ExperimentNode, RunState, initial_state}
use tacorank.Transition.Validate.{validate_transition}
use tacorank.Transition.Views.{
  as_contract_verified, as_baseline_verified, as_context_created, as_experiment_proposed,
  as_patch_created, as_patch_checked, as_execution_started, as_execution_finished,
  as_output_checked, as_evaluation_completed, as_experiment_decided, mentions, occurs,
  last_for_experiment,
}

abbrev confirmed_state : RunState
confirmed_state = elim (project confirmed_run) [ ok s ↦ s | err _ ↦ initial_state ]

abbrev confirmed_node : ExperimentNode
confirmed_node = elim (get confirmed_state.experiments "e1") [ some n ↦ n | none ↦ no_node ]

abbrev domain : DomainResult
domain = record { canonical = confirmation; parent_delta = 2; previous_best_delta = 2 }

abbrev decision_at : DecisionContext
decision_at = record {
  evaluation_event_id = "e20";
  supporting_event_ids = "e19" ∷ "e20" ∷ [];
  seed_evidence_event_ids = "e15" ∷ [];
  confirmations_remaining = 1;
}

abbrev accepting : DomainDecision
accepting = record {
  decision = record {
    run_id = "r";
    experiment_id = "e1";
    evaluation_event_id = some "e20";
    decision = ExperimentDecisionKind.accept;
    reason_code = "TRUSTED_IMPROVEMENT";
    fidelity_completed = Fidelity.full;
    parent_eligible = true;
    best_eligible = true;
    next_fidelity = none;
    supporting_event_ids = "e19" ∷ "e20" ∷ [];
  };
  seed_evidence_event_ids = "e15" ∷ [];
}

record IsDecidedHere : Type 0 where
  projects : project confirmed_run ≡ ok confirmed_state
  running : confirmed_state.status ≡ RunStatus.running
  found : get confirmed_state.experiments "e1" ≡ some confirmed_node
  evaluated : confirmed_node.status ≡ ExperimentStatus.evaluated
  latest :
      last_for_experiment as_evaluation_completed confirmed_run "e1"
      ≡ some (confirmed_event, confirmation)
  valid : has_valid_route confirmation ≡ true
  decidable : is_decidable domain ≡ true
  decided : decide domain decision_at ≡ ok accepting

is_decided_here : IsDecidedHere
unfolding set contains values any last? find_first find_last aggregate_resources initial_state
    as_contract_verified as_baseline_verified as_context_created as_experiment_proposed
    as_patch_created as_patch_checked as_execution_started as_execution_finished as_output_checked
    as_evaluation_completed as_experiment_decided mentions occurs last_for_experiment
    on_experiment_decided dispatch observe step run_events initial_projection conclude project
    on_run_started on_baseline_verified on_best_updated on_run_stopped on_final_selected
    on_submission_checked on_experiment_proposed on_patch_created on_patch_checked
    on_execution_started on_execution_finished on_output_checked on_evaluation_completed
    on_recovery_decided has_valid_route is_decidable decide same_ids choose full_choice
    single_seed_choice confirmed_choice decision_from elem
is_decided_here = record {
  projects = refl;
  running = refl;
  found = refl;
  evaluated = refl;
  latest = refl;
  valid = refl;
  decidable = refl;
  decided = refl;
}

decision_context-validate_transition_example :
    (d : DomainDecision) × (decide domain
        (decision_context domain confirmed_state.max_confirmation_attempts "e20" "e19")
      ≡ ok d)
    × (is_valid_promotion (to_canonical d) ≡ true)
    × ((validate_transition confirmed_run (EventPayload.experiment_decided (to_canonical d))
          ≡ ok tt)
        ⊎ IsRefused confirmed_run confirmed_state confirmed_node domain d)
decision_context-validate_transition_example =
    decision_context-validate_transition confirmed_run confirmed_state confirmed_node
      confirmed_event "e19" domain is_decided_here.projects is_decided_here.running
      is_decided_here.found is_decided_here.evaluated is_decided_here.latest is_decided_here.valid
      is_decided_here.decidable

decide-IsTrustedImprovement_example : IsTrustedImprovement domain accepting
decide-IsTrustedImprovement_example =
    decide-IsTrustedImprovement domain decision_at accepting is_decided_here.valid
      is_decided_here.decided refl

abbrev config : TrustConfig
config = record {
  eta_floor = 1;
  required_seed_count = 2;
  baseline_seed_std = 1;
  unstable_std_multiplier = 2;
  too_good_delta = 100;
  minimum_unique_score_fraction = 0;
  redundancy_correlation = 9;
  gain_concentration_threshold = 9;
  drift_slope_threshold = 9;
  validation_arm_gap_threshold = 9;
  proxy_improvement_threshold = 0;
  require_non_decreasing_metrics = false;
  no_op = record {
    spearman_threshold = 9;
    changed_row_fraction_max = 0;
    primary_delta_tolerance = 0;
    within_user_rank_change_min = 0;
  };
}

abbrev evidence : TrustEvidence
evidence = record {
  population = Population.public_validation;
  fidelity = Fidelity.full;
  parent_primary = 10;
  parent_delta = 2;
  metric_deltas = 2 ∷ [];
  prediction_change = record {
    spearman_vs_parent = some 5;
    changed_row_fraction = some 5;
    unique_score_fraction = 1;
    within_user_rank_change = some 5;
  };
  seed_scores = 12 ∷ 12 ∷ [];
  output_gate_evidence = true;
  evaluator_hash_matches = true;
  contract_hash_matches = true;
  forbidden_inputs = [];
  alignment_suspect = false;
  internal_proxy_delta = none;
  unbiased_audit_delta = none;
  val_a_delta = none;
  val_b_delta = none;
  delta_correlation = none;
  delta_correlation_experiment_id = none;
  score_unique_fraction = none;
  gain_concentration_top10pct = none;
  drift_primary_slope = none;
}

assessed : assess_trust evidence config ≡ ok confirmed_trust
unfolding assess_trust aggregate_seeds aggregate_of spread all assess early_stage gate_stage
    suspicion_stage policy_stage proxy_stage seed_stage confirmed_stage directional_flags hard_flags
    is_no_op qualifies_no_op assessment any elem
assessed = refl

assess_trust-IsSound_example : IsSound confirmed_trust
assess_trust-IsSound_example =
    assess_trust-IsSound evidence config confirmed_trust (omega arith) assessed

abbrev seeds : SeedAggregate
seeds = record {
  scores = 12 ∷ [];
  seed_mean = 12;
  standard_deviation = 0;
  standard_error = 0;
  eta = 1;
}

abbrev exactly : ℕ → ℕ
exactly score = score
