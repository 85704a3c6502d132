-- ===== src/Examples/Refused.antt =====
-- A run whose one confirmation is used before a repair changes the commit, and the decision of the
-- controller on the evaluation of the new commit.
use tacorank.Prelude.{
  nat_eq, string_eq, option_eq, take, any, last?, elem, find_first, find_last, pos, int_eq, ◌≡◌,
  refl, true, false, none, some, List, [], ◌∷◌, ◌++◌,
}
use tacorank.Accounting.{aggregate_resources}
use tacorank.Dict.{set, contains, values}
use tacorank.Evaluation.Choosing.{
  DomainResult, single_seed_choice, confirmed_choice, full_choice, choose,
}
use tacorank.Evaluation.Decisions.{
  same_ids, decision_from, decide, decision_context, to_canonical, has_valid_route,
}
use tacorank.Examples.Run.{
  nat_scores, event, started_with, evaluation, decision, context, run_request, run_result, output,
  numbered_events, whole_run, skip,
}
use tacorank.Ledger.Replay.{validate_transitions}
use tacorank.Projection.Experiment.{
  on_experiment_proposed, on_patch_created, on_patch_checked, on_execution_started,
  on_execution_finished, on_output_checked, on_evaluation_completed,
}
use tacorank.Projection.Fold.{
  on_experiment_decided, dispatch, observe, step, run_events, initial_projection, conclude, project,
}
use tacorank.Projection.Recovery.{on_recovery_decided}
use tacorank.Projection.Run.{
  on_run_started, on_baseline_verified, on_best_updated, on_run_stopped, on_final_selected,
  on_submission_checked,
}
use tacorank.Result.{Result, Check, ok, err, transition_error, ◌>>=◌}
use tacorank.Schemas.Events.{EventPayload, Event}
use tacorank.Schemas.Judgements.{
  trust_verdict_eq, stability_eq, integrity_eq, ExperimentDecisionKind, experiment_decision_kind_eq,
  lesson_origin_eq, lesson_category_eq, lesson_status_eq, token_measurement_eq,
}
use tacorank.Schemas.Records.{ExperimentDecision}
use tacorank.Schemas.Runs.{
  Fidelity, fidelity_eq, RunOutcome, run_outcome_eq, RecoveryAction, recovery_action_eq,
  population_eq, failure_stage_eq, Role, role_eq,
}
use tacorank.Schemas.Statuses.{run_status_eq, experiment_status_eq}
use tacorank.State.{initial_state}
use tacorank.Transition.Closing.{check_run_stopped, check_final_selected}
use tacorank.Transition.Deciding.{check_experiment_decided, check_best_updated}
use tacorank.Transition.Evaluating.{check_evaluation_completed}
use tacorank.Transition.Evidence.{retrying_initial_coder, evaluation_request}
use tacorank.Transition.Executing.{
  check_execution_started, check_execution_finished, check_output_checked,
}
use tacorank.Transition.Patching.{check_patch_created, check_patch_checked}
use tacorank.Transition.Planning.{
  check_contract_verified, check_baseline_verified, check_context_created,
  check_experiment_proposed,
}
use tacorank.Transition.Recovering.{check_recovery_decided}
use tacorank.Transition.Validate.{check_payload, validate_transition}
use tacorank.Transition.Views.{
  as_contract_verified, as_baseline_verified, as_context_created, as_experiment_proposed,
  as_patch_created, as_patch_checked, as_execution_started, as_execution_finished,
  as_output_checked, as_evaluation_completed, as_experiment_decided, mentions, occurs,
  last_for_experiment,
}

abbrev after_promotion : List EventPayload
after_promotion =
    decision "e15" ExperimentDecisionKind.promote false (some Fidelity.full)
    ∷ run_request 3 "candidate_full" (pos 8)
    ∷ run_result 3 RunOutcome.code_error
    ∷ EventPayload.recovery_decided (record {
      run_id = "r";
      experiment_id = "e1";
      failure_event_id = "e18";
      repair_attempt = 1;
      action = RecoveryAction.trae_repair;
      reason_code = "CODE_ERROR";
      same_error_count = 1;
      remaining_repair_budget = 1;
    })
    ∷ context Role.coder "ctx3"
    ∷ EventPayload.patch_created (record {
      run_id = "r";
      experiment_id = "e1";
      attempt = 2;
      experiment_spec_event_id = "e5";
      context_id = "ctx3";
      base_commit_sha = "c0";
      patch_commit_sha = "c2";
      diff_sha256 = "d2";
    })
    ∷ EventPayload.patch_checked (record {
      run_id = "r";
      experiment_id = "e1";
      attempt = 2;
      patch_commit_sha = "c2";
      diff_sha256 = "d2";
      accepted = true;
      receipt_id = some "receipt2";
    })
    ∷ EventPayload.execution_started (record {
      run_id = "r";
      experiment_id = "e1";
      attempt = 4;
      fidelity = Fidelity.full;
      command_id = "candidate_full";
      patch_commit_sha = "c2";
      patch_receipt_id = "receipt2";
      seed = pos 7;
    })
    ∷ EventPayload.execution_finished (record {
      run_id = "r";
      experiment_id = "e1";
      attempt = 4;
      fidelity = Fidelity.full;
      patch_commit_sha = "c2";
      outcome = RunOutcome.success;
      error_fingerprint = none;
      prediction_artifact = some (record { artifact_id = "p" });
    })
    ∷ output 4
    ∷ EventPayload.evaluation_completed (evaluation "e1" 4 (pos 7) (some 2) 12)
    ∷ []

-- the run up to the evaluation of the repaired commit, with one confirmation allowed
abbrev repaired_run : List Event
repaired_run =
    event 1 "e1" (started_with 1) ∷ skip 1 (take 15 whole_run)
    ++ numbered_events 16
        ("e16" ∷ "e17" ∷ "e18" ∷ "e19" ∷ "e20" ∷ "e21" ∷ "e22" ∷ "e23" ∷ "e24" ∷ "e25" ∷ "e26" ∷ [])
        after_promotion

abbrev repaired : DomainResult
repaired = record {
  canonical = evaluation "e1" 4 (pos 7) (some 2) 12;
  parent_delta = 2;
  previous_best_delta = 2;
}

-- what the controller decides on its context, written to the ledger
abbrev promoted : Result ExperimentDecision
promoted = do d ← decide repaired (decision_context repaired 1 "e26" "e25"); ok (to_canonical d)

abbrev refusal : Check
refusal = do d ← promoted; validate_transition repaired_run (EventPayload.experiment_decided d)

-- Every event of the run is accepted.
repaired_run-accepted : validate_transitions [] repaired_run ≡ ok tt
unfolding validate_transitions set contains values any last? find_first find_last
    aggregate_resources initial_state check_execution_started check_execution_finished
    check_output_checked check_payload validate_transition check_patch_created check_patch_checked
    as_contract_verified as_baseline_verified as_context_created as_experiment_proposed
    as_patch_created as_patch_checked as_execution_started as_execution_finished as_output_checked
    as_evaluation_completed as_experiment_decided mentions occurs last_for_experiment
    check_contract_verified check_baseline_verified check_context_created check_experiment_proposed
    check_experiment_decided check_best_updated retrying_initial_coder evaluation_request
    check_run_stopped check_final_selected check_recovery_decided check_evaluation_completed
    on_experiment_decided dispatch observe step run_events initial_projection conclude project
    on_run_started on_baseline_verified on_best_updated on_run_stopped on_final_selected
    on_submission_checked on_experiment_proposed on_patch_created on_patch_checked
    on_execution_started on_execution_finished on_output_checked on_evaluation_completed
    on_recovery_decided
repaired_run-accepted = refl

-- The decision on it is refused.
refusal-refused : refusal ≡ err (transition_error "confirmation budget exceeded")
unfolding validate_transitions set contains values any last? find_first find_last
    aggregate_resources initial_state check_execution_started check_execution_finished
    check_output_checked check_payload validate_transition check_patch_created check_patch_checked
    as_contract_verified as_baseline_verified as_context_created as_experiment_proposed
    as_patch_created as_patch_checked as_execution_started as_execution_finished as_output_checked
    as_evaluation_completed as_experiment_decided mentions occurs last_for_experiment
    check_contract_verified check_baseline_verified check_context_created check_experiment_proposed
    check_experiment_decided check_best_updated retrying_initial_coder evaluation_request
    check_run_stopped check_final_selected check_recovery_decided check_evaluation_completed
    on_experiment_decided dispatch observe step run_events initial_projection conclude project
    on_run_started on_baseline_verified on_best_updated on_run_stopped on_final_selected
    on_submission_checked on_experiment_proposed on_patch_created on_patch_checked
    on_execution_started on_execution_finished on_output_checked on_evaluation_completed
    on_recovery_decided has_valid_route decide same_ids choose full_choice single_seed_choice
    confirmed_choice decision_from decision_context elem to_canonical
refusal-refused = refl
