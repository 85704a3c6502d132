-- ===== src/Projection/Experiment.antt =====
-- src/tacorank/memory/projections.py: the handlers of the events that mutate one experiment's node.
-- `_node` raises on an unknown experiment.
use tacorank.Prelude.{
  if◌then◌else◌, ◌==◌, nat_eq, string_eq, option_eq, int_eq, ◌+◌, max, String, false, none, some,
}
use tacorank.Dict.{get, set}
use tacorank.Float.{Floats}
use tacorank.Result.{Result, ok, err, value_error}
use tacorank.Schemas.Judgements.{
  TrustVerdict, trust_verdict_eq, stability_eq, integrity_eq, experiment_decision_kind_eq,
  lesson_origin_eq, lesson_category_eq, lesson_status_eq, token_measurement_eq,
}
use tacorank.Schemas.Records.{
  ExperimentSpec, PatchCandidate, PatchCheckResult, RunRequest, RunResult, AdapterFailureResult,
  OutputCheckResult,
}
use tacorank.Schemas.Runs.{
  Fidelity, fidelity_eq, RunOutcome, run_outcome_eq, recovery_action_eq, Population, population_eq,
  failure_stage_eq, role_eq,
}
use tacorank.Schemas.Scores.{EvaluationResult}
use tacorank.Schemas.Statuses.{RunStatus, run_status_eq, ExperimentStatus, experiment_status_eq}
use tacorank.State.{ExperimentNode, RunState}

module _ ⦃F : Floats⦄ where
  -- `_node(state, experiment_id)` and the mutation of the node that it returns
  unfoldable pub with_node : String → (ExperimentNode → ExperimentNode) → RunState → Result RunState
  with_node experiment_id change s = elim (get s.experiments experiment_id) [
    | none ↦ err (value_error "unknown experiment")
    | some node ↦ ok (record s { experiments = set s.experiments experiment_id (change node) })
  ]

  unfoldable pub new_node : ExperimentSpec → ExperimentNode
  new_node spec = record {
    experiment_id = spec.experiment_id;
    parent_experiment_id = spec.parent_experiment_id;
    hypothesis = spec.hypothesis;
    family = spec.family;
    base_commit_sha = spec.parent_commit_sha;
    latest_commit_sha = none;
    attempt_count = 0;
    repair_count = 0;
    same_commit_retry_count = 0;
    confirmation_count = 0;
    highest_fidelity = none;
    status = ExperimentStatus.proposed;
    metric_set = none;
    trust = none;
    best_eligible = false;
    terminal_event_id = none;
    duplicate_key = spec.duplicate_key;
    last_error_fingerprint = none;
    evidence_event_ids = spec.evidence_event_ids;
  }

  unfoldable pub on_experiment_proposed : ExperimentSpec → RunState → RunState
  unfolding new_node
  on_experiment_proposed spec s = record s {
    experiments = set s.experiments spec.experiment_id (new_node spec);
    experiments_proposed = s.experiments_proposed + 1;
    active_experiment_id = some spec.experiment_id;
    active_attempt = some 1;
    status = RunStatus.running;
    phase = "coding";
  }

  unfoldable pub on_patch_created : PatchCandidate → RunState → Result RunState
  unfolding with_node
  on_patch_created candidate s =
      with_node candidate.experiment_id
        (λ node. record node {
          latest_commit_sha = some candidate.patch_commit_sha;
          same_commit_retry_count = 0;
          attempt_count = max node.attempt_count candidate.attempt;
          status = ExperimentStatus.patch_ready;
        })
        (record s { active_attempt = some candidate.attempt; phase = "patch_gate" })

  unfoldable pub on_patch_checked : PatchCheckResult → RunState → Result RunState
  unfolding with_node
  on_patch_checked result s =
      with_node result.experiment_id
        (λ node. record node {
          status =
              if result.accepted
              then ExperimentStatus.ready_to_run
              else ExperimentStatus.recovering;
        })
        (record s { phase = if result.accepted then "execution" else "recovery" })

  unfoldable pub on_execution_started : RunRequest → RunState → Result RunState
  unfolding with_node
  on_execution_started request s =
      with_node request.experiment_id
        (λ node. record node {
          status = ExperimentStatus.running;
          attempt_count = max node.attempt_count request.attempt;
        })
        (record s {
          active_attempt = some request.attempt;
          active_fidelity = some request.fidelity;
          phase = "running";
        })

  unfoldable pub on_execution_finished : RunResult → RunState → Result RunState
  unfolding with_node
  on_execution_finished result s =
      if result.outcome == RunOutcome.success
      then with_node result.experiment_id
          (λ node. record node { status = ExperimentStatus.output_ready })
          (record s { phase = "output_gate" })
      else with_node result.experiment_id
          (λ node. record node {
            status = ExperimentStatus.recovering;
            last_error_fingerprint = result.error_fingerprint;
          })
          (record s { phase = "recovery" })

  unfoldable pub on_adapter_failed : AdapterFailureResult → RunState → Result RunState
  unfolding with_node
  on_adapter_failed result s =
      with_node result.experiment_id
        (λ node. record node {
          status = ExperimentStatus.recovering;
          last_error_fingerprint = some result.error_fingerprint;
        })
        (record s { phase = "recovery" })

  unfoldable pub on_output_checked : OutputCheckResult → RunState → Result RunState
  unfolding with_node
  on_output_checked result s =
      with_node result.experiment_id
        (λ node. record node {
          status =
              if result.accepted
              then ExperimentStatus.output_verified
              else ExperimentStatus.recovering;
        })
        (record s { phase = if result.accepted then "evaluation" else "recovery" })

  unfoldable pub on_evaluation_completed : EvaluationResult → RunState → Result RunState
  unfolding with_node
  on_evaluation_completed result s =
      let no_op = result.trust.verdict == TrustVerdict.no_op in
      with_node result.experiment_id
        (λ node. record node {
          status = if no_op then ExperimentStatus.recovering else ExperimentStatus.evaluated;
          metric_set = some result.metric_set;
          trust = some result.trust;
          highest_fidelity = some result.fidelity;
        })
        (record s {
          phase = if no_op then "recovery" else "decision";
          public_validation_queries =
              if result.population == Population.public_validation
              then s.public_validation_queries + 1
              else s.public_validation_queries;
          full_evaluations_completed =
              if result.fidelity == Fidelity.full
              then s.full_evaluations_completed + 1
              else s.full_evaluations_completed;
        })
