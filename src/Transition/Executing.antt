-- ===== src/Transition/Executing.antt =====
-- src/tacorank/orchestrator/state_machine.py: the branches of executions and checked outputs.
use tacorank.Prelude.{
  if◌then◌else◌, ◌==◌, nat_eq, string_eq, option_eq, elem, find_last, int_eq, ℕ, String, Bool, true,
  false, ◌&&◌, Option, none, some, List, [], ◌∷◌, ◌++◌,
}
use tacorank.Dict.{get}
use tacorank.Float.{Floats}
use tacorank.Result.{
  Result, Check, require, require_some, or_raise, ok, attribute_error, ◌>>=◌, ◌>>◌,
}
use tacorank.Schemas.Events.{Event}
use tacorank.Schemas.Judgements.{
  TrustVerdict, trust_verdict_eq, stability_eq, Integrity, integrity_eq,
  experiment_decision_kind_eq, lesson_origin_eq, lesson_category_eq, lesson_status_eq,
  token_measurement_eq,
}
use tacorank.Schemas.Records.{RunRequest, RunResult, OutputCheckResult}
use tacorank.Schemas.Runs.{
  Fidelity, fidelity_eq, RunOutcome, run_outcome_eq, recovery_action_eq, Population, population_eq,
  failure_stage_eq, role_eq,
}
use tacorank.Schemas.Scores.{EvaluationResult}
use tacorank.Schemas.Statuses.{RunStatus, run_status_eq, ExperimentStatus, experiment_status_eq}
use tacorank.State.{RunState}
use tacorank.Transition.Evidence.{evaluation_request}
use tacorank.Transition.Patching.{has_status}
use tacorank.Transition.Views.{
  as_patch_checked, as_execution_started, as_execution_finished, as_output_checked,
  as_evaluation_completed, last_for_experiment,
}

module _ ⦃F : Floats⦄ where
  -- a trusted public full evaluation of the experiment
  unfoldable pub is_clean_public_full : String → EvaluationResult → Bool
  is_clean_public_full experiment_id r =
      r.experiment_id == experiment_id
      && r.population == Population.public_validation
      && r.fidelity == Fidelity.full
      && r.trust.verdict == TrustVerdict.accepted
      && r.trust.integrity == Integrity.clean

  -- the generator of `any`: `before` is `events[: events.index(event)]`, since the events of a ledger
  -- are distinct. A request that is not there raises.
  unfoldable pub cleanly_reproduced : String → List Event → List Event → Result Bool
  unfolding is_clean_public_full
  cleanly_reproduced experiment_id before [] = ok false
  cleanly_reproduced experiment_id before (e ∷ rest) =
      let later = cleanly_reproduced experiment_id (before ++ e ∷ []) rest in
      elim (as_evaluation_completed e.payload) [
        | none ↦ later
        | some r ↦
            if is_clean_public_full experiment_id r
            then (do
              request ← evaluation_request before r
              if request.command_id == "clean_reproduce" then ok true else later)
            else later
      ]

  -- the accepted outputs of the experiment
  unfoldable pub accepted_output : String → Event → Option OutputCheckResult
  accepted_output experiment_id e = elim (as_output_checked e.payload) [
    | none ↦ none
    | some r ↦ if r.experiment_id == experiment_id && r.accepted then some r else none
  ]

  unfoldable pub started_attempt : String → ℕ → Event → Option RunRequest
  started_attempt experiment_id attempt e = elim (as_execution_started e.payload) [
    | none ↦ none
    | some r ↦ if r.experiment_id == experiment_id && r.attempt == attempt then some r else none
  ]

  unfoldable pub check_final_inference : List Event → RunRequest → Check
  unfolding cleanly_reproduced
  check_final_inference events request =
      if request.command_id == "candidate_final_infer"
      then (do
        reproduced ← cleanly_reproduced request.experiment_id [] events
        require reproduced "final inference requires trusted clean reproduction")
      else ok tt

  unfoldable pub check_submission_run : List Event → RunRequest → Check
  unfolding accepted_output started_attempt
  check_submission_run events request =
      if request.command_id == "submission_check"
      then (do
        output ←
            require_some (find_last (accepted_output request.experiment_id) events) (λ _. true)
              "submission check requires accepted final output"
        require_some (find_last (started_attempt request.experiment_id output.1.attempt) events)
            (λ r. r.1.command_id == "candidate_final_infer")
            "submission check requires accepted final-inference output"
        ok tt)
      else ok tt

  -- after the stop only the selected sealed commit may run, at full fidelity
  unfoldable pub is_finalization_run : RunState → RunRequest → Bool
  is_finalization_run s request =
      some request.experiment_id == s.best_experiment_id
      && some request.patch_commit_sha == s.best_commit_sha
      && request.fidelity == Fidelity.full
      && elem request.command_id
          ("clean_reproduce" ∷ "candidate_final_infer" ∷ "submission_check" ∷ [])

  unfoldable pub check_runnable : List Event → RunState → RunRequest → Check
  unfolding is_finalization_run check_final_inference check_submission_run
  check_runnable events s request =
      let node = get s.experiments request.experiment_id in
      if s.status == RunStatus.stopped
      then (do
        require_some node (λ _. is_finalization_run s request)
            "post-stop execution must target the selected sealed commit"
        check_final_inference events request
        check_submission_run events request)
      else (do
        require_some node (has_status ExperimentStatus.ready_to_run) "patch is not runnable"
        ok tt)

  unfoldable pub check_execution_started : List Event → RunState → RunRequest → Check
  unfolding check_runnable
  check_execution_started events s request = do
    check_runnable events s request
    check ←
        require_some (last_for_experiment as_patch_checked events request.experiment_id)
          (λ c. c.1.accepted) "execution requires Gate A receipt"
    require
        (check.1.receipt_id == some request.patch_receipt_id
          && check.1.patch_commit_sha == request.patch_commit_sha)
        "execution request does not match receipt"

  unfoldable pub check_execution_finished : List Event → RunState → RunResult → Check
  check_execution_finished events s result = do
    require_some (get s.experiments result.experiment_id) (has_status ExperimentStatus.running)
        "no execution is running"
    started ←
        require_some (last_for_experiment as_execution_started events result.experiment_id)
          (λ _. true) "execution result has no request"
    require
        (started.1.attempt == result.attempt
          && started.1.fidelity == result.fidelity
          && started.1.patch_commit_sha == result.patch_commit_sha)
        "execution result identity mismatch"

  unfoldable pub check_output_checked : List Event → RunState → OutputCheckResult → Check
  check_output_checked events s result = do
    require_some (get s.experiments result.experiment_id) (has_status ExperimentStatus.output_ready)
        "no output is ready"
    finished ←
        require_some (last_for_experiment as_execution_finished events result.experiment_id)
          (λ f. f.1.outcome == RunOutcome.success) "Gate B requires a successful execution"
    artifact ← or_raise attribute_error finished.1.prediction_artifact
    require (artifact.artifact_id == result.prediction_artifact.artifact_id)
        "Gate B checked a different prediction"
    require (finished.1.attempt == result.attempt) "Gate B attempt does not match execution"
