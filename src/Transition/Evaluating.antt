-- ===== src/Transition/Evaluating.antt =====
-- src/tacorank/orchestrator/state_machine.py: the branch of completed evaluations.
use tacorank.Prelude.{
  ltb, if◌then◌else◌, ◌==◌, nat_eq, string_eq, option_eq, length, elem, ℤ, int_eq, ℕ, ◌+◌, String,
  Bool, true, not, ◌&&◌, ◌||◌, Option, none, some, List, [], ◌∷◌, ◌++◌,
}
use tacorank.Dict.{get}
use tacorank.Float.{Floats}
use tacorank.Result.{Result, Check, require, require_some, or_raise, ok, index_error, ◌>>=◌, ◌>>◌}
use tacorank.Schemas.Events.{Event}
use tacorank.Schemas.Judgements.{
  trust_verdict_eq, stability_eq, integrity_eq, experiment_decision_kind_eq, lesson_origin_eq,
  lesson_category_eq, lesson_status_eq, token_measurement_eq,
}
use tacorank.Schemas.Records.{RunRequest}
use tacorank.Schemas.Runs.{
  Fidelity, fidelity_eq, run_outcome_eq, recovery_action_eq, Population, population_eq,
  failure_stage_eq, role_eq,
}
use tacorank.Schemas.Scores.{EvaluationResult}
use tacorank.Schemas.Statuses.{RunStatus, run_status_eq, ExperimentStatus, experiment_status_eq}
use tacorank.State.{RunState}
use tacorank.Transition.Evidence.{evaluation_request}
use tacorank.Transition.Patching.{has_status}
use tacorank.Transition.Views.{as_contract_verified, as_evaluation_completed, last_of}

module _ ⦃F : Floats⦄ where
  -- which node may be evaluated
  unfoldable pub check_evaluated_node : RunState → EvaluationResult → Check
  check_evaluated_node s result =
      let node = get s.experiments result.experiment_id in
      if result.population == Population.hidden_final
      then (do
        require_some node
            (λ n.
              some result.experiment_id == s.best_experiment_id
              && (n.status == ExperimentStatus.accepted
                  || n.status == ExperimentStatus.output_verified))
            "hidden-final evaluation requires the selected development best"
        ok tt)
      else (do
        require_some node (has_status ExperimentStatus.output_verified) "evaluation requires Gate B"
        ok tt)

  unfoldable pub expected_population : RunRequest → Population
  expected_population request =
      if request.fidelity == Fidelity.proxy
      then Population.internal_proxy
      else Population.public_validation

  -- which population a run may be scored on
  unfoldable pub check_population : RunState → RunRequest → EvaluationResult → Check
  unfolding expected_population
  check_population s request result =
      if result.population == Population.hidden_final
      then (do
        require (s.status == RunStatus.stopped) "hidden-final is available only after stop"
        require (result.fidelity == Fidelity.full) "hidden-final requires full fidelity")
      else (do
        require
            (not (s.status == RunStatus.stopped)
              || (request.command_id == "clean_reproduce"
                  && result.population == Population.public_validation
                  && result.fidelity == Fidelity.full))
            "post-stop evaluation is restricted to clean public reproduction"
        require (not (request.fidelity == Fidelity.smoke)) "smoke output cannot be evaluated"
        require (result.population == expected_population request)
            "evaluation population does not match requested fidelity")

  unfoldable pub expected_query_index : RunState → EvaluationResult → Option ℕ
  expected_query_index s result =
      if result.population == Population.public_validation
      then some (s.public_validation_queries + 1)
      else none

  -- the first evaluation event with that id, and the events before it
  unfoldable pub seed_event :
      String → List Event → List Event → Option (List Event × EvaluationResult)
  seed_event event_id before [] = none
  seed_event event_id before (e ∷ rest) =
      let later = seed_event event_id (before ++ e ∷ []) rest in
      elim (as_evaluation_completed e.payload) [
        | none ↦ later
        | some r ↦ if e.event_id == event_id then some (before, r) else later
      ]

  unfoldable pub is_compatible_seed :
      EvaluationResult → RunRequest → EvaluationResult → RunRequest → Bool
  is_compatible_seed result request seed_result seed_request =
      seed_result.experiment_id == result.experiment_id
      && seed_result.population == result.population
      && seed_result.fidelity == result.fidelity
      && seed_result.evaluator_sha256 == result.evaluator_sha256
      && seed_result.contract_sha256 == result.contract_sha256
      && ltb seed_result.attempt result.attempt
      && seed_request.patch_commit_sha == request.patch_commit_sha

  -- the loop over `result.seed_evidence_event_ids`: the seeds of the evidence
  unfoldable pub evidence_seeds :
      List Event → EvaluationResult → RunRequest → List String → Result (List ℤ)
  unfolding seed_event is_compatible_seed
  evidence_seeds events result request [] = ok []
  evidence_seeds events result request (event_id ∷ rest) = do
    found ←
        require_some (seed_event event_id [] events) (λ _. true)
          "evaluation cites unknown seed evidence"
    seed_request ← evaluation_request found.0 found.1
    require (is_compatible_seed result request found.1 seed_request)
        "evaluation seed evidence is incompatible"
    seeds ← evidence_seeds events result request rest
    ok (found.1.seed ∷ seeds)

  -- len(set(seeds))
  unfoldable pub set_size : List ℤ → ℕ
  set_size [] = 0
  set_size (x ∷ xs) = if elem x xs then set_size xs else set_size xs + 1

  unfoldable pub check_evaluation_completed : List Event → RunState → EvaluationResult → Check
  unfolding check_evaluated_node check_population expected_query_index evidence_seeds set_size
  check_evaluation_completed events s result = do
    require (not (result.experiment_id == "baseline"))
        "baseline evaluation is recorded only inside baseline.verified"
    check_evaluated_node s result
    request ← evaluation_request events result
    require
        (result.attempt == request.attempt
          && result.fidelity == request.fidelity
          && result.seed == request.seed)
        "evaluation result does not match its execution request"
    contract ← or_raise index_error (last_of as_contract_verified events)
    require
        (result.contract_sha256 == contract.1.contract_sha256
          && result.evaluator_sha256 == contract.1.evaluator_sha256)
        "evaluation hashes do not match the frozen contract"
    check_population s request result
    require (result.public_query_index == expected_query_index s result)
        "evaluation public query index is not the next frozen index"
    seeds ← evidence_seeds events result request result.seed_evidence_event_ids
    require (set_size (result.seed ∷ seeds) == length seeds + 1)
        "evaluation seed evidence must use distinct seeds"
