-- ===== src/Ledger/HiddenFinal.antt =====
-- The hidden-final route of src/tacorank/orchestrator/state_machine.py against the schema of
-- evaluations in src/tacorank/schemas.py.
use tacorank.Prelude.{
  ◌==◌, nat_eq, string_eq, option_eq, int_eq, ◌≡◌, ◌≢◌, Bool, true, not, ◌||◌, List, arith,
}
use tacorank.Float.{Floats}
use tacorank.Result.{ok}
use tacorank.Schemas.Events.{Event}
use tacorank.Schemas.Judgements.{
  trust_verdict_eq, stability_eq, integrity_eq, experiment_decision_kind_eq, lesson_origin_eq,
  lesson_category_eq, lesson_status_eq, token_measurement_eq,
}
use tacorank.Schemas.Runs.{
  Fidelity, fidelity_eq, run_outcome_eq, recovery_action_eq, Population, population_eq,
  failure_stage_eq, role_eq,
}
use tacorank.Schemas.Scores.{EvaluationResult}
use tacorank.Schemas.Statuses.{run_status_eq, experiment_status_eq}
use tacorank.State.{RunState}
use tacorank.Transition.Evaluating.{check_population, check_evaluation_completed}

module _ ⦃F : Floats⦄ where
  -- `EvaluationResult.validate_evaluation_route`: hidden final requires final fidelity
  unfoldable pub is_valid_hidden_final : EvaluationResult → Bool
  is_valid_hidden_final result =
      not (result.population == Population.hidden_final) || result.fidelity == Fidelity.final

  -- No hidden-final evaluation that the schema allows is ever accepted: the schema wants the final
  -- fidelity and the state machine the full one.
  pub check_evaluation_completed-hidden_final :
      (events : List Event) (s : RunState) (result : EvaluationResult)
      → result.population ≡ Population.hidden_final
      → is_valid_hidden_final result ≡ true
      → check_evaluation_completed events s result ≢ ok tt
  unfolding check_evaluation_completed check_population is_valid_hidden_final
  check_evaluation_completed-hidden_final events s result hidden valid h = ground arith
