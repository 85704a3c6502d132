-- ===== src/Ledger/Nodes.antt =====
-- An accepted payload names an experiment that the projection knows, with the status it needs.
use tacorank.Prelude.{Option-cases, String, ◌≡◌, ◌≢◌, inl, inr, none, some, List, arith}
use tacorank.Dict.{get}
use tacorank.Float.{Floats}
use tacorank.Result.{ok}
use tacorank.Schemas.Events.{Event}
use tacorank.Schemas.Records.{
  PatchCandidate, PatchCheckResult, RunRequest, RunResult, AdapterFailureResult, OutputCheckResult,
  RecoveryDecision, ExperimentDecision,
}
use tacorank.Schemas.Scores.{EvaluationResult}
use tacorank.State.{ExperimentNode, RunState}
use tacorank.Transition.Deciding.{check_experiment_decided}
use tacorank.Transition.Evaluating.{check_evaluated_node, check_evaluation_completed}
use tacorank.Transition.Executing.{
  check_runnable, check_execution_started, check_execution_finished, check_output_checked,
}
use tacorank.Transition.Patching.{check_patch_created, check_patch_checked, check_adapter_failed}
use tacorank.Transition.Recovering.{check_recovery_decided}

module _ ⦃F : Floats⦄ where
  abbrev pub Known : RunState → String → Type 0
  Known s i = (n : ExperimentNode) × (get s.experiments i ≡ some n)

  node_cases : (s : RunState) (i : String) → (get s.experiments i ≢ none) → Known s i
  node_cases s i h = elim (Option-cases (get s.experiments i)) [ inl e ↦ absurd (h e) | inr k ↦ k ]

  pub check_patch_created-Known :
      (es : List Event) (s : RunState) (c : PatchCandidate)
      → check_patch_created es s c ≡ ok tt
      → Known s c.experiment_id
  unfolding check_patch_created
  check_patch_created-Known es s c h = node_cases s c.experiment_id (λ e. ground arith)

  pub check_patch_checked-Known :
      (es : List Event) (s : RunState) (r : PatchCheckResult)
      → check_patch_checked es s r ≡ ok tt
      → Known s r.experiment_id
  unfolding check_patch_checked
  check_patch_checked-Known es s r h = node_cases s r.experiment_id (λ e. ground arith)

  pub check_execution_started-Known :
      (es : List Event) (s : RunState) (r : RunRequest)
      → check_execution_started es s r ≡ ok tt
      → Known s r.experiment_id
  unfolding check_execution_started check_runnable
  check_execution_started-Known es s r h = node_cases s r.experiment_id (λ e. ground arith)

  pub check_execution_finished-Known :
      (es : List Event) (s : RunState) (r : RunResult)
      → check_execution_finished es s r ≡ ok tt
      → Known s r.experiment_id
  unfolding check_execution_finished
  check_execution_finished-Known es s r h = node_cases s r.experiment_id (λ e. ground arith)

  pub check_adapter_failed-Known :
      (es : List Event) (s : RunState) (r : AdapterFailureResult)
      → check_adapter_failed es s r ≡ ok tt
      → Known s r.experiment_id
  unfolding check_adapter_failed
  check_adapter_failed-Known es s r h = node_cases s r.experiment_id (λ e. ground arith)

  pub check_recovery_decided-Known :
      (es : List Event) (s : RunState) (d : RecoveryDecision)
      → check_recovery_decided es s d ≡ ok tt
      → Known s d.experiment_id
  unfolding check_recovery_decided
  check_recovery_decided-Known es s d h = node_cases s d.experiment_id (λ e. ground arith)

  pub check_output_checked-Known :
      (es : List Event) (s : RunState) (r : OutputCheckResult)
      → check_output_checked es s r ≡ ok tt
      → Known s r.experiment_id
  unfolding check_output_checked
  check_output_checked-Known es s r h = node_cases s r.experiment_id (λ e. ground arith)

  pub check_evaluation_completed-Known :
      (es : List Event) (s : RunState) (r : EvaluationResult)
      → check_evaluation_completed es s r ≡ ok tt
      → Known s r.experiment_id
  unfolding check_evaluation_completed check_evaluated_node
  check_evaluation_completed-Known es s r h = node_cases s r.experiment_id (λ e. ground arith)

  pub check_experiment_decided-Known :
      (es : List Event) (s : RunState) (d : ExperimentDecision)
      → check_experiment_decided es s d ≡ ok tt
      → Known s d.experiment_id
  unfolding check_experiment_decided
  check_experiment_decided-Known es s d h = node_cases s d.experiment_id (λ e. ground arith)
