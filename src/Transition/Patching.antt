-- ===== src/Transition/Patching.antt =====
-- src/tacorank/orchestrator/state_machine.py: the branches of patches and adapter failures.
use tacorank.Prelude.{
  ◌==◌, nat_eq, string_eq, option_eq, any, elem, int_eq, String, Bool, true, false, ◌&&◌, ◌||◌,
  none, some, List, [], ◌∷◌,
}
use tacorank.Dict.{get}
use tacorank.Float.{Floats}
use tacorank.Result.{Check, require, require_some, ◌>>=◌, ◌>>◌}
use tacorank.Schemas.Events.{Event}
use tacorank.Schemas.Judgements.{
  trust_verdict_eq, stability_eq, integrity_eq, experiment_decision_kind_eq, lesson_origin_eq,
  lesson_category_eq, lesson_status_eq, token_measurement_eq,
}
use tacorank.Schemas.Records.{PatchCandidate, PatchCheckResult, AdapterFailureResult}
use tacorank.Schemas.Runs.{
  fidelity_eq, run_outcome_eq, recovery_action_eq, population_eq, FailureStage, failure_stage_eq,
  Role, role_eq,
}
use tacorank.Schemas.Statuses.{run_status_eq, ExperimentStatus, experiment_status_eq}
use tacorank.State.{ExperimentNode, RunState}
use tacorank.Transition.Evidence.{retrying_initial_coder}
use tacorank.Transition.Views.{
  as_context_created, as_experiment_proposed, as_patch_created, last_for_experiment,
}

module _ ⦃F : Floats⦄ where
  abbrev pub has_status : ExperimentStatus → ExperimentNode → Bool
  has_status status node = node.status == status

  -- an earlier coder or recovery context with the patch's context_id
  unfoldable pub has_coding_context : String → Event → Bool
  has_coding_context context_id e = elim (as_context_created e.payload) [
    | none ↦ false
    | some c ↦ c.context_id == context_id && (c.role == Role.coder || c.role == Role.recovery)
  ]

  unfoldable pub check_patch_created : List Event → RunState → PatchCandidate → Check
  unfolding has_coding_context
  check_patch_created events s candidate = do
    node ←
        require_some (get s.experiments candidate.experiment_id) (λ _. true)
          "patch has unknown experiment"
    require
        (node.status == ExperimentStatus.proposed
          || node.status == ExperimentStatus.recovering
          || (node.status == ExperimentStatus.ready_to_run
              && retrying_initial_coder events candidate.experiment_id))
        "patch is not legal in the current experiment state"
    require_some (last_for_experiment as_experiment_proposed events candidate.experiment_id)
        (λ p. p.0.event_id == candidate.experiment_spec_event_id)
        "patch references the wrong experiment proposal"
    require (any (has_coding_context candidate.context_id) events) "patch context does not exist"

  unfoldable pub check_patch_checked : List Event → RunState → PatchCheckResult → Check
  check_patch_checked events s result = do
    require_some (get s.experiments result.experiment_id) (has_status ExperimentStatus.patch_ready)
        "no patch is ready"
    patch ←
        require_some (last_for_experiment as_patch_created events result.experiment_id) (λ _. true)
          "patch check requires patch.created"
    require
        (patch.1.patch_commit_sha == result.patch_commit_sha
          && patch.1.diff_sha256 == result.diff_sha256)
        "patch check identity mismatch"

  -- the first test of the branch: an experiment that has not ended
  unfoldable pub may_fail : ExperimentStatus → Bool
  may_fail status = elem status (
      ExperimentStatus.proposed ∷ ExperimentStatus.patch_ready ∷ ExperimentStatus.ready_to_run
      ∷ ExperimentStatus.running ∷ ExperimentStatus.output_ready ∷ ExperimentStatus.output_verified
      ∷ ExperimentStatus.evaluated ∷ ExperimentStatus.recovering ∷ [])

  -- `expected_states`
  unfoldable pub expected_states : FailureStage → List ExperimentStatus
  expected_states FailureStage.coding = ExperimentStatus.proposed ∷ ExperimentStatus.recovering ∷ []
  expected_states FailureStage.patch_gate = ExperimentStatus.patch_ready ∷ []
  expected_states FailureStage.execution = ExperimentStatus.running ∷ []
  expected_states FailureStage.output_gate = ExperimentStatus.output_ready ∷ []
  expected_states FailureStage.evaluation =
      ExperimentStatus.output_verified ∷ ExperimentStatus.evaluated ∷ []
  expected_states FailureStage.recovery = ExperimentStatus.recovering ∷ []

  unfoldable pub check_adapter_failed : List Event → RunState → AdapterFailureResult → Check
  unfolding may_fail expected_states
  check_adapter_failed events s result = do
    node ←
        require_some (get s.experiments result.experiment_id) (λ _. true)
          "adapter failure has unknown experiment"
    require (may_fail node.status) "adapter failure is not legal in the current experiment state"
    require
        (elem node.status (expected_states result.failure_stage)
          || (result.failure_stage == FailureStage.coding
              && retrying_initial_coder events result.experiment_id
              && node.status == ExperimentStatus.ready_to_run))
        "adapter failure stage does not match experiment state"
