-- ===== src/Examples/Recoveries.antt =====
-- The theorems on recovery at the failed execution of Examples.Run.
use tacorank.Prelude.{
  pos, ◌≤◌, String, ◌≡◌, refl, ◌≢◌, Bool, true, false, none, some, [], ◌∷◌, arith,
}
use tacorank.Dict.{get}
use tacorank.Examples.Run.{nat_scores, failed_run, failure_event, hidden_evaluation}
use tacorank.Ledger.HiddenFinal.{is_valid_hidden_final, check_evaluation_completed-hidden_final}
use tacorank.Ledger.Replay.{validate_transitions}
use tacorank.Projection.Experiment.{new_node}
use tacorank.Projection.Fold.{project}
use tacorank.Recovery.Adjustments.{FailureClass}
use tacorank.Recovery.Agreement.{recovery_context}
use tacorank.Recovery.Bounds.{IsAffordable, route-IsAffordable}
use tacorank.Recovery.Exhausted.{remaining_run_budget, route-abandons_last}
use tacorank.Recovery.Policy.{FailureClassification, RecoveryPolicyContext, route_to, route}
use tacorank.Result.{ok, err}
use tacorank.Schemas.Runs.{RecoveryAction, FailureStage}
use tacorank.Schemas.Statuses.{RunStatus, ExperimentStatus}
use tacorank.State.{ExperimentNode, RunState, initial_state}
use tacorank.Transition.Evaluating.{check_evaluation_completed}
use tacorank.Transition.Evidence.{latest_recoverable_failure}

abbrev failed_state : RunState
failed_state = elim (project failed_run) [ ok s ↦ s | err _ ↦ initial_state ]

abbrev pub no_node : ExperimentNode
no_node = new_node (record {
  run_id = "r";
  experiment_id = "";
  parent_experiment_id = none;
  parent_commit_sha = "";
  context_id = "";
  hypothesis = "";
  family = "";
  evidence_event_ids = [];
  duplicate_key = "";
})

abbrev failed_node : ExperimentNode
failed_node = elim (get failed_state.experiments "e1") [ some n ↦ n | none ↦ no_node ]

record FailureIsValid : Type 0 where
  failed_valid : validate_transitions [] failed_run ≡ ok tt
  failed_projects : project failed_run ≡ ok failed_state
  failed_running : failed_state.status ≡ RunStatus.running
  node_found : get failed_state.experiments "e1" ≡ some failed_node
  node_recovering : failed_node.status ≡ ExperimentStatus.recovering
  failure_latest : latest_recoverable_failure failed_run "e1" ≡ some failure_event
  repairs : failed_state.max_repairs_per_experiment ≤ 2

abbrev pub as_is : String → String
as_is s = s

abbrev pub never : String → Bool
never s = false

abbrev classified : FailureClassification
classified = record {
  failure_class = FailureClass.infrastructure_error;
  reason_code = "SANDBOX";
  fingerprint = "f";
  candidate_integrity_violation = false;
  deliberate_integrity_violation = false;
  disk_quota_failure = false;
  control_plane_failure = false;
  made_progress = false;
  owner = "execution";
  owner_retryable = false;
  trae_repairable = false;
}

abbrev pub policy_context : RecoveryPolicyContext
policy_context =
    recovery_context failed_state failed_node "r" "e1" "e10" FailureStage.execution [] []
      (("experiments", pos 2) ∷ []) [] []

route-IsAffordable_example :
    IsAffordable policy_context 2 (route classified policy_context 1 2 as_is never)
route-IsAffordable_example = route-IsAffordable classified policy_context 1 2 as_is never

abbrev last_state : RunState
last_state = record failed_state { max_experiments = 1; experiments_proposed = 1 }

abbrev last_context : RecoveryPolicyContext
last_context =
    recovery_context last_state failed_node "r" "e1" "e10" FailureStage.execution [] []
      (remaining_run_budget (some 1000) none last_state) [] []

last_budget : last_context.remaining_run_budget ≡ remaining_run_budget (some 1000) none last_state
unfolding recovery_context
last_budget = refl

route-abandons_last_example :
    route classified last_context 1 2 as_is never
    ≡ route_to RecoveryAction.abandon "RUN_experiments_BUDGET_EXHAUSTED"
route-abandons_last_example =
    route-abandons_last as_is never classified last_context 1 2 last_state (some 1000) none
      last_budget (omega arith) refl refl refl

hidden_valid : is_valid_hidden_final hidden_evaluation ≡ true
unfolding is_valid_hidden_final
hidden_valid = refl

check_evaluation_completed-hidden_final_example :
    check_evaluation_completed failed_run failed_state hidden_evaluation ≢ ok tt
check_evaluation_completed-hidden_final_example =
    check_evaluation_completed-hidden_final failed_run failed_state hidden_evaluation refl
      hidden_valid
