-- ===== src/Transition/Planning.antt =====
-- src/tacorank/orchestrator/state_machine.py: the branches from the contract to a proposal.
use tacorank.Prelude.{
  if◌then◌else◌, ◌==◌, nat_eq, string_eq, option_eq, any, last?, int_eq, String, Bool, true, false,
  not, ◌&&◌, ◌||◌, Option, none, some, List, [], ◌∷◌,
}
use tacorank.Dict.{get, contains, values}
use tacorank.Float.{Floats}
use tacorank.Result.{
  Result, Check, require, require_some, or_raise, ok, key_error, index_error, ◌>>=◌, ◌>>◌,
}
use tacorank.Schemas.Events.{BaselineVerifiedPayload, EventPayload, Event}
use tacorank.Schemas.Judgements.{
  trust_verdict_eq, stability_eq, integrity_eq, experiment_decision_kind_eq, lesson_origin_eq,
  lesson_category_eq, lesson_status_eq, token_measurement_eq,
}
use tacorank.Schemas.Records.{ExperimentSpec, PlanningFailureResult}
use tacorank.Schemas.Runs.{
  fidelity_eq, run_outcome_eq, recovery_action_eq, population_eq, failure_stage_eq, Role, role_eq,
}
use tacorank.Schemas.Statuses.{RunStatus, run_status_eq, experiment_status_eq}
use tacorank.State.{RunState}
use tacorank.Transition.Evidence.{
  has_key, authorized_no_op_reimplementation, authorized_failed_attempt_reexploration,
}
use tacorank.Transition.Views.{
  as_contract_verified, as_baseline_verified, as_context_created, last_of, occurs,
}

module _ ⦃F : Floats⦄ where
  -- `len(events) == 1 and events[0].event_type == EventType.RUN_STARTED`
  unfoldable pub follows_run_started : List Event → Bool
  follows_run_started [] = false
  follows_run_started (e ∷ []) = elim e.payload [ EventPayload.run_started _ ↦ true | _ ↦ false ]
  follows_run_started (e ∷ _ ∷ _) = false

  unfoldable pub check_contract_verified : List Event → Check
  unfolding follows_run_started
  check_contract_verified events =
      require (follows_run_started events) "contract.verified must immediately follow run.started"

  unfoldable pub check_baseline_verified : List Event → BaselineVerifiedPayload → Check
  check_baseline_verified events payload = do
    require (occurs as_contract_verified events) "baseline requires a verified contract"
    require (not (occurs as_baseline_verified events)) "baseline may be verified only once"
    contract ← or_raise index_error (last_of as_contract_verified events)
    require
        (payload.evaluation.contract_sha256 == contract.1.contract_sha256
          && payload.evaluation.evaluator_sha256 == contract.1.evaluator_sha256)
        "baseline evaluation hashes do not match the frozen contract"

  unfoldable pub check_context_created : List Event → RunState → Check
  check_context_created events s = do
    require (occurs as_baseline_verified events) "context cannot be created before baseline parity"
    require (not (s.status == RunStatus.stopped || s.status == RunStatus.finalizing))
        "run is stopped"

  unfoldable pub check_planner_recommended : List Event → Check
  check_planner_recommended events = do
    context ←
        require_some (last_of as_context_created events) (λ _. true)
          "planner recommendation requires context"
    require (context.1.role == Role.planner) "latest context must be planner"

  abbrev pub accepts_proposals : RunState → Bool
  accepts_proposals s = s.status == RunStatus.ready || s.status == RunStatus.running

  unfoldable pub check_planning_failed : List Event → RunState → PlanningFailureResult → Check
  check_planning_failed events s result = do
    require (accepts_proposals s && s.phase == "planner_context")
        "planning failure requires an active planner checkpoint"
    context ←
        require_some (last_of as_context_created events) (λ _. true)
          "planning failure requires context"
    require (context.1.role == Role.planner && context.1.context_id == result.context_id)
        "planning failure context mismatch"
    latest ← or_raise index_error (last? events)
    require (latest.event_id == context.0.event_id)
        "planning failure must immediately follow its planner context"
    require (s.active_experiment_id == none)
        "planning failure cannot be attached to an active experiment"

  -- `if spec.parent_experiment_id:` and the test under it
  unfoldable pub knows_parent : RunState → Option String → Bool
  knows_parent s none = true
  knows_parent s (some parent) =
      parent == "" || contains s.experiments parent || parent == "baseline"

  -- the commit that a proposal must build on
  unfoldable pub expected_parent_commit : List Event → RunState → Option String → Result String
  expected_parent_commit events s none = do
    baseline ← or_raise index_error (last_of as_baseline_verified events)
    ok baseline.1.commit_sha
  expected_parent_commit events s (some parent) =
      if parent == "baseline"
      then (do
        baseline ← or_raise index_error (last_of as_baseline_verified events)
        ok baseline.1.commit_sha)
      else (do
        node ← or_raise key_error (get s.experiments parent)
        commit ←
            require_some node.latest_commit_sha (λ _. true)
              "selected parent experiment has no patch commit"
        ok commit)

  unfoldable pub check_experiment_proposed : List Event → RunState → ExperimentSpec → Check
  unfolding knows_parent expected_parent_commit
  check_experiment_proposed events s spec = do
    require (accepts_proposals s) "run is not accepting proposals"
    require (not (contains s.experiments spec.experiment_id)) "duplicate experiment_id"
    require
        (not (any (has_key spec.duplicate_key) (values s.experiments))
          || authorized_no_op_reimplementation events s spec
          || authorized_failed_attempt_reexploration s spec)
        "duplicate experiment proposal"
    require (knows_parent s spec.parent_experiment_id) "unknown parent experiment"
    expected ← expected_parent_commit events s spec.parent_experiment_id
    require (spec.parent_commit_sha == expected)
        "parent_commit_sha does not match the selected parent"
    context ←
        require_some (last_of as_context_created events) (λ _. true)
          "proposal requires planner context"
    require (context.1.role == Role.planner && context.1.context_id == spec.context_id)
        "proposal context mismatch"
