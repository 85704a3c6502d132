-- ===== src/Recovery/Policy.antt =====
-- src/tacorank/recovery/policy.py: `RecoveryManager`. The classification of the failure is an input,
-- the output of `classify_failure`; `upper` is `str.upper` and `is_blank` the test `not s.strip()`.
-- The instructions and the lesson, which are free text, are left out. Counts that the schema keeps
-- at or above 0 are natural numbers, so `<= 0` on them is `== 0`.
use tacorank.Prelude.{
  ◌orelse◌, join, ltb, leb, if◌then◌else◌, ◌==◌, nat_eq, string_eq, option_eq, any, ℤ, pos, negsuc,
  int_eq, ℕ, ◌+◌, ◌-◌, max, min, String, Bool, true, false, not, ◌&&◌, ◌||◌, Option, none, some,
  List, [], ◌∷◌,
}
use tacorank.Dict.{Dict}
use tacorank.Recovery.Adjustments.{
  Scalar, Setting, RuntimeAdjustment, Attempt, FailureClass, select_runtime_adjustment,
}
use tacorank.Result.{Result, Check, ok, err, value_error, ◌>>◌}
use tacorank.Schemas.Judgements.{
  trust_verdict_eq, stability_eq, integrity_eq, experiment_decision_kind_eq, lesson_origin_eq,
  lesson_category_eq, lesson_status_eq, token_measurement_eq,
}
use tacorank.Schemas.Records.{RecoveryDecision}
use tacorank.Schemas.Runs.{
  fidelity_eq, run_outcome_eq, RecoveryAction, recovery_action_eq, population_eq, FailureStage,
  failure_stage_eq, role_eq,
}
use tacorank.Schemas.Statuses.{run_status_eq, experiment_status_eq}
use tacorank.Transition.Recovering.{max_same_commit_retries}

-- `FailureClassification`, with the fields that the policy reads
pub record FailureClassification : Type 0 where
  pub failure_class : FailureClass
  pub reason_code : String
  pub fingerprint : String
  pub candidate_integrity_violation : Bool
  pub deliberate_integrity_violation : Bool
  pub disk_quota_failure : Bool
  pub control_plane_failure : Bool
  pub made_progress : Bool
  pub owner : String
  pub owner_retryable : Bool
  pub trae_repairable : Bool

pub record RecoveryPolicyContext : Type 0 where
  pub run_id : String
  pub experiment_id : String
  pub failure_event_id : String
  pub failure_stage : FailureStage
  pub attempt_history : List Attempt
  pub repair_attempts_used : ℕ
  pub max_repair_attempts : ℕ
  pub same_commit_retries_used : ℕ
  pub remaining_repair_budget : ℕ
  pub previous_error_fingerprints : List String
  pub remaining_run_budget : Dict ℤ
  pub allowed_runtime_adjustments : Dict Setting
  pub current_runtime_settings : Dict Scalar

abbrev pub max_repair_attempts_allowed : ℕ
max_repair_attempts_allowed = 2

-- what `_route` returns, without the instructions
pub record Route : Type 0 where
  pub action : RecoveryAction
  pub reason_code : String
  pub adjustment : Option RuntimeAdjustment

abbrev pub route_to : RecoveryAction → String → Route
route_to action reason_code = record {
  action = action;
  reason_code = reason_code;
  adjustment = none;
}

abbrev pub go : RecoveryAction → String → Option Route
go action reason_code = some (route_to action reason_code)

unfoldable pub is_exhausted : ℤ → Bool
is_exhausted (pos n) = leb n 0
is_exhausted (negsuc n) = true

unfoldable pub is_no_op : FailureClass → Bool
is_no_op FailureClass.no_op = true
is_no_op _ = false

-- failure_class in {"infrastructure_error", "hang"}
unfoldable pub is_transient : FailureClass → Bool
is_transient FailureClass.infrastructure_error = true
is_transient FailureClass.hang = true
is_transient _ = false

-- failure_class in {"oom", "numerical_error", "timeout"}
unfoldable pub is_adjustable : FailureClass → Bool
is_adjustable FailureClass.oom = true
is_adjustable FailureClass.numerical_error = true
is_adjustable FailureClass.timeout = true
is_adjustable _ = false

module _ (f : FailureClassification) (context : RecoveryPolicyContext)
    (same_count remaining : ℕ) where
  abbrev pub is_spent : Bool
  is_spent = leb 2 same_count || leb remaining 0

  unfoldable pub integrity_route : Option Route
  integrity_route =
      if f.candidate_integrity_violation
      then (if is_spent
          then go RecoveryAction.abandon "CANDIDATE_INTEGRITY_RETRY_EXHAUSTED"
          else go RecoveryAction.restart_from_trusted_parent "CANDIDATE_INTEGRITY_CLEAN_RESTART")
      else if f.deliberate_integrity_violation
      then go RecoveryAction.abandon "INTEGRITY_VIOLATION"
      else if f.disk_quota_failure
      then go RecoveryAction.abandon "DISK_QUOTA_EXHAUSTED"
      else none

  unfoldable pub owner_route : Option Route
  owner_route =
      if f.control_plane_failure
      then go RecoveryAction.abandon "CONTROL_PLANE_INVARIANT_FAILURE"
      else if f.owner == "solution_verifier" && not f.owner_retryable
      then go RecoveryAction.abandon "SOLUTION_VERIFIER_RETRY_EXHAUSTED"
      else none

  abbrev pub no_op_repair_in_progress : Bool
  no_op_repair_in_progress =
      any
        (λ (item : Attempt).
          item.action == "trae_repair" && item.reason_code == "REPAIRABLE_NO_OP_WIRING")
        context.attempt_history

  unfoldable pub no_op_route : Option Route
  unfolding is_no_op any
  no_op_route =
      if is_no_op f.failure_class
      then (if is_spent
          then go RecoveryAction.return_to_planner "NO_OP_RECOVERY_EXHAUSTED"
          else go RecoveryAction.trae_repair "REPAIRABLE_NO_OP_WIRING")
      else if context.failure_stage == FailureStage.coding && no_op_repair_in_progress
      then go RecoveryAction.return_to_planner "NO_OP_REPAIR_WORKER_EXHAUSTED"
      else none

  abbrev pub same_commit_route : Option Route
  same_commit_route =
      if ltb context.same_commit_retries_used max_same_commit_retries
      then go RecoveryAction.retry_same_commit "TRANSIENT_SAME_COMMIT_RETRY"
      else go RecoveryAction.abandon "SAME_COMMIT_RETRY_EXHAUSTED"

  unfoldable pub repeated_route : Option Route
  unfolding is_transient
  repeated_route =
      if is_transient f.failure_class
      then same_commit_route
      else if leb 2 same_count
      then go RecoveryAction.abandon "REPEATED_ERROR_FINGERPRINT"
      else if context.failure_stage == FailureStage.coding
      then go RecoveryAction.abandon "CODING_WORKER_FAILURE"
      else none

  -- what is left once no setting can be adjusted
  unfoldable pub unadjusted_route : FailureClass → Option Route
  unadjusted_route FailureClass.oom = go RecoveryAction.rollback "OOM_NO_APPROVED_ADJUSTMENT"
  unadjusted_route FailureClass.timeout =
      if f.made_progress
      then same_commit_route
      else go RecoveryAction.abandon "TIMEOUT_WITHOUT_PROGRESS"
  unadjusted_route _ = none

  unfoldable pub repair_route : Route
  repair_route =
      if leb remaining 0
      then route_to RecoveryAction.abandon "REPAIR_BUDGET_EXHAUSTED"
      else if not f.trae_repairable
      then route_to RecoveryAction.abandon "OWNER_REPAIR_UNAVAILABLE"
      else route_to RecoveryAction.trae_repair (join "REPAIRABLE_" f.reason_code)

  module _ (upper : String → String) (is_blank : String → Bool) where
    -- the loop over `remaining_run_budget`
    unfoldable pub budget_route : Dict ℤ → Option Route
    unfolding is_exhausted
    budget_route [] = none
    budget_route ((dimension, value) ∷ rest) =
        let later = budget_route rest in
        if is_exhausted value
        then go RecoveryAction.abandon (join (join "RUN_" (upper dimension)) "_BUDGET_EXHAUSTED")
        else later

    unfoldable pub retryable_route : Option Route
    retryable_route =
        if f.owner_retryable
        then (if leb 2 same_count || leb 1 context.same_commit_retries_used
            then go RecoveryAction.abandon (join (upper f.owner) "_RETRY_EXHAUSTED")
            else go RecoveryAction.retry_same_commit
                (join (join "TRANSIENT_" (upper f.owner)) "_RETRY"))
        else none

    abbrev adjusted : RuntimeAdjustment → Option Route
    adjusted a = some (record {
      action = RecoveryAction.adjust_approved_runtime_setting;
      reason_code = join (join "APPROVED_" (upper a.name)) "_ADJUSTMENT";
      adjustment = some a;
    })

    unfoldable pub adjustment_route : Option Route
    unfolding is_adjustable select_runtime_adjustment
    adjustment_route =
        if is_adjustable f.failure_class
        then elim (select_runtime_adjustment is_blank context.allowed_runtime_adjustments
            context.current_runtime_settings context.attempt_history f.failure_class) [
              | none ↦ none
              | some a ↦ adjusted a
            ]
        else none

    -- the tests up to the one on the remaining budget
    unfoldable pub early_route : Option Route
    unfolding integrity_route budget_route owner_route no_op_route retryable_route repeated_route
        adjustment_route unadjusted_route
    early_route =
        integrity_route
        orelse budget_route context.remaining_run_budget
        orelse owner_route
        orelse no_op_route
        orelse retryable_route
        orelse repeated_route
        orelse adjustment_route
        orelse unadjusted_route f.failure_class

    unfoldable pub route : Route
    unfolding early_route repair_route
    route = elim early_route [ none ↦ repair_route | some r ↦ r ]

-- list(fingerprints).count(fingerprint)
unfoldable pub count_of : String → List String → ℕ
count_of x [] = 0
count_of x (y ∷ ys) = let rest = count_of x ys in if y == x then rest + 1 else rest

-- int(action in {"trae_repair", "restart_from_trusted_parent"})
abbrev pub cost : RecoveryAction → ℕ
cost RecoveryAction.trae_repair = 1
cost RecoveryAction.restart_from_trusted_parent = 1
cost _ = 0

abbrev pub require_value : Bool → String → Check
require_value true message = ok tt
require_value false message = err (value_error message)

-- the record that `decide` builds
abbrev pub decision_by : String → RecoveryPolicyContext → ℕ → Route → RecoveryDecision
decision_by failure_event_id context same_count chosen =
    let maximum = min max_repair_attempts_allowed context.max_repair_attempts in
    record {
      run_id = context.run_id;
      experiment_id = context.experiment_id;
      failure_event_id = failure_event_id;
      repair_attempt = min (max 1 (context.repair_attempts_used + 1)) (max 1 maximum);
      action = chosen.action;
      reason_code = chosen.reason_code;
      same_error_count = same_count;
      remaining_repair_budget = context.remaining_repair_budget - cost chosen.action;
    }

module _ (upper : String → String) (is_blank : String → Bool) where
  -- The adjustments of the decision are returned beside it. A negative remaining budget is refused
  -- by the schema of `RecoveryDecision`.
  unfoldable pub decide :
      String
      → FailureClassification
      → RecoveryPolicyContext
      → Result (RecoveryDecision × Option RuntimeAdjustment)
  unfolding count_of route
  decide failure_event_id f context = do
    require_value (not (failure_event_id == "")) "failure_event_id is required"
    require_value (context.failure_event_id == failure_event_id)
        "recovery context cites a different failure event"
    let same_count = count_of f.fingerprint context.previous_error_fingerprints + 1
    let chosen = route f context same_count context.remaining_repair_budget upper is_blank
    require_value (leb (cost chosen.action) context.remaining_repair_budget)
        "remaining_repair_budget must be at least 0"
    ok (decision_by failure_event_id context same_count chosen, chosen.adjustment)
