-- ===== src/State.antt =====
-- src/tacorank/orchestrator/state.py: the state that a ledger projects to, and the finalizable stop
-- reasons of src/tacorank/orchestrator/convergence.py that the projection reads.
use tacorank.Prelude.{
  nat_eq, string_eq, option_eq, elem, ℤ, int_eq, ℕ, ◌-◌, String, Bool, true, Option, none, List, [],
  ◌∷◌,
}
use tacorank.Accounting.{ResourceTotals, no_resources}
use tacorank.Dict.{Dict}
use tacorank.Float.{Floats, Fl}
use tacorank.Schemas.Judgements.{
  trust_verdict_eq, stability_eq, integrity_eq, experiment_decision_kind_eq, lesson_origin_eq,
  lesson_category_eq, LessonStatus, lesson_status_eq, token_measurement_eq,
}
use tacorank.Schemas.Runs.{
  Fidelity, fidelity_eq, run_outcome_eq, recovery_action_eq, population_eq, failure_stage_eq,
  role_eq,
}
use tacorank.Schemas.Scores.{MetricSet, TrustAssessment}
use tacorank.Schemas.Statuses.{RunStatus, run_status_eq, ExperimentStatus, experiment_status_eq}

unfoldable pub is_finalizable_stop_reason : String → Bool
unfolding elem
is_finalizable_stop_reason reason_code = elem reason_code (
    "experiment_budget" ∷ "wall_time_budget" ∷ "token_budget" ∷ "gpu_budget" ∷ "converged"
    ∷ "no_legal_proposal" ∷ [])

pub record LessonView : Type 0 where
  pub lesson_id : String
  pub status : LessonStatus
  pub summary : String
  pub tags : List String
  pub source_event_id : String

module _ ⦃F : Floats⦄ where
  pub record ExperimentNode : Type 0 where
    pub experiment_id : String
    pub parent_experiment_id : Option String
    pub hypothesis : String
    pub family : String
    pub base_commit_sha : String
    pub latest_commit_sha : Option String
    pub attempt_count : ℕ
    pub repair_count : ℕ
    pub same_commit_retry_count : ℕ
    pub confirmation_count : ℕ
    pub highest_fidelity : Option Fidelity
    pub status : ExperimentStatus
    pub metric_set : Option MetricSet
    pub trust : Option TrustAssessment
    pub best_eligible : Bool
    pub terminal_event_id : Option String
    pub duplicate_key : String
    pub last_error_fingerprint : Option String
    pub evidence_event_ids : List String

  -- `elapsed_wall_time_us` is `elapsed_wall_time_seconds` in microseconds, the resolution of
  -- `datetime`.
  pub record RunState : Type 0 where
    pub run_id : Option String
    pub status : RunStatus
    pub phase : String
    pub active_experiment_id : Option String
    pub active_attempt : Option ℕ
    pub active_fidelity : Option Fidelity
    pub best_experiment_id : Option String
    pub best_commit_sha : Option String
    pub best_primary_score : Option Fl
    pub baseline_primary_score : Option Fl
    pub experiments_proposed : ℕ
    pub full_evaluations_completed : ℕ
    pub public_validation_queries : ℕ
    pub consecutive_non_improving_full_evaluations : ℕ
    pub convergence_epsilon : Fl
    pub convergence_patience : ℕ
    pub max_experiments : ℕ
    pub parallel_directions : ℕ
    pub synthesize_parallel_improvements : Bool
    pub wall_time_limit_seconds : ℕ
    pub token_limit : Option ℕ
    pub gpu_seconds_limit : Option ℕ
    pub max_repairs_per_experiment : ℕ
    pub max_confirmation_attempts : ℕ
    pub seed_schedule : List ℤ
    pub experiments : Dict ExperimentNode
    pub lessons : Dict LessonView
    pub resource_totals : ResourceTotals
    pub manual_intervention_count : ℕ
    pub started_at : Option ℕ
    pub last_event_at : Option ℕ
    pub elapsed_wall_time_us : ℕ
    pub last_event_id : Option String
    pub last_event_hash : Option String
    pub stop_reason_code : Option String
    pub final_experiment_id : Option String

  unfoldable pub remaining_experiments : RunState → ℕ
  remaining_experiments s = s.max_experiments - s.experiments_proposed

  -- `RunState()`, with the defaults of the source
  unfoldable pub initial_state : RunState
  initial_state = record {
    run_id = none;
    status = RunStatus.initializing;
    phase = "not_started";
    active_experiment_id = none;
    active_attempt = none;
    active_fidelity = none;
    best_experiment_id = none;
    best_commit_sha = none;
    best_primary_score = none;
    baseline_primary_score = none;
    experiments_proposed = 0;
    full_evaluations_completed = 0;
    public_validation_queries = 0;
    consecutive_non_improving_full_evaluations = 0;
    convergence_epsilon = F.lit 2 3;
    convergence_patience = 3;
    max_experiments = 0;
    parallel_directions = 1;
    synthesize_parallel_improvements = true;
    wall_time_limit_seconds = 0;
    token_limit = none;
    gpu_seconds_limit = none;
    max_repairs_per_experiment = 2;
    max_confirmation_attempts = 2;
    seed_schedule = [];
    experiments = [];
    lessons = [];
    resource_totals = no_resources;
    manual_intervention_count = 0;
    started_at = none;
    last_event_at = none;
    elapsed_wall_time_us = 0;
    last_event_id = none;
    last_event_hash = none;
    stop_reason_code = none;
    final_experiment_id = none;
  }
