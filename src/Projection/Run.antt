-- ===== src/Projection/Run.antt =====
-- src/tacorank/memory/projections.py: the handlers of the events that belong to the run.
use tacorank.Prelude.{if◌then◌else◌, ℕ, String, Bool, true, false, none, some}
use tacorank.Dict.{get, set}
use tacorank.Float.{Floats}
use tacorank.Result.{Result, ok, err, key_error}
use tacorank.Schemas.Events.{
  LessonRecordedPayload, LessonStatusChangedPayload, RunStoppedPayload, FinalSelectedPayload,
  SubmissionCheckedPayload, RunStartedPayload, BaselineVerifiedPayload, BestUpdatedPayload,
}
use tacorank.Schemas.Judgements.{LessonStatus}
use tacorank.Schemas.Runs.{Role}
use tacorank.Schemas.Statuses.{RunStatus}
use tacorank.State.{is_finalizable_stop_reason, RunState}

module _ ⦃F : Floats⦄ where
  unfoldable pub on_run_started : ℕ → RunStartedPayload → RunState → RunState
  on_run_started timestamp p s = record s {
    status = RunStatus.initializing;
    phase = "contract_verification";
    started_at = some timestamp;
    max_experiments = p.max_experiments;
    parallel_directions = p.parallel_directions;
    synthesize_parallel_improvements = p.synthesize_parallel_improvements;
    wall_time_limit_seconds = p.wall_time_limit_seconds;
    token_limit = p.token_limit;
    gpu_seconds_limit = p.gpu_seconds_limit;
    max_repairs_per_experiment = p.max_repairs_per_experiment;
    max_confirmation_attempts = p.max_confirmation_attempts;
    seed_schedule = p.seed_schedule;
    convergence_epsilon = p.convergence_epsilon;
    convergence_patience = p.convergence_patience;
  }

  -- the first baseline is the first best
  unfoldable pub on_baseline_verified : BaselineVerifiedPayload → RunState → RunState
  on_baseline_verified p s =
      let first : Bool = elim s.best_primary_score [ none ↦ true | some _ ↦ false ] in
      let score = p.metric_set.primary_score in
      record s {
        status = RunStatus.ready;
        phase = "planning";
        baseline_primary_score = some score;
        best_experiment_id = if first then some p.experiment_id else s.best_experiment_id;
        best_commit_sha = if first then some p.commit_sha else s.best_commit_sha;
        best_primary_score = if first then some score else s.best_primary_score;
      }

  -- "%s_context" % role
  unfoldable pub role_phase : Role → String
  role_phase Role.planner = "planner_context"
  role_phase Role.coder = "coder_context"
  role_phase Role.recovery = "recovery_context"

  -- state.active_experiment_id = state.active_attempt = state.active_fidelity = None
  unfoldable pub clear_active : RunState → RunState
  clear_active s = record s {
    active_experiment_id = none;
    active_attempt = none;
    active_fidelity = none;
  }

  unfoldable pub on_best_updated : BestUpdatedPayload → RunState → RunState
  on_best_updated p s = record s {
    best_experiment_id = some p.experiment_id;
    best_commit_sha = some p.commit_sha;
    best_primary_score = some p.primary_score;
  }

  unfoldable pub on_lesson_recorded : String → LessonRecordedPayload → RunState → RunState
  on_lesson_recorded event_id p s = record s {
    lessons = set s.lessons p.lesson_id (record {
      lesson_id = p.lesson_id;
      status = LessonStatus.active;
      summary = p.candidate.summary;
      tags = p.candidate.tags;
      source_event_id = event_id;
    });
  }

  unfoldable pub on_lesson_status_changed : LessonStatusChangedPayload → RunState → Result RunState
  on_lesson_status_changed p s = elim (get s.lessons p.lesson_id) [
    | none ↦ err key_error
    | some lesson ↦
        ok (record s { lessons = set s.lessons p.lesson_id (record lesson { status = p.status }) })
  ]

  unfoldable pub on_run_stopped : RunStoppedPayload → RunState → RunState
  unfolding is_finalizable_stop_reason clear_active
  on_run_stopped p s =
      let finalizable = is_finalizable_stop_reason p.reason_code in
      clear_active (record s {
        status = if finalizable then RunStatus.stopped else RunStatus.failed;
        phase = if finalizable then "stopped" else "failed";
        stop_reason_code = some p.reason_code;
      })

  unfoldable pub on_final_selected : FinalSelectedPayload → RunState → RunState
  on_final_selected p s = record s {
    status = RunStatus.finalizing;
    phase = "submission";
    final_experiment_id = some p.experiment_id;
  }

  unfoldable pub on_submission_checked : SubmissionCheckedPayload → RunState → RunState
  on_submission_checked p s = record s {
    status = if p.accepted then RunStatus.finalized else RunStatus.failed;
    phase = if p.accepted then "finalized" else "failed";
  }
