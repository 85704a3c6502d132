-- ===== src/Ledger/Summary.antt =====
-- Eight run-level fields of the state as a small machine of its own, for the properties of
-- Ledger.Best, Ledger.Lifecycle and Ledger.Queries. The other fields of the state are not in it.
use tacorank.Prelude.{
  if◌then◌else◌, ◌==◌, nat_eq, string_eq, option_eq, Bool-cases, Option-cases, int_eq, ℕ, ◌+◌,
  String, ◌≡◌, sym, ap, ◌∙◌, inl, inr, Bool, true, false, Option, none, some, List, arith,
}
use tacorank.Dict.{get}
use tacorank.Float.{Floats, Fl}
use tacorank.Ledger.Frames.{with_node-eq-ok, on_state-eq-ok, on_closed-eq-ok}
use tacorank.Projection.Experiment.{
  with_node, on_experiment_proposed, on_patch_created, on_patch_checked, on_execution_started,
  on_execution_finished, on_adapter_failed, on_output_checked, on_evaluation_completed,
}
use tacorank.Projection.Fold.{
  Projection, on_promoted, close_experiment, on_experiment_decided, on_state, dispatch, observe,
  step,
}
use tacorank.Projection.Recovery.{gives_up, on_recovery_decided}
use tacorank.Projection.Run.{
  on_run_started, on_baseline_verified, clear_active, on_best_updated, on_lesson_recorded,
  on_lesson_status_changed, on_run_stopped, on_final_selected, on_submission_checked,
}
use tacorank.Result.{Result, ok_injective, ok}
use tacorank.Schemas.Events.{
  LessonStatusChangedPayload, BaselineVerifiedPayload, EventPayload, Event,
}
use tacorank.Schemas.Judgements.{
  trust_verdict_eq, stability_eq, integrity_eq, ExperimentDecisionKind, experiment_decision_kind_eq,
  lesson_origin_eq, lesson_category_eq, lesson_status_eq, token_measurement_eq,
}
use tacorank.Schemas.Records.{RunResult, RecoveryDecision, ExperimentDecision}
use tacorank.Schemas.Runs.{
  Fidelity, fidelity_eq, RunOutcome, run_outcome_eq, recovery_action_eq, Population, population_eq,
  failure_stage_eq, role_eq,
}
use tacorank.Schemas.Statuses.{RunStatus, run_status_eq, experiment_status_eq}
use tacorank.State.{is_finalizable_stop_reason, ExperimentNode, RunState}

module _ ⦃F : Floats⦄ where
  pub record Summary : Type 0 where
    pub status : RunStatus
    pub best_experiment_id : Option String
    pub best_commit_sha : Option String
    pub best_primary_score : Option Fl
    pub final_experiment_id : Option String
    pub experiments_proposed : ℕ
    pub public_validation_queries : ℕ
    pub full_evaluations_completed : ℕ

  abbrev pub summarize : RunState → Summary
  summarize s = record {
    status = s.status;
    best_experiment_id = s.best_experiment_id;
    best_commit_sha = s.best_commit_sha;
    best_primary_score = s.best_primary_score;
    final_experiment_id = s.final_experiment_id;
    experiments_proposed = s.experiments_proposed;
    public_validation_queries = s.public_validation_queries;
    full_evaluations_completed = s.full_evaluations_completed;
  }

  first_best : BaselineVerifiedPayload → Summary → Summary
  first_best b v =
      let first : Bool = elim v.best_primary_score [ none ↦ true | some _ ↦ false ] in
      record v {
        best_experiment_id = if first then some b.experiment_id else v.best_experiment_id;
        best_commit_sha = if first then some b.commit_sha else v.best_commit_sha;
        best_primary_score =
            if first then some b.metric_set.primary_score else v.best_primary_score;
      }

  -- the machine: one step for each payload
  unfoldable pub advance : Summary → EventPayload → Summary
  unfolding first_best
  advance v (EventPayload.run_started r) = record v { status = RunStatus.initializing }
  advance v (EventPayload.baseline_verified b) = record (first_best b v) {
    status = RunStatus.ready;
  }
  advance v (EventPayload.experiment_proposed p) = record v {
    status = RunStatus.running;
    experiments_proposed = v.experiments_proposed + 1;
  }
  advance v (EventPayload.evaluation_completed r) = record v {
    public_validation_queries =
        if r.population == Population.public_validation
        then v.public_validation_queries + 1
        else v.public_validation_queries;
    full_evaluations_completed =
        if r.fidelity == Fidelity.full
        then v.full_evaluations_completed + 1
        else v.full_evaluations_completed;
  }
  advance v (EventPayload.best_updated b) = record v {
    best_experiment_id = some b.experiment_id;
    best_commit_sha = some b.commit_sha;
    best_primary_score = some b.primary_score;
  }
  advance v (EventPayload.run_stopped r) = record v {
    status =
        if is_finalizable_stop_reason r.reason_code then RunStatus.stopped else RunStatus.failed;
  }
  advance v (EventPayload.final_selected f) = record v {
    status = RunStatus.finalizing;
    final_experiment_id = some f.experiment_id;
  }
  advance v (EventPayload.submission_checked c) = record v {
    status = if c.accepted then RunStatus.finalized else RunStatus.failed;
  }
  advance v _ = v

  with_node-Summary :
      (i : String) (f : ExperimentNode → ExperimentNode) (s s' : RunState)
      → with_node i f s ≡ ok s'
      → summarize s' ≡ summarize s
  with_node-Summary i f s s' h = let (n, found, e) = with_node-eq-ok i f s s' h in ap summarize e

  on_state-Summary :
      (p : Projection) (r : Result RunState) (q : Projection) (v : Summary)
      → ((s : RunState) → r ≡ ok s → summarize s ≡ v)
      → on_state p r ≡ ok q
      → summarize q.state ≡ v
  on_state-Summary p r q v keep h =
      let (s, e, eq) = on_state-eq-ok p r q h in
      ap (λ (t : Projection). summarize t.state) eq ∙ keep s e

  on_execution_finished-Summary :
      (r : RunResult) (s s' : RunState)
      → on_execution_finished r s ≡ ok s'
      → summarize s' ≡ summarize s
  unfolding on_execution_finished
  on_execution_finished-Summary r s s' h = elim (Bool-cases (r.outcome == RunOutcome.success)) [
    | inl e ↦ with_node-Summary r.experiment_id _ _ s' (rw e at h)
    | inr e ↦ with_node-Summary r.experiment_id _ _ s' (rw e at h)
  ]

  on_recovery_decided-Summary :
      (seen : List Event) (i : String) (d : RecoveryDecision) (s s' : RunState)
      → on_recovery_decided seen i d s ≡ ok s'
      → summarize s' ≡ summarize s
  unfolding on_recovery_decided clear_active
  on_recovery_decided-Summary seen i d s s' h = elim (Bool-cases (gives_up d.action)) [
    | inl e ↦ with_node-Summary d.experiment_id _ _ s' (rw e at h)
    | inr e ↦ with_node-Summary d.experiment_id _ _ s' (rw e at h)
  ]

  on_experiment_decided-Summary :
      (i : String) (d : ExperimentDecision) (p q : Projection)
      → on_experiment_decided i d p ≡ ok q
      → summarize q.state ≡ summarize p.state
  unfolding on_experiment_decided on_promoted close_experiment clear_active
  on_experiment_decided-Summary i d p q h =
      elim (Bool-cases (d.decision == ExperimentDecisionKind.promote)) [
        | inl e ↦
            on_state-Summary p _ q _ (λ s k. with_node-Summary d.experiment_id _ _ s k) (rw e at h)
        | inr e ↦
            let (n, found, eq) = on_closed-eq-ok i d p q (rw e at h) in
            ap (λ (t : Projection). summarize t.state) eq
      ]

  on_lesson_status_changed-Summary :
      (l : LessonStatusChangedPayload) (s s' : RunState)
      → on_lesson_status_changed l s ≡ ok s'
      → summarize s' ≡ summarize s
  unfolding on_lesson_status_changed
  on_lesson_status_changed-Summary l s s' h = elim (Option-cases (get s.lessons l.lesson_id)) [
    | inl e ↦ absurd (ground arith)
    | inr k ↦ ap summarize (sym (ok_injective _ s' (rw (k.1, on_lesson_status_changed) at h)))
  ]

  on_baseline_verified-Summary :
      (b : BaselineVerifiedPayload) (s : RunState)
      → summarize (on_baseline_verified b s)
        ≡ record (first_best b (summarize s)) { status = RunStatus.ready }
  unfolding on_baseline_verified first_best
  on_baseline_verified-Summary b s = ground arith

  dispatch-Summary :
      (e : Event) (p q : Projection) (payload : EventPayload)
      → dispatch e (observe e p) payload ≡ ok q
      → summarize q.state ≡ advance (summarize p.state) payload
  unfolding dispatch observe advance on_run_started on_experiment_proposed on_best_updated
      on_lesson_recorded on_run_stopped clear_active on_final_selected on_submission_checked
      on_patch_created on_patch_checked on_execution_started on_adapter_failed on_output_checked
      on_evaluation_completed
  dispatch-Summary e p q (EventPayload.patch_created r) h =
      on_state-Summary (observe e p) _ q _ (λ s k. with_node-Summary r.experiment_id _ _ s k) h
  dispatch-Summary e p q (EventPayload.patch_checked r) h =
      on_state-Summary (observe e p) _ q _ (λ s k. with_node-Summary r.experiment_id _ _ s k) h
  dispatch-Summary e p q (EventPayload.execution_started r) h =
      on_state-Summary (observe e p) _ q _ (λ s k. with_node-Summary r.experiment_id _ _ s k) h
  dispatch-Summary e p q (EventPayload.execution_finished r) h =
      on_state-Summary (observe e p) _ q _ (λ s k. on_execution_finished-Summary r _ s k) h
  dispatch-Summary e p q (EventPayload.adapter_failed r) h =
      on_state-Summary (observe e p) _ q _ (λ s k. with_node-Summary r.experiment_id _ _ s k) h
  dispatch-Summary e p q (EventPayload.recovery_decided d) h =
      on_state-Summary (observe e p) _ q _
        (λ s k. on_recovery_decided-Summary _ e.event_id d (observe e p).state s k) h
  dispatch-Summary e p q (EventPayload.output_checked r) h =
      on_state-Summary (observe e p) _ q _ (λ s k. with_node-Summary r.experiment_id _ _ s k) h
  dispatch-Summary e p q (EventPayload.evaluation_completed r) h =
      on_state-Summary (observe e p) _ q _ (λ s k. with_node-Summary r.experiment_id _ _ s k) h
  dispatch-Summary e p q (EventPayload.experiment_decided d) h =
      on_experiment_decided-Summary e.event_id d (observe e p) q h
  dispatch-Summary e p q (EventPayload.lesson_status_changed l) h =
      on_state-Summary (observe e p) _ q _ (λ s k. on_lesson_status_changed-Summary l _ s k) h
  dispatch-Summary e p q (EventPayload.baseline_verified b) h =
      ap (λ (t : Projection). summarize t.state) (sym (ok_injective _ q h))
      ∙ on_baseline_verified-Summary b (observe e p).state
  dispatch-Summary e p q _ h = ap (λ (t : Projection). summarize t.state) (sym (ok_injective _ q h))

  pub step-Summary :
      (p q : Projection) (e : Event)
      → step p e ≡ ok q
      → summarize q.state ≡ advance (summarize p.state) e.payload
  unfolding step
  step-Summary p q e h = dispatch-Summary e p q e.payload h
