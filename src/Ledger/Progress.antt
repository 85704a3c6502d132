-- ===== src/Ledger/Progress.antt =====
-- The reducer never raises on a legal ledger.
use tacorank.Prelude.{
  ◌==◌, nat_eq, string_eq, option_eq, Bool-cases, Option-cases, int_eq, String, ◌≡◌, refl, subst,
  inl, inr, true, List, [], ◌∷◌, arith,
}
use tacorank.Dict.{get, set, contains}
use tacorank.Float.{Floats}
use tacorank.Ledger.{Legal, run_events-append, Accepted, validate_transition-Accepted}
use tacorank.Ledger.Induction.{validate_transition-first}
use tacorank.Ledger.Nodes.{
  Known, check_patch_created-Known, check_patch_checked-Known, check_execution_started-Known,
  check_execution_finished-Known, check_adapter_failed-Known, check_recovery_decided-Known,
  check_output_checked-Known, check_evaluation_completed-Known, check_experiment_decided-Known,
}
use tacorank.Projection.Experiment.{
  with_node, on_patch_created, on_patch_checked, on_execution_started, on_execution_finished,
  on_adapter_failed, on_output_checked, on_evaluation_completed,
}
use tacorank.Projection.Fold.{
  Projection, on_promoted, close_experiment, on_closed, on_experiment_decided, on_state, dispatch,
  observe, step, run_events, initial_projection, conclude, project,
}
use tacorank.Projection.Recovery.{gives_up, on_recovery_decided}
use tacorank.Projection.Run.{clear_active, on_lesson_status_changed}
use tacorank.Result.{Result, require-eq-ok, ok}
use tacorank.Schemas.Events.{LessonStatusChangedPayload, EventPayload, Event}
use tacorank.Schemas.Judgements.{
  trust_verdict_eq, stability_eq, integrity_eq, ExperimentDecisionKind, experiment_decision_kind_eq,
  lesson_origin_eq, lesson_category_eq, lesson_status_eq, token_measurement_eq,
}
use tacorank.Schemas.Records.{RunResult, RecoveryDecision, ExperimentDecision}
use tacorank.Schemas.Runs.{
  fidelity_eq, RunOutcome, run_outcome_eq, recovery_action_eq, population_eq, failure_stage_eq,
  role_eq,
}
use tacorank.Schemas.Statuses.{run_status_eq, experiment_status_eq}
use tacorank.State.{ExperimentNode, RunState}
use tacorank.Transition.Validate.{is_run_started, check_payload, validate_transition}

module _ ⦃F : Floats⦄ where
  abbrev Returns {ℓ} : {A : Type ℓ} → Result A → Type ℓ
  Returns {A = A} r = (a : A) × (r ≡ ok a)

  with_node-Returns :
      (i : String) (f : ExperimentNode → ExperimentNode) (s : RunState)
      → Known s i
      → Returns (with_node i f s)
  unfolding with_node
  with_node-Returns i f s (n, e) =
      (record s { experiments = set s.experiments i (f n) }, rw (e, with_node))

  on_state-Returns : (p : Projection) (r : Result RunState) → Returns r → Returns (on_state p r)
  on_state-Returns p r (s, e) = (record p { state = s }, rw e)

  on_execution_finished-Returns :
      (r : RunResult) (s : RunState) → Known s r.experiment_id → Returns (on_execution_finished r s)
  unfolding on_execution_finished
  on_execution_finished-Returns r s k = elim (Bool-cases (r.outcome == RunOutcome.success)) [
    | inl e ↦ rw e (with_node-Returns r.experiment_id _ _ k)
    | inr e ↦ rw e (with_node-Returns r.experiment_id _ _ k)
  ]

  on_recovery_decided-Returns :
      (seen : List Event) (i : String) (d : RecoveryDecision) (s : RunState)
      → Known s d.experiment_id
      → Returns (on_recovery_decided seen i d s)
  unfolding on_recovery_decided clear_active
  on_recovery_decided-Returns seen i d s k = elim (Bool-cases (gives_up d.action)) [
    | inl e ↦ rw e (with_node-Returns d.experiment_id _ _ k)
    | inr e ↦ rw e (with_node-Returns d.experiment_id _ _ k)
  ]

  on_closed-Returns :
      (i : String) (d : ExperimentDecision) (p : Projection)
      → Known p.state d.experiment_id
      → Returns (on_closed i d p)
  unfolding on_closed
  on_closed-Returns i d p (n, e) = (close_experiment i d p n, rw (e, on_closed))

  on_experiment_decided-Returns :
      (i : String) (d : ExperimentDecision) (p : Projection)
      → Known p.state d.experiment_id
      → Returns (on_experiment_decided i d p)
  unfolding on_experiment_decided on_promoted
  on_experiment_decided-Returns i d p k =
      elim (Bool-cases (d.decision == ExperimentDecisionKind.promote)) [
        | inl e ↦ rw e (on_state-Returns p _ (with_node-Returns d.experiment_id _ _ k))
        | inr e ↦ rw e (on_closed-Returns i d p k)
      ]

  on_lesson_status_changed-Returns :
      (l : LessonStatusChangedPayload) (s : RunState)
      → contains s.lessons l.lesson_id ≡ true
      → Returns (on_lesson_status_changed l s)
  unfolding on_lesson_status_changed contains
  on_lesson_status_changed-Returns l s h = elim (Option-cases (get s.lessons l.lesson_id)) [
    | inl e ↦ absurd (ground arith)
    | inr k ↦ (
      record s { lessons = set s.lessons l.lesson_id (record k.0 { status = l.status }) },
      rw (k.1, on_lesson_status_changed),
    )
  ]

  -- what the payload's check gives is what its handler needs
  dispatch-Returns :
      (es : List Event) (e : Event) (p : Projection) (payload : EventPayload)
      → check_payload es (conclude es p.state) payload ≡ ok tt
      → Returns (dispatch e (observe e p) payload)
  unfolding dispatch observe conclude check_payload
  dispatch-Returns es e p (EventPayload.patch_created c) h = on_state-Returns (observe e p) _ (
      unfold on_patch_created in
      with_node-Returns c.experiment_id _ _
        (check_patch_created-Known es (conclude es p.state) c h))
  dispatch-Returns es e p (EventPayload.patch_checked r) h = on_state-Returns (observe e p) _ (
      unfold on_patch_checked in
      with_node-Returns r.experiment_id _ _
        (check_patch_checked-Known es (conclude es p.state) r h))
  dispatch-Returns es e p (EventPayload.execution_started r) h = on_state-Returns (observe e p) _ (
      unfold on_execution_started in
      with_node-Returns r.experiment_id _ _
        (check_execution_started-Known es (conclude es p.state) r h))
  dispatch-Returns es e p (EventPayload.execution_finished r) h = on_state-Returns (observe e p) _ (
      on_execution_finished-Returns r _
        (check_execution_finished-Known es (conclude es p.state) r h))
  dispatch-Returns es e p (EventPayload.adapter_failed r) h = on_state-Returns (observe e p) _ (
      unfold on_adapter_failed in
      with_node-Returns r.experiment_id _ _
        (check_adapter_failed-Known es (conclude es p.state) r h))
  dispatch-Returns es e p (EventPayload.recovery_decided d) h = on_state-Returns (observe e p) _ (
      on_recovery_decided-Returns _ e.event_id d _
        (check_recovery_decided-Known es (conclude es p.state) d h))
  dispatch-Returns es e p (EventPayload.output_checked r) h = on_state-Returns (observe e p) _ (
      unfold on_output_checked in
      with_node-Returns r.experiment_id _ _
        (check_output_checked-Known es (conclude es p.state) r h))
  dispatch-Returns es e p (EventPayload.evaluation_completed r) h =
      on_state-Returns (observe e p) _ (
        unfold on_evaluation_completed in
        with_node-Returns r.experiment_id _ _
          (check_evaluation_completed-Known es (conclude es p.state) r h))
  dispatch-Returns es e p (EventPayload.experiment_decided d) h =
      on_experiment_decided-Returns e.event_id d _
        (check_experiment_decided-Known es (conclude es p.state) d h)
  dispatch-Returns es e p (EventPayload.lesson_status_changed l) h =
      on_state-Returns (observe e p) _ (on_lesson_status_changed-Returns l _ (require-eq-ok _ _ h))
  dispatch-Returns es e p _ h = (_, refl)

  -- an accepted event is a step
  pub step-Returns :
      (es : List Event) (p : Projection) (e : Event) → Accepted es p e.payload → Returns (step p e)
  unfolding step
  step-Returns es p e a = dispatch-Returns es e p e.payload a.payload_ok

  first-Returns :
      (e : Event) (payload : EventPayload)
      → is_run_started payload ≡ true
      → Returns (dispatch e (observe e initial_projection) payload)
  unfolding dispatch is_run_started
  first-Returns e (EventPayload.run_started r) h = (_, refl)
  first-Returns e _ h = absurd (cc)

  step_on-Returns :
      (es : List Event) (e : Event) (p : Projection)
      → run_events initial_projection es ≡ ok p
      → validate_transition es e.payload ≡ ok tt
      → Returns (step p e)
  unfolding step run_events
  step_on-Returns [] e p r v =
      subst (λ q. Returns (step q e)) (ground arith)
        (first-Returns e e.payload (validate_transition-first e.payload v))
  step_on-Returns (x ∷ es) e p r v =
      step-Returns (x ∷ es) p e (validate_transition-Accepted (x ∷ es) p e.payload (λ n. cc) r v)

  pub run_events-Returns :
      (l : List Event) → Legal l → (p : Projection) × (run_events initial_projection l ≡ ok p)
  unfolding run_events
  run_events-Returns l Legal.empty = (initial_projection, refl)
  run_events-Returns l (Legal.append es e legal valid eq) =
      let (p, r) = run_events-Returns es legal in
      let (q, next) = step_on-Returns es e p r valid in (q, rw (eq, run_events-append, r) next)

  -- On a legal ledger, one that `validate_transition` accepted event by event, `project` returns a
  -- state: no handler meets an unknown experiment or lesson.
  pub project-Legal : (l : List Event) → Legal l → (s : RunState) × (project l ≡ ok s)
  unfolding project
  project-Legal l legal =
      let (p, r) = run_events-Returns l legal in (conclude l p.state, rw (r, project))
