-- ===== src/Ledger/Budgets.antt =====
-- Bounded recovery and confirmation, on every legal ledger.
use tacorank.Prelude.{
  ◌==◌, nat_eq, string_eq, option_eq, Bool-cases, Option-cases, int_eq, ℕ, ◌≤◌, ◌<◌, String, ◌≡◌,
  sym, subst, inl, inr, true, false, some, List, arith,
}
use tacorank.Dict.{get}
use tacorank.Float.{Floats}
use tacorank.Ledger.{Legal}
use tacorank.Ledger.Frames.{
  with_node-eq-ok, on_state-eq-ok, AllNodes, AllNodes-set, on_closed-eq-ok,
}
use tacorank.Ledger.Induction.{Legal-induction, project-eq-ok}
use tacorank.Projection.Experiment.{
  with_node, new_node, on_experiment_proposed, on_patch_created, on_patch_checked,
  on_execution_started, on_execution_finished, on_adapter_failed, on_output_checked,
  on_evaluation_completed,
}
use tacorank.Projection.Fold.{
  Projection, on_promoted, close_experiment, on_closed, on_experiment_decided, on_state, dispatch,
  observe, step, run_events, initial_projection, conclude, project,
}
use tacorank.Projection.Recovery.{count_recovery, gives_up, on_recovery_decided}
use tacorank.Projection.Run.{
  on_run_started, on_baseline_verified, clear_active, on_best_updated, on_lesson_recorded,
  on_lesson_status_changed, on_run_stopped, on_final_selected, on_submission_checked,
}
use tacorank.Result.{Result, ok_injective, ok}
use tacorank.Schemas.Events.{LessonStatusChangedPayload, EventPayload, Event}
use tacorank.Schemas.Judgements.{
  trust_verdict_eq, stability_eq, integrity_eq, ExperimentDecisionKind,
  experiment_decision_kind_iff, experiment_decision_kind_eq, lesson_origin_eq, lesson_category_eq,
  lesson_status_eq, token_measurement_eq,
}
use tacorank.Schemas.Records.{RunResult, RecoveryDecision, ExperimentDecision}
use tacorank.Schemas.Runs.{
  Fidelity, fidelity_eq, RunOutcome, run_outcome_eq, recovery_action_eq, population_eq,
  failure_stage_eq, role_eq,
}
use tacorank.Schemas.Statuses.{run_status_eq, experiment_status_eq}
use tacorank.State.{ExperimentNode, RunState, initial_state}
use tacorank.Transition.Deciding.{check_step, check_promotion, check_experiment_decided}
use tacorank.Transition.Recovering.{max_same_commit_retries, check_recovery_decided}
use tacorank.Transition.Validate.{is_run_started, check_payload}

module _ ⦃F : Floats⦄ where
  -- no experiment has used more repairs, retries of one commit or confirmations than it may
  abbrev pub IsWithin : ℕ → ℕ → ExperimentNode → Type 0
  IsWithin repairs confirmations n =
      (n.repair_count ≤ repairs)
      × (n.same_commit_retry_count ≤ max_same_commit_retries)
      × (n.confirmation_count ≤ confirmations)

  abbrev pub Within : RunState → Type 0
  Within s =
      AllNodes (IsWithin s.max_repairs_per_experiment s.max_confirmation_attempts) s.experiments

  with_node-Within :
      (i : String) (f : ExperimentNode → ExperimentNode) (s s' : RunState)
      → Within s
      → ((n : ExperimentNode)
          → get s.experiments i ≡ some n
          → IsWithin s.max_repairs_per_experiment s.max_confirmation_attempts n
          → IsWithin s.max_repairs_per_experiment s.max_confirmation_attempts (f n))
      → with_node i f s ≡ ok s'
      → Within s'
  with_node-Within i f s s' w keep h =
      let (n, found, e) = with_node-eq-ok i f s s' h in
      subst Within (sym e) (AllNodes-set _ s.experiments i (f n) w (keep n found (w i n found)))

  count_recovery-IsWithin :
      (es : List Event) (s : RunState) (d : RecoveryDecision) (n : ExperimentNode)
      → check_recovery_decided es s d ≡ ok tt
      → get s.experiments d.experiment_id ≡ some n
      → IsWithin s.max_repairs_per_experiment s.max_confirmation_attempts n
      → IsWithin s.max_repairs_per_experiment s.max_confirmation_attempts (count_recovery d n)
  unfolding check_recovery_decided count_recovery
  count_recovery-IsWithin es s d n h found w = ground arith

  confirmation_room :
      (es : List Event) (s : RunState) (d : ExperimentDecision) (n : ExperimentNode)
      → check_experiment_decided es s d ≡ ok tt
      → get s.experiments d.experiment_id ≡ some n
      → d.decision ≡ ExperimentDecisionKind.promote
      → (d.fidelity_completed == Fidelity.full) ≡ true
      → n.confirmation_count < s.max_confirmation_attempts
  unfolding check_experiment_decided check_promotion check_step
  confirmation_room es s d n h found e full = ground arith

  on_state-Within :
      (p : Projection) (r : Result RunState) (q : Projection)
      → ((s : RunState) → r ≡ ok s → Within s)
      → on_state p r ≡ ok q
      → Within q.state
  on_state-Within p r q keep h =
      let (s, e, eq) = on_state-eq-ok p r q h in
      subst (λ (t : Projection). Within t.state) (sym eq) (keep s e)

  on_execution_finished-Within :
      (r : RunResult) (s s' : RunState) → Within s → on_execution_finished r s ≡ ok s' → Within s'
  unfolding on_execution_finished
  on_execution_finished-Within r s s' w h = elim (Bool-cases (r.outcome == RunOutcome.success)) [
    | inl e ↦ with_node-Within r.experiment_id _ _ s' w (λ n g b. b) (rw e at h)
    | inr e ↦ with_node-Within r.experiment_id _ _ s' w (λ n g b. b) (rw e at h)
  ]

  on_recovery_decided-Within :
      (seen : List Event) (i : String) (d : RecoveryDecision) (s s' : RunState)
      → Within s
      → ((n : ExperimentNode)
          → get s.experiments d.experiment_id ≡ some n
          → IsWithin s.max_repairs_per_experiment s.max_confirmation_attempts n
          → IsWithin s.max_repairs_per_experiment s.max_confirmation_attempts (count_recovery d n))
      → on_recovery_decided seen i d s ≡ ok s'
      → Within s'
  unfolding on_recovery_decided clear_active
  on_recovery_decided-Within seen i d s s' w counted h = elim (Bool-cases (gives_up d.action)) [
    | inl e ↦ with_node-Within d.experiment_id _ _ s' w counted (rw e at h)
    | inr e ↦ with_node-Within d.experiment_id _ _ s' w counted (rw e at h)
  ]

  on_closed-Within :
      (i : String) (d : ExperimentDecision) (p q : Projection)
      → Within p.state
      → on_closed i d p ≡ ok q
      → Within q.state
  unfolding close_experiment clear_active
  on_closed-Within i d p q w h =
      let (n, found, e) = on_closed-eq-ok i d p q h in
      subst (λ (t : Projection). Within t.state) (sym e)
        (AllNodes-set _ p.state.experiments d.experiment_id _ w (w d.experiment_id n found))

  on_promoted-Within :
      (d : ExperimentDecision) (s s' : RunState)
      → Within s
      → ((n : ExperimentNode)
          → get s.experiments d.experiment_id ≡ some n
          → (d.fidelity_completed == Fidelity.full) ≡ true
          → n.confirmation_count < s.max_confirmation_attempts)
      → on_promoted d s ≡ ok s'
      → Within s'
  unfolding on_promoted
  on_promoted-Within d s s' w room h =
      with_node-Within d.experiment_id _ _ s' w (λ n g b. ground (arith, room n g)) h

  on_experiment_decided-Within :
      (es : List Event) (i : String) (d : ExperimentDecision) (p q : Projection)
      → Within p.state
      → ((n : ExperimentNode)
          → get p.state.experiments d.experiment_id ≡ some n
          → d.decision ≡ ExperimentDecisionKind.promote
          → (d.fidelity_completed == Fidelity.full) ≡ true
          → n.confirmation_count < p.state.max_confirmation_attempts)
      → on_experiment_decided i d p ≡ ok q
      → Within q.state
  unfolding on_experiment_decided
  on_experiment_decided-Within es i d p q w room h =
      elim (Bool-cases (d.decision == ExperimentDecisionKind.promote)) [
        | inl e ↦
            on_state-Within p _ q
              (λ s k.
                on_promoted-Within d p.state s w
                  (λ n g f.
                    room n g
                      ((experiment_decision_kind_iff d.decision ExperimentDecisionKind.promote).0 e)
                      f)
                  k)
              (rw e at h)
        | inr e ↦ on_closed-Within i d p q w (rw e at h)
      ]

  on_lesson_status_changed-Within :
      (l : LessonStatusChangedPayload) (s s' : RunState)
      → Within s
      → on_lesson_status_changed l s ≡ ok s'
      → Within s'
  unfolding on_lesson_status_changed
  on_lesson_status_changed-Within l s s' w h = elim (Option-cases (get s.lessons l.lesson_id)) [
    | inl e ↦ absurd (ground arith)
    | inr k ↦ subst Within (ok_injective _ s' (rw (k.1, on_lesson_status_changed) at h)) w
  ]

  none_used : 0 ≤ max_same_commit_retries
  none_used = omega arith

  dispatch-Within :
      (es : List Event) (e : Event) (p q : Projection) (payload : EventPayload)
      → is_run_started payload ≡ false
      → check_payload es (conclude es p.state) payload ≡ ok tt
      → Within p.state
      → dispatch e (observe e p) payload ≡ ok q
      → Within q.state
  unfolding dispatch observe check_payload conclude is_run_started on_experiment_proposed
      on_baseline_verified on_best_updated on_lesson_recorded on_run_stopped clear_active
      on_final_selected on_submission_checked on_patch_created on_patch_checked on_execution_started
      on_adapter_failed on_output_checked on_evaluation_completed
  dispatch-Within es e p q (EventPayload.run_started r) n c w h = absurd (cc)
  dispatch-Within es e p q (EventPayload.patch_created r) n c w h =
      on_state-Within (observe e p) _ q
        (λ s k. with_node-Within r.experiment_id _ _ s w (λ m g b. (b.0, none_used, b.2)) k) h
  dispatch-Within es e p q (EventPayload.patch_checked r) n c w h =
      on_state-Within (observe e p) _ q
        (λ s k. with_node-Within r.experiment_id _ _ s w (λ m g b. b) k) h
  dispatch-Within es e p q (EventPayload.execution_started r) n c w h =
      on_state-Within (observe e p) _ q
        (λ s k. with_node-Within r.experiment_id _ _ s w (λ m g b. b) k) h
  dispatch-Within es e p q (EventPayload.execution_finished r) n c w h =
      on_state-Within (observe e p) _ q (λ s k. on_execution_finished-Within r _ s w k) h
  dispatch-Within es e p q (EventPayload.adapter_failed r) n c w h =
      on_state-Within (observe e p) _ q
        (λ s k. with_node-Within r.experiment_id _ _ s w (λ m g b. b) k) h
  dispatch-Within es e p q (EventPayload.recovery_decided d) n c w h =
      on_state-Within (observe e p) _ q
        (λ s k.
          on_recovery_decided-Within _ e.event_id d (observe e p).state s w
            (λ m. count_recovery-IsWithin es (conclude es p.state) d m c) k)
        h
  dispatch-Within es e p q (EventPayload.output_checked r) n c w h =
      on_state-Within (observe e p) _ q
        (λ s k. with_node-Within r.experiment_id _ _ s w (λ m g b. b) k) h
  dispatch-Within es e p q (EventPayload.evaluation_completed r) n c w h =
      on_state-Within (observe e p) _ q
        (λ s k. with_node-Within r.experiment_id _ _ s w (λ m g b. b) k) h
  dispatch-Within es e p q (EventPayload.experiment_decided d) n c w h =
      on_experiment_decided-Within es e.event_id d (observe e p) q w
        (λ m. confirmation_room es (conclude es p.state) d m c) h
  dispatch-Within es e p q (EventPayload.lesson_status_changed l) n c w h =
      on_state-Within (observe e p) _ q (λ s k. on_lesson_status_changed-Within l _ s w k) h
  dispatch-Within es e p q (EventPayload.experiment_proposed spec) n c w h =
      subst (λ (t : Projection). Within t.state) (ok_injective _ q h)
        (AllNodes-set _ p.state.experiments spec.experiment_id (new_node spec) w
          (unfold new_node in omega arith))
  dispatch-Within es e p q _ n c w h =
      subst (λ (t : Projection). Within t.state) (ok_injective _ q h) w

  first-Within :
      (e : Event) (q : Projection) (payload : EventPayload)
      → is_run_started payload ≡ true
      → dispatch e (observe e initial_projection) payload ≡ ok q
      → Within q.state
  unfolding dispatch observe is_run_started on_run_started initial_projection initial_state get
  first-Within e q (EventPayload.run_started r) h r_ok =
      subst (λ (t : Projection). Within t.state) (ok_injective _ q r_ok) (λ i n g. absurd (cc))
  first-Within e q _ h r_ok = absurd (cc)

  run_events-Within :
      (l : List Event) (p : Projection)
      → Legal l
      → run_events initial_projection l ≡ ok p
      → Within p.state
  unfolding initial_projection initial_state get step
  run_events-Within =
      Legal-induction (λ l p. Within p.state) (λ i n g. absurd (cc))
        (λ e q started h. first-Within e q e.payload started h)
        (λ es p e q w a h. dispatch-Within es e p q e.payload a.later a.payload_ok w h)

  -- On a legal ledger, every experiment has used at most `max_repairs_per_experiment` repairs, at
  -- most two retries of the same commit since its last patch, and at most
  -- `max_confirmation_attempts` confirmations.
  pub project-Within : (l : List Event) (s : RunState) → Legal l → project l ≡ ok s → Within s
  unfolding conclude
  project-Within l s legal h =
      let (p, r, e) = project-eq-ok l s h in subst Within (sym e) (run_events-Within l p legal r)
