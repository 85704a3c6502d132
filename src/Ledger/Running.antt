-- ===== src/Ledger/Running.antt =====
-- `validate_transition` of src/tacorank/orchestrator/state_machine.py where the status of the
-- run refuses no event but a second start: in a running run, and in a ready one.
use tacorank.Prelude.{
  ◌==◌, nat_eq, string_eq, option_eq, int_eq, ◌≡◌, refl, true, false, ◌||◌, List, [], ◌∷◌, arith,
}
use tacorank.Float.{Floats}
use tacorank.Projection.Fold.{run_events, initial_projection, conclude, project}
use tacorank.Result.{Check, ok}
use tacorank.Schemas.Events.{EventPayload, Event}
use tacorank.Schemas.Judgements.{
  trust_verdict_eq, stability_eq, integrity_eq, experiment_decision_kind_eq, lesson_origin_eq,
  lesson_category_eq, lesson_status_eq, token_measurement_eq,
}
use tacorank.Schemas.Runs.{
  fidelity_eq, run_outcome_eq, recovery_action_eq, population_eq, failure_stage_eq, role_eq,
}
use tacorank.Schemas.Statuses.{RunStatus, run_status_eq, experiment_status_eq}
use tacorank.State.{RunState, initial_state}
use tacorank.Transition.Planning.{accepts_proposals}
use tacorank.Transition.Validate.{is_run_started, check_status, check_payload, validate_transition}

module _ ⦃F : Floats⦄ where
  pub check_payload-validate_transition :
      (l : List Event) (s : RunState) (payload : EventPayload) {checked : Check}
      → project l ≡ ok s
      → s.status ≡ RunStatus.running
      → is_run_started payload ≡ false
      → check_payload l s payload ≡ checked
      → validate_transition l payload ≡ checked
  unfolding validate_transition check_status project run_events initial_projection conclude
      initial_state
  check_payload-validate_transition [] s payload p running later h = ground arith
  check_payload-validate_transition (x ∷ l) s payload p running later h =
      let status : check_status s.status payload ≡ ok tt = rw running refl in
      rw (validate_transition, later, p, status) h

  accepts_proposals-check_status :
      (status : RunStatus) (payload : EventPayload)
      → (status == RunStatus.ready || status == RunStatus.running) ≡ true
      → check_status status payload ≡ ok tt
  unfolding check_status
  accepts_proposals-check_status RunStatus.ready payload h = refl
  accepts_proposals-check_status RunStatus.running payload h = refl
  accepts_proposals-check_status _ payload h = absurd (cc)

  pub check_payload-accepts_proposals :
      (l : List Event) (s : RunState) (payload : EventPayload)
      → project l ≡ ok s
      → accepts_proposals s ≡ true
      → is_run_started payload ≡ false
      → check_payload l s payload ≡ ok tt
      → validate_transition l payload ≡ ok tt
  unfolding validate_transition project run_events initial_projection conclude initial_state
  check_payload-accepts_proposals [] s payload p accepting later h = ground arith
  check_payload-accepts_proposals (x ∷ l) s payload p accepting later h =
      let status : check_status s.status payload ≡ ok tt =
        accepts_proposals-check_status s.status payload accepting in
      rw (validate_transition, later, p, status) h
