-- ===== src/Transition/Deciding.antt =====
-- src/tacorank/orchestrator/state_machine.py: the branches of experiment decisions and of the best.
use tacorank.Prelude.{
  ltb, if◌then◌else◌, ◌==◌, nat_eq, string_eq, option_eq, find_first, int_eq, ℕ, String, Bool, true,
  false, ◌&&◌, Option, none, some, List,
}
use tacorank.Dict.{get}
use tacorank.Float.{Floats, Fl}
use tacorank.Result.{Result, Check, require, require_some, ok, err, key_error, ◌>>=◌, ◌>>◌}
use tacorank.Schemas.Events.{BestUpdatedPayload, Event}
use tacorank.Schemas.Judgements.{
  TrustVerdict, trust_verdict_eq, Stability, stability_eq, Integrity, integrity_eq,
  ExperimentDecisionKind, experiment_decision_kind_eq, lesson_origin_eq, lesson_category_eq,
  lesson_status_eq, token_measurement_eq,
}
use tacorank.Schemas.Records.{ExperimentDecision}
use tacorank.Schemas.Runs.{
  Fidelity, fidelity_eq, run_outcome_eq, recovery_action_eq, Population, population_eq,
  failure_stage_eq, role_eq,
}
use tacorank.Schemas.Scores.{EvaluationResult}
use tacorank.Schemas.Statuses.{run_status_eq, ExperimentStatus, experiment_status_eq}
use tacorank.State.{ExperimentNode, RunState}
use tacorank.Transition.Views.{as_evaluation_completed, as_experiment_decided, last_for_experiment}

module _ ⦃F : Floats⦄ where
  -- what a best-eligible decision needs of the evaluation that it cites
  unfoldable pub check_best_eligible : EvaluationResult → ExperimentDecision → Check
  check_best_eligible result decision = do
    require
        (result.fidelity == Fidelity.full
          && result.population == Population.public_validation
          && result.trust.verdict == TrustVerdict.accepted)
        "best eligibility requires trusted public full evaluation"
    require
        (result.trust.stability == Stability.confirmed && result.trust.integrity == Integrity.clean)
        "best eligibility requires confirmed clean evaluation"
    require (decision.decision == ExperimentDecisionKind.accept)
        "only an accepted experiment can be best eligible"

  unfoldable pub check_cited_evaluation : List Event → ExperimentNode → ExperimentDecision → Check
  unfolding check_best_eligible
  check_cited_evaluation events node decision =
      if decision.fidelity_completed == Fidelity.smoke
      then (do
        require (node.status == ExperimentStatus.output_verified) "smoke decision requires Gate B"
        require (decision.evaluation_event_id == none) "smoke decision cannot cite evaluation")
      else (do
        require (node.status == ExperimentStatus.evaluated) "decision requires evaluation"
        evaluation ←
            require_some (last_for_experiment as_evaluation_completed events decision.experiment_id)
              (λ e. some e.0.event_id == decision.evaluation_event_id)
              "decision cites the wrong evaluation"
        require (decision.fidelity_completed == evaluation.1.fidelity)
            "decision fidelity does not match evaluation"
        (if decision.best_eligible then check_best_eligible evaluation.1 decision else ok tt))

  -- `fidelity_order`, a dictionary without the final fidelity
  unfoldable pub fidelity_order : Fidelity → Result ℕ
  fidelity_order Fidelity.smoke = ok 0
  fidelity_order Fidelity.proxy = ok 1
  fidelity_order Fidelity.full = ok 2
  fidelity_order Fidelity.final = err key_error

  -- a full run is promoted only to its confirmation, any other to a higher fidelity
  unfoldable pub check_step : RunState → ExperimentNode → ExperimentDecision → Fidelity → Check
  unfolding fidelity_order
  check_step s node decision next =
      if decision.fidelity_completed == Fidelity.full
      then (do
        require (next == Fidelity.full) "full can only promote to confirmation"
        require (ltb node.confirmation_count s.max_confirmation_attempts)
            "confirmation budget exceeded")
      else (do
        to ← fidelity_order next
        from ← fidelity_order decision.fidelity_completed
        require (ltb from to) "promotion must move to a higher fidelity")

  unfoldable pub check_promotion : RunState → ExperimentNode → ExperimentDecision → Check
  unfolding check_step
  check_promotion s node decision =
      if decision.decision == ExperimentDecisionKind.promote
      then (do
        next ← require_some decision.next_fidelity (λ _. true) "promotion requires next fidelity"
        check_step s node decision next)
      else ok tt

  unfoldable pub check_experiment_decided : List Event → RunState → ExperimentDecision → Check
  unfolding check_cited_evaluation check_promotion
  check_experiment_decided events s decision = do
    node ←
        require_some (get s.experiments decision.experiment_id) (λ _. true)
          "decision has unknown experiment"
    check_cited_evaluation events node decision
    check_promotion s node decision

  -- the first decision event with that id
  unfoldable pub decision_event : String → Event → Option ExperimentDecision
  decision_event event_id e =
      if e.event_id == event_id then as_experiment_decided e.payload else none

  -- the score of the node, where it is named and equal to the payload's
  unfoldable pub has_score : BestUpdatedPayload → ExperimentNode → Bool
  has_score payload node = elim node.metric_set [
    | none ↦ false
    | some m ↦
        m.primary_metric_name == payload.primary_metric_name
        && F.feq m.primary_score payload.primary_score
  ]

  -- state.best_primary_score is None or payload.primary_score > state.best_primary_score
  unfoldable pub beats : Fl → Option Fl → Bool
  beats score none = true
  beats score (some best) = F.flt best score

  unfoldable pub check_best_updated : List Event → RunState → BestUpdatedPayload → Check
  unfolding decision_event has_score beats
  check_best_updated events s payload = do
    node ←
        require_some (get s.experiments payload.experiment_id)
          (λ n. n.status == ExperimentStatus.accepted && n.best_eligible)
          "experiment is not an accepted best-eligible candidate"
    require_some (find_first (decision_event payload.decision_event_id) events)
        (λ d.
          some d.0.event_id == node.terminal_event_id
          && d.1.experiment_id == payload.experiment_id
          && d.1.decision == ExperimentDecisionKind.accept
          && d.1.best_eligible)
        "invalid decision reference"
    require (some payload.commit_sha == node.latest_commit_sha)
        "best commit does not match the accepted patch"
    require (has_score payload node) "best score does not match evaluation"
    require (beats payload.primary_score s.best_primary_score)
        "best update must strictly improve the incumbent"
