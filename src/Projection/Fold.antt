-- ===== src/Projection/Fold.antt =====
-- src/tacorank/memory/projections.py: experiment decisions, one step of the loop, and `project`.
use tacorank.Prelude.{
  if◌then◌else◌, ◌==◌, nat_eq, string_eq, option_eq, int_eq, ℕ, ◌+◌, ◌-◌, String, Bool, true, ◌&&◌,
  Option, none, some, List, [], ◌∷◌, ◌++◌, map,
}
use tacorank.Accounting.{aggregate_resources}
use tacorank.Dict.{get, set}
use tacorank.Float.{Floats, Fl}
use tacorank.Projection.Experiment.{
  with_node, on_experiment_proposed, on_patch_created, on_patch_checked, on_execution_started,
  on_execution_finished, on_adapter_failed, on_output_checked, on_evaluation_completed,
}
use tacorank.Projection.Recovery.{on_recovery_decided}
use tacorank.Projection.Run.{
  on_run_started, on_baseline_verified, role_phase, clear_active, on_best_updated,
  on_lesson_recorded, on_lesson_status_changed, on_run_stopped, on_final_selected,
  on_submission_checked,
}
use tacorank.Result.{Result, ok, err, value_error, ◌>>=◌}
use tacorank.Schemas.Events.{EventPayload, Event}
use tacorank.Schemas.Judgements.{
  TrustVerdict, trust_verdict_eq, stability_eq, integrity_eq, ExperimentDecisionKind,
  experiment_decision_kind_eq, lesson_origin_eq, lesson_category_eq, lesson_status_eq,
  token_measurement_eq,
}
use tacorank.Schemas.Records.{ExperimentDecision}
use tacorank.Schemas.Runs.{
  Fidelity, fidelity_eq, run_outcome_eq, recovery_action_eq, population_eq, failure_stage_eq,
  role_eq,
}
use tacorank.Schemas.Statuses.{run_status_eq, ExperimentStatus, experiment_status_eq}
use tacorank.State.{ExperimentNode, RunState, initial_state}

module _ ⦃F : Floats⦄ where
  -- the variables of the loop of `project`; `seen` is `events_by_id`
  pub record Projection : Type 0 where
    pub state : RunState
    pub seen : List Event
    pub convergence_incumbent : Option Fl

  -- `status_by_decision` of the source
  unfoldable pub status_by_decision : ExperimentDecisionKind → ExperimentStatus
  status_by_decision ExperimentDecisionKind.accept = ExperimentStatus.accepted
  status_by_decision ExperimentDecisionKind.reject = ExperimentStatus.rejected
  status_by_decision ExperimentDecisionKind.prune = ExperimentStatus.pruned
  status_by_decision ExperimentDecisionKind.invalid = ExperimentStatus.invalid
  status_by_decision ExperimentDecisionKind.promote = ExperimentStatus.ready_to_run

  unfoldable pub on_promoted : ExperimentDecision → RunState → Result RunState
  unfolding with_node
  on_promoted decision s =
      with_node decision.experiment_id
        (λ node. record node {
          status = ExperimentStatus.ready_to_run;
          best_eligible = decision.best_eligible;
          confirmation_count =
              if decision.next_fidelity == some Fidelity.full
                && decision.fidelity_completed == Fidelity.full
              then node.confirmation_count + 1
              else node.confirmation_count;
        })
        (record s { active_fidelity = decision.next_fidelity; phase = "execution" })

  -- the score of a trusted full evaluation, the only one that moves the convergence counter
  unfoldable pub trusted_full_score : ExperimentDecision → ExperimentNode → Option Fl
  trusted_full_score decision node = elim node.metric_set [
    | none ↦ none
    | some metric_set ↦ elim node.trust [
      | none ↦ none
      | some trust ↦
          if decision.fidelity_completed == Fidelity.full && trust.verdict == TrustVerdict.accepted
          then some metric_set.primary_score
          else none
    ]
  ]

  -- convergence_incumbent is None or score > convergence_incumbent + epsilon
  unfoldable pub improves : Fl → Option Fl → Fl → Bool
  improves epsilon none score = true
  improves epsilon (some incumbent) score = F.flt (F.fadd incumbent epsilon) score

  -- the incumbent and the counter after a terminal decision
  unfoldable pub count_convergence : Option Fl → Fl → Option Fl → ℕ → Option Fl × ℕ
  unfolding improves
  count_convergence none epsilon incumbent n = (incumbent, n)
  count_convergence (some score) epsilon incumbent n =
      if improves epsilon incumbent score then (some score, 0) else (incumbent, n + 1)

  -- a terminal decision on `node`
  unfoldable pub close_experiment :
      String → ExperimentDecision → Projection → ExperimentNode → Projection
  unfolding clear_active status_by_decision trusted_full_score count_convergence
  close_experiment event_id decision p node =
      let s = p.state in
      let (incumbent, n) =
        count_convergence (trusted_full_score decision node) s.convergence_epsilon
          p.convergence_incumbent s.consecutive_non_improving_full_evaluations in
      let closed : ExperimentNode = record node {
        status = status_by_decision decision.decision;
        best_eligible = decision.best_eligible;
        terminal_event_id = some event_id;
      } in
      record p {
        state = record (clear_active s) {
          phase = "planning";
          experiments = set s.experiments decision.experiment_id closed;
          consecutive_non_improving_full_evaluations = n;
        };
        convergence_incumbent = incumbent;
      }

  unfoldable pub on_closed : String → ExperimentDecision → Projection → Result Projection
  unfolding close_experiment
  on_closed event_id decision p = elim (get p.state.experiments decision.experiment_id) [
    | none ↦ err (value_error "unknown experiment")
    | some node ↦ ok (close_experiment event_id decision p node)
  ]

  unfoldable pub on_experiment_decided :
      String → ExperimentDecision → Projection → Result Projection
  unfolding on_promoted on_closed
  on_experiment_decided event_id decision p =
      if decision.decision == ExperimentDecisionKind.promote
      then (do s' ← on_promoted decision p.state; ok (record p { state = s' }))
      else on_closed event_id decision p

  abbrev pub on_state : Projection → Result RunState → Result Projection
  on_state p r = do s' ← r; ok (record p { state = s' })

  -- the `if` chain of the loop on the event's type
  unfoldable pub dispatch : Event → Projection → EventPayload → Result Projection
  dispatch e p (EventPayload.run_started r) = on_state p (ok (on_run_started e.timestamp r p.state))
  dispatch e p (EventPayload.contract_verified c) =
      on_state p (ok (record p.state { phase = "baseline" }))
  dispatch e p (EventPayload.baseline_verified b) = ok (record p {
    state = on_baseline_verified b p.state;
    convergence_incumbent = some b.metric_set.primary_score;
  })
  dispatch e p (EventPayload.context_created c) =
      on_state p (ok (record p.state { phase = role_phase c.role }))
  dispatch e p (EventPayload.planner_recommended o) = ok p
  dispatch e p (EventPayload.planning_failed r) =
      on_state p (ok (record (clear_active p.state) { phase = "planning_failure" }))
  dispatch e p (EventPayload.experiment_proposed spec) =
      on_state p (ok (on_experiment_proposed spec p.state))
  dispatch e p (EventPayload.patch_created c) = on_state p (on_patch_created c p.state)
  dispatch e p (EventPayload.patch_checked r) = on_state p (on_patch_checked r p.state)
  dispatch e p (EventPayload.execution_started r) = on_state p (on_execution_started r p.state)
  dispatch e p (EventPayload.execution_finished r) = on_state p (on_execution_finished r p.state)
  dispatch e p (EventPayload.adapter_failed r) = on_state p (on_adapter_failed r p.state)
  dispatch e p (EventPayload.recovery_decided d) =
      on_state p (on_recovery_decided p.seen e.event_id d p.state)
  dispatch e p (EventPayload.output_checked r) = on_state p (on_output_checked r p.state)
  dispatch e p (EventPayload.evaluation_completed r) =
      on_state p (on_evaluation_completed r p.state)
  dispatch e p (EventPayload.experiment_decided d) = on_experiment_decided e.event_id d p
  dispatch e p (EventPayload.best_updated b) = on_state p (ok (on_best_updated b p.state))
  dispatch e p (EventPayload.lesson_recorded l) =
      on_state p (ok (on_lesson_recorded e.event_id l p.state))
  dispatch e p (EventPayload.lesson_status_changed l) =
      on_state p (on_lesson_status_changed l p.state)
  dispatch e p EventPayload.manual_intervention =
      on_state p
        (ok (record p.state { manual_intervention_count = p.state.manual_intervention_count + 1 }))
  dispatch e p (EventPayload.run_stopped r) = on_state p (ok (on_run_stopped r p.state))
  dispatch e p (EventPayload.final_selected f) = on_state p (ok (on_final_selected f p.state))
  dispatch e p (EventPayload.submission_checked c) =
      on_state p (ok (on_submission_checked c p.state))

  -- the fields that every event sets, before its handler runs
  unfoldable pub observe : Event → Projection → Projection
  observe e p = record p {
    seen = p.seen ++ e ∷ [];
    state = record p.state {
      run_id = some e.run_id;
      last_event_id = some e.event_id;
      last_event_hash = some e.event_hash;
      last_event_at = some e.timestamp;
    };
  }

  unfoldable pub step : Projection → Event → Result Projection
  step p e = dispatch e (observe e p) e.payload

  unfoldable pub run_events : Projection → List Event → Result Projection
  run_events p [] = ok p
  run_events p (e ∷ es) = elim (step p e) [ ok p' ↦ run_events p' es | err x ↦ err x ]

  unfoldable pub initial_projection : Projection
  initial_projection = record { state = initial_state; seen = []; convergence_incumbent = none }

  -- max(0.0, (last_event_at - started_at).total_seconds()), in microseconds
  unfoldable pub elapsed_us : RunState → ℕ
  elapsed_us s = elim s.started_at [
    | none ↦ 0
    | some started ↦ elim s.last_event_at [ none ↦ 0 | some latest ↦ latest - started ]
  ]

  -- what follows the loop
  unfoldable pub conclude : List Event → RunState → RunState
  unfolding elapsed_us
  conclude events s = record s {
    resource_totals = aggregate_resources (map (λ e. e.resource_delta) events);
    elapsed_wall_time_us = elapsed_us s;
  }

  unfoldable pub project : List Event → Result RunState
  project events = do p ← run_events initial_projection events; ok (conclude events p.state)
