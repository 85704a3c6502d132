-- ===== src/Convergence.antt =====
-- src/tacorank/orchestrator/convergence.py: when the controller stops a run.
pub mod Stopping
use tacorank.Prelude.{
  leb, if◌then◌else◌, ◌==◌, nat_eq, string_eq, option_eq, int_eq, ℕ, ◌+◌, ◌*◌, String, Bool, true,
  false, ◌&&◌, Option, none, some, List, [], ◌∷◌,
}
use tacorank.Accounting.{total_reported_tokens}
use tacorank.Dict.{Dict, get, set}
use tacorank.Float.{Floats, Fl}
use tacorank.Projection.Fold.{improves}
use tacorank.Schemas.Events.{EventPayload, Event}
use tacorank.Schemas.Judgements.{
  TrustVerdict, trust_verdict_eq, stability_eq, integrity_eq, ExperimentDecisionKind,
  experiment_decision_kind_eq, lesson_origin_eq, lesson_category_eq, lesson_status_eq,
  token_measurement_eq,
}
use tacorank.Schemas.Records.{ExperimentDecision}
use tacorank.Schemas.Runs.{
  Fidelity, fidelity_eq, run_outcome_eq, recovery_action_eq, Population, population_eq,
  failure_stage_eq, role_eq,
}
use tacorank.Schemas.Scores.{EvaluationResult}
use tacorank.Schemas.Statuses.{run_status_eq, experiment_status_eq}
use tacorank.State.{RunState}

module _ ⦃F : Floats⦄ where
  -- the fields of `RunConfig` (src/tacorank/config.py) that the stop rules read
  pub record RunConfig : Type 0 where
    pub max_experiments : ℕ
    pub wall_time_limit_seconds : ℕ
    pub token_limit : Option ℕ
    pub gpu_seconds_limit : Option ℕ
    pub convergence_epsilon : Fl
    pub convergence_patience : ℕ

  -- a stop with its reason code, or none to continue
  abbrev pub StopDecision : Type 0
  StopDecision = Option String

  -- the variables of the loop in `convergence_pressure`
  pub record Pressure : Type 0 where
    pub incumbent : Option Fl
    pub non_improving : ℕ
    pub evaluations : Dict EvaluationResult

  abbrev pub no_pressure : Pressure
  no_pressure = record { incumbent = none; non_improving = 0; evaluations = [] }

  -- the result of the evaluation that a full decision cites, where it counts
  unfoldable pub counted_score : Dict EvaluationResult → ExperimentDecision → Option Fl
  counted_score evaluations decision = elim decision.evaluation_event_id [
    | none ↦ none
    | some i ↦ elim (get evaluations i) [
      | none ↦ none
      | some result ↦
          if decision.fidelity_completed == Fidelity.full
            && result.fidelity == Fidelity.full
            && result.population == Population.public_validation
            && result.trust.verdict == TrustVerdict.accepted
          then some result.metric_set.primary_score
          else none
    ]
  ]

  unfoldable pub is_excluded : ExperimentDecisionKind → Bool
  is_excluded ExperimentDecisionKind.promote = true
  is_excluded ExperimentDecisionKind.invalid = true
  is_excluded _ = false

  unfoldable pub count_decision : Fl → Pressure → ExperimentDecision → Pressure
  unfolding counted_score is_excluded improves
  count_decision epsilon p decision =
      let missed = record p { non_improving = p.non_improving + 1 } in
      if is_excluded decision.decision then p else elim (counted_score p.evaluations decision) [
        | none ↦ missed
        | some score ↦
            if improves epsilon p.incumbent score
            then record p { incumbent = some score; non_improving = 0 }
            else missed
      ]

  unfoldable pub observe_event : Fl → Pressure → Event → Pressure
  unfolding count_decision set
  observe_event epsilon p e = elim e.payload [
    | EventPayload.baseline_verified b ↦ record p { incumbent = some b.metric_set.primary_score }
    | EventPayload.evaluation_completed r ↦ record p {
      evaluations = set p.evaluations e.event_id r;
    }
    | EventPayload.experiment_decided d ↦ count_decision epsilon p d
    | _ ↦ p
  ]

  unfoldable pub pressure_of : Fl → Pressure → List Event → Pressure
  unfolding observe_event
  pressure_of epsilon p [] = p
  pressure_of epsilon p (e ∷ es) = pressure_of epsilon (observe_event epsilon p e) es

  unfoldable pub convergence_pressure : List Event → RunConfig → ℕ
  unfolding pressure_of
  convergence_pressure events config =
      (pressure_of config.convergence_epsilon no_pressure events).non_improving

  abbrev pub is_reached : Option ℕ → ℕ → Bool
  is_reached none used = false
  is_reached (some limit) used = leb limit used

  abbrev pub milliseconds : Option ℕ → Option ℕ
  milliseconds none = none
  milliseconds (some seconds) = some (seconds * 1000)

  -- Seconds are compared in microseconds and, for the GPU, in milliseconds.
  unfoldable pub runtime_budget_decision : RunState → RunConfig → StopDecision
  unfolding total_reported_tokens
  runtime_budget_decision s config =
      let totals = s.resource_totals in
      if leb (config.wall_time_limit_seconds * 1000000) s.elapsed_wall_time_us
      then some "wall_time_budget"
      else if is_reached config.token_limit (total_reported_tokens totals)
      then some "token_budget"
      else if is_reached (milliseconds config.gpu_seconds_limit) totals.gpu_weighted_time_ms
      then some "gpu_budget"
      else none

  unfoldable pub stop_decision :
      RunState → List Event → RunConfig → (fatal_integrity no_legal_proposal : Bool) → StopDecision
  unfolding runtime_budget_decision convergence_pressure
  stop_decision s events config fatal_integrity no_legal_proposal =
      if fatal_integrity
      then some "fatal_integrity"
      else if leb config.max_experiments s.experiments_proposed
      then some "experiment_budget"
      else elim (runtime_budget_decision s config) [
        | some reason ↦ some reason
        | none ↦
            if leb config.convergence_patience (convergence_pressure events config)
            then some "converged"
            else if no_legal_proposal
            then some "no_legal_proposal"
            else none
      ]
