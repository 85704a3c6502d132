-- ===== src/Evaluation/Decisions.antt =====
-- src/tacorank/evaluation/decisions.py: the decision on an evaluated experiment, and the context that
-- `decide` of src/tacorank/orchestrator/live.py makes for it.
use tacorank.Prelude.{
  if◌then◌else◌, ◌==◌, nat_eq, string_eq, option_eq, bool_beq, length, elem, int_eq, ℕ, ◌-◌, String,
  Bool, true, false, not, ◌&&◌, ◌||◌, none, some, List, [], ◌∷◌, ◌++◌,
}
use tacorank.Evaluation.Choosing.{DomainResult, Choice, choose}
use tacorank.Float.{Floats}
use tacorank.Result.{Result, require_or, ok, value_error, no_op_recovery_required, ◌>>=◌, ◌>>◌}
use tacorank.Schemas.Judgements.{
  TrustVerdict, trust_verdict_eq, stability_eq, integrity_eq, ExperimentDecisionKind,
  experiment_decision_kind_eq, lesson_origin_eq, lesson_category_eq, lesson_status_eq,
  token_measurement_eq,
}
use tacorank.Schemas.Records.{ExperimentDecision}
use tacorank.Schemas.Runs.{
  Fidelity, fidelity_eq, run_outcome_eq, recovery_action_eq, Population, population_eq,
  failure_stage_eq, role_eq,
}
use tacorank.Schemas.Scores.{EvaluationResult}
use tacorank.Schemas.Statuses.{run_status_eq, experiment_status_eq}

module _ ⦃F : Floats⦄ where
  pub record DecisionContext : Type 0 where
    pub evaluation_event_id : String
    pub supporting_event_ids : List String
    pub seed_evidence_event_ids : List String
    pub confirmations_remaining : ℕ

  -- `ExperimentDecision` of types.py, which keeps the seed evidence apart
  pub record DomainDecision : Type 0 where
    pub decision : ExperimentDecision
    pub seed_evidence_event_ids : List String

  -- tuple(a) == tuple(b)
  unfoldable pub same_ids : List String → List String → Bool
  same_ids [] [] = true
  same_ids [] (_ ∷ _) = false
  same_ids (_ ∷ _) [] = false
  same_ids (a ∷ xs) (b ∷ ys) = a == b && same_ids xs ys

  module _ (r : DomainResult) where
    -- `_decision`
    unfoldable pub decision_from : DecisionContext → Choice → DomainDecision
    decision_from context choice = record {
      decision = record {
        run_id = r.canonical.run_id;
        experiment_id = r.canonical.experiment_id;
        evaluation_event_id = some context.evaluation_event_id;
        decision = choice.action;
        reason_code = choice.reason;
        fidelity_completed = r.canonical.fidelity;
        parent_eligible = choice.parent_eligible;
        best_eligible = choice.best_eligible;
        next_fidelity = choice.next_fidelity;
        supporting_event_ids = context.supporting_event_ids;
      };
      seed_evidence_event_ids = context.seed_evidence_event_ids;
    }

    unfoldable pub decide : DecisionContext → Result DomainDecision
    unfolding same_ids choose decision_from
    decide context = do
      require_or (same_ids context.seed_evidence_event_ids r.canonical.seed_evidence_event_ids)
          (value_error "decision seed evidence does not match evaluation")
      require_or
          (not (
            r.canonical.population == Population.hidden_final
            || r.canonical.fidelity == Fidelity.final))
          (value_error "hidden-final results do not produce experiment decisions")
      require_or (not (r.canonical.population == Population.unbiased_audit))
          (value_error "unbiased-audit results support trust but do not produce decisions")
      require_or (not (r.canonical.trust.verdict == TrustVerdict.no_op)) no_op_recovery_required
      choice ← choose r context.confirmations_remaining
      ok (decision_from context choice)

    -- `DecisionContext(...)` in `decide` of orchestrator/live.py, where the evaluation's event has a
    -- cause
    unfoldable pub decision_context : ℕ → String → String → DecisionContext
    decision_context max_confirmation_attempts event_id cause = record {
      evaluation_event_id = event_id;
      supporting_event_ids = cause ∷ event_id ∷ [];
      seed_evidence_event_ids = r.canonical.seed_evidence_event_ids;
      confirmations_remaining =
          max_confirmation_attempts - length r.canonical.seed_evidence_event_ids;
    }

  -- tuple(dict.fromkeys(ids))
  unfoldable pub fresh_ids : List String → List String → List String
  unfolding elem
  fresh_ids seen [] = []
  fresh_ids seen (a ∷ ids) =
      let rest = fresh_ids (a ∷ seen) ids in if elem a seen then rest else a ∷ rest

  -- `ExperimentDecision.to_canonical`
  unfoldable pub to_canonical : DomainDecision → ExperimentDecision
  unfolding fresh_ids
  to_canonical d = record d.decision {
    supporting_event_ids =
        fresh_ids [] (d.decision.supporting_event_ids ++ d.seed_evidence_event_ids);
  }

  -- the rules on populations of `EvaluationResult.validate_evaluation_route`
  unfoldable pub has_valid_route : EvaluationResult → Bool
  has_valid_route e =
      (if e.population == Population.public_validation
        then e.fidelity == Fidelity.full && not (e.public_query_index == none)
        else e.public_query_index == none)
      && (not (e.population == Population.internal_proxy) || e.fidelity == Fidelity.proxy)
      && (not (e.population == Population.unbiased_audit) || e.fidelity == Fidelity.full)
      && (not (e.population == Population.hidden_final) || e.fidelity == Fidelity.final)

  -- `ExperimentDecision.validate_promotion`
  unfoldable pub is_valid_promotion : ExperimentDecision → Bool
  is_valid_promotion d =
      bool_beq (d.decision == ExperimentDecisionKind.promote) (not (d.next_fidelity == none))
      && (not d.best_eligible || d.fidelity_completed == Fidelity.full)
