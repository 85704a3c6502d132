-- ===== src/Evaluation/Agreement.antt =====
-- The decisions of src/tacorank/evaluation/decisions.py, as the state machine and the schema see them.
use tacorank.Prelude.{
  leb, ◌==◌, nat_eq, string_eq, option_eq, Bool-cases, length, int_eq, ℕ, ◌≤◌, ◌<◌, String, ◌≡◌,
  refl, ap, ◌∙◌, subst, ◌⊎◌, inl, inr, Bool, true, false, not, ◌&&◌, ◌||◌, some, List, arith,
  eq_iff,
}
use tacorank.Dict.{get}
use tacorank.Evaluation.Choices.{same_ids_refl, Fits, choose-Fits}
use tacorank.Evaluation.Choosing.{
  DomainResult, Choice, applied_eta, current_best, candidate_primary, proxy_choice, full_choice,
  choose,
}
use tacorank.Evaluation.Decisions.{
  DecisionContext, DomainDecision, same_ids, decision_from, decide, decision_context, to_canonical,
  has_valid_route, is_valid_promotion,
}
use tacorank.Float.{Floats}
use tacorank.Ledger.Running.{check_payload-validate_transition}
use tacorank.Projection.Fold.{project}
use tacorank.Result.{require_or, >>=-eq-ok, >>-eq-ok, ok_injective, ok, err, transition_error}
use tacorank.Schemas.Events.{EventPayload, Event}
use tacorank.Schemas.Judgements.{
  TrustVerdict, trust_verdict_eq, Stability, stability_eq, Integrity, integrity_eq,
  ExperimentDecisionKind, experiment_decision_kind_eq, lesson_origin_eq, lesson_category_eq,
  lesson_status_eq, token_measurement_eq,
}
use tacorank.Schemas.Runs.{
  Fidelity, fidelity_eq, run_outcome_eq, recovery_action_eq, Population, population_eq,
  failure_stage_eq, role_eq,
}
use tacorank.Schemas.Statuses.{RunStatus, run_status_eq, ExperimentStatus, experiment_status_eq}
use tacorank.State.{ExperimentNode, RunState}
use tacorank.Transition.Deciding.{
  check_best_eligible, check_cited_evaluation, fidelity_order, check_step, check_promotion,
  check_experiment_decided,
}
use tacorank.Transition.Validate.{is_run_started, check_payload, validate_transition}
use tacorank.Transition.Views.{as_evaluation_completed, last_for_experiment}

module _ ⦃F : Floats⦄ where
  -- a result that gets a decision
  unfoldable pub is_decidable : DomainResult → Bool
  is_decidable r =
      not (r.canonical.population == Population.hidden_final)
      && not (r.canonical.population == Population.unbiased_audit)
      && not (r.canonical.trust.verdict == TrustVerdict.no_op)

  choose-returns :
      (r : DomainResult) (remaining : ℕ)
      → has_valid_route r.canonical ≡ true
      → is_decidable r ≡ true
      → (c : Choice) × (choose r remaining ≡ ok c)
  unfolding choose has_valid_route is_decidable
  choose-returns r remaining valid decidable =
      elim (Bool-cases (
        r.canonical.fidelity == Fidelity.proxy
        || r.canonical.population == Population.internal_proxy)) [
          | inl proxy ↦ (proxy_choice r, ground arith)
          | inr full ↦ (full_choice r remaining, ground arith)
        ]

  decide-eq-ok :
      (r : DomainResult) (context : DecisionContext) (c : Choice)
      → has_valid_route r.canonical ≡ true
      → is_decidable r ≡ true
      → context.seed_evidence_event_ids ≡ r.canonical.seed_evidence_event_ids
      → choose r context.confirmations_remaining ≡ ok c
      → decide r context ≡ ok (decision_from r context c)
  unfolding decide has_valid_route is_decidable
  decide-eq-ok r context c valid decidable seeds chosen =
      let same : same_ids context.seed_evidence_event_ids r.canonical.seed_evidence_event_ids
          ≡ true =
        rw seeds (same_ids_refl r.canonical.seed_evidence_event_ids) in
      ground (arith, chosen, same)

  -- a choice that promotes a full run once more than the state machine allows
  abbrev is_overspent : RunState → ExperimentNode → DomainResult → Choice → Bool
  is_overspent s node r c =
      c.action == ExperimentDecisionKind.promote
      && r.canonical.fidelity == Fidelity.full
      && leb s.max_confirmation_attempts node.confirmation_count

  module _ (events : List Event) (s : RunState) (node : ExperimentNode) (e : Event)
      (r : DomainResult) (context : DecisionContext) (c : Choice)
      (valid : has_valid_route r.canonical ≡ true) (decidable : is_decidable r ≡ true)
      (found : get s.experiments r.canonical.experiment_id ≡ some node)
      (evaluated : node.status ≡ ExperimentStatus.evaluated)
      (cited : last_for_experiment as_evaluation_completed events r.canonical.experiment_id
        ≡ some (e, r.canonical))
      (named : context.evaluation_event_id ≡ e.event_id)
      (fits : Fits r context.confirmations_remaining c) where
    Fits-check_experiment_decided :
        is_overspent s node r c ≡ false
        → check_experiment_decided events s (to_canonical (decision_from r context c)) ≡ ok tt
    unfolding check_experiment_decided check_cited_evaluation check_promotion check_step
        check_best_eligible decision_from to_canonical fidelity_order has_valid_route is_decidable
    Fits-check_experiment_decided allowed =
        ground (
          arith,
          fits.promotes,
          fits.next,
          fits.best,
          eq_iff context.evaluation_event_id e.event_id,
        )

    overspent-check_experiment_decided :
        is_overspent s node r c ≡ true
        → check_experiment_decided events s (to_canonical (decision_from r context c))
          ≡ err (transition_error "confirmation budget exceeded")
    unfolding check_experiment_decided check_cited_evaluation check_promotion check_step
        check_best_eligible decision_from to_canonical fidelity_order has_valid_route is_decidable
    overspent-check_experiment_decided overspent =
        ground (
          arith,
          fits.promotes,
          fits.next,
          fits.best,
          eq_iff context.evaluation_event_id e.event_id,
        )

  Fits-is_valid_promotion :
      (r : DomainResult) (context : DecisionContext) (c : Choice)
      → Fits r context.confirmations_remaining c
      → is_valid_promotion (to_canonical (decision_from r context c)) ≡ true
  unfolding is_valid_promotion to_canonical decision_from
  Fits-is_valid_promotion r context c fits = ground (arith, fits.promotes, fits.best)

  -- the decision promotes a full run, which the state machine refuses: of the confirmations of the
  -- node, some are not in the seed evidence of its latest evaluation
  pub record IsRefused (l : List Event) (s : RunState) (node : ExperimentNode) (r : DomainResult)
      (d : DomainDecision) : Type 0 where
    pub promotes : d.decision.decision ≡ ExperimentDecisionKind.promote
    pub full_run : d.decision.fidelity_completed ≡ Fidelity.full
    pub spent : s.max_confirmation_attempts ≤ node.confirmation_count
    pub dropped : length r.canonical.seed_evidence_event_ids < node.confirmation_count
    pub refused :
        validate_transition l (EventPayload.experiment_decided (to_canonical d))
        ≡ err (transition_error "confirmation budget exceeded")

  -- For a result that gets a decision, `decide` returns one on the context that the controller builds,
  -- and the schema's rules on promotions and best eligibility hold of it. In a running run whose node
  -- is evaluated with that result as its latest evaluation, the state machine accepts the decision,
  -- with one exception: it promotes a full run although the node has used all its confirmations, of
  -- which the seed evidence has fewer, and is then refused for the exceeded budget.
  pub decision_context-validate_transition :
      (l : List Event) (s : RunState) (node : ExperimentNode) (e : Event) (cause : String)
      (r : DomainResult)
      → project l ≡ ok s
      → s.status ≡ RunStatus.running
      → get s.experiments r.canonical.experiment_id ≡ some node
      → node.status ≡ ExperimentStatus.evaluated
      → last_for_experiment as_evaluation_completed l r.canonical.experiment_id
        ≡ some (e, r.canonical)
      → has_valid_route r.canonical ≡ true
      → is_decidable r ≡ true
      → (d : DomainDecision) × (decide r
            (decision_context r s.max_confirmation_attempts e.event_id cause)
          ≡ ok d)
        × (is_valid_promotion (to_canonical d) ≡ true)
        × ((validate_transition l (EventPayload.experiment_decided (to_canonical d)) ≡ ok tt)
            ⊎ IsRefused l s node r d)
  unfolding check_payload is_run_started decision_context decision_from
  decision_context-validate_transition l s node e cause r p running found evaluated cited valid
        decidable =
      let context = decision_context r s.max_confirmation_attempts e.event_id cause in
      let (c, chosen) = choose-returns r context.confirmations_remaining valid decidable in
      let fits = choose-Fits r context.confirmations_remaining c valid chosen in
      let payload = EventPayload.experiment_decided (to_canonical (decision_from r context c)) in
      (
        decision_from r context c,
        decide-eq-ok r context c valid decidable refl chosen,
        Fits-is_valid_promotion r context c fits,
        elim (Bool-cases (is_overspent s node r c)) [
          | inr allowed ↦ inl (
              check_payload-validate_transition l s payload p running refl (
                Fits-check_experiment_decided l s node e r context c valid decidable found evaluated
                  cited refl fits allowed))
          | inl overspent ↦ inr (record {
            promotes = ground arith;
            full_run = ground arith;
            spent = ground arith;
            dropped = ground (arith, fits.promotes, fits.paid);
            refused = check_payload-validate_transition l s payload p running refl (
                overspent-check_experiment_decided l s node e r context c valid decidable found
                  evaluated cited refl fits overspent);
          })
        ],
      )

  decide-chosen :
      (r : DomainResult) (context : DecisionContext) (d : DomainDecision)
      → decide r context ≡ ok d
      → (c : Choice) × (choose r context.confirmations_remaining ≡ ok c)
        × (decision_from r context c ≡ d)
  unfolding decide
  decide-chosen r context d h =
      let (_, h1) =
        >>-eq-ok
          (require_or (same_ids context.seed_evidence_event_ids r.canonical.seed_evidence_event_ids)
            _)
          _ h in
      let (_, h2) =
        >>-eq-ok
          (require_or
            (not (
              r.canonical.population == Population.hidden_final
              || r.canonical.fidelity == Fidelity.final))
            _)
          _ h1 in
      let (_, h3) =
        >>-eq-ok (require_or (not (r.canonical.population == Population.unbiased_audit)) _) _ h2 in
      let (_, h4) =
        >>-eq-ok (require_or (not (r.canonical.trust.verdict == TrustVerdict.no_op)) _) _ h3 in
      let (c, chosen, last) = >>=-eq-ok (choose r context.confirmations_remaining) _ h4 in
      (c, chosen, ok_injective (decision_from r context c) d last)

  -- what best eligibility stands for
  pub record IsTrustedImprovement (r : DomainResult) (d : DomainDecision) : Type 0 where
    pub accepted : d.decision.decision ≡ ExperimentDecisionKind.accept
    pub fidelity : r.canonical.fidelity ≡ Fidelity.full
    pub population : r.canonical.population ≡ Population.public_validation
    pub verdict : r.canonical.trust.verdict ≡ TrustVerdict.accepted
    pub stability : r.canonical.trust.stability ≡ Stability.confirmed
    pub integrity : r.canonical.trust.integrity ≡ Integrity.clean
    pub margin : F.flt (applied_eta r) (F.fsub (candidate_primary r) (current_best r)) ≡ true

  -- A decision makes an experiment best eligible only if it accepts a public full evaluation that was
  -- judged accepted, confirmed and clean, and its score over the seeds exceeds the current best by
  -- more than the applied margin.
  pub decide-IsTrustedImprovement :
      (r : DomainResult) (context : DecisionContext) (d : DomainDecision)
      → has_valid_route r.canonical ≡ true
      → decide r context ≡ ok d
      → d.decision.best_eligible ≡ true
      → IsTrustedImprovement r d
  unfolding decision_from
  decide-IsTrustedImprovement r context d valid h eligible =
      let (c, chosen, made) = decide-chosen r context d h in
      let fits = choose-Fits r context.confirmations_remaining c valid chosen in
      let same : (c.best_eligible ≡ true) =
        ap (λ (x : DomainDecision). x.decision.best_eligible) made ∙ eligible in
      subst (IsTrustedImprovement r) made (record {
        accepted = ground (arith, fits.best);
        fidelity = ground (arith, fits.best);
        population = ground (arith, fits.best);
        verdict = ground (arith, fits.best);
        stability = ground (arith, fits.best);
        integrity = ground (arith, fits.best);
        margin = ground (arith, fits.best);
      })
