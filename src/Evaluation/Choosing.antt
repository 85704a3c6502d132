-- ===== src/Evaluation/Choosing.antt =====
-- The tests of `decide` of src/tacorank/evaluation/decisions.py, in their order.
use tacorank.Prelude.{
  ◌orelse◌, leb, if◌then◌else◌, ◌==◌, nat_eq, string_eq, option_eq, elem, int_eq, ℕ, String, Bool,
  true, false, ◌&&◌, ◌||◌, Option, none, some,
}
use tacorank.Evaluation.Seeds.{zero_score}
use tacorank.Float.{Floats, Fl}
use tacorank.Result.{Result, require_or, ok, value_error, ◌>>◌}
use tacorank.Schemas.Judgements.{
  TrustVerdict, trust_verdict_eq, Stability, stability_eq, Integrity, integrity_eq,
  ExperimentDecisionKind, experiment_decision_kind_eq, lesson_origin_eq, lesson_category_eq,
  lesson_status_eq, token_measurement_eq,
}
use tacorank.Schemas.Runs.{
  Fidelity, fidelity_eq, run_outcome_eq, recovery_action_eq, Population, population_eq,
  failure_stage_eq, role_eq,
}
use tacorank.Schemas.Scores.{TrustAssessment, EvaluationResult}
use tacorank.Schemas.Statuses.{run_status_eq, experiment_status_eq}

module _ ⦃F : Floats⦄ where
  -- `EvaluationResult` of src/tacorank/evaluation/types.py: its canonical form, and the deltas of the
  -- primary score that the decision reads
  pub record DomainResult : Type 0 where
    pub canonical : EvaluationResult
    pub parent_delta : Fl
    pub previous_best_delta : Fl

  -- the arguments of `_decision`
  pub record Choice : Type 0 where
    pub action : ExperimentDecisionKind
    pub reason : String
    pub parent_eligible : Bool
    pub best_eligible : Bool
    pub next_fidelity : Option Fidelity

  abbrev pub terminal : ExperimentDecisionKind → String → Choice
  terminal action reason = record {
    action = action;
    reason = reason;
    parent_eligible = false;
    best_eligible = false;
    next_fidelity = none;
  }

  abbrev pub promotion : String → Choice
  promotion reason = record {
    action = ExperimentDecisionKind.promote;
    reason = reason;
    parent_eligible = false;
    best_eligible = false;
    next_fidelity = some Fidelity.full;
  }

  module _ (r : DomainResult) where
    abbrev trust : TrustAssessment
    trust = r.canonical.trust

    abbrev primary : Fl
    primary = r.canonical.metric_set.primary_score

    abbrev pub is_clean : Bool
    is_clean = trust.integrity == Integrity.clean

    abbrev pub is_within_noise : Bool
    is_within_noise = elem "WITHIN_NOISE" trust.flags

    -- trust.eta_applied or 0.0
    abbrev pub applied_eta : Fl
    applied_eta = elim trust.eta_applied [ some x ↦ x | none ↦ zero_score ]

    abbrev pub current_best : Fl
    current_best = F.fsub primary r.previous_best_delta

    abbrev pub parent_primary : Fl
    parent_primary = F.fsub primary r.parent_delta

    abbrev pub candidate_primary : Fl
    candidate_primary = elim trust.seed_mean [ some x ↦ x | none ↦ primary ]

    abbrev pub improves_best : Bool
    improves_best = F.flt applied_eta (F.fsub candidate_primary current_best)

    unfoldable pub proxy_choice : Choice
    unfolding elem
    proxy_choice =
        if trust.verdict == TrustVerdict.accepted && is_clean
        then promotion "PROXY_PASSED"
        else if trust.verdict == TrustVerdict.inconclusive && is_clean && is_within_noise
        then (if F.fle r.parent_delta zero_score
            then terminal ExperimentDecisionKind.prune "PROXY_NON_POSITIVE_WITHIN_NOISE"
            else promotion "PROXY_WITHIN_NOISE")
        else if trust.verdict == TrustVerdict.negative
        then terminal ExperimentDecisionKind.prune "PROXY_FAILED"
        else terminal ExperimentDecisionKind.invalid "INTEGRITY_UNVERIFIED"

    unfoldable pub single_seed_choice : ℕ → Option Choice
    single_seed_choice remaining =
        if trust.verdict == TrustVerdict.accepted && trust.stability == Stability.single_seed
        then some (
            if leb remaining 0
            then terminal ExperimentDecisionKind.reject "CONFIRMATION_BUDGET_EXHAUSTED"
            else promotion "CONFIRMATION_REQUIRED")
        else none

    unfoldable pub confirmed_choice : Option Choice
    confirmed_choice =
        if trust.verdict == TrustVerdict.accepted
          && trust.stability == Stability.confirmed
          && is_clean
        then some (record {
          action = ExperimentDecisionKind.accept;
          reason = if improves_best then "TRUSTED_IMPROVEMENT" else "TRUSTED_PARENT_ONLY";
          parent_eligible = true;
          best_eligible = improves_best;
          next_fidelity = none;
        })
        else none

    -- aggregate_parent_delta > 0.0 and trust.seed_mean >= current_best - applied_eta
    unfoldable pub is_tolerated : Option Fl → Bool
    is_tolerated none = false
    is_tolerated (some mean) =
        F.flt zero_score (F.fsub mean parent_primary)
        && F.fle (F.fsub current_best applied_eta) mean

    unfoldable pub exploratory_choice : Option Choice
    unfolding elem is_tolerated
    exploratory_choice =
        if trust.verdict == TrustVerdict.inconclusive
          && trust.stability == Stability.confirmed
          && is_clean
          && is_within_noise
          && is_tolerated trust.seed_mean
        then some (record {
          action = ExperimentDecisionKind.accept;
          reason = "EXPLORATORY_PARENT_WITHIN_TOLERANCE";
          parent_eligible = true;
          best_eligible = false;
          next_fidelity = none;
        })
        else none

    -- `reason_by_verdict`, and its default
    unfoldable pub reason_by_verdict : TrustVerdict → String
    reason_by_verdict TrustVerdict.inconclusive =
        if trust.stability == Stability.unstable then "SEED_VARIANCE_HIGH" else "WITHIN_NOISE"
    reason_by_verdict TrustVerdict.negative = "CLEAR_REGRESSION"
    reason_by_verdict TrustVerdict.redundant = "SIGNAL_ALREADY_CAPTURED"
    reason_by_verdict _ = "INTEGRITY_UNVERIFIED"

    unfoldable pub rejected_choice : Choice
    unfolding reason_by_verdict
    rejected_choice =
        terminal
          (if trust.verdict == TrustVerdict.suspicious
            then ExperimentDecisionKind.invalid
            else ExperimentDecisionKind.reject)
          (reason_by_verdict trust.verdict)

    unfoldable pub full_choice : ℕ → Choice
    unfolding single_seed_choice confirmed_choice exploratory_choice rejected_choice
    full_choice remaining =
        elim (single_seed_choice remaining orelse confirmed_choice orelse exploratory_choice) [
          | some choice ↦ choice
          | none ↦ rejected_choice
        ]

    abbrev pub is_proxy : Bool
    is_proxy =
        r.canonical.fidelity == Fidelity.proxy
        || r.canonical.population == Population.internal_proxy

    unfoldable pub choose : ℕ → Result Choice
    unfolding proxy_choice full_choice
    choose remaining = if is_proxy then ok proxy_choice else (do
      require_or
          (r.canonical.population == Population.public_validation
            && r.canonical.fidelity == Fidelity.full)
          (value_error "full experiment decisions require public validation")
      ok (full_choice remaining))
