-- ===== src/Evaluation/Consistency.antt =====
-- The assessments of src/tacorank/evaluation/trust.py against the schema of src/tacorank/schemas.py.
use tacorank.Prelude.{
  orelse_lem, orelse-eq-none, ltb, leb, ◌==◌, nat_eq, string_eq, option_eq, bool_beq, Option-cases,
  length, int_eq, ◌≤◌, ◌<◌, ◌≡◌, subst, inl, inr, Bool, true, false, not, ◌&&◌, ◌||◌, Option, none,
  some, List, arith,
}
use tacorank.Evaluation.Assess.{
  gate_stage, suspicion_stage, policy_stage, proxy_stage, seed_stage, confirmed_stage, early_stage,
  assess, assess_trust,
}
use tacorank.Evaluation.Seeds.{SeedAggregate, are_finite, aggregate_of, aggregate_seeds}
use tacorank.Evaluation.Trust.{TrustConfig, TrustEvidence, assessment}
use tacorank.Float.{Floats, Fl}
use tacorank.Result.{require_or, >>=-eq-ok, >>-eq-ok, require_or-eq-ok, ok_injective, ok}
use tacorank.Schemas.Judgements.{
  TrustVerdict, trust_verdict_eq, Stability, stability_eq, Integrity, integrity_eq,
  experiment_decision_kind_eq, lesson_origin_eq, lesson_category_eq, lesson_status_eq,
  token_measurement_eq,
}
use tacorank.Schemas.Runs.{
  fidelity_eq, run_outcome_eq, recovery_action_eq, population_eq, failure_stage_eq, role_eq,
}
use tacorank.Schemas.Scores.{TrustAssessment}
use tacorank.Schemas.Statuses.{run_status_eq, experiment_status_eq}

module _ ⦃F : Floats⦄ where
  abbrev is_some : Option Fl → Bool
  is_some none = false
  is_some (some _) = true

  -- `TrustAssessment.validate_consistency`, with the lower bound on the seed count
  unfoldable pub is_consistent : TrustAssessment → Bool
  is_consistent t =
      (not (t.integrity == Integrity.compromised) || t.verdict == TrustVerdict.suspicious)
      && (not (t.verdict == TrustVerdict.no_op) || t.stability == Stability.not_applicable)
      && bool_beq (is_some t.seed_mean) (is_some t.seed_stderr)
      && (not (is_some t.seed_mean || is_some t.seed_stderr) || leb 2 t.seed_count)
      && leb 1 t.seed_count

  -- the seed rule of `EvaluationResult.validate_evaluation_route` on its assessment
  unfoldable pub has_seed_evidence : TrustAssessment → Bool
  has_seed_evidence t =
      not (t.stability == Stability.confirmed || t.stability == Stability.unstable)
      || (leb 2 t.seed_count && is_some t.seed_mean && is_some t.seed_stderr)

  pub record IsSound (t : TrustAssessment) : Type 0 where
    pub consistent : is_consistent t ≡ true
    pub seeds : has_seed_evidence t ≡ true

  module _ (e : TrustEvidence) (config : TrustConfig) (aggregate : SeedAggregate)
      (counted : 0 < length aggregate.scores) (a : TrustAssessment) where
    gate_stage-IsSound : gate_stage e config aggregate ≡ some a → IsSound a
    unfolding gate_stage is_consistent has_seed_evidence assessment
    gate_stage-IsSound h = record { consistent = ground arith; seeds = ground arith }

    suspicion_stage-IsSound : suspicion_stage e config aggregate ≡ some a → IsSound a
    unfolding suspicion_stage is_consistent has_seed_evidence assessment
    suspicion_stage-IsSound h = record { consistent = ground arith; seeds = ground arith }

    policy_stage-IsSound : policy_stage e config aggregate ≡ some a → IsSound a
    unfolding policy_stage is_consistent has_seed_evidence assessment
    policy_stage-IsSound h = record { consistent = ground arith; seeds = ground arith }

    proxy_stage-IsSound : proxy_stage e config aggregate ≡ some a → IsSound a
    unfolding proxy_stage is_consistent has_seed_evidence assessment
    proxy_stage-IsSound h = record { consistent = ground arith; seeds = ground arith }

    seed_stage-IsSound :
        2 ≤ config.required_seed_count → seed_stage e config aggregate ≡ some a → IsSound a
    unfolding seed_stage is_consistent has_seed_evidence assessment
    seed_stage-IsSound two h = record { consistent = ground arith; seeds = ground arith }

    early_stage-IsSound :
        2 ≤ config.required_seed_count → early_stage e config aggregate ≡ some a → IsSound a
    unfolding early_stage
    early_stage-IsSound two = orelse_lem _ _ gate_stage-IsSound (
        orelse_lem _ _ suspicion_stage-IsSound (
          orelse_lem _ _ policy_stage-IsSound
            (orelse_lem _ _ proxy_stage-IsSound (seed_stage-IsSound two))))

  module _ (e : TrustEvidence) (config : TrustConfig) (aggregate : SeedAggregate)
      (counted : 0 < length aggregate.scores) (two : 2 ≤ config.required_seed_count) where
    seed_stage-eq-none : seed_stage e config aggregate ≡ none → 2 ≤ length aggregate.scores
    unfolding seed_stage
    seed_stage-eq-none h = ground arith

    confirmed_stage-IsSound :
        2 ≤ length aggregate.scores → IsSound (confirmed_stage e config aggregate)
    unfolding confirmed_stage is_consistent has_seed_evidence assessment
    confirmed_stage-IsSound h = record { consistent = ground arith; seeds = ground arith }

    early_stage-eq-none : early_stage e config aggregate ≡ none → 2 ≤ length aggregate.scores
    unfolding early_stage
    early_stage-eq-none h =
        let (_, h1) = orelse-eq-none (gate_stage e config aggregate) _ h in
        let (_, h2) = orelse-eq-none (suspicion_stage e config aggregate) _ h1 in
        let (_, h3) = orelse-eq-none (policy_stage e config aggregate) _ h2 in
        seed_stage-eq-none ((orelse-eq-none (proxy_stage e config aggregate) _ h3).1)

    assess-IsSound : IsSound (assess e config aggregate)
    unfolding assess
    assess-IsSound = elim (Option-cases (early_stage e config aggregate)) [
      | inl h ↦ rw (assess, h) (confirmed_stage-IsSound (early_stage-eq-none h))
      | inr (a, h) ↦ rw (assess, h) (early_stage-IsSound e config aggregate counted a two h)
    ]

  aggregate_seeds_lem :
      (eta_floor : Fl) (scores : List Fl) (g : SeedAggregate)
      → aggregate_seeds eta_floor scores ≡ ok g
      → 0 < length g.scores
  unfolding aggregate_seeds aggregate_of
  aggregate_seeds_lem eta_floor scores g h =
      let (checked, last) =
        >>-eq-ok (require_or (ltb 0 (length scores) && are_finite scores) _) _ h in
      let counted = require_or-eq-ok (ltb 0 (length scores) && are_finite scores) _ checked in
      subst (λ (x : SeedAggregate). 0 < length x.scores)
        (ok_injective (aggregate_of eta_floor scores) g last) (ground arith)

  -- Where at least two seeds are required, as by default, every assessment keeps the rules of its
  -- schema: compromised integrity is suspicious, a no-op has no stability, mean and error of the seeds
  -- come together and from two seeds, and a confirmed or unstable result has both.
  pub assess_trust-IsSound :
      (e : TrustEvidence) (config : TrustConfig) (a : TrustAssessment)
      → 2 ≤ config.required_seed_count
      → assess_trust e config ≡ ok a
      → IsSound a
  unfolding assess_trust
  assess_trust-IsSound e config a two h =
      let (aggregate, made, last) =
        >>=-eq-ok (aggregate_seeds config.eta_floor e.seed_scores)
          (λ aggregate. ok (assess e config aggregate)) h in
      subst IsSound (ok_injective _ a last) (
        assess-IsSound e config aggregate
          (aggregate_seeds_lem config.eta_floor e.seed_scores aggregate made) two)
