-- ===== src/Evaluation/Assess.antt =====
-- `assess_trust` of src/tacorank/evaluation/trust.py: its tests in order.
use tacorank.Prelude.{
  ◌orelse◌, ltb, leb, if◌then◌else◌, ◌==◌, nat_eq, string_eq, option_eq, length, join, elem, int_eq,
  String, Bool, not, ◌&&◌, ◌||◌, Option, none, some, List, [], ◌∷◌,
}
use tacorank.Evaluation.Seeds.{zero_score, fmax, SeedAggregate, aggregate_seeds}
use tacorank.Evaluation.Trust.{
  TrustConfig, TrustEvidence, is_some_and, is_no_op, is_positive, directional_flags, hard_flags,
  assessment,
}
use tacorank.Float.{Floats, Fl}
use tacorank.Result.{Result, ok, ◌>>=◌}
use tacorank.Schemas.Judgements.{
  TrustVerdict, trust_verdict_eq, Stability, stability_eq, Integrity, integrity_eq,
  experiment_decision_kind_eq, lesson_origin_eq, lesson_category_eq, lesson_status_eq,
  token_measurement_eq,
}
use tacorank.Schemas.Runs.{
  Fidelity, fidelity_eq, run_outcome_eq, recovery_action_eq, Population, population_eq,
  failure_stage_eq, role_eq,
}
use tacorank.Schemas.Scores.{TrustAssessment}
use tacorank.Schemas.Statuses.{run_status_eq, experiment_status_eq}

module _ ⦃F : Floats⦄ (e : TrustEvidence) (config : TrustConfig) (aggregate : SeedAggregate) where
  abbrev pub judge : TrustVerdict → Stability → Integrity → List String → Option TrustAssessment
  judge verdict stability integrity noted =
      some (assessment aggregate verdict stability integrity noted)

  abbrev pub suspect : Integrity → List String → Option TrustAssessment
  suspect integrity noted = judge TrustVerdict.suspicious Stability.not_applicable integrity noted

  unfoldable pub gate_stage : Option TrustAssessment
  unfolding hard_flags assessment
  gate_stage =
      if ltb 0 (length (hard_flags e))
      then suspect Integrity.compromised (hard_flags e)
      else if e.alignment_suspect
      then suspect Integrity.inconclusive ("PREDICTION_ALIGNMENT_SUSPECT" ∷ [])
      else if is_no_op e.prediction_change e.parent_delta config.no_op
      then judge TrustVerdict.no_op Stability.not_applicable Integrity.clean
          ("NO_PREDICTION_CHANGE" ∷ [])
      else none

  abbrev pub unique_fraction : Fl
  unique_fraction = elim e.score_unique_fraction [
    | some x ↦ x
    | none ↦ e.prediction_change.unique_score_fraction
  ]

  -- the experiment that the deltas correlate with, where its id is given and not empty
  abbrev suffix : String
  suffix = elim e.delta_correlation_experiment_id [
    | none ↦ ""
    | some i ↦ if i == "" then "" else join ":" i
  ]

  -- "DELTA_VECTOR_REDUNDANT:%.4f%s" % (r, suffix)
  abbrev redundancy_flag : Fl → String
  redundancy_flag r = join "DELTA_VECTOR_REDUNDANT:" (join (F.fixed4 r) suffix)

  unfoldable pub suspicion_stage : Option TrustAssessment
  unfolding assessment
  suspicion_stage =
      if F.flt unique_fraction config.minimum_unique_score_fraction
      then suspect Integrity.compromised ("DEGENERATE_SCORES" ∷ [])
      else if F.flt config.too_good_delta e.parent_delta
      then suspect Integrity.inconclusive ("TOO_GOOD_TO_BE_TRUE" ∷ [])
      else if is_positive e.parent_delta
          && is_some_and e.unbiased_audit_delta (λ d. F.fle d zero_score)
      then suspect Integrity.inconclusive ("UNBIASED_AUDIT_SIGN_CONFLICT" ∷ [])
      else elim e.delta_correlation [
        | none ↦ none
        | some r ↦
            if F.flt config.redundancy_correlation r
            then judge TrustVerdict.redundant Stability.not_applicable Integrity.clean
                (redundancy_flag r ∷ [])
            else none
      ]

  abbrev pub observed_flags : List String
  observed_flags = directional_flags e config

  unfoldable pub policy_stage : Option TrustAssessment
  unfolding assessment elem
  policy_stage =
      if elem "CONTRACT_DIRECTION_POLICY_FAILED" observed_flags
      then judge TrustVerdict.inconclusive Stability.not_applicable Integrity.clean observed_flags
      else none

  unfoldable pub proxy_stage : Option TrustAssessment
  unfolding assessment
  proxy_stage =
      if e.population == Population.internal_proxy || e.fidelity == Fidelity.proxy
      then (if F.flt config.proxy_improvement_threshold e.parent_delta
          then judge TrustVerdict.accepted Stability.not_applicable Integrity.clean observed_flags
          else if F.flt e.parent_delta (F.fneg config.proxy_improvement_threshold)
          then judge TrustVerdict.negative Stability.not_applicable Integrity.clean observed_flags
          else judge TrustVerdict.inconclusive Stability.not_applicable Integrity.clean
              ("WITHIN_NOISE" ∷ observed_flags))
      else none

  -- two seeds with one score
  abbrev pub is_deterministic_pair : Bool
  is_deterministic_pair =
      leb 2 (length aggregate.scores) && F.feq aggregate.standard_deviation zero_score

  unfoldable pub seed_stage : Option TrustAssessment
  unfolding assessment
  seed_stage =
      if ltb (length aggregate.scores) config.required_seed_count && not is_deterministic_pair
      then judge TrustVerdict.accepted Stability.single_seed Integrity.clean observed_flags
      else if F.flt (F.fmul config.unstable_std_multiplier config.baseline_seed_std)
          aggregate.standard_deviation
      then judge TrustVerdict.inconclusive Stability.unstable Integrity.clean
          ("SEED_INSTABILITY" ∷ observed_flags)
      else none

  abbrev pub confirm : TrustVerdict → List String → TrustAssessment
  confirm verdict notes = assessment aggregate verdict Stability.confirmed Integrity.clean notes

  unfoldable pub confirmed_stage : TrustAssessment
  unfolding assessment
  confirmed_stage =
      let delta = F.fsub aggregate.seed_mean e.parent_primary in
      if F.fle (F.fabs delta) aggregate.eta
      then (if F.flt (fmax (F.fmul (F.lit 2 0) aggregate.standard_error) (F.lit 1 12)) delta
          then confirm TrustVerdict.accepted ("CONFIRMED_POSITIVE_BELOW_LADDER" ∷ observed_flags)
          else confirm TrustVerdict.inconclusive ("WITHIN_NOISE" ∷ observed_flags))
      else if F.flt delta (F.fneg aggregate.eta)
      then confirm TrustVerdict.negative observed_flags
      else confirm TrustVerdict.accepted observed_flags

  -- the tests before the one on the confirmed mean
  unfoldable pub early_stage : Option TrustAssessment
  unfolding gate_stage suspicion_stage policy_stage proxy_stage seed_stage
  early_stage =
      gate_stage orelse suspicion_stage orelse policy_stage orelse proxy_stage orelse seed_stage

  unfoldable pub assess : TrustAssessment
  unfolding early_stage confirmed_stage
  assess = elim early_stage [ none ↦ confirmed_stage | some a ↦ a ]

module _ ⦃F : Floats⦄ where
  unfoldable pub assess_trust : TrustEvidence → TrustConfig → Result TrustAssessment
  unfolding aggregate_seeds assess
  assess_trust e config = do
    aggregate ← aggregate_seeds config.eta_floor e.seed_scores
    ok (assess e config aggregate)
