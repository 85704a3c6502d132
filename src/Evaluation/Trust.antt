-- ===== src/Evaluation/Trust.antt =====
-- src/tacorank/evaluation/trust.py, and `is_no_op` of src/tacorank/evaluation/no_op.py. The score and
-- the id in a redundancy flag are left out of its text.
use tacorank.Prelude.{
  leb, if◌then◌else◌, length, join, any, ℕ, String, Bool, true, false, not, ◌&&◌, ◌||◌, Option,
  none, some, List, [], ◌∷◌, ◌++◌, map,
}
use tacorank.Evaluation.Seeds.{zero_score, SeedAggregate}
use tacorank.Float.{Floats, Fl}
use tacorank.Schemas.Judgements.{TrustVerdict, Stability, Integrity}
use tacorank.Schemas.Runs.{Fidelity, Population}
use tacorank.Schemas.Scores.{TrustAssessment}

module _ ⦃F : Floats⦄ where
  pub record PredictionChange : Type 0 where
    pub spearman_vs_parent : Option Fl
    pub changed_row_fraction : Option Fl
    pub unique_score_fraction : Fl
    pub within_user_rank_change : Option Fl

  pub record NoOpConfig : Type 0 where
    pub spearman_threshold : Fl
    pub changed_row_fraction_max : Fl
    pub primary_delta_tolerance : Fl
    pub within_user_rank_change_min : Fl

  pub record TrustConfig : Type 0 where
    pub eta_floor : Fl
    pub required_seed_count : ℕ
    pub baseline_seed_std : Fl
    pub unstable_std_multiplier : Fl
    pub too_good_delta : Fl
    pub minimum_unique_score_fraction : Fl
    pub redundancy_correlation : Fl
    pub gain_concentration_threshold : Fl
    pub drift_slope_threshold : Fl
    pub validation_arm_gap_threshold : Fl
    pub proxy_improvement_threshold : Fl
    pub require_non_decreasing_metrics : Bool
    pub no_op : NoOpConfig

  pub record TrustEvidence : Type 0 where
    pub population : Population
    pub fidelity : Fidelity
    pub parent_primary : Fl
    pub parent_delta : Fl
    pub metric_deltas : List Fl
    pub prediction_change : PredictionChange
    pub seed_scores : List Fl
    pub output_gate_evidence : Bool
    pub evaluator_hash_matches : Bool
    pub contract_hash_matches : Bool
    pub forbidden_inputs : List String
    pub alignment_suspect : Bool
    pub internal_proxy_delta : Option Fl
    pub unbiased_audit_delta : Option Fl
    pub val_a_delta : Option Fl
    pub val_b_delta : Option Fl
    pub delta_correlation : Option Fl
    pub delta_correlation_experiment_id : Option String
    pub score_unique_fraction : Option Fl
    pub gain_concentration_top10pct : Option Fl
    pub drift_primary_slope : Option Fl

  abbrev pub is_some_and : Option Fl → (Fl → Bool) → Bool
  is_some_and none test = false
  is_some_and (some x) test = test x

  -- with both measures of the change at hand
  unfoldable pub qualifies_no_op : PredictionChange → NoOpConfig → Fl → Fl → Bool
  qualifies_no_op change config rank_correlation changed = elim change.within_user_rank_change [
    | some r ↦ F.fle r config.within_user_rank_change_min
    | none ↦
        F.fle config.spearman_threshold rank_correlation
        || F.fle changed config.changed_row_fraction_max
  ]

  unfoldable pub is_no_op : PredictionChange → Fl → NoOpConfig → Bool
  unfolding qualifies_no_op
  is_no_op change parent_delta config = elim change.spearman_vs_parent [
    | none ↦ false
    | some rank_correlation ↦ elim change.changed_row_fraction [
      | none ↦ false
      | some changed ↦
          not (F.flt config.primary_delta_tolerance (F.fabs parent_delta))
          && qualifies_no_op change config rank_correlation changed
    ]
  ]

  abbrev pub flag_if : Bool → String → List String
  flag_if true flag = flag ∷ []
  flag_if false flag = []

  abbrev pub is_negative : Fl → Bool
  is_negative x = F.flt x zero_score

  abbrev pub is_positive : Fl → Bool
  is_positive x = F.flt zero_score x

  -- min(deltas) < 0 < max(deltas), on finite deltas
  abbrev pub has_mixed_signs : List Fl → Bool
  has_mixed_signs deltas = any is_negative deltas && any is_positive deltas

  abbrev pub arm_flags : TrustConfig → Option Fl → Option Fl → List String
  arm_flags config (some a) (some b) =
      flag_if (F.fle (F.fmul a b) zero_score) "VALIDATION_ARM_SIGN_CONFLICT"
      ++ flag_if (F.flt config.validation_arm_gap_threshold (F.fabs (F.fsub a b)))
          "VALIDATION_ARM_GAP"
  arm_flags config _ _ = []

  unfoldable pub directional_flags : TrustEvidence → TrustConfig → List String
  unfolding any
  directional_flags e config =
      let mixed = has_mixed_signs e.metric_deltas in
      flag_if (is_some_and e.internal_proxy_delta (λ d. is_negative (F.fmul e.parent_delta d)))
        "PROXY_FULL_DIRECTION_CONFLICT"
      ++ (flag_if mixed "METRIC_DIRECTION_CONFLICT"
          ++ (flag_if (mixed && config.require_non_decreasing_metrics)
                "CONTRACT_DIRECTION_POLICY_FAILED"
              ++ (flag_if
                    (is_some_and e.gain_concentration_top10pct
                      (λ g. F.flt config.gain_concentration_threshold g))
                    "FRAGILE_CONCENTRATED_GAIN"
                  ++ (flag_if
                        (is_some_and e.drift_primary_slope
                          (λ d. F.flt config.drift_slope_threshold (F.fabs d)))
                        "DRIFT_DETECTED"
                      ++ arm_flags config e.val_a_delta e.val_b_delta))))

  unfoldable pub hard_flags : TrustEvidence → List String
  hard_flags e =
      flag_if (not e.evaluator_hash_matches) "EVALUATOR_HASH_MISMATCH"
      ++ (flag_if (not e.contract_hash_matches) "CONTRACT_HASH_MISMATCH"
          ++ (flag_if (not e.output_gate_evidence) "OUTPUT_GATE_EVIDENCE_MISSING"
              ++ map (λ name. join "FORBIDDEN_INPUT_DETECTED:" name) e.forbidden_inputs))

  -- `_assessment`
  unfoldable pub assessment :
      SeedAggregate → TrustVerdict → Stability → Integrity → List String → TrustAssessment
  assessment aggregate verdict stability integrity flags =
      let seed_count = length aggregate.scores in
      record {
        verdict = verdict;
        stability = stability;
        integrity = integrity;
        flags = flags;
        eta_applied = some aggregate.eta;
        seed_mean = if leb 2 seed_count then some aggregate.seed_mean else none;
        seed_stderr = if leb 2 seed_count then some aggregate.standard_error else none;
        seed_count = seed_count;
      }
