-- ===== src/Schemas/Scores.antt =====
-- The records of src/tacorank/schemas.py that hold scores, over Python's `float`.
use tacorank.Prelude.{ℕ, ℤ, Option, List, String}
use tacorank.Float.{Floats, Fl}
use tacorank.Schemas.Runs.{Fidelity, Population}
use tacorank.Schemas.Judgements.{TrustVerdict, Stability, Integrity}

module _ ⦃F : Floats⦄ where
  pub record MetricSet : Type 0 where
    pub primary_metric_name : String
    pub primary_score : Fl

  pub record TrustAssessment : Type 0 where
    pub verdict : TrustVerdict
    pub stability : Stability
    pub integrity : Integrity
    pub flags : List String
    pub eta_applied : Option Fl
    pub seed_mean : Option Fl
    pub seed_stderr : Option Fl
    pub seed_count : ℕ

  pub record EvaluationResult : Type 0 where
    pub run_id : String
    pub experiment_id : String
    pub attempt : ℕ
    pub population : Population
    pub fidelity : Fidelity
    pub seed : ℤ
    pub public_query_index : Option ℕ
    pub evaluator_sha256 : String
    pub contract_sha256 : String
    pub metric_set : MetricSet
    pub trust : TrustAssessment
    pub seed_evidence_event_ids : List String
