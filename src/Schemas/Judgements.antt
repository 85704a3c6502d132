-- ===== src/Schemas/Judgements.antt =====
-- The enumerations of src/tacorank/schemas.py that evaluations and lessons carry.
use tacorank.Prelude.{nat_beq, Eq, ℕ, ◌≡◌, ◌↔◌, true, arith}

pub data TrustVerdict : Type 0 where
  accepted inconclusive negative no_op suspicious redundant : TrustVerdict

abbrev pub trust_verdict_code : TrustVerdict → ℕ
trust_verdict_code TrustVerdict.accepted = 0
trust_verdict_code TrustVerdict.inconclusive = 1
trust_verdict_code TrustVerdict.negative = 2
trust_verdict_code TrustVerdict.no_op = 3
trust_verdict_code TrustVerdict.suspicious = 4
trust_verdict_code TrustVerdict.redundant = 5

pub trust_verdict_iff :
    (a b : TrustVerdict) → (nat_beq (trust_verdict_code a) (trust_verdict_code b) ≡ true) ↔ (a ≡ b)
trust_verdict_iff a b = ground arith

instance abbrev pub trust_verdict_eq : Eq TrustVerdict
trust_verdict_eq = record {
  beq = λ a b. nat_beq (trust_verdict_code a) (trust_verdict_code b);
  beq_iff = trust_verdict_iff;
}

pub data Stability : Type 0 where
  single_seed confirmed unstable not_applicable : Stability

abbrev pub stability_code : Stability → ℕ
stability_code Stability.single_seed = 0
stability_code Stability.confirmed = 1
stability_code Stability.unstable = 2
stability_code Stability.not_applicable = 3

pub stability_iff :
    (a b : Stability) → (nat_beq (stability_code a) (stability_code b) ≡ true) ↔ (a ≡ b)
stability_iff a b = ground arith

instance abbrev pub stability_eq : Eq Stability
stability_eq = record {
  beq = λ a b. nat_beq (stability_code a) (stability_code b);
  beq_iff = stability_iff;
}

pub data Integrity : Type 0 where
  clean compromised inconclusive : Integrity

abbrev pub integrity_code : Integrity → ℕ
integrity_code Integrity.clean = 0
integrity_code Integrity.compromised = 1
integrity_code Integrity.inconclusive = 2

pub integrity_iff :
    (a b : Integrity) → (nat_beq (integrity_code a) (integrity_code b) ≡ true) ↔ (a ≡ b)
integrity_iff a b = ground arith

instance abbrev pub integrity_eq : Eq Integrity
integrity_eq = record {
  beq = λ a b. nat_beq (integrity_code a) (integrity_code b);
  beq_iff = integrity_iff;
}

pub data ExperimentDecisionKind : Type 0 where
  promote accept reject prune invalid : ExperimentDecisionKind

abbrev pub experiment_decision_kind_code : ExperimentDecisionKind → ℕ
experiment_decision_kind_code ExperimentDecisionKind.promote = 0
experiment_decision_kind_code ExperimentDecisionKind.accept = 1
experiment_decision_kind_code ExperimentDecisionKind.reject = 2
experiment_decision_kind_code ExperimentDecisionKind.prune = 3
experiment_decision_kind_code ExperimentDecisionKind.invalid = 4

pub experiment_decision_kind_iff :
    (a b : ExperimentDecisionKind)
    → (nat_beq (experiment_decision_kind_code a) (experiment_decision_kind_code b) ≡ true) ↔ (a ≡ b)
experiment_decision_kind_iff a b = ground arith

instance abbrev pub experiment_decision_kind_eq : Eq ExperimentDecisionKind
experiment_decision_kind_eq = record {
  beq = λ a b. nat_beq (experiment_decision_kind_code a) (experiment_decision_kind_code b);
  beq_iff = experiment_decision_kind_iff;
}

pub data LessonOrigin : Type 0 where
  operational research : LessonOrigin

abbrev pub lesson_origin_code : LessonOrigin → ℕ
lesson_origin_code LessonOrigin.operational = 0
lesson_origin_code LessonOrigin.research = 1

pub lesson_origin_iff :
    (a b : LessonOrigin) → (nat_beq (lesson_origin_code a) (lesson_origin_code b) ≡ true) ↔ (a ≡ b)
lesson_origin_iff a b = ground arith

instance abbrev pub lesson_origin_eq : Eq LessonOrigin
lesson_origin_eq = record {
  beq = λ a b. nat_beq (lesson_origin_code a) (lesson_origin_code b);
  beq_iff = lesson_origin_iff;
}

pub data LessonCategory : Type 0 where
  research_result resource_constraint implementation_constraint integrity_warning process_rule :
      LessonCategory

abbrev pub lesson_category_code : LessonCategory → ℕ
lesson_category_code LessonCategory.research_result = 0
lesson_category_code LessonCategory.resource_constraint = 1
lesson_category_code LessonCategory.implementation_constraint = 2
lesson_category_code LessonCategory.integrity_warning = 3
lesson_category_code LessonCategory.process_rule = 4

pub lesson_category_iff :
    (a b : LessonCategory)
    → (nat_beq (lesson_category_code a) (lesson_category_code b) ≡ true) ↔ (a ≡ b)
lesson_category_iff a b = ground arith

instance abbrev pub lesson_category_eq : Eq LessonCategory
lesson_category_eq = record {
  beq = λ a b. nat_beq (lesson_category_code a) (lesson_category_code b);
  beq_iff = lesson_category_iff;
}

pub data LessonStatus : Type 0 where
  active superseded stale rejected : LessonStatus

abbrev pub lesson_status_code : LessonStatus → ℕ
lesson_status_code LessonStatus.active = 0
lesson_status_code LessonStatus.superseded = 1
lesson_status_code LessonStatus.stale = 2
lesson_status_code LessonStatus.rejected = 3

pub lesson_status_iff :
    (a b : LessonStatus) → (nat_beq (lesson_status_code a) (lesson_status_code b) ≡ true) ↔ (a ≡ b)
lesson_status_iff a b = ground arith

instance abbrev pub lesson_status_eq : Eq LessonStatus
lesson_status_eq = record {
  beq = λ a b. nat_beq (lesson_status_code a) (lesson_status_code b);
  beq_iff = lesson_status_iff;
}

pub data TokenMeasurement : Type 0 where
  provider estimated none : TokenMeasurement

abbrev pub token_measurement_code : TokenMeasurement → ℕ
token_measurement_code TokenMeasurement.provider = 0
token_measurement_code TokenMeasurement.estimated = 1
token_measurement_code TokenMeasurement.none = 2

pub token_measurement_iff :
    (a b : TokenMeasurement)
    → (nat_beq (token_measurement_code a) (token_measurement_code b) ≡ true) ↔ (a ≡ b)
token_measurement_iff a b = ground arith

instance abbrev pub token_measurement_eq : Eq TokenMeasurement
token_measurement_eq = record {
  beq = λ a b. nat_beq (token_measurement_code a) (token_measurement_code b);
  beq_iff = token_measurement_iff;
}
