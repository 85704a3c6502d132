-- ===== src/Examples/Failures.antt =====
-- The theorems on the classification of failures at a patch that leaves its directory.
use tacorank.Prelude.{
  nat_eq, string_eq, option_eq, any, elem, int_eq, ◌≡◌, refl, true, false, [], ◌∷◌,
}
use tacorank.Examples.Run.{nat_scores}
use tacorank.Examples.Recoveries.{as_is, never, policy_context}
use tacorank.Recovery.Adjustments.{FailureClass}
use tacorank.Recovery.Bounds.{IsContained}
use tacorank.Recovery.Classifier.{
  FailureInput, Texts, deliberate_integrity_codes, gate_draft, base_draft,
}
use tacorank.Recovery.Classifying.{
  is_stage, is_staged, has_error_code, has_violation_in, has_integrity_code, is_deliberate,
  is_candidate_integrity, is_transient_coding, is_disk_quota, protocol_step, disk_step,
  invariant_step, fault_step, owner_step, gate_step, adjusted_draft, classification,
  classify_failure,
}
use tacorank.Recovery.Ownership.{IsOwned, classify_failure-IsOwned, classify_failure-IsContained}
use tacorank.Recovery.Policy.{FailureClassification, route}
use tacorank.Result.{ok}
use tacorank.Schemas.Judgements.{
  trust_verdict_eq, stability_eq, integrity_eq, experiment_decision_kind_eq, lesson_origin_eq,
  lesson_category_eq, lesson_status_eq, token_measurement_eq,
}
use tacorank.Schemas.Runs.{
  fidelity_eq, run_outcome_eq, recovery_action_eq, population_eq, failure_stage_eq, role_eq,
}
use tacorank.Schemas.Statuses.{run_status_eq, experiment_status_eq}

abbrev texts : Texts
texts = record {
  lower = as_is;
  strip = as_is;
  normal_code = as_is;
  contains_token = λ token text. false;
  fingerprint_of = λ i. "f";
}

abbrev escaping : FailureInput
escaping =
    FailureInput.patch_check false ("paths" ∷ [])
      (record { code = "PATH_TRAVERSAL"; message = "../x" } ∷ [])

abbrev escaped : FailureClassification
escaped = record {
  failure_class = FailureClass.contract_error;
  reason_code = "PATCH_CONTRACT_ERROR";
  fingerprint = "f";
  candidate_integrity_violation = true;
  deliberate_integrity_violation = true;
  disk_quota_failure = false;
  control_plane_failure = false;
  made_progress = false;
  owner = "coding_worker";
  owner_retryable = false;
  trae_repairable = false;
}

escaping_is_classified : classify_failure texts escaping ≡ ok escaped
unfolding classify_failure base_draft gate_draft any elem classification adjusted_draft
    protocol_step disk_step invariant_step owner_step fault_step gate_step is_stage is_staged
    has_error_code has_violation_in has_integrity_code is_deliberate is_candidate_integrity
    is_transient_coding is_disk_quota
escaping_is_classified = refl

escaping_is_named : has_violation_in texts escaping deliberate_integrity_codes ≡ true
unfolding has_violation_in any elem
escaping_is_named = refl

classify_failure-IsOwned_example : IsOwned texts escaping escaped
classify_failure-IsOwned_example =
    classify_failure-IsOwned texts escaping escaped escaping_is_classified

classify_failure-IsContained_example :
    IsContained (route escaped policy_context 1 2 as_is never).action
classify_failure-IsContained_example =
    classify_failure-IsContained texts escaping escaped policy_context 1 2 as_is never
      escaping_is_classified escaping_is_named
