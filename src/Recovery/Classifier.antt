-- ===== src/Recovery/Classifier.antt =====
-- `classify_failure` of src/tacorank/recovery/classifier.py, with the code sets of
-- src/tacorank/safety/path_policy.py. The operations of `str`, and the texts of the measured change and
-- of the fingerprint, are parameters; the evidence is kept unbounded.
use tacorank.Prelude.{
  if◌then◌else◌, ◌==◌, nat_eq, string_eq, option_eq, join, any, int_eq, String, Bool, true, false,
  not, ◌||◌, Option, none, some, List, [], ◌∷◌, ◌++◌, map,
}
use tacorank.Recovery.Adjustments.{FailureClass}
use tacorank.Result.{Result, require_or, ok, value_error, ◌>>◌}
use tacorank.Schemas.Judgements.{
  TrustVerdict, trust_verdict_eq, stability_eq, integrity_eq, experiment_decision_kind_eq,
  lesson_origin_eq, lesson_category_eq, lesson_status_eq, token_measurement_eq,
}
use tacorank.Schemas.Runs.{
  fidelity_eq, RunOutcome, run_outcome_eq, recovery_action_eq, population_eq, FailureStage,
  failure_stage_eq, role_eq,
}
use tacorank.Schemas.Statuses.{run_status_eq, experiment_status_eq}

pub record Violation : Type 0 where
  pub code : String
  pub message : String

-- the results that are classified, with the fields that the classifier reads: of a check, whether it
-- was accepted, the names of the failed checks, and the violations
pub data FailureInput : Type 0 where
  evaluation : TrustVerdict → (flags : List String) → (change : String) → FailureInput
  execution : RunOutcome → (error_class error_summary : Option String) → FailureInput
  adapter : FailureStage → RunOutcome → (error_class error_summary : String) → FailureInput
  patch_check : (accepted : Bool) → List String → List Violation → FailureInput
  output_check : (accepted : Bool) → List String → List Violation → FailureInput

-- `str.lower`, `str.strip`, `str.strip().upper()`, `token in text` and `fingerprint_result`
pub record Texts : Type 0 where
  pub lower : String → String
  pub strip : String → String
  pub normal_code : String → String
  pub contains_token : String → String → Bool
  pub fingerprint_of : FailureInput → String

abbrev pub transient_coding_error_codes : List String
transient_coding_error_codes =
    "TRAE_LAUNCH_FAILED" ∷ "TRAE_TIMEOUT" ∷ "TRAE_DOCKER_UNAVAILABLE" ∷ "TRAE_PROVIDER_TIMEOUT"
    ∷ "TRAE_PROVIDER_UNAVAILABLE" ∷ []

abbrev pub verifier_protocol_error_codes : List String
verifier_protocol_error_codes = "SOLUTION_VERIFIER_MALFORMED" ∷ []

abbrev pub transient_provider_error_codes : List String
transient_provider_error_codes =
    "TRAE_PROVIDER_TIMEOUT" ∷ "TRAE_PROVIDER_UNAVAILABLE" ∷ "PROVIDER_TIMEOUT"
    ∷ "PROVIDER_UNAVAILABLE" ∷ "EVALUATOR_PROVIDER_TIMEOUT" ∷ "EVALUATOR_PROVIDER_UNAVAILABLE" ∷ []

abbrev pub correctable_coding_agent_error_codes : List String
correctable_coding_agent_error_codes =
    "NO_PATCH" ∷ "SOLUTION_REVISION_NO_CHANGE" ∷ "TRAE_PROCESS_FAILED" ∷ "TRAE_REPORTED_FAILURE"
    ∷ "TRAJECTORY_ENCODING" ∷ "TRAJECTORY_MALFORMED" ∷ "TRAJECTORY_MISSING" ∷ []

abbrev pub control_plane_invariant_codes : List String
control_plane_invariant_codes =
    "CONTRACT_HASH_MISMATCH" ∷ "DIFF_MISMATCH" ∷ "OUTPUT_ARTIFACT_MISMATCH"
    ∷ "OUTPUT_IDENTITY_MISMATCH" ∷ "OUTPUT_PRODUCER_MISMATCH" ∷ "PATCH_RECEIPT_MISMATCH"
    ∷ "EXECUTION_SEAL_MISMATCH" ∷ []

abbrev pub disk_quota_error_codes : List String
disk_quota_error_codes =
    "DISK_QUOTA_EXHAUSTED" ∷ "DISK_SPACE_EXHAUSTED" ∷ "DISK_LOW" ∷ "OBSERVED_DISK_FREE_FLOOR"
    ∷ "OUTPUT_QUOTA_EXCEEDED" ∷ "ENOSPC" ∷ []

abbrev pub candidate_scoped_integrity_codes : List String
candidate_scoped_integrity_codes =
    "PROTECTED_PATH_MODIFIED" ∷ "PATH_TRAVERSAL" ∷ "SYMLINK_ESCAPE" ∷ "SUBMODULE_ESCAPE"
    ∷ "HIDDEN_LABEL_ACCESS" ∷ "FUTURE_INFORMATION_LEAKAGE" ∷ "UNAPPROVED_NETWORK"
    ∷ "OUTPUT_PROTECTED_DATA" ∷ "FORBIDDEN_INPUT_DETECTED" ∷ "NETWORK_ACCESS"
    ∷ "TARGET_LABEL_ACCESS" ∷ "UNAUTHORIZED_NETWORK_ACCESS" ∷ []

abbrev pub deliberate_integrity_codes : List String
deliberate_integrity_codes = "SECRET_DETECTED" ∷ candidate_scoped_integrity_codes

-- " ".join(texts)
abbrev pub spaced : List String → String
spaced [] = ""
spaced (t ∷ []) = t
spaced (t ∷ more) = join t (join " " (spaced more))

-- a or b
abbrev pub text_or : String → String → String
text_or a b = if a == "" then b else a

-- `str` of an optional text
abbrev pub text_of_option : Option String → String
text_of_option none = "None"
text_of_option (some t) = t

abbrev pub violation_text : List Violation → String
violation_text violations =
    spaced (map (λ (v : Violation). join v.code (join " " v.message)) violations)

abbrev pub stage_of : FailureInput → Option FailureStage
stage_of (FailureInput.adapter stage _ _ _) = some stage
stage_of _ = none

abbrev pub violations_of : FailureInput → List Violation
violations_of (FailureInput.patch_check _ _ violations) = violations
violations_of (FailureInput.output_check _ _ violations) = violations
violations_of _ = []

abbrev pub raw_error_class : FailureInput → String
raw_error_class (FailureInput.execution _ error_class _) = text_of_option error_class
raw_error_class (FailureInput.adapter _ _ error_class _) = error_class
raw_error_class _ = ""

unfoldable pub class_of : RunOutcome → FailureClass
class_of RunOutcome.interface_error = FailureClass.interface_error
class_of RunOutcome.contract_error = FailureClass.contract_error
class_of RunOutcome.numerical_error = FailureClass.numerical_error
class_of RunOutcome.oom = FailureClass.oom
class_of RunOutcome.timeout = FailureClass.timeout
class_of RunOutcome.hang = FailureClass.hang
class_of RunOutcome.infrastructure_error = FailureClass.infrastructure_error
class_of _ = FailureClass.code_error

unfoldable pub reason_of : RunOutcome → String
reason_of RunOutcome.interface_error = "INTERFACE_ERROR"
reason_of RunOutcome.contract_error = "CONTRACT_ERROR"
reason_of RunOutcome.numerical_error = "NUMERICAL_ERROR"
reason_of RunOutcome.oom = "OUT_OF_MEMORY"
reason_of RunOutcome.timeout = "EXECUTION_TIMEOUT"
reason_of RunOutcome.hang = "EXECUTION_HANG"
reason_of RunOutcome.infrastructure_error = "INFRASTRUCTURE_ERROR"
reason_of _ = "CODE_ERROR"

unfoldable pub owner_of : FailureStage → String
owner_of FailureStage.coding = "coding_worker"
owner_of FailureStage.patch_gate = "patch_gate"
owner_of FailureStage.execution = "execution_runner"
owner_of FailureStage.output_gate = "output_gate"
owner_of FailureStage.evaluation = "evaluator"
owner_of FailureStage.recovery = "recovery_control_plane"

-- the variables of `classify_failure` that its later steps assign
pub record Draft : Type 0 where
  pub failure_class : FailureClass
  pub reason_code : String
  pub evidence : String
  pub owner : String
  pub owner_retryable : Bool
  pub trae_repairable : Bool
  pub control_plane : Bool

unfoldable pub is_code_class : FailureClass → Bool
is_code_class FailureClass.code_error = true
is_code_class FailureClass.interface_error = true
is_code_class FailureClass.contract_error = true
is_code_class FailureClass.numerical_error = true
is_code_class _ = false

unfoldable pub is_retryable_class : FailureClass → Bool
is_retryable_class FailureClass.infrastructure_error = true
is_retryable_class FailureClass.hang = true
is_retryable_class FailureClass.timeout = true
is_retryable_class _ = false

module _ (T : Texts) where
  abbrev pub mentions_any : List String → String → Bool
  mentions_any tokens text = any (λ token. T.contains_token token text) tokens

  -- a failure of the candidate that its own coding worker may repair
  abbrev repairable : FailureClass → String → String → Draft
  repairable failure_class reason evidence = record {
    failure_class = failure_class;
    reason_code = reason;
    evidence = evidence;
    owner = "coding_worker";
    owner_retryable = false;
    trae_repairable = true;
    control_plane = false;
  }

  unfoldable pub gate_draft : FailureClass → String → List String → List Violation → Draft
  unfolding any
  gate_draft failure_class reason failed violations =
      let combined = T.strip (spaced (failed ++ violation_text violations ∷ [])) in
      if mentions_any ("hidden" ∷ "secret" ∷ "credential" ∷ "network" ∷ "target label" ∷ [])
        (T.lower combined)
      then repairable FailureClass.contract_error "INTEGRITY_VIOLATION" combined
      else repairable failure_class reason combined

  abbrev pub is_failed_outcome : RunOutcome → Bool
  is_failed_outcome outcome = not (outcome == RunOutcome.success || outcome == RunOutcome.cancelled)

  unfoldable pub base_draft : FailureInput → Result Draft
  unfolding gate_draft class_of reason_of owner_of is_code_class
  base_draft (FailureInput.evaluation verdict flags change) = do
    require_or (verdict == TrustVerdict.no_op)
        (value_error "only an evaluation verdict of no_op is a recovery input")
    ok (
        repairable FailureClass.no_op "NO_OP_WIRING"
          (T.strip (spaced (text_or (spaced flags) "verified prediction no-op" ∷ change ∷ []))))
  base_draft (FailureInput.execution outcome error_class error_summary) = do
    require_or (is_failed_outcome outcome) (value_error "execution is not a recovery input")
    ok (record {
      failure_class = class_of outcome;
      reason_code = reason_of outcome;
      evidence = elim error_summary [
        | none ↦ text_of_option error_class
        | some summary ↦ text_or summary (text_of_option error_class)
      ];
      owner = "execution_runner";
      owner_retryable = false;
      trae_repairable = is_code_class (class_of outcome);
      control_plane = false;
    })
  base_draft (FailureInput.adapter stage outcome error_class error_summary) = do
    require_or (is_failed_outcome outcome) (value_error "execution is not a recovery input")
    ok (record {
      failure_class =
          if stage == FailureStage.coding then FailureClass.code_error else class_of outcome;
      reason_code =
          if stage == FailureStage.coding then "CODING_WORKER_FAILURE" else reason_of outcome;
      evidence = text_or error_summary error_class;
      owner = owner_of stage;
      owner_retryable = false;
      trae_repairable = false;
      control_plane = stage == FailureStage.recovery;
    })
  base_draft (FailureInput.patch_check accepted failed violations) = do
    require_or (not accepted) (value_error "accepted gate/output result is not a recovery input")
    ok (gate_draft FailureClass.contract_error "PATCH_CONTRACT_ERROR" failed violations)
  base_draft (FailureInput.output_check accepted failed violations) = do
    require_or (not accepted) (value_error "accepted gate/output result is not a recovery input")
    ok (gate_draft FailureClass.output_contract "OUTPUT_CONTRACT_ERROR" failed violations)
