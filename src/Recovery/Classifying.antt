-- ===== src/Recovery/Classifying.antt =====
-- The steps of `classify_failure` of src/tacorank/recovery/classifier.py after its first draft.
use tacorank.Prelude.{
  if◌then◌else◌, ◌==◌, nat_eq, string_eq, option_eq, any, elem, int_eq, String, Bool, true, false,
  not, ◌&&◌, ◌||◌, none, some, List, [], ◌∷◌, map,
}
use tacorank.Recovery.Adjustments.{FailureClass}
use tacorank.Recovery.Classifier.{
  Violation, FailureInput, Texts, transient_coding_error_codes, verifier_protocol_error_codes,
  transient_provider_error_codes, correctable_coding_agent_error_codes,
  control_plane_invariant_codes, disk_quota_error_codes, candidate_scoped_integrity_codes,
  deliberate_integrity_codes, stage_of, violations_of, raw_error_class, Draft, is_code_class,
  is_retryable_class, mentions_any, base_draft,
}
use tacorank.Recovery.Policy.{FailureClassification}
use tacorank.Result.{Result, ok, ◌>>=◌}
use tacorank.Schemas.Judgements.{
  trust_verdict_eq, stability_eq, integrity_eq, experiment_decision_kind_eq, lesson_origin_eq,
  lesson_category_eq, lesson_status_eq, token_measurement_eq,
}
use tacorank.Schemas.Runs.{
  fidelity_eq, run_outcome_eq, recovery_action_eq, population_eq, FailureStage, failure_stage_eq,
  role_eq,
}
use tacorank.Schemas.Statuses.{run_status_eq, experiment_status_eq}

module _ (T : Texts) (i : FailureInput) where
  abbrev pub error_code : String
  error_code = T.normal_code (raw_error_class i)

  abbrev pub violation_codes : List String
  violation_codes = map (λ (v : Violation). T.normal_code v.code) (violations_of i)

  unfoldable pub is_stage : FailureStage → Bool
  is_stage stage = stage_of i == some stage

  -- only an adapter failure has a stage
  unfoldable pub is_staged : Bool
  is_staged = not (stage_of i == none)

  unfoldable pub has_error_code : List String → Bool
  unfolding elem
  has_error_code codes = elem error_code codes

  -- an intersection with the violation codes
  unfoldable pub has_violation_in : List String → Bool
  unfolding any elem
  has_violation_in codes = any (λ c. elem c codes) violation_codes

  -- an intersection with `all_integrity_codes`, where no code is empty
  unfoldable pub has_integrity_code : List String → Bool
  unfolding has_violation_in
  has_integrity_code codes = has_violation_in codes || elem error_code codes

  unfoldable pub is_deliberate : String → Bool
  unfolding has_integrity_code
  is_deliberate lower_evidence =
      has_integrity_code deliberate_integrity_codes
      || mentions_any T
          ("hidden label" ∷ "target label" ∷ "secret" ∷ "credential" ∷ "exfiltrat"
            ∷ "unauthorized network" ∷ "unapproved network" ∷ [])
          lower_evidence

  unfoldable pub is_candidate_integrity : Bool
  unfolding has_integrity_code
  is_candidate_integrity = has_integrity_code candidate_scoped_integrity_codes

  abbrev pub has_progress : String → Bool
  has_progress lower_evidence =
      mentions_any T ("progress" ∷ "checkpoint" ∷ "epoch" ∷ "step " ∷ []) lower_evidence

  unfoldable pub is_transient_coding : Bool
  unfolding elem
  is_transient_coding = is_stage FailureStage.coding && has_error_code transient_coding_error_codes

  unfoldable pub is_disk_quota : String → Bool
  unfolding elem any
  is_disk_quota lower_evidence =
      has_error_code disk_quota_error_codes
      || mentions_any T
          ("no space left" ∷ "disk quota" ∷ "storage is full" ∷ "disk free floor" ∷ "enospc" ∷ [])
          lower_evidence

  abbrev verifier_exhausted : Draft → Draft
  verifier_exhausted d = record d {
    failure_class = FailureClass.infrastructure_error;
    reason_code = "SOLUTION_VERIFIER_RETRY_EXHAUSTED";
    owner = "solution_verifier";
    owner_retryable = false;
    trae_repairable = false;
  }

  unfoldable pub protocol_step : String → Draft → Draft
  unfolding elem is_transient_coding
  protocol_step lower_evidence d =
      if has_error_code verifier_protocol_error_codes
      then verifier_exhausted d
      else if has_error_code transient_provider_error_codes
      then (if T.contains_token "solution verifier" lower_evidence
          then verifier_exhausted d
          else record d { owner_retryable = true; trae_repairable = false })
      else if is_transient_coding
          || (is_stage FailureStage.coding && has_error_code correctable_coding_agent_error_codes)
      then record d { owner_retryable = true; trae_repairable = false }
      else d

  unfoldable pub disk_step : String → Draft → Draft
  unfolding is_disk_quota
  disk_step lower_evidence d =
      if is_disk_quota lower_evidence && not (is_stage FailureStage.coding)
      then record d {
        failure_class = FailureClass.infrastructure_error;
        reason_code = "DISK_QUOTA_EXHAUSTED";
      }
      else d

  abbrev owned_by : String → Draft → Draft
  owned_by owner d = record d { owner = owner; owner_retryable = false; trae_repairable = false }

  unfoldable pub invariant_step : Draft → Draft
  unfolding has_violation_in
  invariant_step d =
      if has_violation_in control_plane_invariant_codes
      then record (owned_by "recovery_control_plane" d) { control_plane = true }
      else d

  -- the owner of a failure that is no integrity violation and no full disk
  unfoldable pub fault_step : Draft → Draft
  unfolding is_retryable_class is_code_class
  fault_step d =
      if is_retryable_class d.failure_class && is_stage FailureStage.execution
      then record d { owner = "execution_runner"; owner_retryable = true }
      else if is_staged && not (is_stage FailureStage.coding) && is_code_class d.failure_class
      then record d { trae_repairable = false }
      else d

  unfoldable pub owner_step : String → Draft → Draft
  unfolding is_deliberate is_candidate_integrity is_disk_quota fault_step
  owner_step lower_evidence d =
      if is_deliberate lower_evidence && not is_candidate_integrity
      then owned_by "operator" d
      else if is_candidate_integrity
      then owned_by "coding_worker" d
      else if is_disk_quota lower_evidence
      then owned_by "operator" d
      else fault_step d

  unfoldable pub gate_step : Draft → Draft
  gate_step d =
      if (is_stage FailureStage.patch_gate
          || is_stage FailureStage.output_gate
          || is_stage FailureStage.evaluation)
        && not d.owner_retryable
      then record d { control_plane = true; trae_repairable = false }
      else d

  unfoldable pub adjusted_draft : String → Draft → Draft
  unfolding protocol_step disk_step invariant_step owner_step gate_step
  adjusted_draft lower_evidence d = gate_step (
      owner_step lower_evidence
        (invariant_step (disk_step lower_evidence (protocol_step lower_evidence d))))

  unfoldable pub classification : String → Draft → FailureClassification
  unfolding is_deliberate is_candidate_integrity any is_disk_quota
  classification lower_evidence d = record {
    failure_class = d.failure_class;
    reason_code = d.reason_code;
    fingerprint = T.fingerprint_of i;
    candidate_integrity_violation = is_candidate_integrity;
    deliberate_integrity_violation = is_deliberate lower_evidence;
    disk_quota_failure = is_disk_quota lower_evidence;
    control_plane_failure = d.control_plane;
    made_progress = has_progress lower_evidence;
    owner = d.owner;
    owner_retryable = d.owner_retryable;
    trae_repairable = d.trae_repairable;
  }

  unfoldable pub classify_failure : Result FailureClassification
  unfolding base_draft adjusted_draft classification
  classify_failure = do
    d ← base_draft T i
    ok (classification (T.lower d.evidence) (adjusted_draft (T.lower d.evidence) d))
