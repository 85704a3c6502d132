-- ===== src/Transition/Closing.antt =====
-- src/tacorank/orchestrator/state_machine.py: the branches of lessons, the stop and the final choice.
use tacorank.Prelude.{
  ltb, if◌then◌else◌, ◌==◌, nat_eq, string_eq, option_eq, length, all, elem, find_last, int_eq,
  String, Bool, true, false, not, ◌&&◌, ◌||◌, Option, none, some, List, [], ◌∷◌, ◌++◌, map,
}
use tacorank.Dict.{contains}
use tacorank.Float.{Floats, Fl}
use tacorank.Result.{Check, require, require_some, ok, ◌>>=◌, ◌>>◌}
use tacorank.Schemas.Events.{
  LessonRecordedPayload, FinalSelectedPayload, BaselineVerifiedPayload, EventPayload, Event,
}
use tacorank.Schemas.Judgements.{
  TrustVerdict, trust_verdict_eq, Stability, stability_eq, Integrity, integrity_eq,
  experiment_decision_kind_eq, LessonOrigin, lesson_origin_eq, LessonCategory, lesson_category_eq,
  lesson_status_eq, token_measurement_eq,
}
use tacorank.Schemas.Records.{LessonCandidate}
use tacorank.Schemas.Runs.{
  Fidelity, fidelity_eq, run_outcome_eq, recovery_action_eq, Population, population_eq,
  failure_stage_eq, role_eq,
}
use tacorank.Schemas.Scores.{EvaluationResult}
use tacorank.Schemas.Statuses.{RunStatus, run_status_eq, experiment_status_eq}
use tacorank.State.{RunState}
use tacorank.Transition.Evidence.{evaluation_request}
use tacorank.Transition.Views.{as_baseline_verified, as_evaluation_completed, occurs}

module _ ⦃F : Floats⦄ where
  -- set(wanted).issubset(known)
  unfoldable pub is_subset : List String → List String → Bool
  is_subset wanted known = all (λ i. elem i known) wanted

  -- the evaluations that a lesson cites
  unfoldable pub cited_evaluation : List String → Event → Option EvaluationResult
  cited_evaluation source_event_ids e =
      if elem e.event_id source_event_ids then as_evaluation_completed e.payload else none

  -- `eligible`
  unfoldable pub supports_lesson : EvaluationResult → Bool
  supports_lesson r =
      not (r.population == Population.hidden_final)
      && not (r.fidelity == Fidelity.final)
      && not (r.trust.verdict == TrustVerdict.no_op || r.trust.verdict == TrustVerdict.inconclusive)
      && (not (r.trust.verdict == TrustVerdict.negative)
          || (r.fidelity == Fidelity.full && r.population == Population.public_validation))
      && (not (r.trust.verdict == TrustVerdict.accepted)
          || r.trust.stability == Stability.confirmed)

  unfoldable pub expected_category : EvaluationResult → LessonCategory
  expected_category r =
      if r.trust.verdict == TrustVerdict.suspicious
      then LessonCategory.integrity_warning
      else LessonCategory.research_result

  unfoldable pub check_research_lesson : List Event → LessonCandidate → Check
  unfolding is_subset cited_evaluation supports_lesson expected_category
  check_research_lesson events candidate = do
    evidence ←
        require_some (find_last (cited_evaluation candidate.source_event_ids) events) (λ _. true)
          "research lesson requires evaluation evidence"
    require (supports_lesson evidence.1) "research lesson is not supported by eligible evidence"
    require (candidate.category == expected_category evidence.1)
        "research lesson category does not match evaluation trust"
    require (is_subset evidence.1.seed_evidence_event_ids candidate.source_event_ids)
        "research lesson omits seed evidence"
    require (ltb 0 (length candidate.source_commit_shas))
        "research lesson requires candidate commit evidence"

  unfoldable pub check_lesson_recorded : List Event → RunState → LessonRecordedPayload → Check
  unfolding check_research_lesson is_subset
  check_lesson_recorded events s payload = do
    require (not (contains s.lessons payload.lesson_id)) "duplicate lesson_id"
    require (is_subset payload.candidate.source_event_ids (map (λ e. e.event_id) events))
        "lesson cites unknown evidence"
    (if payload.candidate.origin == LessonOrigin.research
        then check_research_lesson events payload.candidate
        else ok tt)

  unfoldable pub check_run_stopped : List Event → RunState → Check
  check_run_stopped events s = do
    require (occurs as_baseline_verified events) "cannot stop before baseline"
    require (not (s.status == RunStatus.stopped || s.status == RunStatus.finalizing))
        "run already stopped"

  -- reproduction evidence: an evaluation, or the baseline with its evaluation
  pub data Reproduction : Type 0 where
    by_evaluation : List Event → EvaluationResult → Reproduction
    by_baseline : BaselineVerifiedPayload → Reproduction

  unfoldable pub reproduction_in : List Event → EventPayload → Option Reproduction
  reproduction_in before (EventPayload.evaluation_completed r) = some (by_evaluation before r)
  reproduction_in before (EventPayload.baseline_verified b) = some (by_baseline b)
  reproduction_in before _ = none

  -- the first event with that id of one of the two types, with the events before it
  unfoldable pub find_reproduction : String → List Event → List Event → Option Reproduction
  unfolding reproduction_in
  find_reproduction event_id before [] = none
  find_reproduction event_id before (e ∷ rest) =
      let later = find_reproduction event_id (before ++ e ∷ []) rest in
      if e.event_id == event_id
      then elim (reproduction_in before e.payload) [ none ↦ later | some r ↦ some r ]
      else later

  unfoldable pub evaluation_of : Reproduction → EvaluationResult
  evaluation_of (by_evaluation before r) = r
  evaluation_of (by_baseline b) = b.evaluation

  -- `==` on scores that may be None
  unfoldable pub is_score : Fl → Option Fl → Bool
  is_score score none = false
  is_score score (some best) = F.feq score best

  unfoldable pub is_final_evidence : RunState → String → EvaluationResult → Bool
  unfolding is_score
  is_final_evidence s experiment_id r =
      r.experiment_id == experiment_id
      && r.fidelity == Fidelity.full
      && r.population == Population.public_validation
      && r.trust.verdict == TrustVerdict.accepted
      && r.trust.integrity == Integrity.clean
      && is_score r.metric_set.primary_score s.best_primary_score

  unfoldable pub check_reproduction : FinalSelectedPayload → Reproduction → Check
  check_reproduction payload (by_baseline b) =
      require (payload.experiment_id == "baseline" && b.commit_sha == payload.commit_sha)
        "baseline finalization does not match frozen parity evidence"
  check_reproduction payload (by_evaluation before r) = do
    request ← evaluation_request before r
    require
        (request.patch_commit_sha == payload.commit_sha && request.command_id == "clean_reproduce")
        "final reproduction did not cleanly evaluate the selected commit"

  unfoldable pub check_final_selected : List Event → RunState → FinalSelectedPayload → Check
  unfolding find_reproduction evaluation_of is_final_evidence check_reproduction
  check_final_selected events s payload = do
    require (s.status == RunStatus.stopped) "final selection requires stopped run"
    require (some payload.experiment_id == s.best_experiment_id) "must select latest verified best"
    require (some payload.commit_sha == s.best_commit_sha) "final commit must match verified best"
    reproduction ←
        require_some (find_reproduction payload.reproduction_evaluation_event_id [] events)
          (λ _. true) "final selection cites unknown reproduction evidence"
    require (is_final_evidence s payload.experiment_id (evaluation_of reproduction))
        "final reproduction is not trusted evidence for the verified best"
    check_reproduction payload reproduction
