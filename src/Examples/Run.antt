-- ===== src/Examples/Run.antt =====
-- The events of the run, and its prefixes.
use tacorank.Prelude.{
  leb, take, ltb, nat_beq, ℤ, pos, ℕ, zero, suc, ◌+◌, ◌-◌, ◌*◌, String, ◌≡◌, Bool, true, false,
  Option, none, some, List, [], ◌∷◌, ◌++◌, arith,
}
use tacorank.Float.{Floats}
use tacorank.Schemas.Events.{EventPayload, Event}
use tacorank.Schemas.Judgements.{
  TrustVerdict, Stability, Integrity, ExperimentDecisionKind, TokenMeasurement,
}
use tacorank.Schemas.Records.{ResourceDelta}
use tacorank.Schemas.Runs.{Fidelity, RunOutcome, RecoveryAction, Population, Role}
use tacorank.Schemas.Scores.{MetricSet, TrustAssessment, EvaluationResult}

pub ltb_irrefl : (a : ℕ) → ltb a a ≡ false
ltb_irrefl a = ground arith

pub ltb_trans : (a b c : ℕ) → ltb a b ≡ true → ltb b c ≡ true → ltb a c ≡ true
ltb_trans a b c h k = ground arith

instance abbrev pub nat_scores : Floats
nat_scores = record {
  Float = ℕ;
  lit = λ n k. n;
  flt = ltb;
  fle = leb;
  feq = nat_beq;
  fadd = λ a b. a + b;
  fsub = λ a b. a - b;
  fmul = λ a b. a * b;
  fdiv = λ a b. a;
  fneg = λ a. 0;
  fabs = λ a. a;
  sqrt = λ a. a;
  of_ℕ = λ n. n;
  is_finite = λ a. true;
  mean = λ l. elim l [ [] ↦ 0 | x ∷ _ ↦ x ];
  stdev = λ l. 0;
  median = λ x l. x;
  fixed4 = λ a. "";
  flt_irrefl = ltb_irrefl;
  flt_trans = ltb_trans;
}

abbrev pub no_delta : ResourceDelta
no_delta = record {
  llm_input_tokens = 0;
  llm_output_tokens = 0;
  token_measurement = TokenMeasurement.none;
  wall_time_ms = 10;
  cpu_time_ms = 10;
  gpu_time_ms = 5;
  gpu_count = 1;
  peak_rss_mb = some 100;
  peak_gpu_memory_mb = none;
  manual_interventions = 0;
}

abbrev pub event : ℕ → String → EventPayload → Event
event seq event_id payload = record {
  event_id = event_id;
  seq = seq;
  timestamp = seq * 1000000;
  run_id = "r";
  idempotency_key = event_id;
  causation_event_id = none;
  payload = payload;
  resource_delta = no_delta;
  prev_event_hash = "h";
  event_hash = "h";
}

-- the first event of a run with a limit on its confirmations
abbrev pub started_with : ℕ → EventPayload
started_with max_confirmation_attempts = EventPayload.run_started (record {
  max_experiments = 3;
  parallel_directions = 1;
  synthesize_parallel_improvements = true;
  wall_time_limit_seconds = 3600;
  token_limit = some 1000;
  gpu_seconds_limit = none;
  max_repairs_per_experiment = 2;
  max_confirmation_attempts = max_confirmation_attempts;
  seed_schedule = pos 7 ∷ pos 8 ∷ [];
  convergence_epsilon = 1;
  convergence_patience = 3;
})

abbrev pub started : EventPayload
started = started_with 2

abbrev single_seed : TrustAssessment
single_seed = record {
  verdict = TrustVerdict.accepted;
  stability = Stability.single_seed;
  integrity = Integrity.clean;
  flags = [];
  eta_applied = some 1;
  seed_mean = none;
  seed_stderr = none;
  seed_count = 1;
}

abbrev pub confirmed_trust : TrustAssessment
confirmed_trust = record {
  verdict = TrustVerdict.accepted;
  stability = Stability.confirmed;
  integrity = Integrity.clean;
  flags = [];
  eta_applied = some 1;
  seed_mean = some 12;
  seed_stderr = some 0;
  seed_count = 2;
}

abbrev score_of : ℕ → MetricSet
score_of n = record { primary_metric_name = "ndcg"; primary_score = n }

abbrev pub evaluation : String → ℕ → ℤ → Option ℕ → ℕ → EvaluationResult
evaluation experiment_id attempt seed index score = record {
  run_id = "r";
  experiment_id = experiment_id;
  attempt = attempt;
  population = Population.public_validation;
  fidelity = Fidelity.full;
  seed = seed;
  public_query_index = index;
  evaluator_sha256 = "eval";
  contract_sha256 = "contract";
  metric_set = score_of score;
  trust = single_seed;
  seed_evidence_event_ids = [];
}

abbrev pub confirmation : EvaluationResult
confirmation =
    let first = evaluation "e1" 3 (pos 8) (some 2) 12 in
    record first { trust = confirmed_trust; seed_evidence_event_ids = "e15" ∷ [] }

abbrev pub decision : String → ExperimentDecisionKind → Bool → Option Fidelity → EventPayload
decision evaluation_event_id kind eligible next = EventPayload.experiment_decided (record {
  run_id = "r";
  experiment_id = "e1";
  evaluation_event_id = some evaluation_event_id;
  decision = kind;
  reason_code = "IMPROVED";
  fidelity_completed = Fidelity.full;
  parent_eligible = eligible;
  best_eligible = eligible;
  next_fidelity = next;
  supporting_event_ids = [];
})

abbrev pub context : Role → String → EventPayload
context role context_id =
    EventPayload.context_created
      (record { context_id = context_id; role = role; run_id = "r"; experiment_id = some "e1" })

abbrev pub run_request : ℕ → String → ℤ → EventPayload
run_request attempt command_id seed = EventPayload.execution_started (record {
  run_id = "r";
  experiment_id = "e1";
  attempt = attempt;
  fidelity = Fidelity.full;
  command_id = command_id;
  patch_commit_sha = "c1";
  patch_receipt_id = "receipt";
  seed = seed;
})

abbrev pub run_result : ℕ → RunOutcome → EventPayload
run_result attempt outcome = EventPayload.execution_finished (record {
  run_id = "r";
  experiment_id = "e1";
  attempt = attempt;
  fidelity = Fidelity.full;
  patch_commit_sha = "c1";
  outcome = outcome;
  error_fingerprint = some "f";
  prediction_artifact = some (record { artifact_id = "p" });
})

abbrev pub output : ℕ → EventPayload
output attempt = EventPayload.output_checked (record {
  run_id = "r";
  experiment_id = "e1";
  attempt = attempt;
  prediction_artifact = record { artifact_id = "p" };
  accepted = true;
})

abbrev payloads_to_ready : List EventPayload
payloads_to_ready =
    started
    ∷ EventPayload.contract_verified
        (record { contract_sha256 = "contract"; evaluator_sha256 = "eval" })
    ∷ EventPayload.baseline_verified (record {
      experiment_id = "baseline";
      commit_sha = "c0";
      metric_set = score_of 10;
      evaluation = evaluation "baseline" 1 (pos 7) (some 1) 10;
    })
    ∷ []

abbrev later_payloads : List EventPayload
later_payloads =
    context Role.planner "ctx1"
    ∷ EventPayload.experiment_proposed (record {
      run_id = "r";
      experiment_id = "e1";
      parent_experiment_id = some "baseline";
      parent_commit_sha = "c0";
      context_id = "ctx1";
      hypothesis = "h";
      family = "f";
      evidence_event_ids = [];
      duplicate_key = "k1";
    })
    ∷ context Role.coder "ctx2"
    ∷ EventPayload.patch_created (record {
      run_id = "r";
      experiment_id = "e1";
      attempt = 1;
      experiment_spec_event_id = "e5";
      context_id = "ctx2";
      base_commit_sha = "c0";
      patch_commit_sha = "c1";
      diff_sha256 = "d1";
    })
    ∷ EventPayload.patch_checked (record {
      run_id = "r";
      experiment_id = "e1";
      attempt = 1;
      patch_commit_sha = "c1";
      diff_sha256 = "d1";
      accepted = true;
      receipt_id = some "receipt";
    })
    ∷ run_request 1 "candidate_full" (pos 7)
    ∷ run_result 1 RunOutcome.infrastructure_error
    ∷ EventPayload.recovery_decided (record {
      run_id = "r";
      experiment_id = "e1";
      failure_event_id = "e10";
      repair_attempt = 1;
      action = RecoveryAction.retry_same_commit;
      reason_code = "TRANSIENT_SAME_COMMIT_RETRY";
      same_error_count = 1;
      remaining_repair_budget = 2;
    })
    ∷ run_request 2 "candidate_full" (pos 7)
    ∷ run_result 2 RunOutcome.success
    ∷ output 2
    ∷ EventPayload.evaluation_completed (evaluation "e1" 2 (pos 7) (some 1) 12)
    ∷ decision "e15" ExperimentDecisionKind.promote false (some Fidelity.full)
    ∷ run_request 3 "candidate_full" (pos 8)
    ∷ run_result 3 RunOutcome.success
    ∷ output 3
    ∷ EventPayload.evaluation_completed confirmation
    ∷ decision "e20" ExperimentDecisionKind.accept true none
    ∷ EventPayload.best_updated (record {
      experiment_id = "e1";
      commit_sha = "c1";
      primary_metric_name = "ndcg";
      primary_score = 12;
      decision_event_id = "e21";
    })
    ∷ EventPayload.run_stopped (record { reason_code = "converged" })
    ∷ run_request 4 "clean_reproduce" (pos 7)
    ∷ run_result 4 RunOutcome.success
    ∷ output 4
    ∷ EventPayload.evaluation_completed (evaluation "e1" 4 (pos 7) (some 3) 12)
    ∷ EventPayload.final_selected (record {
      experiment_id = "e1";
      commit_sha = "c1";
      reproduction_evaluation_event_id = "e27";
    })
    ∷ EventPayload.submission_checked (record { accepted = true })
    ∷ []

abbrev names : List String
names =
    "e1" ∷ "e2" ∷ "e3" ∷ "e4" ∷ "e5" ∷ "e6" ∷ "e7" ∷ "e8" ∷ "e9" ∷ "e10" ∷ "e11" ∷ "e12" ∷ "e13"
    ∷ "e14" ∷ "e15" ∷ "e16" ∷ "e17" ∷ "e18" ∷ "e19" ∷ "e20" ∷ "e21" ∷ "e22" ∷ "e23" ∷ "e24" ∷ "e25"
    ∷ "e26" ∷ "e27" ∷ "e28" ∷ "e29" ∷ []

abbrev pub numbered_events : ℕ → List String → List EventPayload → List Event
numbered_events n (i ∷ is) (p ∷ ps) = event n i p ∷ numbered_events (n + 1) is ps
numbered_events n _ _ = []

abbrev pub whole_run : List Event
whole_run = numbered_events 1 names (payloads_to_ready ++ later_payloads)

abbrev pub skip : ℕ → List Event → List Event
skip zero es = es
skip (suc n) [] = []
skip (suc n) (_ ∷ es) = skip n es

-- the run up to its verified baseline
abbrev pub ready_run : List Event
ready_run = take 3 whole_run

-- from there to the first best
abbrev pub best_rest : List Event
best_rest = take 19 (skip 3 whole_run)

abbrev pub best_run : List Event
best_run = ready_run ++ best_rest

-- from there to the final selection
abbrev pub selected_rest : List Event
selected_rest = take 6 (skip 22 whole_run)

abbrev pub selected_run : List Event
selected_run = best_run ++ selected_rest

-- the run up to its failed execution
abbrev pub failed_run : List Event
failed_run = take 10 whole_run

abbrev pub failure_event : Event
failure_event = event 10 "e10" (run_result 1 RunOutcome.infrastructure_error)

-- an evaluation on the hidden population, as the schema allows it
abbrev pub hidden_evaluation : EvaluationResult
hidden_evaluation =
    let first = evaluation "e1" 4 (pos 7) none 12 in
    record first { population = Population.hidden_final; fidelity = Fidelity.final }

-- the run up to the evaluation of its confirmation
abbrev pub confirmed_run : List Event
confirmed_run = take 20 whole_run

abbrev pub confirmed_event : Event
confirmed_event = event 20 "e20" (EventPayload.evaluation_completed confirmation)
