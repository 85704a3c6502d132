-- ===== src/Accounting.antt =====
-- src/tacorank/accounting.py: aggregation of the resource deltas of a ledger.
use tacorank.Prelude.{
  ◌==◌, nat_eq, string_eq, option_eq, filter, int_eq, ℕ, ◌+◌, ◌*◌, max, Option, none, some, List,
  [], ◌∷◌,
}
use tacorank.Schemas.Judgements.{
  trust_verdict_eq, stability_eq, integrity_eq, experiment_decision_kind_eq, lesson_origin_eq,
  lesson_category_eq, lesson_status_eq, TokenMeasurement, token_measurement_eq,
}
use tacorank.Schemas.Records.{ResourceDelta}
use tacorank.Schemas.Runs.{
  fidelity_eq, run_outcome_eq, recovery_action_eq, population_eq, failure_stage_eq, role_eq,
}
use tacorank.Schemas.Statuses.{run_status_eq, experiment_status_eq}

pub record ResourceTotals : Type 0 where
  pub provider_input_tokens : ℕ
  pub provider_output_tokens : ℕ
  pub estimated_input_tokens : ℕ
  pub estimated_output_tokens : ℕ
  pub unmeasured_input_tokens : ℕ
  pub unmeasured_output_tokens : ℕ
  pub action_wall_time_ms : ℕ
  pub cpu_time_ms : ℕ
  pub gpu_weighted_time_ms : ℕ
  pub manual_interventions : ℕ
  pub peak_rss_mb : ℕ
  pub peak_gpu_memory_mb : ℕ

abbrev pub no_resources : ResourceTotals
no_resources = record {
  provider_input_tokens = 0;
  provider_output_tokens = 0;
  estimated_input_tokens = 0;
  estimated_output_tokens = 0;
  unmeasured_input_tokens = 0;
  unmeasured_output_tokens = 0;
  action_wall_time_ms = 0;
  cpu_time_ms = 0;
  gpu_weighted_time_ms = 0;
  manual_interventions = 0;
  peak_rss_mb = 0;
  peak_gpu_memory_mb = 0;
}

-- sum(f(item) for item in deltas)
unfoldable pub sum_of : (ResourceDelta → ℕ) → List ResourceDelta → ℕ
sum_of f [] = 0
sum_of f (d ∷ ds) = f d + sum_of f ds

-- max((f(item) or 0 for item in deltas), default=0)
unfoldable pub peak_of : (ResourceDelta → Option ℕ) → List ResourceDelta → ℕ
peak_of f [] = 0
peak_of f (d ∷ ds) = max (elim (f d) [ none ↦ 0 | some n ↦ n ]) (peak_of f ds)

unfoldable pub measured : TokenMeasurement → List ResourceDelta → List ResourceDelta
unfolding filter
measured m = filter (λ d. d.token_measurement == m)

unfoldable pub provider_tokens : ResourceTotals → ℕ
provider_tokens t = t.provider_input_tokens + t.provider_output_tokens

unfoldable pub estimated_tokens : ResourceTotals → ℕ
estimated_tokens t = t.estimated_input_tokens + t.estimated_output_tokens

unfoldable pub unmeasured_tokens : ResourceTotals → ℕ
unmeasured_tokens t = t.unmeasured_input_tokens + t.unmeasured_output_tokens

unfoldable pub total_reported_tokens : ResourceTotals → ℕ
unfolding provider_tokens estimated_tokens unmeasured_tokens
total_reported_tokens t = provider_tokens t + estimated_tokens t + unmeasured_tokens t

unfoldable pub aggregate_resources : List ResourceDelta → ResourceTotals
unfolding sum_of peak_of measured
aggregate_resources deltas =
    let provider = measured TokenMeasurement.provider deltas in
    let estimated = measured TokenMeasurement.estimated deltas in
    let unmeasured = measured TokenMeasurement.none deltas in
    record {
      provider_input_tokens = sum_of (λ d. d.llm_input_tokens) provider;
      provider_output_tokens = sum_of (λ d. d.llm_output_tokens) provider;
      estimated_input_tokens = sum_of (λ d. d.llm_input_tokens) estimated;
      estimated_output_tokens = sum_of (λ d. d.llm_output_tokens) estimated;
      unmeasured_input_tokens = sum_of (λ d. d.llm_input_tokens) unmeasured;
      unmeasured_output_tokens = sum_of (λ d. d.llm_output_tokens) unmeasured;
      action_wall_time_ms = sum_of (λ d. d.wall_time_ms) deltas;
      cpu_time_ms = sum_of (λ d. d.cpu_time_ms) deltas;
      gpu_weighted_time_ms = sum_of (λ d. d.gpu_time_ms * d.gpu_count) deltas;
      manual_interventions = sum_of (λ d. d.manual_interventions) deltas;
      peak_rss_mb = peak_of (λ d. d.peak_rss_mb) deltas;
      peak_gpu_memory_mb = peak_of (λ d. d.peak_gpu_memory_mb) deltas;
    }
