-- ===== src/Recovery/Exhausted.antt =====
-- `_remaining_run_budget` of src/tacorank/orchestrator/router.py, and what the recovery policy does once
-- the run has proposed its last experiment.
use tacorank.Prelude.{
  join, ◌/◌, leb, ℤ, pos, ℕ, ◌+◌, ◌-◌, ◌≤◌, String, ◌≡◌, refl, Bool, true, false, Option, none,
  some, [], ◌∷◌, ◌++◌, arith,
}
use tacorank.Accounting.{provider_tokens, estimated_tokens}
use tacorank.Dict.{Dict}
use tacorank.Float.{Floats}
use tacorank.Recovery.Policy.{
  FailureClassification, RecoveryPolicyContext, route_to, is_exhausted, integrity_route,
  budget_route, early_route, route,
}
use tacorank.Schemas.Runs.{RecoveryAction}
use tacorank.State.{RunState, remaining_experiments}

module _ ⦃F : Floats⦄ where
  abbrev dimension_of : String → Option ℕ → Dict ℤ
  dimension_of name none = []
  dimension_of name (some n) = (name, pos n) ∷ []

  abbrev left_of : Option ℕ → ℕ → Option ℕ
  left_of none used = none
  left_of (some limit) used = some (limit - used)

  -- with the limits on tokens and GPU seconds of the configuration
  unfoldable pub remaining_run_budget : Option ℕ → Option ℕ → RunState → Dict ℤ
  unfolding remaining_experiments provider_tokens estimated_tokens
  remaining_run_budget token_limit gpu_seconds_limit s =
      let totals = s.resource_totals in
      let wall_time = s.wall_time_limit_seconds - s.elapsed_wall_time_us / 1000000 in
      ("experiments", pos (remaining_experiments s))
      ∷ ("wall_time_seconds", pos wall_time)
      ∷ (dimension_of "token"
            (left_of token_limit (provider_tokens totals + estimated_tokens totals))
          ++ dimension_of "gpu_seconds"
              (left_of gpu_seconds_limit (totals.gpu_weighted_time_ms / 1000)))

  -- Once a run has proposed its last experiment, every failure that is no integrity violation and no
  -- exhausted disk is abandoned, whatever its class and however many repairs and retries are left.
  pub route-abandons_last :
      (upper : String → String) (is_blank : String → Bool) (f : FailureClassification)
      (context : RecoveryPolicyContext) (same_count remaining : ℕ) (s : RunState)
      (token_limit gpu_seconds_limit : Option ℕ)
      → context.remaining_run_budget ≡ remaining_run_budget token_limit gpu_seconds_limit s
      → s.max_experiments ≤ s.experiments_proposed
      → f.candidate_integrity_violation ≡ false
      → f.deliberate_integrity_violation ≡ false
      → f.disk_quota_failure ≡ false
      → route f context same_count remaining upper is_blank
        ≡ route_to RecoveryAction.abandon
            (join (join "RUN_" (upper "experiments")) "_BUDGET_EXHAUSTED")
  unfolding route early_route integrity_route budget_route remaining_run_budget is_exhausted
      remaining_experiments
  route-abandons_last upper is_blank f context same_count remaining s token_limit gpu_seconds_limit
        budget last candidate deliberate disk =
      let spent : leb (s.max_experiments - s.experiments_proposed) 0 ≡ true = ground arith in
      rw
        (
          route, early_route, integrity_route, candidate, deliberate, disk, budget, budget_route,
          spent,
        )
        refl
