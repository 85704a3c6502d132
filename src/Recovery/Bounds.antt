-- ===== src/Recovery/Bounds.antt =====
-- What every route of src/tacorank/recovery/policy.py respects.
use tacorank.Prelude.{
  orelse_lem, leb, Bool-cases, Option-cases, ℤ, ℕ, ◌≤◌, ◌<◌, String, ◌≡◌, inl, inr, Bool, true,
  ◌||◌, some, [], ◌∷◌, arith,
}
use tacorank.Dict.{Dict}
use tacorank.Recovery.Adjustments.{FailureClass}
use tacorank.Recovery.Policy.{
  FailureClassification, RecoveryPolicyContext, Route, route_to, is_exhausted, integrity_route,
  owner_route, no_op_route, repeated_route, unadjusted_route, repair_route, budget_route,
  retryable_route, adjustment_route, early_route, route, cost,
}
use tacorank.Schemas.Runs.{RecoveryAction}
use tacorank.Transition.Recovering.{max_same_commit_retries}

-- A repair needs remaining budget, and a retry of the same commit needs a retry that is left.
pub record IsAffordable (context : RecoveryPolicyContext) (remaining : ℕ) (r : Route) : Type 0 where
  pub repair : cost r.action ≤ remaining
  pub retry :
      r.action ≡ RecoveryAction.retry_same_commit
      → context.same_commit_retries_used < max_same_commit_retries

-- no agent edits code and nothing is rerun as it is
pub data IsContained : RecoveryAction → Type 0 where
  abandoned : IsContained RecoveryAction.abandon
  restarted : IsContained RecoveryAction.restart_from_trusted_parent

module _ (f : FailureClassification) (context : RecoveryPolicyContext) (same_count remaining : ℕ)
    (r : Route) where
  integrity_route-IsAffordable :
      integrity_route f context same_count remaining ≡ some r → IsAffordable context remaining r
  unfolding integrity_route
  integrity_route-IsAffordable h = record { repair = ground arith; retry = λ e. ground arith }

  owner_route-IsAffordable :
      owner_route f context same_count remaining ≡ some r → IsAffordable context remaining r
  unfolding owner_route
  owner_route-IsAffordable h = record { repair = ground arith; retry = λ e. ground arith }

  no_op_route-IsAffordable :
      no_op_route f context same_count remaining ≡ some r → IsAffordable context remaining r
  unfolding no_op_route
  no_op_route-IsAffordable h = record { repair = ground arith; retry = λ e. ground arith }

  repeated_route-IsAffordable :
      repeated_route f context same_count remaining ≡ some r → IsAffordable context remaining r
  unfolding repeated_route
  repeated_route-IsAffordable h = record { repair = ground arith; retry = λ e. ground arith }

  unadjusted_route-IsAffordable :
      (c : FailureClass)
      → unadjusted_route f context same_count remaining c ≡ some r
      → IsAffordable context remaining r
  unfolding unadjusted_route
  unadjusted_route-IsAffordable c h = record { repair = ground arith; retry = λ e. ground arith }

  module _ (upper : String → String) (is_blank : String → Bool) where
    budget_route-IsAffordable :
        (budget : Dict ℤ)
        → budget_route f context same_count remaining upper is_blank budget ≡ some r
        → IsAffordable context remaining r
    unfolding budget_route
    budget_route-IsAffordable [] h = cc
    budget_route-IsAffordable ((dimension, value) ∷ rest) h =
        elim (Bool-cases (is_exhausted value)) [
          | inl e ↦ record { repair = ground arith; retry = λ k. ground arith }
          | inr e ↦ budget_route-IsAffordable rest (ground arith)
        ]

    retryable_route-IsAffordable :
        retryable_route f context same_count remaining upper is_blank ≡ some r
        → IsAffordable context remaining r
    unfolding retryable_route
    retryable_route-IsAffordable h = record { repair = ground arith; retry = λ e. ground arith }

    adjustment_route-IsAffordable :
        adjustment_route f context same_count remaining upper is_blank ≡ some r
        → IsAffordable context remaining r
    unfolding adjustment_route
    adjustment_route-IsAffordable h = record { repair = ground arith; retry = λ e. ground arith }

    early_route-IsAffordable :
        early_route f context same_count remaining upper is_blank ≡ some r
        → IsAffordable context remaining r
    unfolding early_route
    early_route-IsAffordable = orelse_lem _ _ integrity_route-IsAffordable (
        orelse_lem _ _ (budget_route-IsAffordable context.remaining_run_budget) (
          orelse_lem _ _ owner_route-IsAffordable (
            orelse_lem _ _ no_op_route-IsAffordable (
              orelse_lem _ _ retryable_route-IsAffordable (
                orelse_lem _ _ repeated_route-IsAffordable (
                  orelse_lem _ _ adjustment_route-IsAffordable
                    (unadjusted_route-IsAffordable f.failure_class)))))))

module _ (f : FailureClassification) (context : RecoveryPolicyContext) (same_count remaining : ℕ)
    (upper : String → String) (is_blank : String → Bool) where
  repair_route-IsAffordable :
      IsAffordable context remaining (repair_route f context same_count remaining)
  unfolding repair_route
  repair_route-IsAffordable = record { repair = ground arith; retry = λ e. ground arith }

  -- Every route can be paid for: a repair leaves the remaining repair budget at 0 or above, and the
  -- same commit is retried only while fewer than two of its retries are used.
  pub route-IsAffordable :
      IsAffordable context remaining (route f context same_count remaining upper is_blank)
  unfolding route
  route-IsAffordable =
      elim (Option-cases (early_route f context same_count remaining upper is_blank)) [
        | inl e ↦ rw (route, e) repair_route-IsAffordable
        | inr (r, e) ↦
            rw (route, e)
              (early_route-IsAffordable f context same_count remaining r upper is_blank e)
      ]

  integrity_route-IsContained :
      (f.candidate_integrity_violation || f.deliberate_integrity_violation) ≡ true
      → (r : Route) × (integrity_route f context same_count remaining ≡ some r)
        × IsContained r.action
  unfolding integrity_route
  integrity_route-IsContained h = elim (Bool-cases f.candidate_integrity_violation) [
    | inr e ↦
        (route_to RecoveryAction.abandon "INTEGRITY_VIOLATION", ground arith, IsContained.abandoned)
    | inl e ↦ elim (Bool-cases (leb 2 same_count || leb remaining 0)) [
      | inl k ↦ (
        route_to RecoveryAction.abandon "CANDIDATE_INTEGRITY_RETRY_EXHAUSTED",
        ground arith,
        IsContained.abandoned,
      )
      | inr k ↦ (
        route_to RecoveryAction.restart_from_trusted_parent "CANDIDATE_INTEGRITY_CLEAN_RESTART",
        ground arith,
        IsContained.restarted,
      )
    ]
  ]

  -- An integrity violation, of the candidate or deliberate, is never repaired in place, retried or
  -- rerun with other settings: the experiment is abandoned or starts again from its trusted parent.
  pub route-IsContained :
      (f.candidate_integrity_violation || f.deliberate_integrity_violation) ≡ true
      → IsContained (route f context same_count remaining upper is_blank).action
  unfolding route early_route
  route-IsContained h =
      let (r, e, c) = integrity_route-IsContained h in rw (route, early_route, e) c
