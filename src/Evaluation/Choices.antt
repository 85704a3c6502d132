-- ===== src/Evaluation/Choices.antt =====
-- The choices that `decide` of src/tacorank/evaluation/decisions.py makes, by its branches.
use tacorank.Prelude.{
  ◌orelse◌, orelse_lem, ltb, ◌==◌, nat_eq, string_eq, option_eq, bool_beq, Bool-cases, Option-cases,
  int_eq, ℕ, String, ◌≡◌, refl, sym, ◌∙◌, subst, inl, inr, true, false, not, ◌&&◌, ◌||◌, none, some,
  List, [], ◌∷◌, arith, eq_iff,
}
use tacorank.Evaluation.Choosing.{
  DomainResult, Choice, is_clean, improves_best, proxy_choice, single_seed_choice, confirmed_choice,
  exploratory_choice, rejected_choice, full_choice, choose,
}
use tacorank.Evaluation.Decisions.{same_ids, has_valid_route}
use tacorank.Float.{Floats}
use tacorank.Result.{ok_injective, ok}
use tacorank.Schemas.Judgements.{
  TrustVerdict, trust_verdict_eq, Stability, stability_eq, integrity_eq, ExperimentDecisionKind,
  experiment_decision_kind_eq, lesson_origin_eq, lesson_category_eq, lesson_status_eq,
  token_measurement_eq,
}
use tacorank.Schemas.Runs.{
  Fidelity, fidelity_eq, run_outcome_eq, recovery_action_eq, Population, population_eq,
  failure_stage_eq, role_eq,
}
use tacorank.Schemas.Statuses.{run_status_eq, experiment_status_eq}

module _ ⦃F : Floats⦄ where
  pub same_ids_refl : (ids : List String) → same_ids ids ids ≡ true
  unfolding same_ids
  same_ids_refl [] = refl
  same_ids_refl (a ∷ ids) = ground (arith, same_ids_refl ids, eq_iff a a)

  -- a choice that the schema and the state machine accept for a result
  pub record Fits (r : DomainResult) (remaining : ℕ) (c : Choice) : Type 0 where
    pub promotes :
        bool_beq (c.action == ExperimentDecisionKind.promote) (not (c.next_fidelity == none)) ≡ true
    pub next : (c.next_fidelity == none || c.next_fidelity == some Fidelity.full) ≡ true
    pub paid :
        (not (r.canonical.fidelity == Fidelity.full) || c.next_fidelity == none || ltb 0 remaining)
        ≡ true
    pub best :
        (not c.best_eligible
          || (r.canonical.fidelity == Fidelity.full
              && r.canonical.population == Population.public_validation
              && r.canonical.trust.verdict == TrustVerdict.accepted
              && r.canonical.trust.stability == Stability.confirmed
              && is_clean r
              && c.action == ExperimentDecisionKind.accept
              && improves_best r))
        ≡ true

  module _ (r : DomainResult) (remaining : ℕ) where
    proxy_choice-Fits :
        (r.canonical.fidelity == Fidelity.full) ≡ false → Fits r remaining (proxy_choice r)
    unfolding proxy_choice
    proxy_choice-Fits half = record {
      promotes = ground arith;
      next = ground arith;
      paid = ground arith;
      best = ground arith;
    }

    module _
        (public_full : (r.canonical.population == Population.public_validation
            && r.canonical.fidelity == Fidelity.full)
          ≡ true)
        (c : Choice) where
      single_seed_choice-Fits : single_seed_choice r remaining ≡ some c → Fits r remaining c
      unfolding single_seed_choice
      single_seed_choice-Fits h = record {
        promotes = ground arith;
        next = ground arith;
        paid = ground arith;
        best = ground arith;
      }

      confirmed_choice-Fits : confirmed_choice r ≡ some c → Fits r remaining c
      unfolding confirmed_choice
      confirmed_choice-Fits h = record {
        promotes = ground arith;
        next = ground arith;
        paid = ground arith;
        best = ground arith;
      }

      exploratory_choice-Fits : exploratory_choice r ≡ some c → Fits r remaining c
      unfolding exploratory_choice
      exploratory_choice-Fits h = record {
        promotes = ground arith;
        next = ground arith;
        paid = ground arith;
        best = ground arith;
      }

    rejected_choice-Fits : Fits r remaining (rejected_choice r)
    unfolding rejected_choice
    rejected_choice-Fits = record {
      promotes = ground arith;
      next = ground arith;
      paid = ground arith;
      best = ground arith;
    }

    full_choice-Fits :
        (r.canonical.population == Population.public_validation
            && r.canonical.fidelity == Fidelity.full)
          ≡ true
        → Fits r remaining (full_choice r remaining)
    unfolding full_choice
    full_choice-Fits h =
        elim (Option-cases
          (single_seed_choice r remaining orelse confirmed_choice r orelse exploratory_choice r)) [
            | inl none_yet ↦ rw (full_choice, none_yet) rejected_choice-Fits
            | inr (c, chosen) ↦
                rw (full_choice, chosen)
                  (orelse_lem _ _ (single_seed_choice-Fits h c)
                    (orelse_lem _ _ (confirmed_choice-Fits h c) (exploratory_choice-Fits h c))
                    chosen)
          ]

    pub choose-Fits :
        (c : Choice)
        → has_valid_route r.canonical ≡ true
        → choose r remaining ≡ ok c
        → Fits r remaining c
    unfolding choose has_valid_route
    choose-Fits c valid h =
        elim (Bool-cases (
          r.canonical.fidelity == Fidelity.proxy
          || r.canonical.population == Population.internal_proxy)) [
            | inl proxy ↦
                let returned : choose r remaining ≡ ok (proxy_choice r) = rw (choose, proxy) refl in
                subst (Fits r remaining) (ok_injective (proxy_choice r) c (sym returned ∙ h))
                  (proxy_choice-Fits (ground arith))
            | inr full ↦
                let public_full : (r.canonical.population == Population.public_validation
                      && r.canonical.fidelity == Fidelity.full)
                    ≡ true =
                  ground arith in
                let returned : choose r remaining ≡ ok (full_choice r remaining) =
                  rw (choose, full, public_full) refl in
                subst (Fits r remaining)
                  (ok_injective (full_choice r remaining) c (sym returned ∙ h))
                  (full_choice-Fits public_full)
          ]
