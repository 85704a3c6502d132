-- ===== src/Convergence/Stopping.antt =====
-- What the stop rules of src/tacorank/orchestrator/convergence.py guarantee.
use tacorank.Prelude.{
  leb, if◌then◌else◌, Bool-cases, Option-cases, ℕ, ◌*◌, ◌<◌, String, ◌≡◌, refl, sym, ap, ◌∙◌, subst,
  inl, inr, Bool, true, false, none, some, List, [], ◌∷◌, ◌++◌, arith,
}
use mathlib.Core.Option.{some-injective}
use tacorank.Accounting.{total_reported_tokens}
use tacorank.Convergence.{
  RunConfig, StopDecision, convergence_pressure, is_reached, runtime_budget_decision, stop_decision,
}
use tacorank.Float.{Floats}
use tacorank.Ledger.{Legal}
use tacorank.Ledger.Induction.{run_events-snoc, project-eq-ok}
use tacorank.Ledger.Progress.{project-Legal}
use tacorank.Ledger.Running.{check_payload-accepts_proposals}
use tacorank.Ledger.Summary.{Summary, summarize, advance, step-Summary}
use tacorank.Projection.Fold.{conclude, project}
use tacorank.Projection.Run.{on_run_stopped}
use tacorank.Result.{ok}
use tacorank.Schemas.Events.{EventPayload, Event}
use tacorank.Schemas.Statuses.{RunStatus, run_status_iff}
use tacorank.State.{is_finalizable_stop_reason, RunState}
use tacorank.Transition.Closing.{check_run_stopped}
use tacorank.Transition.Planning.{accepts_proposals}
use tacorank.Transition.Validate.{is_run_started, check_payload, validate_transition}
use tacorank.Transition.Views.{as_baseline_verified, occurs}

module _ ⦃F : Floats⦄ where
  finalizable :
      (a r : String) (o : StopDecision)
      → o ≡ some a
      → is_finalizable_stop_reason a ≡ true
      → o ≡ some r
      → is_finalizable_stop_reason r ≡ true
  finalizable a r o e normal h =
      subst (λ x. is_finalizable_stop_reason x ≡ true) (some-injective a r (sym e ∙ h)) normal

  runtime_budget_decision-finalizable :
      (s : RunState) (config : RunConfig) (r : String)
      → runtime_budget_decision s config ≡ some r
      → is_finalizable_stop_reason r ≡ true
  unfolding runtime_budget_decision is_finalizable_stop_reason
  runtime_budget_decision-finalizable s config r h =
      elim (Bool-cases (leb (config.wall_time_limit_seconds * 1000000) s.elapsed_wall_time_us)) [
        | inl e ↦ finalizable "wall_time_budget" r _ (rw e refl) refl h
        | inr e ↦
            elim (Bool-cases
              (is_reached config.token_limit (total_reported_tokens s.resource_totals))) [
                | inl k ↦ finalizable "token_budget" r _ (rw (e, k) refl) refl h
                | inr k ↦ finalizable "gpu_budget" r _ (ground arith) refl h
              ]
      ]

  stop_decision-finalizable :
      (s : RunState) (events : List Event) (config : RunConfig) (no_legal_proposal : Bool)
      (r : String)
      → stop_decision s events config false no_legal_proposal ≡ some r
      → is_finalizable_stop_reason r ≡ true
  unfolding stop_decision is_finalizable_stop_reason
  stop_decision-finalizable s events config no_legal_proposal r h =
      elim (Bool-cases (leb config.max_experiments s.experiments_proposed)) [
        | inl e ↦ finalizable "experiment_budget" r _ (rw e refl) refl h
        | inr e ↦ elim (Option-cases (runtime_budget_decision s config)) [
          | inr (x, k) ↦ runtime_budget_decision-finalizable s config r (k ∙ (ground arith))
          | inl k ↦
              elim (Bool-cases
                (leb config.convergence_patience (convergence_pressure events config))) [
                  | inl j ↦ finalizable "converged" r _ (rw (e, k, j) refl) refl h
                  | inr j ↦ finalizable "no_legal_proposal" r _ (ground arith) refl h
                ]
        ]
      ]

  stop_decision-stopped :
      (s : RunState) (events : List Event) (config : RunConfig) (fatal no_legal_proposal : Bool)
      (reason : String)
      → stop_decision s events config fatal no_legal_proposal ≡ some reason
      → (on_run_stopped (record { reason_code = reason }) s).status
        ≡ (if fatal then RunStatus.failed else RunStatus.stopped)
  unfolding on_run_stopped stop_decision is_finalizable_stop_reason
  stop_decision-stopped s events config true no_legal_proposal reason h =
      ap (λ r. (on_run_stopped (record { reason_code = r }) s).status)
        (some-injective reason "fatal_integrity" (sym h))
  stop_decision-stopped s events config false no_legal_proposal reason h =
      rw (stop_decision-finalizable s events config no_legal_proposal reason h) refl

  after_stop :
      (l : List Event) (e : Event) (t : RunState) (reason : String)
      → e.payload ≡ EventPayload.run_stopped (record { reason_code = reason })
      → project (l ++ e ∷ []) ≡ ok t
      → t.status
        ≡ (if is_finalizable_stop_reason reason then RunStatus.stopped else RunStatus.failed)
  unfolding conclude advance
  after_stop l e t reason stops h =
      let (q, ran, concluded) = project-eq-ok (l ++ e ∷ []) t h in
      let (p, before, last) = run_events-snoc l e ran in
      ap (λ (s : RunState). s.status) concluded
      ∙ ap (λ (v : Summary). v.status) (step-Summary p q e last)
      ∙ ap (λ payload. (advance (summarize p.state) payload).status) stops

  -- When the stop rules decide to stop a ready or running run whose baseline is verified, the state
  -- machine accepts the run.stopped event with their reason, and the ledger with it projects to a
  -- state that is failed where an integrity condition is fatal, and otherwise stopped, from which it
  -- can be finalized. The stops that the router makes itself, after failures, are not decided by
  -- these rules.
  pub stop_decision-validate_transition :
      (l : List Event) (s : RunState) (config : RunConfig) (fatal no_legal_proposal : Bool)
      (reason : String) (e : Event)
      → Legal l
      → project l ≡ ok s
      → accepts_proposals s ≡ true
      → occurs as_baseline_verified l ≡ true
      → stop_decision s l config fatal no_legal_proposal ≡ some reason
      → e.payload ≡ EventPayload.run_stopped (record { reason_code = reason })
      → (validate_transition l e.payload ≡ ok tt)
        × (t : RunState) × (project (l ++ e ∷ []) ≡ ok t)
        × (t.status ≡ (if fatal then RunStatus.failed else RunStatus.stopped))
  unfolding on_run_stopped check_payload check_run_stopped is_run_started
  stop_decision-validate_transition l s config fatal no_legal_proposal reason e legal projects
        accepting begun decided stops =
      let checked : check_payload l s (EventPayload.run_stopped (record { reason_code = reason }))
          ≡ ok tt =
        ground (arith, run_status_iff s.status RunStatus.stopped) in
      let valid : validate_transition l e.payload ≡ ok tt =
        rw stops (check_payload-accepts_proposals l s _ projects accepting refl checked) in
      let (t, projected) = project-Legal (l ++ e ∷ []) (Legal.append l e legal valid refl) in
      (
        valid,
        t,
        projected,
        after_stop l e t reason stops projected
            ∙ stop_decision-stopped s l config fatal no_legal_proposal reason decided,
      )

  -- what is left when the run goes on
  pub record HasBudget (s : RunState) (events : List Event) (config : RunConfig) : Type 0 where
    pub experiments : s.experiments_proposed < config.max_experiments
    pub wall_time : s.elapsed_wall_time_us < config.wall_time_limit_seconds * 1000000
    pub tokens : (n : ℕ) → config.token_limit ≡ some n → total_reported_tokens s.resource_totals < n
    pub gpu :
        (n : ℕ)
        → config.gpu_seconds_limit ≡ some n
        → s.resource_totals.gpu_weighted_time_ms < n * 1000
    pub patience : convergence_pressure events config < config.convergence_patience

  -- The run goes on only when no integrity condition is fatal, a legal proposal remains, and every
  -- budget and the patience are not used up: reaching a limit already stops it.
  pub stop_decision-HasBudget :
      (s : RunState) (events : List Event) (config : RunConfig) (fatal no_legal_proposal : Bool)
      → stop_decision s events config fatal no_legal_proposal ≡ none
      → HasBudget s events config × (fatal ≡ false) × (no_legal_proposal ≡ false)
  unfolding stop_decision runtime_budget_decision
  stop_decision-HasBudget s events config fatal no_legal_proposal h = (
    record {
      experiments = ground arith;
      wall_time = ground arith;
      tokens = λ n e. ground arith;
      gpu = λ n e. ground arith;
      patience = ground arith;
    },
    ground arith,
    ground arith,
  )
