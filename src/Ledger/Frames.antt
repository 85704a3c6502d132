-- ===== src/Ledger/Frames.antt =====
-- What the handlers that mutate one node leave alone.
use tacorank.Prelude.{
  ◌==◌, nat_eq, string_eq, option_eq, Bool-cases, Option-cases, int_eq, String, ◌≡◌, refl, sym,
  subst, inl, inr, some, arith,
}
use mathlib.Core.Option.{some-injective}
use tacorank.Dict.{Dict, get, set, get-set}
use tacorank.Float.{Floats}
use tacorank.Projection.Experiment.{with_node}
use tacorank.Projection.Fold.{Projection, close_experiment, on_closed, on_state}
use tacorank.Result.{Result, ok_injective, ok, err}
use tacorank.Schemas.Judgements.{
  trust_verdict_eq, stability_eq, integrity_eq, experiment_decision_kind_eq, lesson_origin_eq,
  lesson_category_eq, lesson_status_eq, token_measurement_eq,
}
use tacorank.Schemas.Records.{ExperimentDecision}
use tacorank.Schemas.Runs.{
  fidelity_eq, run_outcome_eq, recovery_action_eq, population_eq, failure_stage_eq, role_eq,
}
use tacorank.Schemas.Statuses.{run_status_eq, experiment_status_eq}
use tacorank.State.{ExperimentNode, RunState}

module _ ⦃F : Floats⦄ where
  pub with_node-eq-ok :
      (i : String) (f : ExperimentNode → ExperimentNode) (s s' : RunState)
      → with_node i f s ≡ ok s'
      → (n : ExperimentNode) × (get s.experiments i ≡ some n)
        × (s' ≡ record s { experiments = set s.experiments i (f n) })
  unfolding with_node
  with_node-eq-ok i f s s' h = elim (Option-cases (get s.experiments i)) [
    | inl e ↦ absurd (ground arith)
    | inr k ↦ (k.0, k.1, ground arith)
  ]

  pub on_state-eq-ok :
      (p : Projection) (r : Result RunState) (q : Projection)
      → on_state p r ≡ ok q
      → (s : RunState) × (r ≡ ok s) × (q ≡ record p { state = s })
  on_state-eq-ok p (ok s) q h = (s, refl, ground arith)
  on_state-eq-ok p (err e) q h = cc

  -- every node of a table has the property
  abbrev pub AllNodes : (ExperimentNode → Type 0) → Dict ExperimentNode → Type 0
  AllNodes P d = (i : String) (n : ExperimentNode) → get d i ≡ some n → P n

  pub AllNodes-set :
      (P : ExperimentNode → Type 0) (d : Dict ExperimentNode) (i : String) (m : ExperimentNode)
      → AllNodes P d
      → P m
      → AllNodes P (set d i m)
  AllNodes-set P d i m every pm j n h = elim (Bool-cases (i == j)) [
    | inl e ↦ subst P (some-injective m n (rw (get-set, e) at h)) pm
    | inr e ↦ every j n (rw (get-set, e) at h)
  ]

  pub on_closed-eq-ok :
      (i : String) (d : ExperimentDecision) (p q : Projection)
      → on_closed i d p ≡ ok q
      → (n : ExperimentNode) × (get p.state.experiments d.experiment_id ≡ some n)
        × (q ≡ close_experiment i d p n)
  unfolding on_closed
  on_closed-eq-ok i d p q h = elim (Option-cases (get p.state.experiments d.experiment_id)) [
    | inl e ↦ absurd (ground arith)
    | inr k ↦ (k.0, k.1, sym (ok_injective _ _ (rw (k.1, on_closed) at h)))
  ]
