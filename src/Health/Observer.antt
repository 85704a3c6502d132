-- ===== src/Health/Observer.antt =====
-- `SREObserver` of src/tacorank/sre/observer.py.
use tacorank.Prelude.{
  if◌then◌else◌, ◌==◌, nat_eq, string_eq, option_eq, int_eq, ℕ, String, Bool, false, ◌&&◌, Option,
  none, some,
}
use tacorank.Float.{Floats}
use tacorank.Health.Policy.{MonitorDirective, HealthPolicyConfig, evaluate}
use tacorank.Health.Window.{TelemetrySample, TelemetryWindow, new_window, add, clear}
use tacorank.Result.{Result, ok, ◌>>=◌}
use tacorank.Schemas.Judgements.{
  trust_verdict_eq, stability_eq, integrity_eq, experiment_decision_kind_eq, lesson_origin_eq,
  lesson_category_eq, lesson_status_eq, token_measurement_eq,
}
use tacorank.Schemas.Runs.{
  fidelity_eq, run_outcome_eq, recovery_action_eq, population_eq, failure_stage_eq, role_eq,
}
use tacorank.Schemas.Statuses.{run_status_eq, experiment_status_eq}

abbrev pub Identity : Type 0
Identity = String × String × ℕ

abbrev pub is_identity : Option Identity → Identity → Bool
is_identity none i = false
is_identity (some j) i = j.0 == i.0 && j.1 == i.1 && j.2 == i.2

module _ ⦃F : Floats⦄ where
  pub record SreObserver : Type 0 where
    pub window : TelemetryWindow
    pub execution_identity : Option Identity

  abbrev pub identity_of : TelemetrySample → Identity
  identity_of sample = (sample.run_id, sample.experiment_id, sample.attempt)

  unfoldable pub new_observer : ℕ → Result SreObserver
  unfolding new_window
  new_observer capacity = do
    window ← new_window capacity
    ok (record { window = window; execution_identity = none })

  -- the observer after a sample: a sample of another execution first clears the window
  unfoldable pub observed : SreObserver → TelemetrySample → SreObserver
  unfolding add
  observed o sample =
      if is_identity o.execution_identity (identity_of sample)
      then record o { window = add o.window sample }
      else record {
        window = add (clear o.window) sample;
        execution_identity = some (identity_of sample);
      }

  abbrev pub observe :
      HealthPolicyConfig → SreObserver → TelemetrySample → SreObserver × Result MonitorDirective
  observe config o sample = (observed o sample, evaluate config (observed o sample).window)
