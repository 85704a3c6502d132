-- ===== src/Examples/Samples.antt =====
-- The theorems on health at two samples of one execution.
use tacorank.Prelude.{ℕ, ◌≡◌, refl, true, false, none, some, [], arith}
use tacorank.Health.Current.{current, Observing, Holds, Observing-Holds}
use tacorank.Examples.Run.{nat_scores}
use tacorank.Health.Observer.{observe, SreObserver, new_observer, observed}
use tacorank.Health.Policy.{
  MonitorDirective, HealthPolicyConfig, check_heartbeat, check_config, evaluate,
}
use tacorank.Health.Verdicts.{IsOther, evaluate-returns, observe-fresh}
use tacorank.Health.Window.{TelemetrySample, new_window}
use tacorank.Result.{ok}

abbrev limits : HealthPolicyConfig
limits = record {
  heartbeat = record {
    deadline_ms = 60000;
    minimum_stale_samples = 2;
    cpu_idle_percent = 5;
    cpu_unchanged_delta_percent = 1;
    cpu_unchanged_ceiling_percent = 10;
    gpu_expected = false;
    gpu_idle_percent = 5;
  };
  cpu_memory_limit_mb = some 4000;
  gpu_memory_limit_mb = none;
  disk_free_floor_mb = some 100;
  anomaly = record { multiplier = 5; baseline_samples = 5; persistence = 2 };
  is_oom = λ tail. false;
  is_policy_violation = λ tail. false;
}

abbrev sample_at : ℕ → ℕ → TelemetrySample
sample_at attempt age = record {
  run_id = "r";
  experiment_id = "e1";
  attempt = attempt;
  process_alive = true;
  last_output_age_ms = age;
  cpu_percent = 1;
  rss_mb = 200;
  gpu_utilization_percent = none;
  gpu_memory_mb = none;
  loss = some 3;
  gradient_norm = none;
  disk_free_mb = 5000;
  recent_output_tail = "epoch 1";
}

abbrev unused : SreObserver
unused = record { window = record { capacity = 2; samples = [] }; execution_identity = none }

limits_valid : check_config limits ≡ ok tt
unfolding check_config check_heartbeat
limits_valid = refl

abbrev watching : SreObserver
watching = observed (observed unused (sample_at 1 70000)) (sample_at 2 80000)

unused-Observing : Observing unused []
unfolding new_observer new_window
unused-Observing = Observing.begun 2 unused refl

watching-Observing :
    Observing watching (current (current [] (sample_at 1 70000)) (sample_at 2 80000))
watching-Observing =
    Observing.seeing (observed unused (sample_at 1 70000)) (current [] (sample_at 1 70000))
      (sample_at 2 80000) (Observing.seeing unused [] (sample_at 1 70000) unused-Observing)

Observing-Holds_example :
    Holds watching (current (current [] (sample_at 1 70000)) (sample_at 2 80000))
Observing-Holds_example =
    Observing-Holds watching (current (current [] (sample_at 1 70000)) (sample_at 2 80000))
      watching-Observing

evaluate-returns_example : (d : MonitorDirective) × (evaluate limits watching.window ≡ ok d)
evaluate-returns_example = evaluate-returns limits watching.window limits_valid

observe-fresh_example :
    (d : MonitorDirective) × ((observe limits watching (sample_at 2 50)).1 ≡ ok d) × IsOther d
observe-fresh_example =
    observe-fresh limits watching (current (current [] (sample_at 1 70000)) (sample_at 2 80000))
      (sample_at 2 50) limits_valid watching-Observing (omega arith)
