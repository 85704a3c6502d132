-- ===== src/Health/Policy.antt =====
-- src/tacorank/sre/health_policy.py. The search of the compiled patterns in the output is a parameter.
use tacorank.Prelude.{
  ◌orelse◌, ltb, leb, if◌then◌else◌, join, ℕ, String, Bool, false, not, ◌||◌, Option, none, some,
  List,
}
use tacorank.Evaluation.Seeds.{zero_score}
use tacorank.Float.{Floats, Fl}
use tacorank.Health.Detectors.{
  first_nonfinite_metric, ExplosionLimits, persistent_explosion, HeartbeatPolicy, likely_hang,
}
use tacorank.Health.Window.{TelemetrySample, TelemetryWindow, latest}
use tacorank.Result.{Result, ◌>>=◌, Check, require_or, ok, value_error, ◌>>◌}

pub data MonitorAction : Type 0 where
  continue terminate : MonitorAction

pub record MonitorDirective : Type 0 where
  pub action : MonitorAction
  pub reason_code : Option String
  pub summary : Option String

abbrev pub continued : MonitorDirective
continued = record { action = MonitorAction.continue; reason_code = none; summary = none }

abbrev pub terminated : String → String → MonitorDirective
terminated reason summary = record {
  action = MonitorAction.terminate;
  reason_code = some reason;
  summary = some summary;
}

unfoldable pub terminate_if : Bool → String → String → Option MonitorDirective
terminate_if b reason summary = if b then some (terminated reason summary) else none

module _ ⦃F : Floats⦄ where
  pub record HealthPolicyConfig : Type 0 where
    pub heartbeat : HeartbeatPolicy
    pub cpu_memory_limit_mb : Option Fl
    pub gpu_memory_limit_mb : Option Fl
    pub disk_free_floor_mb : Option Fl
    pub anomaly : ExplosionLimits
    pub is_oom : String → Bool
    pub is_policy_violation : String → Bool

  abbrev below_zero : Option Fl → Bool
  below_zero none = false
  below_zero (some x) = F.flt x zero_score

  -- `HeartbeatPolicy.__post_init__`
  unfoldable pub check_heartbeat : HeartbeatPolicy → Check
  check_heartbeat policy = do
    require_or (ltb 0 policy.deadline_ms) (value_error "heartbeat deadline must be positive")
    require_or (leb 2 policy.minimum_stale_samples)
        (value_error "hang detection requires at least two stale samples")
    require_or
        (not (
          F.flt policy.cpu_idle_percent zero_score
          || F.flt policy.cpu_unchanged_delta_percent zero_score
          || F.flt policy.cpu_unchanged_ceiling_percent zero_score
          || F.flt policy.gpu_idle_percent zero_score))
        (value_error "heartbeat utilization thresholds cannot be negative")

  -- `HealthPolicyConfig.__post_init__`, after that of its heartbeat policy
  unfoldable pub check_config : HealthPolicyConfig → Check
  unfolding check_heartbeat
  check_config config = do
    check_heartbeat config.heartbeat
    require_or
        (not (
          below_zero config.cpu_memory_limit_mb
          || below_zero config.gpu_memory_limit_mb
          || below_zero config.disk_free_floor_mb))
        (value_error "resource thresholds cannot be negative")
    require_or (not (F.fle config.anomaly.multiplier (F.lit 1 0)))
        (value_error "anomaly multiplier must be greater than one")
    require_or (leb 1 config.anomaly.baseline_samples)
        (value_error "anomaly baseline must contain at least one sample")
    require_or (leb 2 config.anomaly.persistence)
        (value_error "anomaly persistence must be at least two samples")

  module _ (config : HealthPolicyConfig) where
    unfoldable pub process_stage : TelemetrySample → Option MonitorDirective
    unfolding first_nonfinite_metric
    process_stage sample =
        terminate_if (not sample.process_alive) "PROCESS_DIED" "Process exited unexpectedly."
        orelse elim (first_nonfinite_metric sample) [
          | none ↦ none
          | some metric ↦
              some
                (terminated "NUMERICAL_NONFINITE" (join "Non-finite " (join metric " detected.")))
        ]
        orelse terminate_if (config.is_oom sample.recent_output_tail) "EXPLICIT_OOM"
            "Explicit out-of-memory failure detected."

    abbrev is_under : ℕ → Option Fl → Bool
    is_under amount none = false
    is_under amount (some floor) = F.flt (F.of_ℕ amount) floor

    abbrev pub is_over : ℕ → Option Fl → Bool
    is_over amount none = false
    is_over amount (some limit) = F.flt limit (F.of_ℕ amount)

    abbrev gpu_is_over : Option ℕ → Bool
    gpu_is_over none = false
    gpu_is_over (some amount) = is_over amount config.gpu_memory_limit_mb

    unfoldable pub resource_stage : TelemetrySample → Option MonitorDirective
    resource_stage sample =
        terminate_if (is_under sample.disk_free_mb config.disk_free_floor_mb) "DISK_LOW"
          "Available disk is below the configured safe floor."
        orelse terminate_if (config.is_policy_violation sample.recent_output_tail)
            "EXECUTION_POLICY_VIOLATION" "Execution policy violation reported."
        orelse terminate_if (is_over sample.rss_mb config.cpu_memory_limit_mb) "CPU_MEMORY_LIMIT"
            "Process memory exceeds the configured hard limit."
        orelse terminate_if (gpu_is_over sample.gpu_memory_mb) "GPU_MEMORY_LIMIT"
            "GPU memory exceeds the configured hard limit."

    unfoldable pub rolling_stage : List TelemetrySample → Result MonitorDirective
    unfolding likely_hang persistent_explosion
    rolling_stage samples = do
      hangs ← likely_hang samples config.heartbeat
      let loss = persistent_explosion samples (λ s. s.loss) config.anomaly
      let gradient = persistent_explosion samples (λ s. s.gradient_norm) config.anomaly
      (if hangs
          then ok (terminated "HEARTBEAT_STALE" "Multiple signals indicate stalled progress.")
          else loss >>= λ loss_explodes.
              if loss_explodes
              then ok (terminated "LOSS_EXPLOSION" "Persistent loss explosion detected.")
              else gradient >>= λ gradient_explodes. ok (
                  if gradient_explodes
                  then terminated "GRADIENT_EXPLOSION"
                      "Persistent gradient-norm explosion detected."
                  else continued))

    unfoldable pub evaluate : TelemetryWindow → Result MonitorDirective
    unfolding process_stage resource_stage rolling_stage
    evaluate window =
        let rolling = rolling_stage window.samples in
        elim (latest window) [
          | none ↦ ok continued
          | some sample ↦ elim (process_stage sample orelse resource_stage sample) [
            | some directive ↦ ok directive
            | none ↦ rolling
          ]
        ]
