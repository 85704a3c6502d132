-- ===== src/Health/Window.antt =====
-- src/tacorank/sre/telemetry_window.py, and the sample that it holds.
use tacorank.Prelude.{
  ltb, leb, if◌then◌else◌, ◌==◌, nat_eq, string_eq, option_eq, length, drop, last?, int_eq, ℕ, ◌-◌,
  String, Bool, Option, List, [], ◌∷◌, ◌++◌,
}
use tacorank.Float.{Floats, Fl}
use tacorank.Result.{Result, require_or, ok, value_error, ◌>>◌}
use tacorank.Schemas.Judgements.{
  trust_verdict_eq, stability_eq, integrity_eq, experiment_decision_kind_eq, lesson_origin_eq,
  lesson_category_eq, lesson_status_eq, token_measurement_eq,
}
use tacorank.Schemas.Runs.{
  fidelity_eq, run_outcome_eq, recovery_action_eq, population_eq, failure_stage_eq, role_eq,
}
use tacorank.Schemas.Statuses.{run_status_eq, experiment_status_eq}

-- xs[-n:], all of them where n is 0
unfoldable pub tail_slice {ℓ} : {A : Type ℓ} → ℕ → List A → List A
unfolding drop
tail_slice n xs = if n == 0 then xs else drop (length xs - n) xs

module _ ⦃F : Floats⦄ where
  pub record TelemetrySample : Type 0 where
    pub run_id : String
    pub experiment_id : String
    pub attempt : ℕ
    pub process_alive : Bool
    pub last_output_age_ms : ℕ
    pub cpu_percent : Fl
    pub rss_mb : ℕ
    pub gpu_utilization_percent : Option Fl
    pub gpu_memory_mb : Option ℕ
    pub loss : Option Fl
    pub gradient_norm : Option Fl
    pub disk_free_mb : ℕ
    pub recent_output_tail : String

  -- `deque(maxlen=capacity)`
  pub record TelemetryWindow : Type 0 where
    pub capacity : ℕ
    pub samples : List TelemetrySample

  unfoldable pub new_window : ℕ → Result TelemetryWindow
  new_window capacity = do
    require_or (leb 1 capacity) (value_error "telemetry window capacity must be a positive integer")
    ok (record { capacity = capacity; samples = [] })

  abbrev pub latest : TelemetryWindow → Option TelemetrySample
  latest window = last? window.samples

  -- an append to a full deque drops its first element
  unfoldable pub add : TelemetryWindow → TelemetrySample → TelemetryWindow
  unfolding drop
  add window sample =
      let grown = window.samples ++ sample ∷ [] in
      record window { samples = if ltb window.capacity (length grown) then drop 1 grown else grown }

  abbrev pub clear : TelemetryWindow → TelemetryWindow
  clear window = record window { samples = [] }
