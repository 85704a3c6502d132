-- ===== src/Health/Detectors.antt =====
-- src/tacorank/sre/anomaly_detection.py and src/tacorank/sre/heartbeat.py.
use tacorank.Prelude.{
  ltb, leb, if◌then◌else◌, length, take, any, all, views, ℕ, ◌+◌, ◌-◌, String, Bool, true, false,
  not, ◌&&◌, ◌||◌, Option, none, some, List, [], ◌∷◌, map,
}
use tacorank.Evaluation.Seeds.{fmax}
use tacorank.Float.{Floats, Fl}
use tacorank.Health.Window.{tail_slice, TelemetrySample}
use tacorank.Result.{Result, ◌>>=◌, require_or, ok, err, value_error, ◌>>◌}

module _ ⦃F : Floats⦄ where
  abbrev is_nonfinite : Option Fl → Bool
  is_nonfinite none = false
  is_nonfinite (some x) = not (F.is_finite x)

  unfoldable pub first_nonfinite_metric : TelemetrySample → Option String
  first_nonfinite_metric sample =
      if is_nonfinite sample.loss
      then some "loss"
      else if is_nonfinite sample.gradient_norm
      then some "gradient_norm"
      else none

  abbrev pub is_finite_value : Option Fl → Bool
  is_finite_value none = false
  is_finite_value (some x) = F.is_finite x

  -- value is not None and math.isfinite(value)
  abbrev pub finite_value : Option Fl → Option Fl
  finite_value none = none
  finite_value (some x) = if F.is_finite x then some x else none

  -- abs(value) > threshold, of the values that are there
  abbrev pub exceeds : Fl → Option Fl → Bool
  exceeds threshold none = true
  exceeds threshold (some x) = F.flt threshold (F.fabs x)

  pub record ExplosionLimits : Type 0 where
    pub multiplier : Fl
    pub baseline_samples : ℕ
    pub persistence : ℕ

  -- the default of `baseline_floor`
  abbrev baseline_floor : Fl
  baseline_floor = F.lit 1 12

  -- `statistics.median`, which raises a `ValueError` on no data
  unfoldable pub median_of : List Fl → Result Fl
  median_of [] = err (value_error "no median for empty data")
  median_of (x ∷ xs) = ok (F.median x xs)

  abbrev pub explosion_threshold : ExplosionLimits → Fl → Fl
  explosion_threshold limits median = F.fmul (fmax (F.fabs median) baseline_floor) limits.multiplier

  -- what follows the checks of the arguments
  unfoldable pub is_exploded : ExplosionLimits → List (Option Fl) → Result Bool
  unfolding tail_slice any all views median_of
  is_exploded limits recorded =
      let candidates = tail_slice limits.persistence recorded in
      let history = views finite_value (take (length recorded - limits.persistence) recorded) in
      let baseline = median_of (tail_slice limits.baseline_samples history) in
      if not (leb (limits.baseline_samples + limits.persistence) (length recorded))
        || not (all is_finite_value candidates)
        || not (leb limits.baseline_samples (length history))
      then ok false
      else baseline >>= λ median. ok (all (exceeds (explosion_threshold limits median)) candidates)

  unfoldable pub persistent_explosion :
      List TelemetrySample → (TelemetrySample → Option Fl) → ExplosionLimits → Result Bool
  unfolding is_exploded
  persistent_explosion samples metric limits = do
    require_or (not (F.fle limits.multiplier (F.lit 1 0)))
        (value_error "explosion multiplier must be greater than one")
    require_or (leb 1 limits.baseline_samples && leb 2 limits.persistence)
        (value_error "baseline_samples must be positive and persistence >= 2")
    is_exploded limits (map metric samples)

  pub record HeartbeatPolicy : Type 0 where
    pub deadline_ms : ℕ
    pub minimum_stale_samples : ℕ
    pub cpu_idle_percent : Fl
    pub cpu_unchanged_delta_percent : Fl
    pub cpu_unchanged_ceiling_percent : Fl
    pub gpu_expected : Bool
    pub gpu_idle_percent : Fl

  -- max(values) and min(values) of what follows a first value
  abbrev largest : Fl → List Fl → Fl
  largest best [] = best
  largest best (x ∷ xs) = largest (fmax best x) xs

  abbrev smallest : Fl → List Fl → Fl
  smallest best [] = best
  smallest best (x ∷ xs) = smallest (if F.flt x best then x else best) xs

  -- `cpu_low_and_unchanged`
  unfoldable pub is_low_and_unchanged : HeartbeatPolicy → List Fl → Result Bool
  is_low_and_unchanged policy [] = err (value_error "max() iterable argument is empty")
  is_low_and_unchanged policy (x ∷ xs) = ok (
      F.fle (largest x xs) policy.cpu_unchanged_ceiling_percent
      && F.fle (F.fsub (largest x xs) (smallest x xs)) policy.cpu_unchanged_delta_percent)

  abbrev pub is_gpu_idle : HeartbeatPolicy → TelemetrySample → Bool
  is_gpu_idle policy sample = elim sample.gpu_utilization_percent [
    | none ↦ false
    | some x ↦ F.fle x policy.gpu_idle_percent
  ]

  abbrev pub is_stale : HeartbeatPolicy → TelemetrySample → Bool
  is_stale policy sample = leb policy.deadline_ms sample.last_output_age_ms

  unfoldable pub is_idle : HeartbeatPolicy → List TelemetrySample → Result Bool
  unfolding is_low_and_unchanged all
  is_idle policy recent = do
    unchanged ← is_low_and_unchanged policy (map (λ (s : TelemetrySample). s.cpu_percent) recent)
    ok (
        (all (λ (s : TelemetrySample). F.fle s.cpu_percent policy.cpu_idle_percent) recent
          || unchanged)
        && (not policy.gpu_expected || all (is_gpu_idle policy) recent))

  unfoldable pub likely_hang : List TelemetrySample → HeartbeatPolicy → Result Bool
  unfolding is_idle tail_slice all
  likely_hang samples policy =
      let recent = tail_slice policy.minimum_stale_samples samples in
      let idle = is_idle policy recent in
      if ltb (length samples) policy.minimum_stale_samples
        || not (all (λ (s : TelemetrySample). s.process_alive) recent)
        || not (all (is_stale policy) recent)
      then ok false
      else idle
