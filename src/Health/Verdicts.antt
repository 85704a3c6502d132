-- ===== src/Health/Verdicts.antt =====
-- What `evaluate` of src/tacorank/sre/health_policy.py says of a window.
use tacorank.Prelude.{
  ◌orelse◌, orelse_lem, ltb, leb, if◌then◌else◌, ◌==◌, nat_eq, string_eq, option_eq, Bool-cases,
  Option-cases, length, take, join, all, last?, views, int_eq, ◌+◌, ◌-◌, ◌≤◌, ◌<◌, String, ◌≡◌,
  refl, ap, ◌∙◌, subst, inl, inr, Bool, true, false, not, ◌||◌, Option, none, some, List, [], ◌∷◌,
  map, arith,
}
use tacorank.Float.{Floats, Fl}
use tacorank.Health.Current.{current, Observing, Observing-Holds, last?-current}
use tacorank.Health.Detectors.{
  first_nonfinite_metric, is_finite_value, finite_value, exceeds, ExplosionLimits, median_of,
  explosion_threshold, is_exploded, persistent_explosion, HeartbeatPolicy, is_low_and_unchanged,
  is_stale, is_idle, likely_hang,
}
use tacorank.Health.Observer.{observe, SreObserver, observed}
use tacorank.Health.Policy.{
  MonitorDirective, continued, terminated, terminate_if, HealthPolicyConfig, check_heartbeat,
  check_config, process_stage, resource_stage, rolling_stage, evaluate,
}
use tacorank.Health.Slices.{last?-tail_slice, last?-begun, last?-all}
use tacorank.Health.Window.{tail_slice, TelemetrySample, TelemetryWindow, latest}
use tacorank.Result.{ok}
use tacorank.Schemas.Judgements.{
  trust_verdict_eq, stability_eq, integrity_eq, experiment_decision_kind_eq, lesson_origin_eq,
  lesson_category_eq, lesson_status_eq, token_measurement_eq,
}
use tacorank.Schemas.Runs.{
  fidelity_eq, run_outcome_eq, recovery_action_eq, population_eq, failure_stage_eq, role_eq,
}
use tacorank.Schemas.Statuses.{run_status_eq, experiment_status_eq}

-- the stages but the one on the heartbeat
abbrev pub IsOther : MonitorDirective → Type 0
IsOther d = (d.reason_code == some "HEARTBEAT_STALE") ≡ false

some-IsOther :
    (made d : MonitorDirective)
    → IsOther made
    → ◌≡◌ {A = Option MonitorDirective} (some made) (some d)
    → IsOther d
some-IsOther made d h e = let same : made ≡ d = cc in subst IsOther same h

terminate_if-IsOther :
    (b : Bool) (reason summary : String) (d : MonitorDirective)
    → (reason == "HEARTBEAT_STALE") ≡ false
    → terminate_if b reason summary ≡ some d
    → IsOther d
unfolding terminate_if
terminate_if-IsOther true reason summary d h e = some-IsOther (terminated reason summary) d h e
terminate_if-IsOther false reason summary d h e = cc

module _ ⦃F : Floats⦄ where
  likely_hang-fresh :
      (samples : List TelemetrySample) (policy : HeartbeatPolicy) (sample : TelemetrySample)
      → last? samples ≡ some sample
      → 2 ≤ policy.minimum_stale_samples
      → sample.last_output_age_ms < policy.deadline_ms
      → likely_hang samples policy ≡ ok false
  unfolding likely_hang
  likely_hang-fresh samples policy sample found two fresh =
      let recent = tail_slice policy.minimum_stale_samples samples in
      elim (Bool-cases (all (is_stale policy) recent)) [
        | inl stale ↦
            let last =
              last?-tail_slice policy.minimum_stale_samples samples (omega arith) ∙ found in
            let late = last?-all (is_stale policy) recent sample stale last in ground arith
        | inr fresh_one ↦ ground (arith, fresh_one)
      ]

  is_idle-returns :
      (policy : HeartbeatPolicy) (recent : List TelemetrySample) (sample : TelemetrySample)
      → last? recent ≡ some sample
      → (b : Bool) × (is_idle policy recent ≡ ok b)
  unfolding is_idle is_low_and_unchanged last?
  is_idle-returns policy [] sample h = cc
  is_idle-returns policy (x ∷ xs) sample h = (_, refl)

  likely_hang-returns :
      (samples : List TelemetrySample) (policy : HeartbeatPolicy)
      → 2 ≤ policy.minimum_stale_samples
      → (b : Bool) × (likely_hang samples policy ≡ ok b)
  unfolding likely_hang last?
  likely_hang-returns [] policy two = (false, ground arith)
  likely_hang-returns (x ∷ xs) policy two = elim (Option-cases (last? (x ∷ xs))) [
    | inl missing ↦ ground arith
    | inr (y, found) ↦
        let recent = tail_slice policy.minimum_stale_samples (x ∷ xs) in
        let (b, idle) =
          is_idle-returns policy recent y
            (last?-tail_slice policy.minimum_stale_samples (x ∷ xs) (omega arith) ∙ found) in
        elim (Bool-cases (
          ltb (length (x ∷ xs)) policy.minimum_stale_samples
          || not (all (λ (s : TelemetrySample). s.process_alive) recent)
          || not (all (is_stale policy) recent))) [
            | inl early ↦ (false, rw (likely_hang, early) refl)
            | inr late ↦ (b, rw (likely_hang, late) idle)
          ]
  ]

  median_of-returns : (xs : List Fl) (y : Fl) → last? xs ≡ some y → (m : Fl) × (median_of xs ≡ ok m)
  unfolding median_of last?
  median_of-returns [] y h = cc
  median_of-returns (x ∷ xs) y h = (F.median x xs, refl)

  is_exploded-returns :
      (limits : ExplosionLimits) (recorded : List (Option Fl))
      → 1 ≤ limits.baseline_samples
      → (b : Bool) × (is_exploded limits recorded ≡ ok b)
  unfolding is_exploded
  is_exploded-returns limits recorded one =
      let candidates = tail_slice limits.persistence recorded in
      let history = views finite_value (take (length recorded - limits.persistence) recorded) in
      let guard =
        not (leb (limits.baseline_samples + limits.persistence) (length recorded))
        || not (all is_finite_value candidates)
        || not (leb limits.baseline_samples (length history)) in
      elim (Bool-cases guard) [
        | inl early ↦ (false, rw (is_exploded, early) refl)
        | inr late ↦
            let (y, found) = last?-begun history (ground arith) in
            let (m, made) =
              median_of-returns (tail_slice limits.baseline_samples history) y
                (last?-tail_slice limits.baseline_samples history one ∙ found) in
            (
              all (exceeds (explosion_threshold limits m)) candidates,
              rw (is_exploded, late, made) refl,
            )
      ]

  persistent_explosion-returns :
      (samples : List TelemetrySample) (metric : TelemetrySample → Option Fl)
      (config : HealthPolicyConfig)
      → check_config config ≡ ok tt
      → (b : Bool) × (persistent_explosion samples metric config.anomaly ≡ ok b)
  unfolding persistent_explosion check_config
  persistent_explosion-returns samples metric config valid =
      let (b, made) = is_exploded-returns config.anomaly (map metric samples) (ground arith) in
      (b, ground (arith, made))

  nonfinite-IsOther :
      (m : Option String) (d : MonitorDirective)
      → elim m [
        | none ↦ none
        | some metric ↦
            some (terminated "NUMERICAL_NONFINITE" (join "Non-finite " (join metric " detected.")))
      ]
        ≡ some d
      → IsOther d
  nonfinite-IsOther none d e = cc
  nonfinite-IsOther (some metric) d e =
      some-IsOther
        (terminated "NUMERICAL_NONFINITE" (join "Non-finite " (join metric " detected."))) d refl e

  process_stage-IsOther :
      (config : HealthPolicyConfig) (sample : TelemetrySample) (d : MonitorDirective)
      → process_stage config sample ≡ some d
      → IsOther d
  unfolding process_stage
  process_stage-IsOther config sample d = orelse_lem _ _ (terminate_if-IsOther _ _ _ d refl) (
      orelse_lem _ _ (nonfinite-IsOther (first_nonfinite_metric sample) d)
        (terminate_if-IsOther _ _ _ d refl))

  resource_stage-IsOther :
      (config : HealthPolicyConfig) (sample : TelemetrySample) (d : MonitorDirective)
      → resource_stage config sample ≡ some d
      → IsOther d
  unfolding resource_stage
  resource_stage-IsOther config sample d = orelse_lem _ _ (terminate_if-IsOther _ _ _ d refl) (
      orelse_lem _ _ (terminate_if-IsOther _ _ _ d refl)
        (orelse_lem _ _ (terminate_if-IsOther _ _ _ d refl) (terminate_if-IsOther _ _ _ d refl)))

  -- With a validated configuration, an outcome of the rolling detectors, given that of the heartbeat.
  rolling_stage-returns :
      (config : HealthPolicyConfig) (samples : List TelemetrySample) (hangs : Bool)
      → check_config config ≡ ok tt
      → likely_hang samples config.heartbeat ≡ ok hangs
      → (d : MonitorDirective) × (rolling_stage config samples ≡ ok d) × (hangs ≡ false → IsOther d)
  unfolding rolling_stage
  rolling_stage-returns config samples hangs valid heartbeat =
      let (loss, first) = persistent_explosion-returns samples (λ s. s.loss) config valid in
      let (gradient, second) =
        persistent_explosion-returns samples (λ s. s.gradient_norm) config valid in
      (
        if hangs
            then terminated "HEARTBEAT_STALE" "Multiple signals indicate stalled progress."
            else if loss
            then terminated "LOSS_EXPLOSION" "Persistent loss explosion detected."
            else if gradient
            then terminated "GRADIENT_EXPLOSION" "Persistent gradient-norm explosion detected."
            else continued,
        ground (arith, heartbeat, first, second),
        λ awake. ground (arith, awake),
      )

  evaluate-judged :
      (config : HealthPolicyConfig) (window : TelemetryWindow) (hangs : Bool)
      → check_config config ≡ ok tt
      → likely_hang window.samples config.heartbeat ≡ ok hangs
      → (d : MonitorDirective) × (evaluate config window ≡ ok d) × (hangs ≡ false → IsOther d)
  unfolding evaluate
  evaluate-judged config window hangs valid heartbeat =
      let (rolled, rolls, others) =
        rolling_stage-returns config window.samples hangs valid heartbeat in
      elim (Option-cases (latest window)) [
        | inl nothing ↦ (continued, rw (evaluate, nothing) refl, λ h. refl)
        | inr (sample, found) ↦
            elim (Option-cases (process_stage config sample orelse resource_stage config sample)) [
              | inl healthy ↦ (rolled, rw (evaluate, found, healthy) rolls, others)
              | inr (d, failed) ↦ (
                d,
                rw (evaluate, found, failed) refl,
                λ h.
                    orelse_lem _ _ (process_stage-IsOther config sample d)
                      (resource_stage-IsOther config sample d) failed,
              )
            ]
      ]

  -- With a configuration that its own checks accept, every window of samples gets a directive.
  pub evaluate-returns :
      (config : HealthPolicyConfig) (window : TelemetryWindow)
      → check_config config ≡ ok tt
      → (d : MonitorDirective) × (evaluate config window ≡ ok d)
  unfolding check_config check_heartbeat
  evaluate-returns config window valid =
      let (hangs, heartbeat) = likely_hang-returns window.samples config.heartbeat (ground arith) in
      let (d, made, _) = evaluate-judged config window hangs valid heartbeat in (d, made)

  -- A sample whose output is younger than the deadline always gets a directive, and never the one that
  -- its heartbeat is stale, whatever was observed before.
  pub observe-fresh :
      (config : HealthPolicyConfig) (o : SreObserver) (seen : List TelemetrySample)
      (sample : TelemetrySample)
      → check_config config ≡ ok tt
      → Observing o seen
      → sample.last_output_age_ms < config.heartbeat.deadline_ms
      → (d : MonitorDirective) × ((observe config o sample).1 ≡ ok d) × IsOther d
  unfolding check_config check_heartbeat
  observe-fresh config o seen sample valid before fresh =
      let after =
        Observing-Holds (observed o sample) (current seen sample)
          (Observing.seeing o seen sample before) in
      let found : latest (observed o sample).window ≡ some sample =
        ap last? after.samples
        ∙ last?-tail_slice ((observed o sample).window.capacity) (current seen sample)
            after.positive
        ∙ last?-current seen sample in
      let (d, made, other) = evaluate-judged config (observed o sample).window false valid (
        likely_hang-fresh (observed o sample).window.samples config.heartbeat sample found
          (ground arith) fresh) in
      (d, made, other refl)
