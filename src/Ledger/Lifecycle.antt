-- ===== src/Ledger/Lifecycle.antt =====
-- The run's status moves along a diagram.
use tacorank.Prelude.{
  if◌then◌else◌, Bool-cases, ◌≡◌, refl, sym, ap, ◌∙◌, subst, ◌≢◌, ◌⊎◌, inl, inr, false, List, [],
  arith,
}
use mathlib.Core.Path.{subst₂}
use tacorank.Float.{Floats}
use tacorank.Ledger.{Accepted, Grows}
use tacorank.Ledger.Induction.{project-eq-ok, Grows-induction}
use tacorank.Ledger.Summary.{Summary, summarize, advance, step-Summary}
use tacorank.Projection.Fold.{Projection, step, conclude, project}
use tacorank.Result.{ok}
use tacorank.Schemas.Events.{EventPayload, Event}
use tacorank.Schemas.Statuses.{RunStatus, run_status_iff}
use tacorank.State.{is_finalizable_stop_reason, RunState}
use tacorank.Transition.Closing.{check_final_selected}
use tacorank.Transition.Validate.{is_run_started, check_status, check_payload}

pub data IsActive : RunStatus → Type 0 where
  initializing_active : IsActive RunStatus.initializing
  ready_active : IsActive RunStatus.ready
  running_active : IsActive RunStatus.running

infix 40 ◌⟶◌ ◌⟶*◌
pub data ◌⟶◌ : RunStatus → RunStatus → Type 0 where
  work : {s t : RunStatus} → IsActive s → IsActive t → s ⟶ t
  stop : {s : RunStatus} → IsActive s → s ⟶ RunStatus.stopped
  abort : {s : RunStatus} → IsActive s → s ⟶ RunStatus.failed
  reproduce : RunStatus.stopped ⟶ RunStatus.stopped
  select : RunStatus.stopped ⟶ RunStatus.finalizing
  accept : RunStatus.finalizing ⟶ RunStatus.finalized
  reject : RunStatus.finalizing ⟶ RunStatus.failed

pub data ◌⟶*◌ (s : RunStatus) : RunStatus → Type 0 where
  stay : s ⟶* s
  go : {t u : RunStatus} → s ⟶* t → t ⟶ u → s ⟶* u

not_active : {s : RunStatus} → IsActive s → (s ≡ RunStatus.stopped) ⊎ (s ≡ RunStatus.finalizing) → ⊥
not_active initializing_active e = ground arith
not_active ready_active e = ground arith
not_active running_active e = ground arith

module _ ⦃F : Floats⦄ where
  status_after : RunStatus → EventPayload → RunStatus
  status_after s (EventPayload.run_started r) = RunStatus.initializing
  status_after s (EventPayload.baseline_verified b) = RunStatus.ready
  status_after s (EventPayload.experiment_proposed p) = RunStatus.running
  status_after s (EventPayload.run_stopped r) =
      if is_finalizable_stop_reason r.reason_code then RunStatus.stopped else RunStatus.failed
  status_after s (EventPayload.final_selected f) = RunStatus.finalizing
  status_after s (EventPayload.submission_checked c) =
      if c.accepted then RunStatus.finalized else RunStatus.failed
  status_after s _ = s

  status-advance :
      (v : Summary) (payload : EventPayload)
      → (advance v payload).status ≡ status_after v.status payload
  unfolding advance status_after
  status-advance v (EventPayload.run_started r) = refl
  status-advance v _ = refl

  -- what the closing events need of the status
  abbrev Closes : RunStatus → EventPayload → Type 0
  Closes s (EventPayload.final_selected f) = s ≡ RunStatus.stopped
  Closes s (EventPayload.submission_checked c) = s ≡ RunStatus.finalizing
  Closes s _ = Unit

  check_payload-Closes :
      (es : List Event) (s : RunState) (payload : EventPayload)
      → check_payload es s payload ≡ ok tt
      → Closes s.status payload
  unfolding check_payload check_final_selected
  check_payload-Closes es s (EventPayload.final_selected f) h =
      ground (arith, run_status_iff s.status RunStatus.stopped)
  check_payload-Closes es s (EventPayload.submission_checked c) h =
      ground (arith, run_status_iff s.status RunStatus.finalizing)
  check_payload-Closes es s _ h = tt

  active_edge :
      (s : RunStatus) (payload : EventPayload)
      → IsActive s
      → is_run_started payload ≡ false
      → Closes s payload
      → s ⟶ status_after s payload
  unfolding status_after is_run_started
  active_edge s (EventPayload.run_started r) a later k = absurd (cc)
  active_edge s (EventPayload.baseline_verified b) a later k = work a ready_active
  active_edge s (EventPayload.experiment_proposed p) a later k = work a running_active
  active_edge s (EventPayload.run_stopped r) a later k =
      elim (Bool-cases (is_finalizable_stop_reason r.reason_code)) [
        | inl e ↦ rw e (stop a)
        | inr e ↦ rw e (abort a)
      ]
  active_edge s (EventPayload.final_selected f) a later k = absurd (not_active a (inl k))
  active_edge s (EventPayload.submission_checked c) a later k = absurd (not_active a (inr k))
  active_edge s _ a later k = work a a

  edge :
      (s : RunStatus) (payload : EventPayload)
      → is_run_started payload ≡ false
      → check_status s payload ≡ ok tt
      → Closes s payload
      → s ⟶ status_after s payload
  unfolding status_after is_run_started check_status
  edge RunStatus.initializing payload later c k =
      active_edge RunStatus.initializing payload initializing_active later k
  edge RunStatus.ready payload later c k = active_edge RunStatus.ready payload ready_active later k
  edge RunStatus.running payload later c k =
      active_edge RunStatus.running payload running_active later k
  edge RunStatus.stopped (EventPayload.execution_started p) later c k = reproduce
  edge RunStatus.stopped (EventPayload.execution_finished p) later c k = reproduce
  edge RunStatus.stopped (EventPayload.output_checked p) later c k = reproduce
  edge RunStatus.stopped (EventPayload.evaluation_completed p) later c k = reproduce
  edge RunStatus.stopped (EventPayload.final_selected p) later c k = select
  edge RunStatus.stopped _ later c k = absurd (cc)
  edge RunStatus.finalizing (EventPayload.submission_checked p) later c k =
      elim (Bool-cases p.accepted) [ inl e ↦ rw e accept | inr e ↦ rw e reject ]
  edge RunStatus.finalizing _ later c k = absurd (cc)
  edge RunStatus.finalized payload later c k = absurd (cc)
  edge RunStatus.failed payload later c k = absurd (cc)

  pub Accepted-⟶ :
      (es : List Event) (p q : Projection) (e : Event)
      → Accepted es p e.payload
      → step p e ≡ ok q
      → p.state.status ⟶ q.state.status
  unfolding conclude
  Accepted-⟶ es p q e a h =
      subst (λ t. p.state.status ⟶ t)
        (sym (
          ap (λ (v : Summary). v.status) (step-Summary p q e h)
          ∙ status-advance (summarize p.state) e.payload))
        (edge p.state.status e.payload a.later a.status_ok
          (check_payload-Closes es (conclude es p.state) e.payload a.payload_ok))

  -- A ledger that has begun and grows by accepted events moves the run's status along the diagram:
  -- initializing, ready and running among themselves, from there to stopped or failed, from stopped
  -- to finalizing, and from finalizing to finalized or failed.
  pub project-⟶* :
      (l m : List Event) (s t : RunState)
      → l ≢ []
      → Grows l m
      → project l ≡ ok s
      → project m ≡ ok t
      → s.status ⟶* t.status
  unfolding conclude
  project-⟶* l m s t ne grown ps pt =
      let (p, rp, es) = project-eq-ok l s ps in
      let (q, rq, et) = project-eq-ok m t pt in
      let moved =
        Grows-induction (λ p q. p.state.status ⟶* q.state.status) (λ p. stay)
          (λ es p q e r k a h. go k (Accepted-⟶ es q r e a h)) l m p q ne grown rp rq in
      subst₂ (λ (x y : RunState). x.status ⟶* y.status) (sym es) (sym et) moved
