-- ===== src/Ledger/Best.antt =====
-- The recorded best never gets worse, and the final choice is the best.
use tacorank.Prelude.{
  string_eq, option_eq, String, ◌≡◌, refl, sym, ap, ◌∙◌, subst, ◌≢◌, ◌⊎◌, inl, inr, true, false,
  Option, none, some, List, [], arith,
}
use mathlib.Core.Path.{subst₂}
use tacorank.Float.{Floats, Fl}
use tacorank.Ledger.{Legal, Accepted, Grows}
use tacorank.Ledger.Induction.{Legal-induction, project-eq-ok, Grows-induction}
use tacorank.Ledger.Summary.{Summary, summarize, advance, step-Summary}
use tacorank.Projection.Fold.{Projection, step, run_events, initial_projection, conclude, project}
use tacorank.Result.{ok}
use tacorank.Schemas.Events.{BestUpdatedPayload, EventPayload, Event}
use tacorank.Schemas.Statuses.{RunStatus, run_status_iff}
use tacorank.State.{RunState, initial_state}
use tacorank.Transition.Closing.{check_final_selected}
use tacorank.Transition.Deciding.{beats, check_best_updated}
use tacorank.Transition.Validate.{is_run_started, check_status, check_payload}

module _ ⦃F : Floats⦄ where
  check_best_updated-beats :
      (es : List Event) (s : RunState) (b : BestUpdatedPayload)
      → check_best_updated es s b ≡ ok tt
      → beats b.primary_score s.best_primary_score ≡ true
  unfolding check_best_updated
  check_best_updated-beats es s b h = ground arith

  abbrev Improves : Summary → EventPayload → Type 0
  Improves v (EventPayload.best_updated b) = beats b.primary_score v.best_primary_score ≡ true
  Improves v _ = Unit

  check_payload-Improves :
      (es : List Event) (s : RunState) (payload : EventPayload)
      → check_payload es s payload ≡ ok tt
      → Improves (summarize s) payload
  unfolding check_payload
  check_payload-Improves es s (EventPayload.best_updated b) h = check_best_updated-beats es s b h
  check_payload-Improves es s _ h = tt

  -- a later best `b` is the earlier best `a`, or is strictly better
  abbrev pub NotWorse : Option Fl → Option Fl → Type 0
  NotWorse x y = (a : Fl) → x ≡ some a → (b : Fl) × (y ≡ some b) × ((b ≡ a) ⊎ (F.flt a b ≡ true))

  advance-NotWorse :
      (v : Summary) (payload : EventPayload)
      → Improves v payload
      → NotWorse v.best_primary_score (advance v payload).best_primary_score
  unfolding advance beats
  advance-NotWorse v (EventPayload.baseline_verified b) i a h = (a, ground arith, inl refl)
  advance-NotWorse v (EventPayload.best_updated b) i a h =
      (b.primary_score, refl, inr (ground arith))
  advance-NotWorse v _ i a h = (a, h, inl refl)

  NotWorse-trans : (x y z : Option Fl) → NotWorse x y → NotWorse y z → NotWorse x z
  NotWorse-trans x y z f g a h =
      let (b, yb, ab) = f a h in let (c, zc, bc) = g b yb in (c, zc, join a b c ab bc)
    where
      join :
          (a b c : Fl)
          → (b ≡ a) ⊎ (F.flt a b ≡ true)
          → (c ≡ b) ⊎ (F.flt b c ≡ true)
          → (c ≡ a) ⊎ (F.flt a c ≡ true)
      join a b c (inl p) (inl q) = inl (q ∙ p)
      join a b c (inl p) (inr q) = inr (subst (λ x. F.flt x c ≡ true) p q)
      join a b c (inr p) (inl q) = inr (subst (λ x. F.flt a x ≡ true) (sym q) p)
      join a b c (inr p) (inr q) = inr (F.flt_trans a b c p q)

  Accepted-NotWorse :
      (es : List Event) (p q : Projection) (e : Event)
      → Accepted es p e.payload
      → step p e ≡ ok q
      → NotWorse p.state.best_primary_score q.state.best_primary_score
  unfolding conclude
  Accepted-NotWorse es p q e a h =
      subst (NotWorse p.state.best_primary_score)
        (sym (ap (λ (v : Summary). v.best_primary_score) (step-Summary p q e h)))
        (advance-NotWorse (summarize p.state) e.payload
          (check_payload-Improves es (conclude es p.state) e.payload a.payload_ok))

  -- While a ledger that has begun grows by accepted events, a recorded best score stays recorded and
  -- is only ever replaced by strictly better ones.
  pub project-NotWorse :
      (l m : List Event) (s t : RunState)
      → l ≢ []
      → Grows l m
      → project l ≡ ok s
      → project m ≡ ok t
      → NotWorse s.best_primary_score t.best_primary_score
  unfolding conclude
  project-NotWorse l m s t ne grown ps pt =
      let (p, rp, es) = project-eq-ok l s ps in
      let (q, rq, et) = project-eq-ok m t pt in
      let kept =
        Grows-induction (λ p q. NotWorse p.state.best_primary_score q.state.best_primary_score)
          (λ p a h. (a, h, inl refl))
          (λ es p q e r k a h.
            NotWorse-trans p.state.best_primary_score q.state.best_primary_score
              r.state.best_primary_score k (Accepted-NotWorse es q r e a h))
          l m p q ne grown rp rq in
      subst₂ (λ (x y : RunState). NotWorse x.best_primary_score y.best_primary_score) (sym es)
        (sym et) kept

  abbrev IsClosing : RunStatus → Type 0
  IsClosing s = (s ≡ RunStatus.finalizing) ⊎ (s ≡ RunStatus.finalized) ⊎ (s ≡ RunStatus.failed)

  -- what the final choice is once it is made, and that there is none before
  abbrev FinalIsBest : Summary → Type 0
  FinalIsBest v =
      ((v.final_experiment_id ≡ none)
        × (v.status ≢ RunStatus.finalizing)
        × (v.status ≢ RunStatus.finalized))
      ⊎ ((v.final_experiment_id ≢ none)
          × (v.final_experiment_id ≡ v.best_experiment_id)
          × IsClosing v.status)

  abbrev Selects : Summary → EventPayload → Type 0
  Selects v (EventPayload.final_selected f) =
      (v.status ≡ RunStatus.stopped) × (some f.experiment_id ≡ v.best_experiment_id)
  Selects v (EventPayload.submission_checked c) = v.status ≡ RunStatus.finalizing
  Selects v _ = Unit

  check_payload-Selects :
      (es : List Event) (s : RunState) (payload : EventPayload)
      → check_payload es s payload ≡ ok tt
      → Selects (summarize s) payload
  unfolding check_payload check_final_selected
  check_payload-Selects es s (EventPayload.final_selected f) h = ground (
    arith,
    run_status_iff s.status RunStatus.stopped,
    (option_eq {A = String} ⦃e = string_eq⦄).beq_iff (some f.experiment_id) s.best_experiment_id,
  )
  check_payload-Selects es s (EventPayload.submission_checked c) h =
      ground (arith, run_status_iff s.status RunStatus.finalizing)
  check_payload-Selects es s _ h = tt

  advance-FinalIsBest :
      (v : Summary) (payload : EventPayload)
      → is_run_started payload ≡ false
      → check_status v.status payload ≡ ok tt
      → Selects v payload
      → FinalIsBest v
      → FinalIsBest (advance v payload)
  unfolding advance check_status is_run_started
  advance-FinalIsBest v (EventPayload.run_started r) later c k i = absurd (cc)
  advance-FinalIsBest v (EventPayload.final_selected f) later c k i = inr ((λ e. cc), k.1, inl refl)
  advance-FinalIsBest v (EventPayload.submission_checked f) later c k i = ground arith
  advance-FinalIsBest v (EventPayload.evaluation_completed f) later c k i = ground arith
  advance-FinalIsBest v _ later c k i = ground arith

  first_payload :
      (payload : EventPayload)
      → is_run_started payload ≡ true
      → FinalIsBest (advance (summarize initial_state) payload)
  unfolding advance is_run_started initial_state
  first_payload (EventPayload.run_started r) h = ground arith
  first_payload _ h = absurd (cc)

  run_events-FinalIsBest :
      (l : List Event) (p : Projection)
      → Legal l
      → run_events initial_projection l ≡ ok p
      → FinalIsBest (summarize p.state)
  unfolding initial_projection initial_state conclude
  run_events-FinalIsBest =
      Legal-induction (λ l p. FinalIsBest (summarize p.state)) (ground arith)
        (λ e q started h.
          subst FinalIsBest (sym (step-Summary initial_projection q e h))
            (first_payload e.payload started))
        (λ es p e q i a h. subst FinalIsBest (sym (step-Summary p q e h)) (
          advance-FinalIsBest (summarize p.state) e.payload a.later a.status_ok
            (check_payload-Selects es (conclude es p.state) e.payload a.payload_ok) i))

  -- On a legal ledger, a run that is finalizing or finalized has made a final choice, and its final
  -- experiment is the recorded best.
  pub project-FinalIsBest :
      (l : List Event) (s : RunState)
      → Legal l
      → project l ≡ ok s
      → (s.status ≡ RunStatus.finalizing) ⊎ (s.status ≡ RunStatus.finalized)
      → (s.final_experiment_id ≢ none) × (s.final_experiment_id ≡ s.best_experiment_id)
  unfolding conclude
  project-FinalIsBest l s legal h c =
      let (p, r, e) = project-eq-ok l s h in
      let i : FinalIsBest (summarize s) =
        subst (λ (t : RunState). FinalIsBest (summarize t)) (sym e)
          (run_events-FinalIsBest l p legal r) in
      ground arith
