-- ===== src/Ledger/Induction.antt =====
-- Induction over legal ledgers, for what holds of the projection after every event.
use tacorank.Prelude.{
  ◌≡◌, refl, sym, ◌∙◌, subst, ◌≢◌, ◌⊎◌, inl, inr, true, List, [], ◌∷◌, ◌++◌, arith,
}
use tacorank.Float.{Floats}
use tacorank.Ledger.{Legal, run_events-append, Accepted, validate_transition-Accepted, Grows}
use tacorank.Projection.Fold.{Projection, step, run_events, initial_projection, conclude, project}
use tacorank.Result.{>>=-eq-ok, require-eq-ok, ok_injective, ok}
use tacorank.Schemas.Events.{EventPayload, Event}
use tacorank.State.{RunState}
use tacorank.Transition.Validate.{is_run_started, validate_transition}

module _ ⦃F : Floats⦄ where
  -- the projection of a ledger with one more event
  pub run_events-snoc :
      (es : List Event) (e : Event) {q : Projection}
      → run_events initial_projection (es ++ e ∷ []) ≡ ok q
      → (p : Projection) × (run_events initial_projection es ≡ ok p) × (step p e ≡ ok q)
  run_events-snoc es e h =
      >>=-eq-ok (run_events initial_projection es) (λ p. step p e) (rw run_events-append at h)

  pub validate_transition-first :
      (payload : EventPayload)
      → validate_transition [] payload ≡ ok tt
      → is_run_started payload ≡ true
  unfolding validate_transition
  validate_transition-first payload h = require-eq-ok (is_run_started payload) _ h

  list_cases {ℓ} : {A : Type ℓ} (xs : List A) → (xs ≡ []) ⊎ (xs ≢ [])
  list_cases [] = inl refl
  list_cases (x ∷ xs) = inr (λ e. cc)

  module _ {ℓ} (Inv : List Event → Projection → Type ℓ) (start : Inv [] initial_projection)
      (first : (e : Event) (q : Projection)
        → is_run_started e.payload ≡ true
        → step initial_projection e ≡ ok q
        → Inv (e ∷ []) q)
      (keep : (es : List Event) (p : Projection) (e : Event) (q : Projection)
        → Inv es p
        → Accepted es p e.payload
        → step p e ≡ ok q
        → Inv (es ++ e ∷ []) q) where
    first_event :
        (es : List Event) (e : Event) (p q : Projection)
        → es ≡ []
        → validate_transition es e.payload ≡ ok tt
        → run_events initial_projection es ≡ ok p
        → step p e ≡ ok q
        → Inv (es ++ e ∷ []) q
    unfolding run_events
    first_event [] e p q nil valid before last =
        first e q (validate_transition-first e.payload valid) (cc)
    first_event (x ∷ es) e p q nil valid before last = absurd (cc)

    pub Legal-induction :
        (l : List Event) (q : Projection)
        → Legal l
        → run_events initial_projection l ≡ ok q
        → Inv l q
    unfolding run_events
    Legal-induction l q Legal.empty r = subst (Inv []) (ground arith) start
    Legal-induction l q (Legal.append es e legal valid eq) r =
        let (p, before, last) = run_events-snoc es e (rw eq at r) in
        subst (λ m. Inv m q) (sym eq)
          (elim (list_cases es) [
            | inl nil ↦ first_event es e p q nil valid before last
            | inr more ↦
                keep es p e q (Legal-induction es p legal before)
                  (validate_transition-Accepted es p e.payload more before valid) last
          ])

  pub project-eq-ok :
      (l : List Event) (s : RunState)
      → project l ≡ ok s
      → (p : Projection) × (run_events initial_projection l ≡ ok p) × (s ≡ conclude l p.state)
  unfolding project
  project-eq-ok l s h =
      let (p, r, e) =
        >>=-eq-ok (run_events initial_projection l) (λ p. ok (conclude l p.state)) h in
      (p, r, sym (ok_injective _ s e))

  snoc-ne-nil : (es : List Event) (e : Event) → (es ++ e ∷ []) ≢ []
  snoc-ne-nil [] e h = cc
  snoc-ne-nil (x ∷ es) e h = cc

  grown_ne : {l m : List Event} → l ≢ [] → Grows l m → m ≢ []
  grown_ne ne Grows.here = ne
  grown_ne ne (Grows.next es e grown valid eq) = λ h. snoc-ne-nil es e (sym eq ∙ h)

  -- growing a ledger that has begun, one accepted event at a time
  module _ {ℓ} (R : Projection → Projection → Type ℓ) (stays : (p : Projection) → R p p)
      (moves : (es : List Event) (p q : Projection) (e : Event) (r : Projection)
        → R p q
        → Accepted es q e.payload
        → step q e ≡ ok r
        → R p r) where
    pub Grows-induction :
        (l m : List Event) (p r : Projection)
        → l ≢ []
        → Grows l m
        → run_events initial_projection l ≡ ok p
        → run_events initial_projection m ≡ ok r
        → R p r
    Grows-induction l m p r ne Grows.here rp rr =
        subst (R p) (ok_injective p r (sym rp ∙ rr)) (stays p)
    Grows-induction l m p r ne (Grows.next es e grown valid eq) rp rr =
        let (q, before, last) = run_events-snoc es e (rw eq at rr) in
        moves es p q e r (Grows-induction l es p q ne grown rp before)
          (validate_transition-Accepted es q e.payload (grown_ne ne grown) before valid) last
