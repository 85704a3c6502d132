-- ===== src/Ledger.antt =====
-- Legal ledgers: those that grow by one event at a time, each accepted by `validate_transition` of
-- src/tacorank/orchestrator/state_machine.py, as `EventStore.append` and `_read_locked` of
-- src/tacorank/memory/event_store.py do with it as their `transition_validator`.
pub mod Nodes
pub mod Induction
pub mod Progress
pub mod Frames
pub mod Budgets
pub mod Summary
pub mod Best
pub mod Lifecycle
pub mod Queries
pub mod Running
pub mod Replay
pub mod HiddenFinal
use tacorank.Prelude.{◌≡◌, refl, ◌≢◌, inl, inr, false, List, [], ◌∷◌, ◌++◌, arith}
use tacorank.Float.{Floats}
use tacorank.Projection.Fold.{Projection, step, run_events, initial_projection, conclude, project}
use tacorank.Result.{◌>>=◌, result_cases, ok}
use tacorank.Schemas.Events.{EventPayload, Event}
use tacorank.Transition.Validate.{is_run_started, check_status, check_payload, validate_transition}

module _ ⦃F : Floats⦄ where
  pub data Legal : List Event → Type 0 where
    empty : Legal []
    append :
        (es : List Event) (e : Event) {l : List Event}
        → Legal es
        → validate_transition es e.payload ≡ ok tt
        → l ≡ es ++ e ∷ []
        → Legal l

  pub run_events-append :
      (p : Projection) (es : List Event) (e : Event)
      → run_events p (es ++ e ∷ []) ≡ (run_events p es >>= λ q. step q e)
  unfolding run_events
  run_events-append p [] e = ground arith
  run_events-append p (x ∷ es) e = elim (result_cases (step p x)) [
    | inl h ↦ rw (h.1, run_events) (run_events-append h.0 es e)
    | inr h ↦ rw (h.1, run_events) refl
  ]

  -- what an accepted payload has passed, after the first event
  pub record Accepted (es : List Event) (p : Projection) (payload : EventPayload) : Type 0 where
    pub later : is_run_started payload ≡ false
    pub status_ok : check_status p.state.status payload ≡ ok tt
    pub payload_ok : check_payload es (conclude es p.state) payload ≡ ok tt

  pub validate_transition-Accepted :
      (es : List Event) (p : Projection) (payload : EventPayload)
      → es ≢ []
      → run_events initial_projection es ≡ ok p
      → validate_transition es payload ≡ ok tt
      → Accepted es p payload
  unfolding validate_transition project conclude
  validate_transition-Accepted [] p payload ne r h = absurd (ne refl)
  validate_transition-Accepted (e ∷ es) p payload ne r h = ground arith

  -- `m` continues the ledger `l` by accepted events
  pub data Grows (l : List Event) : List Event → Type 0 where
    here : Grows l l
    next :
        (es : List Event) (e : Event) {m : List Event}
        → Grows l es
        → validate_transition es e.payload ≡ ok tt
        → m ≡ es ++ e ∷ []
        → Grows l m

  pub Grows-Legal : {l m : List Event} → Legal l → Grows l m → Legal m
  Grows-Legal legal here = legal
  Grows-Legal legal (next es e grown valid eq) =
      Legal.append es e (Grows-Legal legal grown) valid eq
