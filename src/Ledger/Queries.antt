-- ===== src/Ledger/Queries.antt =====
-- The queries of the public validation set are numbered without a gap.
use tacorank.Prelude.{
  if◌then◌else◌, ◌==◌, nat_eq, string_eq, option_eq, Bool-cases, views, int_eq, ℕ, zero, suc, ◌+◌,
  ◌≡◌, refl, sym, ap, ◌∙◌, inl, inr, true, Option, none, some, List, [], ◌∷◌, ◌++◌, arith,
}
use mathlib.Core.List.{append-nil}
use native.Mathlib.Numerals.{add-one}
use tacorank.Float.{Floats}
use tacorank.Ledger.{Legal}
use tacorank.Ledger.Induction.{Legal-induction, project-eq-ok}
use tacorank.Ledger.Summary.{Summary, summarize, advance, step-Summary}
use tacorank.Projection.Fold.{Projection, run_events, initial_projection, conclude, project}
use tacorank.Result.{ok}
use tacorank.Schemas.Events.{EventPayload, Event}
use tacorank.Schemas.Judgements.{
  trust_verdict_eq, stability_eq, integrity_eq, experiment_decision_kind_eq, lesson_origin_eq,
  lesson_category_eq, lesson_status_eq, token_measurement_eq,
}
use tacorank.Schemas.Runs.{
  fidelity_eq, run_outcome_eq, recovery_action_eq, Population, population_eq, failure_stage_eq,
  role_eq,
}
use tacorank.Schemas.Scores.{EvaluationResult}
use tacorank.Schemas.Statuses.{run_status_eq, experiment_status_eq}
use tacorank.State.{RunState, initial_state}
use tacorank.Transition.Evaluating.{expected_query_index, check_evaluation_completed}
use tacorank.Transition.Validate.{is_run_started, check_payload}
use tacorank.Transition.Views.{as_evaluation_completed}

abbrev pub numbered : ℕ → List (Option ℕ)
numbered zero = []
numbered (suc n) = numbered n ++ some (suc n) ∷ []

module _ ⦃F : Floats⦄ where
  -- the index of an evaluation on the public validation set
  abbrev pub public_index : Event → Option (Option ℕ)
  public_index e = elim (as_evaluation_completed e.payload) [
    | none ↦ none
    | some r ↦
        if r.population == Population.public_validation then some r.public_query_index else none
  ]

  public_step : EventPayload → List (Option ℕ)
  public_step (EventPayload.evaluation_completed r) =
      if r.population == Population.public_validation then r.public_query_index ∷ [] else []
  public_step _ = []

  views-snoc :
      (es : List Event) (e : Event)
      → views public_index (es ++ e ∷ []) ≡ views public_index es ++ public_step e.payload
  unfolding views public_step as_evaluation_completed
  views-snoc [] e = ground arith
  views-snoc (x ∷ es) e = ground (arith, views-snoc es e)

  abbrev Indexed : RunState → EventPayload → Type 0
  Indexed s (EventPayload.evaluation_completed r) =
      (r.population == Population.public_validation) ≡ true
      → r.public_query_index ≡ some (suc s.public_validation_queries)
  Indexed s _ = Unit

  check_evaluation_completed-Indexed :
      (es : List Event) (s : RunState) (r : EvaluationResult)
      → check_evaluation_completed es s r ≡ ok tt
      → Indexed s (EventPayload.evaluation_completed r)
  unfolding check_evaluation_completed expected_query_index
  check_evaluation_completed-Indexed es s r h public = ground (
    arith,
    (option_eq {A = ℕ} ⦃e = nat_eq⦄).beq_iff r.public_query_index
        (some (s.public_validation_queries + 1)),
  )

  check_payload-Indexed :
      (es : List Event) (s : RunState) (payload : EventPayload)
      → check_payload es s payload ≡ ok tt
      → Indexed s payload
  unfolding check_payload
  check_payload-Indexed es s (EventPayload.evaluation_completed r) h =
      check_evaluation_completed-Indexed es s r h
  check_payload-Indexed es s _ h = tt

  advance-numbered :
      (s : RunState) (payload : EventPayload)
      → Indexed s payload
      → numbered (advance (summarize s) payload).public_validation_queries
        ≡ numbered s.public_validation_queries ++ public_step payload
  unfolding advance public_step
  advance-numbered s (EventPayload.evaluation_completed r) i =
      elim (Bool-cases (r.population == Population.public_validation)) [
        | inl e ↦ rw (e, add-one, i e)
        | inr e ↦ rw (e, append-nil)
      ]
  advance-numbered s _ i = rw append-nil

  first_step :
      (payload : EventPayload)
      → is_run_started payload ≡ true
      → (views public_index [] ++ public_step payload)
        ≡ numbered (advance (summarize initial_state) payload).public_validation_queries
  unfolding is_run_started views public_step advance initial_state
  first_step (EventPayload.run_started r) h = refl
  first_step _ h = absurd (cc)

  run_events-numbered :
      (l : List Event) (p : Projection)
      → Legal l
      → run_events initial_projection l ≡ ok p
      → views public_index l ≡ numbered p.state.public_validation_queries
  unfolding initial_projection initial_state conclude views
  run_events-numbered =
      Legal-induction (λ l p. views public_index l ≡ numbered p.state.public_validation_queries)
        refl
        (λ e q started h.
          views-snoc [] e
          ∙ first_step e.payload started
          ∙ ap (λ (v : Summary). numbered v.public_validation_queries)
              (sym (step-Summary initial_projection q e h)))
        (λ es p e q i a h.
          views-snoc es e
          ∙ ap (λ l. l ++ public_step e.payload) i
          ∙ sym (
              advance-numbered p.state e.payload
                (check_payload-Indexed es (conclude es p.state) e.payload a.payload_ok))
          ∙ ap (λ (v : Summary). numbered v.public_validation_queries) (sym (step-Summary p q e h)))

  -- On a legal ledger, the query indices that the evaluation.completed events on the public
  -- validation set carry are, in order, 1, 2, ... up to the number of queries that the state counts.
  -- The evaluation that a baseline.verified event carries is not one of these events.
  pub project-numbered :
      (l : List Event) (s : RunState)
      → Legal l
      → project l ≡ ok s
      → views public_index l ≡ numbered s.public_validation_queries
  unfolding conclude
  project-numbered l s legal h =
      let (p, r, e) = project-eq-ok l s h in
      run_events-numbered l p legal r
      ∙ ap (λ (t : RunState). numbered t.public_validation_queries) (sym e)
