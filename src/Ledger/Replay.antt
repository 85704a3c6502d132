-- ===== src/Ledger/Replay.antt =====
-- src/tacorank/memory/replay.py: the replay of a ledger with its transitions validated. Artifacts
-- are checked by a store outside the model.
use tacorank.Prelude.{
  take, drop, ℕ, zero, suc, ◌≡◌, refl, sym, ap, ◌∙◌, subst, ◌↔◌, inl, inr, List, [], ◌∷◌, ◌++◌,
}
use mathlib.Core.List.{append_assoc, append-nil}
use tacorank.Float.{Floats}
use tacorank.Ledger.{Legal, Grows}
use tacorank.Ledger.Progress.{project-Legal}
use tacorank.Projection.Fold.{project}
use tacorank.Result.{Result, ◌>>◌, Check, >>=-eq-ok, result_cases, ok}
use tacorank.Schemas.Events.{Event}
use tacorank.State.{RunState}
use tacorank.Transition.Validate.{validate_transition}

module _ ⦃F : Floats⦄ where
  -- the loop over the events, with `prefix`
  unfoldable pub validate_transitions : List Event → List Event → Check
  validate_transitions before [] = ok tt
  validate_transitions before (e ∷ rest) = do
    validate_transition before e.payload
    validate_transitions (before ++ e ∷ []) rest

  unfoldable pub replay : List Event → Result RunState
  unfolding validate_transitions
  replay events = do validate_transitions [] events; project events

  validate_transitions-append :
      (before xs ys : List Event)
      → validate_transitions before (xs ++ ys)
        ≡ (validate_transitions before xs >> validate_transitions (before ++ xs) ys)
  unfolding validate_transitions
  validate_transitions-append before [] ys = rw append-nil refl
  validate_transitions-append before (x ∷ xs) ys =
      elim (result_cases (validate_transition before x.payload)) [
        | inl h ↦ rw (h.1, validate_transitions-append (before ++ x ∷ []) xs ys, append_assoc) refl
        | inr h ↦ rw (h.1) refl
      ]

  validate_transitions-Legal :
      (before rest : List Event)
      → Legal before
      → validate_transitions before rest ≡ ok tt
      → Legal (before ++ rest)
  unfolding validate_transitions
  validate_transitions-Legal before [] legal h = subst Legal (sym (append-nil before)) legal
  validate_transitions-Legal before (e ∷ rest) legal h =
      let (u, valid, later) =
        >>=-eq-ok (validate_transition before e.payload)
          (λ _. validate_transitions (before ++ e ∷ []) rest) h in
      subst Legal (append_assoc before (e ∷ []) rest) (
        validate_transitions-Legal (before ++ e ∷ []) rest (Legal.append before e legal valid refl)
          later)

  pub validate_transitions-Grows :
      (l before rest : List Event)
      → Grows l before
      → validate_transitions before rest ≡ ok tt
      → Grows l (before ++ rest)
  unfolding validate_transitions
  validate_transitions-Grows l before [] grown h = subst (Grows l) (sym (append-nil before)) grown
  validate_transitions-Grows l before (e ∷ rest) grown h =
      let (u, valid, later) =
        >>=-eq-ok (validate_transition before e.payload)
          (λ _. validate_transitions (before ++ e ∷ []) rest) h in
      subst (Grows l) (append_assoc before (e ∷ []) rest) (
        validate_transitions-Grows l (before ++ e ∷ []) rest (Grows.next before e grown valid refl)
          later)

  Legal-validate_transitions : (l : List Event) → Legal l → validate_transitions [] l ≡ ok tt
  unfolding validate_transitions
  Legal-validate_transitions l Legal.empty = refl
  Legal-validate_transitions l (Legal.append es e legal valid eq) =
      rw (eq, validate_transitions-append, Legal-validate_transitions es legal, valid) refl

  pub validate_transitions-Legal_iff :
      (l : List Event) → (validate_transitions [] l ≡ ok tt) ↔ Legal l
  validate_transitions-Legal_iff l =
      (validate_transitions-Legal [] l Legal.empty, Legal-validate_transitions l)

  pub replay-eq-ok :
      (l : List Event) (s : RunState) → (replay l ≡ ok s) ↔ (Legal l × (project l ≡ ok s))
  unfolding replay
  replay-eq-ok l s = (
    (λ h.
        let (u, valid, last) = >>=-eq-ok (validate_transitions [] l) (λ _. project l) h in
        (validate_transitions-Legal [] l Legal.empty valid, last)),
    (λ h. rw (Legal-validate_transitions l (h.0), h.1) refl),
  )

  -- the position `n` of a ledger: its event, if it has one there, against the events before it
  unfoldable pub check_at : List Event → ℕ → Check
  unfolding drop
  check_at l n = elim (drop n l) [ [] ↦ ok tt | e ∷ _ ↦ validate_transition (take n l) e.payload ]

  -- the same, after the events `before`
  check_after : List Event → List Event → ℕ → Check
  check_after before rest n = elim (drop n rest) [
    | [] ↦ ok tt
    | e ∷ _ ↦ validate_transition (before ++ take n rest) e.payload
  ]

  check_after-cons :
      (before : List Event) (e : Event) (rest : List Event) (n : ℕ)
      → check_after before (e ∷ rest) (suc n) ≡ check_after (before ++ e ∷ []) rest n
  unfolding check_after drop
  check_after-cons before e rest n =
      ap (λ b. elim (drop n rest) [ [] ↦ ok tt | x ∷ _ ↦ validate_transition b x.payload ])
        (sym (append_assoc before (e ∷ []) (take n rest)))

  validate_transitions-check_after :
      (before rest : List Event) (n : ℕ)
      → validate_transitions before rest ≡ ok tt
      → check_after before rest n ≡ ok tt
  unfolding validate_transitions check_after drop
  validate_transitions-check_after before [] zero h = refl
  validate_transitions-check_after before [] (suc n) h = refl
  validate_transitions-check_after before (e ∷ rest) zero h =
      let (u, valid, later) =
        >>=-eq-ok (validate_transition before e.payload)
          (λ _. validate_transitions (before ++ e ∷ []) rest) h in
      rw append-nil valid
  validate_transitions-check_after before (e ∷ rest) (suc n) h =
      let (u, valid, later) =
        >>=-eq-ok (validate_transition before e.payload)
          (λ _. validate_transitions (before ++ e ∷ []) rest) h in
      check_after-cons before e rest n
      ∙ validate_transitions-check_after (before ++ e ∷ []) rest n later

  check_after-validate_transitions :
      (before rest : List Event)
      → ((n : ℕ) → check_after before rest n ≡ ok tt)
      → validate_transitions before rest ≡ ok tt
  unfolding validate_transitions check_after drop
  check_after-validate_transitions before [] h = refl
  check_after-validate_transitions before (e ∷ rest) h =
      let first : validate_transition before e.payload ≡ ok tt =
        ap (λ b. validate_transition b e.payload) (sym (append-nil before)) ∙ h 0 in
      rw first (
        check_after-validate_transitions (before ++ e ∷ []) rest
          (λ n. sym (check_after-cons before e rest n) ∙ h (suc n)))

  check_at-Legal : (l : List Event) → ((n : ℕ) → check_at l n ≡ ok tt) → Legal l
  unfolding check_at check_after
  check_at-Legal l h =
      validate_transitions-Legal [] l Legal.empty (check_after-validate_transitions [] l h)

  Legal-check_at : (l : List Event) → Legal l → (n : ℕ) → check_at l n ≡ ok tt
  unfolding check_at check_after
  Legal-check_at l legal n =
      validate_transitions-check_after [] l n (Legal-validate_transitions l legal)

  -- Replay returns a state on exactly the ledgers in which the state machine accepts the event at
  -- every position after the events before it, and the state is the projection of the ledger.
  pub replay-check_at :
      (l : List Event)
      → (((s : RunState) × (replay l ≡ ok s)) ↔ ((n : ℕ) → check_at l n ≡ ok tt))
        × ((s : RunState)
            → (replay l ≡ ok s) ↔ (((n : ℕ) → check_at l n ≡ ok tt) × (project l ≡ ok s)))
  replay-check_at l = (
    (
      (λ h. Legal-check_at l (((replay-eq-ok l (h.0)).0 (h.1)).0)),
      (λ h.
          let legal = check_at-Legal l h in
          let (s, projects) = project-Legal l legal in (s, (replay-eq-ok l s).1 (legal, projects))),
    ),
    (λ s. (
      (λ h. let (legal, projects) = (replay-eq-ok l s).0 h in (Legal-check_at l legal, projects)),
      (λ h. (replay-eq-ok l s).1 (check_at-Legal l (h.0), h.1)),
    )),
  )
