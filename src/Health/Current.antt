-- ===== src/Health/Current.antt =====
-- What the window of Health.Observer holds: the latest samples of the current execution.
use tacorank.Prelude.{
  if◌then◌else◌, Bool-cases, drop, last?, last?-snoc, ℕ, ◌≤◌, ◌≡◌, refl, sym, ap, ◌∙◌, inl, inr,
  true, false, Option, none, some, List, [], ◌∷◌, ◌++◌, arith, eq_iff,
}
use tacorank.Float.{Floats}
use tacorank.Health.Observer.{
  Identity, is_identity, SreObserver, identity_of, new_observer, observed,
}
use tacorank.Health.Slices.{tail_slice-snoc, tail_slice_one}
use tacorank.Health.Window.{tail_slice, TelemetrySample, new_window, add}
use tacorank.Result.{ok}

is_identity-eq-true : (m : Option Identity) (i : Identity) → is_identity m i ≡ true → m ≡ some i
is_identity-eq-true none i h = cc
is_identity-eq-true (some (a, b, c)) (d, e, f) h = ground (arith, eq_iff a d, eq_iff b e)

module _ ⦃F : Floats⦄ where
  abbrev identity_after : List TelemetrySample → Option Identity
  identity_after seen = elim (last? seen) [ none ↦ none | some sample ↦ some (identity_of sample) ]

  -- all samples of the current execution, where one more is seen
  unfoldable pub current : List TelemetrySample → TelemetrySample → List TelemetrySample
  unfolding last?
  current seen sample =
      if is_identity (identity_after seen) (identity_of sample)
      then seen ++ sample ∷ []
      else sample ∷ []

  -- an observer after samples, of which those of the current execution are listed
  pub data Observing : SreObserver → List TelemetrySample → Type 0 where
    begun : (capacity : ℕ) (o : SreObserver) → new_observer capacity ≡ ok o → Observing o []
    seeing :
        (o : SreObserver) (seen : List TelemetrySample) (sample : TelemetrySample)
        → Observing o seen
        → Observing (observed o sample) (current seen sample)

  -- the window is the end of those samples that fits
  pub record Holds (o : SreObserver) (seen : List TelemetrySample) : Type 0 where
    pub positive : 1 ≤ o.window.capacity
    pub samples : o.window.samples ≡ tail_slice o.window.capacity seen
    pub identity : o.execution_identity ≡ identity_after seen

  begun-Holds : (capacity : ℕ) (o : SreObserver) → new_observer capacity ≡ ok o → Holds o []
  unfolding new_observer new_window tail_slice drop last?
  begun-Holds capacity o h = record {
    positive = ground arith;
    samples = ground arith;
    identity = ground arith;
  }

  identity_after-snoc :
      (seen : List TelemetrySample) (sample : TelemetrySample)
      → identity_after (seen ++ sample ∷ []) ≡ some (identity_of sample)
  identity_after-snoc seen sample = rw (identity_after, last?-snoc seen sample) refl

  observed-Holds :
      (o : SreObserver) (seen : List TelemetrySample) (sample : TelemetrySample)
      → Holds o seen
      → Holds (observed o sample) (current seen sample)
  unfolding observed add current drop last?
  observed-Holds o seen sample h =
      let matches : is_identity o.execution_identity (identity_of sample)
          ≡ is_identity (identity_after seen) (identity_of sample) =
        ap (λ m. is_identity m (identity_of sample)) h.identity in
      elim (Bool-cases (is_identity (identity_after seen) (identity_of sample))) [
        | inl same ↦
            let matched : is_identity o.execution_identity (identity_of sample) ≡ true =
              matches ∙ same in
            record {
              positive = rw matched h.positive;
              samples =
                  rw (matched, same, h.samples)
                    (tail_slice-snoc o.window.capacity seen sample h.positive);
              identity =
                  rw (matched, same)
                    (h.identity
                      ∙ is_identity-eq-true (identity_after seen) (identity_of sample) same
                      ∙ sym (identity_after-snoc seen sample));
            }
        | inr other ↦
            let unmatched : is_identity o.execution_identity (identity_of sample) ≡ false =
              matches ∙ other in
            record {
              positive = rw unmatched h.positive;
              samples = rw (unmatched, other) (tail_slice_one o.window.capacity sample h.positive);
              identity = rw (unmatched, other) refl;
            }
      ]

  -- After any samples, the window holds the samples of the current execution, or as many of the latest
  -- of them as its capacity admits: a sample of another run, experiment or attempt clears it.
  pub Observing-Holds :
      (o : SreObserver) (seen : List TelemetrySample) → Observing o seen → Holds o seen
  Observing-Holds o seen (Observing.begun capacity o' h) = begun-Holds capacity o h
  Observing-Holds o' seen' (Observing.seeing o seen sample before) =
      observed-Holds o seen sample (Observing-Holds o seen before)

  pub last?-current :
      (seen : List TelemetrySample) (sample : TelemetrySample)
      → last? (current seen sample) ≡ some sample
  unfolding current last?
  last?-current seen sample = ground (arith, last?-snoc seen sample)
