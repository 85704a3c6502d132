-- ===== src/Store/Crash.antt =====
-- An append of src/tacorank/memory/event_store.py that is cut off after any of its bytes.
use tacorank.Prelude.{
  nat_eq, string_eq, option_eq, elem, int_eq, ℕ, ◌≡◌, refl, sym, ap, ◌∙◌, List, [], ◌∷◌, ◌++◌,
  arith,
}
use mathlib.Core.List.{append-nil}
use tacorank.Float.{Floats}
use tacorank.Result.{Check, ok}
use tacorank.Schemas.Events.{EventPayload, Event}
use tacorank.Schemas.Judgements.{
  trust_verdict_eq, stability_eq, integrity_eq, experiment_decision_kind_eq, lesson_origin_eq,
  lesson_category_eq, lesson_status_eq, token_measurement_eq,
}
use tacorank.Schemas.Runs.{
  fidelity_eq, run_outcome_eq, recovery_action_eq, population_eq, failure_stage_eq, role_eq,
}
use tacorank.Schemas.Statuses.{run_status_eq, experiment_status_eq}
use tacorank.Store.Appending.{AppendRequest, append}
use tacorank.Store.Codec.{Codec}
use tacorank.Store.Lines.{
  Bytes, newline, repair_tail, IsLine, repair_tail-written, repair_tail-lines, repair_tail-whole,
}
use tacorank.Store.Reading.{Validator, read_locked, read_repaired}
use tacorank.Store.Roundtrip.{Encodes, append-eq-ok, append-read_locked}

-- the bytes before the newline that ends a line
prefix-IsLine :
    (line p q : Bytes) (b : ℕ) → IsLine line → line ++ newline ∷ [] ≡ p ++ b ∷ q → IsLine p
unfolding elem
prefix-IsLine line [] q b h e = refl
prefix-IsLine [] (c ∷ []) q b h e = cc
prefix-IsLine [] (c ∷ d ∷ p) q b h e = cc
prefix-IsLine (a ∷ line) (c ∷ p) q b h e = ground (arith, prefix-IsLine line p q b)

-- the ledger that a cut after `p`, with `q` missing, leaves behind
abbrev pub survives {ℓ} : {A : Type ℓ} → Bytes → List A → A → List A
survives [] events e = events ++ e ∷ []
survives (_ ∷ _) events e = events

module _ ⦃F : Floats⦄ (C : Codec) (V : Validator) (verify_artifacts : EventPayload → Check) where
  -- However many bytes of an append reach the file, the next reader that repairs the tail finds the
  -- old ledger, and where all the bytes are there, the old ledger with the new event: an append is
  -- atomic.
  pub append-survives :
      (request : AppendRequest) (file : Bytes) (events : List Event) (e : Event) (p q : Bytes)
      → (append C V verify_artifacts request file).1 ≡ ok e
      → read_locked C V (repair_tail file) ≡ ok events
      → Encodes C e
      → C.encode e ++ newline ∷ [] ≡ p ++ q
      → read_repaired C V (repair_tail file ++ p) ≡ ok (survives q events e)
  unfolding read_repaired
  append-survives request file events e p [] h reads enc cut =
      let (m, prepared, eq) = append-eq-ok C V verify_artifacts request file e h in
      ap (λ b. read_locked C V (repair_tail (repair_tail file ++ b))) (sym (cut ∙ append-nil p))
      ∙ ap (read_locked C V) (repair_tail-whole file (C.encode e) ∙ sym eq)
      ∙ append-read_locked C V verify_artifacts request file events e h reads enc
  append-survives request file events e p (b ∷ q) h reads enc cut =
      let (lines, are, eq) = repair_tail-lines file in
      ap (λ f. read_locked C V (repair_tail (f ++ p))) eq
      ∙ ap (read_locked C V)
          (repair_tail-written lines p (prefix-IsLine (C.encode e) p q b enc.one_line cut) ∙ sym eq)
      ∙ reads
