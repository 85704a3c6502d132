-- ===== src/Store/Lookup.antt =====
-- `get_by_idempotency_key` of src/tacorank/memory/event_store.py after an append.
use tacorank.Prelude.{
  any, any-append, String, ◌≡◌, refl, sym, ap, ◌∙◌, subst, ◌≢◌, false, some, List, [], ◌∷◌, ◌++◌,
  arith, eq_iff,
}
use mathlib.Core.List.{append-nil}
use tacorank.Float.{Floats}
use tacorank.Result.{Check, ok_injective, ok}
use tacorank.Schemas.Events.{EventPayload, Event}
use tacorank.Store.Appending.{AppendRequest, has_idempotency_key, prepare, append}
use tacorank.Store.Codec.{Codec}
use tacorank.Store.Crash.{append-survives}
use tacorank.Store.Lines.{Bytes, newline, repair_tail}
use tacorank.Store.Reading.{
  Validator, first_with_key, read_locked, get_by_idempotency_key, read_repaired,
}
use tacorank.Store.Roundtrip.{Encodes, prepare-Prepared, append-eq-ok, append-read_locked}

module _ ⦃F : Floats⦄ where
  first_with_key-snoc :
      (key : String) (es : List Event) (e : Event)
      → any (has_idempotency_key key) es ≡ false
      → e.idempotency_key ≡ key
      → first_with_key key (es ++ e ∷ []) ≡ some e
  unfolding first_with_key any
  first_with_key-snoc key [] e h k = ground (arith, eq_iff e.idempotency_key key)
  first_with_key-snoc key (x ∷ es) e h k = ground (arith, first_with_key-snoc key es e)

  module _ (C : Codec) (V : Validator) (verify_artifacts : EventPayload → Check) where
    Prepared-key :
        (request : AppendRequest) (file : Bytes) (e : Event)
        → prepare C V verify_artifacts request file ≡ ok e
        → (events : List Event) × (read_locked C V file ≡ ok events)
          × (e.idempotency_key ≡ request.idempotency_key)
          × (any (has_idempotency_key request.idempotency_key) events ≡ false)
    Prepared-key request file e prepared =
        let (events, reads, is_new, p) =
          prepare-Prepared C V verify_artifacts request file e prepared in
        (events, reads, ap (λ (x : Event). x.idempotency_key) (sym is_new), p.fresh)

    -- An event that was appended is found under the key of its request, and no request with that key
    -- is appended a second time.
    pub append-get_by_idempotency_key :
        (request again : AppendRequest) (file : Bytes) (e : Event)
        → (append C V verify_artifacts request file).1 ≡ ok e
        → Encodes C e
        → again.idempotency_key ≡ request.idempotency_key
        → (get_by_idempotency_key C V
              ((append C V verify_artifacts request file).0)
              request.idempotency_key
            ≡ ok (some e))
          × ((x : Event)
              → (append C V verify_artifacts again ((append C V verify_artifacts request file).0)).1
                ≢ ok x)
    unfolding get_by_idempotency_key read_repaired any
    append-get_by_idempotency_key request again file e h enc same =
        let (m, prepared, eq) = append-eq-ok C V verify_artifacts request file e h in
        let (events, reads, keyed, fresh) = Prepared-key request (repair_tail file) e prepared in
        let now = append-read_locked C V verify_artifacts request file events e h reads enc in
        let repaired : read_locked C V (repair_tail ((append C V verify_artifacts request file).0))
            ≡ ok (events ++ e ∷ []) =
          ap (λ b. read_locked C V (repair_tail b)) eq
          ∙ append-survives C V verify_artifacts request file events e (C.encode e ++ newline ∷ [])
              [] h reads enc (sym (append-nil (C.encode e ++ newline ∷ []))) in
        (
          rw
              (
                get_by_idempotency_key,
                now,
                first_with_key-snoc request.idempotency_key events e fresh keyed,
              )
              refl,
          λ x second.
              let (m2, prepared2, eq2) = append-eq-ok C V verify_artifacts again _ x second in
              let (events2, reads2, keyed2, fresh2) = Prepared-key again _ x prepared2 in
              let found : events ++ e ∷ [] ≡ events2 =
                ok_injective (events ++ e ∷ []) events2 (sym repaired ∙ reads2) in
              let known : any (has_idempotency_key again.idempotency_key) (events ++ e ∷ [])
                  ≡ false =
                subst (λ l. any (has_idempotency_key again.idempotency_key) l ≡ false) (sym found)
                  fresh2 in
              ground (
                arith,
                known,
                any-append (has_idempotency_key again.idempotency_key) events (e ∷ []),
                eq_iff e.idempotency_key again.idempotency_key,
                keyed,
                same,
              ),
        )
