-- ===== src/Store/Roundtrip.antt =====
-- What `append` of src/tacorank/memory/event_store.py writes is what `_read_locked` reads.
use tacorank.Prelude.{
  Bool-cases, any, String, ◌≡◌, refl, sym, ap, ◌∙◌, subst, inl, inr, true, false, Option, some,
  List, [], ◌∷◌, ◌++◌, arith, eq_iff,
}
use tacorank.Dict.{contains}
use tacorank.Float.{Floats}
use tacorank.Result.{
  Result, ◌>>=◌, Check, require_or, >>=-eq-ok, >>-eq-ok, require_or-eq-ok, result_cases,
  ok_injective, ok, err,
}
use tacorank.Schemas.Events.{EventPayload, Event}
use tacorank.Store.Appending.{
  AppendRequest, has_idempotency_key, is_other_run, last_hash, draft, sealed, check_request,
  prepare, write, append,
}
use tacorank.Store.Chain.{first_run_id, IsCursor, IsChain, read_lines-IsChain, start-IsCursor}
use tacorank.Store.Codec.{Codec, unsealed, validate_envelope, matches_payload}
use tacorank.Store.Lines.{
  Bytes, newline, repair_tail, written, IsLine, AreLines, AreLines-append, split_lines-written,
  ends_with_newline-written, written-append, repair_tail-lines,
}
use tacorank.Store.Reading.{
  Validator, Cursor, start, same_run, knows_causation, transition, advance_cursor, check_event,
  read_line, read_lines, read_locked,
}

module _ ⦃F : Floats⦄ where
  -- JSON gives back what was dumped, and a dumped event is one line
  pub record Encodes (C : Codec) (e : Event) : Type 0 where
    pub decodes : C.decode (C.encode e) ≡ some e
    pub canonical : C.is_canonical (C.encode e) ≡ true
    pub one_line : IsLine (C.encode e)

  module _ (C : Codec) (V : Validator) where
    pub read_locked-written :
        (lines : List Bytes)
        → AreLines lines
        → read_locked C V (written lines)
          ≡ (read_lines C V start lines >>= λ (c : Cursor). ok c.events)
    unfolding read_locked written read_lines
    read_locked-written [] h = refl
    read_locked-written ([] ∷ lines) h =
        rw (split_lines-written [] lines h, ends_with_newline-written [] lines) refl
    read_locked-written ((b ∷ line) ∷ lines) h =
        rw (split_lines-written (b ∷ line) lines h, ends_with_newline-written (b ∷ line) lines) refl

    pub read_lines-append :
        (c : Cursor) (xs ys : List Bytes)
        → read_lines C V c (xs ++ ys) ≡ (read_lines C V c xs >>= λ d. read_lines C V d ys)
    unfolding read_lines
    read_lines-append c [] ys = refl
    read_lines-append c (x ∷ xs) ys = elim (result_cases (read_line C V c x)) [
      | inl h ↦ rw (h.1, read_lines-append (h.0) xs ys) refl
      | inr h ↦ rw (h.1) refl
    ]

  module _ (C : Codec) (V : Validator) (verify_artifacts : EventPayload → Check) where
    abbrev pub new_event : AppendRequest → List Event → Event
    new_event request events = sealed C (draft C request events)

    -- what an append to the ledger `events` has checked
    pub record Prepared (request : AppendRequest) (events : List Event) : Type 0 where
      pub fresh : any (has_idempotency_key request.idempotency_key) events ≡ false
      pub run : is_other_run events request.run_id ≡ false
      pub cause : knows_causation events request.causation_event_id ≡ true
      pub accepted : transition V events request.payload ≡ ok tt
      pub envelope : validate_envelope C (new_event request events) ≡ true

    check_request-eq-ok :
        (request : AppendRequest) (events : List Event)
        → check_request C V verify_artifacts request events ≡ ok tt
        → (any (has_idempotency_key request.idempotency_key) events ≡ false)
          × (is_other_run events request.run_id ≡ false)
          × (knows_causation events request.causation_event_id ≡ true)
          × (transition V events request.payload ≡ ok tt)
    unfolding check_request
    check_request-eq-ok request events h = (ground arith, ground arith, ground arith, ground arith)

    pub prepare-Prepared :
        (request : AppendRequest) (file : Bytes) (e : Event)
        → prepare C V verify_artifacts request file ≡ ok e
        → (events : List Event) × (read_locked C V file ≡ ok events)
          × (new_event request events ≡ e)
          × Prepared request events
    unfolding prepare
    prepare-Prepared request file e h =
        let (events, reads, rest) = >>=-eq-ok (read_locked C V file) _ h in
        let (checked, more) = >>-eq-ok (check_request C V verify_artifacts request events) _ rest in
        let (valid, last) =
          >>-eq-ok (require_or (validate_envelope C (new_event request events)) _) _ more in
        let (fresh, run, cause, accepted) = check_request-eq-ok request events checked in
        (
          events,
          reads,
          ok_injective _ e last,
          record {
            fresh = fresh;
            run = run;
            cause = cause;
            accepted = accepted;
            envelope = require_or-eq-ok _ _ valid;
          },
        )

    same_run_lem :
        (events : List Event) (r : Option String) (i : String)
        → r ≡ first_run_id events
        → is_other_run events i ≡ false
        → same_run r i ≡ true
    same_run_lem [] r i e h = rw e refl
    same_run_lem (x ∷ events) r i e h = rw e (ground (arith, eq_iff x.run_id i, eq_iff i x.run_id))

    check_event-Prepared :
        (request : AppendRequest) (c : Cursor)
        → IsCursor c
        → Prepared request c.events
        → check_event C V c (new_event request c.events) ≡ ok tt
    unfolding check_event
    check_event-Prepared request c i p =
        let e = new_event request c.events in
        let run : same_run c.run_id request.run_id ≡ true =
          same_run_lem c.events c.run_id request.run_id i.run p.run in
        let fresh : contains c.idempotency request.idempotency_key ≡ false =
          i.keys request.idempotency_key ∙ p.fresh in
        rw (check_event, p.accepted)
          (ground (
            arith,
            run,
            fresh,
            p.cause,
            i.hash,
            eq_iff (last_hash c.events) c.previous_hash,
            eq_iff (C.hash_of (unsealed e)) (C.hash_of (unsealed e)),
          ))

    read_line-Prepared :
        (request : AppendRequest) (c : Cursor)
        → IsCursor c
        → Prepared request c.events
        → matches_payload C request.idempotency_key request.payload ≡ true
        → Encodes C (new_event request c.events)
        → read_line C V c (C.encode (new_event request c.events))
          ≡ ok (advance_cursor c (new_event request c.events))
    unfolding read_line
    read_line-Prepared request c i p m enc =
        rw
          (read_line, enc.decodes, p.envelope, m, enc.canonical, check_event-Prepared request c i p)
          refl

    write-eq-ok :
        (file : Bytes) (r : Result Event) (e : Event)
        → (write C V verify_artifacts file r).1 ≡ ok e
        → (r ≡ ok e)
          × ((write C V verify_artifacts file r).0 ≡ file ++ (C.encode e ++ newline ∷ []))
    write-eq-ok file (ok x) e h =
        (h, ap (λ y. file ++ (C.encode y ++ newline ∷ [])) (ok_injective x e h))
    write-eq-ok file (err x) e h = cc

    pub append-eq-ok :
        (request : AppendRequest) (file : Bytes) (e : Event)
        → (append C V verify_artifacts request file).1 ≡ ok e
        → (matches_payload C request.idempotency_key request.payload ≡ true)
          × (prepare C V verify_artifacts request (repair_tail file) ≡ ok e)
          × ((append C V verify_artifacts request file).0
              ≡ repair_tail file ++ (C.encode e ++ newline ∷ []))
    unfolding append
    append-eq-ok request file e h =
        elim (Bool-cases (matches_payload C request.idempotency_key request.payload)) [
          | inr n ↦ absurd (let k = rw (append, n) at h in cc)
          | inl y ↦
              let (prepared, written_file) =
                write-eq-ok (repair_tail file)
                  (prepare C V verify_artifacts request (repair_tail file)) e
                  (rw (append, y) at h) in
              (y, prepared, rw (append, y) written_file)
        ]

    -- the lines of the ledger, read up to the appended one
    read_lines-Prepared :
        (request : AppendRequest) (lines : List Bytes) (events : List Event)
        → read_locked C V (written lines) ≡ ok events
        → AreLines lines
        → Prepared request events
        → matches_payload C request.idempotency_key request.payload ≡ true
        → Encodes C (new_event request events)
        → read_locked C V (written (lines ++ C.encode (new_event request events) ∷ []))
          ≡ ok (events ++ new_event request events ∷ [])
    unfolding read_lines
    read_lines-Prepared request lines events reads are p m enc =
        let line = C.encode (new_event request events) in
        let (c, r, eq) =
          >>=-eq-ok (read_lines C V start lines) (λ (c : Cursor). ok c.events)
            (sym (read_locked-written C V lines are) ∙ reads) in
        let same : c.events ≡ events = ok_injective c.events events eq in
        let (i, chain) =
          read_lines-IsChain C V lines start c (start-IsCursor C V) IsChain.genesis r in
        let next =
          read_line-Prepared request c i (subst (Prepared request) (sym same) p) m
            (subst (λ es. Encodes C (new_event request es)) (sym same) enc) in
        read_locked-written C V (lines ++ line ∷ [])
          (AreLines-append lines (line ∷ []) are (enc.one_line, tt))
        ∙ rw (read_lines-append C V start lines (line ∷ []), r)
            (subst
              (λ es.
                (read_line C V c (C.encode (new_event request es))
                  >>= (λ n. ok n)
                  >>= λ (c : Cursor). ok c.events)
                ≡ ok (es ++ new_event request es ∷ []))
              same (rw next refl))

    -- What an append returns is what the next read finds behind the events that were there: the file
    -- reads back as the old ledger with the new event at its end.
    pub append-read_locked :
        (request : AppendRequest) (file : Bytes) (events : List Event) (e : Event)
        → (append C V verify_artifacts request file).1 ≡ ok e
        → read_locked C V (repair_tail file) ≡ ok events
        → Encodes C e
        → read_locked C V ((append C V verify_artifacts request file).0) ≡ ok (events ++ e ∷ [])
    unfolding written
    append-read_locked request file events e h reads enc =
        let (m, prepared, eq) = append-eq-ok request file e h in
        let (events', reads', is_new, p) = prepare-Prepared request (repair_tail file) e prepared in
        let same : events' ≡ events = ok_injective events' events (sym reads' ∙ reads) in
        let (lines, are, whole) = repair_tail-lines file in
        let new = new_event request events' in
        ap (read_locked C V) (
          eq
          ∙ ap (λ b. b ++ (C.encode e ++ newline ∷ [])) whole
          ∙ ap (λ x. written lines ++ (C.encode x ++ newline ∷ [])) (sym is_new)
          ∙ sym (written-append lines (C.encode new ∷ [])))
        ∙ read_lines-Prepared request lines events' (sym (ap (read_locked C V) whole) ∙ reads') are
            p m (subst (Encodes C) (sym is_new) enc)
        ∙ ap (λ (es : List Event). ok (es ++ new ∷ [])) same
        ∙ ap (λ (x : Event). ok (events ++ x ∷ [])) is_new
