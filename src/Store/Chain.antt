-- ===== src/Store/Chain.antt =====
-- What every ledger that `read_locked` accepts satisfies.
use tacorank.Prelude.{
  Option-cases, length, any, last?, last?-snoc, any-append, ◌+◌, String, ◌≡◌, refl, sym, subst, inl,
  inr, true, false, Option, none, some, List, [], ◌∷◌, ◌++◌, arith, eq_iff,
}
use tacorank.Dict.{get, contains, contains-set}
use tacorank.Float.{Floats}
use tacorank.Ledger.{Legal}
use tacorank.Result.{Check, >>=-eq-ok, >>-eq-ok, ok_injective, ok, err}
use tacorank.Schemas.Events.{Event}
use tacorank.Store.Appending.{has_idempotency_key, last_hash}
use tacorank.Store.Codec.{Codec, unsealed}
use tacorank.Store.Lines.{Bytes, split_lines, drop_last, ends_with_newline}
use tacorank.Store.Reading.{
  Validator, Cursor, start, knows_causation, as_corruption, transition, corrupt_unless, first_run,
  advance_cursor, check_event, read_line, read_lines, read_locked,
}
use tacorank.Transition.Validate.{validate_transition}

module _ ⦃F : Floats⦄ where
  abbrev pub first_run_id : List Event → Option String
  first_run_id [] = none
  first_run_id (e ∷ _) = some e.run_id

  -- what the loop's variables hold of the events read so far
  pub record IsCursor (c : Cursor) : Type 0 where
    pub hash : c.previous_hash ≡ last_hash c.events
    pub run : c.run_id ≡ first_run_id c.events
    pub keys : (k : String) → contains c.idempotency k ≡ any (has_idempotency_key k) c.events

  pub last_hash-snoc : (es : List Event) (e : Event) → last_hash (es ++ e ∷ []) ≡ e.event_hash
  unfolding last_hash
  last_hash-snoc es e = rw (last_hash, last?-snoc es e) refl

  run_snoc :
      (es : List Event) (e : Event) (r : Option String)
      → r ≡ first_run_id es
      → some (first_run r e.run_id) ≡ first_run_id (es ++ e ∷ [])
  run_snoc [] e r h = rw h refl
  run_snoc (x ∷ es) e r h = rw h refl

  advance_cursor-IsCursor : (c : Cursor) (e : Event) → IsCursor c → IsCursor (advance_cursor c e)
  unfolding any
  advance_cursor-IsCursor c e i = record {
    hash = sym (last_hash-snoc c.events e);
    run = run_snoc c.events e c.run_id i.run;
    keys = λ k. ground (
      arith,
      contains-set c.idempotency e.idempotency_key k e,
      any-append (has_idempotency_key k) c.events (e ∷ []),
      i.keys k,
    );
  }

  module _ (C : Codec) (V : Validator) where
    -- `e` follows `events` in a valid ledger
    pub record Follows (events : List Event) (e : Event) : Type 0 where
      pub seq : e.seq ≡ length events + 1
      pub prev : e.prev_event_hash ≡ last_hash events
      pub hash : e.event_hash ≡ C.hash_of (unsealed e)
      pub fresh : any (has_idempotency_key e.idempotency_key) events ≡ false
      pub cause : knows_causation events e.causation_event_id ≡ true
      pub accepted : transition V events e.payload ≡ ok tt

    -- ledgers that grow by one event that follows at a time
    pub data IsChain : List Event → Type 0 where
      genesis : IsChain []
      link :
          (es : List Event) (e : Event) {l : List Event}
          → IsChain es
          → Follows es e
          → l ≡ es ++ e ∷ []
          → IsChain l

    as_corruption-eq-ok : (r : Check) → as_corruption r ≡ ok tt → r ≡ ok tt
    as_corruption-eq-ok (ok u) h = h
    as_corruption-eq-ok (err x) h = cc

    check_event-Follows :
        (c : Cursor) (e : Event) → IsCursor c → check_event C V c e ≡ ok tt → Follows c.events e
    unfolding check_event
    check_event-Follows c e i h = record {
      seq = ground arith;
      prev = ground (arith, eq_iff e.prev_event_hash c.previous_hash, i.hash);
      hash = ground (arith, eq_iff e.event_hash (C.hash_of (unsealed e)));
      fresh = ground (arith, i.keys e.idempotency_key);
      cause = ground arith;
      accepted = as_corruption-eq-ok _ (ground arith);
    }

    read_line-Follows :
        (c : Cursor) (line : Bytes) (c' : Cursor)
        → IsCursor c
        → read_line C V c line ≡ ok c'
        → (e : Event) × (c' ≡ advance_cursor c e) × Follows c.events e
    unfolding read_line
    read_line-Follows c line c' i h = elim (Option-cases (C.decode line)) [
      | inl n ↦ absurd (ground (arith, n))
      | inr (e, d) ↦ (e, ground (arith, d), check_event-Follows c e i (ground (arith, d)))
    ]

    pub read_lines-IsChain :
        (lines : List Bytes) (c c' : Cursor)
        → IsCursor c
        → IsChain c.events
        → read_lines C V c lines ≡ ok c'
        → IsCursor c' × IsChain c'.events
    unfolding read_lines
    read_lines-IsChain [] c c' i k h =
        subst (λ (x : Cursor). IsCursor x × IsChain x.events) (ok_injective c c' h) (i, k)
    read_lines-IsChain (line ∷ lines) c c' i k h =
        let (n, first, later) = >>=-eq-ok (read_line C V c line) (λ n. read_lines C V n lines) h in
        let (e, eq, follows) = read_line-Follows c line n i first in
        read_lines-IsChain lines n c' (subst IsCursor (sym eq) (advance_cursor-IsCursor c e i))
          (subst (λ (x : Cursor). IsChain x.events) (sym eq)
            (IsChain.link c.events e k follows refl))
          later

    pub start-IsCursor : IsCursor start
    unfolding last_hash any contains get last?
    start-IsCursor = record { hash = refl; run = refl; keys = λ k. refl }

    -- A ledger that `read_locked` returns is numbered 1, 2, ... without a gap, is linked by its hashes,
    -- names every idempotency key once and only earlier events as causes, and each of its events was
    -- accepted by the transition validator after those before it.
    pub read_locked-IsChain :
        (file : Bytes) (events : List Event) → read_locked C V file ≡ ok events → IsChain events
    unfolding read_locked
    read_locked-IsChain [] events h = subst IsChain (ok_injective [] events h) IsChain.genesis
    read_locked-IsChain (b ∷ bs) events h =
        let lines = split_lines (drop_last (b ∷ bs)) in
        let (c, r, eq) =
          >>=-eq-ok (read_lines C V start lines) (λ (c : Cursor). ok c.events)
            ((>>-eq-ok (corrupt_unless (ends_with_newline (b ∷ bs)) _) _ h).1) in
        subst IsChain (ok_injective c.events events eq)
          ((read_lines-IsChain lines start c start-IsCursor IsChain.genesis r).1)

    -- with the state machine as the validator
    pub IsChain-Legal : (l : List Event) → IsChain l → V ≡ some validate_transition → Legal l
    IsChain-Legal l IsChain.genesis v = Legal.empty
    IsChain-Legal l (IsChain.link es e chain follows eq) v =
        Legal.append es e (IsChain-Legal es chain v)
          (subst (λ w. transition w es e.payload ≡ ok tt) v follows.accepted) eq
