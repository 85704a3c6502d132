-- ===== src/Store/Reading.antt =====
-- src/tacorank/memory/event_store.py: `_read_locked`, which checks every line of the ledger.
use tacorank.Prelude.{
  if◌then◌else◌, ◌==◌, nat_eq, string_eq, option_eq, length, any, int_eq, ◌+◌, String, Bool, true,
  not, ◌||◌, Option, none, some, List, [], ◌∷◌, ◌++◌,
}
use tacorank.Dict.{Dict, set, contains}
use tacorank.Float.{Floats}
use tacorank.Result.{
  Result, Check, require_or, or_raise, ok, err, ledger_corruption_error, ◌>>=◌, ◌>>◌,
}
use tacorank.Schemas.Events.{EventPayload, Event}
use tacorank.Schemas.Judgements.{
  trust_verdict_eq, stability_eq, integrity_eq, experiment_decision_kind_eq, lesson_origin_eq,
  lesson_category_eq, lesson_status_eq, token_measurement_eq,
}
use tacorank.Schemas.Runs.{
  fidelity_eq, run_outcome_eq, recovery_action_eq, population_eq, failure_stage_eq, role_eq,
}
use tacorank.Schemas.Statuses.{run_status_eq, experiment_status_eq}
use tacorank.Store.Codec.{Codec, genesis_hash, unsealed, validate_envelope, matches_payload}
use tacorank.Store.Lines.{Bytes, split_lines, drop_last, ends_with_newline, repair_tail}

module _ ⦃F : Floats⦄ where
  -- `self.transition_validator`, where there is one
  abbrev pub Validator : Type 0
  Validator = Option (List Event → EventPayload → Check)

  -- the variables of the loop over the lines
  pub record Cursor : Type 0 where
    pub events : List Event
    pub previous_hash : String
    pub run_id : Option String
    pub idempotency : Dict Event

  abbrev pub start : Cursor
  start = record { events = []; previous_hash = genesis_hash; run_id = none; idempotency = [] }

  -- `event.run_id` agrees with that of the ledger
  abbrev pub same_run : Option String → String → Bool
  same_run none i = true
  same_run (some run_id) i = i == run_id

  abbrev has_id : String → Event → Bool
  has_id i item = item.event_id == i

  -- a causation that is None or empty, or the id of an earlier event
  unfoldable pub knows_causation : List Event → Option String → Bool
  unfolding any
  knows_causation events none = true
  knows_causation events (some i) = i == "" || any (has_id i) events

  -- an exception of the validator is a corruption
  abbrev pub as_corruption : Check → Check
  as_corruption (ok u) = ok u
  as_corruption (err e) = err (ledger_corruption_error "illegal transition")

  abbrev pub transition : Validator → List Event → EventPayload → Check
  transition none events payload = ok tt
  transition (some validator) events payload = validator events payload

  abbrev pub corrupt_unless : Bool → String → Check
  corrupt_unless b message = require_or b (ledger_corruption_error message)

  abbrev pub first_run : Option String → String → String
  first_run none i = i
  first_run (some run_id) i = run_id

  abbrev pub advance_cursor : Cursor → Event → Cursor
  advance_cursor c e = record {
    events = c.events ++ e ∷ [];
    previous_hash = e.event_hash;
    run_id = some (first_run c.run_id e.run_id);
    idempotency = set c.idempotency e.idempotency_key e;
  }

  unfoldable pub first_with_key : String → List Event → Option Event
  first_with_key key [] = none
  first_with_key key (e ∷ es) =
      let rest = first_with_key key es in if e.idempotency_key == key then some e else rest

  module _ (C : Codec) (V : Validator) where
    -- the checks of a decoded event against those before it
    unfoldable pub check_event : Cursor → Event → Check
    unfolding knows_causation
    check_event c e = do
      corrupt_unless (e.seq == length c.events + 1) "non-contiguous sequence"
      corrupt_unless (e.prev_event_hash == c.previous_hash) "prev_event_hash mismatch"
      corrupt_unless (e.event_hash == C.hash_of (unsealed e)) "event_hash mismatch"
      corrupt_unless (same_run c.run_id e.run_id) "a ledger may contain only one run_id"
      corrupt_unless (not (contains c.idempotency e.idempotency_key))
          "duplicate idempotency key in ledger"
      corrupt_unless (knows_causation c.events e.causation_event_id) "unknown causation event"
      as_corruption (transition V c.events e.payload)

    -- one line: its decoding, the envelope, the idempotency key and the stored form
    unfoldable pub read_line : Cursor → Bytes → Result Cursor
    unfolding check_event validate_envelope matches_payload
    read_line c line = do
      e ← or_raise (ledger_corruption_error "invalid complete ledger line") (C.decode line)
      corrupt_unless (validate_envelope C e) "invalid complete ledger line"
      corrupt_unless (matches_payload C e.idempotency_key e.payload) "invalid complete ledger line"
      corrupt_unless (C.is_canonical line) "ledger line is not canonical JSON"
      check_event c e
      ok (advance_cursor c e)

    unfoldable pub read_lines : Cursor → List Bytes → Result Cursor
    unfolding read_line
    read_lines c [] = ok c
    read_lines c (line ∷ lines) = do next ← read_line c line; read_lines next lines

    unfoldable pub read_locked : Bytes → Result (List Event)
    unfolding ends_with_newline read_lines
    read_locked [] = ok []
    read_locked (b ∷ bs) = do
      corrupt_unless (ends_with_newline (b ∷ bs)) "ledger has an incomplete trailing fragment"
      c ← read_lines start (split_lines (drop_last (b ∷ bs)))
      ok c.events

    -- `get_by_idempotency_key`, which reads without a repair
    unfoldable pub get_by_idempotency_key : Bytes → String → Result (Option Event)
    unfolding read_locked first_with_key
    get_by_idempotency_key file key = do events ← read_locked file; ok (first_with_key key events)

    -- `read_events(repair_tail=True)`, whose repair also rewrites the file
    unfoldable pub read_repaired : Bytes → Result (List Event)
    unfolding read_locked
    read_repaired file = read_locked (repair_tail file)
