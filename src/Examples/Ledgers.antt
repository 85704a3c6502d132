-- ===== src/Examples/Ledgers.antt =====
-- The theorems on the ledger file at its first event, written after a torn line of one byte.
use tacorank.Prelude.{
  nat_eq, string_eq, option_eq, any, all, last?, elem, int_eq, ◌≡◌, refl, ◌≢◌, true, none, some, [],
  ◌∷◌, ◌++◌,
}
use tacorank.Dict.{get, set, contains}
use tacorank.Examples.Run.{nat_scores, no_delta, event, started}
use tacorank.Ledger.Replay.{replay}
use tacorank.Projection.Fold.{run_events, initial_projection, conclude, project}
use tacorank.Result.{Check, ok}
use tacorank.Schemas.Events.{EventPayload, Event}
use tacorank.Schemas.Judgements.{
  trust_verdict_eq, stability_eq, integrity_eq, experiment_decision_kind_eq, lesson_origin_eq,
  lesson_category_eq, lesson_status_eq, token_measurement_eq,
}
use tacorank.Schemas.Runs.{
  fidelity_eq, run_outcome_eq, recovery_action_eq, population_eq, failure_stage_eq, role_eq,
}
use tacorank.Schemas.Statuses.{run_status_eq, experiment_status_eq}
use tacorank.State.{RunState}
use tacorank.Store.Appending.{AppendRequest, last_hash, check_request, prepare, append}
use tacorank.Store.Chain.{IsChain, read_locked-IsChain}
use tacorank.Store.Codec.{Codec, genesis_hash, nested_run_ids, validate_envelope, matches_payload}
use tacorank.Store.Crash.{survives, append-survives}
use tacorank.Store.Lines.{Bytes, newline, split_lines, drop_last, ends_with_newline, repair_tail}
use tacorank.Store.Lookup.{append-get_by_idempotency_key}
use tacorank.Store.Projecting.{read_locked-replay}
use tacorank.Store.Reading.{
  Validator, knows_causation, check_event, read_line, read_lines, read_locked,
  get_by_idempotency_key, read_repaired,
}
use tacorank.Store.Roundtrip.{Encodes, append-read_locked}
use tacorank.Transition.Validate.{check_status, check_payload, validate_transition}

abbrev first_event : Event
first_event = record (event 1 "e1" started) { prev_event_hash = genesis_hash; event_hash = "hash" }

abbrev codec : Codec
codec = record {
  encode = λ e. 65 ∷ [];
  decode = λ line. some first_event;
  is_canonical = λ line. true;
  hash_of = λ e. "hash";
  payload_hash = λ payload. "e1";
  key_hash = λ key. key;
  is_key = λ run_id key. true;
  index_of = λ i. 0;
  event_id_of = λ n. "e1";
}

abbrev request : AppendRequest
request = record {
  run_id = "r";
  payload = started;
  idempotency_key = "e1";
  causation_event_id = none;
  resource_delta = no_delta;
  timestamp = 1000000;
}

abbrev validator : Validator
validator = some validate_transition

abbrev keep_artifacts : EventPayload → Check
keep_artifacts payload = ok tt

abbrev torn_file : Bytes
torn_file = 7 ∷ []

record IsAppended : Type 0 where
  returned : (append codec validator keep_artifacts request torn_file).1 ≡ ok first_event
  read_before : read_locked codec validator (repair_tail torn_file) ≡ ok []
  read_after : read_locked codec validator (65 ∷ 10 ∷ []) ≡ ok (first_event ∷ [])

first_is_appended : IsAppended
unfolding append prepare repair_tail matches_payload read_locked check_request last_hash
    validate_envelope ends_with_newline last? read_lines read_line check_event knows_causation any
    all nested_run_ids split_lines drop_last validate_transition check_status check_payload get set
    contains project run_events initial_projection conclude
first_is_appended = record { returned = refl; read_before = refl; read_after = refl }

first_event-Encodes : Encodes codec first_event
unfolding elem
first_event-Encodes = record { decodes = refl; canonical = refl; one_line = refl }

read_locked-IsChain_example : IsChain codec validator (first_event ∷ [])
read_locked-IsChain_example =
    read_locked-IsChain codec validator (65 ∷ 10 ∷ []) (first_event ∷ [])
      first_is_appended.read_after

read_locked-replay_example : (s : RunState) × (replay (first_event ∷ []) ≡ ok s)
read_locked-replay_example =
    read_locked-replay codec (65 ∷ 10 ∷ []) (first_event ∷ []) first_is_appended.read_after

append-read_locked_example :
    read_locked codec validator ((append codec validator keep_artifacts request torn_file).0)
    ≡ ok ([] ++ first_event ∷ [])
append-read_locked_example =
    append-read_locked codec validator keep_artifacts request torn_file [] first_event
      first_is_appended.returned first_is_appended.read_before first_event-Encodes

append-survives_example :
    read_repaired codec validator (repair_tail torn_file ++ 65 ∷ [])
    ≡ ok (survives (newline ∷ []) [] first_event)
append-survives_example =
    append-survives codec validator keep_artifacts request torn_file [] first_event (65 ∷ [])
      (newline ∷ []) first_is_appended.returned first_is_appended.read_before first_event-Encodes
      refl

append-get_by_idempotency_key_example :
    (get_by_idempotency_key codec validator
        ((append codec validator keep_artifacts request torn_file).0)
        request.idempotency_key
      ≡ ok (some first_event))
    × ((x : Event)
        → (append codec validator keep_artifacts request
            ((append codec validator keep_artifacts request torn_file).0)).1
          ≢ ok x)
append-get_by_idempotency_key_example =
    append-get_by_idempotency_key codec validator keep_artifacts request request torn_file
      first_event first_is_appended.returned first_event-Encodes refl
