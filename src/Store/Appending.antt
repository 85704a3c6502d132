-- ===== src/Store/Appending.antt =====
-- src/tacorank/memory/event_store.py: `append`. The lock is held throughout, so that an append is one
-- step from a file to a file.
use tacorank.Prelude.{
  if◌then◌else◌, ◌==◌, nat_eq, string_eq, option_eq, length, any, all, last?, int_eq, ℕ, ◌+◌,
  String, Bool, false, not, Option, none, some, List, [], ◌∷◌, ◌++◌,
}
use tacorank.Float.{Floats}
use tacorank.Result.{
  Result, Check, require_or, ok, err, value_error, ledger_error, duplicate_idempotency_key, ◌>>=◌,
  ◌>>◌,
}
use tacorank.Schemas.Events.{EventPayload, Event}
use tacorank.Schemas.Judgements.{
  trust_verdict_eq, stability_eq, integrity_eq, experiment_decision_kind_eq, lesson_origin_eq,
  lesson_category_eq, lesson_status_eq, token_measurement_eq,
}
use tacorank.Schemas.Records.{ResourceDelta}
use tacorank.Schemas.Runs.{
  fidelity_eq, run_outcome_eq, recovery_action_eq, population_eq, failure_stage_eq, role_eq,
}
use tacorank.Schemas.Statuses.{run_status_eq, experiment_status_eq}
use tacorank.Store.Codec.{Codec, genesis_hash, nested_run_ids, validate_envelope, matches_payload}
use tacorank.Store.Lines.{Bytes, newline, repair_tail}
use tacorank.Store.Reading.{Validator, knows_causation, transition, read_locked}

module _ ⦃F : Floats⦄ where
  -- the arguments of `append`, with the defaults filled in and the time in microseconds
  pub record AppendRequest : Type 0 where
    pub run_id : String
    pub payload : EventPayload
    pub idempotency_key : String
    pub causation_event_id : Option String
    pub resource_delta : ResourceDelta
    pub timestamp : ℕ

  abbrev pub has_idempotency_key : String → Event → Bool
  has_idempotency_key key e = e.idempotency_key == key

  -- `events and events[0].run_id != run_id`
  abbrev pub is_other_run : List Event → String → Bool
  is_other_run [] run_id = false
  is_other_run (e ∷ _) run_id = not (e.run_id == run_id)

  -- `events[-1].event_hash if events else GENESIS_HASH`
  unfoldable pub last_hash : List Event → String
  unfolding last?
  last_hash events = elim (last? events) [ none ↦ genesis_hash | some e ↦ e.event_hash ]

  module _ (C : Codec) where
    abbrev pub draft : AppendRequest → List Event → Event
    draft request events = record {
      event_id = C.event_id_of (length events + 1);
      seq = length events + 1;
      timestamp = request.timestamp;
      run_id = request.run_id;
      idempotency_key = request.idempotency_key;
      causation_event_id = request.causation_event_id;
      payload = request.payload;
      resource_delta = request.resource_delta;
      prev_event_hash = last_hash events;
      event_hash = "";
    }

    abbrev pub sealed : Event → Event
    sealed e = record e { event_hash = C.hash_of e }

  -- `artifact_store.verify` on the artifacts of the payload is a parameter
  module _ (C : Codec) (V : Validator) (verify_artifacts : EventPayload → Check) where
    -- the checks of the request against the ledger, in the order of the source
    unfoldable pub check_request : AppendRequest → List Event → Check
    unfolding any knows_causation nested_run_ids all
    check_request request events = do
      require_or (not (any (has_idempotency_key request.idempotency_key) events))
          (duplicate_idempotency_key request.idempotency_key)
      require_or (not (is_other_run events request.run_id))
          (ledger_error "run_id does not match the existing ledger")
      require_or (knows_causation events request.causation_event_id)
          (ledger_error "causation_event_id does not exist")
      require_or (all (λ i. i == request.run_id) (nested_run_ids request.payload))
          (ledger_error "payload run_id does not match event envelope")
      transition V events request.payload
      verify_artifacts request.payload

    -- the event that `append` writes
    unfoldable pub prepare : AppendRequest → Bytes → Result Event
    unfolding read_locked check_request last_hash validate_envelope
    prepare request file = do
      events ← read_locked C V file
      check_request request events
      require_or (validate_envelope C (sealed C (draft C request events)))
          (value_error "event does not validate")
      ok (sealed C (draft C request events))

    abbrev pub write : Bytes → Result Event → Bytes × Result Event
    write file (ok e) = (file ++ (C.encode e ++ newline ∷ []), ok e)
    write file (err x) = (file, err x)

    -- the file afterwards, and what is returned or raised
    unfoldable pub append : AppendRequest → Bytes → Bytes × Result Event
    unfolding prepare repair_tail matches_payload
    append request file =
        if matches_payload C request.idempotency_key request.payload
        then write (repair_tail file) (prepare request (repair_tail file))
        else (file, err (ledger_error "idempotency key input hash does not match payload"))
