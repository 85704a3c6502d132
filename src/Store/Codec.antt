-- ===== src/Store/Codec.antt =====
-- What src/tacorank/memory/event_store.py takes from JSON, SHA-256 and the text formats of
-- src/tacorank/schemas.py, and the checks of the event envelope there.
use tacorank.Prelude.{
  ltb, leb, ◌==◌, nat_eq, string_eq, option_eq, int_eq, ℕ, String, Bool, true, ◌&&◌, ◌||◌, Option,
  none, some, List, [], ◌∷◌,
}
use tacorank.Float.{Floats}
use tacorank.Schemas.Events.{EventPayload, Event}
use tacorank.Schemas.Judgements.{
  trust_verdict_eq, stability_eq, integrity_eq, experiment_decision_kind_eq, lesson_origin_eq,
  lesson_category_eq, lesson_status_eq, token_measurement_eq,
}
use tacorank.Schemas.Runs.{
  fidelity_eq, run_outcome_eq, recovery_action_eq, population_eq, failure_stage_eq, role_eq,
}
use tacorank.Schemas.Statuses.{run_status_eq, experiment_status_eq}
use tacorank.Store.Lines.{Bytes}

module _ ⦃F : Floats⦄ where
  -- The fields that the model leaves out of an event are fixed in `encode` and `decode`. `hash_of` is
  -- `canonical_sha256` of the event without its hash, `payload_hash` that of the payload, `key_hash` is
  -- `key.rsplit(":", 1)[-1]`, `is_key` the format of an idempotency key of the run, `index_of` the
  -- number in an event id, and `event_id_of` is "evt_%06d" % seq.
  pub record Codec : Type 0 where
    pub encode : Event → Bytes
    pub decode : Bytes → Option Event
    pub is_canonical : Bytes → Bool
    pub hash_of : Event → String
    pub payload_hash : EventPayload → String
    pub key_hash : String → String
    pub is_key : String → String → Bool
    pub index_of : String → ℕ
    pub event_id_of : ℕ → String

  abbrev pub genesis_hash : String
  genesis_hash = "0000000000000000000000000000000000000000000000000000000000000000"

  -- `event_hash_input`: the event without its hash
  abbrev pub unsealed : Event → Event
  unsealed e = record e { event_hash = "" }

  -- the run ids that `collect_run_ids` finds in the payload's records
  unfoldable pub nested_run_ids : EventPayload → List String
  nested_run_ids (EventPayload.baseline_verified p) = p.evaluation.run_id ∷ []
  nested_run_ids (EventPayload.context_created c) = c.run_id ∷ []
  nested_run_ids (EventPayload.planner_recommended p) = elim p.spec [
    | none ↦ []
    | some spec ↦ spec.run_id ∷ []
  ]
  nested_run_ids (EventPayload.planning_failed r) = r.run_id ∷ []
  nested_run_ids (EventPayload.experiment_proposed p) = p.run_id ∷ []
  nested_run_ids (EventPayload.patch_created p) = p.run_id ∷ []
  nested_run_ids (EventPayload.patch_checked p) = p.run_id ∷ []
  nested_run_ids (EventPayload.execution_started p) = p.run_id ∷ []
  nested_run_ids (EventPayload.execution_finished p) = p.run_id ∷ []
  nested_run_ids (EventPayload.adapter_failed p) = p.run_id ∷ []
  nested_run_ids (EventPayload.recovery_decided p) = p.run_id ∷ []
  nested_run_ids (EventPayload.output_checked p) = p.run_id ∷ []
  nested_run_ids (EventPayload.evaluation_completed p) = p.run_id ∷ []
  nested_run_ids (EventPayload.experiment_decided p) = p.run_id ∷ []
  nested_run_ids _ = []

  module _ (C : Codec) where
    abbrev pub is_earlier : Event → Bool
    is_earlier e = elim e.causation_event_id [
      | none ↦ true
      | some i ↦ i == "" || ltb (C.index_of i) e.seq
    ]

    -- `Event.validate_envelope`, with the lower bound on `seq`
    unfoldable pub validate_envelope : Event → Bool
    validate_envelope e =
        leb 1 e.seq
        && e.event_id == C.event_id_of e.seq
        && C.is_key e.run_id e.idempotency_key
        && is_earlier e

    -- `_validate_idempotency_payload_hash`
    unfoldable pub matches_payload : String → EventPayload → Bool
    matches_payload key payload = C.key_hash key == C.payload_hash payload
