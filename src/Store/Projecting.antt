-- ===== src/Store/Projecting.antt =====
-- Ledger files that src/tacorank/memory/event_store.py reads with the state machine as its validator.
use tacorank.Prelude.{◌≡◌, refl, some, List}
use tacorank.Float.{Floats}
use tacorank.Ledger.Progress.{project-Legal}
use tacorank.Ledger.Replay.{replay, replay-eq-ok}
use tacorank.Result.{ok}
use tacorank.Schemas.Events.{Event}
use tacorank.State.{RunState}
use tacorank.Store.Chain.{read_locked-IsChain, IsChain-Legal}
use tacorank.Store.Codec.{Codec}
use tacorank.Store.Lines.{Bytes}
use tacorank.Store.Reading.{read_locked}
use tacorank.Transition.Validate.{validate_transition}

module _ ⦃F : Floats⦄ where
  -- A ledger file that is read with the state machine as the validator replays: its events are legal,
  -- and they project to a state.
  pub read_locked-replay :
      (C : Codec) (file : Bytes) (l : List Event)
      → read_locked C (some validate_transition) file ≡ ok l
      → (s : RunState) × (replay l ≡ ok s)
  read_locked-replay C file l h =
      let legal =
        IsChain-Legal C (some validate_transition) l
          (read_locked-IsChain C (some validate_transition) file l h) refl in
      let (s, projects) = project-Legal l legal in (s, (replay-eq-ok l s).1 (legal, projects))
