-- ===== src/Recovery/Adjustments.antt =====
-- src/tacorank/recovery/runtime_adjustments.py: the selection of an approved runtime adjustment.
-- Allowed adjustments are a dictionary, as `RecoveryPolicyContext` types them.
use tacorank.Prelude.{
  leb, if◌then◌else◌, ◌==◌, nat_eq, string_eq, option_eq, any, elem, ℤ, pos, int_eq, ℕ, String,
  Bool, true, false, not, ◌&&◌, Option, none, some, List, [], ◌∷◌,
}
use tacorank.Dict.{Dict, get}
use tacorank.Schemas.Judgements.{
  trust_verdict_eq, stability_eq, integrity_eq, experiment_decision_kind_eq, lesson_origin_eq,
  lesson_category_eq, lesson_status_eq, token_measurement_eq,
}
use tacorank.Schemas.Runs.{
  fidelity_eq, run_outcome_eq, recovery_action_eq, population_eq, failure_stage_eq, role_eq,
}
use tacorank.Schemas.Statuses.{run_status_eq, experiment_status_eq}

-- a runtime value that is no container
pub data Scalar : Type 0 where
  nothing : Scalar
  boolean : Bool → Scalar
  integer : ℤ → Scalar
  text : String → Scalar

-- what an allowed adjustment may be: a value, a sequence of values, or a mapping, of which the code
-- reads the keys "next_value" and "value"
pub data Setting : Type 0 where
  scalar : Scalar → Setting
  sequence : List Scalar → Setting
  mapping : Option Scalar → Option Scalar → Setting

-- Python's numbers: True is 1 and False is 0
unfoldable pub number_of : Scalar → Option ℤ
number_of (boolean true) = some (pos 1)
number_of (boolean false) = some (pos 0)
number_of (integer n) = some n
number_of nothing = none
number_of (text s) = none

unfoldable pub text_of : Scalar → Option String
text_of (text s) = some s
text_of _ = none

-- `value == current` on scalars
unfoldable pub scalar_beq : Scalar → Scalar → Bool
unfolding number_of text_of
scalar_beq a b = number_of a == number_of b && text_of a == text_of b

unfoldable pub next_value : Setting → Scalar
next_value (scalar v) = v
next_value (sequence []) = nothing
next_value (sequence (v ∷ _)) = v
next_value (mapping (some v) other) = v
next_value (mapping none (some v)) = v
next_value (mapping none none) = nothing

pub record RuntimeAdjustment : Type 0 where
  pub name : String
  pub value : Scalar

-- one entry of `attempt_history`
pub record Attempt : Type 0 where
  pub action : String
  pub reason_code : String
  pub runtime_adjustments : Dict Scalar

pub data FailureClass : Type 0 where
  no_op code_error interface_error contract_error numerical_error oom timeout hang : FailureClass
  infrastructure_error output_contract : FailureClass

-- the order of preference for a failure class
unfoldable pub preference : FailureClass → List String
preference FailureClass.oom = "batch_size" ∷ "num_workers" ∷ "mixed_precision" ∷ []
preference FailureClass.numerical_error = "mixed_precision" ∷ []
preference FailureClass.timeout = "timeout_profile" ∷ []
preference _ = []

abbrev pub approved_adjustments : List String
approved_adjustments = "batch_size" ∷ "num_workers" ∷ "mixed_precision" ∷ "timeout_profile" ∷ []

unfoldable pub is_integer_over : ℕ → Scalar → Bool
is_integer_over least (integer (pos n)) = leb least n
is_integer_over least _ = false

unfoldable pub is_boolean : Scalar → Bool
is_boolean (boolean b) = true
is_boolean _ = false

-- `not value.strip()` is Python's
module _ (is_blank : String → Bool) where
  unfoldable pub is_written : Scalar → Bool
  is_written (text s) = not (is_blank s)
  is_written _ = false

  unfoldable pub valid_value : String → Scalar → Bool
  unfolding is_integer_over is_boolean is_written
  valid_value name value =
      if name == "batch_size"
      then is_integer_over 1 value
      else if name == "num_workers"
      then is_integer_over 0 value
      else if name == "mixed_precision"
      then is_boolean value
      else if name == "timeout_profile"
      then is_written value
      else false

  module _ (allowed : Dict Setting) (current : Dict Scalar) (history : List Attempt) where
    unfoldable pub is_current : String → Scalar → Bool
    unfolding scalar_beq
    is_current name value = elim (get current name) [ none ↦ false | some v ↦ scalar_beq value v ]

    unfoldable pub was_tried : String → Scalar → Bool
    unfolding scalar_beq
    was_tried name value =
        any
          (λ (item : Attempt).
            item.action == "adjust_approved_runtime_setting"
            && elim (get item.runtime_adjustments name) [
              | none ↦ false
              | some v ↦ scalar_beq v value
            ])
          history

    -- the body of the loop for one name
    unfoldable pub candidate_adjustment : String → Option RuntimeAdjustment
    unfolding next_value valid_value is_current was_tried
    candidate_adjustment name = elim (get allowed name) [
      | none ↦ none
      | some setting ↦
          let value = next_value setting in
          if elem name approved_adjustments
            && valid_value name value
            && not (is_current name value)
            && not (was_tried name value)
          then some (record { name = name; value = value })
          else none
    ]

    unfoldable pub first_adjustment : List String → Option RuntimeAdjustment
    unfolding candidate_adjustment
    first_adjustment [] = none
    first_adjustment (name ∷ names) =
        let later = first_adjustment names in
        elim (candidate_adjustment name) [ some a ↦ some a | none ↦ later ]

    unfoldable pub select_runtime_adjustment : FailureClass → Option RuntimeAdjustment
    unfolding preference first_adjustment
    select_runtime_adjustment failure_class = first_adjustment (preference failure_class)
