-- ===== src/Schemas/Runs.antt =====
-- The enumerations of src/tacorank/schemas.py that executions and recoveries carry, each with
-- Python's `==` on its members.
use tacorank.Prelude.{nat_beq, Eq, ℕ, ◌≡◌, ◌↔◌, true, arith}

pub data Fidelity : Type 0 where
  smoke proxy full final : Fidelity

abbrev pub fidelity_code : Fidelity → ℕ
fidelity_code Fidelity.smoke = 0
fidelity_code Fidelity.proxy = 1
fidelity_code Fidelity.full = 2
fidelity_code Fidelity.final = 3

pub fidelity_iff : (a b : Fidelity) → (nat_beq (fidelity_code a) (fidelity_code b) ≡ true) ↔ (a ≡ b)
fidelity_iff a b = ground arith

instance abbrev pub fidelity_eq : Eq Fidelity
fidelity_eq = record {
  beq = λ a b. nat_beq (fidelity_code a) (fidelity_code b);
  beq_iff = fidelity_iff;
}

pub data RunOutcome : Type 0 where
  success code_error interface_error contract_error numerical_error oom timeout hang
        infrastructure_error cancelled :
      RunOutcome

abbrev pub run_outcome_code : RunOutcome → ℕ
run_outcome_code RunOutcome.success = 0
run_outcome_code RunOutcome.code_error = 1
run_outcome_code RunOutcome.interface_error = 2
run_outcome_code RunOutcome.contract_error = 3
run_outcome_code RunOutcome.numerical_error = 4
run_outcome_code RunOutcome.oom = 5
run_outcome_code RunOutcome.timeout = 6
run_outcome_code RunOutcome.hang = 7
run_outcome_code RunOutcome.infrastructure_error = 8
run_outcome_code RunOutcome.cancelled = 9

pub run_outcome_iff :
    (a b : RunOutcome) → (nat_beq (run_outcome_code a) (run_outcome_code b) ≡ true) ↔ (a ≡ b)
run_outcome_iff a b = ground arith

instance abbrev pub run_outcome_eq : Eq RunOutcome
run_outcome_eq = record {
  beq = λ a b. nat_beq (run_outcome_code a) (run_outcome_code b);
  beq_iff = run_outcome_iff;
}

pub data RecoveryAction : Type 0 where
  trae_repair restart_from_trusted_parent retry_same_commit adjust_approved_runtime_setting
        return_to_planner rollback abandon :
      RecoveryAction

abbrev pub recovery_action_code : RecoveryAction → ℕ
recovery_action_code RecoveryAction.trae_repair = 0
recovery_action_code RecoveryAction.restart_from_trusted_parent = 1
recovery_action_code RecoveryAction.retry_same_commit = 2
recovery_action_code RecoveryAction.adjust_approved_runtime_setting = 3
recovery_action_code RecoveryAction.return_to_planner = 4
recovery_action_code RecoveryAction.rollback = 5
recovery_action_code RecoveryAction.abandon = 6

pub recovery_action_iff :
    (a b : RecoveryAction)
    → (nat_beq (recovery_action_code a) (recovery_action_code b) ≡ true) ↔ (a ≡ b)
recovery_action_iff a b = ground arith

instance abbrev pub recovery_action_eq : Eq RecoveryAction
recovery_action_eq = record {
  beq = λ a b. nat_beq (recovery_action_code a) (recovery_action_code b);
  beq_iff = recovery_action_iff;
}

pub data Population : Type 0 where
  internal_proxy public_validation unbiased_audit hidden_final : Population

abbrev pub population_code : Population → ℕ
population_code Population.internal_proxy = 0
population_code Population.public_validation = 1
population_code Population.unbiased_audit = 2
population_code Population.hidden_final = 3

pub population_iff :
    (a b : Population) → (nat_beq (population_code a) (population_code b) ≡ true) ↔ (a ≡ b)
population_iff a b = ground arith

instance abbrev pub population_eq : Eq Population
population_eq = record {
  beq = λ a b. nat_beq (population_code a) (population_code b);
  beq_iff = population_iff;
}

pub data FailureStage : Type 0 where
  coding patch_gate execution output_gate evaluation recovery : FailureStage

abbrev pub failure_stage_code : FailureStage → ℕ
failure_stage_code FailureStage.coding = 0
failure_stage_code FailureStage.patch_gate = 1
failure_stage_code FailureStage.execution = 2
failure_stage_code FailureStage.output_gate = 3
failure_stage_code FailureStage.evaluation = 4
failure_stage_code FailureStage.recovery = 5

pub failure_stage_iff :
    (a b : FailureStage) → (nat_beq (failure_stage_code a) (failure_stage_code b) ≡ true) ↔ (a ≡ b)
failure_stage_iff a b = ground arith

instance abbrev pub failure_stage_eq : Eq FailureStage
failure_stage_eq = record {
  beq = λ a b. nat_beq (failure_stage_code a) (failure_stage_code b);
  beq_iff = failure_stage_iff;
}

pub data Role : Type 0 where
  planner coder recovery : Role

abbrev pub role_code : Role → ℕ
role_code Role.planner = 0
role_code Role.coder = 1
role_code Role.recovery = 2

pub role_iff : (a b : Role) → (nat_beq (role_code a) (role_code b) ≡ true) ↔ (a ≡ b)
role_iff a b = ground arith

instance abbrev pub role_eq : Eq Role
role_eq = record { beq = λ a b. nat_beq (role_code a) (role_code b); beq_iff = role_iff }
