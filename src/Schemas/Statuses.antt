-- ===== src/Schemas/Statuses.antt =====
-- The statuses of src/tacorank/orchestrator/state.py.
use tacorank.Prelude.{nat_beq, Eq, ℕ, ◌≡◌, ◌↔◌, true, arith}

pub data RunStatus : Type 0 where
  initializing ready running stopped finalizing finalized failed : RunStatus

abbrev pub run_status_code : RunStatus → ℕ
run_status_code RunStatus.initializing = 0
run_status_code RunStatus.ready = 1
run_status_code RunStatus.running = 2
run_status_code RunStatus.stopped = 3
run_status_code RunStatus.finalizing = 4
run_status_code RunStatus.finalized = 5
run_status_code RunStatus.failed = 6

pub run_status_iff :
    (a b : RunStatus) → (nat_beq (run_status_code a) (run_status_code b) ≡ true) ↔ (a ≡ b)
run_status_iff a b = ground arith

instance abbrev pub run_status_eq : Eq RunStatus
run_status_eq = record {
  beq = λ a b. nat_beq (run_status_code a) (run_status_code b);
  beq_iff = run_status_iff;
}

pub data ExperimentStatus : Type 0 where
  proposed patch_ready ready_to_run running output_ready output_verified evaluated recovering no_op
        accepted rejected pruned invalid :
      ExperimentStatus

abbrev pub experiment_status_code : ExperimentStatus → ℕ
experiment_status_code ExperimentStatus.proposed = 0
experiment_status_code ExperimentStatus.patch_ready = 1
experiment_status_code ExperimentStatus.ready_to_run = 2
experiment_status_code ExperimentStatus.running = 3
experiment_status_code ExperimentStatus.output_ready = 4
experiment_status_code ExperimentStatus.output_verified = 5
experiment_status_code ExperimentStatus.evaluated = 6
experiment_status_code ExperimentStatus.recovering = 7
experiment_status_code ExperimentStatus.no_op = 8
experiment_status_code ExperimentStatus.accepted = 9
experiment_status_code ExperimentStatus.rejected = 10
experiment_status_code ExperimentStatus.pruned = 11
experiment_status_code ExperimentStatus.invalid = 12

pub experiment_status_iff :
    (a b : ExperimentStatus)
    → (nat_beq (experiment_status_code a) (experiment_status_code b) ≡ true) ↔ (a ≡ b)
experiment_status_iff a b = ground arith

instance abbrev pub experiment_status_eq : Eq ExperimentStatus
experiment_status_eq = record {
  beq = λ a b. nat_beq (experiment_status_code a) (experiment_status_code b);
  beq_iff = experiment_status_iff;
}
