-- ===== src/Recovery/Ownership.antt =====
-- Who may act on a failure that src/tacorank/recovery/classifier.py has classified.
use tacorank.Prelude.{
  Bool-cases, ℕ, String, ◌≡◌, refl, sym, ap, ◌∙◌, subst, inl, inr, Bool, true, false, not, ◌&&◌,
  ◌||◌, arith,
}
use tacorank.Recovery.Bounds.{IsContained, route-IsContained}
use tacorank.Recovery.Classifier.{
  FailureInput, Texts, deliberate_integrity_codes, Draft, gate_draft, base_draft,
}
use tacorank.Recovery.Classifying.{
  is_stage, is_staged, has_violation_in, has_integrity_code, is_deliberate, is_candidate_integrity,
  is_disk_quota, protocol_step, disk_step, invariant_step, fault_step, owner_step, gate_step,
  adjusted_draft, classification, classify_failure,
}
use tacorank.Recovery.Policy.{FailureClassification, RecoveryPolicyContext, route}
use tacorank.Result.{>>=-eq-ok, ok_injective, ok}
use tacorank.Schemas.Runs.{FailureStage}

-- the rights that a draft gives, at a stage
record IsDraftOwned (staged : Bool) (d : Draft) : Type 0 where
  one_right : (d.owner_retryable && d.trae_repairable) ≡ false
  plane : (d.control_plane && d.trae_repairable) ≡ false
  stage : (staged && d.trae_repairable) ≡ false

other_is_true : (a b : Bool) → (a || b) ≡ true → (b && not a) ≡ false → a ≡ true
other_is_true a b h k = ground arith

-- a draft that may not be repaired has no conflict of rights
unrepairable-IsDraftOwned : (s : Bool) (d : Draft) → d.trae_repairable ≡ false → IsDraftOwned s d
unrepairable-IsDraftOwned s d h = record {
  one_right = ground (arith, h);
  plane = ground (arith, h);
  stage = ground (arith, h);
}

module _ (T : Texts) (i : FailureInput) where
  base_draft-IsDraftOwned : (d : Draft) → base_draft T i ≡ ok d → IsDraftOwned (is_staged T i) d
  unfolding base_draft gate_draft is_staged
  base_draft-IsDraftOwned d h = record {
    one_right = ground arith;
    plane = ground arith;
    stage = ground arith;
  }

  execution-staged : is_stage T i FailureStage.execution ≡ true → is_staged T i ≡ true
  unfolding is_stage is_staged
  execution-staged h = ground arith

  module _ (s : Bool) (text : String) (d : Draft) (h : IsDraftOwned s d) where
    protocol_step-IsDraftOwned : IsDraftOwned s (protocol_step T i text d)
    unfolding protocol_step
    protocol_step-IsDraftOwned = record {
      one_right = ground (arith, h.one_right);
      plane = ground (arith, h.plane);
      stage = ground (arith, h.stage);
    }

    disk_step-IsDraftOwned : IsDraftOwned s (disk_step T i text d)
    unfolding disk_step
    disk_step-IsDraftOwned = record {
      one_right = ground (arith, h.one_right);
      plane = ground (arith, h.plane);
      stage = ground (arith, h.stage);
    }

    invariant_step-IsDraftOwned : IsDraftOwned s (invariant_step T i d)
    unfolding invariant_step
    invariant_step-IsDraftOwned = record {
      one_right = ground (arith, h.one_right);
      plane = ground (arith, h.plane);
      stage = ground (arith, h.stage);
    }

    fault_step-IsDraftOwned :
        (is_stage T i FailureStage.execution ≡ true → s ≡ true) → IsDraftOwned s (fault_step T i d)
    unfolding fault_step
    fault_step-IsDraftOwned at = record {
      one_right = ground (arith, h.one_right, h.stage, at);
      plane = ground (arith, h.plane);
      stage = ground (arith, h.stage);
    }

    owner_step-IsDraftOwned :
        IsDraftOwned s (fault_step T i d) → IsDraftOwned s (owner_step T i text d)
    unfolding owner_step
    owner_step-IsDraftOwned fault =
        elim (Bool-cases (is_deliberate T i text && not (is_candidate_integrity T i))) [
          | inl a ↦ rw (owner_step, a) (unrepairable-IsDraftOwned s _ refl)
          | inr a ↦ elim (Bool-cases (is_candidate_integrity T i)) [
            | inl b ↦ rw (owner_step, a, b) (unrepairable-IsDraftOwned s _ refl)
            | inr b ↦ elim (Bool-cases (is_disk_quota T i text)) [
              | inl c ↦ rw (owner_step, a, b, c) (unrepairable-IsDraftOwned s _ refl)
              | inr c ↦ rw (owner_step, a, b, c) fault
            ]
          ]
        ]

    gate_step-IsDraftOwned : IsDraftOwned s (gate_step T i d)
    unfolding gate_step
    gate_step-IsDraftOwned = record {
      one_right = ground (arith, h.one_right);
      plane = ground (arith, h.plane);
      stage = ground (arith, h.stage);
    }

  adjusted_draft-IsDraftOwned :
      (text : String) (d : Draft)
      → IsDraftOwned (is_staged T i) d
      → IsDraftOwned (is_staged T i) (adjusted_draft T i text d)
  unfolding adjusted_draft
  adjusted_draft-IsDraftOwned text d h =
      let s = is_staged T i in
      let d1 = protocol_step T i text d in
      let h1 = protocol_step-IsDraftOwned s text d h in
      let d2 = disk_step T i text d1 in
      let h2 = disk_step-IsDraftOwned s text d1 h1 in
      let d3 = invariant_step T i d2 in
      let h3 = invariant_step-IsDraftOwned s text d2 h2 in
      gate_step-IsDraftOwned s text (owner_step T i text d3) (
        owner_step-IsDraftOwned s text d3 h3
          (fault_step-IsDraftOwned s text d3 h3 execution-staged))

  -- no one acts on an integrity violation
  record IsBarred (d : Draft) : Type 0 where
    no_retry : d.owner_retryable ≡ false
    no_repair : d.trae_repairable ≡ false

  owner_step-IsBarred :
      (text : String) (d : Draft)
      → (is_candidate_integrity T i || is_deliberate T i text) ≡ true
      → IsBarred (owner_step T i text d)
  unfolding owner_step
  owner_step-IsBarred text d violation =
      elim (Bool-cases (is_deliberate T i text && not (is_candidate_integrity T i))) [
        | inl a ↦ rw (owner_step, a) (record { no_retry = refl; no_repair = refl })
        | inr a ↦
            let b =
              other_is_true (is_candidate_integrity T i) (is_deliberate T i text) violation a in
            rw (owner_step, a, b) (record { no_retry = refl; no_repair = refl })
      ]

  gate_step-IsBarred : (d : Draft) → IsBarred d → IsBarred (gate_step T i d)
  unfolding gate_step
  gate_step-IsBarred d h = record {
    no_retry = ground (arith, h.no_retry);
    no_repair = ground (arith, h.no_repair);
  }

  classify_failure-drafted :
      (f : FailureClassification)
      → classify_failure T i ≡ ok f
      → (d : Draft) × (base_draft T i ≡ ok d)
        × (classification T i (T.lower d.evidence) (adjusted_draft T i (T.lower d.evidence) d) ≡ f)
  unfolding classify_failure
  classify_failure-drafted f h =
      let (d, made, last) = >>=-eq-ok (base_draft T i) _ h in (d, made, ok_injective _ f last)

  -- what the owner of a failure may do
  pub record IsOwned (f : FailureClassification) : Type 0 where
    pub one_right : (f.owner_retryable && f.trae_repairable) ≡ false
    pub plane : (f.control_plane_failure && f.trae_repairable) ≡ false
    pub integrity :
        (f.candidate_integrity_violation || f.deliberate_integrity_violation) ≡ true
        → (f.owner_retryable ≡ false) × (f.trae_repairable ≡ false)

  -- A failure is never both retried by its owner and repaired by the coding agent, one of the control
  -- plane is never repaired, and an integrity violation is neither retried nor repaired.
  pub classify_failure-IsOwned :
      (f : FailureClassification) → classify_failure T i ≡ ok f → IsOwned f
  unfolding classification adjusted_draft
  classify_failure-IsOwned f h =
      let (d, made, last) = classify_failure-drafted f h in
      let text = T.lower d.evidence in
      let owned = adjusted_draft-IsDraftOwned text d (base_draft-IsDraftOwned d made) in
      let before = invariant_step T i (disk_step T i text (protocol_step T i text d)) in
      subst IsOwned last (record {
        one_right = owned.one_right;
        plane = owned.plane;
        integrity = λ violation.
            let barred =
              gate_step-IsBarred (owner_step T i text before)
                (owner_step-IsBarred text before violation) in
            (barred.no_retry, barred.no_repair);
      })

  -- A result whose violations name an integrity code is never repaired in place, retried or rerun with
  -- other settings, whatever its context: its experiment is abandoned or starts again.
  pub classify_failure-IsContained :
      (f : FailureClassification) (context : RecoveryPolicyContext) (same_count remaining : ℕ)
      (upper : String → String) (is_blank : String → Bool)
      → classify_failure T i ≡ ok f
      → has_violation_in T i deliberate_integrity_codes ≡ true
      → IsContained (route f context same_count remaining upper is_blank).action
  unfolding classification is_deliberate has_integrity_code
  classify_failure-IsContained f context same_count remaining upper is_blank h violation =
      let (d, made, last) = classify_failure-drafted f h in
      let named : is_deliberate T i (T.lower d.evidence) ≡ true =
        rw (is_deliberate, has_integrity_code, violation) refl in
      let flagged : f.deliberate_integrity_violation ≡ true =
        ap (λ (x : FailureClassification). x.deliberate_integrity_violation) (sym last) ∙ named in
      route-IsContained f context same_count remaining upper is_blank (ground (arith, flagged))
