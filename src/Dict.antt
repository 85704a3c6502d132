-- ===== src/Dict.antt =====
-- Python's `dict` with text keys: entries in insertion order, where a write to a key that is there
-- keeps its place.
use tacorank.Prelude.{
  if◌then◌else◌, ◌==◌, nat_eq, string_eq, option_eq, int_eq, String, ◌≡◌, refl, Bool, true, false,
  ◌||◌, Option, none, some, List, [], ◌∷◌, arith, eq_iff,
}
use tacorank.Schemas.Judgements.{
  trust_verdict_eq, stability_eq, integrity_eq, experiment_decision_kind_eq, lesson_origin_eq,
  lesson_category_eq, lesson_status_eq, token_measurement_eq,
}
use tacorank.Schemas.Runs.{
  fidelity_eq, run_outcome_eq, recovery_action_eq, population_eq, failure_stage_eq, role_eq,
}
use tacorank.Schemas.Statuses.{run_status_eq, experiment_status_eq}

abbrev pub Dict {ℓ} : Type ℓ → Type ℓ
Dict V = List (String × V)

module _ {ℓ} {V : Type ℓ} where
  -- d.get(k)
  unfoldable pub get : Dict V → String → Option V
  get [] k = none
  get ((j, v) ∷ d) k = if j == k then some v else get d k

  -- d[k] = v
  unfoldable pub set : Dict V → String → V → Dict V
  set [] k v = (k, v) ∷ []
  set ((j, w) ∷ d) k v = if j == k then (j, v) ∷ d else (j, w) ∷ set d k v

  -- k in d
  unfoldable pub contains : Dict V → String → Bool
  unfolding get
  contains d k = elim (get d k) [ none ↦ false | some _ ↦ true ]

  -- d.values()
  unfoldable pub values : Dict V → List V
  values [] = []
  values ((_, v) ∷ d) = v ∷ values d

  pub get-set :
      (d : Dict V) (k j : String) (v : V) → get (set d k v) j ≡ (if k == j then some v else get d j)
  unfolding get set
  get-set [] k j v = refl
  get-set ((i, w) ∷ d) k j v = ground (arith, get-set d k j v, eq_iff i k, eq_iff i j, eq_iff k j)

  pub contains-set :
      (d : Dict V) (k j : String) (v : V) → contains (set d k v) j ≡ (k == j || contains d j)
  unfolding contains
  contains-set d k j v = ground (arith, get-set d k j v)

  pub get-empty : (k : String) → get [] k ≡ none
  unfolding get
  get-empty k = refl
