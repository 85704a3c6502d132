-- ===== src/Evaluation/Seeds.antt =====
-- `aggregate_seeds` and the `Ladder` of src/tacorank/evaluation/stability.py.
use tacorank.Prelude.{
  ltb, if◌then◌else◌, length, all, ℕ, ◌+◌, Bool, true, ◌&&◌, Option, none, some, List, [], ◌∷◌,
}
use tacorank.Float.{Floats, Fl}
use tacorank.Result.{Result, require_or, or_raise, ok, value_error, ◌>>=◌, ◌>>◌}

module _ ⦃F : Floats⦄ where
  abbrev pub zero_score : Fl
  zero_score = F.lit 0 0

  -- Python's max(a, b)
  abbrev pub fmax : Fl → Fl → Fl
  fmax a b = if F.flt a b then b else a

  pub record SeedAggregate : Type 0 where
    pub scores : List Fl
    pub seed_mean : Fl
    pub standard_deviation : Fl
    pub standard_error : Fl
    pub eta : Fl

  abbrev pub are_finite : List Fl → Bool
  are_finite scores = all (λ (x : Fl). F.is_finite x) scores

  -- one score has no spread
  unfoldable pub spread : List Fl → Fl × Fl
  spread (x ∷ []) = (zero_score, zero_score)
  spread scores = (F.stdev scores, F.fdiv (F.stdev scores) (F.sqrt (F.of_ℕ (length scores))))

  unfoldable pub aggregate_of : Fl → List Fl → SeedAggregate
  unfolding spread
  aggregate_of eta_floor scores = record {
    scores = scores;
    seed_mean = F.mean scores;
    standard_deviation = (spread scores).0;
    standard_error = (spread scores).1;
    eta = fmax (F.fmul (F.lit 2 0) ((spread scores).1)) eta_floor;
  }

  unfoldable pub aggregate_seeds : Fl → List Fl → Result SeedAggregate
  unfolding aggregate_of all
  aggregate_seeds eta_floor scores = do
    require_or (ltb 0 (length scores) && are_finite scores)
        (value_error "seed scores must be a non-empty finite sequence")
    ok (aggregate_of eta_floor scores)

  -- `Ladder`, with the reported score rounded by `report`, which quantizes to the precision
  pub record Ladder : Type 0 where
    pub best_true : Option Fl
    pub best_reported : Option Fl
    pub queries : ℕ

  abbrev pub new_ladder : Ladder
  new_ladder = record { best_true = none; best_reported = none; queries = 0 }

  pub record LadderResult : Type 0 where
    pub accepted : Bool
    pub reported_score : Fl
    pub candidate_mean : Fl
    pub standard_error : Fl
    pub eta : Fl
    pub delta_vs_best : Option Fl
    pub query_index : ℕ

  unfoldable pub beats_by : Option Fl → Fl → Fl → Bool
  beats_by none mean eta = true
  beats_by (some best) mean eta = F.flt (F.fadd best eta) mean

  abbrev pub delta_from : Option Fl → Fl → Option Fl
  delta_from none mean = none
  delta_from (some best) mean = some (F.fsub mean best)

  abbrev pub released : (Fl → Fl) → Ladder → SeedAggregate → Ladder
  released report ladder aggregate =
      let counted = record ladder { queries = ladder.queries + 1 } in
      if beats_by ladder.best_true aggregate.seed_mean aggregate.eta
      then record counted {
        best_true = some aggregate.seed_mean;
        best_reported = some (report aggregate.seed_mean);
      }
      else counted

  -- `submit`, with the final assertion
  unfoldable pub submit : (Fl → Fl) → Fl → Ladder → List Fl → Result (Ladder × LadderResult)
  unfolding aggregate_seeds beats_by
  submit report eta_floor ladder seed_scores = do
    aggregate ← aggregate_seeds eta_floor seed_scores
    let next = released report ladder aggregate
    reported ← or_raise (value_error "no reported score") next.best_reported
    ok (
      next,
      record {
        accepted = beats_by ladder.best_true aggregate.seed_mean aggregate.eta;
        reported_score = reported;
        candidate_mean = aggregate.seed_mean;
        standard_error = aggregate.standard_error;
        eta = aggregate.eta;
        delta_vs_best = delta_from ladder.best_true aggregate.seed_mean;
        query_index = next.queries;
      },
    )
