-- ===== src/Evaluation/Release.antt =====
-- What the `Ladder` of src/tacorank/evaluation/stability.py releases over a sequence of submissions.
use tacorank.Prelude.{ℕ, ◌+◌, ◌≡◌, true, false, Option, none, some, List}
use tacorank.Evaluation.Seeds.{SeedAggregate, Ladder, new_ladder, LadderResult, submit}
use tacorank.Float.{Floats, Fl}
use tacorank.Result.{ok}

module _ ⦃F : Floats⦄ (report : Fl → Fl) (eta_floor : Fl) where
  abbrev pub reported_of : Option Fl → Option Fl
  reported_of none = none
  reported_of (some score) = some (report score)

  -- a ladder after so many submissions that returned
  pub data Submitted : Ladder → ℕ → Type 0 where
    untouched : Submitted new_ladder 0
    another :
        (l : Ladder) (n : ℕ) (scores : List Fl) (next : Ladder) (result : LadderResult)
        → Submitted l n
        → submit report eta_floor l scores ≡ ok (next, result)
        → Submitted next (n + 1)

  record IsReleased (l : Ladder) (n : ℕ) : Type 0 where
    counted : l.queries ≡ n
    reported : l.best_reported ≡ reported_of l.best_true

  -- what a submission of scores with that aggregate answers, and does to the ladder
  pub record IsAnswer (l : Ladder) (n : ℕ) (g : SeedAggregate) (next : Ladder)
      (result : LadderResult) : Type 0 where
    pub query : result.query_index ≡ n + 1
    pub released_best : reported_of next.best_true ≡ some result.reported_score
    pub kept : result.accepted ≡ false → next.best_true ≡ l.best_true
    pub raised : result.accepted ≡ true → next.best_true ≡ some g.seed_mean
    pub by_margin :
        (best : Fl)
        → l.best_true ≡ some best
        → result.accepted ≡ F.flt (F.fadd best g.eta) g.seed_mean
