-- ===== src/Float.antt =====
-- Python's `float`: the type and its operations are parameters of the model, with the laws of
-- IEEE comparison that the program relies on. `mean`, `stdev`, `median` and `sqrt` are `statistics.mean`,
-- `statistics.stdev`, `statistics.median` and `math.sqrt`.
use tacorank.Prelude.{ℕ, String, Bool, true, false, List, ◌≡◌}

pub record Floats : Type 1 where
  pub Float : Type 0
  -- `lit n k` is the literal n / 10 ^ k
  pub lit : ℕ → ℕ → Float
  pub flt : Float → Float → Bool
  pub fle : Float → Float → Bool
  pub feq : Float → Float → Bool
  pub fadd : Float → Float → Float
  pub fsub : Float → Float → Float
  pub fmul : Float → Float → Float
  pub fdiv : Float → Float → Float
  pub fneg : Float → Float
  pub fabs : Float → Float
  pub sqrt : Float → Float
  pub of_ℕ : ℕ → Float
  pub is_finite : Float → Bool
  pub mean : List Float → Float
  pub stdev : List Float → Float
  -- `median x xs` is that of x ∷ xs
  pub median : Float → List Float → Float
  -- "%.4f" % a
  pub fixed4 : Float → String
  pub flt_irrefl : (a : Float) → flt a a ≡ false
  pub flt_trans : (a b c : Float) → flt a b ≡ true → flt b c ≡ true → flt a c ≡ true

module _ ⦃F : Floats⦄ where
  abbrev pub Fl : Type 0
  Fl = F.Float
