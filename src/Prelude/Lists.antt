-- ===== src/Prelude/Lists.antt =====
-- Searches of Python sequences: `any`, `next(... for ...)`, comprehensions and membership.
use Prim.Native.Nat.{ℕ, zero, suc, ◌+◌}
use mathlib.Core.Path.{◌≡◌, refl}
use mathlib.Core.Bool.{Bool, true, false, ◌&&◌, ◌||◌}
use mathlib.Core.Option.{Option, none, some}
use mathlib.Core.List.{List, [], ◌∷◌, ◌++◌}
use native.Mathlib.Omega.{arith}
use tacorank.Prelude.Tests.{Eq, ◌==◌, if◌then◌else◌}

module _ {ℓ} {A : Type ℓ} where
  abbrev pub length : List A → ℕ
  length [] = 0
  length (_ ∷ xs) = suc (length xs)

  abbrev pub take : ℕ → List A → List A
  take zero xs = []
  take (suc n) [] = []
  take (suc n) (x ∷ xs) = x ∷ take n xs

  pub length-append : (xs ys : List A) → length (xs ++ ys) ≡ length xs + length ys
  length-append [] ys = omega arith
  length-append (x ∷ xs) ys = omega (arith, length-append xs ys)

  -- xs[n:]
  unfoldable pub drop : ℕ → List A → List A
  drop zero xs = xs
  drop (suc n) [] = []
  drop (suc n) (_ ∷ xs) = drop n xs

  -- any(p(x) for x in xs)
  unfoldable pub any : (A → Bool) → List A → Bool
  any p [] = false
  any p (x ∷ xs) = p x || any p xs

  pub any-append : (p : A → Bool) (xs ys : List A) → any p (xs ++ ys) ≡ (any p xs || any p ys)
  unfolding any
  any-append p [] ys = refl
  any-append p (x ∷ xs) ys = ground (arith, any-append p xs ys)

  -- all(p(x) for x in xs)
  unfoldable pub all : (A → Bool) → List A → Bool
  all p [] = true
  all p (x ∷ xs) = p x && all p xs

  -- [x for x in xs if p(x)]
  unfoldable pub filter : (A → Bool) → List A → List A
  filter p [] = []
  filter p (x ∷ xs) = let rest = filter p xs in if p x then x ∷ rest else rest

  -- xs[-1], where there is one
  unfoldable pub last? : List A → Option A
  last? [] = none
  last? (x ∷ xs) = elim (last? xs) [ none ↦ some x | some y ↦ some y ]

  -- x in xs
  unfoldable pub elem : ⦃e : Eq A⦄ → A → List A → Bool
  elem a [] = false
  elem a (x ∷ xs) = x == a || elem a xs

  pub last?-snoc : (xs : List A) (x : A) → last? (xs ++ x ∷ []) ≡ some x
  unfolding last?
  last?-snoc [] x = refl
  last?-snoc (y ∷ xs) x = ground (arith, last?-snoc xs x)

module _ {ℓ κ} {A : Type ℓ} {B : Type κ} where
  -- the first of `xs` with a view, with that view
  unfoldable pub find_first : (A → Option B) → List A → Option (A × B)
  find_first f [] = none
  find_first f (x ∷ xs) =
      let rest = find_first f xs in elim (f x) [ some b ↦ some (x, b) | none ↦ rest ]

  -- the last of `xs` with a view, with that view: a search of `reversed(xs)`
  unfoldable pub find_last : (A → Option B) → List A → Option (A × B)
  find_last f [] = none
  find_last f (x ∷ xs) = elim (find_last f xs) [
    | some r ↦ some r
    | none ↦ elim (f x) [ some b ↦ some (x, b) | none ↦ none ]
  ]

  -- all views, in order
  unfoldable pub views : (A → Option B) → List A → List B
  views f [] = []
  views f (x ∷ xs) = let rest = views f xs in elim (f x) [ some b ↦ b ∷ rest | none ↦ rest ]
