-- ===== src/Health/Slices.antt =====
-- The slices of Health.Window.
use tacorank.Prelude.{
  ltb, if◌then◌else◌, Bool-cases, Option-cases, length, length-append, drop, all, last?, ℕ, zero,
  suc, ◌-◌, ◌≤◌, ◌<◌, ◌≡◌, refl, sym, ap, ◌∙◌, inl, inr, Bool, true, false, some, List, [], ◌∷◌,
  ◌++◌, arith,
}
use tacorank.Health.Window.{tail_slice}

module _ {ℓ} {A : Type ℓ} where
  pub length-drop : (n : ℕ) (xs : List A) → length (drop n xs) ≡ length xs - n
  unfolding drop
  length-drop zero xs = omega arith
  length-drop (suc n) [] = omega arith
  length-drop (suc n) (x ∷ xs) = omega (arith, length-drop n xs)

  drop-append : (n : ℕ) (xs ys : List A) → n ≤ length xs → drop n (xs ++ ys) ≡ drop n xs ++ ys
  unfolding drop
  drop-append zero xs ys h = refl
  drop-append (suc n) [] ys h = absurd (omega arith)
  drop-append (suc n) (x ∷ xs) ys h = drop-append n xs ys (omega arith)

  drop-drop : (n : ℕ) (xs : List A) → drop 1 (drop n xs) ≡ drop (suc n) xs
  unfolding drop
  drop-drop zero xs = refl
  drop-drop (suc n) [] = refl
  drop-drop (suc n) (x ∷ xs) = drop-drop n xs

  last?-drop : (n : ℕ) (xs : List A) → n < length xs → last? (drop n xs) ≡ last? xs
  unfolding drop last?
  last?-drop zero xs h = refl
  last?-drop (suc n) [] h = absurd (omega arith)
  last?-drop (suc n) (x ∷ []) h = absurd (omega arith)
  last?-drop (suc n) (x ∷ y ∷ xs) h = ground (arith, last?-drop n (y ∷ xs))

  tail_slice_lem : (n : ℕ) (xs : List A) → 1 ≤ n → tail_slice n xs ≡ drop (length xs - n) xs
  unfolding tail_slice
  tail_slice_lem n xs h = ground arith

  pub last?-tail_slice : (n : ℕ) (xs : List A) → 1 ≤ n → last? (tail_slice n xs) ≡ last? xs
  unfolding tail_slice drop
  last?-tail_slice n [] h = ground arith
  last?-tail_slice n (x ∷ xs) h = ground (arith, last?-drop (length (x ∷ xs) - n) (x ∷ xs))

  pub last?-begun : (xs : List A) → 1 ≤ length xs → (y : A) × (last? xs ≡ some y)
  unfolding last?
  last?-begun [] h = absurd (omega arith)
  last?-begun (x ∷ xs) h = elim (Option-cases (last? xs)) [
    | inl e ↦ (x, ground (arith, e))
    | inr (y, e) ↦ (y, ground (arith, e))
  ]

  -- the last of elements that all pass a test
  pub last?-all :
      (p : A → Bool) (xs : List A) (x : A) → all p xs ≡ true → last? xs ≡ some x → p x ≡ true
  unfolding all last?
  last?-all p [] x h k = cc
  last?-all p (y ∷ []) x h k = ground arith
  last?-all p (y ∷ z ∷ xs) x h k = ground (arith, last?-all p (z ∷ xs) x)

  -- a full slice that grows by one element loses its first
  pub tail_slice-snoc :
      (n : ℕ) (xs : List A) (x : A)
      → 1 ≤ n
      → (if ltb n (length (tail_slice n xs ++ x ∷ []))
          then drop 1 (tail_slice n xs ++ x ∷ [])
          else tail_slice n xs ++ x ∷ [])
        ≡ tail_slice n (xs ++ x ∷ [])
  unfolding drop
  tail_slice-snoc n xs x h =
      let dropped = length-drop (length xs - n) xs in
      let added = length-append (drop (length xs - n) xs) (x ∷ []) in
      let whole = length-append xs (x ∷ []) in
      elim (Bool-cases (ltb (length xs) n)) [
        | inl short ↦
            let none_left : length xs - n ≡ 0 = ground arith in
            let none_next : length (xs ++ x ∷ []) - n ≡ 0 = ground arith in
            let before : tail_slice n xs ≡ xs =
              tail_slice_lem n xs h ∙ ap (λ k. drop k xs) none_left in
            let after : tail_slice n (xs ++ x ∷ []) ≡ xs ++ x ∷ [] =
              tail_slice_lem n (xs ++ x ∷ []) h ∙ ap (λ k. drop k (xs ++ x ∷ [])) none_next in
            let fits : ltb n (length (xs ++ x ∷ [])) ≡ false = ground arith in
            rw (before, after, fits) refl
        | inr full ↦
            let k = length xs - n in
            let before : tail_slice n xs ≡ drop k xs = tail_slice_lem n xs h in
            let next : length (xs ++ x ∷ []) - n ≡ suc k = ground arith in
            let after : tail_slice n (xs ++ x ∷ []) ≡ drop (suc k) (xs ++ x ∷ []) =
              tail_slice_lem n (xs ++ x ∷ []) h ∙ ap (λ j. drop j (xs ++ x ∷ [])) next in
            let over : ltb n (length (drop k xs ++ x ∷ [])) ≡ true = ground arith in
            rw (before, after, over)
              (ap (drop 1) (sym (drop-append k xs (x ∷ []) (omega arith)))
                ∙ drop-drop k (xs ++ x ∷ []))
      ]

  pub tail_slice_one :
      (n : ℕ) (x : A) → 1 ≤ n → (if ltb n 1 then [] else x ∷ []) ≡ tail_slice n (x ∷ [])
  unfolding drop
  tail_slice_one n x h =
      let none_left : 1 - n ≡ 0 = omega arith in
      let fits : ltb n 1 ≡ false = ground arith in
      rw fits (sym (tail_slice_lem n (x ∷ []) h ∙ ap (λ k. drop k (x ∷ [])) none_left))
