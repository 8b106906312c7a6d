-- ===== src/Listing/Slices.antt =====
-- Slices of the rows that a listing returns.
use go_codebase.Prelude.{
  ℕ, zero, suc, ◌+◌, ◌-◌, ◌≡◌, refl, sym, ap, ◌∙◌, Bool, true, false, ◌&&◌, some, List, [], ◌∷◌,
  ◌++◌, ltb, if◌then◌else◌, length, take, select, arith, Bool-cases, inl, inr, at, drop,
}
use go_codebase.Listing.{last_of}

module _ {R : Type 0} where
  pub select-and :
      (p q : R → Bool) (xs : List R) → select (λ r. p r && q r) xs ≡ select q (select p xs)
  select-and p q [] = refl
  select-and p q (x ∷ xs) = ground (arith, select-and p q xs)

  pub length-take : (n : ℕ) (xs : List R) → ltb n (length (take (suc n) xs)) ≡ ltb n (length xs)
  length-take n [] = refl
  length-take zero (x ∷ []) = refl
  length-take zero (x ∷ y ∷ xs) = ground arith
  length-take (suc n) (x ∷ xs) = ground (arith, length-take n xs)

  pub take-suc : (n : ℕ) (xs : List R) → take n (take (suc n) xs) ≡ take n xs
  take-suc zero xs = refl
  take-suc (suc n) [] = refl
  take-suc (suc n) (x ∷ xs) = ap (λ t. x ∷ t) (take-suc n xs)

  pub take-all : (n : ℕ) (xs : List R) → ltb n (length xs) ≡ false → take n xs ≡ xs
  take-all zero [] h = refl
  take-all zero (x ∷ xs) h = ground arith
  take-all (suc n) [] h = refl
  take-all (suc n) (x ∷ xs) h = ap (λ t. x ∷ t) (take-all n xs (ground arith))

  pub take-more : (n : ℕ) (xs : List R) → ltb n (length xs) ≡ false → take (suc n) xs ≡ xs
  take-more n xs h = take-all (suc n) xs (ground arith)

  -- What stands on a page of the query's rows.
  pub cut :
      (n : ℕ) (xs : List R)
      → (if ltb n (length (take (suc n) xs)) then take n (take (suc n) xs) else take (suc n) xs)
        ≡ take n xs
  cut n xs = elim (Bool-cases (ltb n (length xs))) [
    | inl h ↦ rw (length-take n xs, h) (take-suc n xs)
    | inr h ↦ rw (length-take n xs, h) (take-more n xs h ∙ sym (take-all n xs h))
  ]

  pub take-drop : (n : ℕ) (xs : List R) → take n xs ++ drop n xs ≡ xs
  take-drop zero xs = refl
  take-drop (suc n) [] = refl
  take-drop (suc n) (x ∷ xs) = ap (λ t. x ∷ t) (take-drop n xs)

  pub drop-drop : (m n : ℕ) (xs : List R) → drop n (drop m xs) ≡ drop (m + n) xs
  drop-drop zero n xs = let e : n ≡ 0 + n = omega arith in ap (λ m. drop m xs) e
  drop-drop (suc m) zero [] = let e : suc m ≡ suc m + zero = omega arith in ap (λ i. drop i []) e
  drop-drop (suc m) (suc n) [] =
      let e : suc (m + suc n) ≡ suc m + suc n = omega arith in ap (λ i. drop i []) e
  drop-drop (suc m) n (x ∷ xs) =
      let e : suc (m + n) ≡ suc m + n = omega arith in
      drop-drop m n xs ∙ ap (λ i. drop i (x ∷ xs)) e

  pub length-drop : (n : ℕ) (xs : List R) → length (drop n xs) ≡ length xs - n
  length-drop zero xs = omega arith
  length-drop (suc n) [] = omega arith
  length-drop (suc n) (x ∷ xs) = omega (arith, length-drop n xs)

  pub at-drop : (m n : ℕ) (xs : List R) → at n (drop m xs) ≡ at (m + n) xs
  at-drop zero n xs = let e : n ≡ 0 + n = omega arith in ap (λ m. at m xs) e
  at-drop (suc m) n [] = refl
  at-drop (suc m) n (x ∷ xs) =
      let e : suc (m + n) ≡ suc m + n = omega arith in at-drop m n xs ∙ ap (λ i. at i (x ∷ xs)) e

  -- The last row of a full page.
  pub last_of-take :
      (m : ℕ) (xs : List R)
      → ltb m (length xs) ≡ true
      → (x : R) × (at m xs ≡ some x) × (last_of (take (suc m) xs) ≡ some x)
  last_of-take m [] h = absurd (ground arith)
  last_of-take zero (x ∷ xs) h = (x, refl, refl)
  last_of-take (suc m) (x ∷ []) h = absurd (ground arith)
  last_of-take (suc m) (x ∷ y ∷ ys) h = last_of-take m (y ∷ ys) (ground arith)
