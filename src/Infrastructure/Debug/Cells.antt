-- ===== src/Infrastructure/Debug/Cells.antt =====
-- Go arrays as lists: reading and writing at an index, and lists that agree at every index.
use go_codebase.Prelude.{
  ℕ, zero, suc, ◌<◌, ◌≡◌, refl, ap, none, some, List, [], ◌∷◌, ltb, if◌then◌else◌, ◌==◌, length,
  take, at, arith,
}

module _ {ℓ} {A : Type ℓ} where
  abbrev pub get_or : List A → ℕ → A → A
  get_or [] i d = d
  get_or (x ∷ xs) zero d = x
  get_or (x ∷ xs) (suc i) d = get_or xs i d

  -- A write out of range, which panics in Go, changes nothing.
  abbrev pub set : List A → ℕ → A → List A
  set [] i v = []
  set (x ∷ xs) zero v = v ∷ xs
  set (x ∷ xs) (suc i) v = x ∷ set xs i v

  abbrev pub replicate : ℕ → A → List A
  replicate zero x = []
  replicate (suc n) x = x ∷ replicate n x

  pub length-replicate : (n : ℕ) (x : A) → length (replicate n x) ≡ n
  length-replicate zero x = refl
  length-replicate (suc n) x = ap suc (length-replicate n x)

  pub length-set : (xs : List A) (i : ℕ) (v : A) → length (set xs i v) ≡ length xs
  length-set [] i v = refl
  length-set (x ∷ xs) zero v = refl
  length-set (x ∷ xs) (suc i) v = ap suc (length-set xs i v)

  pub at-set :
      (xs : List A) (i : ℕ) (v : A) (k : ℕ)
      → i < length xs
      → at k (set xs i v) ≡ (if k == i then some v else at k xs)
  at-set [] i v k h = absurd (omega arith)
  at-set (x ∷ xs) zero v zero h = refl
  at-set (x ∷ xs) zero v (suc k) h = ground arith
  at-set (x ∷ xs) (suc i) v zero h = ground arith
  at-set (x ∷ xs) (suc i) v (suc k) h = ground (arith, at-set xs i v k)

  pub at-get_or : (xs : List A) (i : ℕ) (d : A) → i < length xs → at i xs ≡ some (get_or xs i d)
  at-get_or [] i d h = absurd (omega arith)
  at-get_or (x ∷ xs) zero d h = refl
  at-get_or (x ∷ xs) (suc i) d h = at-get_or xs i d (omega arith)

  pub get_or-set :
      (xs : List A) (i : ℕ) (v : A) (k : ℕ) (d : A)
      → i < length xs
      → get_or (set xs i v) k d ≡ (if k == i then v else get_or xs k d)
  get_or-set [] i v k d h = absurd (omega arith)
  get_or-set (x ∷ xs) zero v zero d h = refl
  get_or-set (x ∷ xs) zero v (suc k) d h = ground arith
  get_or-set (x ∷ xs) (suc i) v zero d h = ground arith
  get_or-set (x ∷ xs) (suc i) v (suc k) d h = ground (arith, get_or-set xs i v k d)

  pub at-take :
      (n : ℕ) (xs : List A) (k : ℕ) → at k (take n xs) ≡ (if ltb k n then at k xs else none)
  at-take zero [] k = ground arith
  at-take zero (x ∷ xs) k = ground arith
  at-take (suc n) [] k = ground arith
  at-take (suc n) (x ∷ xs) zero = ground arith
  at-take (suc n) (x ∷ xs) (suc k) = ground (arith, at-take n xs k)

  pub eq_of_at : (xs ys : List A) → ((k : ℕ) → at k xs ≡ at k ys) → xs ≡ ys
  eq_of_at [] [] same = refl
  eq_of_at [] (y ∷ ys) same = cc (same 0)
  eq_of_at (x ∷ xs) [] same = cc (same 0)
  eq_of_at (x ∷ xs) (y ∷ ys) same = cc (same 0, eq_of_at xs ys (λ k. same (suc k)))
