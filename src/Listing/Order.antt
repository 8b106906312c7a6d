-- ===== src/Listing/Order.antt =====
-- The order in which the listings put the rows, and the rows behind one of them.
use go_codebase.Prelude.{
  ℕ, zero, suc, ◌≡◌, refl, Bool, true, false, some, List, [], ◌∷◌, ◌==◌, if◌then◌else◌, select, All,
  arith, at, drop,
}
use go_codebase.Listing.{Keyed, older, insert_ordered, ordered}

module _ {R : Type 0} ⦃key : Keyed R⦄ where
  -- `y` stands behind `x` in the order of the listings.
  abbrev pub behind : R → R → Bool
  behind x y = older (key.created_of x) (key.id_of x) y

  -- Each row stands behind all rows before it.
  abbrev pub Descending : List R → Type 0
  Descending [] = Unit
  Descending (x ∷ xs) = All (λ y. behind x y ≡ true) xs × Descending xs

  -- No two rows have one identifier: the table's primary key.
  abbrev pub Distinct : List R → Type 0
  Distinct [] = Unit
  Distinct (x ∷ xs) = All (λ y. (key.id_of y == key.id_of x) ≡ false) xs × Distinct xs

  pub behind_trans : (x y z : R) → behind x y ≡ true → behind y z ≡ true → behind x z ≡ true
  behind_trans x y z h g = ground arith

  pub behind_irrefl : (x : R) → behind x x ≡ false
  behind_irrefl x = ground arith

  pub behind-asym : (x y : R) → behind x y ≡ true → behind y x ≡ false
  behind-asym x y h = ground arith

  pub behind-total :
      (x y : R) → (key.id_of y == key.id_of x) ≡ false → behind x y ≡ false → behind y x ≡ true
  behind-total x y h g = ground arith

  module _ (P : R → Type 0) where
    pub All-insert_ordered : (r : R) (xs : List R) → P r → All P xs → All P (insert_ordered r xs)
    All-insert_ordered r [] h hs = (h, tt)
    All-insert_ordered r (x ∷ xs) h hs =
        placed (older (key.created_of r) (key.id_of r) x) (All-insert_ordered r xs h hs.1)
      where
        placed :
            (b : Bool)
            → All P (insert_ordered r xs)
            → All P (if b then r ∷ x ∷ xs else x ∷ insert_ordered r xs)
        placed true rest = (h, hs)
        placed false rest = (hs.0, rest)

    pub All-ordered : (xs : List R) → All P xs → All P (ordered xs)
    All-ordered [] h = tt
    All-ordered (x ∷ xs) h = All-insert_ordered x (ordered xs) h.0 (All-ordered xs h.1)

    pub All-select : (p : R → Bool) (xs : List R) → All P xs → All P (select p xs)
    All-select p [] h = tt
    All-select p (x ∷ xs) h = kept (p x) (All-select p xs h.1)
      where
        kept : (b : Bool) → All P (select p xs) → All P (if b then x ∷ select p xs else select p xs)
        kept true rest = (h.0, rest)
        kept false rest = rest

    pub All-map : (Q : R → Type 0) (xs : List R) → ((r : R) → P r → Q r) → All P xs → All Q xs
    All-map Q [] f h = tt
    All-map Q (x ∷ xs) f h = (f x h.0, All-map Q xs f h.1)

  insert_ordered-Descending :
      (r : R) (xs : List R)
      → All (λ y. (key.id_of y == key.id_of r) ≡ false) xs
      → Descending xs
      → Descending (insert_ordered r xs)
  insert_ordered-Descending r [] d h = (tt, tt)
  insert_ordered-Descending r (x ∷ xs) d h =
      placed (older (key.created_of r) (key.id_of r) x) refl
        (insert_ordered-Descending r xs d.1 h.1)
    where
      placed :
          (b : Bool)
          → older (key.created_of r) (key.id_of r) x ≡ b
          → Descending (insert_ordered r xs)
          → Descending (if b then r ∷ x ∷ xs else x ∷ insert_ordered r xs)
      placed true e rest = ((e, All-map _ _ xs (λ y. behind_trans r x y e) h.0), h)
      placed false e rest = (All-insert_ordered _ r xs (behind-total r x d.0 e) h.0, rest)

  -- The listings' order is strict where identifiers are distinct.
  pub ordered-Descending : (xs : List R) → Distinct xs → Descending (ordered xs)
  ordered-Descending [] h = tt
  ordered-Descending (x ∷ xs) h =
      insert_ordered-Descending x (ordered xs) (All-ordered _ xs h.0) (ordered-Descending xs h.1)

  pub select-Descending : (p : R → Bool) (xs : List R) → Descending xs → Descending (select p xs)
  select-Descending p [] h = tt
  select-Descending p (x ∷ xs) h = kept (p x) (select-Descending p xs h.1)
    where
      kept :
          (b : Bool)
          → Descending (select p xs)
          → Descending (if b then x ∷ select p xs else select p xs)
      kept true rest = (All-select _ p xs h.0, rest)
      kept false rest = rest

  pub All-at : (P : R → Type 0) (n : ℕ) (xs : List R) (x : R) → at n xs ≡ some x → All P xs → P x
  All-at P n [] x e h = cc
  All-at P zero (y ∷ xs) x e h = let e' : y ≡ x = cc in rw (e') at h.0
  All-at P (suc n) (y ∷ xs) x e h = All-at P n xs x e h.1

  pub select-all : (p : R → Bool) (xs : List R) → All (λ y. p y ≡ true) xs → select p xs ≡ xs
  select-all p [] h = refl
  select-all p (x ∷ xs) h = rw (h.0, select-all p xs h.1) refl

  -- In a strict order, the rows behind the row at a position are those at later positions.
  pub select-behind :
      (n : ℕ) (xs : List R) (x : R)
      → Descending xs
      → at n xs ≡ some x
      → select (behind x) xs ≡ drop (suc n) xs
  select-behind n [] x d e = refl
  select-behind zero (y ∷ xs) x d e =
      let e' : y ≡ x = cc in
      let rest : All (λ z. behind x z ≡ true) xs = rw (e') at d.0 in
      rw (e', behind_irrefl x, select-all (behind x) xs rest) refl
  select-behind (suc n) (y ∷ xs) x d e =
      let later : behind x y ≡ false = behind-asym y x (All-at _ n xs x e d.0) in
      rw (later) (select-behind n xs x d.1 e)
