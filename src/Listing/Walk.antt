-- ===== src/Listing/Walk.antt =====
-- A client that follows the cursors of a listing.
use go_codebase.Prelude.{
  ℕ, zero, suc, ◌+◌, ◌≤◌, ◌≡◌, refl, sym, ap, ◌∙◌, String, Bool, true, false, Option, none, some,
  List, [], ◌∷◌, ◌++◌, map, ltb, is_some, length, take, All, arith, Bool-cases, inl, inr, drop,
}
use go_codebase.Cursor.{Codec, IsFaithful, encode}
use go_codebase.Core.Errors.{plain}
use go_codebase.Core.Proc.{Result, ok, err, Proc, ◌>>=◌, return, fail, follow}
use go_codebase.Core.Runtime.{Env, World, reliable}
use go_codebase.Listing.{Keyed, Page, last_of, cursor_of, list_where}
use go_codebase.Listing.Order.{Distinct}
use go_codebase.Listing.Slices.{take-all, take-drop, drop-drop, length-drop, at-drop, last_of-take}
use go_codebase.Listing.Paging.{
  page_items, page_next, page_more, Dated, listed, Resumes, Resumes-start, Resumes-at,
  list_where-eq,
}

map-++ : {A B : Type 0} (f : A → B) (xs ys : List A) → map f (xs ++ ys) ≡ map f xs ++ map f ys
map-++ f [] ys = refl
map-++ f (x ∷ xs) ys = ap (λ t. f x ∷ t) (map-++ f xs ys)

abbrev pub joined : {S A : Type 0} → (more : Bool) → List A → Proc S (List A) → Proc S (List A)
joined false items rest = return items
joined true items rest = do later ← rest; return (items ++ later)

module _ {S A : Type 0} (listing : Option String → Proc S (Page A)) where
  -- The pages from a cursor on, up to the one that has no next, joined.
  pub walk : (fuel : ℕ) → Option String → Proc S (List A)
  walk zero cursor = fail (plain "out of fuel")
  walk (suc fuel) cursor = do
    page ← listing cursor
    joined page.has_next page.items (walk fuel page.next_cursor)

follow-ok :
    {S A B : Type 0} (r : Result A × S) (f : A → S → Result B × S) {a : A} {b : B}
    → r.0 ≡ ok a
    → (f a r.1).0 ≡ ok b
    → (follow r f).0 ≡ ok b
follow-ok (ok x, s) f {a} {b} h g = let e : x ≡ a = cc in rw (e) g
follow-ok (err x, s) f h g = cc

-- The rows of a listing that are left from a position on.
module _ {R A : Type 0} ⦃key : Keyed R⦄ (item_of : R → A) (p : R → Bool) (m : ℕ)
    (rows : List R) where
  left_over :
      (j : ℕ)
      → map item_of (take (suc m) (drop j (listed p rows)))
          ++ map item_of (drop (suc (j + m)) (listed p rows))
        ≡ map item_of (drop j (listed p rows))
  left_over j =
      let shown = listed p rows in
      let e : suc (j + m) ≡ j + suc m = omega arith in
      sym (
        map-++ item_of (take (suc m) (drop j (listed p rows))) (drop (suc (j + m)) (listed p rows)))
      ∙ ap (λ i. map item_of (take (suc m) (drop j (listed p rows)) ++ drop i shown)) e
      ∙ ap (λ xs. map item_of (take (suc m) (drop j (listed p rows)) ++ xs))
          (sym (drop-drop j (suc m) shown))
      ∙ ap (map item_of) (take-drop (suc m) (drop j (listed p rows)))

module _ {D E R A : Type 0} ⦃key : Keyed R⦄ (env : Env) (k : Codec) (item_of : R → A)
    (rows_of : D → List R) (label : String) (p : R → Bool) (m : ℕ) (d : D) where
  abbrev listing_of : Option String → Proc (World D E) (Page A)
  listing_of cursor = list_where (reliable env) k item_of rows_of label p cursor (suc m)

  abbrev world_of : ℕ → List E → World D E
  world_of t ps = record { db = d; tick = t; published = ps }

  walk-page :
      (fuel j : ℕ) (cursor : Option String) (t : ℕ) (ps : List E)
      → Resumes k p (rows_of d) cursor j
      → walk listing_of (suc fuel) cursor (world_of t ps)
        ≡ joined
            (ltb (suc m) (length (drop j (listed p (rows_of d)))))
            (map item_of (take (suc m) (drop j (listed p (rows_of d)))))
            (walk listing_of fuel
              (cursor_of k item_of (last_of (take (suc m) (drop j (listed p (rows_of d)))))))
            (world_of (suc t) ps)
  unfolding walk
  walk-page fuel j cursor t ps h =
      rw
        (
          list_where-eq env k item_of rows_of label p (suc m) (world_of t ps) cursor j h,
          page_items k item_of (is_some cursor) (suc m) (drop j (listed p (rows_of d))),
          page_next k item_of (is_some cursor) (suc m) (drop j (listed p (rows_of d))),
          page_more k item_of (is_some cursor) (suc m) (drop j (listed p (rows_of d))),
        )
        refl

  module _ (faithful : IsFaithful k) (distinct : Distinct (rows_of d))
      (dated : All Dated (rows_of d)) where
    -- A page that is not the last, and what follows it.
    joined-more :
        (fuel j : ℕ) (t : ℕ) (ps : List E)
        → ltb m (length (drop j (listed p (rows_of d)))) ≡ true
        → ((cursor : Option String)
            → Resumes k p (rows_of d) cursor (suc (j + m))
            → (walk listing_of fuel cursor (world_of t ps)).0
              ≡ ok (map item_of (drop (suc (j + m)) (listed p (rows_of d)))))
        → (joined true
            (map item_of (take (suc m) (drop j (listed p (rows_of d)))))
            (walk listing_of fuel
              (cursor_of k item_of (last_of (take (suc m) (drop j (listed p (rows_of d)))))))
            (world_of t ps)).0
          ≡ ok (map item_of (drop j (listed p (rows_of d))))
    joined-more fuel j t ps full later =
        let (x, there, last) = last_of-take m (drop j (listed p (rows_of d))) full in
        let next = some (encode k (key.created_of x) (key.id_of x)) in
        let resumes =
          Resumes-at k p faithful (rows_of d) (j + m) x distinct dated
            (sym (at-drop j m (listed p (rows_of d))) ∙ there) in
        rw (last) (
          follow-ok (walk listing_of fuel next (world_of t ps))
            (λ ts. return (map item_of (take (suc m) (drop j (listed p (rows_of d)))) ++ ts))
            (later next resumes) (ap ok (left_over item_of p m (rows_of d) j)))

    walk-last :
        (fuel j : ℕ) (cursor : Option String) (t : ℕ) (ps : List E)
        → Resumes k p (rows_of d) cursor j
        → ltb (suc m) (length (drop j (listed p (rows_of d)))) ≡ false
        → (walk listing_of (suc fuel) cursor (world_of t ps)).0
          ≡ ok (map item_of (drop j (listed p (rows_of d))))
    walk-last fuel j cursor t ps h last =
        rw
          (
            walk-page fuel j cursor t ps h,
            last,
            take-all (suc m) (drop j (listed p (rows_of d))) last,
          )
          refl

    -- With no less fuel than rows that are left, the walk returns them all.
    walk-from :
        (fuel j : ℕ) (cursor : Option String) (t : ℕ) (ps : List E)
        → length (drop j (listed p (rows_of d))) ≤ fuel
        → Resumes k p (rows_of d) cursor j
        → (walk listing_of (suc fuel) cursor (world_of t ps)).0
          ≡ ok (map item_of (drop j (listed p (rows_of d))))
    walk-from zero j cursor t ps enough h = walk-last zero j cursor t ps h (ground arith)
    walk-from (suc fuel) j cursor t ps enough h =
        elim (Bool-cases (ltb (suc m) (length (drop j (listed p (rows_of d)))))) [
          | inr last ↦ walk-last (suc fuel) j cursor t ps h last
          | inl more ↦
              let shorter : length (drop (suc (j + m)) (listed p (rows_of d))) ≤ fuel = ground (
                arith,
                length-drop j (listed p (rows_of d)),
                length-drop (suc (j + m)) (listed p (rows_of d)),
              ) in
              rw (walk-page (suc fuel) j cursor t ps h, more)
                (joined-more (suc fuel) j (suc t) ps (ground arith)
                  (λ c. walk-from fuel (suc (j + m)) c (suc t) ps shorter))
        ]

    -- Following the cursors of a listing from its start gives all the rows that it shows.
    pub walk_listing :
        (fuel : ℕ) (t : ℕ) (ps : List E)
        → length (listed p (rows_of d)) ≤ fuel
        → (walk listing_of (suc fuel) none (world_of t ps)).0
          ≡ ok (map item_of (listed p (rows_of d)))
    walk_listing fuel t ps enough =
        walk-from fuel 0 none t ps enough (Resumes-start k p (rows_of d))
