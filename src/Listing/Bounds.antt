-- ===== src/Listing/Bounds.antt =====
-- How many rows one page of a listing has.
use go_codebase.Prelude.{
  ℕ, ◌≤◌, ◌≡◌, refl, String, Bool, is_some, Option, List, [], ◌∷◌, map, ltb, length, take,
  length-take_le, arith, Bool-cases, inl, inr,
}
use go_codebase.Cursor.{Codec}
use go_codebase.Core.Errors.{wrap}
use go_codebase.Core.Proc.{ok, on_error, bind-eq-ok}
use go_codebase.Core.Runtime.{Env, World, round_trip}
use go_codebase.Listing.{Keyed, Page, page_of, decode_arg, lift, query_rows, list_where}

pub length-map : {A B : Type 0} (f : A → B) (xs : List A) → length (map f xs) ≡ length xs
length-map f [] = refl
length-map f (x ∷ xs) = ground (arith, length-map f xs)

module _ {R A : Type 0} ⦃key : Keyed R⦄ (k : Codec) (item_of : R → A) where
  page_of-bounded :
      (b : Bool) (limit : ℕ) (rows : List R) → length (page_of k item_of b limit rows).items ≤ limit
  unfolding page_of
  page_of-bounded b limit rows = elim (Bool-cases (ltb limit (length rows))) [
    | inl h ↦ rw (h, length-map item_of (take limit rows)) (length-take_le limit rows)
    | inr h ↦ rw (h, length-map item_of rows) (ground arith)
  ]

module _ {D E R A : Type 0} ⦃key : Keyed R⦄ (env : Env) (k : Codec) (item_of : R → A)
    (rows_of : D → List R) where
  -- A page that a listing returns has no more rows than its limit.
  pub list_where-bounded :
      (label : String) (p : R → Bool) (c : Option String) (limit : ℕ) (w : World D E)
      (page : Page A)
      → (list_where env k item_of rows_of label p c limit w).0 ≡ ok page
      → length page.items ≤ limit
  unfolding list_where
  list_where-bounded label p c limit w page h =
      let (at, decoded, rest) = bind-eq-ok (lift (decode_arg k c)) _ w h in
      let (u, answered, later) = bind-eq-ok (on_error (round_trip env) (wrap label)) _ w rest in
      let rows = query_rows p at limit (rows_of (on_error (round_trip env) (wrap label) w).1.db) in
      let same : page_of k item_of (is_some c) limit rows ≡ page = cc in
      rw (← same) (page_of-bounded k item_of (is_some c) limit rows)
