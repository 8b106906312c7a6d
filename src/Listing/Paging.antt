-- ===== src/Listing/Paging.antt =====
-- What one page of a listing answers: the rows from the cursor's position on.
use go_codebase.Prelude.{
  ℕ, suc, ◌≡◌, refl, ap, ◌∙◌, String, Bool, true, ◌&&◌, Option, none, some, List, [], ◌∷◌, map, ltb,
  is_some, length, take, select, All, at, drop,
}
use go_codebase.Cursor
use go_codebase.Cursor.{Codec, IsFaithful, encode, decode-encode, year_10000}
use go_codebase.Core.Proc.{ok}
use go_codebase.Core.Runtime.{Env, World, reliable, step}
use go_codebase.Listing.{
  Keyed, ordered, after_cursor, last_of, decode_arg, cursor_of, page_of, list_where,
}
use go_codebase.Listing.Order.{
  behind, Distinct, All-ordered, All-select, ordered-Descending, select-Descending, All-at,
  select-all, select-behind,
}
use go_codebase.Listing.Slices.{select-and, length-take, cut}

module _ {R A : Type 0} ⦃key : Keyed R⦄ (k : Codec) (item_of : R → A) (b : Bool) (n : ℕ)
    (rows : List R) where
  pub page_items : (page_of k item_of b n (take (suc n) rows)).items ≡ map item_of (take n rows)
  unfolding page_of
  page_items = ap (map item_of) (cut n rows)

  pub page_next :
      (page_of k item_of b n (take (suc n) rows)).next_cursor
      ≡ cursor_of k item_of (last_of (take n rows))
  unfolding page_of
  page_next = ap (λ t. cursor_of k item_of (last_of t)) (cut n rows)

  pub page_more : (page_of k item_of b n (take (suc n) rows)).has_next ≡ ltb n (length rows)
  unfolding page_of
  page_more = length-take n rows

module _ {R : Type 0} ⦃key : Keyed R⦄ where
  -- The time of a row has a JSON form.
  abbrev pub Dated : R → Type 0
  Dated r = ltb (key.created_of r) year_10000 ≡ true

  -- The rows that a listing of a condition shows, in its order.
  abbrev pub listed : (R → Bool) → List R → List R
  listed p rows = select p (ordered rows)

  everywhere : (xs : List R) → All (λ y. true ≡ true) xs
  everywhere [] = tt
  everywhere (x ∷ xs) = (refl, everywhere xs)

module _ {R : Type 0} ⦃key : Keyed R⦄ (k : Codec) (p : R → Bool) where
  -- The cursor stands for the rows from a position on.
  pub record Resumes (rows : List R) (cursor : Option String) (j : ℕ) : Type 0 where
    pub at_cursor : Option Cursor.Cursor
    pub decodes : decode_arg k cursor ≡ ok at_cursor
    pub rest : select (λ r. p r && after_cursor at_cursor r) (ordered rows) ≡ drop j (listed p rows)

  pub Resumes-start : (rows : List R) → Resumes rows none 0
  Resumes-start rows = record {
    at_cursor = none;
    decodes = refl;
    rest =
        select-and p (λ r. true) (ordered rows)
        ∙ select-all (λ r. true) (listed p rows) (everywhere (listed p rows));
  }

  pub Resumes-at :
      IsFaithful k
      → (rows : List R) (j : ℕ) (x : R) → Distinct rows
      → All Dated rows
      → at j (listed p rows) ≡ some x
      → Resumes rows (some (encode k (key.created_of x) (key.id_of x))) (suc j)
  Resumes-at faithful rows j x distinct dated h =
      let in_time : Dated x =
        All-at Dated j (listed p rows) x h
          (All-select Dated p (ordered rows) (All-ordered Dated rows dated)) in
      record {
        at_cursor = some (record { timestamp = key.created_of x; id = key.id_of x });
        decodes =
            rw (decode_arg, decode-encode k faithful (key.created_of x) (key.id_of x) in_time) refl;
        rest =
            select-and p (behind x) (ordered rows)
            ∙ select-behind j (listed p rows) x
                (select-Descending p (ordered rows) (ordered-Descending rows distinct)) h;
      }

-- The listing's answer, where the database answers.
module _ {D E R A : Type 0} ⦃key : Keyed R⦄ (env : Env) (k : Codec) (item_of : R → A)
    (rows_of : D → List R) (label : String) (p : R → Bool) (n : ℕ) (w : World D E) where
  pub list_where-eq :
      (cursor : Option String) (j : ℕ)
      → Resumes k p (rows_of w.db) cursor j
      → list_where (reliable env) k item_of rows_of label p cursor n w ≡ (
        ok (page_of k item_of (is_some cursor) n (take (suc n) (drop j (listed p (rows_of w.db))))),
        step w,
      )
  unfolding list_where
  list_where-eq cursor j h = rw (h.decodes, h.rest) refl
