-- ===== src/Listing.antt =====
-- The listing query that the repositories of todos, roles, permissions, tenants and users share, as
-- todo_repository.go writes it: a condition, an order, a cursor, and one row more than the limit.
pub mod Order
pub mod Slices
pub mod Paging
pub mod Walk
pub mod Bounds
use go_codebase.Prelude.{
  ℕ, suc, String, Bool, true, false, ◌&&◌, ◌||◌, Option, none, some, List, [], ◌∷◌, map, ltb, ◌==◌,
  if◌then◌else◌, is_some, length, take, select, str_eq,
}
use go_codebase.Cursor
use go_codebase.Cursor.{Codec, decode, encode}
use go_codebase.Core.Errors.{wrap}
use go_codebase.Core.Proc.{Result, ok, err, Proc, ◌>>=◌, ◌>>◌, return, on_error}
use go_codebase.Core.Runtime.{Env, World, round_trip, read}

-- The columns `id` and `created_at` of a table.
pub record Keyed (R : Type 0) : Type 0 where
  pub id_of : R → ℕ
  pub created_of : R → ℕ

-- The tenant to which the query is confined: none without a configuration that is enabled, and
-- none for a request of no tenant. `tenant` is the request's, from its context.
abbrev pub scope : Option Bool → (tenant : String) → Option String
scope none tenant = none
scope (some false) tenant = none
scope (some true) tenant = if str_eq tenant "" then none else some tenant

-- `tenant_id = $1`, where there is a tenant.
abbrev pub in_scope : Option String → (tenant_id : String) → Bool
in_scope none tenant_id = true
in_scope (some tenant) tenant_id = str_eq tenant_id tenant

module _ {R : Type 0} ⦃key : Keyed R⦄ where
  -- `(created_at, id) < (t, i)`
  abbrev pub older : (t i : ℕ) → R → Bool
  older t i r = ltb (key.created_of r) t || key.created_of r == t && ltb (key.id_of r) i

  -- `ORDER BY created_at DESC, id DESC`
  abbrev pub insert_ordered : R → List R → List R
  insert_ordered r [] = r ∷ []
  insert_ordered r (x ∷ xs) =
      let rest = insert_ordered r xs in
      if older (key.created_of r) (key.id_of r) x then r ∷ x ∷ xs else x ∷ rest

  abbrev pub ordered : List R → List R
  ordered [] = []
  ordered (x ∷ xs) = insert_ordered x (ordered xs)

  -- The cursor's condition.
  abbrev pub after_cursor : Option Cursor.Cursor → R → Bool
  after_cursor none r = true
  after_cursor (some c) r = older c.timestamp c.id r

  -- `SELECT … WHERE … ORDER BY … LIMIT limit + 1`. Identifiers are unique, so that the order is
  -- total and it is the same to put the rows in order before the condition or after it.
  abbrev pub query_rows : (R → Bool) → Option Cursor.Cursor → (limit : ℕ) → List R → List R
  query_rows p c limit rows =
      take (suc limit) (select (λ r. p r && after_cursor c r) (ordered rows))

pub record Page (A : Type 0) : Type 0 where
  pub items : List A
  pub next_cursor : Option String
  pub prev_cursor : Option String
  pub has_next : Bool
  pub has_prev : Bool

-- `todos[len(todos)-1]` and `todos[0]`, where there are any.
abbrev pub last_of : {A : Type 0} → List A → Option A
last_of [] = none
last_of (x ∷ []) = some x
last_of (x ∷ y ∷ ys) = last_of (y ∷ ys)

abbrev pub first_of : {A : Type 0} → List A → Option A
first_of [] = none
first_of (x ∷ xs) = some x

-- `if cursorArg != nil { c, err := cursor.Decode(*cursorArg) … }`
abbrev pub decode_arg : (k : Codec) → Option String → Result (Option Cursor.Cursor)
decode_arg k none = ok none
decode_arg k (some s) = elim (decode k s) [
  | ok c ↦ ok (some c)
  | err e ↦ err (wrap "invalid cursor" e)
]

abbrev pub lift : {S A : Type 0} → Result A → Proc S A
lift r s = (r, s)

module _ {R A : Type 0} ⦃key : Keyed R⦄ (k : Codec) (item_of : R → A) where
  abbrev pub cursor_of : Option R → Option String
  cursor_of none = none
  cursor_of (some r) = some (encode k (key.created_of r) (key.id_of r))

  -- The rows of the query, cut at the limit, with the cursors of the last and the first.
  unfoldable pub page_of : (has_cursor : Bool) (limit : ℕ) → List R → Page A
  page_of has_cursor limit rows =
      let has_next = ltb limit (length rows) in
      let shown = if has_next then take limit rows else rows in
      record {
        items = map item_of shown;
        next_cursor = cursor_of (last_of shown);
        prev_cursor = cursor_of (first_of shown);
        has_next = has_next;
        has_prev = has_cursor && ltb 0 (length shown);
      }

-- A listing of the rows of the table `rows_of` on which `p` holds.
module _ {D E R A : Type 0} ⦃key : Keyed R⦄ (env : Env) (k : Codec) (item_of : R → A)
    (rows_of : D → List R) where
  unfoldable pub list_where :
      (label : String) (p : R → Bool) → Option String → (limit : ℕ) → Proc (World D E) (Page A)
  unfolding page_of
  list_where label p cursor limit = do
    c ← lift (decode_arg k cursor)
    on_error (round_trip env) (wrap label)
    rows ← read (λ d. query_rows p c limit (rows_of d))
    return (page_of k item_of (is_some cursor) limit rows)
