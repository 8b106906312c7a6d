-- ===== src/Todo/Guarantees.antt =====
-- What holds of the table of todos, and of what its listings show, after any requests.
use go_codebase.Prelude.{
  ℕ, String, ◌≡◌, refl, Bool, true, false, ltb, ◌&&◌, none, some, List, [], ◌∷◌, select, All,
  str_eq, eq_iff, arith,
}
use go_codebase.Cursor.{Codec}
use go_codebase.Core.Proc.{ok}
use go_codebase.Core.Runtime.{Env, World, reliable}
use go_codebase.Todo.Entity.{Todo, TodoEvent}
use go_codebase.Todo.Repository.{TodoRecord, Table, todo_of, live, todo_keyed}
use go_codebase.Listing.{ordered, scope, in_scope, Page, page_of, list_where}
use go_codebase.Listing.Order.{Distinct, All-ordered}
use go_codebase.Todo.Queries.{get_all}
use go_codebase.Todo.Facts.{Titled, Unscoped, Titled-Stable, Unscoped-Stable, Distinct-Stable}
use go_codebase.Todo.Trace.{Call, run_all, run_all-On}

-- After any requests, with or without failures of the database, no two rows have one identifier
-- and no row has an empty title, if that was so before them.
pub run_all-Valid :
    (env : Env) (cs : List Call) (w : World Table TodoEvent)
    → Distinct w.db
    → All Titled w.db
    → Distinct (run_all env cs w).db × All Titled (run_all env cs w).db
run_all-Valid env cs w distinct titled = (
  (run_all-On env Distinct-Stable cs w (record { tables = distinct })).tables,
  (run_all-On env Titled-Stable cs w (record { tables = titled })).tables,
)

select-Unscoped :
    (tenant : String) (rows : Table)
    → str_eq tenant "" ≡ false
    → All Unscoped rows
    → select (λ r. live r && in_scope (scope (some true) tenant) r.tenant_id && true) rows ≡ []
select-Unscoped tenant [] h a = refl
select-Unscoped tenant (x ∷ xs) h a =
    ground
      (arith, select-Unscoped tenant xs h a.1, a.0, eq_iff tenant "", eq_iff x.tenant_id tenant)

page_of-empty :
    (k : Codec) (b : Bool) (limit : ℕ) → (page_of {R = TodoRecord} k todo_of b limit []).items ≡ []
unfolding page_of
page_of-empty k b limit = let e : ltb limit 0 ≡ false = ground arith in rw (e) refl

-- Where no row names a tenant before some requests, the listing of a tenant's todos by an enabled
-- tenant filter is empty after them, whatever todos the requests create.
pub tenant_sees_nothing :
    (env : Env) (k : Codec) (tenant : String) (limit : ℕ) (cs : List Call)
    (w : World Table TodoEvent)
    → str_eq tenant "" ≡ false
    → All Unscoped w.db
    → (page : Page Todo) × ((get_all
          (reliable env)
          k
          (some true)
          tenant
          none
          limit
          (run_all env cs w)).0
        ≡ ok page)
      × (page.items ≡ [])
unfolding get_all list_where page_of
tenant_sees_nothing env k tenant limit cs w named unscoped =
    let after = (run_all-On env Unscoped-Stable cs w (record { tables = unscoped })).tables in
    let rows = (run_all env cs w).db in
    let nothing = select-Unscoped tenant (ordered rows) named (All-ordered Unscoped rows after) in
    (page_of k todo_of false limit [], rw (nothing) refl, page_of-empty k false limit)
