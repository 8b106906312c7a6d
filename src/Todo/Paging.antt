-- ===== src/Todo/Paging.antt =====
-- A client that follows the cursors of the listings in todo_repository.go.
use go_codebase.Prelude.{ℕ, suc, ◌≤◌, ◌≡◌, String, Bool, ◌&&◌, Option, none, List, map, length, All}
use go_codebase.Cursor.{Codec, IsFaithful}
use go_codebase.Core.Proc.{ok}
use go_codebase.Core.Runtime.{Env, reliable}
use go_codebase.Todo.Entity.{TodoEvent}
use go_codebase.Todo.Repository.{TodoRecord, Table, todo_of, live, todo_keyed}
use go_codebase.Todo.Queries.{get_all}
use go_codebase.Listing.{scope, in_scope}
use go_codebase.Listing.Order.{Distinct}
use go_codebase.Listing.Paging.{Dated, listed}
use go_codebase.Listing.Walk
use go_codebase.Listing.Walk.{walk}

-- The todos that a request of a tenant can see.
abbrev pub visible : (tenants : Option Bool) → (tenant : String) → TodoRecord → Bool
visible tenants tenant r = live r && in_scope (scope tenants tenant) r.tenant_id

-- Where the database answers, identifiers are distinct and all times are before the year 10000,
-- a client that follows the next cursors of the listing of todos at a limit of at least one, from
-- the first page to one without a next, gets every todo that the listing shows exactly once, in the
-- order of the listing, in no more requests than one and the number of those todos.
pub walk_all :
    (env : Env) (k : Codec) (tenants : Option Bool) (tenant : String) (m : ℕ) (rows : Table)
    → IsFaithful k
    → Distinct rows
    → All Dated rows
    → (fuel : ℕ) (t : ℕ) (ps : List TodoEvent)
    → length (listed (visible tenants tenant) rows) ≤ fuel
    → (walk
        (λ c. get_all (reliable env) k tenants tenant c (suc m))
        (suc fuel)
        none
        (record { db = rows; tick = t; published = ps })).0
      ≡ ok (map todo_of (listed (visible tenants tenant) rows))
unfolding get_all
walk_all env k tenants tenant m rows faithful distinct dated fuel t ps enough =
    Walk.walk_listing env k todo_of (λ rows. rows) "query todos" (visible tenants tenant) m rows
      faithful distinct dated fuel t ps enough
