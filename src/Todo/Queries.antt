-- ===== src/Todo/Queries.antt =====
-- The methods of internal/todo/infrastructure/persistence/todo_repository.go.
use go_codebase.Prelude.{ℕ, String, Bool, ◌&&◌, ◌||◌, Option, find, any}
use go_codebase.Cursor.{Codec}
use go_codebase.Core.Errors.{wrap}
use go_codebase.Core.Proc.{◌>>=◌, ◌>>◌, on_error}
use go_codebase.Core.Runtime.{Env, round_trip, read_clock, read, exec}
use go_codebase.Todo.Entity.{Todo}
use go_codebase.Todo.Repository.{
  Action, live, matches, todo_of, todo_keyed, insert_todo, update_todo, soft_delete_todo, Matcher,
  found, require_row,
}
use go_codebase.Listing.{scope, in_scope, Page, list_where}

module _ (env : Env) where
  unfoldable pub create : Todo → Action (Unit {0})
  unfolding insert_todo
  create t = exec env "insert todo" (insert_todo env.timestamptz t)

  unfoldable pub get_by_id : ℕ → Action Todo
  get_by_id id = do
    on_error (round_trip env) (wrap "get todo")
    row ← read (λ rows. find (matches id) rows)
    found row

  unfoldable pub update : Todo → Action (Unit {0})
  unfolding update_todo
  update t = do
    matched ← read (λ rows. any (matches t.id) rows)
    exec env "update todo" (update_todo env.timestamptz t)
    require_row matched

  unfoldable pub delete : ℕ → Action (Unit {0})
  unfolding soft_delete_todo
  delete id = do
    matched ← read (λ rows. any (matches id) rows)
    now ← read_clock env
    exec env "delete todo" (soft_delete_todo now id)
    require_row matched

  module _ (k : Codec) (tenants : Option Bool) (tenant : String) where
    unfoldable pub get_all : Option String → (limit : ℕ) → Action (Page Todo)
    unfolding list_where
    get_all cursor limit =
        list_where env k todo_of (λ rows. rows) "query todos"
          (λ r. live r && in_scope (scope tenants tenant) r.tenant_id) cursor limit

    unfoldable pub search_rows : Matcher → String → Option String → (limit : ℕ) → Action (Page Todo)
    unfolding list_where
    search_rows m query cursor limit =
        let pattern = m.pattern_of query in
        list_where env k todo_of (λ rows. rows) "search todos"
          (λ r.
            live r
            && ((m.ilike r.title pattern || m.ilike r.description pattern)
                && in_scope (scope tenants tenant) r.tenant_id))
          cursor limit
