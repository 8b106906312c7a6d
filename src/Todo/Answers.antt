-- ===== src/Todo/Answers.antt =====
-- What the handlers of internal/todo/interfaces/http/handlers.go answer.
use go_codebase.Prelude.{
  ℕ, ◌≤◌, ◌≡◌, refl, String, Bool, true, false, Option, none, some, List, length, arith,
}
use go_codebase.Cursor.{Codec}
use go_codebase.Core.Errors.{GoError}
use go_codebase.Core.Proc.{Result, ok, err}
use go_codebase.Core.Runtime.{Env, World}
use go_codebase.Todo.Entity.{Todo, TodoEvent}
use go_codebase.Todo.Repository.{Table, todo_of, todo_keyed}
use go_codebase.Listing.{Page}
use go_codebase.Listing.Bounds.{list_where-bounded}
use go_codebase.Todo.Paging.{visible}
use go_codebase.Todo.Queries.{get_all}
use go_codebase.Todo.Handlers.{Reply, TodoData, todo_list, list_http, page_reply}
use go_codebase.Http.Requests.{limit_of, cursor_arg}
use go_codebase.Http.Response.{
  map_error, respond_error, respond_internal_error_from_request, respond_cursor_paginated,
}

limit_of-bounded : (atoi : String → Option ℕ) (l : String) → limit_of atoi l ≤ 100
unfolding limit_of
limit_of-bounded atoi l = ground arith

map_error-none :
    (is_production : Bool) (stack : String) (e : GoError)
    → (map_error {D = TodoData} is_production stack e).payload.data_of ≡ none
unfolding map_error respond_internal_error_from_request respond_error
map_error-none true stack e = ground arith
map_error-none false stack e = ground arith

module _ (is_production : Bool) (stack : String) (env : Env) (k : Codec) (tenants : Option Bool)
    (tenant : String) (atoi : String → Option ℕ) (cursor l : String) where
  answer-bounded :
      (r : Result (Page Todo)) (ts : List Todo)
      → ((p : Page Todo) → r ≡ ok p → length p.items ≤ limit_of atoi l)
      → (page_reply is_production stack (limit_of atoi l) r).payload.data_of ≡ some (todo_list ts)
      → length ts ≤ 100
  unfolding respond_cursor_paginated
  answer-bounded (ok p) ts h e = ground (arith, h p refl, limit_of-bounded atoi l)
  answer-bounded (err x) ts h e =
      let nothing = map_error-none is_production stack x in absurd (ground arith)

  get_all-bounded :
      (limit : ℕ) (w : World Table TodoEvent) (c : Option String) (p : Page Todo)
      → (get_all env k tenants tenant c limit w).0 ≡ ok p
      → length p.items ≤ limit
  unfolding get_all
  get_all-bounded limit w c p h =
      list_where-bounded env k todo_of (λ rows. rows) "query todos" (visible tenants tenant) c limit
        w p h

  -- A listing's response has at most 100 todos, whatever limit and cursor the request names and
  -- whatever the database answers.
  pub list_http-bounded :
      (w : World Table TodoEvent) (reply : Reply) (ts : List Todo)
      → (list_http is_production stack env k tenants tenant atoi cursor l w).0 ≡ ok reply
      → reply.payload.data_of ≡ some (todo_list ts)
      → length ts ≤ 100
  unfolding list_http
  list_http-bounded w reply ts h e =
      let limit = limit_of atoi l in
      let answer = (get_all env k tenants tenant (cursor_arg cursor) limit w).0 in
      let same : page_reply is_production stack limit answer ≡ reply = cc in
      answer-bounded answer ts (get_all-bounded limit w (cursor_arg cursor)) (rw (same) e)
