-- ===== src/Todo/Handlers.antt =====
-- internal/todo/interfaces/http/handlers.go. `id` is the path's identifier as uuid.Parse reads it,
-- `body` the body as the JSON decoder does; none stands for an error.
use go_codebase.Prelude.{ℕ, String, Bool, Option, some, List, str_eq, if◌then◌else◌}
use go_codebase.Cursor.{Codec}
use go_codebase.Core.Errors.{is, todo_not_found, todo_already_done, invalid_title}
use go_codebase.Core.Proc.{Result, ok, err, ◌>>=◌, return, attempt}
use go_codebase.Core.Runtime.{Env}
use go_codebase.Todo.Entity.{Todo}
use go_codebase.Todo.Repository.{Action, Matcher}
use go_codebase.Listing.{Page}
use go_codebase.Todo.Queries.{get_all, search_rows}
use go_codebase.Todo.Service.{
  TodoResponse, handle_create, handle_get, handle_update, handle_delete, handle_complete,
}
use go_codebase.Http.Requests.{limit_of, cursor_arg, identified_or, decoded, valid_or}
use go_codebase.Http.Response.{
  Response, respond_success, respond_cursor_paginated, respond_bad_request, respond_not_found,
  respond_conflict, error_text, handle, handle_created, map_error,
}

pub data TodoData : Type 0 where
  todo_response : TodoResponse → TodoData
  todo_list : List Todo → TodoData
  deleted_message : TodoData

abbrev pub Reply : Type 0
Reply = Response TodoData

pub record TodoRequest : Type 0 where
  pub title : String
  pub description : String

abbrev pub checked :
    Option TodoRequest → (TodoRequest → Option String) → (TodoRequest → Action Reply) → Action Reply
checked body invalid f = decoded body (λ b. valid_or (invalid b) (f b))

module _ (is_production : Bool) (stack : String) where
  abbrev pub created_reply : Result TodoResponse → Reply
  created_reply (ok t) = handle_created is_production stack (ok (todo_response t))
  created_reply (err e) =
      if is e invalid_title
      then respond_bad_request (error_text e)
      else handle_created is_production stack (err e)

  -- `errors.Is(err, service.ErrTodoNotFound)`
  abbrev pub found_reply : Result TodoResponse → Reply
  found_reply (ok t) = respond_success (some (todo_response t))
  found_reply (err e) =
      if is e todo_not_found
      then respond_not_found "todo not found"
      else handle is_production stack (err e)

  abbrev pub deleted_reply : Result (Unit {0}) → Reply
  deleted_reply (ok u) = respond_success (some deleted_message)
  deleted_reply (err e) =
      if is e todo_not_found
      then respond_not_found "todo not found"
      else handle is_production stack (err e)

  abbrev pub completed_reply : Result TodoResponse → Reply
  completed_reply (ok t) = respond_success (some (todo_response t))
  completed_reply (err e) =
      if is e todo_not_found
      then respond_not_found "todo not found"
      else if is e todo_already_done
      then respond_conflict "todo is already completed"
      else map_error is_production stack e

  abbrev pub page_reply : (limit : ℕ) → Result (Page Todo) → Reply
  page_reply limit (err e) = map_error is_production stack e
  page_reply limit (ok p) = respond_cursor_paginated (todo_list p.items) (record {
    next_cursor = p.next_cursor;
    prev_cursor = p.prev_cursor;
    has_next = p.has_next;
    has_prev = p.has_prev;
    limit = limit;
  })

module _ (is_production : Bool) (stack : String) (env : Env) where
  unfoldable pub create_http : Option TodoRequest → (TodoRequest → Option String) → Action Reply
  create_http body invalid = checked body invalid λ b. do
    r ← attempt (handle_create env b.title b.description)
    return (created_reply is_production stack r)

  unfoldable pub get_http : Option ℕ → Action Reply
  get_http id =
      identified_or "invalid todo ID" id
        λ i. do r ← attempt (handle_get env i); return (found_reply is_production stack r)

  unfoldable pub update_http :
      Option ℕ → Option TodoRequest → (TodoRequest → Option String) → Action Reply
  update_http id body invalid = identified_or "invalid todo ID" id λ i. checked body invalid λ b. do
    r ← attempt (handle_update env i b.title b.description)
    return (found_reply is_production stack r)

  unfoldable pub delete_http : Option ℕ → Action Reply
  delete_http id =
      identified_or "invalid todo ID" id
        λ i. do r ← attempt (handle_delete env i); return (deleted_reply is_production stack r)

  unfoldable pub complete_http : Option ℕ → Action Reply
  complete_http id =
      identified_or "invalid todo ID" id
        λ i. do r ← attempt (handle_complete env i); return (completed_reply is_production stack r)

  module _ (k : Codec) (tenants : Option Bool) (tenant : String) (atoi : String → Option ℕ) where
    unfoldable pub list_http : (cursor limit : String) → Action Reply
    unfolding limit_of
    list_http cursor limit = do
      r ← attempt (get_all env k tenants tenant (cursor_arg cursor) (limit_of atoi limit))
      return (page_reply is_production stack (limit_of atoi limit) r)

    unfoldable pub search_http : Matcher → (q cursor limit : String) → Action Reply
    unfolding limit_of
    search_http m q cursor limit =
        if str_eq q "" then return (respond_bad_request "search query is required") else do
          r ←
              attempt
                (search_rows env k tenants tenant m q (cursor_arg cursor) (limit_of atoi limit))
          return (page_reply is_production stack (limit_of atoi limit) r)
