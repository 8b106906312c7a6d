-- ===== src/User/Handlers.antt =====
-- internal/user/interfaces/http/handler.go. The times of a response are written by `format`.
use go_codebase.Prelude.{ℕ, String, Bool, true, Option, some, List, [], map, or_else}
use go_codebase.Cursor.{Codec}
use go_codebase.Core.Proc.{Result, ok, err, ◌>>=◌, return, attempt}
use go_codebase.Core.Runtime.{Env}
use go_codebase.Listing.{Page}
use go_codebase.Auth.Entity.{User}
use go_codebase.User.Repository.{Action, get_by_id, list}
use go_codebase.User.Commands.{create_user, update_user, delete_user}
use go_codebase.Http.Requests.{limit_of, cursor_arg, identified_or, decoded}
use go_codebase.Http.Response.{
  Response, respond_success, respond_cursor_paginated, handle, handle_created, map_error,
}

pub record UserResponse : Type 0 where
  pub id : String
  pub email : String
  pub name : String
  pub roles : List String
  pub is_active : Bool
  pub created_at : String
  pub updated_at : String

pub record CreateUserRequest : Type 0 where
  pub email : String
  pub name : String
  pub is_active : Bool

pub record UpdateUserRequest : Type 0 where
  pub name : String
  pub email : String
  pub is_active : Option Bool

pub data UserData : Type 0 where
  user_data : UserResponse → UserData
  user_list : List UserResponse → UserData
  deleted_message : UserData

abbrev pub Reply : Type 0
Reply = Response UserData

module _ (uuid_text format : ℕ → String) where
  unfoldable pub user_to_response : User → UserResponse
  user_to_response u = record {
    id = uuid_text u.id;
    email = u.email;
    name = u.name;
    roles = [];
    is_active = u.is_active;
    created_at = format u.created_at;
    updated_at = format u.updated_at;
  }

module _ (is_production : Bool) (stack : String) (uuid_text format : ℕ → String) where
  abbrev created_reply : Result User → Reply
  created_reply (ok u) =
      handle_created is_production stack (ok (user_data (user_to_response uuid_text format u)))
  created_reply (err e) = handle is_production stack (err e)

  abbrev user_reply : Result User → Reply
  user_reply (ok u) = respond_success (some (user_data (user_to_response uuid_text format u)))
  user_reply (err e) = handle is_production stack (err e)

  abbrev deleted_reply : Result (Unit {0}) → Reply
  deleted_reply (ok u) = handle is_production stack (ok deleted_message)
  deleted_reply (err e) = handle is_production stack (err e)

  abbrev page_reply : (limit : ℕ) → Result (Page User) → Reply
  page_reply limit (err e) = map_error is_production stack e
  page_reply limit (ok p) =
      respond_cursor_paginated (user_list (map (user_to_response uuid_text format) p.items))
        (record {
          next_cursor = p.next_cursor;
          prev_cursor = p.prev_cursor;
          has_next = p.has_next;
          has_prev = p.has_prev;
          limit = limit;
        })

module _ (is_production : Bool) (stack : String) (env : Env) (uuid_text format : ℕ → String) where
  unfoldable pub list_users_http :
      (k : Codec) (tenants : Option Bool) (tenant : String) (atoi : String → Option ℕ)
      (cursor limit : String)
      → Action Reply
  unfolding limit_of
  list_users_http k tenants tenant atoi cursor limit = do
    r ← attempt (list env k tenants tenant (cursor_arg cursor) (limit_of atoi limit))
    return (page_reply is_production stack uuid_text format (limit_of atoi limit) r)

  unfoldable pub create_user_http : Option CreateUserRequest → Action Reply
  create_user_http body = decoded body λ b. do
    r ← attempt (create_user env b.email b.name b.is_active)
    return (created_reply is_production stack uuid_text format r)

  unfoldable pub get_user_http : Option ℕ → Action Reply
  get_user_http id = identified_or "invalid user ID" id λ i. do
    r ← attempt (get_by_id env i)
    return (user_reply is_production stack uuid_text format r)

  unfoldable pub update_user_http : Option ℕ → Option UpdateUserRequest → Action Reply
  update_user_http id body = identified_or "invalid user ID" id λ i. decoded body λ b. do
    r ← attempt (update_user env i b.name b.email (or_else b.is_active true))
    return (user_reply is_production stack uuid_text format r)

  unfoldable pub delete_user_http : Option ℕ → Action Reply
  delete_user_http id = identified_or "invalid user ID" id λ i. do
    r ← attempt (delete_user env i)
    return (deleted_reply is_production stack uuid_text format r)
