-- ===== src/Http/Response.antt =====
-- internal/shared/utils/utils.go and handler.go: the response envelope and the mapping of errors to
-- it. A response is its status and its envelope; `D` is the type of the data.
use Prim.Native.String.{◌++◌ as append}
use go_codebase.Prelude.{
  ℕ, ◌+◌, ◌-◌, ◌/◌, String, Bool, true, false, ◌||◌, Option, none, some, str_eq, if◌then◌else◌,
}
use go_codebase.Core.Errors.{
  Sentinel, GoError, sentinel, plain, wrap, domain_error, is, not_found, already_exists, invalid_id,
  deleted, conflict, validation, forbidden, unauthorized, email_already_exists, user_not_found,
  invalid_refresh_token, account_disabled, email_not_verified, invalid_verify_token,
  verify_token_expired, invalid_reset_token, reset_token_expired, query_invalid_credentials,
  query_account_disabled, query_account_locked, query_email_not_verified, todo_not_found,
  todo_already_done, invalid_title,
}
use go_codebase.Core.Proc.{Result, ok, err}

-- The texts of the package variables.
abbrev pub sentinel_text : Sentinel → String
sentinel_text not_found = "entity not found"
sentinel_text already_exists = "entity already exists"
sentinel_text invalid_id = "invalid entity ID"
sentinel_text deleted = "entity is deleted"
sentinel_text conflict = "entity conflict"
sentinel_text validation = "validation failed"
sentinel_text forbidden = "forbidden"
sentinel_text unauthorized = "unauthorized"
sentinel_text email_already_exists = "email already exists"
sentinel_text user_not_found = "user not found"
sentinel_text invalid_refresh_token = "invalid or expired refresh token"
sentinel_text account_disabled = "account is disabled"
sentinel_text email_not_verified = "email not verified"
sentinel_text invalid_verify_token = "invalid or expired verification token"
sentinel_text verify_token_expired = "verification token expired"
sentinel_text invalid_reset_token = "invalid or expired reset token"
sentinel_text reset_token_expired = "reset token expired"
sentinel_text query_invalid_credentials = "invalid email or password"
sentinel_text query_account_disabled = "account is disabled"
sentinel_text query_account_locked = "account is temporarily locked"
sentinel_text query_email_not_verified = "email not verified"
sentinel_text todo_not_found = "todo not found"
sentinel_text todo_already_done = "todo is already completed"
sentinel_text invalid_title = "title is required"

-- `err.Error()`; `wrap` is `fmt.Errorf("label: %w", err)`.
unfoldable pub error_text : GoError → String
error_text (sentinel s) = sentinel_text s
error_text (plain text) = text
error_text (wrap label e) = append label (append ": " (error_text e))
error_text (domain_error e code message) =
    let inner = error_text e in if str_eq message "" then inner else message

pub record ErrorBody : Type 0 where
  pub code : String
  pub message : String

pub record CursorMeta : Type 0 where
  pub next_cursor : Option String
  pub prev_cursor : Option String
  pub has_next : Bool
  pub has_prev : Bool
  pub limit : ℕ

pub record PaginationMeta : Type 0 where
  pub page : ℕ
  pub per_page : ℕ
  pub total : ℕ
  pub total_pages : ℕ

pub data Meta : Type 0 where
  no_meta : Meta
  cursor_meta : CursorMeta → Meta
  pagination_meta : PaginationMeta → Meta

pub record ApiResponse (D : Type 0) : Type 0 where
  pub success : Bool
  pub data_of : Option D
  pub meta : Meta
  pub error : Option ErrorBody
  pub stack : String

pub record Response (D : Type 0) : Type 0 where
  pub status : ℕ
  pub payload : ApiResponse D

module _ {D : Type 0} where
  abbrev respond_ok : ℕ → Option D → Meta → Response D
  respond_ok status d meta = record {
    status = status;
    payload = record { success = true; data_of = d; meta = meta; error = none; stack = "" };
  }

  unfoldable pub respond_success : Option D → Response D
  respond_success d = respond_ok 200 d no_meta

  unfoldable pub respond_created : D → Response D
  respond_created d = respond_ok 201 (some d) no_meta

  -- The page count in Go's `int`, for a positive page size.
  unfoldable pub respond_paginated : D → (page per_page total : ℕ) → Response D
  respond_paginated d page per_page total = respond_ok 200 (some d) (
      pagination_meta (record {
        page = page;
        per_page = per_page;
        total = total;
        total_pages = (total + per_page - 1) / per_page;
      }))

  unfoldable pub respond_cursor_paginated : D → CursorMeta → Response D
  respond_cursor_paginated d meta = respond_ok 200 (some d) (cursor_meta meta)

  unfoldable pub respond_error : (status : ℕ) (code message : String) → Response D
  respond_error status code message = record {
    status = status;
    payload = record {
      success = false;
      data_of = none;
      meta = no_meta;
      error = some (record { code = code; message = message });
      stack = "";
    };
  }

  abbrev pub respond_bad_request : String → Response D
  respond_bad_request message = respond_error 400 "VALIDATION_ERROR" message

  abbrev pub respond_unauthorized : String → Response D
  respond_unauthorized message = respond_error 401 "UNAUTHORIZED" message

  abbrev pub respond_forbidden : (code message : String) → Response D
  respond_forbidden code message = respond_error 403 code message

  abbrev pub respond_not_found : String → Response D
  respond_not_found message = respond_error 404 "NOT_FOUND" message

  abbrev pub respond_conflict : String → Response D
  respond_conflict message = respond_error 409 "CONFLICT" message

  abbrev pub respond_internal_error : String → Response D
  respond_internal_error message = respond_error 500 "INTERNAL_ERROR" message

  -- `stack` is the text of the request's ErrorInfo.
  unfoldable pub respond_internal_error_from_request :
      (is_production : Bool) (stack message : String) → Response D
  unfolding respond_error
  respond_internal_error_from_request true stack message =
      respond_internal_error "internal server error"
  respond_internal_error_from_request false stack message =
      let r = respond_internal_error message in
      record r { payload = record r.payload { stack = stack } }

  -- The arms of the `switch`; `stack` is `debug.Stack()`.
  unfoldable pub map_error : (is_production : Bool) (stack : String) → GoError → Response D
  unfolding error_text respond_internal_error_from_request
  map_error is_production stack e =
      if is e not_found
      then respond_not_found (error_text e)
      else if is e already_exists || is e conflict
      then respond_conflict (error_text e)
      else if is e validation
      then respond_bad_request (error_text e)
      else if is e forbidden
      then respond_forbidden "FORBIDDEN" (error_text e)
      else if is e unauthorized
      then respond_unauthorized (error_text e)
      else respond_internal_error_from_request is_production stack
          (if is_production then "internal server error" else error_text e)

  unfoldable pub handle : (is_production : Bool) (stack : String) → Result D → Response D
  unfolding map_error respond_success
  handle is_production stack (ok d) = respond_success (some d)
  handle is_production stack (err e) = map_error is_production stack e

  unfoldable pub handle_created : (is_production : Bool) (stack : String) → Result D → Response D
  unfolding map_error respond_created
  handle_created is_production stack (ok d) = respond_created d
  handle_created is_production stack (err e) = map_error is_production stack e

  -- `HandleNoContent`: no data, or the error's response.
  unfoldable pub handle_no_content :
      (is_production : Bool) (stack : String) → Result (Unit {0}) → Response D
  unfolding map_error respond_success
  handle_no_content is_production stack (ok u) = respond_success none
  handle_no_content is_production stack (err e) = map_error is_production stack e

  unfoldable pub handle_paginated :
      (is_production : Bool) (stack : String) → (page per_page total : ℕ) → Result D → Response D
  unfolding map_error respond_paginated
  handle_paginated is_production stack page per_page total (ok d) =
      respond_paginated d page per_page total
  handle_paginated is_production stack page per_page total (err e) = map_error is_production stack e

  unfoldable pub handle_cursor_paginated :
      (is_production : Bool) (stack : String) → CursorMeta → Result D → Response D
  unfolding map_error respond_cursor_paginated
  handle_cursor_paginated is_production stack meta (ok d) = respond_cursor_paginated d meta
  handle_cursor_paginated is_production stack meta (err e) = map_error is_production stack e
