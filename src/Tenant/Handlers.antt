-- ===== src/Tenant/Handlers.antt =====
-- internal/tenant/interfaces/http/handlers.go.
use go_codebase.Prelude.{ℕ, String, Bool, Option, List, if◌then◌else◌}
use go_codebase.Cursor.{Codec}
use go_codebase.Core.Errors.{is, not_found, already_exists}
use go_codebase.Core.Proc.{Result, ok, err, ◌>>=◌, return, attempt}
use go_codebase.Core.Runtime.{Env}
use go_codebase.Listing.{Page}
use go_codebase.Tenant.Repository.{Action}
use go_codebase.Tenant.Commands.{
  Format, TenantResponse, CreateTenantCommand, UpdateTenantCommand, create_tenant, update_tenant,
  delete_tenant, get_tenant, list_tenants,
}
use go_codebase.Http.Requests.{limit_of, cursor_arg, identified_or, decoded, valid_or}
use go_codebase.Http.Response.{
  Response, respond_cursor_paginated, respond_conflict, respond_not_found, error_text, handle,
  handle_created, handle_no_content, map_error,
}

pub data TenantData : Type 0 where
  tenant_data : TenantResponse → TenantData
  tenant_list : List TenantResponse → TenantData

abbrev pub Reply : Type 0
Reply = Response TenantData

abbrev mapped_data : Result TenantResponse → Result TenantData
mapped_data (ok t) = ok (tenant_data t)
mapped_data (err e) = err e

module _ (is_production : Bool) (stack : String) where
  abbrev created_reply : Result TenantResponse → Reply
  created_reply (ok t) = handle_created is_production stack (ok (tenant_data t))
  created_reply (err e) =
      if is e already_exists
      then respond_conflict (error_text e)
      else handle_created is_production stack (err e)

  abbrev pub found_reply : Result TenantResponse → Reply
  found_reply (ok t) = handle is_production stack (ok (tenant_data t))
  found_reply (err e) =
      if is e not_found
      then respond_not_found "tenant not found"
      else handle is_production stack (err e)

  abbrev deleted_reply : Result (Unit {0}) → Reply
  deleted_reply (ok u) = handle_no_content is_production stack (ok u)
  deleted_reply (err e) =
      if is e not_found
      then respond_not_found "tenant not found"
      else handle_no_content is_production stack (err e)

  abbrev page_reply : (limit : ℕ) → Result (Page TenantResponse) → Reply
  page_reply limit (err e) = map_error is_production stack e
  page_reply limit (ok p) = respond_cursor_paginated (tenant_list p.items) (record {
    next_cursor = p.next_cursor;
    prev_cursor = p.prev_cursor;
    has_next = p.has_next;
    has_prev = p.has_prev;
    limit = limit;
  })

module _ (is_production : Bool) (stack : String) (env : Env) (f : Format) where
  unfoldable pub get_tenant_http : Option ℕ → Action Reply
  get_tenant_http id =
      identified_or "invalid tenant ID" id
        λ i. do r ← attempt (get_tenant env f i); return (found_reply is_production stack r)

  unfoldable pub delete_tenant_http : Option ℕ → Action Reply
  delete_tenant_http id =
      identified_or "invalid tenant ID" id
        λ i. do r ← attempt (delete_tenant env i); return (deleted_reply is_production stack r)

  unfoldable pub list_tenants_http :
      (k : Codec) (atoi : String → Option ℕ) (cursor limit : String) → Action Reply
  list_tenants_http k atoi cursor limit = do
    r ← attempt (list_tenants env f k (cursor_arg cursor) (limit_of atoi limit))
    return (page_reply is_production stack (limit_of atoi limit) r)

  module _ (jsonb : String → Option String) where
    unfoldable pub create_tenant_http :
        Option CreateTenantCommand → (CreateTenantCommand → Option String) → Action Reply
    create_tenant_http body invalid = decoded body λ b.
        valid_or (invalid b) (do
          r ← attempt (create_tenant env jsonb f b)
          return (created_reply is_production stack r))

    unfoldable pub update_tenant_http : Option ℕ → Option UpdateTenantCommand → Action Reply
    update_tenant_http id body = identified_or "invalid tenant ID" id λ i. decoded body λ b. do
      r ← attempt (update_tenant env jsonb f i b)
      return (found_reply is_production stack r)
