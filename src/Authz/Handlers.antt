-- ===== src/Authz/Handlers.antt =====
-- internal/authorization/interfaces/http/handlers.go.
use go_codebase.Prelude.{ℕ, String, Bool, Option, List, str_eq, if◌then◌else◌}
use go_codebase.Cursor.{Codec}
use go_codebase.Core.Proc.{Result, ok, err, ◌>>=◌, return, attempt}
use go_codebase.Core.Runtime.{Env}
use go_codebase.Listing.{Page}
use go_codebase.Authz.Entity.{Role, Permission}
use go_codebase.Authz.Repositories.{
  Action, get_role_by_id, get_permission_by_id, get_all_roles, get_all_permissions,
  get_roles_by_user_id, get_permissions_by_role_id,
}
use go_codebase.Authz.Casbin.{Casbin}
use go_codebase.Authz.Commands.{
  PermissionFields, create_role, update_role, delete_role, create_permission, update_permission,
  delete_permission, assign_role, unassign_role, assign_permission, unassign_permission,
  check_permission,
}
use go_codebase.Http.Requests.{limit_of, cursor_arg, identified_or, decoded, valid_or}
use go_codebase.Http.Response.{
  Response, respond_cursor_paginated, respond_error, error_text, handle, handle_created,
  handle_no_content,
}

pub data AuthzData : Type 0 where
  role_data : Role → AuthzData
  role_list : List Role → AuthzData
  permission_data : Permission → AuthzData
  permission_list : List Permission → AuthzData
  allowed_data : (allowed : Bool) → AuthzData

abbrev pub Reply : Type 0
Reply = Response AuthzData

pub record RoleRequest : Type 0 where
  pub name : String
  pub description : String

pub record AssignRoleRequest : Type 0 where
  pub user_id : ℕ
  pub role_id : ℕ

pub record AssignPermissionRequest : Type 0 where
  pub role_id : ℕ
  pub permission_id : ℕ

pub record CheckPermissionRequest : Type 0 where
  pub resource : String
  pub action : String

abbrev mapped_data : {A : Type 0} → (A → AuthzData) → Result A → Result AuthzData
mapped_data f (ok a) = ok (f a)
mapped_data f (err e) = err e

-- The listings answer every error with status 500.
abbrev page_reply : {A : Type 0} → (List A → AuthzData) → (limit : ℕ) → Result (Page A) → Reply
page_reply f limit (err e) = respond_error 500 "INTERNAL_ERROR" (error_text e)
page_reply f limit (ok p) = respond_cursor_paginated (f p.items) (record {
  next_cursor = p.next_cursor;
  prev_cursor = p.prev_cursor;
  has_next = p.has_next;
  has_prev = p.has_prev;
  limit = limit;
})

-- `allowed, _ := resp.(bool)`: false beside an error, which then decides the response.
abbrev allowed_reply : Result Bool → Result AuthzData
allowed_reply r = mapped_data allowed_data r

module _ {M : Type 0} (is_production : Bool) (stack : String) (env : Env) where
  abbrev answered : {A : Type 0} → (A → AuthzData) → Action M A → Action M Reply
  answered f m = do r ← attempt m; return (handle is_production stack (mapped_data f r))

  abbrev answered_created : {A : Type 0} → (A → AuthzData) → Action M A → Action M Reply
  answered_created f m = do
    r ← attempt m
    return (handle_created is_production stack (mapped_data f r))

  abbrev answered_empty : Action M (Unit {0}) → Action M Reply
  answered_empty m = do r ← attempt m; return (handle_no_content is_production stack r)

  unfoldable pub create_role_http :
      Option RoleRequest → (RoleRequest → Option String) → Action M Reply
  create_role_http body invalid =
      decoded body λ b.
        valid_or (invalid b) (answered_created role_data (create_role env b.name b.description))

  unfoldable pub get_role_http : Option ℕ → Action M Reply
  get_role_http id =
      identified_or "invalid role ID" id λ i. answered role_data (get_role_by_id env i)

  unfoldable pub update_role_http : Option ℕ → Option RoleRequest → Action M Reply
  update_role_http id body =
      identified_or "invalid role ID" id
        λ i. decoded body λ b. answered role_data (update_role env i b.name b.description)

  unfoldable pub delete_role_http : Option ℕ → Action M Reply
  delete_role_http id = identified_or "invalid role ID" id λ i. answered_empty (delete_role env i)

  unfoldable pub create_permission_http :
      Option PermissionFields → (PermissionFields → Option String) → Action M Reply
  create_permission_http body invalid =
      decoded body
        λ b. valid_or (invalid b) (answered_created permission_data (create_permission env b))

  unfoldable pub get_permission_http : Option ℕ → Action M Reply
  get_permission_http id =
      identified_or "invalid permission ID" id
        λ i. answered permission_data (get_permission_by_id env i)

  unfoldable pub update_permission_http : Option ℕ → Option PermissionFields → Action M Reply
  update_permission_http id body =
      identified_or "invalid permission ID" id
        λ i. decoded body λ b. answered permission_data (update_permission env i b)

  unfoldable pub delete_permission_http : Option ℕ → Action M Reply
  delete_permission_http id =
      identified_or "invalid permission ID" id λ i. answered_empty (delete_permission env i)

  unfoldable pub get_user_roles_http : Option ℕ → Action M Reply
  get_user_roles_http user_id =
      identified_or "invalid user ID" user_id λ u. answered role_list (get_roles_by_user_id env u)

  unfoldable pub get_role_permissions_http : Option ℕ → Action M Reply
  get_role_permissions_http role_id =
      identified_or "invalid role ID" role_id
        λ r. answered permission_list (get_permissions_by_role_id env r)

  module _ (k : Codec) (tenants : Option Bool) (tenant : String) (atoi : String → Option ℕ) where
    unfoldable pub list_roles_http : (cursor limit : String) → Action M Reply
    unfolding limit_of
    list_roles_http cursor limit = do
      r ← attempt (get_all_roles env k tenants tenant (cursor_arg cursor) (limit_of atoi limit))
      return (page_reply role_list (limit_of atoi limit) r)

    unfoldable pub list_permissions_http : (cursor limit : String) → Action M Reply
    unfolding limit_of
    list_permissions_http cursor limit = do
      r ←
          attempt
            (get_all_permissions env k tenants tenant (cursor_arg cursor) (limit_of atoi limit))
      return (page_reply permission_list (limit_of atoi limit) r)

  module _ (c : Casbin M) where
    unfoldable pub assign_role_http :
        Option AssignRoleRequest → (AssignRoleRequest → Option String) → Action M Reply
    assign_role_http body invalid =
        decoded body
          λ b. valid_or (invalid b) (answered_empty (assign_role env c b.user_id b.role_id))

    unfoldable pub remove_role_http : (user_id role_id : Option ℕ) → Action M Reply
    remove_role_http user_id role_id =
        identified_or "invalid user ID" user_id
          λ u. identified_or "invalid role ID" role_id λ r. answered_empty (unassign_role env c u r)

    unfoldable pub assign_permission_http :
        Option AssignPermissionRequest → (AssignPermissionRequest → Option String) → Action M Reply
    assign_permission_http body invalid = decoded body λ b.
        valid_or (invalid b) (answered_empty (assign_permission env c b.role_id b.permission_id))

    unfoldable pub remove_permission_http : (role_id permission_id : Option ℕ) → Action M Reply
    remove_permission_http role_id permission_id = identified_or "invalid role ID" role_id λ r.
        identified_or "invalid permission ID" permission_id
          λ p. answered_empty (unassign_permission env c r p)

    -- `context_user` is the user of the request's context, `parse` is uuid.Parse.
    unfoldable pub check_permission_http :
        (parse : String → Option ℕ) (context_user : String)
        → Option CheckPermissionRequest
        → (CheckPermissionRequest → Option String)
        → Action M Reply
    check_permission_http parse context_user body invalid =
        if str_eq context_user ""
        then return (respond_error 401 "UNAUTHORIZED" "user not authenticated")
        else identified_or "invalid user ID" (parse context_user) λ u. decoded body λ b.
          valid_or (invalid b) (do
            r ← attempt (check_permission env c u b.resource b.action)
            return (handle is_production stack (allowed_reply r)))
