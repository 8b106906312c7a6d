-- ===== src/Authz/Repositories.antt =====
-- The repositories of internal/authorization/infrastructure/persistence.
use go_codebase.Prelude.{
  ℕ, String, Bool, true, false, Option, none, some, List, map, ◌&&◌, ◌==◌, find, any, select,
}
use go_codebase.Cursor.{Codec}
use go_codebase.Core.Errors.{plain, wrap}
use go_codebase.Core.Proc.{Proc, ◌>>=◌, ◌>>◌, return, fail, on_error}
use go_codebase.Core.Runtime.{Env, World, round_trip, read_clock, read, exec}
use go_codebase.Listing.{scope, in_scope, Page, list_where}
use go_codebase.Authz.Entity.{Role, Permission, UserRole, RolePermission}
use go_codebase.Authz.Tables.{
  RoleRecord, PermissionRecord, Db, role_keyed, permission_keyed, live_role, live_permission,
  role_matches, permission_matches, role_record_of, permission_record_of, insert_role,
  insert_permission, update_role_row, update_permission_row, delete_role_row, delete_permission_row,
  role_by_name, permission_by_name, insert_user_role, delete_user_role, insert_role_permission,
  delete_role_permission, roles_of_user, permissions_of_role,
}

-- The module publishes no events.
abbrev pub State : Type 0 → Type 0
State M = World (Db M) (Unit {0})

abbrev pub Action : Type 0 → Type 0 → Type 0
Action M A = Proc (State M) A

unfoldable pub map_role_row_to_entity : RoleRecord → Role
map_role_row_to_entity r = record {
  entity = record {
    id = r.id;
    created_at = r.created_at;
    updated_at = r.updated_at;
    deleted_at = r.deleted_at;
  };
  name = r.name;
  description = r.description;
}

unfoldable pub map_permission_row_to_entity : PermissionRecord → Permission
map_permission_row_to_entity p = record {
  entity = record {
    id = p.id;
    created_at = p.created_at;
    updated_at = p.updated_at;
    deleted_at = p.deleted_at;
  };
  name = p.name;
  description = p.description;
  resource = p.resource;
  action = p.action;
}

module _ {M : Type 0} where
  abbrev pub role_found : Option RoleRecord → Action M Role
  role_found none = fail (plain "role not found")
  role_found (some r) = return (map_role_row_to_entity r)

  abbrev pub permission_found : Option PermissionRecord → Action M Permission
  permission_found none = fail (plain "permission not found")
  permission_found (some p) = return (map_permission_row_to_entity p)

  -- `if rows == 0`
  abbrev pub require_row : (message : String) → Bool → Action M (Unit {0})
  require_row message true = return tt
  require_row message false = fail (plain message)

module _ {M : Type 0} (env : Env) where
  unfoldable pub create_role_row : Role → Action M (Unit {0})
  unfolding insert_role
  create_role_row r = exec env "insert role" (insert_role (role_record_of r))

  unfoldable pub get_role_by_id : ℕ → Action M Role
  get_role_by_id id = do
    on_error (round_trip env) (wrap "get role")
    row ← read (λ db. find (role_matches id) db.roles)
    role_found row

  unfoldable pub get_role_by_name : String → Action M Role
  unfolding role_by_name
  get_role_by_name name = do
    on_error (round_trip env) (wrap "get role by name")
    row ← read (role_by_name name)
    role_found row

  unfoldable pub update_role_of : Role → Action M (Unit {0})
  unfolding update_role_row
  update_role_of r = do
    matched ← read (λ db. any (role_matches r.id) db.roles)
    exec env "update role" (update_role_row r)
    require_row "role not found" matched

  unfoldable pub delete_role_of : ℕ → Action M (Unit {0})
  unfolding delete_role_row
  delete_role_of id = do
    matched ← read (λ db. any (role_matches id) db.roles)
    now ← read_clock env
    exec env "delete role" (delete_role_row now id)
    require_row "role not found" matched

  unfoldable pub create_permission_row : Permission → Action M (Unit {0})
  unfolding insert_permission
  create_permission_row p =
      exec env "insert permission" (insert_permission (permission_record_of p))

  unfoldable pub get_permission_by_id : ℕ → Action M Permission
  get_permission_by_id id = do
    on_error (round_trip env) (wrap "get permission")
    row ← read (λ db. find (permission_matches id) db.permissions)
    permission_found row

  unfoldable pub get_permission_by_name : String → Action M Permission
  unfolding permission_by_name
  get_permission_by_name name = do
    on_error (round_trip env) (wrap "get permission by name")
    row ← read (permission_by_name name)
    permission_found row

  unfoldable pub update_permission_of : Permission → Action M (Unit {0})
  unfolding update_permission_row
  update_permission_of p = do
    matched ← read (λ db. any (permission_matches p.id) db.permissions)
    exec env "update permission" (update_permission_row p)
    require_row "permission not found" matched

  unfoldable pub delete_permission_of : ℕ → Action M (Unit {0})
  unfolding delete_permission_row
  delete_permission_of id = do
    matched ← read (λ db. any (permission_matches id) db.permissions)
    now ← read_clock env
    exec env "delete permission" (delete_permission_row now id)
    require_row "permission not found" matched

  unfoldable pub assign_user_role : UserRole → Action M (Unit {0})
  unfolding insert_user_role
  assign_user_role ur = exec env "assign role" (insert_user_role ur)

  unfoldable pub remove_user_role : (user_id role_id : ℕ) → Action M (Unit {0})
  unfolding delete_user_role
  remove_user_role user_id role_id = exec env "remove role" (delete_user_role user_id role_id)

  unfoldable pub get_by_user_id : ℕ → Action M (List UserRole)
  get_by_user_id user_id = do
    on_error (round_trip env) (wrap "get user roles")
    read (λ db. select (λ ur. ur.user_id == user_id) db.user_roles)

  unfoldable pub get_roles_by_user_id : ℕ → Action M (List Role)
  unfolding roles_of_user map_role_row_to_entity
  get_roles_by_user_id user_id = do
    on_error (round_trip env) (wrap "get roles by user")
    read (λ db. map map_role_row_to_entity (roles_of_user user_id db))

  unfoldable pub assign_role_permission : RolePermission → Action M (Unit {0})
  unfolding insert_role_permission
  assign_role_permission rp = exec env "assign permission" (insert_role_permission rp)

  unfoldable pub remove_role_permission : (role_id permission_id : ℕ) → Action M (Unit {0})
  unfolding delete_role_permission
  remove_role_permission role_id permission_id =
      exec env "remove permission" (delete_role_permission role_id permission_id)

  unfoldable pub get_by_role_id : ℕ → Action M (List RolePermission)
  get_by_role_id role_id = do
    on_error (round_trip env) (wrap "get role permissions")
    read (λ db. select (λ rp. rp.role_id == role_id) db.role_permissions)

  unfoldable pub get_permissions_by_role_id : ℕ → Action M (List Permission)
  unfolding permissions_of_role map_permission_row_to_entity
  get_permissions_by_role_id role_id = do
    on_error (round_trip env) (wrap "get permissions by role")
    read (λ db. map map_permission_row_to_entity (permissions_of_role role_id db))

  module _ (k : Codec) (tenants : Option Bool) (tenant : String) where
    unfoldable pub get_all_roles : Option String → (limit : ℕ) → Action M (Page Role)
    unfolding list_where map_role_row_to_entity
    get_all_roles cursor limit =
        list_where env k map_role_row_to_entity (λ db. db.roles) "query roles"
          (λ r. live_role r && in_scope (scope tenants tenant) r.tenant_id) cursor limit

    unfoldable pub get_all_permissions : Option String → (limit : ℕ) → Action M (Page Permission)
    unfolding list_where map_permission_row_to_entity
    get_all_permissions cursor limit =
        list_where env k map_permission_row_to_entity (λ db. db.permissions) "query permissions"
          (λ p. live_permission p && in_scope (scope tenants tenant) p.tenant_id) cursor limit
