-- ===== src/Authz/Commands.antt =====
-- internal/authorization/application: the command and query handlers, and the provider.
use go_codebase.Prelude.{ℕ, String, Bool, Option, none, some, List, map, str_eq, if◌then◌else◌}
use go_codebase.Core.Errors.{sentinel, conflict, plain}
use go_codebase.Core.Proc.{Result, ok, err, ◌>>=◌, ◌>>◌, return, fail, attempt}
use go_codebase.Core.Runtime.{Env, read_clock, new_uuid, read}
use go_codebase.Core.Entity.{touch}
use go_codebase.Authz.Entity.{
  Role, Permission, new_role, new_permission, new_user_role, new_role_permission,
}
use go_codebase.Authz.Repositories.{
  Action, create_role_row, get_role_by_id, get_role_by_name, update_role_of, delete_role_of,
  create_permission_row, get_permission_by_id, get_permission_by_name, update_permission_of,
  delete_permission_of, assign_user_role, remove_user_role, get_roles_by_user_id,
  assign_role_permission, remove_role_permission,
}
use go_codebase.Authz.Casbin.{Casbin}
use go_codebase.Authz.Policy.{reload_policies, reload_user_policies, enforce}

pub record PermissionFields : Type 0 where
  pub name : String
  pub description : String
  pub resource : String
  pub action : String

-- `if c.Name != "" { role.Name = c.Name }`
abbrev given : (new old : String) → String
given new old = if str_eq new "" then old else new

unfoldable pub renamed_role : (now : ℕ) (name description : String) → Role → Role
unfolding touch
renamed_role now name description r = record r {
  name = given name r.name;
  description = given description r.description;
  entity = touch now r.entity;
}

unfoldable pub changed_permission : (now : ℕ) → PermissionFields → Permission → Permission
unfolding touch
changed_permission now f p = record p {
  name = given f.name p.name;
  description = given f.description p.description;
  resource = given f.resource p.resource;
  action = given f.action p.action;
  entity = touch now p.entity;
}

module _ {M : Type 0} (env : Env) where
  -- `existing, _ := repo.GetByName(…)`, and on if there is none
  abbrev pub create_role_if : Result Role → (name description : String) → Action M Role
  create_role_if (ok existing) name description = fail (sentinel conflict)
  create_role_if (err e) name description = do
    id ← new_uuid env
    now ← read_clock env
    create_role_row env (new_role id now name description)
    return (new_role id now name description)

  unfoldable pub create_role : (name description : String) → Action M Role
  unfolding get_role_by_name create_role_row new_role
  create_role name description = do
    existing ← attempt (get_role_by_name env name)
    create_role_if existing name description

  unfoldable pub update_role : (id : ℕ) (name description : String) → Action M Role
  unfolding get_role_by_id update_role_of renamed_role
  update_role id name description = do
    role ← get_role_by_id env id
    now ← read_clock env
    update_role_of env (renamed_role now name description role)
    return (renamed_role now name description role)

  unfoldable pub delete_role : ℕ → Action M (Unit {0})
  unfolding delete_role_of
  delete_role id = delete_role_of env id

  abbrev pub create_permission_if : Result Permission → PermissionFields → Action M Permission
  create_permission_if (ok existing) f = fail (sentinel conflict)
  create_permission_if (err e) f = do
    id ← new_uuid env
    now ← read_clock env
    create_permission_row env (new_permission id now f.name f.description f.resource f.action)
    return (new_permission id now f.name f.description f.resource f.action)

  unfoldable pub create_permission : PermissionFields → Action M Permission
  unfolding get_permission_by_name create_permission_row new_permission
  create_permission f = do
    existing ← attempt (get_permission_by_name env f.name)
    create_permission_if existing f

  unfoldable pub update_permission : ℕ → PermissionFields → Action M Permission
  unfolding get_permission_by_id update_permission_of changed_permission
  update_permission id f = do
    perm ← get_permission_by_id env id
    now ← read_clock env
    update_permission_of env (changed_permission now f perm)
    return (changed_permission now f perm)

  unfoldable pub delete_permission : ℕ → Action M (Unit {0})
  unfolding delete_permission_of
  delete_permission id = delete_permission_of env id

  -- The provider's GetUserRoles.
  unfoldable pub role_names : ℕ → Action M (List String)
  unfolding get_roles_by_user_id
  role_names user_id = do roles ← get_roles_by_user_id env user_id; return (map (λ r. r.name) roles)

module _ {M : Type 0} (env : Env) (c : Casbin M) where
  unfoldable pub assign_role : (user_id role_id : ℕ) → Action M (Unit {0})
  unfolding get_role_by_id assign_user_role reload_user_policies
  assign_role user_id role_id = do
    get_role_by_id env role_id
    assign_user_role env (new_user_role user_id role_id)
    reload_user_policies env c user_id

  unfoldable pub unassign_role : (user_id role_id : ℕ) → Action M (Unit {0})
  unfolding remove_user_role reload_user_policies
  unassign_role user_id role_id = do
    remove_user_role env user_id role_id
    reload_user_policies env c user_id

  unfoldable pub assign_permission : (role_id permission_id : ℕ) → Action M (Unit {0})
  unfolding get_role_by_id get_permission_by_id assign_role_permission reload_policies
  assign_permission role_id permission_id = do
    get_role_by_id env role_id
    get_permission_by_id env permission_id
    assign_role_permission env (new_role_permission role_id permission_id)
    reload_policies env c

  unfoldable pub unassign_permission : (role_id permission_id : ℕ) → Action M (Unit {0})
  unfolding remove_role_permission reload_policies
  unassign_permission role_id permission_id = do
    remove_role_permission env role_id permission_id
    reload_policies env c

  -- `enforcer.Enforce`, whose error is casbin's
  abbrev pub decision : Option Bool → Action M Bool
  decision none = fail (plain "enforce")
  decision (some b) = return b

  unfoldable pub check_permission : (user_id : ℕ) (resource action : String) → Action M Bool
  unfolding enforce
  check_permission user_id resource action = do
    d ← read (enforce c user_id resource action)
    decision d
