-- ===== src/Authz/Tables.antt =====
-- The tables of migrations 002, 009 and 010, the policy that the enforcer has in memory, and the
-- statements of internal/authorization/infrastructure/persistence/sqlc as functions on them. A
-- statement that breaks a key gives none. Columns that no statement reads are left out.
use go_codebase.Prelude.{
  ℕ, String, Bool, not, ◌&&◌, ◌||◌, Option, none, some, List, [], ◌∷◌, ◌++◌, ltb, ◌==◌,
  if◌then◌else◌, is_some, find, any, select, update_where, str_eq,
}
use go_codebase.Listing.{Keyed}
use go_codebase.Authz.Entity.{Role, Permission, UserRole, RolePermission}

pub record RoleRecord : Type 0 where
  pub id : ℕ
  pub name : String
  pub description : String
  pub created_at : ℕ
  pub updated_at : ℕ
  pub deleted_at : Option ℕ
  pub tenant_id : String

instance abbrev pub role_keyed : Keyed RoleRecord
role_keyed = record { id_of = λ r. r.id; created_of = λ r. r.created_at }

pub record PermissionRecord : Type 0 where
  pub id : ℕ
  pub name : String
  pub description : String
  pub resource : String
  pub action : String
  pub created_at : ℕ
  pub updated_at : ℕ
  pub deleted_at : Option ℕ
  pub tenant_id : String

instance abbrev pub permission_keyed : Keyed PermissionRecord
permission_keyed = record { id_of = λ r. r.id; created_of = λ r. r.created_at }

-- A row of casbin_rule. Its columns admit NULL, but no statement writes one.
pub record CasbinRule : Type 0 where
  pub ptype : String
  pub v0 : String
  pub v1 : String
  pub v2 : String
  pub v3 : String
  pub v4 : String
  pub v5 : String

-- `M` is casbin's type of a model with its policy.
pub record Db (M : Type 0) : Type 0 where
  pub roles : List RoleRecord
  pub permissions : List PermissionRecord
  pub user_roles : List UserRole
  pub role_permissions : List RolePermission
  pub casbin_rule : List CasbinRule
  pub model : M

-- `deleted_at IS NULL`
abbrev pub live_role : RoleRecord → Bool
live_role r = not (is_some r.deleted_at)

abbrev pub live_permission : PermissionRecord → Bool
live_permission p = not (is_some p.deleted_at)

abbrev pub role_matches : ℕ → RoleRecord → Bool
role_matches id r = r.id == id && live_role r

abbrev pub permission_matches : ℕ → PermissionRecord → Bool
permission_matches id p = p.id == id && live_permission p

-- The statements name no tenant, so the column gets its default, the empty text.
abbrev pub role_record_of : Role → RoleRecord
role_record_of r = record {
  id = r.id;
  name = r.name;
  description = r.description;
  created_at = r.created_at;
  updated_at = r.updated_at;
  deleted_at = none;
  tenant_id = "";
}

abbrev pub permission_record_of : Permission → PermissionRecord
permission_record_of p = record {
  id = p.id;
  name = p.name;
  description = p.description;
  resource = p.resource;
  action = p.action;
  created_at = p.created_at;
  updated_at = p.updated_at;
  deleted_at = none;
  tenant_id = "";
}

abbrev pub revised_role : Role → RoleRecord → RoleRecord
revised_role r o = record o {
  name = r.name;
  description = r.description;
  updated_at = r.updated_at;
}

abbrev pub revised_permission : Permission → PermissionRecord → PermissionRecord
revised_permission p o = record o {
  name = p.name;
  description = p.description;
  resource = p.resource;
  action = p.action;
  updated_at = p.updated_at;
}

-- `ORDER BY created_at DESC`. Where two times are equal the database may take either order; here
-- it is that of the table.
module _ {R : Type 0} ⦃key : Keyed R⦄ where
  abbrev insert_latest : R → List R → List R
  insert_latest r [] = r ∷ []
  insert_latest r (x ∷ xs) =
      let rest = insert_latest r xs in
      if ltb (key.created_of r) (key.created_of x) then x ∷ rest else r ∷ x ∷ xs

  abbrev pub latest_first : List R → List R
  latest_first [] = []
  latest_first (x ∷ xs) = insert_latest x (latest_first xs)

abbrev pub same_user_role : (user_id role_id : ℕ) → UserRole → Bool
same_user_role user_id role_id o = o.user_id == user_id && o.role_id == role_id

abbrev pub same_role_permission : (role_id permission_id : ℕ) → RolePermission → Bool
same_role_permission role_id permission_id o =
    o.role_id == role_id && o.permission_id == permission_id

module _ {M : Type 0} where
  -- `id` and `name` are unique, among deleted rows too.
  unfoldable pub insert_role : RoleRecord → Db M → Option (Db M)
  insert_role r db =
      if any (λ o. o.id == r.id || str_eq o.name r.name) db.roles
      then none
      else some (record db { roles = db.roles ++ r ∷ [] })

  unfoldable pub insert_permission : PermissionRecord → Db M → Option (Db M)
  insert_permission p db =
      if any (λ o. o.id == p.id || str_eq o.name p.name) db.permissions
      then none
      else some (record db { permissions = db.permissions ++ p ∷ [] })

  unfoldable pub update_role_row : Role → Db M → Option (Db M)
  update_role_row r db =
      if any (role_matches r.id) db.roles
        && any (λ o. not (o.id == r.id) && str_eq o.name r.name) db.roles
      then none
      else some (record db { roles = update_where (role_matches r.id) (revised_role r) db.roles })

  unfoldable pub update_permission_row : Permission → Db M → Option (Db M)
  update_permission_row p db =
      if any (permission_matches p.id) db.permissions
        && any (λ o. not (o.id == p.id) && str_eq o.name p.name) db.permissions
      then none
      else some (record db {
        permissions = update_where (permission_matches p.id) (revised_permission p) db.permissions;
      })

  unfoldable pub delete_role_row : (now id : ℕ) → Db M → Option (Db M)
  delete_role_row now id db = some (record db {
    roles =
        update_where (role_matches id) (λ r. record r { deleted_at = some now; updated_at = now })
          db.roles;
  })

  unfoldable pub delete_permission_row : (now id : ℕ) → Db M → Option (Db M)
  delete_permission_row now id db = some (record db {
    permissions =
        update_where (permission_matches id)
          (λ p. record p { deleted_at = some now; updated_at = now }) db.permissions;
  })

  unfoldable pub role_by_name : String → Db M → Option RoleRecord
  role_by_name name db = find (λ r. str_eq r.name name && live_role r) db.roles

  unfoldable pub permission_by_name : String → Db M → Option PermissionRecord
  permission_by_name name db = find (λ p. str_eq p.name name && live_permission p) db.permissions

  -- `ON CONFLICT DO NOTHING`; a missing role breaks the foreign key.
  unfoldable pub insert_user_role : UserRole → Db M → Option (Db M)
  insert_user_role ur db =
      if any (same_user_role ur.user_id ur.role_id) db.user_roles
      then some db
      else if any (λ r. r.id == ur.role_id) db.roles
      then some (record db { user_roles = db.user_roles ++ ur ∷ [] })
      else none

  unfoldable pub delete_user_role : (user_id role_id : ℕ) → Db M → Option (Db M)
  delete_user_role user_id role_id db = some (record db {
    user_roles = select (λ o. not (same_user_role user_id role_id o)) db.user_roles;
  })

  unfoldable pub insert_role_permission : RolePermission → Db M → Option (Db M)
  insert_role_permission rp db =
      if any (same_role_permission rp.role_id rp.permission_id) db.role_permissions
      then some db
      else if any (λ r. r.id == rp.role_id) db.roles
          && any (λ p. p.id == rp.permission_id) db.permissions
      then some (record db { role_permissions = db.role_permissions ++ rp ∷ [] })
      else none

  unfoldable pub delete_role_permission : (role_id permission_id : ℕ) → Db M → Option (Db M)
  delete_role_permission role_id permission_id db = some (record db {
    role_permissions =
        select (λ o. not (same_role_permission role_id permission_id o)) db.role_permissions;
  })

  -- `JOIN user_roles ur ON r.id = ur.role_id WHERE ur.user_id = $1 AND r.deleted_at IS NULL`; the
  -- pairs of user_roles are unique, so a role joins at most once.
  unfoldable pub roles_of_user : (user_id : ℕ) → Db M → List RoleRecord
  roles_of_user user_id db =
      latest_first
        (select (λ r. any (same_user_role user_id r.id) db.user_roles && live_role r) db.roles)

  unfoldable pub permissions_of_role : (role_id : ℕ) → Db M → List PermissionRecord
  permissions_of_role role_id db = latest_first (
      select (λ p. any (same_role_permission role_id p.id) db.role_permissions && live_permission p)
        db.permissions)
