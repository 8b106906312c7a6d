-- ===== src/Authz/Entity.antt =====
-- internal/authorization/domain/entity: roles, permissions, and who has which.
use go_codebase.Prelude.{ℕ, String}
use go_codebase.Core.Entity.{Entity, new_entity}

pub record Role : Type 0 where
  pub entity : Entity
  pub open entity use *
  pub name : String
  pub description : String

unfoldable pub new_role : (uuid now : ℕ) (name description : String) → Role
unfolding new_entity
new_role uuid now name description = record {
  entity = new_entity uuid now;
  name = name;
  description = description;
}

pub record Permission : Type 0 where
  pub entity : Entity
  pub open entity use *
  pub name : String
  pub description : String
  pub resource : String
  pub action : String

unfoldable pub new_permission :
    (uuid now : ℕ) (name description resource action : String) → Permission
unfolding new_entity
new_permission uuid now name description resource action = record {
  entity = new_entity uuid now;
  name = name;
  description = description;
  resource = resource;
  action = action;
}

pub record UserRole : Type 0 where
  pub user_id : ℕ
  pub role_id : ℕ

abbrev pub new_user_role : (user_id role_id : ℕ) → UserRole
new_user_role user_id role_id = record { user_id = user_id; role_id = role_id }

pub record RolePermission : Type 0 where
  pub role_id : ℕ
  pub permission_id : ℕ

abbrev pub new_role_permission : (role_id permission_id : ℕ) → RolePermission
new_role_permission role_id permission_id = record {
  role_id = role_id;
  permission_id = permission_id;
}
