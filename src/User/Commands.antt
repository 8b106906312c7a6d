-- ===== src/User/Commands.antt =====
-- internal/user/application: the command handlers and the profile provider. The queries GetUser and
-- ListUsers are the repository's methods.
use go_codebase.Prelude.{ℕ, String, Bool, none, List, [], str_eq, if◌then◌else◌, false}
use go_codebase.Core.Proc.{Result, ok, err, ◌>>=◌, ◌>>◌, return, attempt}
use go_codebase.Core.Runtime.{Env, read_clock, new_uuid}
use go_codebase.Core.Entity.{touch, soft_delete}
use go_codebase.Auth.Entity.{User}
use go_codebase.User.Repository.{Action, get_by_id, create, update}

-- A user with its other fields zero.
unfoldable pub new_user_of : (uuid now : ℕ) (email name : String) (is_active : Bool) → User
new_user_of uuid now email name is_active = record {
  entity = record { id = uuid; created_at = now; updated_at = now; deleted_at = none };
  email = email;
  password = "";
  name = name;
  is_active = is_active;
  failed_login_attempts = 0;
  locked_until = none;
  email_verified = false;
  email_verify_token = none;
  email_verify_expires = none;
  password_reset_token = none;
  password_reset_expires = none;
}

abbrev given : (new old : String) → String
given new old = if str_eq new "" then old else new

unfoldable pub changed_user : (now : ℕ) (name email : String) (is_active : Bool) → User → User
unfolding touch
changed_user now name email is_active u = record u {
  name = given name u.name;
  email = given email u.email;
  is_active = is_active;
  entity = touch now u.entity;
}

pub record Profile : Type 0 where
  pub id : String
  pub email : String
  pub name : String
  pub is_active : Bool
  pub roles : List String
  pub created_at : String
  pub updated_at : String

module _ (env : Env) where
  unfoldable pub create_user : (email name : String) (is_active : Bool) → Action User
  unfolding create new_user_of
  create_user email name is_active = do
    now ← read_clock env
    uuid ← new_uuid env
    create env (new_user_of uuid now email name is_active)
    return (new_user_of uuid now email name is_active)

  unfoldable pub update_user : ℕ → (name email : String) (is_active : Bool) → Action User
  unfolding get_by_id update changed_user
  update_user id name email is_active = do
    u ← get_by_id env id
    now ← read_clock env
    update env (changed_user now name email is_active u)
    return (changed_user now name email is_active u)

  unfoldable pub delete_user : ℕ → Action (Unit {0})
  unfolding get_by_id update soft_delete
  delete_user id = do
    u ← get_by_id env id
    now ← read_clock env
    update env (record u { entity = soft_delete now u.entity })

  -- `if err == nil { profile.Roles = roles }`
  abbrev roles_or_none : Result (List String) → List String
  roles_or_none (ok names) = names
  roles_or_none (err e) = []

  -- `role_names` is the authorization module's GetUserRoles, `uuid_text` and `format` write the
  -- identifier and the times.
  unfoldable pub get_profile :
      (role_names : ℕ → Action (List String)) (uuid_text format : ℕ → String) → ℕ → Action Profile
  unfolding get_by_id
  get_profile role_names uuid_text format id = do
    u ← get_by_id env id
    names ← attempt (role_names id)
    return (record {
      id = uuid_text u.id;
      email = u.email;
      name = u.name;
      is_active = u.is_active;
      roles = roles_or_none names;
      created_at = format u.created_at;
      updated_at = format u.updated_at;
    })
