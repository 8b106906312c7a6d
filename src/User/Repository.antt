-- ===== src/User/Repository.antt =====
-- internal/user/infrastructure/persistence, with the statements of sqlc as functions on the tables
-- that internal/authentication uses too.
use go_codebase.Prelude.{
  ℕ, String, Bool, true, false, not, ◌&&◌, Option, none, some, ◌==◌, if◌then◌else◌, find, any,
  update_where, str_eq,
}
use go_codebase.Cursor.{Codec}
use go_codebase.Core.Errors.{GoError, sentinel, wrap, not_found, already_exists}
use go_codebase.Core.Proc.{Proc, ◌>>=◌, ◌>>◌, return, fail, on_error}
use go_codebase.Core.Runtime.{Env, World, round_trip, read_clock, read, exec, apply}
use go_codebase.Listing.{Keyed, Page, scope, in_scope, list_where}
use go_codebase.Auth.Entity.{User, Event}
use go_codebase.Auth.Tables.{UserRecord, Db, live, matches, insert_user}

instance abbrev pub user_keyed : Keyed UserRecord
user_keyed = record { id_of = λ r. r.id; created_of = λ r. r.created_at }

abbrev pub Action : Type 0 → Type 0
Action A = Proc (World Db Event) A

-- The columns of a row; the fields without a column have Go's zero values.
unfoldable pub user_of : UserRecord → User
user_of r = record {
  entity = record {
    id = r.id;
    created_at = r.created_at;
    updated_at = r.updated_at;
    deleted_at = r.deleted_at;
  };
  email = r.email;
  password = "";
  name = r.name;
  is_active = r.is_active;
  failed_login_attempts = 0;
  locked_until = none;
  email_verified = false;
  email_verify_token = none;
  email_verify_expires = none;
  password_reset_token = none;
  password_reset_expires = none;
}

abbrev pub record_of : User → UserRecord
record_of u = record {
  id = u.id;
  email = u.email;
  name = u.name;
  is_active = u.is_active;
  email_verified_at = none;
  created_at = u.created_at;
  updated_at = u.updated_at;
  deleted_at = none;
  password = "";
}

abbrev pub revised : (now : ℕ) → User → UserRecord → UserRecord
revised now u r = record r {
  email = u.email;
  name = u.name;
  is_active = u.is_active;
  updated_at = now;
}

-- `email` is unique, among deleted rows too.
unfoldable pub update_user_row : (now : ℕ) → User → Db → Option Db
update_user_row now u db =
    if any (matches u.id) db.users
      && any (λ o. not (o.id == u.id) && str_eq o.email u.email) db.users
    then none
    else some (record db { users = update_where (matches u.id) (revised now u) db.users })

unfoldable pub delete_user_row : (now id : ℕ) → Db → Option Db
delete_user_row now id db = some (record db {
  users =
      update_where (matches id) (λ r. record r { deleted_at = some now; updated_at = now })
        db.users;
})

abbrev pub missing : GoError
missing = wrap "user not found" (sentinel not_found)

abbrev pub found : Option UserRecord → Action User
found none = fail missing
found (some r) = return (user_of r)

abbrev pub require_row : Bool → Action (Unit {0})
require_row true = return tt
require_row false = fail missing

module _ (env : Env) where
  unfoldable pub get_by_id : ℕ → Action User
  unfolding user_of
  get_by_id id = do
    on_error (round_trip env) (wrap "get user")
    row ← read (λ db. find (matches id) db.users)
    found row

  -- A violated key, `23505`, is ErrAlreadyExists; any other error is wrapped.
  unfoldable pub create : User → Action (Unit {0})
  unfolding insert_user
  create u = do
    on_error (round_trip env) (wrap "create user")
    on_error (apply (insert_user (record_of u))) (λ e. wrap "create user" (sentinel already_exists))

  unfoldable pub update : User → Action (Unit {0})
  unfolding update_user_row
  update u = do
    matched ← read (λ db. any (matches u.id) db.users)
    now ← read_clock env
    exec env "update user" (update_user_row now u)
    require_row matched

  unfoldable pub delete : ℕ → Action (Unit {0})
  unfolding delete_user_row
  delete id = do
    matched ← read (λ db. any (matches id) db.users)
    now ← read_clock env
    exec env "delete user" (delete_user_row now id)
    require_row matched

  -- No statement of the repository writes users.tenant_id, so its value is the default, the empty
  -- text.
  unfoldable pub list :
      (k : Codec) (tenants : Option Bool) (tenant : String)
      → Option String
      → (limit : ℕ) → Action (Page User)
  unfolding list_where user_of
  list k tenants tenant cursor limit =
      list_where env k user_of (λ db. db.users) "list users"
        (λ r. live r && in_scope (scope tenants tenant) "") cursor limit
