-- ===== src/Auth/UserRepository.antt =====
-- internal/authentication/infrastructure/persistence/user_repository.go. The SQL text of each
-- method is written out as a function on the tables; a database call may fail at any point.
pub mod RoundTrip
pub mod Tokens
use go_codebase.Prelude.{
  ℕ, String, Bool, true, false, ◌&&◌, Option, none, some, List, ltb, ◌==◌, if◌then◌else◌, is_some,
  or_else, find, any, str_eq,
}
use go_codebase.Core.Errors.{plain, wrap}
use go_codebase.Core.Entity.{Entity}
use go_codebase.Core.Proc.{Proc, ◌>>=◌, ◌>>◌, return, fail, on_error}
use go_codebase.Core.Runtime.{Env, World, round_trip, read_clock, apply, read, exec, transaction}
use go_codebase.Auth.Entity.{User, Event}
use go_codebase.Auth.Tables.{
  UserRecord, Credential, Security, TokenType, email_verification, password_reset, same_type,
  UserToken, Db, live, matches, insert_user, insert_credential, insert_security, insert_user_token,
  upsert_credential, upsert_security, update_user,
}

abbrev pub Action : Type 0 → Type 0
Action A = Proc (World Db Event) A

-- The columns of `userSelectColumns` and the two token pairs behind them.
pub record UserRow : Type 0 where
  pub user : UserRecord
  pub password_hash : Option String
  pub login_attempts : Option ℕ
  pub locked_until : Option ℕ
  pub email_verify_token : Option String
  pub email_verify_expires : Option ℕ
  pub password_reset_token : Option String
  pub password_reset_expires : Option ℕ

unfoldable pub map_row_to_entity : UserRow → User
map_row_to_entity row = record {
  entity = record {
    id = row.user.id;
    created_at = row.user.created_at;
    updated_at = row.user.updated_at;
    deleted_at = row.user.deleted_at;
  };
  email = row.user.email;
  password = or_else row.password_hash "";
  name = row.user.name;
  is_active = row.user.is_active;
  failed_login_attempts = or_else row.login_attempts 0;
  locked_until = row.locked_until;
  email_verified = is_some row.user.email_verified_at;
  email_verify_token = row.email_verify_token;
  email_verify_expires = row.email_verify_expires;
  password_reset_token = row.password_reset_token;
  password_reset_expires = row.password_reset_expires;
}

abbrev pub hash_of : Option Credential → Option String
hash_of none = none
hash_of (some c) = some c.password_hash

abbrev pub attempts_of : Option Security → Option ℕ
attempts_of none = none
attempts_of (some s) = some s.login_attempts

abbrev pub lock_of : Option Security → Option ℕ
lock_of none = none
lock_of (some s) = s.locked_until

-- The user with its LEFT JOINs and NULL tokens.
unfoldable pub joined : Db → UserRecord → UserRow
joined db r =
    let credential = find (λ c. c.user_id == r.id) db.credentials in
    let security = find (λ s. s.user_id == r.id) db.security in
    record {
      user = r;
      password_hash = hash_of credential;
      login_attempts = attempts_of security;
      locked_until = lock_of security;
      email_verify_token = none;
      email_verify_expires = none;
      password_reset_token = none;
      password_reset_expires = none;
    }

-- `ut.expires_at IS NULL OR ut.expires_at > NOW()`
abbrev pub unexpired : (now : ℕ) → Option ℕ → Bool
unexpired now none = true
unexpired now (some t) = ltb now t

-- The condition of the INNER JOIN on user_tokens, but for the user.
abbrev pub usable : TokenType → String → (now : ℕ) → UserToken → Bool
usable kind hash now t =
    str_eq t.token_hash hash
    && (same_type t.token_type kind
        && (if is_some t.consumed_at then false else unexpired now t.expires_at))

abbrev pub with_token : TokenType → UserRow → UserToken → UserRow
with_token email_verification row t = record row {
  email_verify_token = some t.token_hash;
  email_verify_expires = t.expires_at;
}
with_token password_reset row t = record row {
  password_reset_token = some t.token_hash;
  password_reset_expires = t.expires_at;
}

-- The first pair of a live user and a usable token of that user.
unfoldable pub owner_of : List UserRecord → UserToken → Option UserRecord
owner_of users t = find (λ r. r.id == t.user_id && live r) users

unfoldable pub by_token : TokenType → String → (now : ℕ) → Db → List UserToken → Option UserRow
by_token kind hash now db List.[] = none
by_token kind hash now db (List.◌∷◌ t ts) =
    let rest = by_token kind hash now db ts in
    if usable kind hash now t
    then elim (owner_of db.users t) [
      | none ↦ rest
      | some r ↦ some (with_token kind (joined db r) t)
    ]
    else rest

abbrev pub scanned : Option UserRow → Action User
scanned none = fail (plain "user not found")
scanned (some row) = return (map_row_to_entity row)

abbrev pub row_of : Db → Option UserRecord → Option UserRow
row_of db none = none
row_of db (some r) = some (joined db r)

-- `rows == 0`
abbrev pub require_row : Bool → Action (Unit {0})
require_row true = return tt
require_row false = fail (plain "user not found")

module _ (env : Env) where
  unfoldable pub get_by_id : ℕ → Action User
  unfolding joined map_row_to_entity
  get_by_id id = do
    on_error (round_trip env) (wrap "get user")
    row ← read (λ db. row_of db (find (matches id) db.users))
    scanned row

  unfoldable pub get_by_email : String → Action User
  unfolding joined map_row_to_entity
  get_by_email email = do
    on_error (round_trip env) (wrap "get user by email")
    row ← read (λ db. row_of db (find (λ r. str_eq r.email email && live r) db.users))
    scanned row

  unfoldable pub get_by_verify_token : String → Action User
  unfolding joined map_row_to_entity by_token owner_of
  get_by_verify_token hash = do
    on_error (round_trip env) (wrap "get user by verify token")
    now ← read_clock env
    row ← read (λ db. by_token email_verification hash now db db.user_tokens)
    scanned row

  unfoldable pub get_by_reset_token : String → Action User
  unfolding joined map_row_to_entity by_token owner_of
  get_by_reset_token hash = do
    on_error (round_trip env) (wrap "get user by reset token")
    now ← read_clock env
    row ← read (λ db. by_token password_reset hash now db db.user_tokens)
    scanned row

  -- `if user.EmailVerifyToken != nil { INSERT INTO user_tokens … }`
  abbrev pub insert_token_if : String → TokenType → ℕ → Option String → Option ℕ → Action (Unit {0})
  insert_token_if label kind id none expires = return tt
  insert_token_if label kind id (some hash) expires = exec env label (
      insert_user_token (record {
        user_id = id;
        token_type = kind;
        token_hash = hash;
        expires_at = expires;
        consumed_at = none;
      }))

  abbrev pub insert_tokens : User → Action (Unit {0})
  insert_tokens u = do
    insert_token_if "insert email verify token" email_verification u.id u.email_verify_token
        u.email_verify_expires
    insert_token_if "insert password reset token" password_reset u.id u.password_reset_token
        u.password_reset_expires

  abbrev pub verified_now : Bool → Action (Option ℕ)
  verified_now false = return none
  verified_now true = do now ← read_clock env; return (some now)

  unfoldable pub create : User → Action (Unit {0})
  unfolding transaction insert_user insert_credential insert_security insert_user_token
  create u = transaction env λ started. do
    verified_at ← verified_now u.email_verified
    exec env "insert user" (
        insert_user (record {
          id = u.id;
          email = u.email;
          name = u.name;
          is_active = u.is_active;
          email_verified_at = verified_at;
          created_at = u.created_at;
          updated_at = u.updated_at;
          deleted_at = none;
          password = u.password;
        }))
    exec env "insert user credentials" (
        insert_credential
          (record { user_id = u.id; password_hash = u.password; last_login_at = none }))
    exec env "insert user security" (
        insert_security (record {
          user_id = u.id;
          login_attempts = u.failed_login_attempts;
          locked_until = u.locked_until;
        }))
    insert_tokens u

  unfoldable pub update : User → Action (Unit {0})
  unfolding transaction update_user upsert_credential upsert_security insert_user_token
  update u = transaction env λ started. do
    found ← read (λ db. any (matches u.id) db.users)
    exec env "update user" (update_user started u.id u.email u.name u.is_active u.email_verified)
    require_row found
    exec env "upsert user credentials" (
        upsert_credential
          (record { user_id = u.id; password_hash = u.password; last_login_at = none }))
    exec env "upsert user security" (
        upsert_security (record {
          user_id = u.id;
          login_attempts = u.failed_login_attempts;
          locked_until = u.locked_until;
        }))
    insert_tokens u
