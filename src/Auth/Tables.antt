-- ===== src/Auth/Tables.antt =====
-- The tables behind the two repositories (migrations/003, 008), and the statements that the
-- repositories send, as functions on the tables. A statement that breaks a unique key of the
-- migrations gives none. Rows stand in the order of insertion, which is the order in which a
-- query that states none finds them.
pub mod Saved
pub mod Integrity
use go_codebase.Prelude.{
  ℕ, String, Bool, true, false, not, ◌&&◌, ◌||◌, Option, none, some, List, [], ◌∷◌, ◌++◌, ltb, ◌==◌,
  if◌then◌else◌, is_some, find, any, update_where, str_eq,
}
use go_codebase.Auth.Entity.{RefreshToken}

pub record UserRecord : Type 0 where
  pub id : ℕ
  pub email : String
  pub name : String
  pub is_active : Bool
  pub email_verified_at : Option ℕ
  pub created_at : ℕ
  pub updated_at : ℕ
  pub deleted_at : Option ℕ
  pub password : String

pub record Credential : Type 0 where
  pub user_id : ℕ
  pub password_hash : String
  pub last_login_at : Option ℕ

pub record Security : Type 0 where
  pub user_id : ℕ
  pub login_attempts : ℕ
  pub locked_until : Option ℕ

pub data TokenType : Type 0 where
  email_verification password_reset : TokenType

abbrev pub same_type : TokenType → TokenType → Bool
same_type email_verification email_verification = true
same_type password_reset password_reset = true
same_type _ _ = false

pub record UserToken : Type 0 where
  pub user_id : ℕ
  pub token_type : TokenType
  pub token_hash : String
  pub expires_at : Option ℕ
  pub consumed_at : Option ℕ

pub record Db : Type 0 where
  pub users : List UserRecord
  pub credentials : List Credential
  pub security : List Security
  pub user_tokens : List UserToken
  pub refresh_tokens : List RefreshToken

abbrev pub empty_db : Db
empty_db = record {
  users = [];
  credentials = [];
  security = [];
  user_tokens = [];
  refresh_tokens = [];
}

-- `deleted_at IS NULL`
abbrev pub live : UserRecord → Bool
live r = not (is_some r.deleted_at)

-- `id` and `email` are unique, among deleted rows too.
unfoldable pub insert_user : UserRecord → Db → Option Db
insert_user r db =
    if any (λ o. o.id == r.id || str_eq o.email r.email) db.users
    then none
    else some (record db { users = db.users ++ r ∷ [] })

unfoldable pub insert_credential : Credential → Db → Option Db
insert_credential r db =
    if any (λ o. o.user_id == r.user_id) db.credentials
    then none
    else some (record db { credentials = db.credentials ++ r ∷ [] })

unfoldable pub insert_security : Security → Db → Option Db
insert_security r db =
    if any (λ o. o.user_id == r.user_id) db.security
    then none
    else some (record db { security = db.security ++ r ∷ [] })

unfoldable pub insert_user_token : UserToken → Db → Option Db
insert_user_token r db = some (record db { user_tokens = db.user_tokens ++ r ∷ [] })

-- `ON CONFLICT (user_id) DO UPDATE`
unfoldable pub upsert_credential : Credential → Db → Option Db
upsert_credential r db =
    if any (λ o. o.user_id == r.user_id) db.credentials
    then some (record db {
      credentials = update_where (λ o. o.user_id == r.user_id) (λ _. r) db.credentials;
    })
    else some (record db { credentials = db.credentials ++ r ∷ [] })

unfoldable pub upsert_security : Security → Db → Option Db
upsert_security r db =
    if any (λ o. o.user_id == r.user_id) db.security
    then some
        (record db { security = update_where (λ o. o.user_id == r.user_id) (λ _. r) db.security })
    else some (record db { security = db.security ++ r ∷ [] })

-- `CASE WHEN verified THEN COALESCE(email_verified_at, NOW()) ELSE NULL END`
abbrev pub coalesced : Bool → (now : ℕ) → Option ℕ → Option ℕ
coalesced false now at = none
coalesced true now none = some now
coalesced true now (some t) = some t

abbrev pub matches : ℕ → UserRecord → Bool
matches id r = r.id == id && live r

unfoldable pub update_user :
    (now id : ℕ) (email name : String) (is_active verified : Bool) → Db → Option Db
update_user now id email name is_active verified db =
    if any (matches id) db.users && any (λ o. not (o.id == id) && str_eq o.email email) db.users
    then none
    else some (record db {
      users =
          update_where (matches id)
            (λ r. record r {
              email = email;
              name = name;
              is_active = is_active;
              email_verified_at = coalesced verified now r.email_verified_at;
              updated_at = now;
            })
            db.users;
    })
