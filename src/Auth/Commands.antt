-- ===== src/Auth/Commands.antt =====
-- internal/authentication/application/command: registration, the verification of addresses, and
-- passwords. A handler returns `Unit` where the Go code returns nil.
use go_codebase.Prelude.{
  ℕ, ◌+◌, ◌*◌, String, Bool, true, false, Option, none, some, ltb, if◌then◌else◌,
}
use go_codebase.Core.Errors.{
  GoError, Sentinel, sentinel, plain, wrap, email_already_exists, invalid_verify_token,
  verify_token_expired, invalid_reset_token, reset_token_expired,
}
use go_codebase.Core.Proc.{Result, ok, err, ◌>>=◌, ◌>>◌, return, fail, on_error, attempt, ignore}
use go_codebase.Core.Runtime.{Env, step, publish, read_clock, new_uuid, read_random}
use go_codebase.Auth.Entity.{User, new_user, Event, user_registered, password_reset_requested}
use go_codebase.Auth.Crypto.{Crypto}
use go_codebase.Auth.UserRepository
use go_codebase.Auth.UserRepository.{
  Action, get_by_email, get_by_verify_token, get_by_reset_token, update,
}
use go_codebase.Auth.RefreshTokenRepository.{revoke_all_by_user_id}

abbrev pub second : ℕ
second = 1_000_000_000

abbrev pub hour : ℕ
hour = 3600 * second

-- `if cond { return nil, err }`
abbrev pub deny : Bool → Sentinel → Action (Unit {0})
deny true s = fail (sentinel s)
deny false s = return tt

-- `expires != nil && time.Now().After(*expires)`
abbrev pub has_passed : Option ℕ → (now : ℕ) → Bool
has_passed none now = false
has_passed (some t) now = ltb t now

pub record RegisterUserCommand : Type 0 where
  pub email : String
  pub password : String
  pub name : String

pub record ResetPasswordCommand : Type 0 where
  pub token : String
  pub new_password : String

module _ (k : Crypto) where
  unfoldable pub hash_token : String → String
  hash_token token = k.sha256_hex token

  -- `bcrypt.GenerateFromPassword`
  abbrev pub hash_password : String → Action String
  hash_password password w = elim (k.bcrypt_generate w.tick password) [
    | none ↦ (err (plain "bcrypt"), step w)
    | some h ↦ (ok h, step w)
  ]

module _ (env : Env) (k : Crypto) where
  unfoldable pub generate_token : Action String
  generate_token = read_random env

  -- A fresh token, stored by its hash for a day, and told to the mailer.
  abbrev pub issue_verification : (GoError → GoError) → User → Action User
  issue_verification label user = do
    token ← on_error (generate_token) label
    now ← read_clock env
    let user' : User = record user {
      email_verify_token = some (hash_token k token);
      email_verify_expires = some (now + 24 * hour);
    }
    update env user'
    publish (user_registered user'.email user'.name token)
    return user'

  abbrev pub register_new : RegisterUserCommand → Action User
  register_new c = do
    hashed ← on_error (hash_password k c.password) (wrap "hash password")
    id ← new_uuid env
    now ← read_clock env
    let user = new_user id now c.email hashed c.name
    UserRepository.create env user
    issue_verification (wrap "generate verification token") user

  -- `existing != nil`, with the error dropped.
  abbrev pub register_unless : RegisterUserCommand → Result User → Action User
  register_unless c (ok existing) = fail (sentinel email_already_exists)
  register_unless c (err e) = register_new c

  unfoldable pub register : RegisterUserCommand → Action User
  unfolding generate_token hash_token
  register c = do existing ← attempt (get_by_email env c.email); register_unless c existing

  unfoldable pub verify_email : (token : String) → Action (Unit {0})
  unfolding hash_token
  verify_email token = do
    user ←
        on_error (get_by_verify_token env (hash_token k token)) (λ _. sentinel invalid_verify_token)
    now ← read_clock env
    deny (has_passed user.email_verify_expires now) verify_token_expired
    let user' : User = record user {
      email_verified = true;
      email_verify_token = none;
      email_verify_expires = none;
    }
    update env user'
    publish (Event.email_verified (k.uuid_string user'.id) user'.email user'.name)

  abbrev pub request_reset : Result User → Action (Unit {0})
  request_reset (err e) = return tt
  request_reset (ok user) = do
    token ← generate_token
    now ← read_clock env
    let user' : User = record user {
      password_reset_token = some (hash_token k token);
      password_reset_expires = some (now + 1 * hour);
    }
    update env user'
    publish (password_reset_requested user'.email user'.name token)

  unfoldable pub forgot_password : (email : String) → Action (Unit {0})
  unfolding generate_token hash_token
  forgot_password email = do user ← attempt (get_by_email env email); request_reset user

  abbrev pub resend_to : Result User → Action (Unit {0})
  resend_to (err e) = return tt
  resend_to (ok user) =
      if user.email_verified
      then return tt
      else do user' ← issue_verification (λ e. e) user; return tt

  unfoldable pub resend_verification : (email : String) → Action (Unit {0})
  unfolding generate_token hash_token
  resend_verification email = do user ← attempt (get_by_email env email); resend_to user

  unfoldable pub reset_password : ResetPasswordCommand → Action (Unit {0})
  unfolding hash_token
  reset_password c = do
    user ←
        on_error (get_by_reset_token env (hash_token k c.token)) (λ _. sentinel invalid_reset_token)
    now ← read_clock env
    deny (has_passed user.password_reset_expires now) reset_token_expired
    hashed ← hash_password k c.new_password
    let user' : User = record user {
      password = hashed;
      password_reset_token = none;
      password_reset_expires = none;
    }
    ignore (revoke_all_by_user_id env user'.id)
    update env user'
