-- ===== src/Auth/Sessions.antt =====
-- internal/authentication/application/query/login.go, and the commands on refresh tokens:
-- generate_tokens.go, refresh_token.go, logout.go, logout_all.go.
pub mod Login
pub mod Retired
pub mod Rotation
pub mod Lockout
pub mod Redeemed
use go_codebase.Prelude.{
  ℕ, ◌+◌, ◌*◌, String, Bool, true, false, not, ◌||◌, Option, none, some, ltb, leb, if◌then◌else◌,
  str_eq,
}
use go_codebase.Core.Errors.{
  GoError, sentinel, plain, wrap, query_invalid_credentials, query_account_disabled,
  query_account_locked, query_email_not_verified, invalid_refresh_token, user_not_found,
  account_disabled, email_not_verified,
}
use go_codebase.Core.Proc.{ok, err, Proc, ◌>>=◌, ◌>>◌, return, fail, on_error, ignore}
use go_codebase.Core.Runtime.{Env, step, read_clock, new_uuid, read_random}
use go_codebase.Auth.Entity.{
  User, is_locked, lock, unlock, RefreshToken, new_refresh_token, is_expired, is_revoked,
}
use go_codebase.Auth.Crypto.{Crypto, TokenClaims}
use go_codebase.Auth.UserRepository.{Action, get_by_id, get_by_email, update}
use go_codebase.Auth.RefreshTokenRepository
use go_codebase.Auth.RefreshTokenRepository.{get_by_token, revoke, revoke_all_by_user_id}
use go_codebase.Auth.Commands.{second, hour, deny}

pub record LoginHandler : Type 0 where
  pub max_login_attempts : ℕ
  pub lockout_duration : ℕ

unfoldable pub new_login_handler : LoginHandler
new_login_handler = record { max_login_attempts = 5; lockout_duration = 15 * 60 * second }

pub record LoginQuery : Type 0 where
  pub email : String
  pub password : String

-- A wrong password: the attempt is counted, and counted again by `Lock` at the limit.
unfoldable pub count_failure : LoginHandler → (now : ℕ) → User → User
unfolding lock
count_failure h now user =
    let user' : User = record user { failed_login_attempts = user.failed_login_attempts + 1 } in
    if leb h.max_login_attempts user'.failed_login_attempts
    then lock now h.lockout_duration user'
    else user'

module _ (env : Env) (k : Crypto) where
  -- The rest of the handler, after `bcrypt.CompareHashAndPassword`.
  abbrev pub compared : LoginHandler → User → Bool → Action User
  compared h user true = do ignore (update env (unlock user)); return (unlock user)
  compared h user false = do
    now ← read_clock env
    ignore (update env (count_failure h now user))
    fail (sentinel query_invalid_credentials)

  unfoldable pub login : LoginHandler → LoginQuery → Action User
  unfolding count_failure is_locked unlock
  login h q = do
    user ← on_error (get_by_email env q.email) (λ _. sentinel query_invalid_credentials)
    deny (not user.is_active) query_account_disabled
    now ← read_clock env
    deny (is_locked now user) query_account_locked
    deny (not user.email_verified) query_email_not_verified
    compared h user (k.bcrypt_compare user.password q.password)

pub record TokenPair : Type 0 where
  pub access_token : String
  pub refresh_token : String
  pub expires_in : ℕ

-- `c.TokenTTL > 0`, with 0 for an absent or negative one.
abbrev pub refresh_token_ttl : ℕ → ℕ
refresh_token_ttl token_ttl = if ltb 0 token_ttl then token_ttl else 7 * 24 * hour

module _ (env : Env) (k : Crypto) (tenant_id : String) where
  -- `h.tokenService.GenerateToken(tc)`
  abbrev pub sign_claims : TokenClaims → Action String
  sign_claims claims w = elim (k.sign w.tick claims) [
    | none ↦ (err (plain "sign token"), step w)
    | some s ↦ (ok s, step w)
  ]

  -- `tenant_id` is the request's, from its context.
  unfoldable pub generate_tokens : User → (token_ttl : ℕ) → Action TokenPair
  unfolding new_refresh_token
  generate_tokens user token_ttl = do
    jti ← new_uuid env
    access_token ←
        on_error
          (sign_claims (record {
            user_id = k.uuid_string user.id;
            email = user.email;
            role = "user";
            jti = k.uuid_string jti;
            tenant_id = tenant_id;
          }))
          (wrap "generate access token")
    refresh_token ← on_error (read_random env) (wrap "generate refresh token")
    now ← read_clock env
    id ← new_uuid env
    created ← read_clock env
    RefreshTokenRepository.create env
        (new_refresh_token id created user.id refresh_token (now + refresh_token_ttl token_ttl))
    return (record { access_token = access_token; refresh_token = refresh_token; expires_in = 900 })

  -- `refresh` of the Go package is RefreshTokenHandler.Handle.
  unfoldable pub refresh : (token : String) (token_ttl : ℕ) → Action TokenPair
  unfolding is_expired is_revoked
  refresh token token_ttl = do
    row ← on_error (get_by_token env token) (λ _. sentinel invalid_refresh_token)
    now ← read_clock env
    deny (is_expired now row || is_revoked row) invalid_refresh_token
    user ← on_error (get_by_id env row.user_id) (λ _. sentinel user_not_found)
    deny (not user.is_active) account_disabled
    deny (not user.email_verified) email_not_verified
    revoke env token
    generate_tokens user token_ttl

-- The denylist is a function that the caller may leave nil.
pub record LogoutCommand : Type 0 where
  pub refresh_token : String
  pub access_token_jti : String
  pub access_token_ttl : ℕ
  pub denylist : Option (String → ℕ → Action (Unit {0}))

abbrev pub deny_access : Option (String → ℕ → Action (Unit {0})) → String → ℕ → Action (Unit {0})
deny_access none jti ttl = return tt
deny_access (some f) jti ttl = if str_eq jti "" then return tt else ignore (f jti ttl)

module _ (env : Env) where
  unfoldable pub logout : LogoutCommand → Action (Unit {0})
  logout c = do
    deny_access c.denylist c.access_token_jti c.access_token_ttl
    revoke env c.refresh_token

  unfoldable pub logout_all : (user_id : ℕ) → Action (Unit {0})
  logout_all user_id = revoke_all_by_user_id env user_id
