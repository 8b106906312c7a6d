-- ===== src/Auth/Stable/Commands.antt =====
-- The commands of the authentication module keep what their statements keep.
use go_codebase.Prelude.{ℕ, String, Bool, true, false, ◌≡◌, arith}
use go_codebase.Core.Errors.{GoError, Sentinel}
use go_codebase.Core.Proc.{Result, ok, err, Keeps}
use go_codebase.Core.Runtime.{Env, World}
use go_codebase.Core.Runtime.Preserves.{On, world_rules}
use go_codebase.Auth.Entity.{User, Event}
use go_codebase.Auth.Tables.{Db}
use go_codebase.Auth.Crypto.{Crypto, TokenClaims}
use go_codebase.Auth.Commands.{
  deny, hash_password, issue_verification, RegisterUserCommand, ResetPasswordCommand,
  register_unless, register, verify_email, request_reset, forgot_password, resend_to,
  resend_verification, reset_password, generate_token,
}
use go_codebase.Auth.Sessions.{
  LoginHandler, LoginQuery, compared, login, sign_claims, generate_tokens, refresh, logout_all,
}
use go_codebase.Auth.Stable.{
  Stable, get_by_id-Keeps, get_by_email-Keeps, get_by_verify_token-Keeps, get_by_reset_token-Keeps,
  create-Keeps, update-Keeps, get_by_token-Keeps, create_token-Keeps, revoke-Keeps,
  revoke_all-Keeps,
}

db-hash_password :
    (k : Crypto) (password : String) (w : World Db Event) → (hash_password k password w).1.db ≡ w.db
db-hash_password k password w = ground arith

db-sign_claims :
    (env : Env) (k : Crypto) (tenant : String) (claims : TokenClaims) (w : World Db Event)
    → (sign_claims env k tenant claims w).1.db ≡ w.db
db-sign_claims env k tenant claims w = ground arith

module _ {P : Db → Type 0} where
  pub deny-Keeps : (b : Bool) (e : Sentinel) → Keeps (On P) (deny b e)
  deny-Keeps true e = search world_rules
  deny-Keeps false e = search world_rules

module _ {P : Db → Type 0} (s : Stable P) (env : Env) (k : Crypto) where
  hash_password-Keeps : (password : String) → Keeps (On P) (hash_password k password)
  hash_password-Keeps password = record {
    at = λ w h. record { tables = rw (db-hash_password k password w) h.tables };
  }

  sign_claims-Keeps :
      (tenant : String) (claims : TokenClaims) → Keeps (On P) (sign_claims env k tenant claims)
  sign_claims-Keeps tenant claims = record {
    at = λ w h. record { tables = rw (db-sign_claims env k tenant claims w) h.tables };
  }

  issue-Keeps :
      (label : GoError → GoError) (u : User) → Keeps (On P) (issue_verification env k label u)
  unfolding generate_token
  issue-Keeps label u = search (world_rules, update-Keeps s) depth 9

  register_unless-Keeps :
      (c : RegisterUserCommand) (r : Result User) → Keeps (On P) (register_unless env k c r)
  register_unless-Keeps c (ok u) = search world_rules
  register_unless-Keeps c (err e) =
      search (world_rules, hash_password-Keeps, create-Keeps s, issue-Keeps) depth 9

  pub register-Keeps : (c : RegisterUserCommand) → Keeps (On P) (register env k c)
  unfolding register
  register-Keeps c = search (world_rules, get_by_email-Keeps, register_unless-Keeps)

  pub verify_email-Keeps : (token : String) → Keeps (On P) (verify_email env k token)
  unfolding verify_email
  verify_email-Keeps token =
      search (world_rules, get_by_verify_token-Keeps, deny-Keeps, update-Keeps s) depth 9

  request_reset-Keeps : (r : Result User) → Keeps (On P) (request_reset env k r)
  unfolding generate_token
  request_reset-Keeps (err e) = search world_rules
  request_reset-Keeps (ok u) = search (world_rules, update-Keeps s) depth 9

  pub forgot_password-Keeps : (email : String) → Keeps (On P) (forgot_password env k email)
  unfolding forgot_password
  forgot_password-Keeps email = search (world_rules, get_by_email-Keeps, request_reset-Keeps)

  resend_to-Keeps : (r : Result User) → Keeps (On P) (resend_to env k r)
  resend_to-Keeps (err e) = search world_rules
  resend_to-Keeps (ok u) = search (world_rules, issue-Keeps)

  pub resend_verification-Keeps : (email : String) → Keeps (On P) (resend_verification env k email)
  unfolding resend_verification
  resend_verification-Keeps email = search (world_rules, get_by_email-Keeps, resend_to-Keeps)

  pub reset_password-Keeps : (c : ResetPasswordCommand) → Keeps (On P) (reset_password env k c)
  unfolding reset_password
  reset_password-Keeps c =
      search
        (
          world_rules,
          get_by_reset_token-Keeps,
          deny-Keeps,
          hash_password-Keeps,
          revoke_all-Keeps s,
          update-Keeps s,
        )
        depth 12

  compared-Keeps : (h : LoginHandler) (u : User) (b : Bool) → Keeps (On P) (compared env k h u b)
  compared-Keeps h u true = search (world_rules, update-Keeps s)
  compared-Keeps h u false = search (world_rules, update-Keeps s)

  pub login-Keeps : (h : LoginHandler) (q : LoginQuery) → Keeps (On P) (login env k h q)
  unfolding login
  login-Keeps h q = search (world_rules, get_by_email-Keeps, deny-Keeps, compared-Keeps) depth 12

  pub generate_tokens-Keeps :
      (tenant : String) (u : User) (ttl : ℕ) → Keeps (On P) (generate_tokens env k tenant u ttl)
  unfolding generate_tokens
  generate_tokens-Keeps tenant u ttl =
      search (world_rules, sign_claims-Keeps, create_token-Keeps s) depth 14

  pub refresh-Keeps :
      (tenant token : String) (ttl : ℕ) → Keeps (On P) (refresh env k tenant token ttl)
  unfolding refresh
  refresh-Keeps tenant token ttl =
      search
        (
          world_rules,
          get_by_token-Keeps,
          get_by_id-Keeps,
          deny-Keeps,
          revoke-Keeps s,
          generate_tokens-Keeps,
        )
        depth 14

  pub logout_all-Keeps : (user_id : ℕ) → Keeps (On P) (logout_all env user_id)
  unfolding logout_all
  logout_all-Keeps user_id = revoke_all-Keeps s env user_id
