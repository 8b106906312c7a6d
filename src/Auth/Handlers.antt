-- ===== src/Auth/Handlers.antt =====
-- internal/authentication/interfaces/http/handlers.go. `body` is the request's body as the JSON
-- decoder reads it, none for an error; `invalid` is the validator's error text, none if it has none.
use go_codebase.Prelude.{
  ℕ, ◌*◌, String, Bool, true, ◌||◌, Option, none, some, str_eq, if◌then◌else◌,
}
use go_codebase.Core.Errors.{
  Sentinel, GoError, is, email_already_exists, invalid_refresh_token, invalid_verify_token,
  verify_token_expired, invalid_reset_token, reset_token_expired, query_invalid_credentials,
  query_account_disabled, query_account_locked, query_email_not_verified,
}
use go_codebase.Core.Proc.{Result, ok, err, ◌>>=◌, ◌>>◌, return, attempt, ignore}
use go_codebase.Core.Runtime.{Env}
use go_codebase.Auth.Entity.{User}
use go_codebase.Auth.Crypto.{Crypto}
use go_codebase.Auth.UserRepository.{Action}
use go_codebase.Auth.Commands.{
  second, RegisterUserCommand, ResetPasswordCommand, register, verify_email, forgot_password,
  resend_verification, reset_password,
}
use go_codebase.Auth.Sessions.{
  LoginHandler, LoginQuery, login, TokenPair, generate_tokens, refresh, logout, logout_all,
}
use go_codebase.Http.Response.{
  Response, respond_success, respond_error, respond_bad_request, respond_unauthorized,
  respond_forbidden, respond_conflict, respond_internal_error, error_text, handle, handle_created,
}
use go_codebase.Http.Middleware.{RequestContext}

-- The data of the responses, application/dto/authentication_dto.go.
pub data AuthData : Type 0 where
  message_response : String → AuthData
  token_response :
      (access_token refresh_token : String) (expires_in : ℕ) (token_type : String) → AuthData
  user_response : (id email name : String) (is_active : Bool) → AuthData

abbrev pub Reply : Type 0
Reply = Response AuthData

-- `if err := h.validator.Validate(req); err != nil`
abbrev pub validated : Option String → Action Reply → Action Reply
validated none k = k
validated (some text) k = return (respond_bad_request text)

-- The guards before a command: the decoder, then the validator.
abbrev pub checked :
    {B : Type 0} → Option B → (B → Option String) → (B → Action Reply) → Action Reply
checked none invalid k = return (respond_bad_request "invalid request body")
checked (some b) invalid k = validated (invalid b) (k b)

abbrev pub said : {A : Type 0} → String → Result A → Result AuthData
said text (ok a) = ok (message_response text)
said text (err e) = err e

abbrev pub tokens_of : TokenPair → AuthData
tokens_of t = token_response t.access_token t.refresh_token t.expires_in "Bearer"

module _ (is_production : Bool) (stack : String) where
  abbrev pub registered_reply : Result User → Reply
  registered_reply (ok u) =
      handle_created is_production stack
        (ok (message_response "user registered successfully. Check your email for verification."))
  registered_reply (err e) =
      if is e email_already_exists
      then respond_conflict "email already registered"
      else handle_created is_production stack (err e)

  abbrev pub refused_login : GoError → Reply
  refused_login e =
      if is e query_invalid_credentials
      then respond_unauthorized "invalid email or password"
      else if is e query_account_disabled
      then respond_unauthorized "account is disabled"
      else if is e query_account_locked
      then respond_forbidden "ACCOUNT_LOCKED"
          "account is temporarily locked due to too many failed attempts"
      else if is e query_email_not_verified
      then respond_forbidden "EMAIL_NOT_VERIFIED" "email is not verified"
      else respond_internal_error "failed to login"

  abbrev pub login_tokens : Result TokenPair → Reply
  login_tokens (ok t) = handle is_production stack (ok (tokens_of t))
  login_tokens (err e) = respond_internal_error "failed to generate tokens"

  abbrev pub refreshed_reply : Result TokenPair → Reply
  refreshed_reply (ok t) = handle is_production stack (ok (tokens_of t))
  refreshed_reply (err e) =
      if is e invalid_refresh_token
      then respond_unauthorized "invalid or expired refresh token"
      else respond_internal_error "failed to refresh token"

  -- A token's command: its two own errors are the client's, with their texts.
  abbrev pub token_reply : (a b : Sentinel) → String → Result (Unit {0}) → Reply
  token_reply a b text (ok u) = handle is_production stack (ok (message_response text))
  token_reply a b text (err e) =
      if is e a || is e b
      then respond_bad_request (error_text e)
      else handle is_production stack (err e)

module _ (is_production : Bool) (stack : String) (env : Env) (k : Crypto) where
  unfoldable pub register_http :
      Option RegisterUserCommand → (RegisterUserCommand → Option String) → Action Reply
  register_http body invalid =
      checked body invalid
        λ c. do r ← attempt (register env k c); return (registered_reply is_production stack r)

  abbrev pub logged_in : (tenant_id : String) → Result User → Action Reply
  logged_in tenant_id (err e) = return (refused_login is_production stack e)
  logged_in tenant_id (ok user) = do
    t ← attempt (generate_tokens env k tenant_id user 0)
    return (login_tokens is_production stack t)

  -- The command has no `TokenTTL`, which is 0 then.
  unfoldable pub login_http :
      (tenant_id : String)
      → LoginHandler
      → Option LoginQuery
      → (LoginQuery → Option String)
      → Action Reply
  login_http tenant_id h body invalid =
      checked body invalid λ q. do r ← attempt (login env k h q); logged_in tenant_id r

  unfoldable pub refresh_http :
      (tenant_id : String) → Option String → (String → Option String) → Action Reply
  refresh_http tenant_id body invalid = checked body invalid λ token. do
    r ← attempt (refresh env k tenant_id token 0)
    return (refreshed_reply is_production stack r)

  -- The body is decoded and not validated; the command's denylist is left nil. `jti` is the
  -- context's value under "access_token_jti", "" where it has none.
  unfoldable pub logout_http : (jti : String) → Option String → Action Reply
  logout_http jti body =
      checked body (λ token. none)
        λ token. do
          r ← attempt (
              logout env (record {
                refresh_token = token;
                access_token_jti = jti;
                access_token_ttl = 15 * 60 * second;
                denylist = none;
              }))
          return (handle is_production stack (said "logged out successfully" r))

  -- `parse` is uuid.Parse.
  abbrev pub logout_parsed : Option ℕ → Action Reply
  logout_parsed none = return (respond_bad_request "invalid user ID")
  logout_parsed (some uid) = do
    r ← attempt (logout_all env uid)
    return (handle is_production stack (said "all sessions terminated" r))

  unfoldable pub logout_all_http : (parse : String → Option ℕ) → RequestContext → Action Reply
  logout_all_http parse c =
      if str_eq c.user_id ""
      then return (respond_error 401 "UNAUTHORIZED" "user not authenticated")
      else logout_parsed (parse c.user_id)

  unfoldable pub me_http : RequestContext → Action Reply
  me_http c =
      if str_eq c.user_id ""
      then return (respond_error 401 "UNAUTHORIZED" "user not authenticated")
      else return (handle is_production stack (ok (user_response c.user_id c.user_email "" true)))

  unfoldable pub verify_email_http : (token : String) → Action Reply
  verify_email_http token =
      if str_eq token "" then return (respond_bad_request "token is required") else do
        r ← attempt (verify_email env k token)
        return (
            token_reply is_production stack invalid_verify_token verify_token_expired
              "email verified successfully" r)

  unfoldable pub forgot_password_http : Option String → (String → Option String) → Action Reply
  forgot_password_http body invalid = checked body invalid λ email. do
    ignore (forgot_password env k email)
    return (
        respond_success (some (message_response "if the email exists, a reset link has been sent")))

  unfoldable pub reset_password_http :
      Option ResetPasswordCommand → (ResetPasswordCommand → Option String) → Action Reply
  reset_password_http body invalid = checked body invalid λ c. do
    r ← attempt (reset_password env k c)
    return (
        token_reply is_production stack invalid_reset_token reset_token_expired
          "password reset successfully" r)

  unfoldable pub resend_verification_http : Option String → (String → Option String) → Action Reply
  resend_verification_http body invalid = checked body invalid λ email. do
    ignore (resend_verification env k email)
    return (
        respond_success
          (some (message_response "if the email exists, a verification link has been sent")))
