-- ===== src/Auth/Trace.antt =====
-- Requests to the authentication module in any order: the state after each is the state before
-- the next, with or without errors. A logout has no denylist, as in interfaces/http/handlers.go.
use go_codebase.Prelude.{ℕ, String, none, List, [], ◌∷◌}
use go_codebase.Core.Runtime.{Env, World}
use go_codebase.Core.Runtime.Preserves.{On}
use go_codebase.Auth.Entity.{User, Event}
use go_codebase.Auth.Tables.{Db}
use go_codebase.Auth.Crypto.{Crypto}
use go_codebase.Auth.RefreshTokenRepository.{delete_expired}
use go_codebase.Auth.Commands.{
  RegisterUserCommand, ResetPasswordCommand, register, verify_email, forgot_password,
  resend_verification, reset_password,
}
use go_codebase.Auth.Sessions.{
  LoginHandler, LoginQuery, login, generate_tokens, refresh, LogoutCommand, logout, logout_all,
}
use go_codebase.Auth.Stable.{Stable, revoke-Keeps, delete_expired-Keeps}
use go_codebase.Auth.Stable.Commands.{
  register-Keeps, verify_email-Keeps, forgot_password-Keeps, resend_verification-Keeps,
  reset_password-Keeps, login-Keeps, generate_tokens-Keeps, refresh-Keeps, logout_all-Keeps,
}

pub data Call : Type 0 where
  call_register : RegisterUserCommand → Call
  call_verify : (token : String) → Call
  call_forgot : (email : String) → Call
  call_resend : (email : String) → Call
  call_reset : ResetPasswordCommand → Call
  call_login : LoginHandler → LoginQuery → Call
  call_tokens : (tenant : String) → User → (ttl : ℕ) → Call
  call_refresh : (tenant token : String) (ttl : ℕ) → Call
  call_logout : (token : String) → Call
  call_logout_all : (user_id : ℕ) → Call
  call_clean : Call

-- The command of the HTTP handler, which sets no denylist.
abbrev pub logout_of : String → LogoutCommand
logout_of token = record {
  refresh_token = token;
  access_token_jti = "";
  access_token_ttl = 0;
  denylist = none;
}

module _ (env : Env) (k : Crypto) where
  pub run : Call → World Db Event → World Db Event
  run (call_register c) w = (register env k c w).1
  run (call_verify token) w = (verify_email env k token w).1
  run (call_forgot email) w = (forgot_password env k email w).1
  run (call_resend email) w = (resend_verification env k email w).1
  run (call_reset c) w = (reset_password env k c w).1
  run (call_login h q) w = (login env k h q w).1
  run (call_tokens tenant u ttl) w = (generate_tokens env k tenant u ttl w).1
  run (call_refresh tenant token ttl) w = (refresh env k tenant token ttl w).1
  run (call_logout token) w = (logout env (logout_of token) w).1
  run (call_logout_all user_id) w = (logout_all env user_id w).1
  run call_clean w = (delete_expired env w).1

  pub run_all : List Call → World Db Event → World Db Event
  run_all [] w = w
  run_all (c ∷ cs) w = run_all cs (run c w)

  module _ {P : Db → Type 0} (s : Stable P) where
    run-On : (c : Call) (w : World Db Event) → On P w → On P (run c w)
    unfolding run logout
    run-On (call_register c) w h = (register-Keeps s env k c).at w h
    run-On (call_verify token) w h = (verify_email-Keeps s env k token).at w h
    run-On (call_forgot email) w h = (forgot_password-Keeps s env k email).at w h
    run-On (call_resend email) w h = (resend_verification-Keeps s env k email).at w h
    run-On (call_reset c) w h = (reset_password-Keeps s env k c).at w h
    run-On (call_login lh q) w h = (login-Keeps s env k lh q).at w h
    run-On (call_tokens tenant u ttl) w h = (generate_tokens-Keeps s env k tenant u ttl).at w h
    run-On (call_refresh tenant token ttl) w h = (refresh-Keeps s env k tenant token ttl).at w h
    run-On (call_logout token) w h = (revoke-Keeps s env token).at w h
    run-On (call_logout_all user_id) w h = (logout_all-Keeps s env k user_id).at w h
    run-On call_clean w h = (delete_expired-Keeps s env).at w h

    -- A fact that every statement keeps holds after any requests, if it held before them.
    pub run_all-On : (cs : List Call) (w : World Db Event) → On P w → On P (run_all cs w)
    unfolding run_all
    run_all-On [] w h = h
    run_all-On (c ∷ cs) w h = run_all-On cs (run c w) (run-On c w h)
