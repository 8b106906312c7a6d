-- ===== src/Auth/Answers.antt =====
-- What the login handler of internal/authentication/interfaces/http/handlers.go tells a stranger.
use go_codebase.Prelude.{
  suc, ◌≡◌, ◌↔◌, refl, sym, ◌∙◌, String, Bool, true, false, not, ◌&&◌, Option, none, some, arith,
  if◌then◌else◌, str_eq, ap,
}
use go_codebase.Core.Errors.{
  GoError, sentinel, query_invalid_credentials, query_account_disabled, query_account_locked,
  query_email_not_verified,
}
use go_codebase.Core.Proc.{ok, err}
use go_codebase.Core.Runtime.{Env, World, reliable}
use go_codebase.Auth.Entity.{User, Event, is_locked}
use go_codebase.Auth.Tables.{Db}
use go_codebase.Auth.Crypto.{Crypto}
use go_codebase.Auth.UserRepository.{get_by_email}
use go_codebase.Auth.UserRepository.RoundTrip.{looked_up, get_by_email-eq}
use go_codebase.Auth.Sessions.{LoginHandler, LoginQuery, login}
use go_codebase.Auth.Handlers.{Reply, login_http, refused_login}
use go_codebase.Http.Response.{respond_unauthorized, respond_error}

-- The error of a login with a wrong password.
abbrev reason_of : (active locked verified : Bool) → GoError
reason_of active locked verified = sentinel (
    if not active
    then query_account_disabled
    else if locked
    then query_account_locked
    else if not verified
    then query_email_not_verified
    else query_invalid_credentials)

ok_inj : {A : Type 0} {x y : A} → ok x ≡ ok y → x ≡ y
ok_inj h = cc

abbrev says : String → Reply → Bool
says text r = elim r.payload.error [ none ↦ false | some e ↦ str_eq e.message text ]

module _ (is_production : Bool) (stack : String) (k : Crypto) (tenant : String) (h : LoginHandler)
    (invalid : LoginQuery → Option String) where
  -- Which of the reasons is not told apart from an unknown address.
  told-hidden :
      (active locked verified : Bool)
      → (refused_login is_production stack (reason_of active locked verified)
          ≡ respond_unauthorized "invalid email or password")
        ↔ ((active && (not locked && verified)) ≡ true)
  unfolding respond_error
  told-hidden false locked verified =
      (λ h. let no : true ≡ false = ap (says "account is disabled") h in cc, λ h. cc)
  told-hidden true true verified =
      (λ h. let no : 403 ≡ 401 = ap (λ r. r.status) h in absurd (omega arith), λ h. cc)
  told-hidden true false false =
      (λ h. let no : 403 ≡ 401 = ap (λ r. r.status) h in absurd (omega arith), λ h. cc)
  told-hidden true false true = (λ h. refl, λ h. refl)

  refused :
      (env : Env) (q : LoginQuery) (w : World Db Event)
      → invalid q ≡ none
      → (login env k h q w).0 ≡ err (sentinel query_invalid_credentials)
      → (login_http is_production stack env k tenant h (some q) invalid w).0
        ≡ ok (respond_unauthorized "invalid email or password")
  unfolding login_http
  refused env q w valid e = rw (valid, e) refl

  unknown :
      (env : Env) (q : LoginQuery) (w : World Db Event)
      → looked_up q.email w.db ≡ none
      → (login (reliable env) k h q w).0 ≡ err (sentinel query_invalid_credentials)
  unfolding login get_by_email looked_up
  unknown env q w e = ground arith

  -- A wrong password.
  module _ (env : Env) (q : LoginQuery) (w : World Db Event) (u : User)
      (found : looked_up q.email w.db ≡ some u)
      (wrong : k.bcrypt_compare u.password q.password ≡ false) where
    abbrev locked_now : Bool
    locked_now = is_locked (env.now (suc w.tick)) u

    abbrev reason : GoError
    reason = reason_of u.is_active locked_now u.email_verified

    login-reason : (login (reliable env) k h q w).0 ≡ err reason
    unfolding login
    login-reason = ground (arith, get_by_email-eq env q.email w u, found, wrong)

    told :
        invalid q ≡ none
        → (login_http is_production stack (reliable env) k tenant h (some q) invalid w).0
          ≡ ok (refused_login is_production stack reason)
    unfolding login_http
    told valid = rw (valid, login-reason) refl

  -- Where the database answers and the body is valid, a login with a wrong password for a user who
  -- is there gets the response of one for an address of no live user exactly if the account is
  -- active, not locked and verified. For every other account the response says, without the right
  -- password, that the address is known.
  pub login_http-hides :
      (env : Env) (q q' : LoginQuery) (w w' : World Db Event) (u : User)
      → invalid q ≡ none
      → invalid q' ≡ none
      → looked_up q.email w.db ≡ none
      → looked_up q'.email w'.db ≡ some u
      → k.bcrypt_compare u.password q'.password ≡ false
      → ((login_http is_production stack (reliable env) k tenant h (some q) invalid w).0
          ≡ (login_http is_production stack (reliable env) k tenant h (some q') invalid w').0)
        ↔ ((u.is_active && (not (is_locked (env.now (suc w'.tick)) u) && u.email_verified)) ≡ true)
  login_http-hides env q q' w w' u valid valid' missing found wrong =
      let here = refused (reliable env) q w valid (unknown env q w missing) in
      let there = told env q' w' u found wrong valid' in
      let (only, where_hidden) =
        told-hidden u.is_active (is_locked (env.now (suc w'.tick)) u) u.email_verified in
      (
        λ same. only (ok_inj (sym there ∙ (sym same ∙ here))),
        λ plain. here ∙ (ap ok (sym (where_hidden plain)) ∙ sym there),
      )
