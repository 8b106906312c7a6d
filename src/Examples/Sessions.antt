-- ===== src/Examples/Sessions.antt =====
-- Logins, refreshes and logouts of the sample user.
use go_codebase.Prelude.{suc, some, ℕ, List, All, String, ◌≡◌, refl, [], ◌∷◌, arith}
use go_codebase.Core.Errors.{
  sentinel, query_invalid_credentials, query_account_locked, invalid_refresh_token,
}
use go_codebase.Core.Proc.{err}
use go_codebase.Core.Runtime.{World, reliable}
use go_codebase.Auth.Entity.{Event, is_locked, unlock}
use go_codebase.Auth.Tables.{Db}
use go_codebase.Auth.Tables.Integrity.{Integrity}
use go_codebase.Auth.UserRepository.{get_by_email, get_by_id, update, joined, map_row_to_entity}
use go_codebase.Auth.UserRepository.RoundTrip.{looked_up, reloaded}
use go_codebase.Auth.RefreshTokenRepository
use go_codebase.Auth.RefreshTokenRepository.{
  get_by_token, revoke, revoke_where, insert_refresh_token,
}
use go_codebase.Auth.Sessions.{login, refresh, logout, generate_tokens, TokenPair}
use go_codebase.Auth.Sessions.Login.{MayLogin, login_sound}
use go_codebase.Auth.Sessions.Lockout.{
  Attempted, results, after_all, lockout, wrong_password_counted,
}
use go_codebase.Auth.Sessions.Rotation.{refresh_once, logout_once}
use go_codebase.Auth.Trace.{call_login, logout_of, run_all}
use go_codebase.Examples.Sample.{counting, plain_crypto, ann_user, start, one_user, handler, asks}

login_sound_example : MayLogin counting plain_crypto handler (asks "secret") (start 2) (ann_user 0)
unfolding login get_by_email unlock update
login_sound_example =
    login_sound counting plain_crypto handler (asks "secret") (start 2) (ann_user 0) refl

pub sample-Integrity : (n : ℕ) → Integrity (one_user n)
sample-Integrity n = record {
  ids = (refl, tt);
  emails = (refl, tt);
  credentials = (refl, tt);
  security = (refl, tt);
}

pub sample-Attempted :
    (n : ℕ) (p : String) → Attempted counting plain_crypto handler (asks p) (start n) (ann_user n)
unfolding looked_up is_locked joined map_row_to_entity
sample-Attempted n p = record {
  keys = sample-Integrity n;
  stored = refl;
  active = refl;
  unlocked = refl;
  verified = refl;
}

abbrev locked_out : World Db Event
locked_out = (login (reliable counting) plain_crypto handler (asks "wrong") (start 4)).1

abbrev tries : List (ℕ × String)
tries = (3, "wrong") ∷ (400, "secret") ∷ []

lockout_example :
    All
      (λ r. r ≡ err (sentinel query_account_locked))
      (results counting plain_crypto handler "ann@example.org" tries locked_out)
    × ((after_all counting plain_crypto handler "ann@example.org" tries locked_out).db
        ≡ locked_out.db)
unfolding login get_by_email update
lockout_example =
    lockout counting plain_crypto handler (asks "wrong") (start 4) (ann_user 4) tries
      (sample-Attempted 4 "wrong") refl (omega arith) (λ n early. omega arith)

wrong_password_counted_example :
    ((login (reliable counting) plain_crypto handler (asks "wrong") (start 1)).0
      ≡ err (sentinel query_invalid_credentials))
    × (looked_up "ann@example.org"
          (login (reliable counting) plain_crypto handler (asks "wrong") (start 1)).1.db
        ≡ some (
            reloaded
              (counting.now (suc (suc (suc (suc (start 1).tick)))))
              (ann_user 1)
              (record (ann_user 1) { failed_login_attempts = 2 })))
wrong_password_counted_example =
    wrong_password_counted counting plain_crypto handler (asks "wrong") (start 1) (ann_user 1)
      (sample-Attempted 1 "wrong") refl (omega arith)

abbrev fresh_pair : TokenPair
fresh_pair = record { access_token = "signed"; refresh_token = "fresh"; expires_in = 900 }

refresh_once_example :
    (refresh counting plain_crypto "t2" "old" 0 (
      run_all counting plain_crypto
        (call_login handler (asks "secret") ∷ [])
        (refresh counting plain_crypto "t1" "old" 0 (start 0)).1)).0
    ≡ err (sentinel invalid_refresh_token)
unfolding refresh get_by_token get_by_id revoke generate_tokens RefreshTokenRepository.create
refresh_once_example =
    refresh_once counting plain_crypto "old" (start 0) "t1" "t2" 0 0 fresh_pair
      (call_login handler (asks "secret") ∷ []) refl

logout_once_example :
    (refresh counting plain_crypto "t1" "old" 0
      (run_all counting plain_crypto [] (logout counting (logout_of "old") (start 0)).1)).0
    ≡ err (sentinel invalid_refresh_token)
unfolding logout revoke
logout_once_example = logout_once counting plain_crypto "old" (start 0) "t1" 0 [] refl refl
