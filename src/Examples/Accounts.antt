-- ===== src/Examples/Accounts.antt =====
-- Accounts of the sample user: logins and one-time tokens.
use go_codebase.Prelude.{◌↔◌, true, ◌≡◌, refl, false, some, none, List, [], ◌∷◌}
use go_codebase.Core.Proc.{ok}
use go_codebase.Core.Runtime.{Env, reliable}
use go_codebase.Auth.Entity.{User, is_locked}
use go_codebase.Auth.UserRepository.{get_by_reset_token, map_row_to_entity, joined}
use go_codebase.Auth.UserRepository.RoundTrip.{looked_up}
use go_codebase.Auth.Stable.Replay.{reset_token_survives}
use go_codebase.Auth.Handlers.{login_http}
use go_codebase.Auth.Answers.{login_http-hides}
use go_codebase.Auth.Trace.{Call, call_register, call_reset, call_forgot, run_all}
use go_codebase.Examples.Sample.{counting, plain_crypto, ann_user, start, handler, asks}

-- A clock that stands still.
abbrev still : Env
still = record counting { now = λ n. 5 }

abbrev requests : List Call
requests =
    call_register (record { email = "bob@example.org"; password = "pw"; name = "Bob" })
    ∷ call_forgot "ann@example.org"
    ∷ call_reset (record { token = "reset"; new_password = "new" })
    ∷ []

reset_token_example :
    (u : User) × ((get_by_reset_token
        (reliable still)
        "reset"
        (run_all still plain_crypto requests (start 0))).0
      ≡ ok u)
reset_token_example =
    reset_token_survives still plain_crypto "reset" requests (start 0) (record { holds = refl })

login_hides_example :
    ((login_http false ""
        (reliable counting)
        plain_crypto
        ""
        handler
        (some (record { email = "eve@example.org"; password = "x" }))
        (λ q. none)
        (start 0)).0
      ≡ (login_http false ""
          (reliable counting)
          plain_crypto
          ""
          handler
          (some (asks "x"))
          (λ q. none)
          (start 0)).0)
    ↔ (true ≡ true)
unfolding looked_up is_locked map_row_to_entity joined
login_hides_example =
    login_http-hides false "" plain_crypto "" handler (λ q. none) counting
      (record { email = "eve@example.org"; password = "x" }) (asks "x") (start 0) (start 0)
      (ann_user 0) refl refl refl refl refl
