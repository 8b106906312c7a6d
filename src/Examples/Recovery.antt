-- ===== src/Examples/Recovery.antt =====
-- One-time tokens of the sample user that lead to a login.
use go_codebase.Prelude.{◌≡◌, arith, refl, some, none, [], ◌∷◌}
use go_codebase.Core.Proc.{ok}
use go_codebase.Core.Runtime.{World, reliable}
use go_codebase.Auth.Entity.{User, Event, new_user, is_locked, user_registered}
use go_codebase.Auth.Tables.{Db}
use go_codebase.Auth.UserRepository.{
  UserRow, get_by_email, create, update, by_token, owner_of, joined, map_row_to_entity,
}
use go_codebase.Auth.Commands.{
  RegisterUserCommand, register, ResetPasswordCommand, hash_token, reset_password, verify_email,
}
use go_codebase.Auth.Sessions.{login}
use go_codebase.Auth.Sessions.Redeemed.Renewed.{Redeems, reset_then_login}
use go_codebase.Auth.Sessions.Redeemed.Registered.{Registers, registered, register_verify_login}
use go_codebase.Examples.Sample.{counting, plain_crypto, ann, start, handler, asks}
use go_codebase.Examples.Sessions.{sample-Integrity}

abbrev renewal : ResetPasswordCommand
renewal = record { token = "reset"; new_password = "new" }

abbrev ann_row : UserRow
ann_row = record {
  user = ann;
  password_hash = some "secret";
  login_attempts = some 2;
  locked_until = none;
  email_verify_token = none;
  email_verify_expires = none;
  password_reset_token = some "reset";
  password_reset_expires = some 1000;
}

sample-Redeems : Redeems counting plain_crypto renewal (start 2) ann_row "new"
unfolding by_token owner_of joined hash_token
sample-Redeems = record { keys = sample-Integrity 2; found = refl; in_time = refl; hashes = refl }

abbrev after_reset : World Db Event
after_reset = (reset_password (reliable counting) plain_crypto renewal (start 2)).1

reset_then_login_example :
    ((reset_password (reliable counting) plain_crypto renewal (start 2)).0 ≡ ok tt)
    × ((u : User) × ((login (reliable counting) plain_crypto handler (asks "new") after_reset).0
          ≡ ok u)
        × (u.entity.id ≡ 1))
unfolding map_row_to_entity is_locked
reset_then_login_example =
    reset_then_login counting plain_crypto renewal (start 2) ann_row "new" handler after_reset
      sample-Redeems refl refl refl refl refl

abbrev newcomer : RegisterUserCommand
newcomer = record { email = "bob@example.org"; password = "pw"; name = "Bob" }

sample-Registers : Registers counting plain_crypto newcomer (start 2) "pw" "fresh"
sample-Registers = record {
  fresh = record { user = refl; credential = refl; security = refl };
  hashes = refl;
  draws = refl;
}

abbrev after_register : World Db Event
after_register = (register (reliable counting) plain_crypto newcomer (start 2)).1

abbrev after_verification : World Db Event
after_verification = (verify_email (reliable counting) plain_crypto "fresh" after_register).1

register_verify_login_example :
    ((register (reliable counting) plain_crypto newcomer (start 2)).0
      ≡ ok (registered counting plain_crypto newcomer (start 2) "pw" "fresh"))
    × (after_register.published ≡ user_registered "bob@example.org" "Bob" "fresh" ∷ [])
    × ((verify_email (reliable counting) plain_crypto "fresh" after_register).0 ≡ ok tt)
    × ((u : User) × ((login
            (reliable counting)
            plain_crypto
            handler
            (record { email = "bob@example.org"; password = "pw" })
            after_verification).0
          ≡ ok u)
        × (u.entity.id
            ≡ (registered counting plain_crypto newcomer (start 2) "pw" "fresh").entity.id))
unfolding hash_token register get_by_email create new_user update
register_verify_login_example =
    register_verify_login counting plain_crypto newcomer (start 2) "pw" "fresh" handler
      after_register after_verification sample-Registers (sample-Integrity 2) refl refl refl
      (omega arith) (omega arith) refl
