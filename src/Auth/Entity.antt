-- ===== src/Auth/Entity.antt =====
-- internal/authentication/domain/entity and domain/event. `time.Now()` is an argument; durations
-- and times are in nanoseconds.
use go_codebase.Prelude.{ℕ, ◌+◌, String, Bool, true, false, Option, none, some, ltb, is_some}
use go_codebase.Core.Entity.{Entity, new_entity, touch}

pub record User : Type 0 where
  pub entity : Entity
  pub open entity use *
  pub email : String
  pub password : String
  pub name : String
  pub is_active : Bool
  pub failed_login_attempts : ℕ
  pub locked_until : Option ℕ
  pub email_verified : Bool
  pub email_verify_token : Option String
  pub email_verify_expires : Option ℕ
  pub password_reset_token : Option String
  pub password_reset_expires : Option ℕ

unfoldable pub new_user : (uuid now : ℕ) (email password name : String) → User
unfolding new_entity
new_user uuid now email password name = record {
  entity = new_entity uuid now;
  email = email;
  password = password;
  name = name;
  is_active = true;
  failed_login_attempts = 0;
  locked_until = none;
  email_verified = false;
  email_verify_token = none;
  email_verify_expires = none;
  password_reset_token = none;
  password_reset_expires = none;
}

-- `time.Now().Before(*u.LockedUntil)`
unfoldable pub is_locked : (now : ℕ) → User → Bool
is_locked now u = elim u.locked_until [ none ↦ false | some t ↦ ltb now t ]

unfoldable pub lock : (now duration : ℕ) → User → User
lock now duration u = record u {
  failed_login_attempts = u.failed_login_attempts + 1;
  locked_until = some (now + duration);
}

unfoldable pub unlock : User → User
unlock u = record u { failed_login_attempts = 0; locked_until = none }

pub record RefreshToken : Type 0 where
  pub entity : Entity
  pub open entity use *
  pub user_id : ℕ
  pub token : String
  pub expires_at : ℕ
  pub revoked_at : Option ℕ

unfoldable pub new_refresh_token :
    (uuid now : ℕ) (user_id : ℕ) (token : String) (expires_at : ℕ) → RefreshToken
unfolding new_entity
new_refresh_token uuid now user_id token expires_at = record {
  entity = new_entity uuid now;
  user_id = user_id;
  token = token;
  expires_at = expires_at;
  revoked_at = none;
}

-- `time.Now().After(r.ExpiresAt)`
unfoldable pub is_expired : (now : ℕ) → RefreshToken → Bool
is_expired now r = ltb r.expires_at now

unfoldable pub is_revoked : RefreshToken → Bool
is_revoked r = is_some r.revoked_at

-- `now` is for `RevokedAt`, `then_now` for the later reading in `Touch`.
unfoldable pub revoke : (now then_now : ℕ) → RefreshToken → RefreshToken
unfolding touch
revoke now then_now r = record r { revoked_at = some now; entity = touch then_now r.entity }

-- The payloads that the commands publish, with the event types' names as constructors.
pub data Event : Type 0 where
  user_registered : (email name verification_token : String) → Event
  email_verified : (user_id email name : String) → Event
  password_reset_requested : (email name reset_token : String) → Event
