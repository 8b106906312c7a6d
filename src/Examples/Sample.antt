-- ===== src/Examples/Sample.antt =====
-- A small set of tables, a clock that counts the calls, and a cryptography that changes no text.
use go_codebase.Prelude.{ℕ, ◌+◌, String, true, none, some, [], ◌∷◌, str_eq}
use go_codebase.Core.Runtime.{Env, World}
use go_codebase.Auth.Entity.{User, RefreshToken, Event}
use go_codebase.Auth.Tables.{UserRecord, UserToken, password_reset, Db}
use go_codebase.Auth.Crypto.{Crypto}
use go_codebase.Auth.Sessions.{LoginHandler, LoginQuery}

abbrev pub counting : Env
counting = record {
  now = λ n. n;
  random = λ n. some "fresh";
  uuid = λ n. n + 100;
  timestamptz = λ t. t;
  fault = λ n. none;
}

abbrev pub plain_crypto : Crypto
plain_crypto = record {
  sha256_hex = λ s. s;
  bcrypt_generate = λ n p. some p;
  bcrypt_compare = λ h p. str_eq h p;
  sign = λ n c. some "signed";
  uuid_string = λ n. "id";
}

abbrev pub ann : UserRecord
ann = record {
  id = 1;
  email = "ann@example.org";
  name = "Ann";
  is_active = true;
  email_verified_at = some 1;
  created_at = 1;
  updated_at = 1;
  deleted_at = none;
  password = "secret";
}

abbrev pub ann_token : RefreshToken
ann_token = record {
  entity = record { id = 7; created_at = 1; updated_at = 1; deleted_at = none };
  user_id = 1;
  token = "old";
  expires_at = 1000;
  revoked_at = none;
}

abbrev pub reset_row : UserToken
reset_row = record {
  user_id = 1;
  token_type = password_reset;
  token_hash = "reset";
  expires_at = some 1000;
  consumed_at = none;
}

abbrev pub one_user : (attempts : ℕ) → Db
one_user attempts = record {
  users = ann ∷ [];
  credentials = record { user_id = 1; password_hash = "secret"; last_login_at = none } ∷ [];
  security = record { user_id = 1; login_attempts = attempts; locked_until = none } ∷ [];
  user_tokens = reset_row ∷ [];
  refresh_tokens = ann_token ∷ [];
}

abbrev pub start : (attempts : ℕ) → World Db Event
start attempts = record { db = one_user attempts; tick = 10; published = [] }

-- The user of the row, as the repository returns it.
abbrev pub ann_user : (attempts : ℕ) → User
ann_user attempts = record {
  entity = record { id = 1; created_at = 1; updated_at = 1; deleted_at = none };
  email = "ann@example.org";
  password = "secret";
  name = "Ann";
  is_active = true;
  failed_login_attempts = attempts;
  locked_until = none;
  email_verified = true;
  email_verify_token = none;
  email_verify_expires = none;
  password_reset_token = none;
  password_reset_expires = none;
}

abbrev pub handler : LoginHandler
handler = record { max_login_attempts = 5; lockout_duration = 900 }

abbrev pub asks : String → LoginQuery
asks password = record { email = "ann@example.org"; password = password }
