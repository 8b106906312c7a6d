-- ===== src/Auth/Crypto.antt =====
-- What the authentication commands take from crypto/sha256, bcrypt and the JWT library, none of
-- which is code of the repository. `bcrypt_generate` and `sign` draw on randomness and time, so
-- they also take the number of the call.
use go_codebase.Prelude.{ℕ, String, Bool, Option}

-- internal/core/domain/auth.go
pub record TokenClaims : Type 0 where
  pub user_id : String
  pub email : String
  pub role : String
  pub jti : String
  pub tenant_id : String

pub record Crypto : Type 0 where
  -- SHA-256 of the text, in hexadecimal
  pub sha256_hex : String → String
  pub bcrypt_generate : ℕ → String → Option String
  -- the hash, then the password
  pub bcrypt_compare : String → String → Bool
  -- `domain.TokenService.GenerateToken`
  pub sign : ℕ → TokenClaims → Option String
  -- `uuid.UUID.String`
  pub uuid_string : ℕ → String
