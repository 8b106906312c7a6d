-- ===== src/Infrastructure/Jwt.antt =====
-- internal/infrastructure/auth/jwt.go, over the JWT library, which is a parameter. Times are
-- nanoseconds.
pub mod Admitted
use go_codebase.Prelude.{ℕ, ◌+◌, ◌*◌, String, Bool, true, false, Option, none, some, if◌then◌else◌}
use go_codebase.Auth.Crypto.{TokenClaims}

-- jwtClaims with its RegisteredClaims; `id` is the claim jti.
pub record JwtClaims : Type 0 where
  pub user_id : String
  pub email : String
  pub role : String
  pub tenant_id : String
  pub expires_at : ℕ
  pub issued_at : ℕ
  pub subject : String
  pub id : String

-- Whether `token.Method` is a *jwt.SigningMethodHMAC.
pub data SigningMethod : Type 0 where
  hmac other_method : SigningMethod

pub record JwtLibrary : Type 0 where
  -- `jwt.NewNumericDate`
  pub numeric_date : ℕ → ℕ
  -- `NewWithClaims(SigningMethodHS256, claims).SignedString(secret)`, with none for an error
  pub signed_string : (secret : String) → JwtClaims → Option String
  -- `ParseWithClaims` at a time: the claims and `token.Valid`, with none for an error; the function
  -- gives the key for a token's method
  pub parse_with_claims :
      (key : SigningMethod → Option String) (now : ℕ) → String → Option (JwtClaims × Bool)

pub record JwtTokenService : Type 0 where
  pub secret : String
  pub expiration : ℕ

-- `seconds` is cfg.Auth.JWTExpiration.
unfoldable pub new_jwt_token_service : (secret : String) (seconds : ℕ) → JwtTokenService
new_jwt_token_service secret seconds = record {
  secret = secret;
  expiration = seconds * 1_000_000_000;
}

abbrev pub key_of : JwtTokenService → SigningMethod → Option String
key_of s hmac = some s.secret
key_of s other_method = none

module _ (lib : JwtLibrary) (s : JwtTokenService) where
  -- The two readings of the clock.
  abbrev pub claims_of : (now later : ℕ) → TokenClaims → JwtClaims
  claims_of now later tc = record {
    user_id = tc.user_id;
    email = tc.email;
    role = tc.role;
    tenant_id = tc.tenant_id;
    expires_at = lib.numeric_date (now + s.expiration);
    issued_at = lib.numeric_date later;
    subject = tc.user_id;
    id = tc.jti;
  }

  unfoldable pub generate_token : (now later : ℕ) → TokenClaims → Option String
  generate_token now later tc = lib.signed_string s.secret (claims_of now later tc)

  abbrev accepted : Option (JwtClaims × Bool) → Option TokenClaims
  accepted none = none
  accepted (some (c, false)) = none
  accepted (some (c, true)) = some (record {
    user_id = c.user_id;
    email = c.email;
    role = c.role;
    jti = c.id;
    tenant_id = c.tenant_id;
  })

  -- With none for an error.
  unfoldable pub validate_token : (now : ℕ) → String → Option TokenClaims
  validate_token now token = accepted (lib.parse_with_claims (key_of s) now token)
