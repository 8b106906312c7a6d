-- ===== src/Infrastructure/Jwt/Admitted.antt =====
-- A token from its generation to the middleware that the program installs.
use Prim.Native.Char.{Char}
use Prim.Native.String.{len, ◌++◌ as append, ◌∷◌ as cons}
use text.Mathlib.TextPositions.{len-append}
use go_codebase.Prelude.{
  inl, inr, ℕ, ◌+◌, ◌<◌, ◌≤◌, ◌≡◌, refl, ◌∙◌, String, true, false, Bool, not, ◌&&◌, ltb,
  if◌then◌else◌, Option, none, some, str_eq, eq_iff, arith, sym, ap, Bool-cases,
}
use go_codebase.Auth.Crypto.{TokenClaims}
use go_codebase.Http.Response.{Response, respond_error}
use go_codebase.Http.Middleware.{RequestContext, with_claims, authentication_with_denylist}
use go_codebase.Http.Guards.{bearer_token-prefix}
use go_codebase.Infrastructure.Jwt.{
  JwtClaims, SigningMethod, hmac, JwtLibrary, JwtTokenService, key_of, claims_of, generate_token,
  validate_token,
}

seven : (n : ℕ) → ¬ (7 + n ≡ 0)
seven n e = omega arith

bearer_nonempty : (token : String) → str_eq (append "Bearer " token) "" ≡ false
bearer_nonempty token =
    let total : len (append "Bearer " token) ≡ 7 + len token = len-append "Bearer " token in
    elim (Bool-cases (str_eq (append "Bearer " token) "")) [
      | inl same ↦
          absurd
            (seven (len token) (sym total ∙ ap len ((eq_iff (append "Bearer " token) "").0 same)))
      | inr other ↦ other
    ]

-- The claims that the service reads are those that were signed; the times may be rounded.
pub record ReadBack (read signed : JwtClaims) : Type 0 where
  pub user_id : read.user_id ≡ signed.user_id
  pub email : read.email ≡ signed.email
  pub role : read.role ≡ signed.role
  pub tenant_id : read.tenant_id ≡ signed.tenant_id
  pub id : read.id ≡ signed.id

-- A token signed with an expiry of NewNumericDate is read back before that time, if the key of its
-- method is the secret, and is an error from then on.
pub record Signs (lib : JwtLibrary) : Type 0 where
  pub reads :
      (secret token : String) (c : JwtClaims) (t : ℕ) (key : SigningMethod → Option String)
      (now : ℕ)
      → lib.signed_string secret c ≡ some token
      → c.expires_at ≡ lib.numeric_date t
      → key hmac ≡ some secret
      → now < c.expires_at
      → (d : JwtClaims) × (lib.parse_with_claims key now token ≡ some (d, true)) × ReadBack d c
  pub expires :
      (secret token : String) (c : JwtClaims) (t : ℕ) (key : SigningMethod → Option String)
      (now : ℕ)
      → lib.signed_string secret c ≡ some token
      → c.expires_at ≡ lib.numeric_date t
      → c.expires_at ≤ now
      → lib.parse_with_claims key now token ≡ none

module _ (lib : JwtLibrary) (signs : Signs lib) (s : JwtTokenService) (issued later : ℕ)
    (tc : TokenClaims) (token : String)
    (made : generate_token lib s issued later tc ≡ some token) where
  validate-generate :
      (now : ℕ)
      → now < lib.numeric_date (issued + s.expiration)
      → validate_token lib s now token ≡ some tc
  unfolding generate_token validate_token
  validate-generate now early =
      let (d, parsed, back) =
        signs.reads s.secret token (claims_of lib s issued later tc) (issued + s.expiration)
          (key_of s) now made refl refl early in
      rw parsed (λ i. some (record {
        user_id = back.user_id i;
        email = back.email i;
        role = back.role i;
        jti = back.id i;
        tenant_id = back.tenant_id i;
      }))

  validate-expired :
      (now : ℕ)
      → lib.numeric_date (issued + s.expiration) ≤ now
      → validate_token lib s now token ≡ none
  unfolding generate_token validate_token
  validate-expired now late =
      rw
        (signs.expires s.secret token (claims_of lib s issued later tc) (issued + s.expiration)
          (key_of s) now made refl late)
        refl

module _ {D : Type 0} (lib : JwtLibrary) (signs : Signs lib) (s : JwtTokenService)
    (issued later : ℕ) (tc : TokenClaims) (ch : Char) (rest : String) where
  -- A request with "Bearer " and a token that the service has generated for a user, before the
  -- middleware that the registry installs: before the token expires it gets to the handler with
  -- that user's claims, if the token has no identifier or the identifier is not denied, and is
  -- refused as revoked, with status 401, if it is; from the expiry on it is refused as invalid,
  -- with status 401, whatever is denied. The library reads back what it has signed until then.
  pub bearer_admitted :
      (denied : String → Bool) (next : RequestContext → Response D) (c : RequestContext) (now : ℕ)
      → generate_token lib s issued later tc ≡ some (cons ch rest)
      → authentication_with_denylist
          (validate_token lib s now)
          denied
          (append "Bearer " (cons ch rest))
          next
          c
        ≡ (if ltb now (lib.numeric_date (issued + s.expiration))
            then if not (str_eq tc.jti "") && denied tc.jti
              then respond_error 401 "UNAUTHORIZED" "token has been revoked"
              else next (with_claims tc c)
            else respond_error 401 "UNAUTHORIZED" "invalid token")
  unfolding authentication_with_denylist
  bearer_admitted denied next c now made =
      let token = cons ch rest in
      let some_header = bearer_nonempty token in
      let read = bearer_token-prefix ch rest in
      elim (Bool-cases (ltb now (lib.numeric_date (issued + s.expiration)))) [
        | inl early ↦
            rw
              (
                early,
                some_header,
                read,
                validate-generate lib signs s issued later tc token made now (ground arith),
              )
              refl
        | inr late ↦
            rw
              (
                late,
                some_header,
                read,
                validate-expired lib signs s issued later tc token made now (ground arith),
              )
              refl
      ]
