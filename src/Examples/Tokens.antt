-- ===== src/Examples/Tokens.antt =====
-- A token, and a JWT library that signs the claims of one user only.
use Prim.Native.String.{◌++◌ as append, ◌∷◌ as cons}
use mathlib.Core.Path.{subst}
use go_codebase.Prelude.{
  ◌*◌, ◌/◌, ◌≡◌, refl, sym, String, Bool, true, false, ◌&&◌, Option, none, some, ltb, ◌==◌, str_eq,
  eq_iff, if◌then◌else◌, arith,
}
use go_codebase.Auth.Crypto.{TokenClaims}
use go_codebase.Http.Response.{Response, respond_success}
use go_codebase.Http.Middleware.{RequestContext, with_claims, authentication_with_denylist}
use go_codebase.Infrastructure.Jwt.{
  JwtClaims, hmac, JwtLibrary, JwtTokenService, generate_token, validate_token,
}
use go_codebase.Infrastructure.Jwt.Admitted.{ReadBack, Signs, bearer_admitted}

abbrev ann_claims : TokenClaims
ann_claims = record {
  user_id = "7";
  email = "ann@example.org";
  role = "user";
  jti = "j";
  tenant_id = "";
}

abbrev signable : JwtClaims
signable = record {
  user_id = "7";
  email = "ann@example.org";
  role = "user";
  tenant_id = "";
  expires_at = 1000;
  issued_at = 0;
  subject = "7";
  id = "j";
}

abbrev is_signable : JwtClaims → Bool
is_signable c =
    str_eq c.user_id "7"
    && (str_eq c.email "ann@example.org"
        && (str_eq c.role "user"
            && (str_eq c.tenant_id ""
                && (c.expires_at == 1000
                    && (c.issued_at == 0 && (str_eq c.subject "7" && str_eq c.id "j"))))))

abbrev keyed : Option String → Option (JwtClaims × Bool)
keyed none = none
keyed (some k) = some (signable, true)

abbrev one_user_library : JwtLibrary
one_user_library = record {
  numeric_date = λ n. n / 1000 * 1000;
  signed_string = λ secret c. if is_signable c then some "good" else none;
  parse_with_claims = λ key now t. if ltb now 1000 then keyed (key hmac) else none;
}

signable_eq : (c : JwtClaims) → is_signable c ≡ true → c ≡ signable
signable_eq c h =
    let user_id : c.user_id ≡ "7" = (eq_iff c.user_id "7").0 (ground arith) in
    let email : c.email ≡ "ann@example.org" = (eq_iff c.email "ann@example.org").0 (ground arith) in
    let role : c.role ≡ "user" = (eq_iff c.role "user").0 (ground arith) in
    let tenant_id : c.tenant_id ≡ "" = (eq_iff c.tenant_id "").0 (ground arith) in
    let expires_at : c.expires_at ≡ 1000 = ground arith in
    let issued_at : c.issued_at ≡ 0 = ground arith in
    let subject : c.subject ≡ "7" = (eq_iff c.subject "7").0 (ground arith) in
    let id : c.id ≡ "j" = (eq_iff c.id "j").0 (ground arith) in
    λ i. record {
      user_id = user_id i;
      email = email i;
      role = role i;
      tenant_id = tenant_id i;
      expires_at = expires_at i;
      issued_at = issued_at i;
      subject = subject i;
      id = id i;
    }

signed-signable :
    (secret token : String) (c : JwtClaims)
    → one_user_library.signed_string secret c ≡ some token
    → c ≡ signable
signed-signable secret token c h = signable_eq c (ground arith)

one_user_library-Signs : Signs one_user_library
one_user_library-Signs = record {
  reads = λ secret token c t key now made dated has_key early.
      let same = signed-signable secret token c made in
      let before : ltb now 1000 ≡ true =
        subst (λ d. ltb now d.expires_at ≡ true) same (ground arith) in
      (
        signable,
        rw (has_key, before) refl,
        subst (ReadBack signable) (sym same)
            (record { user_id = refl; email = refl; role = refl; tenant_id = refl; id = refl }),
      );
  expires = λ secret token c t key now made dated late.
      let same = signed-signable secret token c made in
      let after : ltb now 1000 ≡ false =
        subst (λ d. ltb now d.expires_at ≡ false) same (ground arith) in
      rw after refl;
}

abbrev one_user_service : JwtTokenService
one_user_service = record { secret = "key"; expiration = 1000 }

abbrev no_keys : RequestContext
no_keys = record {
  request_id = "";
  user_id = "";
  user_email = "";
  user_role = "";
  tenant_id = "";
  tenant_claim = "";
}

abbrev greeting : RequestContext → Response String
greeting c = respond_success (some c.user_email)

bearer_admitted_example :
    authentication_with_denylist
      (validate_token one_user_library one_user_service 999)
      (λ jti. str_eq jti "stolen")
      (append "Bearer " (cons "g" "ood"))
      greeting
      no_keys
    ≡ greeting (with_claims ann_claims no_keys)
unfolding generate_token
bearer_admitted_example =
    bearer_admitted one_user_library one_user_library-Signs one_user_service 17 17 ann_claims "g"
      "ood" (λ jti. str_eq jti "stolen") greeting no_keys 999 refl
