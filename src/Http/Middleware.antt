-- ===== src/Http/Middleware.antt =====
-- internal/shared/middleware: what a request passes before its handler. A middleware is a function
-- of the handler behind it, `next`, here of the values that the middleware adds to the context.
pub mod Limits
use Prim.Native.String.{len, slice}
use text.Mathlib.Text.{starts_with}
use go_codebase.Prelude.{
  ℕ, String, ◌≡◌, refl, Bool, true, false, not, ◌&&◌, ◌||◌, Option, none, some, ltb, str_eq,
  if◌then◌else◌,
}
use go_codebase.Auth.Crypto.{TokenClaims}
use go_codebase.Http.Response.{
  Response, respond_error, respond_unauthorized, respond_forbidden, respond_internal_error,
}

-- The values under the context's keys; "" is what the getters return for a key without a value.
pub record RequestContext : Type 0 where
  pub request_id : String
  pub user_id : String
  pub user_email : String
  pub user_role : String
  pub tenant_id : String
  pub tenant_claim : String

-- `RequestID`, with the text of a fresh UUID.
unfoldable pub with_request_id : (header fresh : String) → RequestContext → RequestContext
with_request_id header fresh c = record c {
  request_id = if str_eq header "" then fresh else header;
}

-- `if len(tokenStr) > 7 && tokenStr[:7] == "Bearer " { tokenStr = tokenStr[7:] }`
unfoldable pub bearer_token : String → String
bearer_token s = if ltb 7 (len s) && starts_with s "Bearer " then slice s 7 (len s) else s

abbrev pub with_claims : TokenClaims → RequestContext → RequestContext
with_claims t c = record c {
  user_id = t.user_id;
  user_email = t.email;
  user_role = t.role;
  tenant_claim = t.tenant_id;
}

module _ {D : Type 0} (validate_token : String → Option TokenClaims) where
  -- `tokenSvc.ValidateToken`, with none for an error.
  unfoldable pub authentication :
      (header : String) → (RequestContext → Response D) → RequestContext → Response D
  unfolding bearer_token respond_error
  authentication header next c =
      if str_eq header ""
      then respond_unauthorized "missing token"
      else elim (validate_token (bearer_token header)) [
        | none ↦ respond_unauthorized "invalid token"
        | some claims ↦ next (with_claims claims c)
      ]

  unfoldable pub authentication_with_denylist :
      (denied : String → Bool)
      → (header : String) → (RequestContext → Response D)
      → RequestContext
      → Response D
  unfolding bearer_token respond_error
  authentication_with_denylist denied header next c =
      if str_eq header ""
      then respond_unauthorized "missing token"
      else elim (validate_token (bearer_token header)) [
        | none ↦ respond_unauthorized "invalid token"
        | some claims ↦
            if not (str_eq claims.jti "") && denied claims.jti
            then respond_unauthorized "token has been revoked"
            else next (with_claims claims c)
      ]

-- `parse` is uuid.Parse; `enforce` is the Authorizer, with none for an error.
module _ {D : Type 0} (parse : String → Option ℕ)
    (enforce : ℕ → String → String → Option Bool) where
  unfoldable pub authorization :
      (resource action : String) → (RequestContext → Response D) → RequestContext → Response D
  unfolding respond_error
  authorization resource action next c =
      if str_eq c.user_id ""
      then respond_unauthorized "user not authenticated"
      else elim (parse c.user_id) [
        | none ↦ respond_unauthorized "invalid user ID"
        | some uid ↦ elim (enforce uid resource action) [
          | none ↦ respond_internal_error "authorization check failed"
          | some false ↦ respond_forbidden "FORBIDDEN" "insufficient permissions"
          | some true ↦ next c
        ]
      ]

pub record TenantConfig : Type 0 where
  pub enabled : Bool
  pub domain : String

-- What tenant.go takes of the package strings.
pub record Hosts : Type 0 where
  -- `strings.Split(host, ":")[0]`
  pub before_colon : String → String
  pub has_suffix : (s suffix : String) → Bool
  pub trim_suffix : (s suffix : String) → String
  -- `"." + domainSuffix`
  pub dotted : String → String

module _ (h : Hosts) where
  unfoldable pub domain_from_host : (host domain_suffix : String) → String
  domain_from_host host domain_suffix =
      let name = h.before_colon host in
      if h.has_suffix name (h.dotted domain_suffix)
      then h.trim_suffix name (h.dotted domain_suffix)
      else ""

  -- `header` is the request's value of the configured tenant header.
  unfoldable pub resolve_tenant : TenantConfig → (header host : String) → RequestContext → String
  unfolding domain_from_host
  resolve_tenant cfg header host c =
      let sub = domain_from_host host cfg.domain in
      if not (str_eq c.tenant_claim "")
      then c.tenant_claim
      else if not (str_eq header "")
      then header
      else if not (str_eq sub "") && not (str_eq sub "www")
      then sub
      else ""

  unfoldable pub tenant_resolver :
      TenantConfig → (header host : String) → RequestContext → RequestContext
  unfolding resolve_tenant
  tenant_resolver cfg header host c = record c {
    tenant_id = if cfg.enabled then resolve_tenant cfg header host c else "";
  }
