-- ===== src/Http/Routes.antt =====
-- internal/shared/router/router.go and the routes.go of the modules: which routes there are below
-- /api/v1, and what a request passes on each of them. That a request comes to a route is chi's
-- matching of methods and patterns, which is not modelled; nor are MaxBodySize and Timeout, which
-- do not look at the user. A pattern is that of the mounted router.
pub mod Protected
use Prim.Native.String.{◌++◌ as append}
use go_codebase.Prelude.{
  ℕ, String, Bool, true, false, not, ◌&&◌, Option, none, some, List, [], ◌∷◌, ◌++◌, map, str_eq,
  if◌then◌else◌,
}
use go_codebase.Auth.Crypto.{TokenClaims}
use go_codebase.Http.Response.{Response}
use go_codebase.Http.Middleware.{
  RequestContext, TenantConfig, Hosts, authentication, authentication_with_denylist, authorization,
  tenant_resolver,
}
use go_codebase.Http.Middleware.Limits.{StoredReply, Cached, EntryCodec, idempotency, pass}

-- A route with the middleware of its router: the authentication, and the permission, if any.
pub record Route : Type 0 where
  pub method : String
  pub pattern : String
  pub authenticated : Bool
  pub permission : Option (String × String)

abbrev open_route : (method pattern : String) → Route
open_route method pattern = record {
  method = method;
  pattern = pattern;
  authenticated = false;
  permission = none;
}

abbrev user_route : (method pattern : String) → Route
user_route method pattern = record (open_route method pattern) { authenticated = true }

abbrev guarded_route : (resource action method pattern : String) → Route
guarded_route resource action method pattern = record (user_route method pattern) {
  permission = some (resource, action);
}

-- internal/authentication/interfaces/http/routes.go
unfoldable pub auth_routes : List Route
auth_routes =
    open_route "POST" "/register"
    ∷ open_route "POST" "/login"
    ∷ open_route "POST" "/refresh"
    ∷ open_route "POST" "/logout"
    ∷ open_route "GET" "/verify-email"
    ∷ open_route "POST" "/forgot-password"
    ∷ open_route "POST" "/reset-password"
    ∷ open_route "POST" "/resend-verification"
    ∷ user_route "POST" "/logout-all"
    ∷ user_route "GET" "/me"
    ∷ []

-- internal/todo/interfaces/http/routes.go
unfoldable pub todo_routes : List Route
todo_routes =
    guarded_route "todo" "create" "POST" "/"
    ∷ guarded_route "todo" "list" "GET" "/"
    ∷ guarded_route "todo" "list" "GET" "/search"
    ∷ guarded_route "todo" "read" "GET" "/{id}"
    ∷ guarded_route "todo" "update" "PUT" "/{id}"
    ∷ guarded_route "todo" "update" "PATCH" "/{id}/complete"
    ∷ guarded_route "todo" "delete" "DELETE" "/{id}"
    ∷ []

-- internal/user/interfaces/http/routes.go
unfoldable pub user_routes : List Route
user_routes =
    guarded_route "user" "create" "POST" "/"
    ∷ guarded_route "user" "read" "GET" "/me"
    ∷ guarded_route "user" "read" "GET" "/"
    ∷ guarded_route "user" "read" "GET" "/{id}"
    ∷ guarded_route "user" "update" "PUT" "/{id}"
    ∷ guarded_route "user" "delete" "DELETE" "/{id}"
    ∷ []

-- internal/tenant/interfaces/http/routes.go
unfoldable pub tenant_routes : List Route
tenant_routes =
    guarded_route "tenant" "create" "POST" "/"
    ∷ guarded_route "tenant" "list" "GET" "/"
    ∷ guarded_route "tenant" "read" "GET" "/{id}"
    ∷ guarded_route "tenant" "update" "PUT" "/{id}"
    ∷ guarded_route "tenant" "delete" "DELETE" "/{id}"
    ∷ []

-- internal/authorization/interfaces/http/routes.go
unfoldable pub authz_routes : List Route
authz_routes =
    guarded_route "role" "create" "POST" "/roles/"
    ∷ guarded_route "role" "list" "GET" "/roles/"
    ∷ guarded_route "role" "read" "GET" "/roles/{id}"
    ∷ guarded_route "role" "update" "PUT" "/roles/{id}"
    ∷ guarded_route "role" "delete" "DELETE" "/roles/{id}"
    ∷ guarded_route "role_permission" "create" "POST" "/roles/{roleId}/permissions/"
    ∷ guarded_route "role_permission" "delete" "DELETE" "/roles/{roleId}/permissions/{permissionId}"
    ∷ guarded_route "role_permission" "list" "GET" "/roles/{roleId}/permissions/"
    ∷ guarded_route "permission" "create" "POST" "/permissions/"
    ∷ guarded_route "permission" "list" "GET" "/permissions/"
    ∷ guarded_route "permission" "read" "GET" "/permissions/{id}"
    ∷ guarded_route "permission" "update" "PUT" "/permissions/{id}"
    ∷ guarded_route "permission" "delete" "DELETE" "/permissions/{id}"
    ∷ guarded_route "user_role" "create" "POST" "/users/{userId}/roles/"
    ∷ guarded_route "user_role" "delete" "DELETE" "/users/{userId}/roles/{roleId}"
    ∷ guarded_route "user_role" "list" "GET" "/users/{userId}/roles/"
    ∷ guarded_route "permission" "read" "POST" "/check-permission"
    ∷ []

-- A router below /api/v1, and whether its group has the authentication and the tenant resolver; the
-- other group has the idempotency keys.
pub record Mounted : Type 0 where
  pub prefix : String
  pub grouped : Bool
  pub routes : List Route

unfoldable pub api : List Mounted
unfolding auth_routes todo_routes user_routes authz_routes tenant_routes
api =
    record { prefix = "/auth"; grouped = false; routes = auth_routes }
    ∷ record { prefix = "/todos"; grouped = true; routes = todo_routes }
    ∷ record { prefix = "/users"; grouped = true; routes = user_routes }
    ∷ record { prefix = "/auth/sessions"; grouped = true; routes = authz_routes }
    ∷ record { prefix = "/admin/tenants"; grouped = true; routes = tenant_routes }
    ∷ []

-- What the middleware takes from outside: the validation of tokens, Redis as a map from keys, where
-- none is a missing key or an error, uuid.Parse, the enforcer, and the configuration.
pub record Services : Type 0 where
  pub validate_token : String → Option TokenClaims
  pub token_denylist : Bool
  pub redis : String → Option String
  pub entries : EntryCodec
  pub denylist_key : (jti : String) → String
  pub parse : String → Option ℕ
  pub enforce : ℕ → String → String → Option Bool
  pub tenants : TenantConfig
  pub hosts : Hosts

-- The headers that the middleware reads.
pub record Headers : Type 0 where
  pub authorization : String
  pub tenant : String
  pub host : String
  pub idempotency_key : String

-- `err == nil && val == "1"`, with "token:blacklist:" before the token's identifier as the key.
unfoldable pub denied : Services → (jti : String) → Bool
denied s jti = elim (s.redis (s.denylist_key jti)) [ none ↦ false | some v ↦ str_eq v "1" ]

module _ {D : Type 0} (s : Services) (h : Headers) where
  -- `mw.Auth` of NewRegistry.
  unfoldable pub auth : (RequestContext → Response D) → RequestContext → Response D
  auth next =
      if s.token_denylist
      then authentication_with_denylist s.validate_token (denied s) h.authorization next
      else authentication s.validate_token h.authorization next

  abbrev permitted :
      Option (String × String) → (RequestContext → Response D) → RequestContext → Response D
  permitted none next = next
  permitted (some (resource, action)) next = authorization s.parse s.enforce resource action next

  -- What the router of the module puts before the handler.
  unfoldable pub routed : Route → (RequestContext → Response D) → RequestContext → Response D
  unfolding auth
  routed r next =
      if r.authenticated then auth (permitted r.permission next) else permitted r.permission next

  -- What the group and the router put before the handler, behind the idempotency keys.
  unfoldable pub behind :
      Mounted → Route → (RequestContext → Response D) → RequestContext → Response D
  unfolding auth routed
  behind m r next =
      if m.grouped
      then auth (λ c. routed r next (tenant_resolver s.hosts s.tenants h.tenant h.host c))
      else routed r next

-- The status and the body as they are written to the client.
abbrev pub written : {D : Type 0} → (body_text : Response D → String) → Response D → StoredReply
written body_text a = record { status_code = a.status; body = body_text a }

module _ {D : Type 0} (s : Services) (h : Headers) (body_text : Response D → String) where
  -- `fmt.Sprintf("idempotency:%s", key)`
  abbrev pub idempotency_redis_key : String
  idempotency_redis_key = append "idempotency:" h.idempotency_key

  -- The whole group, with the reply and Redis afterwards.
  unfoldable pub served :
      Mounted
      → Route
      → (RequestContext → Response D)
      → RequestContext
      → StoredReply × Cached (Unit {0})
  served m r next c =
      let answer : Unit {0} → StoredReply × Unit {0} =
        λ u. (written body_text (behind s h m r next c), u) in
      let w : Cached (Unit {0}) = record { cache = s.redis; app = tt } in
      if m.grouped
      then pass s.entries answer w
      else idempotency s.entries answer (str_eq r.method "POST") h.idempotency_key
          idempotency_redis_key w
