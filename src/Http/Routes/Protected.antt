-- ===== src/Http/Routes/Protected.antt =====
-- Who gets to the handlers.
use Prim.Native.String.{◌++◌ as append}
use mathlib.Core.Path.{subst}
use go_codebase.Prelude.{
  ℕ, zero, suc, ◌≡◌, refl, sym, ap, ◌∙◌, String, Bool, true, false, not, ◌&&◌, ◌||◌, Option, none,
  some, List, [], ◌∷◌, str_eq, if◌then◌else◌, ◌⊎◌, inl, inr, at, any, is_some, arith, Bool-cases,
  Option-cases,
}
use go_codebase.Auth.Crypto.{TokenClaims}
use go_codebase.Http.Response.{Response, respond_error}
use go_codebase.Http.Middleware.{
  RequestContext, bearer_token, with_claims, authentication, authentication_with_denylist,
  authorization, tenant_resolver,
}
use go_codebase.Http.Middleware.Limits.{StoredReply, Cached, EntryCodec, pass, replay, idempotency}
use go_codebase.Http.Routes.{
  Route, Mounted, auth_routes, todo_routes, user_routes, authz_routes, tenant_routes, api, Services,
  Headers, denied, auth, permitted, routed, behind, written, idempotency_redis_key, served,
}

abbrev pub Allowed : Services → Option (String × String) → (user_id : String) → Type 0
Allowed s none user_id = Unit
Allowed s (some (resource, action)) user_id =
    (uid : ℕ) × (s.parse user_id ≡ some uid) × (s.enforce uid resource action ≡ some true)

abbrev pub NotDenied : Services → TokenClaims → Type 0
NotDenied s claims =
    (s.token_denylist ≡ false) ⊎ ((str_eq claims.jti "" ≡ true) ⊎ (denied s claims.jti ≡ false))

abbrev pub Refused : {D : Type 0} → Response D → Type 0
Refused a = (a.status ≡ 401) ⊎ ((a.status ≡ 403) ⊎ (a.status ≡ 500))

-- The request came to the handler, in a context that names the user of its token.
pub record Entered {D : Type 0} (s : Services) (h : Headers) (r : Route)
    (next : RequestContext → Response D) (a : Response D) : Type 0 where
  pub claims : TokenClaims
  pub context : RequestContext
  pub valid : s.validate_token (bearer_token h.authorization) ≡ some claims
  pub not_denied : NotDenied s claims
  pub named : context.user_id ≡ claims.user_id
  pub allowed : Allowed s r.permission claims.user_id
  pub answered : a ≡ next context

if_true : {A : Type 0} (b : Bool) (x y : A) → b ≡ true → (if b then x else y) ≡ x
if_true true x y h = refl
if_true false x y h = cc

if_false : {A : Type 0} (b : Bool) (x y : A) → b ≡ false → (if b then x else y) ≡ y
if_false true x y h = cc
if_false false x y h = refl

module _ {D : Type 0} (s : Services) (h : Headers) where
  abbrev Passed : (RequestContext → Response D) → RequestContext → Type 0
  Passed inner c =
      (claims : TokenClaims) × (s.validate_token (bearer_token h.authorization) ≡ some claims)
      × NotDenied s claims
      × (auth s h inner c ≡ inner (with_claims claims c))

  auth-cases :
      (inner : RequestContext → Response D) (c : RequestContext)
      → ((auth s h inner c).status ≡ 401) ⊎ Passed inner c
  unfolding auth authentication authentication_with_denylist respond_error denied
  auth-cases inner c = elim (Bool-cases s.token_denylist) [
    | inl on ↦ elim (Bool-cases (str_eq h.authorization "")) [
      | inl e ↦ inl (rw (on, e) refl)
      | inr e ↦ elim (Option-cases (s.validate_token (bearer_token h.authorization))) [
        | inl v ↦ inl (rw (on, e, v) refl)
        | inr (claims, v) ↦ elim (Bool-cases (not (str_eq claims.jti "") && denied s claims.jti)) [
          | inl d ↦ inl (rw (on, e, v, d) refl)
          | inr d ↦ inr (claims, v, ground arith, rw (on, e, v, d) refl)
        ]
      ]
    ]
    | inr off ↦ elim (Bool-cases (str_eq h.authorization "")) [
      | inl e ↦ inl (rw (off, e) refl)
      | inr e ↦ elim (Option-cases (s.validate_token (bearer_token h.authorization))) [
        | inl v ↦ inl (rw (off, e, v) refl)
        | inr (claims, v) ↦ inr (claims, v, inl off, rw (off, e, v) refl)
      ]
    ]
  ]

  permitted-cases :
      (p : Option (String × String)) (next : RequestContext → Response D) (c : RequestContext)
      → Refused (permitted s h p next c)
        ⊎ (Allowed s p c.user_id × (permitted s h p next c ≡ next c))
  unfolding authorization respond_error
  permitted-cases none next c = inr (tt, refl)
  permitted-cases (some (resource, action)) next c = elim (Bool-cases (str_eq c.user_id "")) [
    | inl u ↦ inl (inl (rw u refl))
    | inr u ↦ elim (Option-cases (s.parse c.user_id)) [
      | inl p ↦ inl (inl (rw (u, p) refl))
      | inr (uid, p) ↦ elim (Option-cases (s.enforce uid resource action)) [
        | inl f ↦ inl (inr (inr (rw (u, p, f) refl)))
        | inr (false, f) ↦ inl (inr (inl (rw (u, p, f) refl)))
        | inr (true, f) ↦ inr ((uid, p, f), rw (u, p, f) refl)
      ]
    ]
  ]

  module _ (r : Route) (next : RequestContext → Response D) where
    abbrev Ends : Response D → Type 0
    Ends a = Refused a ⊎ Entered s h r next a

    -- Behind an authentication that has passed.
    permitted-Ends :
        (claims : TokenClaims) (c : RequestContext)
        → s.validate_token (bearer_token h.authorization) ≡ some claims
        → NotDenied s claims
        → c.user_id ≡ claims.user_id
        → Ends (permitted s h r.permission next c)
    permitted-Ends claims c valid not_denied named = elim (permitted-cases r.permission next c) [
      | inl refused ↦ inl refused
      | inr (allowed, answered) ↦ inr (record {
        claims = claims;
        context = c;
        valid = valid;
        not_denied = not_denied;
        named = named;
        allowed = subst (Allowed s r.permission) named allowed;
        answered = answered;
      })
    ]

    routed-Ends : (c : RequestContext) → r.authenticated ≡ true → Ends (routed s h r next c)
    unfolding routed
    routed-Ends c behind =
        let inner = permitted s h r.permission next in
        let chosen : routed s h r next c ≡ auth s h inner c =
          ap (λ k. k c) (if_true r.authenticated (auth s h inner) inner behind) in
        elim (auth-cases inner c) [
          | inl refused ↦ inl (inl (ap (λ a. a.status) chosen ∙ refused))
          | inr (claims, valid, not_denied, same) ↦
              subst Ends (sym (chosen ∙ same))
                (permitted-Ends claims (with_claims claims c) valid not_denied refl)
        ]

    unrouted-Ends :
        (claims : TokenClaims) (c : RequestContext)
        → s.validate_token (bearer_token h.authorization) ≡ some claims
        → NotDenied s claims
        → c.user_id ≡ claims.user_id
        → Ends (routed s h r next c)
    unfolding routed
    unrouted-Ends claims c valid not_denied named = elim (Bool-cases r.authenticated) [
      | inl behind ↦ routed-Ends c behind
      | inr before ↦
          let inner = permitted s h r.permission next in
          subst Ends (sym (ap (λ k. k c) (if_false r.authenticated (auth s h inner) inner before)))
            (permitted-Ends claims c valid not_denied named)
    ]

    behind-Ends :
        (m : Mounted) (c : RequestContext)
        → (m.grouped || r.authenticated) ≡ true
        → Ends (behind s h m r next c)
    unfolding behind tenant_resolver
    behind-Ends m c covered =
        let group = λ (k : RequestContext).
          routed s h r next (tenant_resolver s.hosts s.tenants h.tenant h.host k) in
        elim (Bool-cases m.grouped) [
          | inl grouped ↦
              let chosen : behind s h m r next c ≡ auth s h group c =
                ap (λ k. k c) (if_true m.grouped (auth s h group) (routed s h r next) grouped) in
              elim (auth-cases group c) [
                | inl refused ↦ inl (inl (ap (λ a. a.status) chosen ∙ refused))
                | inr (claims, valid, not_denied, same) ↦ subst Ends (sym (chosen ∙ same)) (
                    unrouted-Ends claims
                      (tenant_resolver s.hosts s.tenants h.tenant h.host (with_claims claims c))
                      valid not_denied refl)
              ]
          | inr alone ↦
              let behind : r.authenticated ≡ true = ground (arith, covered, alone) in
              subst Ends
                (sym
                  (ap (λ k. k c) (if_false m.grouped (auth s h group) (routed s h r next) alone)))
                (routed-Ends c behind)
        ]

-- The routes that anybody may use.
abbrev pub is_open : Mounted → Route → Bool
is_open m r =
    str_eq m.prefix "/auth"
    && any (λ p. str_eq r.pattern p)
        ("/register" ∷ "/login" ∷ "/refresh" ∷ "/logout" ∷ "/verify-email" ∷ "/forgot-password"
          ∷ "/reset-password" ∷ "/resend-verification" ∷ [])

abbrev holds_all : {A : Type 0} → (A → Bool) → List A → Bool
holds_all p [] = true
holds_all p (x ∷ xs) = p x && holds_all p xs

holds_all-at :
    {A : Type 0} (p : A → Bool) (xs : List A) (i : ℕ) (x : A)
    → holds_all p xs ≡ true
    → at i xs ≡ some x
    → p x ≡ true
holds_all-at p [] i x h e = cc
holds_all-at p (y ∷ ys) zero x h e = ground arith
holds_all-at p (y ∷ ys) (suc i) x h e = holds_all-at p ys i x (ground arith) e

-- Of the routes with an authentication of their own, only this one answers a POST.
abbrev is_logout_all : Mounted → Route → Bool
is_logout_all m r = m.grouped || (not (str_eq r.method "POST") || str_eq r.pattern "/logout-all")

abbrev is_covered : Mounted → Route → Bool
is_covered m r =
    is_open m r
    || ((m.grouped || r.authenticated)
        && ((str_eq m.prefix "/auth" || is_some r.permission) && is_logout_all m r))

api-covered : holds_all (λ m. holds_all (is_covered m) m.routes) api ≡ true
unfolding api auth_routes todo_routes user_routes authz_routes tenant_routes
api-covered = refl

-- The reply is the one that Redis holds for the request's idempotency key, at POST /logout-all.
pub record Replayed (s : Services) (h : Headers) (m : Mounted) (r : Route) (reply : StoredReply)
    : Type 0 where
  pub ungrouped : m.grouped ≡ false
  pub post : str_eq r.method "POST" ≡ true
  pub pattern : str_eq r.pattern "/logout-all" ≡ true
  pub keyed : str_eq h.idempotency_key "" ≡ false
  pub held : replay s.entries (s.redis (append "idempotency:" h.idempotency_key)) ≡ some reply

module _ {S : Type 0} (k : EntryCodec) (next : S → StoredReply × S) (is_post : Bool)
    (key redis_key : String) (w : Cached S) where
  -- The handler is called, or the reply is from Redis.
  idempotency-cases :
      ((idempotency k next is_post key redis_key w).0 ≡ (next w.app).0)
      ⊎ ((is_post ≡ true)
          × (str_eq key "" ≡ false)
          × (replay k (w.cache redis_key) ≡ some (idempotency k next is_post key redis_key w).0))
  unfolding idempotency
  idempotency-cases = elim (Bool-cases (not is_post || str_eq key "")) [
    | inl skipped ↦ inl (rw skipped refl)
    | inr tried ↦ elim (Option-cases (replay k (w.cache redis_key))) [
      | inl missing ↦ inl (rw (tried, missing) refl)
      | inr (entry, held) ↦
          inr (ground (arith, tried), ground (arith, tried), rw (tried, held) refl)
    ]
  ]

module _ {D : Type 0} (s : Services) (h : Headers) (body_text : Response D → String) (m : Mounted)
    (r : Route) (next : RequestContext → Response D) (c : RequestContext) where
  served-cases :
      is_logout_all m r ≡ true
      → ((served s h body_text m r next c).0 ≡ written body_text (behind s h m r next c))
        ⊎ Replayed s h m r (served s h body_text m r next c).0
  unfolding served
  served-cases only =
      let answer : Unit {0} → StoredReply × Unit {0} =
        λ u. (written body_text (behind s h m r next c), u) in
      let w : Cached (Unit {0}) = record { cache = s.redis; app = tt } in
      let passed = pass s.entries answer w in
      let redis_key = idempotency_redis_key s h body_text in
      let keyed =
        idempotency s.entries answer (str_eq r.method "POST") h.idempotency_key redis_key w in
      elim (Bool-cases m.grouped) [
        | inl grouped ↦ inl (ap (λ p. p.0) (if_true m.grouped passed keyed grouped))
        | inr alone ↦
            let chosen = ap (λ p. p.0) (if_false m.grouped passed keyed alone) in
            elim (idempotency-cases s.entries answer (str_eq r.method "POST") h.idempotency_key
              redis_key w) [
                | inl called ↦ inl (chosen ∙ called)
                | inr (post, given, held) ↦ inr (record {
                  ungrouped = alone;
                  post = post;
                  pattern = ground (arith, post, only, alone);
                  keyed = given;
                  held = held ∙ ap some (sym chosen);
                })
              ]
      ]

-- A request to a route of the API that is not one of the eight open ones of /auth is answered with
-- status 401, 403 or 500, or its token is valid and not denied, its user has the permission that
-- the route names, and the handler answers it in a context that names that user; except that a
-- POST to /auth/logout-all with an idempotency key for which Redis has a readable reply gets that
-- reply. Outside /auth every route names a permission.
pub protected_route :
    {D : Type 0} (s : Services) (h : Headers) (body_text : Response D → String) (i j : ℕ)
    (m : Mounted) (r : Route) (next : RequestContext → Response D) (c : RequestContext)
    → at i api ≡ some m
    → at j m.routes ≡ some r
    → is_open m r ≡ false
    → ((((served s h body_text m r next c).0 ≡ written body_text (behind s h m r next c))
          × (Refused (behind s h m r next c) ⊎ Entered s h r next (behind s h m r next c)))
        ⊎ Replayed s h m r (served s h body_text m r next c).0)
      × ((str_eq m.prefix "/auth" || is_some r.permission) ≡ true)
protected_route s h body_text i j m r next c mounted listed closed =
    let all : holds_all (is_covered m) m.routes ≡ true =
      holds_all-at (λ k. holds_all (is_covered k) k.routes) api i m api-covered mounted in
    let covered : is_covered m r ≡ true = holds_all-at (is_covered m) m.routes j r all listed in
    (
      elim (served-cases s h body_text m r next c (ground (arith, covered, closed))) [
        | inl same ↦ inl (same, behind-Ends s h r next m c (ground (arith, covered, closed)))
        | inr replayed ↦ inr replayed
      ],
      ground (arith, covered, closed),
    )
