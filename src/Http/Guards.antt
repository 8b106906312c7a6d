-- ===== src/Http/Guards.antt =====
-- What the middleware lets through.
use Prim.Native.String.{len, slice, ◌++◌ as append, ◌∷◌ as cons}
use Prim.Native.String.len
use Prim.Native.Char.{Char, len_utf8}
use text.Mathlib.TextPositions.{
  len-append, slice-append_right, starts_with-append, eq_refl, len_utf8-pos,
}
use go_codebase.Prelude.{
  ℕ, zero, suc, ◌+◌, ◌-◌, ◌≡◌, refl, String, Bool, true, false, not, ◌&&◌, Option, none, some, ltb,
  leb, str_eq, if◌then◌else◌, ◌⊎◌, inl, inr, arith, Option-cases, Bool-cases,
}
use go_codebase.Auth.Crypto.{TokenClaims}
use go_codebase.Http.Response.{Response, respond_error}
use go_codebase.Http.Middleware.{
  RequestContext, with_claims, bearer_token, authentication_with_denylist, authorization,
}
use go_codebase.Http.Middleware.Limits.{
  rate_limit, passed, StoredReply, Cached, EntryCodec, idempotency, put,
}

-- A token of at least one character behind "Bearer " is read as the token.
pub bearer_token-prefix :
    (ch : Char) (t : String) → bearer_token (append "Bearer " (cons ch t)) ≡ cons ch t
unfolding bearer_token
bearer_token-prefix ch t =
    let token = cons ch t in
    let total : len (append "Bearer " token) ≡ 7 + len token = len-append "Bearer " token in
    let (k, width) = len_utf8-pos ch in
    let size : len token ≡ len_utf8 ch + len t = len.cons ch t in
    let longer : ltb 7 (7 + len token) ≡ true = ground (arith, width, size) in
    let cut : slice (append "Bearer " token) 7 (7 + len token) ≡ token =
      slice-append_right "Bearer " token in
    rw (total, longer, starts_with-append "Bearer " token, cut) refl

module _ {D : Type 0} (validate_token : String → Option TokenClaims) (denied : String → Bool)
    (parse : String → Option ℕ) (enforce : ℕ → String → String → Option Bool)
    (header resource action : String) (next : RequestContext → Response D)
    (c : RequestContext) where
  abbrev pub guarded : Response D
  guarded =
      authentication_with_denylist validate_token denied header
        (authorization parse enforce resource action next) c

  -- The reasons for which a request reaches the handler.
  pub record Admitted : Type 0 where
    pub claims : TokenClaims
    pub uid : ℕ
    pub valid : validate_token (bearer_token header) ≡ some claims
    pub not_denied : (str_eq claims.jti "" ≡ true) ⊎ (denied claims.jti ≡ false)
    pub identified : parse claims.user_id ≡ some uid
    pub allowed : enforce uid resource action ≡ some true
    pub answered : guarded ≡ next (with_claims claims c)

  abbrev pub Refused : Type 0
  Refused = (guarded.status ≡ 401) ⊎ ((guarded.status ≡ 403) ⊎ (guarded.status ≡ 500))

  -- A request behind the denylist's authentication and an authorization is either answered with
  -- status 401, 403 or 500, or it has a valid token that is not denied, of a user who may do the
  -- action, and the handler answers it with the token's claims in its context.
  pub guarded_admits : Refused ⊎ Admitted
  unfolding authentication_with_denylist authorization respond_error
  guarded_admits = elim (Bool-cases (str_eq header "")) [
    | inl e ↦ inl (inl (rw (e) refl))
    | inr e ↦ elim (Option-cases (validate_token (bearer_token header))) [
      | inl v ↦ inl (inl (rw (e, v) refl))
      | inr (claims, v) ↦ elim (Bool-cases (not (str_eq claims.jti "") && denied claims.jti)) [
        | inl d ↦ inl (inl (rw (e, v, d) refl))
        | inr d ↦ elim (Bool-cases (str_eq claims.user_id "")) [
          | inl u ↦ inl (inl (rw (e, v, d, u) refl))
          | inr u ↦ elim (Option-cases (parse claims.user_id)) [
            | inl p ↦ inl (inl (rw (e, v, d, u, p) refl))
            | inr (uid, p) ↦ elim (Option-cases (enforce uid resource action)) [
              | inl f ↦ inl (inr (inr (rw (e, v, d, u, p, f) refl)))
              | inr (false, f) ↦ inl (inr (inl (rw (e, v, d, u, p, f) refl)))
              | inr (true, f) ↦ inr (record {
                claims = claims;
                uid = uid;
                valid = v;
                not_denied = ground arith;
                identified = p;
                allowed = f;
                answered = rw (e, v, d, u, p, f) refl;
              })
            ]
          ]
        ]
      ]
    ]
  ]

passed-from :
    (limit ttl done n : ℕ)
    → passed limit ttl done n ≡ (if leb n (limit - done) then n else limit - done)
unfolding passed rate_limit
passed-from limit ttl done zero = ground arith
passed-from limit ttl done (suc n) = ground (arith, passed-from limit ttl (suc done) n)

-- Of the requests of one address in one window, where Redis answers, those up to the limit pass
-- and no others.
pub rate_limit_window :
    (limit ttl n : ℕ) → passed limit ttl 0 n ≡ (if leb n limit then n else limit)
rate_limit_window limit ttl n = ground (arith, passed-from limit ttl 0 n)

module _ {S : Type 0} (k : EntryCodec) (next : S → StoredReply × S) (key redis_key text : String)
    (keyed : str_eq key "" ≡ false) where
  idempotency-store :
      (w : Cached S)
      → w.cache redis_key ≡ none
      → leb 200 (next w.app).0.status_code ≡ true
      → ltb (next w.app).0.status_code 300 ≡ true
      → k.marshal (next w.app).0 ≡ some text
      → idempotency k next true key redis_key w
        ≡ ((next w.app).0, record { cache = put redis_key text w.cache; app = (next w.app).1 })
  unfolding idempotency
  idempotency-store w first low high stored = rw (keyed, first, low, high, stored) refl

  idempotency-replay :
      (w : Cached S) (reply : StoredReply)
      → w.cache redis_key ≡ some text
      → str_eq text "" ≡ false
      → k.unmarshal text ≡ some reply
      → idempotency k next true key redis_key w ≡ (reply, w)
  unfolding idempotency
  idempotency-replay w reply held filled read = rw (keyed, held, filled, read) refl

-- A POST with a key whose reply was a success is answered from Redis the next time: with the same
-- reply, and without a call of the handler, whatever its state is by then, if Redis held nothing
-- for the key before the first time and reads the entry back that it was given.
pub idempotency_replays :
    {S : Type 0} (k : EntryCodec) (next : S → StoredReply × S) (key redis_key text : String)
    (w : Cached S) (s : S)
    → str_eq key "" ≡ false
    → w.cache redis_key ≡ none
    → leb 200 (next w.app).0.status_code ≡ true
    → ltb (next w.app).0.status_code 300 ≡ true
    → k.marshal (next w.app).0 ≡ some text
    → str_eq text "" ≡ false
    → k.unmarshal text ≡ some (next w.app).0
    → idempotency k next true key redis_key
        (record (idempotency k next true key redis_key w).1 { app = s })
      ≡ ((next w.app).0, record (idempotency k next true key redis_key w).1 { app = s })
idempotency_replays k next key redis_key text w s keyed first low high stored filled read =
    rw (idempotency-store k next key redis_key text keyed w first low high stored) (
      idempotency-replay k next key redis_key text keyed
        (record { cache = put redis_key text w.cache; app = s }) (next w.app).0
        (rw (eq_refl redis_key) refl) filled read)
