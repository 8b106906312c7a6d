-- ===== src/Http/Middleware/Limits.antt =====
-- internal/shared/middleware/ratelimit.go and idempotency.go. Redis is a map from keys; that a key
-- expires is a step of its own between two requests.
use go_codebase.Prelude.{
  ℕ, zero, suc, ◌+◌, ◌-◌, String, Bool, true, false, not, ◌&&◌, ◌||◌, Option, none, some, ltb, leb,
  str_eq, if◌then◌else◌,
}

-- What one request gets: it is let through or refused, and the two headers that depend on it.
pub record RateVerdict : Type 0 where
  pub passes : Bool
  pub remaining : Option ℕ
  pub retry_after : Option ℕ

-- `max(0, limit-int(count))` is the difference on ℕ. `count` is the answer of INCR, none for an
-- error; `ttl` is the key's time to live in seconds.
unfoldable pub rate_limit : (limit : ℕ) (count : Option ℕ) (ttl : ℕ) → RateVerdict
rate_limit limit none ttl = record { passes = true; remaining = none; retry_after = none }
rate_limit limit (some count) ttl =
    if ltb limit count
    then record { passes = false; remaining = some (limit - count); retry_after = some (ttl + 1) }
    else record { passes = true; remaining = some (limit - count); retry_after = none }

-- `n` requests of one address in one window, when INCR has answered `done` before: each INCR
-- answers one more. The number of those let through.
unfoldable pub passed : (limit ttl done n : ℕ) → ℕ
passed limit ttl done zero = 0
passed limit ttl done (suc n) =
    let rest = passed limit ttl (suc done) n in
    if (rate_limit limit (some (suc done)) ttl).passes then suc rest else rest

pub record StoredReply : Type 0 where
  pub status_code : ℕ
  pub body : String

-- Redis, and the state of the handler behind.
pub record Cached (S : Type 0) : Type 0 where
  pub cache : String → Option String
  pub app : S

abbrev pub put : String → String → (String → Option String) → String → Option String
put key value cache other = if str_eq other key then some value else cache other

-- `json.Marshal` and `json.Unmarshal` of an idempotencyEntry.
pub record EntryCodec : Type 0 where
  pub marshal : StoredReply → Option String
  pub unmarshal : String → Option StoredReply

-- The reply that Redis holds, if it has one that can be read.
abbrev pub replay : EntryCodec → Option String → Option StoredReply
replay k none = none
replay k (some cached) = if str_eq cached "" then none else k.unmarshal cached

module _ {S : Type 0} (k : EntryCodec) (next : S → StoredReply × S) where
  abbrev pub pass : Cached S → StoredReply × Cached S
  pass w = let (reply, s) = next w.app in (reply, record w { app = s })

  abbrev pub remembered : String → Option String → (String → Option String) → String → Option String
  remembered redis_key none cache = cache
  remembered redis_key (some text) cache = put redis_key text cache

  abbrev pub first_time : (redis_key : String) → Cached S → StoredReply × Cached S
  first_time redis_key w =
      let (reply, s) = next w.app in
      let good = leb 200 reply.status_code && ltb reply.status_code 300 in
      (
        reply,
        record {
          cache = if good then remembered redis_key (k.marshal reply) w.cache else w.cache;
          app = s;
        },
      )

  -- `redis_key` is "idempotency:" and the header's value, `key`.
  unfoldable pub idempotency :
      (is_post : Bool) (key redis_key : String) → Cached S → StoredReply × Cached S
  idempotency is_post key redis_key w =
      if not is_post || str_eq key "" then pass w else elim (replay k (w.cache redis_key)) [
        | some entry ↦ (entry, w)
        | none ↦ first_time redis_key w
      ]
