-- ===== src/Shared/Config/Startup.antt =====
-- config.New: what the program starts with.
use go_codebase.Prelude.{
  not, ◌≡◌, refl, ap, String, Bool, true, false, ◌&&◌, Option, none, some, List, str_eq,
  if◌then◌else◌, Bool-cases, inl, inr, is_some,
}
use go_codebase.Prelude.Int.{ℤ, pos, negsuc, is_zero}
use mathlib.Core.Path.{subst}
use go_codebase.Core.Errors.{GoError, plain, wrap}
use go_codebase.Core.Proc.{Result, ok, err}
use go_codebase.Shared.Config.{Config}
use go_codebase.Shared.Config.Overrides.{
  Environment, app_overrides, auth_overrides, apply_env_overrides,
}
use go_codebase.Shared.Config.Defaults.{
  Floats, text_default, int_default, list_default, app_defaults, auth_defaults, set_defaults,
}

abbrev pub default_secret : String
default_secret = "your-secret-key-change-in-production"

abbrev checked : {F : Type 0} → Config F → Result (Config F)
checked c =
    if str_eq c.app.env "production" && str_eq c.auth.jwt_secret default_secret
    then err (plain "JWT_SECRET must be changed in production")
    else ok c

-- `unmarshalled` is what koanf makes of config.yaml and the environment, or its error.
unfoldable pub new :
    {F : Type 0} → Environment F → Floats F → (unmarshalled : Result (Config F)) → Result (Config F)
unfolding apply_env_overrides set_defaults
new e floats (err x) = err (wrap "unmarshal config" x)
new e floats (ok c) = checked (set_defaults floats (apply_env_overrides e c))

abbrev Positive : ℤ → Type 0
Positive n = is_zero n ≡ false

abbrev Filled : String → Type 0
Filled s = str_eq s "" ≡ false

-- No value that setDefaults has a default for is 0, empty or nil. It has none for the connections
-- (the names, addresses and passwords of database, Redis, NATS, mail and telemetry, and the number
-- of the Redis database and the size of its pool), the secret, and the log's level and format.
pub record IsComplete {F : Type 0} (floats : Floats F) (c : Config F) : Type 0 where
  pub env : Filled c.app.env
  pub port : Positive c.server.port
  pub read_timeout : Positive c.server.read_timeout
  pub write_timeout : Positive c.server.write_timeout
  pub idle_timeout : Positive c.server.idle_timeout
  pub body_size : Positive c.server.max_request_body_size
  pub database_port : Positive c.database.port
  pub max_open_conns : Positive c.database.max_open_conns
  pub max_idle_conns : Positive c.database.max_idle_conns
  pub conn_max_lifetime : Positive c.database.conn_max_lifetime
  pub jwt_expiration : Positive c.auth.jwt_expiration
  pub max_login_attempts : Positive c.auth.max_login_attempts
  pub lockout_duration : Positive c.auth.lockout_duration
  pub requests : Positive c.rate_limit.requests
  pub window : Positive c.rate_limit.window
  pub origins : is_some c.cors.allowed_origins ≡ true
  pub methods : is_some c.cors.allowed_methods ≡ true
  pub headers : is_some c.cors.allowed_headers ≡ true
  pub max_age : Positive c.cors.max_age
  pub ttl : Positive c.idempotency.ttl
  pub provider : Filled c.email.provider
  pub sender : Filled c.email.from
  pub sender_name : Filled c.email.from_name
  pub frontend_url : Filled c.email.frontend_url
  pub smtp_host : Filled c.email.smtp.host
  pub smtp_port : Positive c.email.smtp.port
  pub driver : Filled c.events.driver
  pub stream : Filled c.nats.stream.name
  pub storage : Filled c.nats.stream.storage
  pub retention : Filled c.nats.stream.retention
  pub consumer : Filled c.nats.consumer.durable_name
  pub deliver_group : Filled c.nats.consumer.deliver_group
  pub ack_policy : Filled c.nats.consumer.ack_policy
  pub max_deliver : Positive c.nats.consumer.max_deliver
  pub ack_wait : Positive c.nats.consumer.ack_wait
  pub tenant_header : Filled c.tenant.tenant_header
  pub tenant_claim : Filled c.tenant.tenant_jwt_claim
  pub domain : Filled c.tenant.domain
  -- `sample_rate` is not 0
  pub sampled : floats.is_zero c.telemetry.sample_rate ≡ false
  -- A host "localhost" comes with TLS
  pub local_tls : (not c.email.smtp.use_tls && str_eq c.email.smtp.host "localhost") ≡ false
  -- Whatever TOKEN_DENYLIST says
  pub denylist : c.auth.token_denylist ≡ true

text_default-Filled : (d s : String) → Filled d → Filled (text_default d s)
text_default-Filled d s h = elim (Bool-cases (str_eq s "")) [
  | inl empty ↦ rw empty h
  | inr full ↦ rw full full
]

int_default-Positive : (d n : ℤ) → Positive d → Positive (int_default d n)
int_default-Positive d n h = elim (Bool-cases (is_zero n)) [
  | inl null ↦ rw null h
  | inr other ↦ rw other other
]

list_default-some : (d : List String) (o : Option (List String)) → is_some (list_default d o) ≡ true
list_default-some d none = refl
list_default-some d (some xs) = refl

sampled_default :
    {F : Type 0} (floats : Floats F) (x : F)
    → floats.is_zero floats.one ≡ false
    → floats.is_zero (if floats.is_zero x then floats.one else x) ≡ false
sampled_default floats x h = elim (Bool-cases (floats.is_zero x)) [
  | inl null ↦ rw null h
  | inr other ↦ rw other other
]

tls_default : (tls local : Bool) → (not (if not tls && local then true else tls) && local) ≡ false
tls_default true local = refl
tls_default false true = refl
tls_default false false = refl

module _ {F : Type 0} (floats : Floats F) (one_counts : floats.is_zero floats.one ≡ false) where
  set_defaults-IsComplete : (c : Config F) → IsComplete floats (set_defaults floats c)
  unfolding set_defaults
  set_defaults-IsComplete c = record {
    env = text_default-Filled "development" c.app.env refl;
    port = int_default-Positive (pos 8080) c.server.port refl;
    read_timeout = int_default-Positive (pos 30) c.server.read_timeout refl;
    write_timeout = int_default-Positive (pos 30) c.server.write_timeout refl;
    idle_timeout = int_default-Positive (pos 120) c.server.idle_timeout refl;
    body_size = int_default-Positive (pos 10485760) c.server.max_request_body_size refl;
    database_port = int_default-Positive (pos 5432) c.database.port refl;
    max_open_conns = int_default-Positive (pos 25) c.database.max_open_conns refl;
    max_idle_conns = int_default-Positive (pos 5) c.database.max_idle_conns refl;
    conn_max_lifetime = int_default-Positive (pos 300) c.database.conn_max_lifetime refl;
    jwt_expiration = int_default-Positive (pos 3600) c.auth.jwt_expiration refl;
    max_login_attempts = int_default-Positive (pos 5) c.auth.max_login_attempts refl;
    lockout_duration = int_default-Positive (pos 900) c.auth.lockout_duration refl;
    requests = int_default-Positive (pos 100) c.rate_limit.requests refl;
    window = int_default-Positive (pos 60) c.rate_limit.window refl;
    origins = list_default-some _ c.cors.allowed_origins;
    methods = list_default-some _ c.cors.allowed_methods;
    headers = list_default-some _ c.cors.allowed_headers;
    max_age = int_default-Positive (pos 300) c.cors.max_age refl;
    ttl = int_default-Positive (pos 86400) c.idempotency.ttl refl;
    provider = text_default-Filled "console" c.email.provider refl;
    sender = text_default-Filled "no-reply@example.com" c.email.from refl;
    sender_name = text_default-Filled "App" c.email.from_name refl;
    frontend_url = text_default-Filled "http://localhost:3000" c.email.frontend_url refl;
    smtp_host = text_default-Filled "localhost" c.email.smtp.host refl;
    smtp_port = int_default-Positive (pos 587) c.email.smtp.port refl;
    driver = text_default-Filled "memory" c.events.driver refl;
    stream = text_default-Filled "events" c.nats.stream.name refl;
    storage = text_default-Filled "file" c.nats.stream.storage refl;
    retention = text_default-Filled "interest" c.nats.stream.retention refl;
    consumer = text_default-Filled "event-bus" c.nats.consumer.durable_name refl;
    deliver_group = text_default-Filled "event-bus" c.nats.consumer.deliver_group refl;
    ack_policy = text_default-Filled "explicit" c.nats.consumer.ack_policy refl;
    max_deliver = int_default-Positive (negsuc 0) c.nats.consumer.max_deliver refl;
    ack_wait = int_default-Positive (pos 30) c.nats.consumer.ack_wait refl;
    tenant_header = text_default-Filled "X-Tenant-ID" c.tenant.tenant_header refl;
    tenant_claim = text_default-Filled "tenant_id" c.tenant.tenant_jwt_claim refl;
    domain = text_default-Filled "app.com" c.tenant.domain refl;
    sampled = sampled_default floats c.telemetry.sample_rate one_counts;
    local_tls =
        tls_default c.email.smtp.use_tls
          (str_eq (text_default "localhost" c.email.smtp.host) "localhost");
    denylist = refl;
  }

ok_of_guard :
    {A : Type 0} (b : Bool) (e : GoError) (a d : A)
    → (if b then err e else ok a) ≡ ok d
    → (b ≡ false) × (a ≡ d)
ok_of_guard true e a d h = cc
ok_of_guard false e a d h = (refl, cc)

checked-empty : {F : Type 0} (c : Config F) → c.auth.jwt_secret ≡ "" → checked c ≡ ok c
checked-empty c h =
    let other : str_eq c.auth.jwt_secret default_secret ≡ false =
      ap (λ s. str_eq s default_secret) h in
    elim (Bool-cases (str_eq c.app.env "production")) [
      | inl production ↦ rw (production, other) refl
      | inr elsewhere ↦ rw elsewhere refl
    ]

module _ {F : Type 0} (e : Environment F) (floats : Floats F) where
  -- Whatever the file and the environment say, in a configuration that New returns no value that
  -- setDefaults has a default for is 0, empty or nil, the denylist of tokens is on, a mail host
  -- "localhost" has TLS, and it is not that of production with the secret of the example.
  pub new-IsComplete :
      (unmarshalled : Result (Config F)) (d : Config F)
      → floats.is_zero floats.one ≡ false
      → new e floats unmarshalled ≡ ok d
      → IsComplete floats d
        × ((str_eq d.app.env "production" && str_eq d.auth.jwt_secret default_secret) ≡ false)
  unfolding new
  new-IsComplete (err x) d one_counts h = cc
  new-IsComplete (ok c) d one_counts h =
      let full = set_defaults floats (apply_env_overrides e c) in
      let (safe, same) =
        ok_of_guard (str_eq full.app.env "production" && str_eq full.auth.jwt_secret default_secret)
          (plain "JWT_SECRET must be changed in production") full d h in
      (
        subst (IsComplete floats) same
            (set_defaults-IsComplete floats one_counts (apply_env_overrides e c)),
        subst
            (λ k.
              (str_eq k.app.env "production" && str_eq k.auth.jwt_secret default_secret) ≡ false)
            same safe,
      )

  -- Where neither the file nor the environment has a secret, New returns a configuration whose
  -- secret is empty, in production too.
  pub new-empty_secret :
      (c : Config F)
      → c.auth.jwt_secret ≡ ""
      → e.getenv "JWT_SECRET" ≡ ""
      → (d : Config F) × (new e floats (ok c) ≡ ok d)
        × (d.auth.jwt_secret ≡ "")
        × (d.app.env ≡ text_default "development" (app_overrides e c.app).env)
  unfolding new app_overrides auth_overrides app_defaults auth_defaults
  new-empty_secret c no_file no_env =
      let full = set_defaults floats (apply_env_overrides e c) in
      let empty : full.auth.jwt_secret ≡ "" = rw (no_env, no_file) refl in
      (full, checked-empty full empty, empty, refl)
