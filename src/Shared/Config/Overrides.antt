-- ===== src/Shared/Config/Overrides.antt =====
-- applyEnvOverrides: a variable of the environment that is set, and that can be read where it is a
-- number, replaces the value of the configuration.
use go_codebase.Prelude.{String, Bool, ◌||◌, Option, some, List, or_else, str_eq, if◌then◌else◌}
use go_codebase.Prelude.Int.{ℤ}
use go_codebase.Shared.Config.{
  AppConfig, ServerConfig, DatabaseConfig, RedisConfig, NatsConfig, AuthConfig, RateLimitConfig,
  CorsConfig, IdempotencyConfig, LogConfig, TelemetryConfig, EmailConfig, SmtpConfig, TenantConfig,
  Config,
}

-- os.Getenv, where "" is a variable that is not set, and what the package strconv reads, with none
-- for an error; `split_comma v` is `strings.Split(v, ",")`.
pub record Environment (F : Type 0) : Type 0 where
  pub getenv : String → String
  pub atoi : String → Option ℤ
  pub parse_int : String → Option ℤ
  pub parse_float : String → Option F
  pub split_comma : String → List String

abbrev pub text_or : (v old : String) → String
text_or v old = if str_eq v "" then old else v

abbrev pub bool_or : (v : String) → Bool → Bool
bool_or v old = if str_eq v "" then old else str_eq v "true" || str_eq v "1"

abbrev pub read_or {ℓ} : {A : Type ℓ} → (String → Option A) → (v : String) → A → A
read_or read v old = if str_eq v "" then old else or_else (read v) old

module _ {F : Type 0} (e : Environment F) where
  abbrev text_env : String → String → String
  text_env key = text_or (e.getenv key)

  abbrev bool_env : String → Bool → Bool
  bool_env key = bool_or (e.getenv key)

  abbrev int_env : String → ℤ → ℤ
  int_env key = read_or e.atoi (e.getenv key)

  unfoldable pub app_overrides : AppConfig → AppConfig
  app_overrides c = record c { env = text_env "APP_ENV" c.env }

  unfoldable pub server_overrides : ServerConfig → ServerConfig
  server_overrides c = record {
    port = int_env "SERVER_PORT" c.port;
    read_timeout = int_env "SERVER_READ_TIMEOUT" c.read_timeout;
    write_timeout = int_env "SERVER_WRITE_TIMEOUT" c.write_timeout;
    idle_timeout = int_env "SERVER_IDLE_TIMEOUT" c.idle_timeout;
    max_request_body_size =
        read_or e.parse_int (e.getenv "MAX_REQUEST_BODY_SIZE") c.max_request_body_size;
  }

  unfoldable pub database_overrides : DatabaseConfig → DatabaseConfig
  database_overrides c = record {
    host = text_env "DB_HOST" c.host;
    port = int_env "DB_PORT" c.port;
    user = text_env "DB_USER" c.user;
    password = text_env "DB_PASSWORD" c.password;
    name = text_env "DB_NAME" c.name;
    ssl_mode = text_env "DB_SSLMODE" c.ssl_mode;
    max_open_conns = int_env "DB_MAX_OPEN_CONNS" c.max_open_conns;
    max_idle_conns = int_env "DB_MAX_IDLE_CONNS" c.max_idle_conns;
    conn_max_lifetime = int_env "DB_CONN_MAX_LIFETIME" c.conn_max_lifetime;
  }

  unfoldable pub redis_overrides : RedisConfig → RedisConfig
  redis_overrides c = record {
    addr = text_env "REDIS_ADDR" c.addr;
    password = text_env "REDIS_PASSWORD" c.password;
    db = int_env "REDIS_DB" c.db;
    pool_size = int_env "REDIS_POOL_SIZE" c.pool_size;
  }

  unfoldable pub nats_overrides : NatsConfig → NatsConfig
  nats_overrides c = record c {
    url = text_env "NATS_URL" c.url;
    debug_endpoint = bool_env "NATS_DEBUG_ENDPOINT" c.debug_endpoint;
  }

  unfoldable pub auth_overrides : AuthConfig → AuthConfig
  auth_overrides c = record {
    jwt_secret = text_env "JWT_SECRET" c.jwt_secret;
    jwt_expiration = int_env "JWT_EXPIRATION" c.jwt_expiration;
    max_login_attempts = int_env "MAX_LOGIN_ATTEMPTS" c.max_login_attempts;
    lockout_duration = int_env "LOCKOUT_DURATION" c.lockout_duration;
    token_denylist = bool_env "TOKEN_DENYLIST" c.token_denylist;
  }

  unfoldable pub cors_overrides : CorsConfig → CorsConfig
  cors_overrides c = record c {
    allowed_origins =
        read_or (λ v. some (some (e.split_comma v))) (e.getenv "CORS_ORIGINS") c.allowed_origins;
    allow_credentials = bool_env "CORS_ALLOW_CREDENTIALS" c.allow_credentials;
    max_age = int_env "CORS_MAX_AGE" c.max_age;
  }

  unfoldable pub rate_limit_overrides : RateLimitConfig → RateLimitConfig
  rate_limit_overrides c = record {
    requests = int_env "RATE_LIMIT_REQUESTS" c.requests;
    window = int_env "RATE_LIMIT_WINDOW" c.window;
  }

  unfoldable pub idempotency_overrides : IdempotencyConfig → IdempotencyConfig
  idempotency_overrides c = record {
    enabled = bool_env "IDEMPOTENCY_ENABLED" c.enabled;
    ttl = int_env "IDEMPOTENCY_TTL" c.ttl;
  }

  unfoldable pub log_overrides : LogConfig → LogConfig
  log_overrides c = record {
    level = text_env "LOG_LEVEL" c.level;
    format = text_env "LOG_FORMAT" c.format;
  }

  unfoldable pub telemetry_overrides : TelemetryConfig F → TelemetryConfig F
  telemetry_overrides c = record {
    service_name = text_env "OTEL_SERVICE_NAME" c.service_name;
    exporter_endpoint = text_env "OTEL_EXPORTER_ENDPOINT" c.exporter_endpoint;
    sample_rate = read_or e.parse_float (e.getenv "OTEL_SAMPLE_RATE") c.sample_rate;
  }

  abbrev smtp_overrides : SmtpConfig → SmtpConfig
  smtp_overrides c = record {
    host = text_env "SMTP_HOST" c.host;
    port = int_env "SMTP_PORT" c.port;
    username = text_env "SMTP_USERNAME" c.username;
    password = text_env "SMTP_PASSWORD" c.password;
    use_tls = bool_env "SMTP_USE_TLS" c.use_tls;
  }

  unfoldable pub email_overrides : EmailConfig → EmailConfig
  email_overrides c = record {
    provider = text_env "EMAIL_PROVIDER" c.provider;
    from = text_env "EMAIL_FROM" c.from;
    from_name = text_env "EMAIL_FROM_NAME" c.from_name;
    frontend_url = text_env "FRONTEND_URL" c.frontend_url;
    smtp = smtp_overrides c.smtp;
    send_grid = record { api_key = text_env "SENDGRID_API_KEY" c.send_grid.api_key };
  }

  unfoldable pub tenant_overrides : TenantConfig → TenantConfig
  tenant_overrides c = record c {
    enabled = bool_env "MULTITENANCY_ENABLED" c.enabled;
    tenant_header = text_env "MULTITENANCY_TENANT_HEADER" c.tenant_header;
    domain = text_env "MULTITENANCY_DOMAIN" c.domain;
  }

  unfoldable pub apply_env_overrides : Config F → Config F
  unfolding app_overrides server_overrides database_overrides redis_overrides nats_overrides
      auth_overrides cors_overrides rate_limit_overrides idempotency_overrides log_overrides
      telemetry_overrides email_overrides tenant_overrides
  apply_env_overrides c = record c {
    app = app_overrides c.app;
    server = server_overrides c.server;
    database = database_overrides c.database;
    redis = redis_overrides c.redis;
    nats = nats_overrides c.nats;
    auth = auth_overrides c.auth;
    cors = cors_overrides c.cors;
    rate_limit = rate_limit_overrides c.rate_limit;
    idempotency = idempotency_overrides c.idempotency;
    log = log_overrides c.log;
    telemetry = telemetry_overrides c.telemetry;
    email = email_overrides c.email;
    tenant = tenant_overrides c.tenant;
  }
