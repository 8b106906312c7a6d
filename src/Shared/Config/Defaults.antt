-- ===== src/Shared/Config/Defaults.antt =====
-- setDefaults: a value that is zero, empty or nil is replaced.
use go_codebase.Prelude.{
  ◌*◌, String, Bool, true, not, ◌&&◌, Option, none, some, List, [], ◌∷◌, str_eq, if◌then◌else◌,
}
use go_codebase.Prelude.Int.{ℤ, pos, negsuc, is_zero}
use go_codebase.Shared.Config.{
  AppConfig, ServerConfig, DatabaseConfig, NatsConfig, AuthConfig, RateLimitConfig, CorsConfig,
  IdempotencyConfig, TelemetryConfig, EmailConfig, SmtpConfig, EventsConfig, TenantConfig, Config,
}

abbrev pub text_default : (d : String) → String → String
text_default d s = if str_eq s "" then d else s

abbrev pub int_default : (d : ℤ) → ℤ → ℤ
int_default d n = if is_zero n then d else n

abbrev pub list_default : (d : List String) → Option (List String) → Option (List String)
list_default d none = some d
list_default d (some xs) = some xs

unfoldable pub app_defaults : AppConfig → AppConfig
app_defaults c = record { env = text_default "development" c.env }

unfoldable pub server_defaults : ServerConfig → ServerConfig
server_defaults c = record {
  port = int_default (pos 8080) c.port;
  read_timeout = int_default (pos 30) c.read_timeout;
  write_timeout = int_default (pos 30) c.write_timeout;
  idle_timeout = int_default (pos 120) c.idle_timeout;
  max_request_body_size = int_default (pos (10 * 1024 * 1024)) c.max_request_body_size;
}

unfoldable pub database_defaults : DatabaseConfig → DatabaseConfig
database_defaults c = record c {
  port = int_default (pos 5432) c.port;
  max_open_conns = int_default (pos 25) c.max_open_conns;
  max_idle_conns = int_default (pos 5) c.max_idle_conns;
  conn_max_lifetime = int_default (pos 300) c.conn_max_lifetime;
}

-- `cfg.Auth.TokenDenylist = true` has no condition.
unfoldable pub auth_defaults : AuthConfig → AuthConfig
auth_defaults c = record c {
  jwt_expiration = int_default (pos 3600) c.jwt_expiration;
  max_login_attempts = int_default (pos 5) c.max_login_attempts;
  lockout_duration = int_default (pos 900) c.lockout_duration;
  token_denylist = true;
}

unfoldable pub rate_limit_defaults : RateLimitConfig → RateLimitConfig
rate_limit_defaults c = record {
  requests = int_default (pos 100) c.requests;
  window = int_default (pos 60) c.window;
}

unfoldable pub cors_defaults : CorsConfig → CorsConfig
cors_defaults c = record c {
  allowed_origins = list_default ("*" ∷ []) c.allowed_origins;
  allowed_methods =
      list_default ("GET" ∷ "POST" ∷ "PUT" ∷ "PATCH" ∷ "DELETE" ∷ "OPTIONS" ∷ []) c.allowed_methods;
  allowed_headers =
      list_default ("Accept" ∷ "Authorization" ∷ "Content-Type" ∷ "X-Request-ID" ∷ [])
        c.allowed_headers;
  max_age = int_default (pos 300) c.max_age;
}

unfoldable pub idempotency_defaults : IdempotencyConfig → IdempotencyConfig
idempotency_defaults c = record c { ttl = int_default (pos 86400) c.ttl }

abbrev smtp_with_tls : SmtpConfig → SmtpConfig
smtp_with_tls c = record c {
  use_tls = if not c.use_tls && str_eq c.host "localhost" then true else c.use_tls;
}

abbrev smtp_defaults : SmtpConfig → SmtpConfig
smtp_defaults c =
    smtp_with_tls
      (record c { host = text_default "localhost" c.host; port = int_default (pos 587) c.port })

unfoldable pub email_defaults : EmailConfig → EmailConfig
email_defaults c = record c {
  provider = text_default "console" c.provider;
  from = text_default "no-reply@example.com" c.from;
  from_name = text_default "App" c.from_name;
  frontend_url = text_default "http://localhost:3000" c.frontend_url;
  smtp = smtp_defaults c.smtp;
}

unfoldable pub events_defaults : EventsConfig → EventsConfig
events_defaults c = record { driver = text_default "memory" c.driver }

unfoldable pub nats_defaults : NatsConfig → NatsConfig
nats_defaults c = record c {
  stream = record c.stream {
    name = text_default "events" c.stream.name;
    storage = text_default "file" c.stream.storage;
    retention = text_default "interest" c.stream.retention;
  };
  consumer = record {
    durable_name = text_default "event-bus" c.consumer.durable_name;
    deliver_group = text_default "event-bus" c.consumer.deliver_group;
    ack_policy = text_default "explicit" c.consumer.ack_policy;
    max_deliver = int_default (negsuc 0) c.consumer.max_deliver;
    ack_wait = int_default (pos 30) c.consumer.ack_wait;
  };
}

unfoldable pub tenant_defaults : TenantConfig → TenantConfig
tenant_defaults c = record c {
  tenant_header = text_default "X-Tenant-ID" c.tenant_header;
  tenant_jwt_claim = text_default "tenant_id" c.tenant_jwt_claim;
  domain = text_default "app.com" c.domain;
}

-- float64, as far as setDefaults uses it.
pub record Floats (F : Type 0) : Type 0 where
  pub is_zero : F → Bool
  pub one : F

module _ {F : Type 0} (floats : Floats F) where
  unfoldable pub telemetry_defaults : TelemetryConfig F → TelemetryConfig F
  telemetry_defaults c = record c {
    sample_rate = if floats.is_zero c.sample_rate then floats.one else c.sample_rate;
  }

  unfoldable pub set_defaults : Config F → Config F
  unfolding app_defaults server_defaults database_defaults auth_defaults rate_limit_defaults
      cors_defaults idempotency_defaults telemetry_defaults email_defaults events_defaults
      nats_defaults tenant_defaults
  set_defaults c = record c {
    app = app_defaults c.app;
    server = server_defaults c.server;
    database = database_defaults c.database;
    auth = auth_defaults c.auth;
    rate_limit = rate_limit_defaults c.rate_limit;
    cors = cors_defaults c.cors;
    idempotency = idempotency_defaults c.idempotency;
    telemetry = telemetry_defaults c.telemetry;
    email = email_defaults c.email;
    events = events_defaults c.events;
    nats = nats_defaults c.nats;
    tenant = tenant_defaults c.tenant;
  }
