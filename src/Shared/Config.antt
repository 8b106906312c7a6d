-- ===== src/Shared/Config.antt =====
-- internal/shared/config/config.go: the configuration, which the children override, complete and
-- check. `F` is Go's float64; a slice that is nil is none.
pub mod Overrides
pub mod Defaults
pub mod Startup
use go_codebase.Prelude.{String, Bool, Option, List}
use go_codebase.Prelude.Int.{ℤ}

pub record AppConfig : Type 0 where
  pub env : String

pub record ServerConfig : Type 0 where
  pub port : ℤ
  pub read_timeout : ℤ
  pub write_timeout : ℤ
  pub idle_timeout : ℤ
  pub max_request_body_size : ℤ

pub record DatabaseConfig : Type 0 where
  pub host : String
  pub port : ℤ
  pub user : String
  pub password : String
  pub name : String
  pub ssl_mode : String
  pub max_open_conns : ℤ
  pub max_idle_conns : ℤ
  pub conn_max_lifetime : ℤ

pub record RedisConfig : Type 0 where
  pub addr : String
  pub password : String
  pub db : ℤ
  pub pool_size : ℤ

pub record EventsConfig : Type 0 where
  pub driver : String

pub record StreamConfig : Type 0 where
  pub name : String
  pub subjects : Option (List String)
  pub storage : String
  pub retention : String

pub record ConsumerConfig : Type 0 where
  pub durable_name : String
  pub deliver_group : String
  pub ack_policy : String
  pub max_deliver : ℤ
  pub ack_wait : ℤ

pub record NatsConfig : Type 0 where
  pub url : String
  pub debug_endpoint : Bool
  pub stream : StreamConfig
  pub consumer : ConsumerConfig

pub record AuthConfig : Type 0 where
  pub jwt_secret : String
  pub jwt_expiration : ℤ
  pub max_login_attempts : ℤ
  pub lockout_duration : ℤ
  pub token_denylist : Bool

pub record RateLimitConfig : Type 0 where
  pub requests : ℤ
  pub window : ℤ

pub record CorsConfig : Type 0 where
  pub allowed_origins : Option (List String)
  pub allowed_methods : Option (List String)
  pub allowed_headers : Option (List String)
  pub allow_credentials : Bool
  pub max_age : ℤ

pub record IdempotencyConfig : Type 0 where
  pub enabled : Bool
  pub ttl : ℤ

pub record LogConfig : Type 0 where
  pub level : String
  pub format : String

pub record TelemetryConfig (F : Type 0) : Type 0 where
  pub service_name : String
  pub exporter_endpoint : String
  pub sample_rate : F

pub record AsynqConfig : Type 0 where
  pub redis_addr : String

pub record TenantConfig : Type 0 where
  pub enabled : Bool
  pub tenant_header : String
  pub tenant_jwt_claim : String
  pub domain : String

pub record SmtpConfig : Type 0 where
  pub host : String
  pub port : ℤ
  pub username : String
  pub password : String
  pub use_tls : Bool

pub record SendGridConfig : Type 0 where
  pub api_key : String

pub record EmailConfig : Type 0 where
  pub provider : String
  pub from : String
  pub from_name : String
  pub frontend_url : String
  pub smtp : SmtpConfig
  pub send_grid : SendGridConfig

pub record Config (F : Type 0) : Type 0 where
  pub app : AppConfig
  pub server : ServerConfig
  pub database : DatabaseConfig
  pub redis : RedisConfig
  pub nats : NatsConfig
  pub auth : AuthConfig
  pub rate_limit : RateLimitConfig
  pub cors : CorsConfig
  pub idempotency : IdempotencyConfig
  pub log : LogConfig
  pub telemetry : TelemetryConfig F
  pub asynq : AsynqConfig
  pub email : EmailConfig
  pub tenant : TenantConfig
  pub events : EventsConfig
