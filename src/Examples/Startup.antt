-- ===== src/Examples/Startup.antt =====
-- The start with no configuration but APP_ENV=production.
use go_codebase.Prelude.{ℕ, ◌≡◌, ◌&&◌, refl, false, none, [], ◌∷◌, str_eq, if◌then◌else◌, ◌==◌}
use go_codebase.Prelude.Int.{pos}
use go_codebase.Core.Proc.{ok}
use go_codebase.Shared.Config.{Config}
use go_codebase.Shared.Config.Overrides.{Environment, apply_env_overrides, app_overrides}
use go_codebase.Shared.Config.Defaults.{Floats, set_defaults, text_default}
use go_codebase.Shared.Config.Startup.{
  new, default_secret, IsComplete, new-IsComplete, new-empty_secret,
}

abbrev production_only : Environment ℕ
production_only = record {
  getenv = λ k. if str_eq k "APP_ENV" then "production" else "";
  atoi = λ s. none;
  parse_int = λ s. none;
  parse_float = λ s. none;
  split_comma = λ s. s ∷ [];
}

abbrev nat_floats : Floats ℕ
nat_floats = record { is_zero = λ n. n == 0; one = 1 }

-- Go's zero value.
abbrev zero_config : Config ℕ
zero_config = record {
  app = record { env = "" };
  server = record {
    port = pos 0;
    read_timeout = pos 0;
    write_timeout = pos 0;
    idle_timeout = pos 0;
    max_request_body_size = pos 0;
  };
  database = record {
    host = "";
    port = pos 0;
    user = "";
    password = "";
    name = "";
    ssl_mode = "";
    max_open_conns = pos 0;
    max_idle_conns = pos 0;
    conn_max_lifetime = pos 0;
  };
  redis = record { addr = ""; password = ""; db = pos 0; pool_size = pos 0 };
  nats = record {
    url = "";
    debug_endpoint = false;
    stream = record { name = ""; subjects = none; storage = ""; retention = "" };
    consumer = record {
      durable_name = "";
      deliver_group = "";
      ack_policy = "";
      max_deliver = pos 0;
      ack_wait = pos 0;
    };
  };
  auth = record {
    jwt_secret = "";
    jwt_expiration = pos 0;
    max_login_attempts = pos 0;
    lockout_duration = pos 0;
    token_denylist = false;
  };
  rate_limit = record { requests = pos 0; window = pos 0 };
  cors = record {
    allowed_origins = none;
    allowed_methods = none;
    allowed_headers = none;
    allow_credentials = false;
    max_age = pos 0;
  };
  idempotency = record { enabled = false; ttl = pos 0 };
  log = record { level = ""; format = "" };
  telemetry = record { service_name = ""; exporter_endpoint = ""; sample_rate = 0 };
  asynq = record { redis_addr = "" };
  email = record {
    provider = "";
    from = "";
    from_name = "";
    frontend_url = "";
    smtp = record { host = ""; port = pos 0; username = ""; password = ""; use_tls = false };
    send_grid = record { api_key = "" };
  };
  tenant = record { enabled = false; tenant_header = ""; tenant_jwt_claim = ""; domain = "" };
  events = record { driver = "" };
}

abbrev started_config : Config ℕ
started_config = set_defaults nat_floats (apply_env_overrides production_only zero_config)

new-IsComplete_example :
    IsComplete nat_floats started_config
    × ((str_eq started_config.app.env "production"
          && str_eq started_config.auth.jwt_secret default_secret)
        ≡ false)
unfolding new
new-IsComplete_example =
    new-IsComplete production_only nat_floats (ok zero_config) started_config refl refl

new-empty_secret_example :
    (d : Config ℕ) × (new production_only nat_floats (ok zero_config) ≡ ok d)
    × (d.auth.jwt_secret ≡ "")
    × (d.app.env ≡ text_default "development" (app_overrides production_only zero_config.app).env)
new-empty_secret_example = new-empty_secret production_only nat_floats zero_config refl refl
