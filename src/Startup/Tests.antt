-- ===== src/Startup/Tests.antt =====
-- The validation at a configuration for production.
use kfc_userapi.Prelude.{◌≡◌, ◌↔◌, refl, true, false, none, some, []}
use kfc_userapi.Prelude.Int.{pos}
use kfc_userapi.Startup.Settings.{Host}
use kfc_userapi.Startup.Config.{
  AppConfig, LoggerConfig, HttpConfig, GrpcConfig, RedisConfig, JwtConfig, KafkaConfig, CrmConfig,
  OrderConfig, LoyaltyConfig, NotificationConfig, CustomerAuthConfig, Config,
}
use kfc_userapi.Startup.Validate.{validate}
use kfc_userapi.Startup.Validate.Laws.{IsValidConfig, validate-iff-IsValidConfig}

-- an empty environment, on a host that reads every number as 8001
abbrev host : Host
host = record {
  getenv = λ key. "";
  to_lower = λ s. s;
  split = λ s. [];
  parse_bool = λ s. none;
  atoi = λ s. none;
  parse_duration = λ s. none;
  scan_int = λ s. some (pos 8001);
}

abbrev sample_app : AppConfig
sample_app = record { name = "x"; version = "x"; environment = "production"; debug = false }

abbrev sample_logger : LoggerConfig
sample_logger = record {
  level = "info";
  format = "json";
  output = "both";
  file_path = "x";
  service = "x";
}

abbrev sample_http : HttpConfig
sample_http = record {
  port = "8001";
  read_timeout = pos 5;
  write_timeout = pos 5;
  idle_timeout = pos 5;
  shutdown_timeout = pos 5;
  cors_allow_origins = "x";
  public_order_rate_limit = pos 5;
}

abbrev sample_grpc : GrpcConfig
sample_grpc = record { port = "8001"; shutdown_timeout = pos 5 }

abbrev sample_redis : RedisConfig
sample_redis = record {
  host = "x";
  port = "8001";
  password = "x";
  db = pos 5;
  pool_size = pos 5;
  min_idle_conns = pos 5;
  connect_timeout = pos 5;
  dial_timeout = pos 5;
  read_timeout = pos 5;
  write_timeout = pos 5;
}

abbrev sample_jwt : JwtConfig
sample_jwt = record {
  device_secret = "0123456789abcdef0123456789abcdef";
  device_ttl = pos 5;
  issuer = "x";
}

abbrev sample_kafka : KafkaConfig
sample_kafka = record { brokers = []; group_id = "x"; menu_topic = "x"; orders_topic = "x" }

abbrev sample_crm : CrmConfig
sample_crm = record { address = "x"; timeout = pos 5 }

abbrev sample_order : OrderConfig
sample_order = record { address = "x"; timeout = pos 5 }

abbrev sample_loyalty : LoyaltyConfig
sample_loyalty = record { address = "x"; timeout = pos 5 }

abbrev sample_notification : NotificationConfig
sample_notification = record { address = "x"; timeout = pos 5 }

abbrev sample_customer : CustomerAuthConfig
sample_customer = record {
  jwt_secret = "fedcba9876543210fedcba9876543210";
  access_ttl = pos 5;
  refresh_ttl = pos 5;
  code_ttl = pos 5;
  dev_echo_code = false;
  cookie_secure = false;
  kiosk_session_ttl = pos 5;
}

abbrev config : Config
config = record {
  app = sample_app;
  logger = sample_logger;
  http = sample_http;
  grpc = sample_grpc;
  redis = sample_redis;
  jwt = sample_jwt;
  kafka = sample_kafka;
  crm = sample_crm;
  order = sample_order;
  loyalty = sample_loyalty;
  notification = sample_notification;
  customer = sample_customer;
}

sample_passes : validate host true config ≡ []
unfolding validate
sample_passes = refl

validate-iff-IsValidConfig_example : (validate host true config ≡ []) ↔ IsValidConfig host config
validate-iff-IsValidConfig_example = validate-iff-IsValidConfig host true config
