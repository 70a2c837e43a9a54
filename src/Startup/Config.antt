-- ===== src/Startup/Config.antt =====
-- The records of internal/config/config.go. A duration is in nanoseconds.
use kfc_userapi.Prelude.{String, Bool, List}
use kfc_userapi.Prelude.Int.{ℤ}

pub record AppConfig : Type 0 where
  pub name : String
  pub version : String
  pub environment : String
  pub debug : Bool

pub record LoggerConfig : Type 0 where
  pub level : String
  pub format : String
  pub output : String
  pub file_path : String
  pub service : String

pub record HttpConfig : Type 0 where
  pub port : String
  pub read_timeout : ℤ
  pub write_timeout : ℤ
  pub idle_timeout : ℤ
  pub shutdown_timeout : ℤ
  pub cors_allow_origins : String
  pub public_order_rate_limit : ℤ

pub record GrpcConfig : Type 0 where
  pub port : String
  pub shutdown_timeout : ℤ

pub record RedisConfig : Type 0 where
  pub host : String
  pub port : String
  pub password : String
  pub db : ℤ
  pub pool_size : ℤ
  pub min_idle_conns : ℤ
  pub connect_timeout : ℤ
  pub dial_timeout : ℤ
  pub read_timeout : ℤ
  pub write_timeout : ℤ

pub record JwtConfig : Type 0 where
  pub device_secret : String
  pub device_ttl : ℤ
  pub issuer : String

pub record KafkaConfig : Type 0 where
  pub brokers : List String
  pub group_id : String
  pub menu_topic : String
  pub orders_topic : String

pub record CrmConfig : Type 0 where
  pub address : String
  pub timeout : ℤ

pub record OrderConfig : Type 0 where
  pub address : String
  pub timeout : ℤ

pub record LoyaltyConfig : Type 0 where
  pub address : String
  pub timeout : ℤ

pub record NotificationConfig : Type 0 where
  pub address : String
  pub timeout : ℤ

pub record CustomerAuthConfig : Type 0 where
  pub jwt_secret : String
  pub access_ttl : ℤ
  pub refresh_ttl : ℤ
  pub code_ttl : ℤ
  pub dev_echo_code : Bool
  pub cookie_secure : Bool
  pub kiosk_session_ttl : ℤ

pub record Config : Type 0 where
  pub app : AppConfig
  pub logger : LoggerConfig
  pub http : HttpConfig
  pub grpc : GrpcConfig
  pub redis : RedisConfig
  pub jwt : JwtConfig
  pub kafka : KafkaConfig
  pub crm : CrmConfig
  pub order : OrderConfig
  pub loyalty : LoyaltyConfig
  pub notification : NotificationConfig
  pub customer : CustomerAuthConfig
