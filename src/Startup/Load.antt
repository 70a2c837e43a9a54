-- ===== src/Startup/Load.antt =====
-- Load of internal/config/config.go, up to its validation.
use kfc_userapi.Prelude.{String, ◌==◌, not, [], ◌∷◌, if◌then◌else◌}
use kfc_userapi.Prelude.Int.{pos}
use kfc_userapi.Domain.Result.{Result, ok, ◌>>=◌}
use kfc_userapi.Startup.Settings.{
  Host, get_env, get_env_bool, get_env_duration, get_env_int, get_env_slice,
}
use kfc_userapi.Startup.Config.{
  Config, AppConfig, LoggerConfig, HttpConfig, GrpcConfig, RedisConfig, JwtConfig, KafkaConfig,
  CrmConfig, OrderConfig, LoyaltyConfig, NotificationConfig, CustomerAuthConfig,
}

abbrev pub default_log_level : String → String
default_log_level env = if env == "production" then "info" else "debug"

abbrev pub default_log_format : String → String
default_log_format env = if env == "production" then "json" else "text"

abbrev pub default_log_output : String → String
default_log_output env = if env == "production" then "both" else "stdout"

module _ (host : Host) where
  unfoldable pub load_app : String → Result AppConfig
  unfolding get_env get_env_bool
  load_app env = do
    debug ← get_env_bool host "APP_DEBUG" (not ((env == "production")))
    ok record {
      name = get_env host "APP_NAME" "kfc-userapi";
      version = get_env host "APP_VERSION" "1.0.0";
      environment = env;
      debug = debug;
    }

  unfoldable pub load_logger : String → Result LoggerConfig
  unfolding get_env
  load_logger env = ok record {
    level = get_env host "LOG_LEVEL" (default_log_level env);
    format = get_env host "LOG_FORMAT" (default_log_format env);
    output = get_env host "LOG_OUTPUT" (default_log_output env);
    file_path = get_env host "LOG_FILE_PATH" "logs/app.log";
    service = get_env host "LOG_SERVICE" "kfc-userapi";
  }

  unfoldable pub load_http : Result HttpConfig
  unfolding get_env get_env_duration get_env_int
  load_http = do
    read_timeout ← get_env_duration host "HTTP_READ_TIMEOUT" (pos 15000000000)
    write_timeout ← get_env_duration host "HTTP_WRITE_TIMEOUT" (pos 15000000000)
    idle_timeout ← get_env_duration host "HTTP_IDLE_TIMEOUT" (pos 60000000000)
    shutdown_timeout ← get_env_duration host "HTTP_SHUTDOWN_TIMEOUT" (pos 10000000000)
    public_order_rate_limit ← get_env_int host "PUBLIC_ORDER_RATE_LIMIT" (pos 10)
    ok record {
      port = get_env host "HTTP_PORT" "8001";
      read_timeout = read_timeout;
      write_timeout = write_timeout;
      idle_timeout = idle_timeout;
      shutdown_timeout = shutdown_timeout;
      cors_allow_origins =
          get_env host "CORS_ALLOW_ORIGINS"
            "http://localhost:4300,http://localhost:4400,http://localhost:4500,http://localhost:4600";
      public_order_rate_limit = public_order_rate_limit;
    }

  unfoldable pub load_grpc : Result GrpcConfig
  unfolding get_env get_env_duration
  load_grpc = do
    shutdown_timeout ← get_env_duration host "GRPC_SHUTDOWN_TIMEOUT" (pos 10000000000)
    ok record { port = get_env host "GRPC_PORT" "9102"; shutdown_timeout = shutdown_timeout }

  unfoldable pub load_redis : Result RedisConfig
  unfolding get_env get_env_duration get_env_int
  load_redis = do
    db ← get_env_int host "REDIS_DB" (pos 0)
    pool_size ← get_env_int host "REDIS_POOL_SIZE" (pos 10)
    min_idle_conns ← get_env_int host "REDIS_MIN_IDLE_CONNS" (pos 5)
    connect_timeout ← get_env_duration host "REDIS_CONNECT_TIMEOUT" (pos 5000000000)
    dial_timeout ← get_env_duration host "REDIS_DIAL_TIMEOUT" (pos 5000000000)
    read_timeout ← get_env_duration host "REDIS_READ_TIMEOUT" (pos 3000000000)
    write_timeout ← get_env_duration host "REDIS_WRITE_TIMEOUT" (pos 3000000000)
    ok record {
      host = get_env host "REDIS_HOST" "localhost";
      port = get_env host "REDIS_PORT" "6379";
      password = get_env host "REDIS_PASSWORD" "";
      db = db;
      pool_size = pool_size;
      min_idle_conns = min_idle_conns;
      connect_timeout = connect_timeout;
      dial_timeout = dial_timeout;
      read_timeout = read_timeout;
      write_timeout = write_timeout;
    }

  unfoldable pub load_jwt : Result JwtConfig
  unfolding get_env get_env_duration
  load_jwt = do
    device_ttl ← get_env_duration host "JWT_DEVICE_TTL" (pos 604800000000000)
    ok record {
      device_secret = get_env host "JWT_DEVICE_SECRET" "";
      device_ttl = device_ttl;
      issuer = get_env host "JWT_ISSUER" "kfc-userapi";
    }

  unfoldable pub load_kafka : Result KafkaConfig
  unfolding get_env get_env_slice
  load_kafka = ok record {
    brokers = get_env_slice host "KAFKA_BROKERS" ("localhost:29092" ∷ []);
    group_id = get_env host "KAFKA_GROUP_ID" "kfc-userapi";
    menu_topic = get_env host "KAFKA_MENU_TOPIC" "crm.menu.updated";
    orders_topic = get_env host "KAFKA_ORDERS_TOPIC" "orders.events";
  }

  unfoldable pub load_crm : Result CrmConfig
  unfolding get_env get_env_duration
  load_crm = do
    timeout ← get_env_duration host "CRM_GRPC_TIMEOUT" (pos 5000000000)
    ok record { address = get_env host "CRM_GRPC_ADDRESS" "localhost:9090"; timeout = timeout }

  unfoldable pub load_order : Result OrderConfig
  unfolding get_env get_env_duration
  load_order = do
    timeout ← get_env_duration host "ORDER_GRPC_TIMEOUT" (pos 5000000000)
    ok record { address = get_env host "ORDER_GRPC_ADDRESS" "localhost:9103"; timeout = timeout }

  unfoldable pub load_loyalty : Result LoyaltyConfig
  unfolding get_env get_env_duration
  load_loyalty = do
    timeout ← get_env_duration host "LOYALTY_GRPC_TIMEOUT" (pos 5000000000)
    ok record { address = get_env host "LOYALTY_GRPC_ADDRESS" "localhost:9104"; timeout = timeout }

  unfoldable pub load_notification : Result NotificationConfig
  unfolding get_env get_env_duration
  load_notification = do
    timeout ← get_env_duration host "NOTIFICATION_GRPC_TIMEOUT" (pos 5000000000)
    ok record {
      address = get_env host "NOTIFICATION_GRPC_ADDRESS" "localhost:9101";
      timeout = timeout;
    }

  unfoldable pub load_customer : String → Result CustomerAuthConfig
  unfolding get_env get_env_bool get_env_duration
  load_customer env = do
    access_ttl ← get_env_duration host "CUSTOMER_ACCESS_TTL" (pos 900000000000)
    refresh_ttl ← get_env_duration host "CUSTOMER_REFRESH_TTL" (pos 2592000000000000)
    code_ttl ← get_env_duration host "CUSTOMER_CODE_TTL" (pos 300000000000)
    dev_echo_code ← get_env_bool host "CUSTOMER_DEV_ECHO_CODE" (not ((env == "production")))
    cookie_secure ← get_env_bool host "CUSTOMER_COOKIE_SECURE" (env == "production")
    kiosk_session_ttl ← get_env_duration host "KIOSK_LOYALTY_SESSION_TTL" (pos 600000000000)
    ok record {
      jwt_secret = get_env host "CUSTOMER_JWT_SECRET" "";
      access_ttl = access_ttl;
      refresh_ttl = refresh_ttl;
      code_ttl = code_ttl;
      dev_echo_code = dev_echo_code;
      cookie_secure = cookie_secure;
      kiosk_session_ttl = kiosk_session_ttl;
    }

  unfoldable pub load_config : String → Result Config
  unfolding load_app load_logger load_http load_grpc load_redis load_jwt load_kafka load_crm
      load_order load_loyalty load_notification load_customer
  load_config env = do
    app ← load_app env
    logger ← load_logger env
    http ← load_http
    grpc ← load_grpc
    redis ← load_redis
    jwt ← load_jwt
    kafka ← load_kafka
    crm ← load_crm
    order ← load_order
    loyalty ← load_loyalty
    notification ← load_notification
    customer ← load_customer env
    ok record {
      app = app;
      logger = logger;
      http = http;
      grpc = grpc;
      redis = redis;
      jwt = jwt;
      kafka = kafka;
      crm = crm;
      order = order;
      loyalty = loyalty;
      notification = notification;
      customer = customer;
    }
