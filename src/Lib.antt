-- ===== src/Lib.antt =====
-- Models of kfc-userapi, the service behind the kiosks, the kitchen screens, the hall displays and
-- the website of a restaurant chain. It keeps no orders, menus or members itself: it checks and
-- prices what clients send, and calls kfc-order, kfc-loyalty, kfc-crm, kfc-notification and Redis.
--
-- Prelude      names, Boolean tests, signed integers with their wrap-around, lists, texts.
-- Domain       internal/domain: errors (errors.go), phones and claims (customer.go, device.go),
--              loyalty views (loyalty.go), order views (order.go). Result and Money are the
--              results of fallible code and float64 amounts.
-- Http         internal/transport/http/response: what an error is answered with.
-- Orders       internal/service/order_service.go. Cart is priceCart and pickVariation, Checkout is
--              place and reservePoints, Channels is PlaceKioskOrder and PlaceWebOrder, Kitchen is
--              ListActive, UpdateFromKitchen and Get, Calls is what these call.
-- Devices      the pairing of devices: Codes is internal/repository/pairing_repo.go and
--              revocation_repo.go, Pairing is internal/service/pairing_service.go, Auth is
--              internal/service/device_auth_service.go and Issue of pkg/jwt/device.go, Guard is
--              device_auth.go and device_type.go of internal/transport/http/middleware, Rpc is
--              internal/transport/grpc/devicepairing_server.go.
-- Customers    Store is internal/repository/customer_auth_repo.go; SignIn and Account are
--              internal/service/customer_service.go; Handlers is
--              internal/transport/http/handler/customer_handler.go with the refresh cookie.
-- Live         Hub is internal/sse/hub.go, with its contract and its runs. Streams is
--              menu_stream_handler.go and Feeds is order_stream_handler.go of
--              internal/transport/http/handler with internal/consumer/order_consumer.go.
-- Menus        Cache is internal/repository/menu_cache_repo.go, Service is
--              internal/service/menu_service.go with menu_handler.go of
--              internal/transport/http/handler, Events is internal/consumer/menu_consumer.go.
-- Tokens       Customer is pkg/jwt/customer.go with customer_auth.go of
--              internal/transport/http/middleware, Device is Verify of pkg/jwt/device.go, and
--              Claims is what these use of the jwt library.
-- Kafka        Consumer is pkg/kafka/consumer.go.
-- Startup      internal/config: Settings is helper.go; Config, Load and Validate are config.go.
-- Endpoints    the guarded routes of internal/transport/http/server.go to the handlers of
--              order_handler.go: Guards is the chain of the guards, Orders the handlers; Website is
--              the checkout of customer_handler.go with its guard and limit.
-- Trace        code that calls services and may fail, as Orders, Devices, Customers, Live and Menus use it.
-- Samples      a small menu, cart and set of services for the tests.
--
-- The services behind are parameters: records of functions from the log of all calls made before
-- (and the request) to an answer, so that they may be in any state and fail at any call. The model
-- of a call is the log entry and this answer. What a theorem says of a log it says of all calls.
-- Numbers: an int or int64 of Go is the integer it stands for, and a conversion or an int64 product
-- wraps as int32 and int64 of Prelude.Int do; float64 is the parameter Floats. Texts are walked by
-- code point; the lengths of the secrets are counted in bytes of UTF-8, and elsewhere, where the
-- code counts bytes, the texts are ASCII. UUIDs are their canonical texts. A duration in seconds,
-- which Go takes from a float64, is the whole number below it.
-- A panic: Verify of pkg/jwt/device.go and VerifyKioskSession of pkg/jwt/customer.go panic on a signed
-- token without dates. To the guards and to the checkout they are parameters that may panic
-- (Tokens has their code), and `recovered` is what the middleware recover of fiber answers then.
-- Loops run over lists or count down, but for the SCAN loop of the menu cache, which runs on fuel:
-- if SCAN returns the cursor 0 after n scans, as it documents for a store of bounded size, then
-- n + 1 is enough. Redis, bcrypt, JSON,
-- the hashes, the clock, the random source and the jwt library are parameters too; the
-- commands sent to Redis are what the log records.
--
-- Not modelled: generated messages under gen (their fields stand in the records), the start-up of the
-- program, the search for .env files, logging, metrics, the settings of the Kafka reader, and the
-- other handlers and routes, which decode a body, call a service and encode the result.
pub mod Customers
pub mod Devices
pub mod Domain
pub mod Endpoints
pub mod Http
pub mod Kafka
pub mod Live
pub mod Menus
pub mod Orders
pub mod Prelude
pub mod Samples
pub mod Startup
pub mod Tokens
pub mod Trace
