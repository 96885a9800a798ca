-- ===== src/Apps/Config.antt =====
-- The configurations that cmd/auth, cmd/store and cmd/gateway make of their environments.
use merch_store.Base.{false, String, Option, none, some, ◌≡◌, refl}
use merch_store.Database.{PostgresSettings}

-- `os.LookupEnv`
abbrev pub Environment : Type 0
Environment = String → Option String

abbrev value_or : String → Option String → String
value_or val none = val
value_or val (some env_val) = env_val

-- `TrySetFromEnv`: the variable's new value.
unfoldable pub try_set_from_env : Environment → String → String → String
try_set_from_env env name val = value_or val (env name)

-- internal/pkg/env/env_names.go
abbrev env_grpc_auth_port : String
env_grpc_auth_port = "GRPC_AUTH_PORT"

abbrev env_grpc_store_port : String
env_grpc_store_port = "GRPC_STORE_PORT"

abbrev env_http_port : String
env_http_port = "HTTP_PORT"

abbrev env_auth_database_host : String
env_auth_database_host = "DB_AUTH_HOST"

abbrev env_auth_database_port : String
env_auth_database_port = "DB_AUTH_PORT"

abbrev env_auth_database_user : String
env_auth_database_user = "DB_AUTH_USER"

abbrev env_auth_database_password : String
env_auth_database_password = "DB_AUTH_PASSWORD"

abbrev env_auth_database_name : String
env_auth_database_name = "DB_AUTH_NAME"

abbrev env_store_database_host : String
env_store_database_host = "DB_STORE_HOST"

abbrev env_store_database_port : String
env_store_database_port = "DB_STORE_PORT"

abbrev env_store_database_user : String
env_store_database_user = "DB_STORE_USER"

abbrev env_store_database_password : String
env_store_database_password = "DB_STORE_PASSWORD"

abbrev env_store_database_name : String
env_store_database_name = "DB_STORE_NAME"

abbrev env_jwt_secret : String
env_jwt_secret = "JWT_SECRET"

abbrev env_grpc_auth_host : String
env_grpc_auth_host = "GRPC_AUTH_HOST"

abbrev env_grpc_store_host : String
env_grpc_store_host = "GRPC_STORE_HOST"

pub record AuthConfig : Type 0 where
  pub db_settings : PostgresSettings
  pub secret_key : String

pub record StoreConfig : Type 0 where
  pub db_settings : PostgresSettings
  pub jwt_secret : String
  pub grpc_auth_host : String
  pub grpc_auth_port : String

pub record GatewayConfig : Type 0 where
  pub grpc_auth_host : String
  pub grpc_auth_port : String
  pub grpc_store_host : String
  pub grpc_store_port : String

module _ (env : Environment) where
  -- cmd/auth/main.go: the port that the process listens on, and its configuration.
  unfoldable pub auth_main : String × AuthConfig
  unfolding try_set_from_env
  auth_main = (
    try_set_from_env env env_grpc_auth_port ":9090",
    record {
      db_settings = record {
        user = try_set_from_env env env_auth_database_user "auth_admin";
        password = try_set_from_env env env_auth_database_password "auth_password";
        host = try_set_from_env env env_auth_database_host "localhost";
        port = try_set_from_env env env_auth_database_port "5433";
        db_name = try_set_from_env env env_auth_database_name "merch_auth_db";
        ssl_enabled = false;
      };
      secret_key = try_set_from_env env env_jwt_secret "secret-key";
    },
  )

  -- cmd/store/main.go
  unfoldable pub store_main : String × StoreConfig
  unfolding try_set_from_env
  store_main = (
    try_set_from_env env env_grpc_store_port ":9091",
    record {
      db_settings = record {
        user = try_set_from_env env env_store_database_user "store_admin";
        password = try_set_from_env env env_store_database_password "store_password";
        host = try_set_from_env env env_store_database_host "localhost";
        port = try_set_from_env env env_store_database_port "5434";
        db_name = try_set_from_env env env_store_database_name "merch_store_db";
        ssl_enabled = false;
      };
      jwt_secret = try_set_from_env env env_jwt_secret "secret-key";
      grpc_auth_host = try_set_from_env env env_grpc_auth_host "localhost";
      grpc_auth_port = try_set_from_env env env_grpc_auth_port ":9090";
    },
  )

  -- cmd/gateway/main.go
  unfoldable pub gateway_main : String × GatewayConfig
  unfolding try_set_from_env
  gateway_main = (
    try_set_from_env env env_http_port ":8080",
    record {
      grpc_auth_host = try_set_from_env env env_grpc_auth_host "localhost";
      grpc_auth_port = try_set_from_env env env_grpc_auth_port ":9090";
      grpc_store_host = try_set_from_env env env_grpc_store_host "localhost";
      grpc_store_port = try_set_from_env env env_grpc_store_port ":9091";
    },
  )

  -- With the same environment, the gateway and the store call the auth service on the port that it
  -- listens on, the gateway calls the store on the port that the store listens on, and the store
  -- checks tokens with the secret that the auth service signs them with.
  pub configurations_agree :
      (gateway_main.1.grpc_auth_port ≡ auth_main.0)
      × (store_main.1.grpc_auth_port ≡ auth_main.0)
      × (gateway_main.1.grpc_store_port ≡ store_main.0)
      × (store_main.1.jwt_secret ≡ auth_main.1.secret_key)
  unfolding auth_main store_main gateway_main
  configurations_agree = (refl, refl, refl, refl)
