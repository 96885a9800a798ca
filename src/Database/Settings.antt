-- ===== src/Database/Settings.antt =====
-- internal/pkg/database/database.go, `PostgresSettings`.
use Prim.Native.String.{◌++◌}
use merch_store.Base.{Bool, String, not, if◌then◌else◌}

pub record PostgresSettings : Type 0 where
  pub user : String
  pub password : String
  pub host : String
  pub port : String
  pub db_name : String
  pub ssl_enabled : Bool

unfoldable pub get_url : PostgresSettings → String
get_url p =
    let result =
      "postgres://" ++ p.user ++ ":" ++ p.password ++ "@" ++ p.host ++ ":" ++ p.port ++ "/"
      ++ p.db_name in
    if not p.ssl_enabled then result ++ "?sslmode=disable" else result
