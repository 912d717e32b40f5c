-- ===== src/Config.antt =====
-- internal/config/config.go: the settings, their defaults, `Validate` and `Load`. A duration is its
-- number of nanoseconds. What viper makes of the file, the environment and the defaults is a parameter.
pub mod Examples
use text.Mathlib.Text.{◌==◌ as str_eq}
use ff_eth_logs.Base.{
  ℕ, ◌*◌, Bool, true, false, not, ◌&&◌, ◌||◌, ◌==◌, List, [], ◌∷◌, ◌++◌, Option, none, some, String,
  length, ltb, leb, if◌then◌else◌,
}
use ff_eth_logs.Base.Exec.{Result, ok, err}
use ff_eth_logs.Base.Int.{ℤ, pos, int_lt}

abbrev pub mainnet_chain_id : ℕ
mainnet_chain_id = 1

pub record ServerConfig : Type 0 where
  pub host : String
  pub port : ℤ
  pub read_timeout : ℤ
  pub write_timeout : ℤ
  pub idle_timeout : ℤ

pub record DatabaseConfig : Type 0 where
  pub host : String
  pub port : ℤ
  pub user : String
  pub password : String
  pub db_name : String
  pub ssl_mode : String
  pub max_conns : ℤ

pub record EthereumConfig : Type 0 where
  pub web_socket_url : String
  pub chain_id : ℕ
  pub ingestion_enabled : Bool
  pub start_block : ℕ
  pub confirmation_blocks : ℕ
  pub max_catchup_blocks : ℕ
  pub get_logs_span_cap : ℕ
  pub rpc_timeout : ℤ
  pub head_timeout : ℤ

pub record RpcConfig : Type 0 where
  pub max_results : ℤ
  pub query_timeout : ℤ

pub record Settings : Type 0 where
  pub debug : Bool
  pub sentry_dsn : String
  pub server : ServerConfig
  pub database : DatabaseConfig
  pub ethereum : EthereumConfig
  pub rpc : RpcConfig

abbrev seconds : ℕ → ℤ
seconds n = pos (n * 1_000_000_000)

-- `applyDefaults`; what has no default is empty.
unfoldable pub defaults : Settings
defaults = record {
  debug = false;
  sentry_dsn = "";
  server = record {
    host = "0.0.0.0";
    port = pos 8545;
    read_timeout = seconds 30;
    write_timeout = seconds 120;
    idle_timeout = seconds 120;
  };
  database = record {
    host = "";
    port = pos 5432;
    user = "postgres";
    password = "";
    db_name = "ff_eth_logs";
    ssl_mode = "disable";
    max_conns = pos 16;
  };
  ethereum = record {
    web_socket_url = "";
    chain_id = 1;
    ingestion_enabled = true;
    start_block = 0;
    confirmation_blocks = 2;
    max_catchup_blocks = 50_000;
    get_logs_span_cap = 10_000;
    rpc_timeout = seconds 60;
    head_timeout = seconds 300;
  };
  rpc = record { max_results = pos 100_000; query_timeout = seconds 60 };
}

pub data ConfigError : Type 0 where
  missing_required : List String → ConfigError
  confirmation_not_below_catchup not_mainnet negative_max_results too_few_conns no_query_timeout :
      ConfigError

-- The required values that are missing.
unfoldable pub missing : Settings → List String
missing cfg =
    (if str_eq cfg.database.host "" then "database.host" ∷ [] else [])
    ++ (if cfg.ethereum.ingestion_enabled && str_eq cfg.ethereum.web_socket_url ""
        then "ethereum.websocket_url" ∷ []
        else [])

-- `Validate`.
unfoldable pub validate : Settings → Option ConfigError
unfolding missing
validate cfg =
    if ltb 0 (length (missing cfg))
    then some (missing_required (missing cfg))
    else if ltb 0 cfg.ethereum.max_catchup_blocks
        && leb cfg.ethereum.max_catchup_blocks cfg.ethereum.confirmation_blocks
    then some confirmation_not_below_catchup
    else if not (cfg.ethereum.chain_id == mainnet_chain_id)
    then some not_mainnet
    else if int_lt cfg.rpc.max_results (pos 0)
    then some negative_max_results
    else if int_lt cfg.database.max_conns (pos 2)
    then some too_few_conns
    else if not (int_lt (pos 0) cfg.rpc.query_timeout)
    then some no_query_timeout
    else none

pub data LoadError : Type 0 where
  unreadable : LoadError
  invalid : ConfigError → LoadError

abbrev pub validated : Settings → Option ConfigError → Result LoadError Settings
validated cfg none = ok cfg
validated cfg (some e) = err (invalid e)

-- `Load`, given what viper reads; `none` is a file that it cannot read or decode.
unfoldable pub load : Option Settings → Result LoadError Settings
unfolding validate
load none = err unreadable
load (some cfg) = validated cfg (validate cfg)
