-- ===== src/Config/Examples.antt =====
-- Settings that `Validate` accepts.
use ff_eth_logs.Base.{◌≡◌, refl, none}
use ff_eth_logs.Config.{Settings, defaults, missing, validate}

-- The defaults with what they leave open.
abbrev pub deployed : Settings
unfolding defaults
deployed = record defaults {
  database = record defaults.database { host = "db" };
  ethereum = record defaults.ethereum { web_socket_url = "wss://node" };
}

default_deployment : validate deployed ≡ none
unfolding validate missing defaults
default_deployment = refl
