-- ===== src/Proxy/Config.antt =====
-- proxy/config.go: the configuration file of the proxy, and the test of a configuration.
-- The ints of a file and its maps are what encoding/json reads and prints, which is not modelled: a
-- file is a ConfigFile here. A duration is an int64 of nanoseconds.
pub mod Examples
use rtsp_go.Base.{
  ℕ, zero, suc, ◌+◌, ◌-◌, ◌*◌, ◌/◌, ◌%◌, ◌^◌, ◌≤◌, ◌<◌, ◌≡◌, ◌≢◌, refl, sym, ap, ◌∙◌, Bool, true,
  false, not, ltb, ◌||◌, List, [], ◌∷◌, Option, none, some, Result, ok, err, ◌↔◌, if◌then◌else◌,
  arith, Bool-cases, inl, inr,
}
use rtsp_go.Base.Int.{ℤ, pos, negsuc, ltz, neg_ℕ, sub_ℕ}
use rtsp_go.Base.Text.{Bytes, codes, is_empty}
use rtsp_go.Base.Dict.{Dict, insert, bytes_eq}

pub record ConfigFile : Type 0 where
  pub listen_address : Bytes
  pub listen_port : ℤ
  pub upstream_servers : Dict Bytes Bytes
  pub default_server : Bytes
  pub buffer_size : ℤ
  pub timeout_seconds : ℤ
  pub max_connections : ℤ
  pub enable_logging : Bool
  pub log_level : Bytes
  pub stats_interval : ℤ

-- ProxyConfig, with ints that may be negative.
pub record Config : Type 0 where
  pub listen_address : Bytes
  pub listen_port : ℤ
  pub upstream_servers : Dict Bytes Bytes
  pub default_server : Bytes
  pub buffer_size : ℤ
  pub timeout : ℤ
  pub max_connections : ℤ
  pub enable_logging : Bool

-- The int64 of 64 bits.
of_bits : ℕ → ℤ
of_bits n = if ltb n (2 ^ 63) then pos n else negsuc (2 ^ 64 - n - 1)

-- A number of seconds as a Duration: a product that wraps.
pub to_duration : ℤ → ℤ
unfolding of_bits
to_duration (pos n) = of_bits (n * 10 ^ 9 % 2 ^ 64)
to_duration (negsuc n) = of_bits (2 ^ 64 - 1 - (n * 10 ^ 9 + 10 ^ 9 - 1) % 2 ^ 64)

-- LoadConfigFromFile, of a file that could be read and parsed.
pub load_config : ConfigFile → Config
unfolding to_duration
load_config file = record {
  listen_address = file.listen_address;
  listen_port = file.listen_port;
  upstream_servers = file.upstream_servers;
  default_server = file.default_server;
  buffer_size = file.buffer_size;
  timeout = to_duration file.timeout_seconds;
  max_connections = file.max_connections;
  enable_logging = file.enable_logging;
}

-- SaveConfigToFile, of which this is the file. `seconds` is the int of a Duration's Seconds, which is
-- a float64.
pub save_config : (ℤ → ℤ) → Config → ConfigFile
save_config seconds config = record {
  listen_address = config.listen_address;
  listen_port = config.listen_port;
  upstream_servers = config.upstream_servers;
  default_server = config.default_server;
  buffer_size = config.buffer_size;
  timeout_seconds = seconds config.timeout;
  max_connections = config.max_connections;
  enable_logging = config.enable_logging;
  log_level = codes "info";
  stats_interval = pos 30;
}

-- CreateDefaultConfigFile, up to its call of SaveConfigToFile.
pub default_config : Config
default_config = record {
  listen_address = codes "0.0.0.0";
  listen_port = pos 8555;
  upstream_servers =
      (codes "/test", codes "rtsp://localhost:8554/test")
      ∷ (codes "/camera1", codes "rtsp://localhost:8554/camera1")
      ∷ (codes "/camera2", codes "rtsp://localhost:8554/camera2")
      ∷ [];
  default_server = codes "rtsp://localhost:8554/default";
  buffer_size = pos 4096;
  timeout = pos 30_000_000_000;
  max_connections = pos 1000;
  enable_logging = true;
}

pub data ConfigError : Type 0 where
  no_address bad_port bad_timeout bad_max_connections bad_buffer_size : ConfigError

-- ValidateConfig
pub validate_config : Config → Result ConfigError (Unit {0})
validate_config config =
    if is_empty config.listen_address
    then err no_address
    else if not (ltz (pos 0) config.listen_port) || ltz (pos 65535) config.listen_port
    then err bad_port
    else if not (ltz (pos 0) config.timeout)
    then err bad_timeout
    else if not (ltz (pos 0) config.max_connections)
    then err bad_max_connections
    else if not (ltz (pos 0) config.buffer_size)
    then err bad_buffer_size
    else ok tt

-- ValidateConfig accepts exactly the configurations with an address that is not empty, a port from 1
-- to 65535, and a positive timeout, number of connections and buffer size.
pub validate_config_iff :
    (config : Config)
    → (validate_config config ≡ ok tt) ↔ (
        (is_empty config.listen_address ≡ false)
        × (ltz (pos 0) config.listen_port ≡ true)
        × (ltz (pos 65535) config.listen_port ≡ false)
        × (ltz (pos 0) config.timeout ≡ true)
        × (ltz (pos 0) config.max_connections ≡ true)
        × (ltz (pos 0) config.buffer_size ≡ true))
unfolding validate_config
validate_config_iff config = ground arith

to_duration_small : (n : ℕ) → n * 10 ^ 9 < 2 ^ 63 → to_duration (pos n) ≡ pos (n * 10 ^ 9)
unfolding to_duration of_bits
to_duration_small n h = ground arith

-- A configuration that SaveConfigToFile writes is what LoadConfigFromFile reads back, if its timeout
-- is a whole number of seconds, not negative and of less than 2^63 nanoseconds, which Seconds gives
-- exactly.
pub load_config-save_config :
    (seconds : ℤ → ℤ) (config : Config) (n : ℕ)
    → config.timeout ≡ pos (n * 10 ^ 9)
    → n * 10 ^ 9 < 2 ^ 63
    → seconds (pos (n * 10 ^ 9)) ≡ pos n
    → load_config (save_config seconds config) ≡ config
unfolding load_config save_config
load_config-save_config seconds config n whole small exact =
    let back =
      ap (λ d. to_duration (seconds d)) whole
      ∙ (ap to_duration exact ∙ to_duration_small n small) in
    ap (λ d. record config { timeout = d }) (back ∙ sym whole)
