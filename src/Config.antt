-- ===== src/Config.antt =====
-- pkg/config/config.go: the configuration, and how it is loaded. viper, which reads the file and fills
-- the structs, is a parameter; durations are in nanoseconds, and a float64 is of some type.
use evm_rpc.Prelude.{ℕ, Bool, Text, text, List, Map}
use evm_rpc.Prelude.Int.{ℤ}
use evm_rpc.Api.Error.{Result, ◌>>=◌}
use evm_rpc.Cache.Manager.{CacheConfig}

pub record ChainConfig : Type 0 where
  pub name : Text
  pub network_id : ℕ
  pub chain_id : ℕ

pub record HttpConfig : Type 0 where
  pub enabled : Bool
  pub listen_addr : Text
  pub read_timeout : ℤ
  pub write_timeout : ℤ
  pub idle_timeout : ℤ
  pub max_header_bytes : ℤ
  pub cors_origins : List Text
  pub v_hosts : List Text

pub record WsConfig : Type 0 where
  pub enabled : Bool
  pub listen_addr : Text
  pub max_connections : ℤ
  pub read_buffer_size : ℤ
  pub write_buffer_size : ℤ

pub record HealthConfig : Type 0 where
  pub enabled : Bool
  pub listen_addr : Text

pub record ServerConfig : Type 0 where
  pub http : HttpConfig
  pub ws : WsConfig
  pub health : HealthConfig

pub record PikaConfig : Type 0 where
  pub addr : Text
  pub password : Text
  pub db : ℤ
  pub max_connections : ℤ
  pub dial_timeout : ℤ
  pub read_timeout : ℤ
  pub write_timeout : ℤ

pub record StorageConfig : Type 0 where
  pub pika : PikaConfig

pub record RateLimitRuleConfig : Type 0 where
  pub requests_per_second : ℤ
  pub burst : ℤ

pub record RateLimitConfig : Type 0 where
  pub enabled : Bool
  pub global : RateLimitRuleConfig
  pub ip : RateLimitRuleConfig
  pub method : Map Text ℤ

pub record PoolConfig : Type 0 where
  pub worker_count : ℤ
  pub queue_size : ℤ

pub record WorkerPoolsConfig : Type 0 where
  pub query : PoolConfig
  pub compute : PoolConfig
  pub write : PoolConfig

pub record EvmConfig (Float : Type 0) : Type 0 where
  pub call_gas_limit : ℕ
  pub estimate_gas_multiplier : Float

pub record ApiConfig : Type 0 where
  pub enabled_namespaces : List Text
  pub disabled_methods : List Text

pub record MetricsConfig : Type 0 where
  pub enabled : Bool
  pub listen_addr : Text

pub record LoggingConfig : Type 0 where
  pub level : Text
  pub format : Text
  pub output : Text
  pub slow_query_threshold : ℤ

pub record Config (Float : Type 0) : Type 0 where
  pub chain : ChainConfig
  pub server : ServerConfig
  pub storage : StorageConfig
  pub cache : CacheConfig
  pub rate_limit : RateLimitConfig
  pub worker_pools : WorkerPoolsConfig
  pub evm : EvmConfig Float
  pub api : ApiConfig
  pub metrics : MetricsConfig
  pub logging : LoggingConfig

-- A `viper.Viper`; each call returns the instance as it is after it.
pub record Viper : Type 1 where
  pub Instance : Type 0
  pub Float : Type 0
  pub new : Instance
  pub set_config_file : Text → Instance → Instance
  pub set_config_type : Text → Instance → Instance
  pub automatic_env : Instance → Instance
  pub read_in_config : Instance → Result Instance
  pub unmarshal : Instance → Result (Config Float)

module _ (viper : Viper) where
  open viper use {Instance, Float}

  abbrev opened : Text → Instance
  opened path = viper.set_config_type (text "yaml") (viper.set_config_file path viper.new)

  unfoldable pub load_config : Text → Result (Config Float)
  load_config path = viper.read_in_config (opened path) >>= viper.unmarshal

  unfoldable pub load_config_with_defaults : Text → Result (Config Float)
  load_config_with_defaults path =
      viper.read_in_config (viper.automatic_env (opened path)) >>= viper.unmarshal
