-- ===== src/Brokerconfig.antt =====
-- brokerconfig/config.go: the broker's configuration and its validation. The YAML decoder is not
-- part of the program, and is a parameter.
use cf_redis_broker.Base.{String, ◌<>◌, Bool, [], ℤ, pos, ltb_ℤ, message, Result, ok, err}
use cf_redis_broker.Base.Act.{Act, inspect, pure, raise, lift, ◌>>=◌, ◌>>◌}
use cf_redis_broker.Os.{World, os_stat, read_text}
use cf_redis_broker.Os.Paths.{FilePath, join}

pub record AuthConfiguration : Type 0 where
  pub password : String
  pub username : String

pub record ServiceConfiguration : Type 0 where
  pub service_name : String
  pub service_id : String
  pub shared_vm_plan_id : String
  pub host : String
  pub default_config_path : String
  pub process_check_interval_seconds : ℤ
  pub start_redis_timeout_seconds : ℤ
  pub instance_data_directory : String
  pub pidfile_directory : String
  pub instance_log_directory : String
  pub service_instance_limit : ℤ
  pub description : String
  pub long_description : String
  pub provider_display_name : String
  pub documentation_url : String
  pub support_url : String
  pub display_name : String
  pub icon_image : String

pub record Config : Type 0 where
  pub redis_configuration : ServiceConfiguration
  pub auth_configuration : AuthConfiguration
  pub host : String
  pub port : String
  pub monit_executable_path : String
  pub redis_server_executable_path : String
  pub agent_port : String
  pub consistency_verification_interval : ℤ

-- A path that the configuration gives as a text; a relative one is taken from the root.
abbrev pub resolve : String → FilePath
resolve = join []

unfoldable pub shared_enabled : Config → Bool
shared_enabled config = ltb_ℤ (pos 0) config.redis_configuration.service_instance_limit

unfoldable pub check_path_exists : String → String → Act World (Unit {0})
unfolding os_stat
check_path_exists path description = inspect (os_stat (resolve path)) (elim [
  | ok _ ↦ pure tt
  | err _ ↦ raise (message ("File '" <> path <> "' (" <> description <> ") not found"))
])

unfoldable pub validate_config : ServiceConfiguration → Act World (Unit {0})
unfolding check_path_exists
validate_config config = do
  check_path_exists config.default_config_path "RedisConfig.DefaultRedisConfPath"
  check_path_exists config.instance_data_directory "RedisConfig.InstanceDataDirectory"
  check_path_exists config.instance_log_directory "RedisConfig.InstanceLogDirectory"

-- The configuration is returned only if it is valid; the program ends otherwise.
module _ (decode_yaml : String → Result Config) where
  unfoldable pub parse_config : String → Act World Config
  unfolding read_text validate_config
  parse_config path = do
    text ← read_text (resolve path)
    config ← lift (decode_yaml text)
    validate_config config.redis_configuration
    pure config
