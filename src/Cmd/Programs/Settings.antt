-- ===== src/Cmd/Programs/Settings.antt =====
-- cmd/: what a program reads at its start.
use cf_redis_broker.Base.{String, arith, inl, inr, ◌≡◌, Result, Result-cases, ok}
use cf_redis_broker.Base.Act.{lift, ◌>>=◌}
use cf_redis_broker.Os.{World, os_stat, read_text}
use cf_redis_broker.Os.Laws.{read_text_reads}
use cf_redis_broker.Brokerconfig.{
  Config, ServiceConfiguration, parse_config, validate_config, check_path_exists, resolve,
}
use cf_redis_broker.Redis.Repository.Listing.Count.{view}
use cf_redis_broker.Cmd.Programs.{Outside, config_path, config_or_fatal}

check_path_reads :
    (path description : String) (w : World) → (check_path_exists path description w).1 ≡ w
unfolding check_path_exists os_stat
check_path_reads path description w = ground arith

check_path-view :
    (path description : String) (v w : World)
    → view v ≡ view w
    → (check_path_exists path description v).0 ≡ (check_path_exists path description w).0
unfolding check_path_exists os_stat
check_path-view path description v w same = ground arith

validate_reads : (config : ServiceConfiguration) (w : World) → (validate_config config w).1 ≡ w
unfolding validate_config
validate_reads config w = ground (
  arith,
  check_path_reads config.default_config_path "RedisConfig.DefaultRedisConfPath" w,
  check_path_reads config.instance_data_directory "RedisConfig.InstanceDataDirectory" w,
  check_path_reads config.instance_log_directory "RedisConfig.InstanceLogDirectory" w,
)

validate-view :
    (config : ServiceConfiguration) (v w : World)
    → view v ≡ view w
    → (validate_config config v).0 ≡ (validate_config config w).0
unfolding validate_config
validate-view config v w same = ground (
  arith,
  check_path_reads config.default_config_path "RedisConfig.DefaultRedisConfPath" v,
  check_path_reads config.instance_data_directory "RedisConfig.InstanceDataDirectory" v,
  check_path_reads config.default_config_path "RedisConfig.DefaultRedisConfPath" w,
  check_path_reads config.instance_data_directory "RedisConfig.InstanceDataDirectory" w,
  check_path-view config.default_config_path "RedisConfig.DefaultRedisConfPath" v w same,
  check_path-view config.instance_data_directory "RedisConfig.InstanceDataDirectory" v w same,
  check_path-view config.instance_log_directory "RedisConfig.InstanceLogDirectory" v w same,
)

read_text-view :
    (path : String) (v w : World)
    → view v ≡ view w
    → (read_text (resolve path) v).0 ≡ (read_text (resolve path) w).0
unfolding read_text
read_text-view path v w same = ground arith

module _ (decode_yaml : String → Result Config) (path : String) where
  pub parse_config_reads : (w : World) → (parse_config decode_yaml path w).1 ≡ w
  unfolding parse_config
  parse_config_reads w = elim (Result-cases (read_text (resolve path) w).0) [
    | inl (e, bad) ↦ ground (arith, read_text_reads (resolve path) w)
    | inr (text, good) ↦ elim (Result-cases (decode_yaml text)) [
      | inl (e, bad) ↦ ground (arith, read_text_reads (resolve path) w)
      | inr (config, decoded) ↦
          ground
            (arith, read_text_reads (resolve path) w, validate_reads config.redis_configuration w)
    ]
  ]

  pub parse_config-view :
      (v w : World)
      → view v ≡ view w
      → (parse_config decode_yaml path v).0 ≡ (parse_config decode_yaml path w).0
  unfolding parse_config
  parse_config-view v w same = elim (Result-cases (read_text (resolve path) w).0) [
    | inl (e, bad) ↦ ground (arith, read_text-view path v w same)
    | inr (text, good) ↦ elim (Result-cases (decode_yaml text)) [
      | inl (e, bad) ↦ ground (arith, read_text-view path v w same)
      | inr (config, decoded) ↦ ground (
        arith,
        read_text-view path v w same,
        read_text_reads (resolve path) v,
        read_text_reads (resolve path) w,
        validate-view config.redis_configuration v w same,
      )
    ]
  ]

module _ {Handle Conn : Type 0} (outside : Outside Handle Conn) where
  -- The configuration that the environment names, if it is there and valid.
  abbrev pub settings : World → Result Config
  settings w = ((lift (config_path outside) >>= parse_config outside.decode_yaml) w).0

  pub config_or_fatal_lem :
      (action key path : String) (v w : World)
      → view v ≡ view w
      → config_path outside ≡ ok path
      → ((config_or_fatal outside action key path v).0 ≡ settings w)
        × (view (config_or_fatal outside action key path v).1 ≡ view w)
  unfolding config_or_fatal
  config_or_fatal_lem action key path v w same there = ground (
    arith,
    parse_config-view outside.decode_yaml path v w same,
    parse_config_reads outside.decode_yaml path v,
  )
