-- ===== src/Redis/Repository.antt =====
-- redis/local_repository.go: the instances that stand in the data directory.
pub mod Listing
pub mod Reading
pub mod Setting
pub mod Removing
pub mod Locking
pub mod Isolation
pub mod Refinement
pub mod Crowding
use cf_redis_broker.Base.{
  String, ◌<>◌, Bool, true, false, ◌==◌, if◌then◌else◌, List, [], ◌∷◌, some, ℤ, Error, not_exist,
  Result, ok, err, itoa, atoi, parse_int, trim_space,
}
use cf_redis_broker.Base.Act.{Act, inspect, on_error, pure, raise, lift, ◌>>=◌, ◌>>◌}
use cf_redis_broker.Os.{
  World, os_stat, read_text, write_text, os_remove, os_remove_all, os_mkdir_all, log_info,
  log_error, always,
}
use cf_redis_broker.Os.Paths.{FilePath, join}
use cf_redis_broker.Brokerconfig.{ServiceConfiguration, resolve}
use cf_redis_broker.Redisconf
use cf_redis_broker.Redisconf.Additions.{load, copy_with_instance_additions}
use cf_redis_broker.Redis.Instance.{Instance, InstanceCredentials}

pub record LocalRepository : Type 0 where
  pub redis_conf : ServiceConfiguration

abbrev pub default_pidfile_directory : String
default_pidfile_directory = "/var/vcap/sys/run/shared-instance-pidfiles"

unfoldable pub new_local_repository : ServiceConfiguration → LocalRepository
new_local_repository conf =
    if conf.pidfile_directory == ""
    then record { redis_conf = record conf { pidfile_directory = default_pidfile_directory } }
    else record { redis_conf = conf }

-- `os.IsNotExist`
abbrev pub is_not_exist : Error → Bool
is_not_exist not_exist = true
is_not_exist _ = false

abbrev pub instance_id_of : Instance → List (String × String)
instance_id_of instance' = ("instance_id", instance'.id) ∷ []

module _ (repo : LocalRepository) where
  abbrev pub data_directory : FilePath
  data_directory = resolve repo.redis_conf.instance_data_directory

  abbrev pub pidfile_directory : FilePath
  pidfile_directory = resolve repo.redis_conf.pidfile_directory

  abbrev pub instance_base_dir : String → FilePath
  instance_base_dir instance_id = join data_directory instance_id

  abbrev pub instance_data_dir : String → FilePath
  instance_data_dir instance_id = join (instance_base_dir instance_id) "db"

  abbrev pub instance_log_dir : String → FilePath
  instance_log_dir instance_id = join (resolve repo.redis_conf.instance_log_directory) instance_id

  abbrev pub instance_log_file_path : String → FilePath
  instance_log_file_path instance_id = join (instance_log_dir instance_id) "redis-server.log"

  abbrev pub instance_config_path : String → FilePath
  instance_config_path instance_id = join (instance_base_dir instance_id) "redis.conf"

  abbrev pub instance_pid_file_path : String → FilePath
  instance_pid_file_path instance_id = join pidfile_directory (instance_id <> ".pid")

  abbrev pub lock_file_path : Instance → FilePath
  lock_file_path instance' = join (instance_base_dir instance'.id) "lock"

  unfoldable pub find_by_id : String → Act World Instance
  unfolding load Redisconf.get atoi
  find_by_id instance_id = do
    conf ← load (instance_config_path instance_id)
    port ← lift (atoi (Redisconf.get "port" conf))
    pure (record {
      id = instance_id;
      host = repo.redis_conf.host;
      port = port;
      password = Redisconf.get "requirepass" conf;
    })

  unfoldable pub instance_exists : String → Act World Bool
  unfolding os_stat
  instance_exists instance_id =
      inspect (os_stat (instance_base_dir instance_id))
        (elim [ ok _ ↦ pure true | err e ↦ if is_not_exist e then pure false else raise e ])

  unfoldable pub lock : Instance → Act World (Unit {0})
  lock instance' = write_text (lock_file_path instance') ""

  unfoldable pub unlock : Instance → Act World (Unit {0})
  unlock instance' = os_remove (lock_file_path instance')

  unfoldable pub ensure_directories_exist : Instance → Act World (Unit {0})
  ensure_directories_exist instance' = do
    os_mkdir_all (instance_data_dir instance'.id)
    os_mkdir_all pidfile_directory
    os_mkdir_all (instance_log_dir instance'.id)

  unfoldable pub write_config_file : Instance → Act World (Unit {0})
  write_config_file instance' =
      copy_with_instance_additions (resolve repo.redis_conf.default_config_path)
        (instance_config_path instance'.id) instance'.id (itoa instance'.port) instance'.password
        pidfile_directory

  unfoldable pub setup : Instance → Act World (Unit {0})
  setup instance' = do
    on_error (ensure_directories_exist instance')
        (λ e. log_error "ensure-dirs-exist" (some e) (instance_id_of instance'))
    on_error (lock instance')
        (λ e. log_error "lock-shared-instance" (some e) (instance_id_of instance'))
    on_error (write_config_file instance')
        (λ e. log_error "write-config-file" (some e) (instance_id_of instance'))
    always (
        log_info "provision-instance" (
          ("instance_id", instance'.id)
          ∷ ("plan", "shared-vm")
          ∷ ("message", "Successfully provisioned Redis instance")
          ∷ []))

  unfoldable pub bind : String → String → Act World InstanceCredentials
  unfolding find_by_id
  bind instance_id binding_id = do
    found ← find_by_id instance_id
    pure (record { host = found.host; port = found.port; password = found.password })

  unfoldable pub unbind : String → String → Act World (Unit {0})
  unbind instance_id binding_id = pure tt

  unfoldable pub deprovisioned : String → String → World → World
  deprovisioned instance_id text =
      log_info "deprovision-instance"
        (("instance_id", instance_id) ∷ ("plan", "shared-vm") ∷ ("message", text) ∷ [])

  unfoldable pub delete : String → Act World (Unit {0})
  delete instance_id = do
    os_remove_all (instance_base_dir instance_id)
    os_remove_all (instance_log_dir instance_id)
    inspect (os_remove (instance_pid_file_path instance_id)) (elim [
      | ok _ ↦ pure tt
      | err e ↦ always (deprovisioned instance_id "Could not find pid file")
    ])
    always (deprovisioned instance_id "Successfully deprovisioned Redis instance")

  unfoldable pub instance_pid : String → Act World ℤ
  unfolding read_text trim_space parse_int
  instance_pid instance_id = do
    content ← read_text (instance_pid_file_path instance_id)
    lift (parse_int 31 (trim_space content))
