-- ===== src/Migrator.antt =====
-- configmigrator/configmigrator.go: the port and the password of an instance, which stood in files
-- of their own, are moved to its redis.conf.
pub mod Moved
pub mod Kept
pub mod Whole
use cf_redis_broker.Base.{String, ◌==◌, if◌then◌else◌, List, [], ◌∷◌, Result, ok, err}
use cf_redis_broker.Base.Act.{Act, inspect, pure, ◌>>=◌, ◌>>◌}
use cf_redis_broker.Os.{World, read_text, os_remove, os_read_dir}
use cf_redis_broker.Os.Paths.{FilePath, join}
use cf_redis_broker.Redisconf.{Conf, get, set}
use cf_redis_broker.Redisconf.Additions.{load, save}

abbrev pub redis_port_filename : String
redis_port_filename = "redis-server.port"

abbrev pub redis_password_filename : String
redis_password_filename = "redis-server.password"

-- `os.Remove`, whose error is dropped.
unfoldable pub try_remove : FilePath → Act World (Unit {0})
try_remove path = inspect (os_remove path) (λ _. pure tt)

-- What is done where the configuration does not have the property.
unfoldable pub move_into : String → FilePath → FilePath → Conf → Act World (Unit {0})
move_into property_name file_name redis_conf_file_path conf = do
  file_contents ← read_text file_name
  save redis_conf_file_path (set property_name file_contents conf)
  try_remove file_name

unfoldable pub move_data_for : String → FilePath → FilePath → Act World (Unit {0})
move_data_for property_name file_name redis_conf_file_path = do
  conf ← load redis_conf_file_path
  if get property_name conf == ""
      then move_into property_name file_name redis_conf_file_path conf
      else try_remove file_name

unfoldable pub migrate_instance : FilePath → Act World (Unit {0})
migrate_instance instance_dir = do
  move_data_for "port" (join instance_dir redis_port_filename) (join instance_dir "redis.conf")
  move_data_for "requirepass" (join instance_dir redis_password_filename)
      (join instance_dir "redis.conf")

unfoldable pub migrate_instances : FilePath → List String → Act World (Unit {0})
migrate_instances data_dir [] = pure tt
migrate_instances data_dir (name ∷ names) = do
  migrate_instance (join data_dir name)
  migrate_instances data_dir names

-- A directory that cannot be read has no instances.
abbrev pub names_or_none : Result (List String) → List String
names_or_none (ok names) = names
names_or_none (err e) = []

unfoldable pub migrate : FilePath → Act World (Unit {0})
migrate data_dir =
    inspect (os_read_dir data_dir) (λ r. migrate_instances data_dir (names_or_none r))
