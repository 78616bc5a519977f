-- ===== src/Redis/Creator/Local.antt =====
-- The creator of cmd/broker/main.go: its repository is that of the data directory.
use cf_redis_broker.Os.{World}
use cf_redis_broker.Redis.Repository
use cf_redis_broker.Redis.Repository.{LocalRepository}
use cf_redis_broker.Redis.Repository.Listing.{instance_count}
use cf_redis_broker.Redis.Creator.{LocalInstanceRepository}

abbrev pub local_instance_repository : LocalRepository → LocalInstanceRepository World
local_instance_repository repo = record {
  find_by_id = Repository.find_by_id repo;
  instance_exists = Repository.instance_exists repo;
  setup = Repository.setup repo;
  delete = Repository.delete repo;
  instance_data_dir = Repository.instance_data_dir repo;
  instance_config_path = Repository.instance_config_path repo;
  instance_log_file_path = Repository.instance_log_file_path repo;
  instance_pid_file_path = Repository.instance_pid_file_path repo;
  instance_count = instance_count repo;
  lock = Repository.lock repo;
  unlock = Repository.unlock repo;
}
