-- ===== src/Tests/Data.antt =====
-- The inputs of the tests.
use cf_redis_broker.Base.{◌≡◌, refl, All, String, none, [], ◌∷◌, ℤ, pos, ok, err, message, true}
use cf_redis_broker.Base.Act.{Act}
use cf_redis_broker.Os.{World}
use cf_redis_broker.Os.Files.{file, dir}
use cf_redis_broker.Brokerconfig.{Config, ServiceConfiguration}
use cf_redis_broker.Redis.Instance.{Instance}
use cf_redis_broker.Redis.Repository.{LocalRepository, pidfile_directory}
use cf_redis_broker.Redisconf.Added.{ArePlain}
use cf_redis_broker.Os.Paths.{join, render}
use cf_redis_broker.Redis.Creator.{ProcessController}
use cf_redis_broker.Redisconf.{Conf, decode}
use cf_redis_broker.Redisconf.RoundTrip.{IsPlain}
use cf_redis_broker.Redisconf.Decoded.{decode-IsPlain}
use cf_redis_broker.Redis.Process.{OsProcessController}

abbrev pub service : ServiceConfiguration
service = record {
  service_name = "p-redis";
  service_id = "service";
  shared_vm_plan_id = "plan";
  host = "10.0.0.1";
  default_config_path = "/redis.conf";
  process_check_interval_seconds = pos 5;
  start_redis_timeout_seconds = pos 10;
  instance_data_directory = "/data";
  pidfile_directory = "/pids";
  instance_log_directory = "/log";
  service_instance_limit = pos 1;
  description = "";
  long_description = "";
  provider_display_name = "";
  documentation_url = "";
  support_url = "";
  display_name = "";
  icon_image = "";
}

abbrev pub config : Config
config = record {
  redis_configuration = service;
  auth_configuration = record { password = "secret"; username = "admin" };
  host = "localhost";
  port = "3000";
  monit_executable_path = "";
  redis_server_executable_path = "";
  agent_port = "";
  consistency_verification_interval = pos 0;
}

abbrev pub repo : LocalRepository
repo = record { redis_conf = service }

abbrev pub defaults : String
defaults = "port 6379\ndaemonize yes\n"

abbrev pub empty_disk : World
empty_disk = record {
  tree = ("redis.conf" ∷ [], file defaults) ∷ ("data" ∷ [], dir) ∷ [];
  refuses = λ c. none;
  logs = [];
}

abbrev pub one : Instance
one = record { id = "one"; host = "10.0.0.1"; port = pos 7000; password = "pw" }

abbrev pub free_port : Act World ℤ
free_port w = (ok (pos 7000), w)

abbrev pub new_password : World → String × World
new_password w = ("pw", w)

-- A controller whose servers start and die as they are told, and touch no file.
abbrev pub controller : ProcessController World
controller = record {
  start_and_wait_until_ready = λ i config data_dir log_file timeout w. (ok tt, w);
  kill = λ i w. (ok tt, w);
}

-- A system in which every process is alive and no server answers.
abbrev pub silent : OsProcessController
silent = record {
  instance_pid = λ id w. (ok (pos 42), w);
  alive = λ pid w. true;
  kill_process = λ pid w. (ok tt, w);
  ping = λ i w. (err (message "no answer"), w);
  wait_until_connectable = λ a timeout w. (ok tt, w);
  redis_server_executable_path = "";
  run = λ name args w. (ok tt, w);
  error_text = λ e. "";
}

-- The parameters of an instance that are texts.
abbrev added : Conf
added =
    record { key = "syslog-ident"; value = "redis-server-one" }
    ∷ record { key = "requirepass"; value = "pw" }
    ∷ record { key = "pidfile"; value = "/pids/one.pid" }
    ∷ []

added_decoded :
    decode "syslog-ident redis-server-one\nrequirepass pw\npidfile /pids/one.pid\n" ≡ ok added
unfolding decode
added_decoded = refl

added-IsPlain : All IsPlain added
added-IsPlain = decode-IsPlain _ added refl added_decoded

pub one_ArePlain : ArePlain "one" "pw" (pidfile_directory repo)
unfolding join render
one_ArePlain = record {
  ident = added-IsPlain.0;
  secret = added-IsPlain.1.0;
  pidfile = added-IsPlain.1.1.0;
}
