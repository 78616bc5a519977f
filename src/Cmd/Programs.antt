-- ===== src/Cmd/Programs.antt =====
-- The `main` functions of cmd/broker/main.go, cmd/processmonitor/main.go and
-- cmd/configmigrator/main.go. `logger.Fatal` and a panic end a program, which is an error here.
pub mod Settings
pub mod Migrating
pub mod Serving
pub mod Monitoring
use cf_redis_broker.Base.{
  String, ◌<>◌, Bool, true, false, ◌==◌, ◌||◌, if◌then◌else◌, some, List, [], ◌∷◌, ℕ, ℤ, pos,
  negsuc, Error, message, Result, ok, err,
}
use cf_redis_broker.Base.Act.{Act, inspect, on_error, pure, raise, lift, ◌>>=◌, ◌>>◌}
use cf_redis_broker.Os.{World, log_info, log_error, always}
use cf_redis_broker.Brokerconfig.{Config, parse_config, resolve}
use cf_redis_broker.Process.{Processes}
use cf_redis_broker.Redis.Client.{Connection}
use cf_redis_broker.Redis.Creator.{seconds}
use cf_redis_broker.Redis.Process.{OsProcessController, TcpAddr, as_process_controller}
use cf_redis_broker.Redis.Repository.{LocalRepository}
use cf_redis_broker.Redis.Repository.Listing.{all_instances_verbose}
use cf_redis_broker.Broker.{RedisServiceBroker}
use cf_redis_broker.Migrator.{migrate}
use cf_redis_broker.Cmd.{local_repository}
use cf_redis_broker.Cmd.Controller.{process_controller}
use cf_redis_broker.Cmd.Server.{service_broker}
use cf_redis_broker.Cmd.Monitor.{start_up, check_round}

-- What the programs take from outside: the environment, the decoder of YAML, processes,
-- connections, commands, free ports, passwords, and the server of requests, which returns nothing
-- but an error.
pub record Outside (Handle Conn : Type 0) : Type 0 where
  pub getenv : String → String
  pub decode_yaml : String → Result Config
  pub processes : Processes World Handle
  pub dial : String → Bool → Act World (Connection World)
  pub dial_tcp : TcpAddr → Act World Conn
  pub close : Conn → World → World
  pub sleep : ℕ → World → World
  pub run : String → List String → Act World (Unit {0})
  pub error_text : Error → String
  pub find_free_port : Act World ℤ
  pub new_password : World → String × World
  -- Its arguments are the address, the broker, the user's name and the password.
  pub listen_and_serve : String → RedisServiceBroker World → String → String → World → Error × World

module _ {Handle Conn : Type 0} (outside : Outside Handle Conn) where
  open outside use {
    getenv, decode_yaml, processes, dial, dial_tcp, close, sleep, run, error_text, find_free_port,
    new_password, listen_and_serve,
  }

  -- The same function stands in all three programs. A variable that is not set reads as empty.
  unfoldable pub config_path : Result String
  config_path =
      if getenv "BROKER_CONFIG_PATH" == ""
      then err (message "BROKER_CONFIG_PATH not set")
      else ok (getenv "BROKER_CONFIG_PATH")

  abbrev pub controller_of : LocalRepository → OsProcessController
  controller_of repo = process_controller processes dial dial_tcp close sleep run error_text repo

  -- `time.Sleep`, which returns at once for a duration below zero.
  abbrev pub sleep_for : ℤ → World → World
  sleep_for (pos n) w = sleep n w
  sleep_for (negsuc n) w = w

  -- The configuration, or the end of the program.
  unfoldable pub config_or_fatal : String → String → String → Act World Config
  config_or_fatal action key path =
      on_error (parse_config decode_yaml path) (λ e. log_error action (some e) ((key, path) ∷ []))
