-- ===== src/Redis/Process.antt =====
-- redis/process_controller.go: starting, killing and watching redis servers. The processes
-- themselves, and what a server answers, are parameters.
pub mod Running
pub mod Aside
pub mod Server
use cf_redis_broker.Base.{
  String, Bool, true, false, ◌==◌, if◌then◌else◌, none, some, List, [], ◌∷◌, ◌<>◌, ℤ, pos, Error,
  message, Result, ok, err,
}
use cf_redis_broker.Base.Act.{Act, inspect, on_error, raise, ◌>>=◌, ◌>>◌}
use cf_redis_broker.Os.{World, os_remove, log_info, log_error, always}
use cf_redis_broker.Os.Paths.{FilePath, render}
use cf_redis_broker.Redis.Instance.{Instance}
use cf_redis_broker.Redis.Creator.{ProcessController, seconds}

-- `net.TCPAddr`, with the text of the IP address.
pub record TcpAddr : Type 0 where
  pub ip : String
  pub port : ℤ

abbrev pub address : Instance → TcpAddr
address instance' = record { ip = instance'.host; port = instance'.port }

-- `error_text` is the `Error` method of an error; `run` is `Exec.Command(name, args…).Run()`.
pub record OsProcessController : Type 0 where
  pub instance_pid : String → Act World ℤ
  pub alive : ℤ → World → Bool
  pub kill_process : ℤ → Act World (Unit {0})
  pub ping : Instance → Act World (Unit {0})
  pub wait_until_connectable : TcpAddr → ℤ → Act World (Unit {0})
  pub redis_server_executable_path : String
  pub run : String → List String → Act World (Unit {0})
  pub error_text : Error → String

abbrev pub redis_start_timeout : ℤ
redis_start_timeout = seconds (pos 10)

abbrev pub instance_only : Instance → List (String × String)
instance_only instance' = ("instance", instance'.id) ∷ []

module _ (controller : OsProcessController) where
  unfoldable executable : String
  executable =
      if controller.redis_server_executable_path == ""
      then "redis-server"
      else controller.redis_server_executable_path

  unfoldable pub start_and_wait_until_ready_with_config :
      Instance → List String → ℤ → Act World (Unit {0})
  unfolding executable
  start_and_wait_until_ready_with_config instance' args timeout =
      inspect (controller.run executable args) (elim [
        | err e ↦ raise (message ("redis failed to start: " <> controller.error_text e))
        | ok _ ↦ controller.wait_until_connectable (address instance') timeout
      ])

  unfoldable pub start_and_wait_until_ready :
      Instance → FilePath → FilePath → FilePath → ℤ → Act World (Unit {0})
  unfolding start_and_wait_until_ready_with_config
  start_and_wait_until_ready instance' config_path data_dir log_file timeout =
      start_and_wait_until_ready_with_config instance'
        (render config_path ∷ "--dir" ∷ render data_dir ∷ "--logfile" ∷ render log_file ∷ [])
        timeout

  unfoldable pub kill : Instance → Act World (Unit {0})
  kill instance' = do
    pid ←
        on_error (controller.instance_pid instance'.id)
          (λ e. log_error "redis instance has no pidfile" (some e) (instance_only instance'))
    controller.kill_process pid

  -- The server does not answer: its pidfile is stale. Both entries log the nil error of the read.
  unfoldable drop_stale_pidfile : Instance → FilePath → Act World (Unit {0})
  drop_stale_pidfile instance' pidfile_path = do
    always (log_error "failed to PING redis-server" none (instance_only instance'))
    on_error (os_remove pidfile_path)
        (λ e. log_error "failed to delete stale pidfile" none (instance_only instance'))
    always (log_info "removed stale pidfile" (instance_only instance'))

  -- What is done if a process was found that is alive.
  unfoldable after_ping :
      Result (Unit {0}) → Instance → FilePath → Act World (Unit {0}) → Act World (Unit {0})
  unfolding drop_stale_pidfile
  after_ping (ok _) instance' pidfile_path start =
      always (log_info "redis instance already running" (instance_only instance'))
  after_ping (err e) instance' pidfile_path start = do
    drop_stale_pidfile instance' pidfile_path
    start

  unfoldable log_no_pidfile : Result ℤ → Instance → World → World
  log_no_pidfile (ok pid) instance' w = w
  log_no_pidfile (err e) instance' w =
      log_error "redis instance has no pidfile" (some e) (instance_only instance') w

  unfoldable found_alive : Result ℤ → World → Bool
  found_alive (ok pid) w = controller.alive pid w
  found_alive (err e) w = false

  unfoldable pub ensure_running :
      Instance → FilePath → FilePath → FilePath → FilePath → Act World (Unit {0})
  unfolding start_and_wait_until_ready after_ping log_no_pidfile found_alive
  ensure_running instance' config_path data_dir pidfile_path log_file w =
      let start =
        start_and_wait_until_ready instance' config_path data_dir log_file redis_start_timeout in
      let (pid, w') = controller.instance_pid instance'.id w in
      elim (found_alive pid w') [
        | true ↦
            inspect (controller.ping instance')
              (λ answer. after_ping answer instance' pidfile_path start) w'
        | false ↦ start (
            log_info "redis instance is not running" (instance_only instance')
              (log_no_pidfile pid instance' w'))
      ]

  abbrev pub as_process_controller : ProcessController World
  as_process_controller = record {
    start_and_wait_until_ready = start_and_wait_until_ready;
    kill = kill;
  }
