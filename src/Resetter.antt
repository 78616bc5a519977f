-- ===== src/Resetter.antt =====
-- resetter/resetter.go: a server is stopped, its data deleted, its configuration replaced by the
-- default one, and the server started again. Monit, the connection to the server and the check of a
-- port belong to other packages, and are fields.
pub mod Configured
pub mod Kept
pub mod Reset
use cf_redis_broker.Base.{
  String, ◌<>◌, if◌then◌else◌, List, [], ◌∷◌, ℤ, pos, itoa, contains, Error, message, Result, ok,
  err,
}
use cf_redis_broker.Base.Act.{Act, inspect, pure, raise, ◌>>=◌, ◌>>◌}
use cf_redis_broker.Os.{World, os_remove, always}
use cf_redis_broker.Os.Paths.{FilePath, join}
use cf_redis_broker.Redisconf
use cf_redis_broker.Redisconf.Additions.{load, save}
use cf_redis_broker.Redis.Creator.{seconds}
use cf_redis_broker.Redis.Process.{TcpAddr}
use cf_redis_broker.Migrator.{try_remove}

-- `Conn` is the type of connections; `do_command` and `close` are their methods, `error_text` is the
-- `Error` method of an error, and `working_dir` the directory that the program runs in.
pub record Resetter (Conn : Type 0) : Type 0 where
  pub default_conf_path : FilePath
  pub live_conf_path : FilePath
  pub port_check : TcpAddr → ℤ → Act World (Unit {0})
  pub timeout : ℤ
  pub stop_and_wait : String → Act World (Unit {0})
  pub start_and_wait : String → Act World (Unit {0})
  pub dial : String → Act World Conn
  pub do_command : Conn → List String → Act World (Unit {0})
  pub close : Conn → World → World
  pub resolve_tcp_addr : String → Act World TcpAddr
  pub error_text : Error → String
  pub working_dir : FilePath

-- The timeout of `New`.
abbrev pub default_timeout : ℤ
default_timeout = seconds (pos 30)

module _ {Conn : Type 0} (resetter : Resetter Conn) where
  unfoldable pub get_authenticated_redis_conn : Act World Conn
  get_authenticated_redis_conn = do
    live_conf ← load resetter.live_conf_path
    connection ← resetter.dial (Redisconf.host live_conf <> ":" <> itoa (Redisconf.port live_conf))
    inspect (resetter.do_command connection ("AUTH" ∷ Redisconf.password live_conf ∷ []))
        (elim [ ok _ ↦ pure connection | err e ↦ do always (resetter.close connection); raise e ])

  -- `isNoScriptErr` is the test.
  unfoldable pub script_killed : Result (Unit {0}) → Act World (Unit {0})
  script_killed (ok u) = pure tt
  script_killed (err e) =
      if contains (resetter.error_text e) "No scripts in execution right now"
      then pure tt
      else raise (message ("failed to kill redis script: " <> resetter.error_text e))

  unfoldable pub kill_script : Act World (Unit {0})
  kill_script = do
    connection ← get_authenticated_redis_conn
    inspect (resetter.do_command connection ("SCRIPT" ∷ "KILL" ∷ []))
        (λ r. do always (resetter.close connection); script_killed r)

  unfoldable pub stop_redis : Act World (Unit {0})
  stop_redis = do kill_script; resetter.stop_and_wait "redis"

  unfoldable pub delete_data : Act World (Unit {0})
  delete_data = do
    os_remove (join resetter.working_dir "appendonly.aof")
    try_remove (join resetter.working_dir "dump.rdb")

  unfoldable pub reset_config_with_new_password : Act World (Unit {0})
  reset_config_with_new_password = do
    conf ← load resetter.default_conf_path
    save resetter.live_conf_path conf

  unfoldable pub start_redis : Act World (Unit {0})
  start_redis = resetter.start_and_wait "redis"

  unfoldable pub reset_redis : Act World (Unit {0})
  reset_redis = do
    stop_redis
    delete_data
    reset_config_with_new_password
    start_redis
    conf ← load resetter.live_conf_path
    address ← resetter.resolve_tcp_addr ("127.0.0.1:" <> Redisconf.get "port" conf)
    resetter.port_check address resetter.timeout
