-- ===== src/Redis/Process/Aside.antt =====
-- redis/process_controller.go: what the start and the watching of a server leave alone.
use cf_redis_broker.Base.{none, [], ◌∷◌, ◌≡◌, String, false, List, ℤ, arith, Result, ok, err}
use cf_redis_broker.Os.{World, log_info, log_error}
use cf_redis_broker.Os.Paths.{FilePath, same, render}
use cf_redis_broker.Base.Act.{Act}
use cf_redis_broker.Os.Frame.{Keeps, Keeps-os_remove}
use cf_redis_broker.Redis.Instance.{Instance}
use cf_redis_broker.Redis.Process.{
  OsProcessController, TcpAddr, address, start_and_wait_until_ready,
  start_and_wait_until_ready_with_config, ensure_running, drop_stale_pidfile, executable,
  after_ping, log_no_pidfile, found_alive, redis_start_timeout, instance_only,
}

-- A server, and the look for one, leave what stands at `q`.
pub record IsAside (controller : OsProcessController) (q : FilePath) : Type 0 where
  pub finds : (id : String) → Keeps q (controller.instance_pid id)
  pub pings : (i : Instance) → Keeps q (controller.ping i)
  pub runs : (name : String) (args : List String) → Keeps q (controller.run name args)
  pub waits : (a : TcpAddr) (timeout : ℤ) → Keeps q (controller.wait_until_connectable a timeout)

module _ (controller : OsProcessController) (q : FilePath) (aside : IsAside controller q)
    (i : Instance) where
  with_config-Keeps :
      (args : List String) (timeout : ℤ)
      → Keeps q (start_and_wait_until_ready_with_config controller i args timeout)
  unfolding start_and_wait_until_ready_with_config
  with_config-Keeps args timeout w =
      let w₁ : World = (controller.run (executable controller) args w).1 in
      ground (arith, aside.runs (executable controller) args w, aside.waits (address i) timeout w₁)

  pub start_and_wait_until_ready-Keeps :
      (config data_dir log_file : FilePath) (timeout : ℤ)
      → Keeps q (start_and_wait_until_ready controller i config data_dir log_file timeout)
  unfolding start_and_wait_until_ready
  start_and_wait_until_ready-Keeps config data_dir log_file timeout =
      with_config-Keeps
        (render config ∷ "--dir" ∷ render data_dir ∷ "--logfile" ∷ render log_file ∷ []) timeout

  module _ (pidfile : FilePath) (apart : same pidfile q ≡ false) where
    drop_stale_pidfile-Keeps : Keeps q (drop_stale_pidfile controller i pidfile)
    unfolding drop_stale_pidfile
    drop_stale_pidfile-Keeps w = ground (
      arith,
      Keeps-os_remove q pidfile apart
          (log_error "failed to PING redis-server" none (instance_only i) w),
    )

    after_ping-Keeps :
        (r : Result (Unit {0})) (start : Act World (Unit {0}))
        → Keeps q start
        → Keeps q (after_ping controller r i pidfile start)
    unfolding after_ping
    after_ping-Keeps (ok u) start h w = ground arith
    after_ping-Keeps (err e) start h w =
        let w₁ : World = (drop_stale_pidfile controller i pidfile w).1 in
        ground (arith, drop_stale_pidfile-Keeps w, h w₁)

    pub ensure_running-Keeps :
        (config data_dir log_file : FilePath)
        → Keeps q (ensure_running controller i config data_dir pidfile log_file)
    unfolding ensure_running log_no_pidfile found_alive
    ensure_running-Keeps config data_dir log_file w =
        let start : Act World (Unit {0}) =
          start_and_wait_until_ready controller i config data_dir log_file redis_start_timeout in
        let w₁ : World = (controller.instance_pid i.id w).1 in
        let w₂ : World = (controller.ping i w₁).1 in
        let starts : Keeps q start =
          start_and_wait_until_ready-Keeps config data_dir log_file redis_start_timeout in
        ground (
          arith,
          aside.finds i.id w,
          aside.pings i w₁,
          after_ping-Keeps (controller.ping i w₁).0 start starts w₂,
          starts (
              log_info "redis instance is not running" (instance_only i)
                (log_no_pidfile controller (controller.instance_pid i.id w).0 i w₁)),
        )
