-- ===== src/Redis/Process/Running.antt =====
-- redis/process_controller.go: what `EnsureRunning` does in each case.
use cf_redis_broker.Base.{
  ◌≡◌, true, none, ℤ, Error, Result, ok, err, arith, ◌⊎◌, inl, inr, Result-cases,
}
use cf_redis_broker.Os.{World, os_remove, log_info, log_error}
use cf_redis_broker.Os.Files.{lookup}
use cf_redis_broker.Os.Laws.{remove_ok}
use cf_redis_broker.Os.Paths.{FilePath}
use cf_redis_broker.Redis.Instance.{Instance}
use cf_redis_broker.Redis.Process.{
  OsProcessController, instance_only, redis_start_timeout, start_and_wait_until_ready,
  ensure_running,
}

module _ (controller : OsProcessController) (i : Instance)
    (config data_dir pidfile log_file : FilePath) (w w₁ : World) where
  ensure_running_answers :
      (pid : ℤ) (w₂ : World)
      → controller.instance_pid i.id w ≡ (ok pid, w₁)
      → controller.alive pid w₁ ≡ true
      → controller.ping i w₁ ≡ (ok tt, w₂)
      → ensure_running controller i config data_dir pidfile log_file w
        ≡ (ok tt, log_info "redis instance already running" (instance_only i) w₂)
  unfolding ensure_running
  ensure_running_answers pid w₂ found alive answered = ground arith

  ensure_running_keeps_pidfile :
      (pid : ℤ) (w₂ w₃ : World) (e f : Error)
      → controller.instance_pid i.id w ≡ (ok pid, w₁)
      → controller.alive pid w₁ ≡ true
      → controller.ping i w₁ ≡ (err e, w₂)
      → os_remove pidfile (log_error "failed to PING redis-server" none (instance_only i) w₂)
        ≡ (err f, w₃)
      → ensure_running controller i config data_dir pidfile log_file w
        ≡ (err f, log_error "failed to delete stale pidfile" none (instance_only i) w₃)
  unfolding ensure_running
  ensure_running_keeps_pidfile pid w₂ w₃ e f found alive failed kept = ground arith

  ensure_running_replaces :
      (pid : ℤ) (w₂ w₃ : World) (e : Error)
      → controller.instance_pid i.id w ≡ (ok pid, w₁)
      → controller.alive pid w₁ ≡ true
      → controller.ping i w₁ ≡ (err e, w₂)
      → os_remove pidfile (log_error "failed to PING redis-server" none (instance_only i) w₂)
        ≡ (ok tt, w₃)
      → ensure_running controller i config data_dir pidfile log_file w
        ≡ start_and_wait_until_ready controller i config data_dir log_file redis_start_timeout
            (log_info "removed stale pidfile" (instance_only i) w₃)
  unfolding ensure_running
  ensure_running_replaces pid w₂ w₃ e found alive failed gone = ground arith

  -- Where the pidfile names a process that is alive, one of three things holds. The server
  -- answers the ping, and `EnsureRunning` succeeds and only writes a log entry after it; or the
  -- ping fails, the stale pidfile cannot be removed, and the error of the removal is returned
  -- after a log entry; or the ping fails, the pidfile is removed and gone, and the result is that
  -- of starting a server in the state that the removal left, with a log entry.
  pub ensure_running_alive :
      (pid : ℤ)
      → controller.instance_pid i.id w ≡ (ok pid, w₁)
      → controller.alive pid w₁ ≡ true
      → let result : Result (Unit {0}) × World =
          ensure_running controller i config data_dir pidfile log_file w in
        ((v : World) × (controller.ping i w₁ ≡ (ok tt, v))
          × (result ≡ (ok tt, log_info "redis instance already running" (instance_only i) v)))
        ⊎ ((e f : Error) × (v v' : World) × (controller.ping i w₁ ≡ (err e, v))
            × (os_remove pidfile (log_error "failed to PING redis-server" none (instance_only i) v)
                ≡ (err f, v'))
            × (result
                ≡ (err f, log_error "failed to delete stale pidfile" none (instance_only i) v')))
        ⊎ ((e : Error) × (v v' : World) × (controller.ping i w₁ ≡ (err e, v))
            × (os_remove pidfile (log_error "failed to PING redis-server" none (instance_only i) v)
                ≡ (ok tt, v'))
            × (lookup pidfile v'.tree ≡ none)
            × (result
                ≡ start_and_wait_until_ready controller i config data_dir log_file
                    redis_start_timeout
                    (log_info "removed stale pidfile" (instance_only i) v')))
  ensure_running_alive pid found alive =
      let v : World =
        log_error "failed to PING redis-server" none (instance_only i) (controller.ping i w₁).1 in
      elim (Result-cases (controller.ping i w₁).0) [
        | inr (u, good) ↦ inl (
          (controller.ping i w₁).1,
          ground arith,
          ensure_running_answers pid (controller.ping i w₁).1 found alive (ground arith),
        )
        | inl (e, bad) ↦ elim (Result-cases (os_remove pidfile v).0) [
          | inl (f, kept) ↦ inr (
              inl (
                e,
                f,
                (controller.ping i w₁).1,
                (os_remove pidfile v).1,
                ground arith,
                ground arith,
                ensure_running_keeps_pidfile pid (controller.ping i w₁).1 (os_remove pidfile v).1 e
                    f found alive (ground arith) (ground arith),
              ))
          | inr (u, gone) ↦ inr (
              inr (
                e,
                (controller.ping i w₁).1,
                (os_remove pidfile v).1,
                ground arith,
                ground arith,
                remove_ok pidfile v (os_remove pidfile v).1 (ground arith),
                ensure_running_replaces pid (controller.ping i w₁).1 (os_remove pidfile v).1 e found
                    alive (ground arith) (ground arith),
              ))
        ]
      ]
