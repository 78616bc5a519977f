-- ===== src/Tests/Servers.antt =====
-- The process controller and the process monitor.
use cf_redis_broker.Base.{◌≡◌, All, refl, ◌⊎◌, Error, Result, false, none, [], ◌∷◌, ok, err, pos}
use cf_redis_broker.Os.{World, os_read_dir, os_remove, read_text, log_info, log_error, node_at}
use cf_redis_broker.Os.Paths.{same, join}
use cf_redis_broker.Os.Files.{file, dir, lookup, names_in, sort}
use cf_redis_broker.Redisconf.{decode, get}
use cf_redis_broker.Redisconf.Additions.{load}
use cf_redis_broker.Redis.Repository.{find_by_id}
use cf_redis_broker.Redis.Repository.Listing.{
  all_instances, all_instances_with, list_names, file_result, collect, announced, verbosely,
}
use cf_redis_broker.Redis.Process.{
  ensure_running, start_and_wait_until_ready, redis_start_timeout, instance_only,
}
use cf_redis_broker.Redis.Process.Running.{ensure_running_alive}
use cf_redis_broker.Cmd.Monitor.{check_round}
use cf_redis_broker.Cmd.Monitor.Watching.{IsLocked, check_round_locked}
use cf_redis_broker.Tests.Data.{repo, one, silent}

-- One instance, with a lock and a pidfile.
abbrev locked_disk : World
locked_disk = record {
  tree =
      ("data" ∷ [], dir)
      ∷ ("one" ∷ "data" ∷ [], dir)
      ∷ ("redis.conf" ∷ "one" ∷ "data" ∷ [], file "port 7000\nrequirepass pw\n")
      ∷ ("lock" ∷ "one" ∷ "data" ∷ [], file "")
      ∷ ("pids" ∷ [], dir)
      ∷ ("one.pid" ∷ "pids" ∷ [], file "42")
      ∷ [];
  refuses = λ c. none;
  logs = [];
}

ensure_running_alive_example :
    let result : Result (Unit {0}) × World =
      ensure_running silent one
        ("redis.conf" ∷ [])
        ("db" ∷ [])
        ("one.pid" ∷ "pids" ∷ [])
        ("log" ∷ [])
        locked_disk in
    ((v : World) × (silent.ping one locked_disk ≡ (ok tt, v))
      × (result ≡ (ok tt, log_info "redis instance already running" (instance_only one) v)))
    ⊎ ((e f : Error) × (v v' : World) × (silent.ping one locked_disk ≡ (err e, v))
        × (os_remove
              ("one.pid" ∷ "pids" ∷ [])
              (log_error "failed to PING redis-server" none (instance_only one) v)
            ≡ (err f, v'))
        × (result
            ≡ (err f, log_error "failed to delete stale pidfile" none (instance_only one) v')))
    ⊎ ((e : Error) × (v v' : World) × (silent.ping one locked_disk ≡ (err e, v))
        × (os_remove
              ("one.pid" ∷ "pids" ∷ [])
              (log_error "failed to PING redis-server" none (instance_only one) v)
            ≡ (ok tt, v'))
        × (lookup ("one.pid" ∷ "pids" ∷ []) v'.tree ≡ none)
        × (result
            ≡ start_and_wait_until_ready silent one
                ("redis.conf" ∷ [])
                ("db" ∷ [])
                ("log" ∷ [])
                redis_start_timeout
                (log_info "removed stale pidfile" (instance_only one) v')))
ensure_running_alive_example =
    ensure_running_alive silent one ("redis.conf" ∷ []) ("db" ∷ []) ("one.pid" ∷ "pids" ∷ [])
      ("log" ∷ []) locked_disk locked_disk (pos 42) refl refl

All-IsLocked :
    All
      (IsLocked repo (all_instances repo locked_disk).1)
      (all_instances repo locked_disk).0.instances
unfolding all_instances all_instances_with list_names file_result collect announced verbosely
    find_by_id load decode get os_read_dir read_text node_at lookup names_in sort same join
All-IsLocked = (record { node = file ""; there = refl; may_stat = refl }, tt)

check_round_locked_example :
    check_round repo silent false locked_disk ≡ (ok tt, (all_instances repo locked_disk).1)
check_round_locked_example = check_round_locked repo silent locked_disk All-IsLocked
