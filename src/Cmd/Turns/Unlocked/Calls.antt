-- ===== src/Cmd/Turns/Unlocked/Calls.antt =====
-- cmd/broker/main.go and cmd/processmonitor/main.go: what each call of a creation, and of the
-- monitor, leaves of the lock and of the configuration of the new instance.
use cf_redis_broker.Base.{
  ◌==◌, ◌≡◌, refl, ap, String, false, Option, none, some, ◌∷◌, arith, ℤ, Error, ok, err,
}
use cf_redis_broker.Os.{World, Call, node_at, os_stat, os_remove}
use cf_redis_broker.Os.Paths.{FilePath, IsName, same, is_under, join}
use cf_redis_broker.Os.Files.{Tree, file, lookup, lookup-insert_self}
use cf_redis_broker.Os.Laws.{write_text_effect}
use cf_redis_broker.Os.Under.{not_true, is_under_cons, is_under_cons_both, is_under_longer}
use cf_redis_broker.Os.Frame.{Keeps, Keeps-write_text}
use cf_redis_broker.Redis.Instance.{Instance}
use cf_redis_broker.Redis.Repository.{
  LocalRepository, data_directory, pidfile_directory, instance_base_dir, instance_data_dir,
  instance_log_dir, instance_log_file_path, instance_pid_file_path, instance_config_path, lock,
  unlock,
}
use cf_redis_broker.Redis.Repository.Isolation.{
  AreApart, log_directory, ensure_directories_exist-Keeps, write_config_file-Keeps,
}
use cf_redis_broker.Redis.Repository.Isolation.Others.{base_at, log_at, pids_not_below}
use cf_redis_broker.Redis.Repository.Listing.{all_instances}
use cf_redis_broker.Cmd.Turns.Unlocked.Listed.{view-all_instances}
use cf_redis_broker.Redis.Process.{OsProcessController}
use cf_redis_broker.Redis.Process.Aside.{
  IsAside, start_and_wait_until_ready-Keeps, ensure_running-Keeps,
}
use cf_redis_broker.Cmd.Monitor.{ensure_running}
use cf_redis_broker.Cmd.Turns.{
  Phase, making, locking, configuring, starting, unlocking, finished, call,
}

module _ (repo : LocalRepository) (i : Instance) where
  abbrev pub lock_path : FilePath
  lock_path = "lock" ∷ instance_base_dir repo i.id

  abbrev pub conf_path : FilePath
  conf_path = "redis.conf" ∷ instance_base_dir repo i.id

  pub conf_not_lock : same conf_path lock_path ≡ false
  unfolding same
  conf_not_lock = refl

  lock_not_conf : same lock_path conf_path ≡ false
  unfolding same
  lock_not_conf = refl

-- A file of the instance is above none of the directories.
module _ (repo : LocalRepository) (apart : AreApart repo) (i : Instance) (name : IsName i.id)
    (x : String) where
  abbrev base : FilePath
  base = instance_base_dir repo i.id

  pub not_above_data :
      (x == "db") ≡ false → is_under (x ∷ base) (instance_data_dir repo i.id) ≡ false
  unfolding join is_under same
  not_above_data other = ground (arith, is_under_longer x base)

  pub not_above_pids : is_under (x ∷ base) (pidfile_directory repo) ≡ false
  not_above_pids = not_true (λ u. ground (
    arith,
    base_at repo apart i.id name,
    apart.pids,
    is_under_cons i.id (data_directory repo) (pidfile_directory repo),
    is_under_cons x base (pidfile_directory repo) u,
  ))

  pub not_above_logs : is_under (x ∷ base) (instance_log_dir repo i.id) ≡ false
  not_above_logs = rw (log_at repo apart i.id name) (
      not_true (λ u. ground (
        arith,
        base_at repo apart i.id name,
        apart.logs,
        is_under_cons i.id (data_directory repo) (log_directory repo),
        is_under_cons_both x base i.id (log_directory repo) u,
      )))

-- The configuration keeps its directories apart, the ID is a plain name, and the servers leave the
-- lock and the configuration of the new instance alone.
pub record IsKept (repo : LocalRepository) (controller : OsProcessController) (i : Instance)
    : Type 0 where
  pub apart : AreApart repo
  pub name : IsName i.id
  pub lock_aside : IsAside controller (lock_path repo i)
  pub conf_aside : IsAside controller (conf_path repo i)

module _ (repo : LocalRepository) (controller : OsProcessController) (timeout : ℤ) (i : Instance)
    (kept : IsKept repo controller i) where
  open kept use {apart, name, lock_aside, conf_aside}

  -- Each call of the creation.
  pub call_making : Keeps (conf_path repo i) (call repo controller timeout i making)
  unfolding call
  call_making w = ground (
    arith,
    ensure_directories_exist-Keeps repo i (conf_path repo i)
        (not_above_data repo apart i name "redis.conf" refl)
        (not_above_pids repo apart i name "redis.conf")
        (not_above_logs repo apart i name "redis.conf") w,
  )

  pub call_locking : Keeps (conf_path repo i) (call repo controller timeout i locking)
  unfolding call lock join
  call_locking w =
      ground
        (arith, Keeps-write_text (conf_path repo i) (lock_path repo i) "" (lock_not_conf repo i) w)

  pub call_locked :
      (w : World)
      → (call repo controller timeout i locking w).0 ≡ ok tt
      → lookup (lock_path repo i) (call repo controller timeout i locking w).1.tree ≡ some (file "")
  unfolding call lock join
  call_locked w h = ground (
    arith,
    write_text_effect (lock_path repo i) "" w,
    lookup-insert_self (lock_path repo i) (file "") w.tree,
  )

  pub call_configuring : Keeps (lock_path repo i) (call repo controller timeout i configuring)
  unfolding call join
  call_configuring w =
      ground (arith, write_config_file-Keeps repo i (lock_path repo i) (conf_not_lock repo i) w)

  pub call_starting : Keeps (lock_path repo i) (call repo controller timeout i starting)
  unfolding call
  call_starting =
      start_and_wait_until_ready-Keeps controller (lock_path repo i) lock_aside i _ _ _ timeout

  pub call_unlocking :
      (w : World)
      → ((call repo controller timeout i unlocking w).1.refuses ≡ w.refuses)
        × ((e : Error)
            → (call repo controller timeout i unlocking w).0 ≡ err e
            → (call repo controller timeout i unlocking w).1 ≡ w)
  unfolding call unlock os_remove
  call_unlocking w = (ground arith, λ e h. ground arith)

  pub call_refuses :
      (p : Phase) (w : World) → (call repo controller timeout i p w).1.refuses ≡ w.refuses
  call_refuses making w = (call_making w).1
  call_refuses locking w = (call_locking w).1
  call_refuses configuring w = (call_configuring w).1
  call_refuses starting w = (call_starting w).1
  call_refuses unlocking w = (call_unlocking w).0
  call_refuses finished w = unfold call in refl

  pub stat_reads : (p : FilePath) (w : World) → (os_stat p w).1 ≡ w
  unfolding os_stat
  stat_reads p w = ground arith

  pub monitor_starts-Keeps :
      (q : FilePath) (j : Instance)
      → IsAside controller q
      → same (instance_pid_file_path repo j.id) q ≡ false
      → Keeps q (ensure_running repo controller j)
  unfolding ensure_running
  monitor_starts-Keeps q j aside pid_apart w = ground (
    arith,
    ensure_running-Keeps controller q aside j (instance_pid_file_path repo j.id) pid_apart
        (instance_config_path repo j.id) (instance_data_dir repo j.id)
        (instance_log_file_path repo j.id) w,
  )

  pub pid_not_below :
      (j : Instance) (x : String)
      → IsName j.id
      → same (instance_pid_file_path repo j.id) (x ∷ instance_base_dir repo i.id) ≡ false
  pid_not_below j x own =
      rw (base_at repo apart i.id name) (pids_not_below repo apart j.id own x i.id)

  pub listed :
      (w : World)
      → ((all_instances repo w).1.tree ≡ w.tree) × ((all_instances repo w).1.refuses ≡ w.refuses)
  listed w = (
    ap (λ (v : Tree × (Call → Option Error)). v.0) (view-all_instances repo w),
    ap (λ (v : Tree × (Call → Option Error)). v.1) (view-all_instances repo w),
  )

  pub conf_missing :
      (w : World)
      → lookup (conf_path repo i) w.tree ≡ none
      → node_at (instance_config_path repo i.id) w.tree ≡ none
  unfolding node_at join
  conf_missing w h = h
