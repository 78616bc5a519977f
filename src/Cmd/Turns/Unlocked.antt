-- ===== src/Cmd/Turns/Unlocked.antt =====
-- cmd/broker/main.go and cmd/processmonitor/main.go: the monitor stays off an instance until its
-- creation has taken the lock away.
pub mod Listed
pub mod Calls
pub mod Guarded
pub mod Restart
pub mod Failed
use cf_redis_broker.Base.{
  subst, ◌≡◌, refl, sym, ap, ◌∙◌, String, Bool, true, false, Bool-cases, inl, inr, ◌==◌, eq_iff,
  Option, none, some, List, [], ◌∷◌, All, arith, ℤ, Error, Result, Result-cases, ok, err,
}
use cf_redis_broker.Base.Act.{Act}
use cf_redis_broker.Os.{World, Call, stat, node_at, os_stat, os_remove, write_text}
use cf_redis_broker.Os.Paths.{FilePath, IsName, same, is_under, is_under_self, join}
use cf_redis_broker.Os.Files.{Tree, file, lookup, lookup-insert_self}
use cf_redis_broker.Os.Laws.{write_text_effect}
use cf_redis_broker.Os.Under.{not_true, is_under_cons, is_under_cons_both, is_under_longer}
use cf_redis_broker.Os.Frame.{Stays, Keeps, Keeps-write_text}
use cf_redis_broker.Redis.Instance.{Instance}
use cf_redis_broker.Redis.Repository.{
  LocalRepository, data_directory, pidfile_directory, instance_base_dir, instance_data_dir,
  instance_log_dir, instance_log_file_path, instance_pid_file_path, instance_config_path,
  lock_file_path, lock, unlock,
}
use cf_redis_broker.Redis.Repository.Isolation.{
  AreApart, log_directory, ensure_directories_exist-Keeps, write_config_file-Keeps,
}
use cf_redis_broker.Redis.Repository.Isolation.Others.{base_at, db_at, log_at, pids_not_below}
use cf_redis_broker.Redis.Repository.Listing.{all_instances}
use cf_redis_broker.Cmd.Turns.Unlocked.Listed.{listing_differs, view-all_instances}
use cf_redis_broker.Redis.Process.{OsProcessController}
use cf_redis_broker.Redis.Process.Aside.{
  IsAside, start_and_wait_until_ready-Keeps, ensure_running-Keeps,
}
use cf_redis_broker.Cmd.Monitor.{ensure_running, start_up}
use cf_redis_broker.Cmd.Turns.Unlocked.Restart.{start_up_lock, restarts-IsGuarded}
use cf_redis_broker.Cmd.Turns.{
  at_first, following, chosen_by, monitor_lists, monitor_looks, monitor_starts, Phase, making,
  locking, configuring, starting, unlocking, finished, Turn, call, broker_moves, Step, broker,
  lists, looks, starts, restarts, others, Reach, here, next,
}
use cf_redis_broker.Cmd.Turns.Unlocked.Calls.{
  lock_path, conf_path, IsKept, call_making, call_locking, call_locked, call_configuring,
  call_starting, call_unlocking, call_refuses, stat_reads, monitor_starts-Keeps, pid_not_below,
  listed, conf_missing,
}
use cf_redis_broker.Cmd.Turns.Unlocked.Guarded.{
  IsOther, NotChosen, IsUnknown, IsHeld, IsGuarded, Invariant, after, IsGuarded-ok, IsGuarded-err,
  broker-Invariant, stays-IsGuarded, other_chosen, lock_found, held_chosen, looked, looked_keeps,
  looks-IsGuarded, lists-IsGuarded,
}

module _ (repo : LocalRepository) (controller : OsProcessController) (timeout : ℤ) (i : Instance)
    (kept : IsKept repo controller i) where
  open kept use {apart, name, lock_aside, conf_aside}

  may_stat :
      (w w' : World)
      → w'.refuses ≡ w.refuses
      → w.refuses (stat (lock_path repo i)) ≡ none
      → w'.refuses (stat (lock_path repo i)) ≡ none
  may_stat w w' e free = ap (λ r. r (stat (lock_path repo i))) e ∙ free

  Step-Invariant :
      {t u : Turn}
      → Step repo controller timeout i t u
      → Invariant repo controller timeout i kept t
      → Invariant repo controller timeout i kept u
  Step-Invariant (broker t going) inv = broker-Invariant repo controller timeout i kept t inv
  Step-Invariant (lists t idle) (free, guarded) = (
    may_stat t.world (all_instances repo t.world).1
        (listed repo controller timeout i kept t.world).1 free,
    lists-IsGuarded repo controller timeout i kept t.phase t guarded,
  )
  Step-Invariant (looks t j rest idle at) (free, guarded) = (
    may_stat t.world (looked repo controller timeout i kept t j)
        (ap (λ (w : World). w.refuses) (stat_reads repo controller timeout i kept _ t.world)) free,
    looks-IsGuarded repo controller timeout i kept t.phase t j rest free at guarded,
  )
  Step-Invariant (starts t j picked own) (free, guarded) =
      let (lock_kept, refuses) =
        monitor_starts-Keeps repo controller timeout i kept (lock_path repo i) j lock_aside
          (pid_not_below repo controller timeout i kept j "lock" own) t.world in
      let (conf_kept, refuses') =
        monitor_starts-Keeps repo controller timeout i kept (conf_path repo i) j conf_aside
          (pid_not_below repo controller timeout i kept j "redis.conf" own) t.world in
      (
        may_stat t.world (ensure_running repo controller j t.world).1 refuses free,
        stays-IsGuarded repo controller timeout i kept t.phase t
            (monitor_starts repo controller timeout i j t) guarded lock_kept conf_kept (λ all. all)
            (λ chosen. tt),
      )
  Step-Invariant (restarts t names) (free, guarded) = (
    may_stat t.world (start_up repo t.world).1
        (start_up_lock repo controller timeout i kept t.world names).1 free,
    restarts-IsGuarded repo controller timeout i kept t.phase t names guarded,
  )
  Step-Invariant (others t w (lock_kept, refuses) (conf_kept, refuses')) (free, guarded) = (
    may_stat t.world w refuses free,
    stays-IsGuarded repo controller timeout i kept t.phase t (record t { world = w }) guarded
        lock_kept conf_kept (λ all. all) (λ chosen. chosen),
  )

  pub Reach-Invariant :
      {s t : Turn}
      → Invariant repo controller timeout i kept s
      → Reach repo controller timeout i s t
      → Invariant repo controller timeout i kept t
  Reach-Invariant inv here = inv
  Reach-Invariant inv (next r st) = Step-Invariant st (Reach-Invariant inv r)

  pub not_chosen :
      (j : Instance) → NotChosen repo controller timeout i kept (some j) → ¬ ((j.id == i.id) ≡ true)
  not_chosen j other same_id = ground arith

  IsGuarded-chosen :
      (p : Phase) (t : Turn) (j : Instance)
      → IsGuarded repo controller timeout i kept p t
      → t.chosen ≡ some j
      → (j.id == i.id) ≡ true
      → p ≡ finished
  IsGuarded-chosen making t j (missing, round, chosen) picked same_id =
      absurd (not_chosen j (subst (NotChosen repo controller timeout i kept) picked chosen) same_id)
  IsGuarded-chosen locking t j (missing, round, chosen) picked same_id =
      absurd (not_chosen j (subst (NotChosen repo controller timeout i kept) picked chosen) same_id)
  IsGuarded-chosen configuring t j (held, chosen) picked same_id =
      absurd (not_chosen j (subst (NotChosen repo controller timeout i kept) picked chosen) same_id)
  IsGuarded-chosen starting t j (held, chosen) picked same_id =
      absurd (not_chosen j (subst (NotChosen repo controller timeout i kept) picked chosen) same_id)
  IsGuarded-chosen unlocking t j (held, chosen) picked same_id =
      absurd (not_chosen j (subst (NotChosen repo controller timeout i kept) picked chosen) same_id)
  IsGuarded-chosen finished t j guarded picked same_id = refl

  -- Let a creation and the monitor, its starts and its rounds, take turns over the same files,
  -- whatever calls fail and with only plain names as the IDs that the monitor meets, and let
  -- anything else happen that leaves the new instance's lock and configuration alone: if the
  -- monitor is about to start a server of the new ID, then the creation has come to its end, the
  -- lock taken away. The conditions: at first there is no configuration of that ID, the system
  -- lets the monitor look for the lock, the directories of the configuration lie apart, the ID is
  -- a plain name, and the servers leave both files alone (`IsKept`).
  pub Reach-finished :
      (w : World) (t : Turn) (j : Instance)
      → lookup (conf_path repo i) w.tree ≡ none
      → w.refuses (stat (lock_path repo i)) ≡ none
      → Reach repo controller timeout i (at_first w) t
      → t.chosen ≡ some j
      → (j.id == i.id) ≡ true
      → t.phase ≡ finished
  Reach-finished w t j missing free run picked same_id =
      IsGuarded-chosen t.phase t j (Reach-Invariant (free, (missing, tt, tt)) run).1 picked same_id
