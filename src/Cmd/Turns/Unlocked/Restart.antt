-- ===== src/Cmd/Turns/Unlocked/Restart.antt =====
-- cmd/processmonitor/main.go: what a start of the monitor leaves of the new instance.
use cf_redis_broker.Base.{
  ◌≡◌, refl, ap, ◌∙◌, true, false, Bool-cases, inl, inr, ◌==◌, eq_iff, none, Option, List, [], ◌∷◌,
  All, arith, ℤ,
}
use cf_redis_broker.Os.{World, Call}
use cf_redis_broker.Base.{Error, String}
use cf_redis_broker.Os.Paths.{FilePath, IsName, join}
use cf_redis_broker.Os.Files.{Tree, lookup}
use cf_redis_broker.Os.Frame.{Stays, Keeps}
use cf_redis_broker.Redis.Instance.{Instance}
use cf_redis_broker.Redis.Repository.{LocalRepository, instance_base_dir}
use cf_redis_broker.Redis.Repository.Isolation.{IsElsewhere}
use cf_redis_broker.Redis.Repository.Isolation.Others.{base_at, IsElsewhere-file}
use cf_redis_broker.Redis.Repository.Listing.{all_instances_verbose}
use cf_redis_broker.Redis.Repository.Listing.Count.{view-all_instances_with}
use cf_redis_broker.Redis.Process.{OsProcessController}
use cf_redis_broker.Cmd.Monitor.{copy_config_file, copy_config_files, start_up}
use cf_redis_broker.Cmd.Monitor.Restarted.{copy_config_file-Keeps, copy_config_file-IsElsewhere}
use cf_redis_broker.Cmd.Turns.{
  Turn, Phase, making, locking, configuring, starting, unlocking, finished, monitor_restarts,
}
use cf_redis_broker.Cmd.Turns.Unlocked.Calls.{
  lock_path, conf_path, conf_not_lock, not_above_data, not_above_pids, not_above_logs, IsKept,
  conf_missing,
}
use cf_redis_broker.Cmd.Turns.Unlocked.Listed.{listing_differs}
use cf_redis_broker.Cmd.Turns.Unlocked.Guarded.{IsGuarded}

-- What each of the copies keeps, all of them keep.
copies-Keeps :
    (repo : LocalRepository) (q : FilePath) (js : List Instance)
    → All (λ (j : Instance). Keeps q (copy_config_file repo j)) js
    → Keeps q (copy_config_files repo js)
unfolding copy_config_files
copies-Keeps repo q [] all w = (refl, refl)
copies-Keeps repo q (j ∷ js) (first, all) w =
    ground (arith, first w, copies-Keeps repo q js all (copy_config_file repo j w).1)

All-map :
    {P Q : Instance → Type 0} (js : List Instance)
    → ((j : Instance) → P j → Q j)
    → All P js
    → All Q js
All-map [] f all = tt
All-map (j ∷ js) f (first, all) = (f j first, All-map js f all)

module _ (repo : LocalRepository) (controller : OsProcessController) (timeout : ℤ) (i : Instance)
    (kept : IsKept repo controller i) where
  open kept use {apart, name}

  file_apart :
      (j : Instance) (x : String)
      → IsName j.id
      → (j.id == i.id) ≡ false
      → IsElsewhere repo j.id (x ∷ instance_base_dir repo i.id)
  file_apart j x own differ =
      rw (base_at repo apart i.id name) (IsElsewhere-file repo apart j.id i.id own differ x)

  own_lock : (j : Instance) → j.id ≡ i.id → Keeps (lock_path repo i) (copy_config_file repo j)
  unfolding join
  own_lock j e =
      copy_config_file-Keeps repo j (lock_path repo i)
        (rw e (not_above_data repo apart i name "lock" refl))
        (not_above_pids repo apart i name "lock") (rw e (not_above_logs repo apart i name "lock"))
        (rw e (conf_not_lock repo i))

  copy_lock : (j : Instance) → IsName j.id → Keeps (lock_path repo i) (copy_config_file repo j)
  copy_lock j own = elim (Bool-cases (j.id == i.id)) [
    | inl e ↦ own_lock j ((eq_iff j.id i.id).0 e)
    | inr e ↦ copy_config_file-IsElsewhere repo j (lock_path repo i) (file_apart j "lock" own e)
  ]

  abbrev HasNames : World → Type 0
  HasNames w = All (λ (j : Instance). IsName j.id) (all_instances_verbose repo w).0.instances

  listed-Stays : (q : FilePath) (w : World) → Stays q w (all_instances_verbose repo w).1
  unfolding all_instances_verbose
  listed-Stays q w = (
    ap (λ (v : Tree × (Call → Option Error)). lookup q v.0) (view-all_instances_with repo true w),
    ap (λ (v : Tree × (Call → Option Error)). v.1) (view-all_instances_with repo true w),
  )

  start_up-Stays :
      (q : FilePath) (w : World)
      → All
          (λ (j : Instance). Keeps q (copy_config_file repo j))
          (all_instances_verbose repo w).0.instances
      → Stays q w (start_up repo w).1
  unfolding start_up
  start_up-Stays q w all = ground (
    arith,
    copies-Keeps repo q (all_instances_verbose repo w).0.instances all
        (all_instances_verbose repo w).1,
    listed-Stays q w,
  )

  pub start_up_lock : (w : World) → HasNames w → Stays (lock_path repo i) w (start_up repo w).1
  start_up_lock w names =
      start_up-Stays (lock_path repo i) w
        (All-map (all_instances_verbose repo w).0.instances copy_lock names)

  both :
      (js : List Instance)
      → All (λ (j : Instance). IsName j.id) js
      → All (λ (j : Instance). (j.id == i.id) ≡ false) js
      → All (λ (j : Instance). Keeps (conf_path repo i) (copy_config_file repo j)) js
  both [] names differ = tt
  both (j ∷ js) (own, names) (e, differ) = (
    copy_config_file-IsElsewhere repo j (conf_path repo i) (file_apart j "redis.conf" own e),
    both js names differ,
  )

  start_up_conf :
      (w : World)
      → HasNames w
      → lookup (conf_path repo i) w.tree ≡ none
      → lookup (conf_path repo i) (start_up repo w).1.tree ≡ none
  unfolding all_instances_verbose
  start_up_conf w names missing =
      (start_up-Stays (conf_path repo i) w (
        both (all_instances_verbose repo w).0.instances names (
          listing_differs repo w i.id true
            (conf_missing repo controller timeout i kept w missing)))).0
      ∙ missing

  pub restarts-IsGuarded :
      (p : Phase) (t : Turn)
      → HasNames t.world
      → IsGuarded repo controller timeout i kept p t
      → IsGuarded repo controller timeout i kept p (monitor_restarts repo controller timeout i t)
  restarts-IsGuarded making t names (missing, round, chosen) =
      (start_up_conf t.world names missing, tt, tt)
  restarts-IsGuarded locking t names (missing, round, chosen) =
      (start_up_conf t.world names missing, tt, tt)
  restarts-IsGuarded configuring t names (held, chosen) =
      ((start_up_lock t.world names).0 ∙ held, tt)
  restarts-IsGuarded starting t names (held, chosen) = ((start_up_lock t.world names).0 ∙ held, tt)
  restarts-IsGuarded unlocking t names (held, chosen) = ((start_up_lock t.world names).0 ∙ held, tt)
  restarts-IsGuarded finished t names guarded = tt
