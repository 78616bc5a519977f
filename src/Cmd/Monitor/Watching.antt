-- ===== src/Cmd/Monitor/Watching.antt =====
-- cmd/processmonitor/main.go: which instances a round touches.
use cf_redis_broker.Base.{◌≡◌, refl, false, none, some, List, [], ◌∷◌, All, arith, ok}
use cf_redis_broker.Os.{World, stat, node_at, os_stat}
use cf_redis_broker.Os.Files.{Node}
use cf_redis_broker.Redis.Instance.{Instance}
use cf_redis_broker.Redis.Repository.{LocalRepository, lock_file_path}
use cf_redis_broker.Redis.Process.{OsProcessController}
use cf_redis_broker.Cmd.Monitor.{ensure_running_if_not_locked, ensure_each, check_round}
use cf_redis_broker.Redis.Repository.Listing.{all_instances}

-- The system finds something at the path of the instance's lock file.
pub record IsLocked (repo : LocalRepository) (w : World) (i : Instance) : Type 0 where
  pub node : Node
  pub there : node_at (lock_file_path repo i) w.tree ≡ some node
  pub may_stat : w.refuses (stat (lock_file_path repo i)) ≡ none

module _ (repo : LocalRepository) (controller : OsProcessController) where
  pub ensure_running_locked :
      (i : Instance) (w : World)
      → IsLocked repo w i
      → ensure_running_if_not_locked repo controller i w ≡ (ok tt, w)
  unfolding ensure_running_if_not_locked os_stat
  ensure_running_locked i w locked = ground (arith, locked.there, locked.may_stat)

  -- The locked instances in front of a list are passed over, and the rest is treated as if it
  -- stood alone.
  pub ensure_each_locked :
      (is : List Instance) (w : World)
      → All (IsLocked repo w) is
      → ensure_each repo controller is w ≡ (ok tt, w)
  unfolding ensure_each
  ensure_each_locked [] w h = refl
  ensure_each_locked (i ∷ is) w (locked, h) =
      rw (ensure_running_locked i w locked) (ensure_each_locked is w h)

  -- A round of the monitor in which every instance that is found is locked, in the state that the
  -- listing left, ends without an error in that same state.
  pub check_round_locked :
      (w : World)
      → All (IsLocked repo (all_instances repo w).1) (all_instances repo w).0.instances
      → check_round repo controller false w ≡ (ok tt, (all_instances repo w).1)
  unfolding check_round
  check_round_locked w h =
      ensure_each_locked (all_instances repo w).0.instances (all_instances repo w).1 h
