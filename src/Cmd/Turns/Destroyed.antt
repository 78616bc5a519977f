-- ===== src/Cmd/Turns/Destroyed.antt =====
-- cmd/processmonitor/main.go and redis/local_instance_creator.go: a destruction in the middle of a
-- round of the monitor.
use cf_redis_broker.Base.{
  not_exist, refl, ◌≡◌, String, true, none, some, List, ◌∷◌, ℤ, arith, Option-cases, inl, inr,
  Error, ok, err,
}
use cf_redis_broker.Base.Act.{Act}
use cf_redis_broker.Os.{World, stat, os_stat, node_at}
use cf_redis_broker.Os.Files.{lookup}
use cf_redis_broker.Os.Paths.{FilePath, is_under, is_under_self, join}
use cf_redis_broker.Brokerconfig.{Config}
use cf_redis_broker.Redis.Instance.{Instance}
use cf_redis_broker.Redis.Repository.{LocalRepository, instance_base_dir}
use cf_redis_broker.Redis.Repository.Removing.{below_gone}
use cf_redis_broker.Redis.Creator.{ProcessController, destroy}
use cf_redis_broker.Redis.Creator.Laws.{destroy_iff}
use cf_redis_broker.Redis.Process.{OsProcessController}
use cf_redis_broker.Cmd.Server.{local_creator}
use cf_redis_broker.Cmd.Turns.{Turn, monitor_looks}

stat_fails :
    (x : String) (p : FilePath) (w : World)
    → lookup (x ∷ p) w.tree ≡ none
    → (e : Error) × ((os_stat (x ∷ p) w).0 ≡ err e)
unfolding os_stat node_at
stat_fails x p w gone = elim (Option-cases (w.refuses (stat (x ∷ p)))) [
  | inl free ↦ (not_exist, ground (arith, gone, free))
  | inr (e, refused) ↦ (e, ground arith)
]

lock_below : (d : FilePath) → is_under d ("lock" ∷ d) ≡ true
unfolding is_under
lock_below d = ground (arith, is_under_self d)

module _ (find_free_port : Act World ℤ) (new_password : World → String × World)
    (controller : ProcessController World) (config : Config) (repo : LocalRepository)
    (monitor : OsProcessController) (timeout : ℤ) where
  -- After a `Destroy` that succeeds, a monitor that still has the instance in its round finds no
  -- lock, and chooses to start the instance's server.
  pub monitor_looks-destroy :
      (i : Instance) (rest : List Instance) (t : Turn) (w : World)
      → destroy (local_creator find_free_port new_password controller config repo) i.id w
        ≡ (ok tt, t.world)
      → t.round ≡ i ∷ rest
      → (monitor_looks repo monitor timeout i i rest t).chosen ≡ some i
  monitor_looks-destroy i rest t w done at =
      let (found, w₁, w₂, w₃, finds, locked, killed, deleted) =
        (destroy_iff (local_creator find_free_port new_password controller config repo) i.id w
            t.world).0
          done in
      let base : FilePath = instance_base_dir repo i.id in
      let gone : lookup ("lock" ∷ base) t.world.tree ≡ none =
        below_gone repo i.id ("lock" ∷ base) w₃ t.world (lock_below base) deleted in
      let (e, failed) = stat_fails "lock" base t.world gone in unfold join in rw failed refl
