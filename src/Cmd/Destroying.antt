-- ===== src/Cmd/Destroying.antt =====
-- cmd/broker/main.go, with the package redis: what a destruction does to the lock, the server and
-- the files of an instance, in which order.
use cf_redis_broker.Base.{◌≡◌, ap, ◌∙◌, sym, subst, String, true, none, ℤ, Result, ok}
use cf_redis_broker.Base.Act.{Act}
use cf_redis_broker.Os.{World}
use cf_redis_broker.Os.Paths.{FilePath, is_under}
use cf_redis_broker.Os.Files.{file, lookup, insert}
use cf_redis_broker.Os.Laws.{write_text_ok}
use cf_redis_broker.Brokerconfig.{Config}
use cf_redis_broker.Redis.Instance.{Instance}
use cf_redis_broker.Redis.Repository.{
  LocalRepository, instance_base_dir, lock_file_path, find_by_id, lock, delete,
}
use cf_redis_broker.Redis.Repository.Reading.{find_by_id_reads}
use cf_redis_broker.Redis.Repository.Removing.{below_gone}
use cf_redis_broker.Redis.Creator.{ProcessController, destroy}
use cf_redis_broker.Redis.Creator.Laws.{destroy_iff}
use cf_redis_broker.Cmd.Server.{local_creator}

module _ (find_free_port : Act World ℤ) (new_password : World → String × World)
    (controller : ProcessController World) (config : Config) (repo : LocalRepository) where
  -- After a `Destroy` that succeeds, the instance that `FindByID` finds was killed with success
  -- in the state that differs from the first one only in the instance's lock file, which stands
  -- there, empty; the state that the kill left is the one in which the instance was deleted; and
  -- nothing is left at or below the instance's directory.
  pub destroy_locks :
      (id : String) (p : FilePath) (w w' : World)
      → is_under (instance_base_dir repo id) p ≡ true
      → destroy (local_creator find_free_port new_password controller config repo) id w
        ≡ (ok tt, w')
      → (i : Instance) × ((find_by_id repo id w).0 ≡ ok i)
        × (let locked : World = record w {
          tree = insert (lock_file_path repo i) (file "") w.tree;
        } in
            ((controller.kill i locked).0 ≡ ok tt)
            × (delete repo id (controller.kill i locked).1 ≡ (ok tt, w')))
        × (lookup p w'.tree ≡ none)
  unfolding lock
  destroy_locks id p w w' below done =
      let (i, w₁, w₂, w₃, found, locked, killed, deleted) =
        (destroy_iff (local_creator find_free_port new_password controller config repo) id w w').0
          done in
      let here : w₁ ≡ w =
        sym (ap (λ (r : Result Instance × World). r.1) found) ∙ find_by_id_reads repo id w in
      let e : w₂ ≡ record w { tree = insert (lock_file_path repo i) (file "") w.tree } =
        write_text_ok (lock_file_path repo i) "" w w₂
          (subst (λ v. lock repo i v ≡ (ok tt, w₂)) here locked) in
      (
        i,
        ap (λ (r : Result Instance × World). r.0) found,
        rw (← e) (
          ap (λ (r : Result (Unit {0}) × World). r.0) killed,
          subst (λ v. delete repo id v ≡ (ok tt, w'))
              (sym (ap (λ (r : Result (Unit {0}) × World). r.1) killed)) deleted,
        ),
        below_gone repo id p w₃ w' below deleted,
      )
