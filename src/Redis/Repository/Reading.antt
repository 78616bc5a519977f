-- ===== src/Redis/Repository/Reading.antt =====
-- redis/local_repository.go: the functions that only read.
use cf_redis_broker.Base.{◌≡◌, String, Bool, true, false, Option, none, some, ok, arith}
use cf_redis_broker.Os.{World, stat, node_at}
use cf_redis_broker.Os.Files.{Node}
use cf_redis_broker.Redis.Repository.{
  LocalRepository, instance_config_path, instance_base_dir, find_by_id, instance_exists,
}

abbrev pub is_there : Option Node → Bool
is_there none = false
is_there (some n) = true

module _ (repo : LocalRepository) (instance_id : String) (w : World) where
  pub find_by_id_reads : (find_by_id repo instance_id w).1 ≡ w
  unfolding find_by_id
  find_by_id_reads = ground arith

  pub instance_exists_reads : (instance_exists repo instance_id w).1 ≡ w
  unfolding instance_exists
  instance_exists_reads = ground arith

module _ (repo : LocalRepository) (instance_id : String) (v w : World)
    (refusals : v.refuses ≡ w.refuses) where
  -- A lookup depends on the configuration file alone.
  pub find_by_id-file :
      node_at (instance_config_path repo instance_id) v.tree
        ≡ node_at (instance_config_path repo instance_id) w.tree
      → (find_by_id repo instance_id v).0 ≡ (find_by_id repo instance_id w).0
  unfolding find_by_id
  find_by_id-file same = ground arith

  pub instance_exists-dir :
      node_at (instance_base_dir repo instance_id) v.tree
        ≡ node_at (instance_base_dir repo instance_id) w.tree
      → (instance_exists repo instance_id v).0 ≡ (instance_exists repo instance_id w).0
  unfolding instance_exists
  instance_exists-dir same = ground arith

-- What `InstanceExists` returns, where the system lets it look.
pub instance_exists_lem :
    (repo : LocalRepository) (instance_id : String) (w : World)
    → w.refuses (stat (instance_base_dir repo instance_id)) ≡ none
    → (instance_exists repo instance_id w).0
      ≡ ok (is_there (node_at (instance_base_dir repo instance_id) w.tree))
unfolding instance_exists
instance_exists_lem repo instance_id w free = ground arith
