-- ===== src/Cmd/Turns/Unlocked/Listed.antt =====
-- redis/local_repository.go: an instance without a configuration is not listed.
use cf_redis_broker.Base.{◌≡◌, ◌≢◌, subst, String, Bool, false, ◌==◌, eq_iff, none, All, arith, ok}
use cf_redis_broker.Os.{World, node_at}
use cf_redis_broker.Os.Under.{not_true}
use cf_redis_broker.Redis.Instance.{Instance}
use cf_redis_broker.Redis.Repository.{LocalRepository, instance_config_path, find_by_id}
use cf_redis_broker.Redis.Repository.Listing.{all_instances, all_instances_with}
use cf_redis_broker.Redis.Repository.Listing.Found.{All-all_instances_with}
use cf_redis_broker.Redis.Repository.Listing.Count.{view, view-all_instances_with}

module _ (repo : LocalRepository) (w : World) where
  find_by_id_missing :
      (name : String) (j : Instance)
      → node_at (instance_config_path repo name) w.tree ≡ none
      → (find_by_id repo name w).0 ≢ ok j
  unfolding find_by_id
  find_by_id_missing name j none_there h = ground arith

  pub listing_differs :
      (id : String) (verbose : Bool)
      → node_at (instance_config_path repo id) w.tree ≡ none
      → All (λ (j : Instance). (j.id == id) ≡ false) (all_instances_with repo verbose w).0.instances
  listing_differs id verbose missing =
      All-all_instances_with repo w (λ (j : Instance). (j.id == id) ≡ false)
        (λ j h. not_true (λ e.
          find_by_id_missing id j missing
            (subst (λ n. (find_by_id repo n w).0 ≡ ok j) ((eq_iff j.id id).0 e) h)))
        verbose

  pub view-all_instances : view (all_instances repo w).1 ≡ view w
  unfolding all_instances
  view-all_instances = view-all_instances_with repo false w
