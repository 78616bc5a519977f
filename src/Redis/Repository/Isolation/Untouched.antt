-- ===== src/Redis/Repository/Isolation/Untouched.antt =====
-- redis/local_repository.go: `Setup` and `Delete` of one instance, and lookups of another.
use cf_redis_broker.Base.{◌≡◌, ap, ◌∙◌, String, false, ◌==◌, ◌∷◌}
use cf_redis_broker.Os.{World}
use cf_redis_broker.Os.Files.{lookup}
use cf_redis_broker.Os.Laws.{node_at-lookup}
use cf_redis_broker.Os.Paths.{IsName, join_name}
use cf_redis_broker.Redis.Instance.{Instance}
use cf_redis_broker.Redis.Repository.{
  LocalRepository, data_directory, instance_base_dir, instance_config_path, setup, delete,
  find_by_id, instance_exists,
}
use cf_redis_broker.Redis.Repository.Reading.{find_by_id-file, instance_exists-dir}
use cf_redis_broker.Redis.Repository.Setting.{redis_conf-IsName}
use cf_redis_broker.Redis.Repository.Isolation.{AreApart, setup-Keeps, delete-Keeps}
use cf_redis_broker.Redis.Repository.Isolation.Others.{IsElsewhere-base, IsElsewhere-file}

module _ (repo : LocalRepository) (j : String) (name : IsName j) where
  pub config_at : instance_config_path repo j ≡ "redis.conf" ∷ j ∷ data_directory repo
  config_at =
      join_name (instance_base_dir repo j) "redis.conf" redis_conf-IsName
      ∙ ap (◌∷◌ "redis.conf") (join_name (data_directory repo) j name)

  -- What the lookups of an instance return is the same in both worlds.
  abbrev pub SameLookups : World → World → Type 0
  SameLookups w w' =
      ((find_by_id repo j w').0 ≡ (find_by_id repo j w).0)
      × ((instance_exists repo j w').0 ≡ (instance_exists repo j w).0)

  kept_lookups :
      (w w' : World)
      → (lookup ("redis.conf" ∷ j ∷ data_directory repo) w'.tree
          ≡ lookup ("redis.conf" ∷ j ∷ data_directory repo) w.tree)
      → (lookup (j ∷ data_directory repo) w'.tree ≡ lookup (j ∷ data_directory repo) w.tree)
      → w'.refuses ≡ w.refuses
      → SameLookups w w'
  kept_lookups w w' conf base refuses = (
    find_by_id-file repo j w' w refuses (
        rw config_at (node_at-lookup ("redis.conf" ∷ j ∷ data_directory repo) w'.tree w.tree conf)),
    instance_exists-dir repo j w' w refuses (
        rw (join_name (data_directory repo) j name)
          (node_at-lookup (j ∷ data_directory repo) w'.tree w.tree base)),
  )

  module _ (apart : AreApart repo) where
    -- Where the directories of the configuration lie apart, `Setup` of an instance, whether it
    -- succeeds or stops at any of its steps, leaves what `FindByID` and `InstanceExists` return
    -- for every other plain name.
    pub lookups-setup :
        (i : Instance) (w : World)
        → IsName i.id
        → (i.id == j) ≡ false
        → SameLookups w (setup repo i w).1
    lookups-setup i w own differ =
        let (conf, refuses) =
          setup-Keeps repo i ("redis.conf" ∷ j ∷ data_directory repo)
            (IsElsewhere-file repo apart i.id j own differ "redis.conf") w in
        let (base, refuses') =
          setup-Keeps repo i (j ∷ data_directory repo)
            (IsElsewhere-base repo apart i.id j own differ) w in
        kept_lookups w (setup repo i w).1 conf base refuses

    -- Where the directories of the configuration lie apart, `Delete` of an instance, whether it
    -- succeeds or stops at any of its steps, leaves what `FindByID` and `InstanceExists` return
    -- for every other plain name.
    pub lookups-delete :
        (id : String) (w : World)
        → IsName id
        → (id == j) ≡ false
        → SameLookups w (delete repo id w).1
    lookups-delete id w own differ =
        let (conf, refuses) =
          delete-Keeps repo id ("redis.conf" ∷ j ∷ data_directory repo)
            (IsElsewhere-file repo apart id j own differ "redis.conf") w in
        let (base, refuses') =
          delete-Keeps repo id (j ∷ data_directory repo)
            (IsElsewhere-base repo apart id j own differ) w in
        kept_lookups w (delete repo id w).1 conf base refuses
