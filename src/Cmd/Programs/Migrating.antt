-- ===== src/Cmd/Programs/Migrating.antt =====
-- cmd/configmigrator/main.go.
use cf_redis_broker.Base.{
  String, ◌<>◌, some, List, [], ◌∷◌, All, arith, inl, inr, ◌≡◌, refl, ap, ◌∙◌, Result-cases, ok,
}
use cf_redis_broker.Base.Act.{Act, on_error, lift, ◌>>=◌, ◌>>◌}
use cf_redis_broker.Os.{World, log_info, log_error, always, os_read_dir}
use cf_redis_broker.Brokerconfig.{Config, resolve}
use cf_redis_broker.Cmd.Programs.{Outside, config_path, config_or_fatal}
use cf_redis_broker.Os.Paths.{FilePath, IsName}
use cf_redis_broker.Os.Files.{lookup}
use cf_redis_broker.Migrator.{migrate}
use cf_redis_broker.Redis.Repository.Listing.Count.{view, read_dir-view}
use cf_redis_broker.Migrator.Whole.{Holds-kept, Gives-kept}
use cf_redis_broker.Migrator.Whole.Instances.{Values}
use cf_redis_broker.Migrator.Whole.Every.{AreReady, HaveValues, migrate-HaveValues}
use cf_redis_broker.Cmd.Programs.Settings.{settings, config_or_fatal_lem}

module _ {Handle Conn : Type 0} (outside : Outside Handle Conn) where
  unfoldable pub main : Act World (Unit {0})
  unfolding config_path config_or_fatal
  main = do
    path ← lift (config_path outside)
    always (log_info ("Config File: " <> path) [])
    config ← config_or_fatal outside "Loading config file" "broker-config-path" path
    on_error (migrate (resolve config.redis_configuration.instance_data_directory))
        (λ e. log_error "Could not migrate data" (some e) [])

module _ (data_dir : FilePath) (values : String → Values) (w v : World)
    (kept : view v ≡ view w) where
  AreReady-view : (ns : List String) → AreReady data_dir values ns w → AreReady data_dir values ns v
  AreReady-view [] ready = tt
  AreReady-view (n ∷ ns) (h, ready) =
      let tree : v.tree ≡ w.tree = ap (λ a. a.0) kept in
      let refuses : v.refuses ≡ w.refuses = ap (λ a. a.1) kept in
      (
        record {
          conf = h.conf;
          holds =
              Holds-kept "redis.conf" (n ∷ data_dir) h.conf w v (ap (lookup _) tree, refuses)
                h.holds;
          port =
              Gives-kept "port" _ _ _ h.conf h.conf w v refl (ap (lookup _) tree, refuses) h.port;
          password =
              Gives-kept "requirepass" _ _ _ h.conf h.conf w v refl (ap (lookup _) tree, refuses)
                h.password;
        },
        AreReady-view ns ready,
      )

module _ {Handle Conn : Type 0} (outside : Outside Handle Conn) where
  -- What is done once the configuration is read.
  main_steps :
      (config : Config) (w w' : World)
      → settings outside w ≡ ok config
      → main outside w ≡ (ok tt, w')
      → (v : World) × (view v ≡ view w)
        × (migrate (resolve config.redis_configuration.instance_data_directory) v ≡ (ok tt, w'))
  unfolding main
  main_steps config w w' good done = elim (Result-cases (config_path outside)) [
    | inl (e, unset) ↦ absurd (ground arith)
    | inr (path, there) ↦
        let w₁ : World = log_info ("Config File: " <> path) [] w in
        let read : Act World Config =
          config_or_fatal outside "Loading config file" "broker-config-path" path in
        let (result, kept) =
          config_or_fatal_lem outside "Loading config file" "broker-config-path" path w₁ w refl
            there in
        let data_dir : FilePath = resolve config.redis_configuration.instance_data_directory in
        (
          (read w₁).1,
          kept,
          elim (Result-cases (migrate data_dir (read w₁).1).0) [
            | inl (e, bad) ↦ absurd (ground (arith, result, good, there))
            | inr (u, migrated) ↦ ground (arith, result, good, there)
          ],
        )
  ]

  -- After a run of the migrator that succeeds, the configuration of every instance has the port
  -- and the password that its configuration, or a file of its own, held before. The conditions:
  -- the environment names a configuration of the broker that is valid; the data directory can be
  -- read, and its entries are plain names; every instance's configuration can be read and has
  -- plain parameters; neither value is empty; and a value in a file of its own is plain and can
  -- be read, where the configuration lacks it (`IsReady`).
  pub main-HaveValues :
      (config : Config) (values : String → Values) (ns : List String) (w w' : World)
      → settings outside w ≡ ok config
      → (os_read_dir (resolve config.redis_configuration.instance_data_directory) w).0 ≡ ok ns
      → All IsName ns
      → AreReady (resolve config.redis_configuration.instance_data_directory) values ns w
      → main outside w ≡ (ok tt, w')
      → HaveValues (resolve config.redis_configuration.instance_data_directory) values ns w'
  main-HaveValues config values ns w w' good listed names ready done =
      let data_dir : FilePath = resolve config.redis_configuration.instance_data_directory in
      let (v, kept, migrated) = main_steps config w w' good done in
      migrate-HaveValues data_dir values ns v w' (read_dir-view data_dir v w kept ∙ listed) names
        (AreReady-view data_dir values w v kept ns ready) migrated
