-- ===== src/Redis/Repository/Locking.antt =====
-- redis/local_repository.go: the lock file, which keeps the process monitor off an instance.
use cf_redis_broker.Base.{
  ◌≡◌, refl, ap, ◌∙◌, ◌⊎◌, inl, inr, String, false, some, arith, Error, Result, Result-cases, ok,
  err,
}
use cf_redis_broker.Os.{World, os_mkdir_all}
use cf_redis_broker.Os.Paths.{FilePath, same, same_longer, IsName, join_name}
use cf_redis_broker.Os.Files.{file, lookup, lookup-insert_self}
use cf_redis_broker.Os.Laws.{
  write_text_effect, mkdir_all_no_file, write_text_other, read_text_reads,
}
use cf_redis_broker.Brokerconfig.{resolve}
use cf_redis_broker.Redisconf.{Conf}
use cf_redis_broker.Redisconf.Additions.{load, save, copy_with_instance_additions}
use cf_redis_broker.Redis.Instance.{Instance}
use cf_redis_broker.Redis.Repository.{
  LocalRepository, pidfile_directory, instance_base_dir, instance_config_path, instance_data_dir,
  instance_log_dir, lock_file_path, ensure_directories_exist, lock, write_config_file, setup,
}

lock-IsName : IsName "lock"
lock-IsName = record { one = refl; not_empty = refl; not_dot = refl; not_dots = refl }

redis_conf-IsName : IsName "redis.conf"
redis_conf-IsName = record { one = refl; not_empty = refl; not_dot = refl; not_dots = refl }

module _ (repo : LocalRepository) (i : Instance) where
  paths_apart : same (instance_config_path repo i.id) (lock_file_path repo i) ≡ false
  paths_apart =
      rw
        (
          join_name (instance_base_dir repo i.id) "redis.conf" redis_conf-IsName,
          join_name (instance_base_dir repo i.id) "lock" lock-IsName,
        )
        (unfold same in refl)

  -- The lock is neither the configuration file nor the instance's directory.
  pub lock_apart :
      (same (lock_file_path repo i) (instance_config_path repo i.id) ≡ false)
      × (same (lock_file_path repo i) (instance_base_dir repo i.id) ≡ false)
  lock_apart =
      rw
        (
          join_name (instance_base_dir repo i.id) "redis.conf" redis_conf-IsName,
          join_name (instance_base_dir repo i.id) "lock" lock-IsName,
        )
        (unfold same in refl, same_longer "lock" (instance_base_dir repo i.id))

  ensure_no_file :
      (q : FilePath) (text : String) (w : World)
      → lookup q (ensure_directories_exist repo i w).1.tree ≡ some (file text)
      → lookup q w.tree ≡ some (file text)
  unfolding ensure_directories_exist
  ensure_no_file q text w there =
      let d₁ : FilePath = instance_data_dir repo i.id in
      let d₂ : FilePath = pidfile_directory repo in
      let w₁ : World = (os_mkdir_all d₁ w).1 in
      let w₂ : World = (os_mkdir_all d₂ w₁).1 in
      ground (
        arith,
        mkdir_all_no_file q text d₁ w,
        mkdir_all_no_file q text d₂ w₁,
        mkdir_all_no_file q text (instance_log_dir repo i.id) w₂,
      )

  -- The lock stands, or the lock's call changed nothing.
  lock_effect :
      (w : World)
      → (((lock repo i w).0 ≡ ok tt)
          × (lookup (lock_file_path repo i) (lock repo i w).1.tree ≡ some (file "")))
        ⊎ ((e : Error) × (lock repo i w ≡ (err e, w)))
  unfolding lock
  lock_effect w = elim (write_text_effect (lock_file_path repo i) "" w) [
    | inl e ↦ inl (
      ap (λ (r : Result (Unit {0}) × World). r.0) e,
      ap (λ (r : Result (Unit {0}) × World). lookup (lock_file_path repo i) r.1.tree) e
          ∙ lookup-insert_self (lock_file_path repo i) (file "") w.tree,
    )
    | inr bad ↦ inr bad
  ]

  load_reads : (p : FilePath) (w : World) → (load p w).1 ≡ w
  unfolding load
  load_reads p w = ground (arith, read_text_reads p w)

  save_keeps_lock :
      (conf : Conf) (w : World)
      → lookup (lock_file_path repo i) (save (instance_config_path repo i.id) conf w).1.tree
        ≡ lookup (lock_file_path repo i) w.tree
  unfolding save
  save_keeps_lock conf w =
      write_text_other (instance_config_path repo i.id) (lock_file_path repo i) _ w paths_apart

  write_config_keeps_lock :
      (w : World)
      → lookup (lock_file_path repo i) (write_config_file repo i w).1.tree
        ≡ lookup (lock_file_path repo i) w.tree
  unfolding write_config_file copy_with_instance_additions
  write_config_keeps_lock w =
      rw load_reads (elim (Result-cases (load (resolve repo.redis_conf.default_config_path) w).0) [
        | inl (e, bad) ↦ rw bad
        | inr (c, good) ↦ rw good (save_keeps_lock _ w)
      ])

  -- However far `Setup` comes: if a configuration file of the instance stands there afterwards,
  -- then it stood there before with the same text, or the instance's lock file is there.
  pub setup_locks :
      (text : String) (w : World)
      → lookup (instance_config_path repo i.id) (setup repo i w).1.tree ≡ some (file text)
      → (lookup (instance_config_path repo i.id) w.tree ≡ some (file text))
        ⊎ (lookup (lock_file_path repo i) (setup repo i w).1.tree ≡ some (file ""))
  unfolding setup
  setup_locks text w there =
      let w₁ : World = (ensure_directories_exist repo i w).1 in
      let w₂ : World = (lock repo i w₁).1 in
      let before : lookup (instance_config_path repo i.id) w₁.tree ≡ some (file text) → _ =
        ensure_no_file (instance_config_path repo i.id) text w in
      elim (Result-cases (ensure_directories_exist repo i w).0) [
        | inl (e, bad) ↦ inl (before (ground arith))
        | inr (u, made) ↦ elim (lock_effect w₁) [
          | inl (done, locked) ↦ inr (ground (arith, write_config_keeps_lock w₂))
          | inr (e, bad) ↦ inl (before (ground arith))
        ]
      ]
