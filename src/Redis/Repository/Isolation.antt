-- ===== src/Redis/Repository/Isolation.antt =====
-- redis/local_repository.go: what an operation on one instance leaves of another.
pub mod Others
pub mod Untouched
use cf_redis_broker.Base.{
  ◌≡◌, refl, sym, ap, ◌∙◌, String, ◌<>◌, true, false, ◌==◌, eq_iff, [], ◌∷◌, arith, some, inl, inr,
  Result-cases, itoa, Error, Result, ok, err,
}
use cf_redis_broker.Base.Act.{Act, ◌>>=◌, inspect, on_error}
use cf_redis_broker.Os.{World, os_mkdir_all, os_remove, os_remove_all, log_info, log_error, always}
use cf_redis_broker.Os.Paths.{
  FilePath, same, same_iff, is_under, is_under_self, IsName, join, join_name,
}
use cf_redis_broker.Os.Under.{
  not_true, is_under_cons, is_under_cons_both, is_under_longer, below_other, below_other_child,
  same_shorter,
}
use cf_redis_broker.Os.Frame.{
  Keeps, Keeps-write_text, Keeps-os_remove, Keeps-os_remove_all, Keeps-os_mkdir_all, Keeps-reads,
}
use cf_redis_broker.Redis.Repository.Setting.{load_reads, redis_conf-IsName}
use cf_redis_broker.Brokerconfig.{resolve}
use cf_redis_broker.Redis.Instance.{Instance}
use cf_redis_broker.Redis.Repository.{
  LocalRepository, data_directory, pidfile_directory, instance_base_dir, instance_config_path,
  instance_data_dir, instance_log_dir, instance_pid_file_path, lock_file_path,
  ensure_directories_exist, lock, write_config_file, setup, delete, deprovisioned,
}
use cf_redis_broker.Redisconf.{encode}
use cf_redis_broker.Redisconf.Additions.{load, save, with_additions, copy_with_instance_additions}

abbrev pub log_directory : LocalRepository → FilePath
log_directory repo = resolve repo.redis_conf.instance_log_directory

-- The three directories of the configuration do not lie in each other's way.
pub record AreApart (repo : LocalRepository) : Type 0 where
  pub pids : is_under (data_directory repo) (pidfile_directory repo) ≡ false
  pub logs : is_under (data_directory repo) (log_directory repo) ≡ false
  pub data_dir : is_under (log_directory repo) (data_directory repo) ≡ false

-- The paths that an operation on the instance `i` touches, and a path that is none of them.
pub record IsElsewhere (repo : LocalRepository) (i : String) (q : FilePath) : Type 0 where
  pub data_dir : is_under q (instance_data_dir repo i) ≡ false
  pub pid_dir : is_under q (pidfile_directory repo) ≡ false
  pub log_dir : is_under q (instance_log_dir repo i) ≡ false
  pub below_base : is_under (instance_base_dir repo i) q ≡ false
  pub below_log : is_under (instance_log_dir repo i) q ≡ false
  pub pid_file : same (instance_pid_file_path repo i) q ≡ false

-- A path below a directory is not one that lies elsewhere.
same_below : (d p q : FilePath) → is_under d p ≡ true → is_under d q ≡ false → same p q ≡ false
same_below d p q h h' = not_true (λ e. ground (arith, ap (is_under d) ((same_iff p q).0 e)))

pub lock-IsName : IsName "lock"
lock-IsName = record { one = refl; not_empty = refl; not_dot = refl; not_dots = refl }

is_under_child : (d : FilePath) (s : String) → IsName s → is_under d (join d s) ≡ true
unfolding is_under
is_under_child d s name = rw (join_name d s name) (ground (arith, is_under_self d))

module _ (repo : LocalRepository) (i : Instance) (q : FilePath) where
  pub ensure_directories_exist-Keeps :
      is_under q (instance_data_dir repo i.id) ≡ false
      → is_under q (pidfile_directory repo) ≡ false
      → is_under q (instance_log_dir repo i.id) ≡ false
      → Keeps q (ensure_directories_exist repo i)
  unfolding ensure_directories_exist
  ensure_directories_exist-Keeps dbs pids logs w =
      let w₁ : World = (os_mkdir_all (instance_data_dir repo i.id) w).1 in
      let w₂ : World = (os_mkdir_all (pidfile_directory repo) w₁).1 in
      ground (
        arith,
        Keeps-os_mkdir_all q (instance_data_dir repo i.id) dbs w,
        Keeps-os_mkdir_all q (pidfile_directory repo) pids w₁,
        Keeps-os_mkdir_all q (instance_log_dir repo i.id) logs w₂,
      )

  pub write_config_file-Keeps :
      same (instance_config_path repo i.id) q ≡ false → Keeps q (write_config_file repo i)
  unfolding write_config_file copy_with_instance_additions save
  write_config_file-Keeps apart w =
      elim (Result-cases (load (resolve repo.redis_conf.default_config_path) w).0) [
        | inl (e, bad) ↦ ground (arith, load_reads (resolve repo.redis_conf.default_config_path) w)
        | inr (conf, good) ↦
            let text : String =
              encode (with_additions i.id (itoa i.port) i.password (pidfile_directory repo) conf) in
            ground (
              arith,
              load_reads (resolve repo.redis_conf.default_config_path) w,
              Keeps-write_text q (instance_config_path repo i.id) text apart w,
            )
      ]

module _ (repo : LocalRepository) (i : Instance) (q : FilePath)
    (elsewhere : IsElsewhere repo i.id q) where
  lock-Keeps : Keeps q (lock repo i)
  unfolding lock
  lock-Keeps = Keeps-write_text q (lock_file_path repo i) "" (
      same_below (instance_base_dir repo i.id) (lock_file_path repo i) q
        (is_under_child (instance_base_dir repo i.id) "lock" lock-IsName) elsewhere.below_base)

  pub config_apart : same (instance_config_path repo i.id) q ≡ false
  config_apart =
      same_below (instance_base_dir repo i.id) (instance_config_path repo i.id) q
        (is_under_child (instance_base_dir repo i.id) "redis.conf" redis_conf-IsName)
        elsewhere.below_base

  pub setup-Keeps : Keeps q (setup repo i)
  unfolding setup
  setup-Keeps w =
      let w₁ : World = (ensure_directories_exist repo i w).1 in
      let w₂ : World = (lock repo i w₁).1 in
      ground (
        arith,
        ensure_directories_exist-Keeps repo i q elsewhere.data_dir elsewhere.pid_dir
            elsewhere.log_dir w,
        lock-Keeps w₁,
        write_config_file-Keeps repo i q config_apart w₂,
      )

module _ (repo : LocalRepository) (id : String) (q : FilePath)
    (elsewhere : IsElsewhere repo id q) where
  pub delete-Keeps : Keeps q (delete repo id)
  unfolding delete deprovisioned
  delete-Keeps w =
      let w₁ : World = (os_remove_all (instance_base_dir repo id) w).1 in
      let w₂ : World = (os_remove_all (instance_log_dir repo id) w₁).1 in
      ground (
        arith,
        Keeps-os_remove_all q (instance_base_dir repo id) elsewhere.below_base w,
        Keeps-os_remove_all q (instance_log_dir repo id) elsewhere.below_log w₁,
        Keeps-os_remove q (instance_pid_file_path repo id) elsewhere.pid_file w₂,
      )
