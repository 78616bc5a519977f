-- ===== src/Redis/Repository/Crowding.antt =====
-- redis/local_repository.go: how many names the data directory has after an operation.
use cf_redis_broker.Base.{
  ℕ, suc, length, ◌≤◌, ◌≡◌, ap, String, false, [], arith, inl, inr, itoa, Error, Result-cases, err,
}
use cf_redis_broker.Os.{World, os_mkdir_all, os_remove_all}
use cf_redis_broker.Os.Paths.{IsName, join, join_name}
use cf_redis_broker.Os.Under.{same_shorter}
use cf_redis_broker.Os.Files.{is_in}
use cf_redis_broker.Os.Names.{
  name_count, is_strictly_under, not_strictly, write_text-NoMore, remove-NoMore, remove_all-NoMore,
  mkdir_all-NoMore, mkdir_all_one,
}
use cf_redis_broker.Brokerconfig.{resolve}
use cf_redis_broker.Redisconf.{encode}
use cf_redis_broker.Redisconf.Additions.{load, save, with_additions, copy_with_instance_additions}
use cf_redis_broker.Redis.Instance.{Instance}
use cf_redis_broker.Redis.Repository.{
  LocalRepository, data_directory, pidfile_directory, instance_base_dir, instance_config_path,
  instance_data_dir, instance_log_dir, instance_pid_file_path, lock_file_path,
  ensure_directories_exist, lock, unlock, write_config_file, setup, delete, deprovisioned,
}
use cf_redis_broker.Os.{os_read_dir}
use cf_redis_broker.Os.Names.{read_dir-length}
use cf_redis_broker.Redis.Repository.Listing.{instance_count, all_instances}
use cf_redis_broker.Redis.Repository.Listing.Count.{all_instances_with_lem, instance_count_lem}
use cf_redis_broker.Redis.Repository.Setting.{load_reads, redis_conf-IsName}
use cf_redis_broker.Redis.Repository.Isolation.{AreApart, lock-IsName}
use cf_redis_broker.Redis.Repository.Isolation.Others.{base_at, log_at}

module _ (repo : LocalRepository) where
  -- The number of names in the data directory.
  abbrev pub crowd : World → ℕ
  crowd w = name_count (data_directory repo) w.tree

  pub crowd-delete : (id : String) (w : World) → crowd (delete repo id w).1 ≤ crowd w
  unfolding delete deprovisioned
  crowd-delete id w =
      let w₁ : World = (os_remove_all (instance_base_dir repo id) w).1 in
      let w₂ : World = (os_remove_all (instance_log_dir repo id) w₁).1 in
      ground (
        arith,
        remove_all-NoMore (data_directory repo) (instance_base_dir repo id) w,
        remove_all-NoMore (data_directory repo) (instance_log_dir repo id) w₁,
        remove-NoMore (data_directory repo) (instance_pid_file_path repo id) w₂,
      )

  pub crowd-unlock : (i : Instance) (w : World) → crowd (unlock repo i w).1 ≤ crowd w
  unfolding unlock
  crowd-unlock i w = remove-NoMore (data_directory repo) (lock_file_path repo i) w

  module _ (apart : AreApart repo) (i : Instance) (name : IsName i.id) where
    not_in_data :
        (x : String)
        → IsName x
        → is_in (data_directory repo) (join (instance_base_dir repo i.id) x) ≡ false
    unfolding is_in
    not_in_data x own =
        rw (join_name (instance_base_dir repo i.id) x own, base_at repo apart i.id name)
          (same_shorter i.id (data_directory repo))

    pub crowd-lock : (w : World) → crowd (lock repo i w).1 ≤ crowd w
    unfolding lock
    crowd-lock w =
        write_text-NoMore (data_directory repo) (lock_file_path repo i) "" w
          (not_in_data "lock" lock-IsName)

    crowd-write_config_file : (w : World) → crowd (write_config_file repo i w).1 ≤ crowd w
    unfolding write_config_file copy_with_instance_additions save
    crowd-write_config_file w =
        elim (Result-cases (load (resolve repo.redis_conf.default_config_path) w).0) [
          | inl (e, bad) ↦
              ground (arith, load_reads (resolve repo.redis_conf.default_config_path) w)
          | inr (conf, good) ↦
              let text : String =
                encode
                  (with_additions i.id (itoa i.port) i.password (pidfile_directory repo) conf) in
              ground (
                arith,
                load_reads (resolve repo.redis_conf.default_config_path) w,
                write_text-NoMore (data_directory repo) (instance_config_path repo i.id) text w
                    (not_in_data "redis.conf" redis_conf-IsName),
              )
        ]

    not_below_logs : is_strictly_under (data_directory repo) (instance_log_dir repo i.id) ≡ false
    unfolding is_strictly_under
    not_below_logs = rw (log_at repo apart i.id name) apart.logs

    crowd-ensure_directories_exist :
        (w : World) → crowd (ensure_directories_exist repo i w).1 ≤ suc (crowd w)
    unfolding ensure_directories_exist
    crowd-ensure_directories_exist w =
        let w₁ : World = (os_mkdir_all (instance_data_dir repo i.id) w).1 in
        let w₂ : World = (os_mkdir_all (pidfile_directory repo) w₁).1 in
        ground (
          arith,
          mkdir_all_one (data_directory repo) (instance_data_dir repo i.id) w,
          mkdir_all-NoMore (data_directory repo) (pidfile_directory repo) w₁
              (not_strictly (data_directory repo) (pidfile_directory repo) apart.pids).1,
          mkdir_all-NoMore (data_directory repo) (instance_log_dir repo i.id) w₂ not_below_logs,
        )

    pub crowd-setup : (w : World) → crowd (setup repo i w).1 ≤ suc (crowd w)
    unfolding setup
    crowd-setup w =
        let w₁ : World = (ensure_directories_exist repo i w).1 in
        let w₂ : World = (lock repo i w₁).1 in
        ground (arith, crowd-ensure_directories_exist w, crowd-lock w₁, crowd-write_config_file w₂)

unread :
    (repo : LocalRepository) (w : World) (e : Error)
    → (os_read_dir (data_directory repo) w).0 ≡ err e
    → ¬ ((instance_count repo w).0.1 ≡ [])
unfolding instance_count all_instances
unread repo w e bad clean = ground (arith, all_instances_with_lem repo false w, bad)

-- A count without errors is that of the names.
pub instance_count-crowd :
    (repo : LocalRepository) (w : World)
    → (instance_count repo w).0.1 ≡ []
    → (instance_count repo w).0.0 ≡ crowd repo w
instance_count-crowd repo w clean = elim (Result-cases (os_read_dir (data_directory repo) w).0) [
  | inl (e, bad) ↦ absurd (unread repo w e bad clean)
  | inr (names, good) ↦ omega (
    arith,
    instance_count_lem repo w names good,
    ap length clean,
    read_dir-length (data_directory repo) names w good,
  )
]
