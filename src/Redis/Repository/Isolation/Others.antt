-- ===== src/Redis/Repository/Isolation/Others.antt =====
-- redis/local_repository.go: the paths of two instances with different IDs.
use cf_redis_broker.Base.{
  ◌≡◌, refl, sym, ap, ◌∙◌, subst, String, ◌<>◌, true, false, ◌==◌, eq_iff, ◌∷◌, arith, ◌≢◌, ◌<◌,
  size,
}
use cf_redis_broker.Redisconf.Lines.{size-append, has_byte-append}
use cf_redis_broker.Os.Paths.{FilePath, same, same_iff, is_under, is_under_self, IsName, join_name}
use cf_redis_broker.Os.Under.{
  not_true, is_under_cons, is_under_cons_both, below_other, below_other_child,
}
use cf_redis_broker.Redis.Repository.{
  LocalRepository, data_directory, pidfile_directory, instance_base_dir, instance_data_dir,
  instance_log_dir, instance_pid_file_path,
}
use cf_redis_broker.Redis.Repository.Isolation.{AreApart, IsElsewhere, log_directory}

-- A path below `d`, up to two names long, is not where `d` does not reach.
under_child : (d p : FilePath) (x : String) → same p (x ∷ d) ≡ true → is_under d p ≡ true
unfolding is_under
under_child d p x h =
    subst (λ r. is_under d r ≡ true) (sym ((same_iff p (x ∷ d)).0 h))
      (ground (arith, is_under_self d))

under_grandchild : (d p : FilePath) (x y : String) → same p (x ∷ y ∷ d) ≡ true → is_under d p ≡ true
unfolding is_under
under_grandchild d p x y h =
    subst (λ r. is_under d r ≡ true) (sym ((same_iff p (x ∷ y ∷ d)).0 h))
      (ground (arith, is_under_self d))

pub pid-IsName : (s : String) → IsName s → IsName (s <> ".pid")
pid-IsName s name = record {
  one = rw has_byte-append (ground (arith, name.one));
  not_empty = not_true (λ e. too_long "" (omega arith) ((eq_iff (s <> ".pid") "").0 e));
  not_dot = not_true (λ e. too_long "." (omega arith) ((eq_iff (s <> ".pid") ".").0 e));
  not_dots = not_true (λ e. too_long ".." (omega arith) ((eq_iff (s <> ".pid") "..").0 e));
}
  where
    too_long : (t : String) → size t < 3 → (s <> ".pid") ≢ t
    too_long t short e = omega (arith, size-append s ".pid", ap size e)

module _ (repo : LocalRepository) (apart : AreApart repo) (i : String) (name : IsName i) where
  abbrev data_dir : FilePath
  data_dir = data_directory repo

  pub base_at : instance_base_dir repo i ≡ i ∷ data_dir
  base_at = join_name data_dir i name

  pub db_at : instance_data_dir repo i ≡ "db" ∷ i ∷ data_dir
  db_at =
      join_name (instance_base_dir repo i) "db"
        (record { one = refl; not_empty = refl; not_dot = refl; not_dots = refl })
      ∙ ap (◌∷◌ "db") base_at

  pub log_at : instance_log_dir repo i ≡ i ∷ log_directory repo
  log_at = join_name (log_directory repo) i name

  pid_at : instance_pid_file_path repo i ≡ (i <> ".pid") ∷ pidfile_directory repo
  pid_at = join_name (pidfile_directory repo) (i <> ".pid") (pid-IsName i name)

  not_below_log :
      (q : FilePath)
      → (is_under (log_directory repo) q ≡ false)
      → is_under (instance_log_dir repo i) q ≡ false
  not_below_log q h =
      rw log_at (not_true (λ u. ground (arith, h, is_under_cons i (log_directory repo) q u)))

  log_apart : (x : String) → is_under (log_directory repo) (x ∷ data_dir) ≡ false
  unfolding is_under
  log_apart x =
      not_true (λ u.
        ground (arith, apart.logs, apart.data_dir, under_child data_dir (log_directory repo) x))

  log_apart_below : (x y : String) → is_under (log_directory repo) (x ∷ y ∷ data_dir) ≡ false
  unfolding is_under
  log_apart_below x y = not_true (λ u.
      ground (arith, apart.logs, log_apart y, under_grandchild data_dir (log_directory repo) x y))

  pids_not_at :
      (d : FilePath)
      → same (pidfile_directory repo) d ≡ false
      → (x : String) → same (instance_pid_file_path repo i) (x ∷ d) ≡ false
  unfolding same
  pids_not_at d h x = rw pid_at (ground arith)

  pids_not_base : (x : String) → same (instance_pid_file_path repo i) (x ∷ data_dir) ≡ false
  pids_not_base = pids_not_at data_dir (
      not_true (λ e.
        ground
          (arith, apart.pids, is_under_self data_dir, same_iff (pidfile_directory repo) data_dir)))

  pub pids_not_below :
      (x y : String) → same (instance_pid_file_path repo i) (x ∷ y ∷ data_dir) ≡ false
  pids_not_below x y =
      pids_not_at (y ∷ data_dir)
        (not_true
          (λ e. ground (arith, apart.pids, under_child data_dir (pidfile_directory repo) y e)))
        x

module _ (repo : LocalRepository) (apart : AreApart repo) (i j : String) (name : IsName i)
    (differ : (i == j) ≡ false) where
  differ' : (j == i) ≡ false
  differ' = not_true (λ e. ground (arith, differ, eq_iff i j, eq_iff j i))

  -- The other instance's directory.
  pub IsElsewhere-base : IsElsewhere repo i (j ∷ (data_directory repo))
  IsElsewhere-base = record {
    data_dir =
        rw (db_at repo apart i name) (below_other_child j i (data_directory repo) differ' "db");
    pid_dir = not_true (λ u.
        ground
          (arith, apart.pids, is_under_cons j (data_directory repo) (pidfile_directory repo) u));
    log_dir = rw (log_at repo apart i name) (
        not_true (λ u. ground (
          arith,
          apart.logs,
          is_under_cons_both j (data_directory repo) i (log_directory repo) u,
        )));
    below_base = rw (base_at repo apart i name) (below_other i j (data_directory repo) differ);
    below_log =
        not_below_log repo apart i name (j ∷ (data_directory repo)) (log_apart repo apart i name j);
    pid_file = pids_not_base repo apart i name j;
  }

  -- A file in it.
  pub IsElsewhere-file : (c : String) → IsElsewhere repo i (c ∷ j ∷ (data_directory repo))
  IsElsewhere-file c = record {
    data_dir = rw (db_at repo apart i name) (
        not_true (λ u. ground (
          arith,
          below_other j i (data_directory repo) differ',
          is_under_cons_both c (j ∷ (data_directory repo)) "db" (i ∷ (data_directory repo)) u,
        )));
    pid_dir = not_true (λ u. ground (
      arith,
      apart.pids,
      is_under_cons j (data_directory repo) (pidfile_directory repo)
          (is_under_cons c (j ∷ (data_directory repo)) (pidfile_directory repo) u),
    ));
    log_dir = rw (log_at repo apart i name) (
        not_true (λ u. ground (
          arith,
          apart.logs,
          is_under_cons j (data_directory repo) (log_directory repo)
              (is_under_cons_both c (j ∷ (data_directory repo)) i (log_directory repo) u),
        )));
    below_base =
        rw (base_at repo apart i name) (below_other_child i j (data_directory repo) differ c);
    below_log =
        not_below_log repo apart i name (c ∷ j ∷ (data_directory repo))
          (log_apart_below repo apart i name c j);
    pid_file = pids_not_below repo apart i name c j;
  }
