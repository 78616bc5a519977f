-- ===== src/Tests/Keeping.antt =====
-- The repository as a map from IDs to instances, and the instances apart from each other.
use cf_redis_broker.Base.{
  length, ◌<◌, ◌<>◌, ◌==◌, ◌≡◌, refl, List, pair_path, ◌∙◌, ap, arith, String, false, none, [], ◌∷◌,
  ok,
}
use cf_redis_broker.Os.{
  World, read_text, write_text, os_remove, os_remove_all, os_mkdir_all, make_dirs, put_dir, node_at,
}
use cf_redis_broker.Os.Paths.{
  FilePath, IsName, same, same_iff, is_under, join, join_name, render, render_onto,
}
use cf_redis_broker.Os.Files.{lookup, insert, erase, erase_under}
use cf_redis_broker.Os.Under.{not_true, is_under-length}
use cf_redis_broker.Redis.Instance.{Instance}
use cf_redis_broker.Redis.Repository.{
  setup, delete, deprovisioned, instance_exists, instance_base_dir, instance_data_dir,
  instance_log_dir, lock_file_path, ensure_directories_exist, write_config_file, lock,
  data_directory, pidfile_directory,
}
use cf_redis_broker.Redis.Repository.Reading.{instance_exists_lem, instance_exists_reads, is_there}
use cf_redis_broker.Redis.Repository.Isolation.{AreApart, IsElsewhere, log_directory}
use cf_redis_broker.Redis.Repository.Isolation.Others.{pid-IsName}
use cf_redis_broker.Redis.Repository.Isolation.Untouched.{
  lookups-setup, lookups-delete, SameLookups,
}
use cf_redis_broker.Redis.Repository.Refinement.{
  Event, set_up, deleted, Instances, perform_all, update_all, Represents, IsSound, IsHealthy,
  IsProper, perform_all-Represents,
}
use cf_redis_broker.Redisconf.{decode, encode, set}
use cf_redis_broker.Redisconf.Additions.{load, save, with_additions, copy_with_instance_additions}
use cf_redis_broker.Tests.Data.{repo, defaults, empty_disk, one, one_ArePlain}

pub repo-AreApart : AreApart repo
unfolding is_under same join
repo-AreApart = record { pids = refl; logs = refl; data_dir = refl }

pub one_IsName : IsName "one"
one_IsName = record { one = refl; not_empty = refl; not_dot = refl; not_dots = refl }

two_IsName : IsName "two"
two_IsName = record { one = refl; not_empty = refl; not_dot = refl; not_dots = refl }

lookups-setup_example : SameLookups repo "two" two_IsName empty_disk (setup repo one empty_disk).1
lookups-setup_example =
    lookups-setup repo "two" two_IsName repo-AreApart one empty_disk one_IsName refl

lookups-delete_example :
    SameLookups repo "two" two_IsName empty_disk (delete repo "one" empty_disk).1
lookups-delete_example =
    lookups-delete repo "two" two_IsName repo-AreApart "one" empty_disk one_IsName refl

abbrev conf_path : FilePath
conf_path = "redis.conf" ∷ []

below_long : (x y : String) → is_under (x ∷ y ∷ []) conf_path ≡ false
below_long x y = not_true (λ u. omega (arith, is_under-length (x ∷ y ∷ []) conf_path u))

child_apart : (x y : String) → ("redis.conf" == y) ≡ false → is_under conf_path (x ∷ y ∷ []) ≡ false
unfolding is_under same
child_apart x y h = ground arith

pids_apart : is_under conf_path (pidfile_directory repo) ≡ false
unfolding is_under same join
pids_apart = refl

long_apart : (p : FilePath) → 1 < length p → same p conf_path ≡ false
long_apart p long = not_true (λ e. omega (arith, ap length ((same_iff p conf_path).0 e)))

module _ (id : String) (name : IsName id) where
  pub base_at : instance_base_dir repo id ≡ id ∷ "data" ∷ []
  unfolding join
  base_at = join_name (data_directory repo) id name

  db_at : instance_data_dir repo id ≡ "db" ∷ id ∷ "data" ∷ []
  db_at =
      join_name (instance_base_dir repo id) "db"
        (record { one = refl; not_empty = refl; not_dot = refl; not_dots = refl })
      ∙ ap (◌∷◌ "db") base_at

  log_at : instance_log_dir repo id ≡ id ∷ "log" ∷ []
  unfolding join
  log_at = join_name (log_directory repo) id name

  db_apart : is_under conf_path ("db" ∷ id ∷ "data" ∷ []) ≡ false
  unfolding is_under same
  db_apart = ground (arith, child_apart id "data" refl)

  conf_IsElsewhere_at : IsElsewhere repo id conf_path
  unfolding join
  conf_IsElsewhere_at = record {
    data_dir = rw db_at db_apart;
    pid_dir = pids_apart;
    log_dir = rw log_at (child_apart id "log" refl);
    below_base = rw base_at (below_long id "data");
    below_log = rw log_at (below_long id "log");
    pid_file =
        rw (join_name (pidfile_directory repo) (id <> ".pid") (pid-IsName id name))
          (long_apart _ (omega arith));
  }

  conf_IsElsewhere : IsElsewhere repo id (join [] "/redis.conf")
  unfolding join
  conf_IsElsewhere = conf_IsElsewhere_at

  nothing_there : node_at (instance_base_dir repo id) empty_disk.tree ≡ none
  unfolding node_at lookup same
  nothing_there = rw base_at (ground arith)

  shows_nothing : instance_exists repo id empty_disk ≡ (ok false, empty_disk)
  shows_nothing =
      pair_path
        (instance_exists_lem repo id empty_disk refl ∙ ap (λ n. ok (is_there n)) nothing_there)
        (instance_exists_reads repo id empty_disk)

lock_apart : (i : Instance) → IsName i.id → same (lock_file_path repo i) conf_path ≡ false
lock_apart i name =
    rw
      (join_name (instance_base_dir repo i.id) "lock"
        (record { one = refl; not_empty = refl; not_dot = refl; not_dots = refl }))
      (long_apart _ (rw (base_at i.id name) (omega arith)))

abbrev no_instances : Instances
no_instances id = none

pub repo-IsSound : IsSound repo
unfolding join
repo-IsSound = record {
  apart = repo-AreApart;
  default_elsewhere = conf_IsElsewhere;
  default_apart = lock_apart;
}

empty_disk-IsHealthy : IsHealthy repo defaults empty_disk
unfolding node_at lookup same join
empty_disk-IsHealthy = record {
  may_stat = λ p. refl;
  may_read = λ p. refl;
  default_there = refl;
  default_plain = refl;
}

pub one-IsProper : IsProper repo one
one-IsProper = record {
  name = one_IsName;
  number = 7000;
  port = refl;
  in_range = omega arith;
  plain = one_ArePlain;
}

abbrev two_calls : List Event
two_calls = set_up one ∷ deleted "two" ∷ []

after_calls : World
after_calls = (perform_all repo two_calls empty_disk).1

calls_ok : perform_all repo two_calls empty_disk ≡ (ok tt, after_calls)
unfolding after_calls setup ensure_directories_exist lock write_config_file
    copy_with_instance_additions load save with_additions encode decode set read_text write_text
    os_mkdir_all make_dirs put_dir node_at lookup insert same join render render_onto delete
    deprovisioned os_remove_all os_remove erase erase_under is_under
calls_ok = refl

perform_all-Represents_example :
    Represents repo (update_all repo two_calls no_instances) after_calls
perform_all-Represents_example =
    perform_all-Represents repo repo-IsSound defaults two_calls no_instances empty_disk after_calls
      shows_nothing empty_disk-IsHealthy (one-IsProper, (two_IsName, tt)) calls_ok
