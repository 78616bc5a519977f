-- ===== src/Tests/Storage.antt =====
-- The repository and its files.
use cf_redis_broker.Base.{◌≡◌, refl, ◌⊎◌, arith, String, true, false, none, some, [], ◌∷◌, ok, itoa}
use cf_redis_broker.Os.{
  World, stat, os_read_dir, read_text, write_text, os_remove, os_remove_all, os_mkdir_all,
  make_dirs, put_dir, node_at,
}
use cf_redis_broker.Os.Paths.{IsName, same, is_under, join, render, render_onto}
use cf_redis_broker.Os.Files.{file, lookup, insert, erase, erase_under, names_in, sort}
use cf_redis_broker.Redis.Repository.{
  data_directory, setup, delete, deprovisioned, find_by_id, instance_base_dir, instance_config_path,
  instance_pid_file_path, lock_file_path, ensure_directories_exist, write_config_file, lock,
}
use cf_redis_broker.Redis.Repository.Setting.{find_by_id-setup}
use cf_redis_broker.Redis.Repository.Locking.{setup_locks}
use cf_redis_broker.Redis.Repository.Removing.{kept, lookup-delete}
use cf_redis_broker.Redis.Repository.Listing.{all_instances_with}
use cf_redis_broker.Redis.Repository.Listing.Count.{listing_of, all_instances_with_lem}
use cf_redis_broker.Redisconf.{decode, encode, set}
use cf_redis_broker.Redisconf.Additions.{load, save, with_additions, copy_with_instance_additions}
use cf_redis_broker.Tests.Data.{repo, defaults, empty_disk, one, one_ArePlain}

set_up : World
set_up = (setup repo one empty_disk).1

setup_ok : setup repo one empty_disk ≡ (ok tt, set_up)
unfolding set_up setup ensure_directories_exist lock write_config_file copy_with_instance_additions
    load save with_additions encode decode set read_text write_text os_mkdir_all make_dirs put_dir
    node_at lookup insert same join render render_onto
setup_ok = refl

default_there : node_at (join [] "/redis.conf") empty_disk.tree ≡ some (file defaults)
unfolding node_at lookup same join
default_there = refl

apart : same (lock_file_path repo one) (join [] "/redis.conf") ≡ false
unfolding same join
apart = refl

find_by_id-setup_example : find_by_id repo "one" set_up ≡ (ok one, set_up)
find_by_id-setup_example =
    find_by_id-setup repo one 7000 defaults empty_disk set_up refl (omega arith) default_there apart
      refl one_ArePlain refl setup_ok

abbrev instance_conf : String
instance_conf =
    "port 7000\ndaemonize yes\nsyslog-enabled yes\nsyslog-ident redis-server-one\nsyslog-facility local0\nrequirepass pw\npidfile /pids/one.pid\n"

set_up_there :
    lookup (instance_config_path repo "one") (setup repo one empty_disk).1.tree
    ≡ some (file instance_conf)
unfolding set_up setup ensure_directories_exist lock write_config_file copy_with_instance_additions
    load save with_additions encode decode set read_text write_text os_mkdir_all make_dirs put_dir
    node_at lookup insert same join render render_onto itoa
set_up_there = refl

setup_locks_example :
    (lookup (instance_config_path repo "one") empty_disk.tree ≡ some (file instance_conf))
    ⊎ (lookup (lock_file_path repo one) (setup repo one empty_disk).1.tree ≡ some (file ""))
setup_locks_example = setup_locks repo one instance_conf empty_disk set_up_there

emptied : World
emptied = (delete repo "one" set_up).1

delete_ok : delete repo "one" set_up ≡ (ok tt, emptied)
unfolding emptied delete deprovisioned os_remove_all os_remove erase erase_under is_under set_up
    setup ensure_directories_exist lock write_config_file copy_with_instance_additions load save
    with_additions encode decode set read_text write_text os_mkdir_all make_dirs put_dir node_at
    lookup insert same join render render_onto
delete_ok = refl

lookup-delete_example :
    (lookup (instance_config_path repo "one") emptied.tree
      ≡ kept repo "one" (instance_config_path repo "one") set_up)
    ⊎ ((instance_config_path repo "one" ≡ instance_pid_file_path repo "one")
        × (lookup (instance_config_path repo "one") emptied.tree ≡ none))
lookup-delete_example =
    lookup-delete repo "one" (instance_config_path repo "one") set_up emptied delete_ok

one_IsName : IsName "one"
one_IsName = record { one = refl; not_empty = refl; not_dot = refl; not_dots = refl }

emptied_free : emptied.refuses (stat (instance_base_dir repo "one")) ≡ none
unfolding emptied delete deprovisioned os_remove_all os_remove erase erase_under is_under set_up
    setup ensure_directories_exist lock write_config_file copy_with_instance_additions load save
    with_additions encode decode set read_text write_text os_mkdir_all make_dirs put_dir node_at
    lookup insert same join render render_onto
emptied_free = refl

all_instances_with_lem_example :
    (all_instances_with repo true set_up).0
    ≡ listing_of repo set_up (os_read_dir (data_directory repo) set_up).0
all_instances_with_lem_example = all_instances_with_lem repo true set_up

names_ok : (os_read_dir (data_directory repo) set_up).0 ≡ ok ("one" ∷ [])
unfolding os_read_dir names_in sort set_up setup ensure_directories_exist lock write_config_file
    copy_with_instance_additions load save with_additions encode decode set read_text write_text
    os_mkdir_all make_dirs put_dir node_at lookup insert same join render render_onto
names_ok = refl
