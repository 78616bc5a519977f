-- ===== src/Tests/Failing.antt =====
-- A creation that fails, and a destruction behind the monitor's back.
use cf_redis_broker.Base.{◌∷◌, ◌≡◌, refl, none, some, [], pos, ok, err, true, atoi, itoa, message}
use cf_redis_broker.Os.{
  World, os_read_dir, read_text, write_text, os_remove, os_remove_all, os_mkdir_all, make_dirs,
  put_dir, node_at,
}
use cf_redis_broker.Os.Paths.{same, is_under, join, render, render_onto}
use cf_redis_broker.Os.Files.{file, dir, lookup, insert, erase, erase_under, names_in, sort}
use cf_redis_broker.Redisconf.{decode, encode, get, set}
use cf_redis_broker.Redisconf.Additions.{load, save, with_additions, copy_with_instance_additions}
use cf_redis_broker.Cmd.Destroying.{destroy_locks}
use cf_redis_broker.Redis.Instance.{Instance}
use cf_redis_broker.Redis.Repository.{
  lock_file_path, instance_base_dir, ensure_directories_exist, lock, unlock, write_config_file,
  find_by_id, delete, deprovisioned,
}
use cf_redis_broker.Redis.Repository.Listing.{
  all_instances, all_instances_with, announced, verbosely, list_names, collect, file_result,
}
use cf_redis_broker.Redis.Process.{
  OsProcessController, start_and_wait_until_ready, start_and_wait_until_ready_with_config,
}
use cf_redis_broker.Redis.Creator.{destroy}
use cf_redis_broker.Cmd.Server.{local_creator}
use cf_redis_broker.Cmd.Turns.{
  Turn, at_first, call, broker_moves, monitor_lists, monitor_looks, Reach, here, next, broker,
  lists, looks,
}
use cf_redis_broker.Cmd.Turns.Unlocked.Calls.{IsKept, conf_path}
use cf_redis_broker.Cmd.Turns.Unlocked.Failed.{IsOff, Reach-IsOff}
use cf_redis_broker.Cmd.Turns.Destroyed.{monitor_looks-destroy}
use cf_redis_broker.Tests.Keeping.{repo-AreApart}
use cf_redis_broker.Tests.Data.{
  controller, config, free_port, new_password, repo, empty_disk, one, silent,
}

-- A system in which no server can be started.
abbrev broken : OsProcessController
broken = record silent { run = λ program args w. (err (message "no memory"), w) }

broken-IsKept : IsKept repo broken one
broken-IsKept = record {
  apart = repo-AreApart;
  name = record { one = refl; not_empty = refl; not_dot = refl; not_dots = refl };
  lock_aside = record {
    finds = λ id w. (refl, refl);
    pings = λ i w. (refl, refl);
    runs = λ program args w. (refl, refl);
    waits = λ a timeout w. (refl, refl);
  };
  conf_aside = record {
    finds = λ id w. (refl, refl);
    pings = λ i w. (refl, refl);
    runs = λ program args w. (refl, refl);
    waits = λ a timeout w. (refl, refl);
  };
}

abbrev moved : Turn → Turn
moved = broker_moves repo broken (pos 10) one

abbrev stopped : Turn
stopped = moved (moved (moved (moved (at_first empty_disk))))

abbrev seen : Turn
seen =
    monitor_looks repo broken (pos 10) one one [] (monitor_lists repo broken (pos 10) one stopped)

run : Reach repo broken (pos 10) one (at_first empty_disk) seen
unfolding call ensure_directories_exist lock unlock write_config_file copy_with_instance_additions
    load save with_additions encode decode get set read_text write_text os_remove os_mkdir_all
    make_dirs put_dir node_at lookup insert erase names_in same join render render_onto
    start_and_wait_until_ready start_and_wait_until_ready_with_config all_instances
    all_instances_with announced verbosely list_names collect file_result find_by_id os_read_dir
    sort atoi itoa
run =
    next
      (next
        (next
          (next
            (next (next here (broker (at_first empty_disk) refl))
              (broker (moved (at_first empty_disk)) refl))
            (broker (moved (moved (at_first empty_disk))) refl))
          (broker (moved (moved (moved (at_first empty_disk)))) refl))
        (lists stopped refl))
      (looks (monitor_lists repo broken (pos 10) one stopped) one [] refl refl)

seen_failed : seen.failed ≡ true
unfolding call ensure_directories_exist lock unlock write_config_file copy_with_instance_additions
    load save with_additions encode decode get set read_text write_text os_remove os_mkdir_all
    make_dirs put_dir node_at lookup insert erase names_in same join render render_onto
    start_and_wait_until_ready start_and_wait_until_ready_with_config
seen_failed = refl

none_there : lookup (conf_path repo one) empty_disk.tree ≡ none
unfolding lookup same join
none_there = refl

Reach-IsOff_example : IsOff repo broken (pos 10) one broken-IsKept seen
Reach-IsOff_example =
    Reach-IsOff repo broken (pos 10) one broken-IsKept empty_disk seen none_there refl run
      seen_failed

-- The monitor has listed the instance, and the broker destroys it.
abbrev set_up_disk : World
set_up_disk = record empty_disk {
  tree =
      ("one" ∷ "data" ∷ [], dir)
      ∷ ("redis.conf" ∷ "one" ∷ "data" ∷ [], file "port 7000\nrequirepass pw\n")
      ∷ empty_disk.tree;
}

abbrev destroyed : World
destroyed =
    (destroy (local_creator free_port new_password controller config repo) "one" set_up_disk).1

destroy_ok :
    destroy (local_creator free_port new_password controller config repo) "one" set_up_disk
    ≡ (ok tt, destroyed)
unfolding destroy find_by_id lock delete deprovisioned os_remove_all erase_under load decode get
    read_text write_text os_remove node_at lookup insert erase names_in same is_under join render
    render_onto atoi itoa
destroy_ok = refl

abbrev listed : Turn
listed = record (at_first destroyed) { round = one ∷ [] }

monitor_looks-destroy_example :
    (monitor_looks repo silent (pos 10) one one [] listed).chosen ≡ some one
monitor_looks-destroy_example =
    monitor_looks-destroy free_port new_password controller config repo silent (pos 10) one []
      listed set_up_disk destroy_ok refl

conf_below : is_under (instance_base_dir repo "one") ("redis.conf" ∷ "one" ∷ "data" ∷ []) ≡ true
unfolding is_under same join
conf_below = refl

destroy_locks_example :
    (i : Instance) × ((find_by_id repo "one" set_up_disk).0 ≡ ok i)
    × (let locked : World = record set_up_disk {
      tree = insert (lock_file_path repo i) (file "") set_up_disk.tree;
    } in
        ((controller.kill i locked).0 ≡ ok tt)
        × (delete repo "one" (controller.kill i locked).1 ≡ (ok tt, destroyed)))
    × (lookup ("redis.conf" ∷ "one" ∷ "data" ∷ []) destroyed.tree ≡ none)
destroy_locks_example =
    destroy_locks free_port new_password controller config repo "one"
      ("redis.conf" ∷ "one" ∷ "data" ∷ []) set_up_disk destroyed conf_below destroy_ok
