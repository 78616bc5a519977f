-- ===== src/Tests/Turns.antt =====
-- A creation, and the monitor behind it.
use cf_redis_broker.Base.{All, ◌∷◌, ◌≡◌, refl, none, some, [], pos, ok, atoi, itoa}
use cf_redis_broker.Os.{
  World, os_stat, os_read_dir, read_text, write_text, os_remove, os_mkdir_all, make_dirs, put_dir,
  node_at,
}
use cf_redis_broker.Os.Paths.{same, join, render, render_onto}
use cf_redis_broker.Os.Files.{file, dir, lookup, insert, erase, names_in, sort}
use cf_redis_broker.Redisconf.{decode, encode, get, set}
use cf_redis_broker.Redisconf.Additions.{load, save, with_additions, copy_with_instance_additions}
use cf_redis_broker.Redis.Repository.{
  ensure_directories_exist, lock, unlock, write_config_file, find_by_id,
}
use cf_redis_broker.Redis.Repository.Listing.{
  all_instances, all_instances_with, announced, verbosely, list_names, collect, file_result,
}
use cf_redis_broker.Redis.Process.{
  OsProcessController, start_and_wait_until_ready, start_and_wait_until_ready_with_config,
}
use cf_redis_broker.Cmd.Turns.{
  Turn, finished, at_first, call, broker_moves, monitor_lists, monitor_looks, Reach, here, next,
  broker, lists, looks,
}
use cf_redis_broker.Cmd.Turns.Unlocked.{Reach-finished}
use cf_redis_broker.Cmd.Turns.Unlocked.Calls.{IsKept, conf_path}
use cf_redis_broker.Redis.Repository.Listing.{all_instances_verbose}
use cf_redis_broker.Redis.Repository.Refinement.{IsHealthy, IsProper}
use cf_redis_broker.Cmd.Monitor.{start_up, copy_config_files, copy_config_file}
use cf_redis_broker.Cmd.Monitor.Restarted.{find_by_id-start_up}
use cf_redis_broker.Tests.Keeping.{repo-IsSound, repo-AreApart, one-IsProper, one_IsName}
use cf_redis_broker.Tests.Data.{defaults, repo, empty_disk, one, silent}

-- A system in which every server answers.
abbrev answering : OsProcessController
answering = record silent { ping = λ i w. (ok tt, w) }

answering-IsKept : IsKept repo answering one
answering-IsKept = record {
  apart = repo-AreApart;
  name = record { one = refl; not_empty = refl; not_dot = refl; not_dots = refl };
  lock_aside = record {
    finds = λ id w. (refl, refl);
    pings = λ i w. (refl, refl);
    runs = λ program args w. (refl, refl);
    waits = λ a timeout w. (refl, refl);
  };
  conf_aside = record {
    finds = λ id w. (refl, refl);
    pings = λ i w. (refl, refl);
    runs = λ program args w. (refl, refl);
    waits = λ a timeout w. (refl, refl);
  };
}

abbrev moved : Turn → Turn
moved = broker_moves repo answering (pos 10) one

abbrev created : Turn
created = moved (moved (moved (moved (moved (at_first empty_disk)))))

abbrev seen : Turn
seen =
    monitor_looks repo answering (pos 10) one one []
      (monitor_lists repo answering (pos 10) one created)

run : Reach repo answering (pos 10) one (at_first empty_disk) seen
unfolding call ensure_directories_exist lock unlock write_config_file copy_with_instance_additions
    load save with_additions encode decode get set read_text write_text os_remove os_mkdir_all
    make_dirs put_dir node_at lookup insert erase names_in same join render render_onto
    start_and_wait_until_ready start_and_wait_until_ready_with_config all_instances
    all_instances_with announced verbosely list_names collect file_result find_by_id os_read_dir
    sort atoi itoa
run =
    next
      (next
        (next
          (next
            (next
              (next (next here (broker (at_first empty_disk) refl))
                (broker (moved (at_first empty_disk)) refl))
              (broker (moved (moved (at_first empty_disk))) refl))
            (broker (moved (moved (moved (at_first empty_disk)))) refl))
          (broker (moved (moved (moved (moved (at_first empty_disk))))) refl))
        (lists created refl))
      (looks (monitor_lists repo answering (pos 10) one created) one [] refl refl)

seen_chosen : seen.chosen ≡ some one
unfolding call os_stat ensure_directories_exist lock unlock write_config_file
    copy_with_instance_additions load save with_additions encode decode get set read_text write_text
    os_remove os_mkdir_all make_dirs put_dir node_at lookup insert erase names_in same join render
    render_onto start_and_wait_until_ready start_and_wait_until_ready_with_config all_instances
    all_instances_with announced verbosely list_names collect file_result find_by_id os_read_dir
    sort atoi itoa
seen_chosen = refl

none_there : lookup (conf_path repo one) empty_disk.tree ≡ none
unfolding lookup same join
none_there = refl

Reach-finished_example : seen.phase ≡ finished
Reach-finished_example =
    Reach-finished repo answering (pos 10) one answering-IsKept empty_disk seen one none_there refl
      run seen_chosen refl

-- The monitor starts where an instance was set up.
abbrev set_up_disk : World
set_up_disk = record empty_disk {
  tree =
      ("one" ∷ "data" ∷ [], dir)
      ∷ ("redis.conf" ∷ "one" ∷ "data" ∷ [], file "port 7000\nrequirepass pw\n")
      ∷ empty_disk.tree;
}

monitored : World
monitored = (start_up repo set_up_disk).1

monitored_ok : start_up repo set_up_disk ≡ (ok tt, monitored)
unfolding monitored start_up copy_config_files copy_config_file all_instances_verbose
    all_instances_with announced verbosely list_names collect file_result find_by_id os_read_dir
    sort atoi itoa ensure_directories_exist write_config_file copy_with_instance_additions load save
    with_additions encode decode get set read_text write_text os_mkdir_all make_dirs put_dir node_at
    lookup insert names_in same join render render_onto
monitored_ok = refl

listed-IsProper : All (IsProper repo) (all_instances_verbose repo set_up_disk).0.instances
unfolding all_instances_verbose all_instances_with announced verbosely list_names collect
    file_result find_by_id os_read_dir sort atoi itoa load decode get read_text node_at lookup
    names_in same join
listed-IsProper = (one-IsProper, tt)

set_up_disk-IsHealthy : IsHealthy repo defaults set_up_disk
unfolding node_at lookup same join
set_up_disk-IsHealthy = record {
  may_stat = λ p. refl;
  may_read = λ p. refl;
  default_there = refl;
  default_plain = refl;
}

find_by_id-start_up_example :
    (find_by_id repo "one" monitored).0 ≡ (find_by_id repo "one" set_up_disk).0
find_by_id-start_up_example =
    find_by_id-start_up repo repo-IsSound defaults set_up_disk monitored "one" set_up_disk-IsHealthy
      listed-IsProper monitored_ok one_IsName
