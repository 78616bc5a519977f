-- ===== src/Tests/Programs.antt =====
-- The programs, started on small disks.
use cf_redis_broker.Base.{
  ◌≡◌, refl, ◌==◌, if◌then◌else◌, true, false, [], ◌∷◌, ◌++◌, ok, err, message, itoa, atoi, inl,
  inr,
}
use cf_redis_broker.Os.{World, os_stat, os_read_dir, read_text, write_text, os_remove, node_at}
use cf_redis_broker.Os.Paths.{same, join, render}
use cf_redis_broker.Os.Files.{file, dir, lookup, insert, erase, names_in, sort}
use cf_redis_broker.Brokerconfig.{parse_config, validate_config, check_path_exists}
use cf_redis_broker.Redisconf.{Conf, decode, encode, get, set}
use cf_redis_broker.Redisconf.Additions.{load, save}
use cf_redis_broker.Redisconf.Decoded.{decode-IsPlain}
use cf_redis_broker.Redis.Repository.{find_by_id}
use cf_redis_broker.Redis.Repository.Listing.{
  all_instances, all_instances_with, announced, verbosely, list_names, collect, file_result,
}
use cf_redis_broker.Redis.Repository.Listing.Count.{view}
use cf_redis_broker.Migrator.{
  migrate, migrate_instances, migrate_instance, move_data_for, move_into, try_remove,
}
use cf_redis_broker.Migrator.Whole.Instances.{Values, IsReady}
use cf_redis_broker.Migrator.Whole.Every.{HaveValues}
use cf_redis_broker.Cmd.Monitor.{check_round, ensure_each, ensure_running_if_not_locked}
use cf_redis_broker.Cmd.Programs.{Outside, config_path, config_or_fatal}
use cf_redis_broker.Cmd.Programs.Settings.{settings}
use cf_redis_broker.Cmd.Programs.Migrating
use cf_redis_broker.Cmd.Programs.Migrating.{main-HaveValues}
use cf_redis_broker.Cmd.Programs.Serving
use cf_redis_broker.Cmd.Programs.Serving.{main_lem}
use cf_redis_broker.Cmd.Programs.Monitoring.{watch, trap, watch_signalled}
use cf_redis_broker.Tests.Keeping.{one_IsName}
use cf_redis_broker.Tests.Data.{config, repo, empty_disk, free_port, new_password}

-- Everything outside answers, and no connection can be made.
abbrev outside : Outside Unit Unit
outside = record {
  getenv = λ name. if name == "BROKER_CONFIG_PATH" then "/broker.yml" else "";
  decode_yaml = λ text. ok config;
  processes = record {
    find_process = λ pid w. (ok tt, w);
    signal_0 = λ h w. (ok tt, w);
    kill_handle = λ h w. (ok tt, w);
    wait = λ h w. (ok tt, w);
  };
  dial = λ a tls w. (err (message "refused"), w);
  dial_tcp = λ a w. (err (message "refused"), w);
  close = λ c w. w;
  sleep = λ n w. w;
  run = λ program args w. (ok tt, w);
  error_text = λ e. "";
  find_free_port = free_port;
  new_password = new_password;
  listen_and_serve = λ address broker user password w. (message "closed", w);
}

-- The disk with a configuration, a directory of logs, and an instance whose password stands in a
-- file of its own.
abbrev disk : World
disk = record empty_disk {
  tree =
      ("broker.yml" ∷ [], file "")
      ∷ ("log" ∷ [], dir)
      ∷ ("one" ∷ "data" ∷ [], dir)
      ∷ ("redis.conf" ∷ "one" ∷ "data" ∷ [], file "port 7000\n")
      ∷ ("redis-server.password" ∷ "one" ∷ "data" ∷ [], file "pw")
      ∷ empty_disk.tree;
}

settings_ok : settings outside disk ≡ ok config
unfolding config_path parse_config validate_config check_path_exists os_stat read_text node_at
    lookup same join
settings_ok = refl

main_lem_example : Serving.Ends outside disk
main_lem_example = main_lem outside disk

abbrev migrated : World
migrated = (Migrating.main outside disk).1

main_ok : Migrating.main outside disk ≡ (ok tt, migrated)
unfolding Migrating.main config_or_fatal config_path parse_config validate_config check_path_exists
    os_stat migrate migrate_instances migrate_instance os_read_dir sort move_data_for move_into
    try_remove load save decode encode get set read_text write_text os_remove node_at lookup insert
    erase names_in same join
main_ok = refl

one_listed : (os_read_dir ("data" ∷ []) disk).0 ≡ ok ("one" ∷ [])
unfolding os_read_dir sort node_at names_in lookup same
one_listed = refl

abbrev old_conf : Conf
old_conf = record { key = "port"; value = "7000" } ∷ []

abbrev password_only : Conf
password_only = record { key = "requirepass"; value = "pw" } ∷ []

old_decoded : decode "port 7000\n" ≡ ok old_conf
unfolding decode
old_decoded = refl

password_decoded : decode "requirepass pw\n" ≡ ok password_only
unfolding decode
password_decoded = refl

abbrev one_values : Values
one_values = record { port = "7000"; password = "pw"; has_port = refl; has_password = refl }

one-IsReady : IsReady ("one" ∷ "data" ∷ []) one_values disk
unfolding lookup same get
one-IsReady = record {
  conf = old_conf;
  holds = record {
    text = "port 7000\n";
    there = refl;
    decoded = old_decoded;
    plain = decode-IsPlain "port 7000\n" old_conf refl old_decoded;
    may_read = refl;
  };
  port = inl refl;
  password = inr (record {
    lacking = refl;
    there = refl;
    may_read = refl;
    plain = (decode-IsPlain "requirepass pw\n" password_only refl password_decoded).0;
  });
}

main-HaveValues_example : HaveValues ("data" ∷ []) (λ n. one_values) ("one" ∷ []) migrated
unfolding join
main-HaveValues_example =
    main-HaveValues outside config (λ n. one_values) ("one" ∷ []) disk migrated settings_ok
      one_listed (one_IsName, tt) (one-IsReady, tt) main_ok

-- The same disk where the instance is being set up.
abbrev locked_disk : World
locked_disk = record disk { tree = ("lock" ∷ "one" ∷ "data" ∷ [], file "") ∷ disk.tree }

-- One round of the monitor, and then a signal.
abbrev watched : World
watched = (watch outside config repo false (false ∷ []) locked_disk).1

watched_ok : watch outside config repo false (false ∷ []) locked_disk ≡ (ok tt, watched)
unfolding watch trap check_round ensure_each ensure_running_if_not_locked os_stat all_instances
    all_instances_with announced verbosely list_names collect file_result find_by_id os_read_dir
    sort atoi itoa load decode get read_text node_at lookup names_in same join render
watched_ok = refl

watch_signalled_example :
    ((watch outside config repo false ((false ∷ []) ++ true ∷ false ∷ []) locked_disk).0 ≡ ok tt)
    × (view (watch outside config repo false ((false ∷ []) ++ true ∷ false ∷ []) locked_disk).1
        ≡ view watched)
watch_signalled_example =
    watch_signalled outside (λ n w. refl) config repo false (false ∷ []) (false ∷ []) locked_disk
      watched watched_ok
