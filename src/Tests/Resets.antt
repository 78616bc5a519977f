-- ===== src/Tests/Resets.antt =====
-- A whole reset.
use cf_redis_broker.Base.{◌≡◌, refl, String, none, some, [], ◌∷◌, ok, pos}
use cf_redis_broker.Os.{World, read_text, write_text, os_remove, node_at}
use cf_redis_broker.Os.Paths.{same, join}
use cf_redis_broker.Os.Files.{file, lookup, insert, erase, names_in}
use cf_redis_broker.Redisconf.{Conf, decode, encode, get}
use cf_redis_broker.Redisconf.Additions.{load, save}
use cf_redis_broker.Migrator.{try_remove}
use cf_redis_broker.Resetter.{
  Resetter, default_timeout, get_authenticated_redis_conn, script_killed, kill_script, stop_redis,
  delete_data, reset_config_with_new_password, start_redis, reset_redis,
}
use cf_redis_broker.Resetter.Kept.{aof_file}
use cf_redis_broker.Resetter.Reset.{Reset, IsApart, reset_redis_lem}
use cf_redis_broker.Tests.Data.{defaults}

abbrev resetter : Resetter String
resetter = record {
  default_conf_path = "redis.conf" ∷ [];
  live_conf_path = "live.conf" ∷ [];
  port_check = λ a t w. (ok tt, w);
  timeout = default_timeout;
  stop_and_wait = λ name w. (ok tt, w);
  start_and_wait = λ name w. (ok tt, w);
  dial = λ a w. (ok a, w);
  do_command = λ c words w. (ok tt, w);
  close = λ c w. w;
  resolve_tcp_addr = λ text w. (ok (record { ip = "127.0.0.1"; port = pos 6379 }), w);
  error_text = λ e. "";
  working_dir = [];
}

-- A server that was used: it has data, and a configuration with a password.
abbrev used_disk : World
used_disk = record {
  tree =
      ("redis.conf" ∷ [], file defaults)
      ∷ ("live.conf" ∷ [], file "port 7000\nrequirepass pw\n")
      ∷ ("appendonly.aof" ∷ [], file "data")
      ∷ ("dump.rdb" ∷ [], file "data")
      ∷ [];
  refuses = λ c. none;
  logs = [];
}

abbrev reset_disk : World
reset_disk = (reset_redis resetter used_disk).1

reset_ok : reset_redis resetter used_disk ≡ (ok tt, reset_disk)
unfolding reset_redis stop_redis kill_script get_authenticated_redis_conn script_killed delete_data
    start_redis try_remove os_remove erase names_in reset_config_with_new_password load save decode
    encode get read_text write_text node_at lookup insert same join
reset_ok = refl

abbrev default_conf : Conf
default_conf =
    record { key = "port"; value = "6379" } ∷ record { key = "daemonize"; value = "yes" } ∷ []

default_decoded : decode defaults ≡ ok default_conf
unfolding decode
default_decoded = refl

default_there : lookup ("redis.conf" ∷ []) used_disk.tree ≡ some (file defaults)
unfolding lookup same
default_there = refl

resetter-IsApart : IsApart resetter "redis.conf" "live.conf" [] []
unfolding same
resetter-IsApart = record {
  default_at = refl;
  live_at = refl;
  aof_default = refl;
  rdb_default = refl;
  live_aof = refl;
  aof_live = refl;
  rdb_live = refl;
  default_aside = record {
    dials = λ a w. (refl, refl);
    sends = λ c words w. (refl, refl);
    closes = λ c w. (refl, refl);
    stops = λ name w. (refl, refl);
    starts = λ name w. (refl, refl);
  };
  live_aside = record {
    dials = λ a w. (refl, refl);
    sends = λ c words w. (refl, refl);
    closes = λ c w. (refl, refl);
    stops = λ name w. (refl, refl);
    starts = λ name w. (refl, refl);
  };
}

reset_redis_lem_example :
    (r : Reset resetter used_disk reset_disk) × (lookup (aof_file resetter) r.configured.tree
      ≡ none)
    × (load ("live.conf" ∷ []) r.configured ≡ (ok default_conf, r.configured))
    × (r.conf ≡ default_conf)
reset_redis_lem_example =
    reset_redis_lem resetter "redis.conf" "live.conf" [] [] defaults default_conf used_disk
      reset_disk resetter-IsApart refl refl default_there refl default_decoded reset_ok
