-- ===== src/Redisconf/Additions.antt =====
-- redisconf/redisconf.go: `Load`, `Save` and `CopyWithInstanceAdditions`, over the tree of files.
use cf_redis_broker.Base.{String, ◌<>◌}
use cf_redis_broker.Base.Act.{Act, ◌>>=◌, lift}
use cf_redis_broker.Os.{World, read_text, write_text}
use cf_redis_broker.Os.Paths.{FilePath, join, render}
use cf_redis_broker.Redisconf.{Conf, decode, encode, set}

unfoldable pub load : FilePath → Act World Conf
unfolding read_text
load path = do text ← read_text path; lift (decode text)

unfoldable pub save : FilePath → Conf → Act World (Unit {0})
save path conf = write_text path (encode conf)

-- The parameters that every instance sets anew.
unfoldable pub with_additions : String → String → String → FilePath → Conf → Conf
with_additions instance_id port password pid_dir conf =
    set "pidfile" (render (join pid_dir (instance_id <> ".pid"))) (
      set "requirepass" password (
        set "port" port (
          set "syslog-facility" "local0" (
            set "syslog-ident" ("redis-server-" <> instance_id)
              (set "syslog-enabled" "yes" conf)))))

-- The change of the new file's mode is left out.
unfoldable pub copy_with_instance_additions :
    FilePath → FilePath → String → String → String → FilePath → Act World (Unit {0})
copy_with_instance_additions from_path to_path instance_id port password pid_dir = do
  default_config ← load from_path
  save to_path (with_additions instance_id port password pid_dir default_config)
