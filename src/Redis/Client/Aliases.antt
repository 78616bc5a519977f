-- ===== src/Redis/Client/Aliases.antt =====
-- redis/client/client.go: the aliases of commands.
use cf_redis_broker.Base.{◌≡◌, String, some, List, [], ◌∷◌, arith, ◌==◌, eq_iff, if◌then◌else◌}
use cf_redis_broker.Redisconf.{put_alias}
use cf_redis_broker.Redis.Client.{Settings, entry, to_upper, register_alias, lookup_alias}

entry-put_alias :
    (j k v : String) (m : List (String × String))
    → entry k (put_alias j v m) ≡ (if j == k then some v else entry k m)
unfolding entry put_alias
entry-put_alias j k v [] = ground (arith, eq_iff j k, eq_iff k j)
entry-put_alias j k v ((i, w) ∷ m) =
    ground (arith, eq_iff j k, eq_iff k j, eq_iff j i, eq_iff k i, entry-put_alias j k v m)

-- After an alias is registered, it stands for every spelling of its command in capitals and small
-- letters, and every other command is looked up as before.
pub lookup_alias-register_alias :
    (cmd alias other : String) (c : Settings)
    → lookup_alias (register_alias cmd alias c) other
      ≡ (if to_upper cmd == to_upper other then alias else lookup_alias c other)
unfolding lookup_alias register_alias
lookup_alias-register_alias cmd alias other c =
    rw (entry-put_alias (to_upper cmd) (to_upper other) alias c.aliases) (ground arith)
