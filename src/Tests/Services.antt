-- ===== src/Tests/Services.antt =====
-- The waits, the moves, the ports and the store.
use cf_redis_broker.Base.{
  ◌≡◌, refl, arith, ℕ, ◌+◌, ◌≤◌, ◌*◌, String, ◌<>◌, false, if◌then◌else◌, ltb, none, some, [], ◌∷◌,
  pos, Error, message, trim_space, ok, err, itoa,
}
use cf_redis_broker.Base.Act.{Act}
use cf_redis_broker.Base.Loop.{rounds}
use cf_redis_broker.Os.{World, os_open, read_text, write_text, os_remove, node_at}
use cf_redis_broker.Os.Paths.{same}
use cf_redis_broker.Os.Files.{file, lookup, insert, erase, names_in}
use cf_redis_broker.Redis.Process.{TcpAddr}
use cf_redis_broker.Redis.Process.Server.{ping_server, trailing_digits, get_redis_port}
use cf_redis_broker.Redis.Client.{
  connect, authenticate, ping, apply_options, with_host, with_port, with_password,
}
use cf_redis_broker.Base.{atoi}
use cf_redis_broker.Availability.{or_timeout, is_listening, attempt, check}
use cf_redis_broker.Availability.Attempts.{check-rounds}
use cf_redis_broker.Utils.{move_file}
use cf_redis_broker.Utils.Moved.{lookup-move_file}
use cf_redis_broker.System.{get_port_from_addr}
use cf_redis_broker.System.Port.{get_port_from_addr-itoa}
use cf_redis_broker.S3.Bucket.{obfuscate_from, obfuscate}
use cf_redis_broker.S3.Bucket.Obfuscated.{stars, obfuscate_lem}
use cf_redis_broker.Redis.Client.{Client, default_settings, lookup_alias, entry}
use cf_redis_broker.Redisconf.{put_alias}
use cf_redis_broker.Redis.Client.{last_rdb_save_time}
use cf_redis_broker.Redis.Client.Info.Saved.{HasNewer, wait_for_new_save_since-HasNewer}
use cf_redis_broker.Redis.Client.Info.{
  second, timer, wait_for_new_save_since, info, info_fields, info_field, poll_loading, or_nil,
  wait_until_redis_not_loading,
}
use cf_redis_broker.Redis.Client.Info.Waits.{
  wait_until_redis_not_loading-rounds, wait_until_redis_not_loading_gives_up,
}
use cf_redis_broker.Tests.Data.{empty_disk, defaults}

-- A port that is reached from the third attempt on; the state counts the attempts.
abbrev slow_dial : TcpAddr → Act ℕ (Unit {0})
slow_dial a n = if ltb n 2 then (err (message "refused"), n + 1) else (ok tt, n + 1)

abbrev closed : Unit {0} → ℕ → ℕ
closed c n = n

abbrev slept : ℕ → ℕ → ℕ
slept d n = n

abbrev local_port : TcpAddr
local_port = record { ip = "127.0.0.1"; port = pos 6379 }

check-rounds_example :
    check slow_dial closed slept local_port (pos 25000000) 0
    ≡ or_timeout (rounds (attempt slow_dial closed slept local_port) 3 0)
check-rounds_example = check-rounds slow_dial closed slept local_port (pos 25000000) 0

check_found : or_timeout (rounds (attempt slow_dial closed slept local_port) 3 0) ≡ (ok tt, 3)
unfolding rounds attempt is_listening
check_found = refl

check_timed_out :
    or_timeout (rounds (attempt slow_dial closed slept local_port) 2 0)
    ≡ (err (message "timeout"), 2)
unfolding rounds attempt is_listening
check_timed_out = refl

moved : World
moved = (move_file ("redis.conf" ∷ []) ("old.conf" ∷ []) empty_disk).1

moved_ok : move_file ("redis.conf" ∷ []) ("old.conf" ∷ []) empty_disk ≡ (ok tt, moved)
unfolding moved move_file os_open read_text write_text os_remove node_at lookup insert erase
    names_in same
moved_ok = refl

conf_there : lookup ("redis.conf" ∷ []) empty_disk.tree ≡ some (file defaults)
unfolding lookup same
conf_there = refl

conf_apart : same ("redis.conf" ∷ []) ("old.conf" ∷ []) ≡ false
unfolding same
conf_apart = refl

lookup-move_file_example :
    (lookup ("old.conf" ∷ []) moved.tree ≡ some (file defaults))
    × (lookup ("redis.conf" ∷ []) moved.tree ≡ none)
lookup-move_file_example =
    lookup-move_file "redis.conf" "old.conf" [] [] conf_apart defaults empty_disk moved conf_there
      refl moved_ok

get_port_from_addr-itoa_example :
    get_port_from_addr ("[::1]" <> ":" <> itoa (pos 6379)) ≡ ok (pos 6379)
get_port_from_addr-itoa_example = get_port_from_addr-itoa "[::1]" 6379 (omega arith)

obfuscate_lem_example : (obfuscate ("verysec" <> "et") ≡ stars 7 <> "et") × (2 ≤ 4) × (4 * 2 ≤ 9)
obfuscate_lem_example = obfuscate_lem "verysec" "et" refl

obfuscated : obfuscate "verysecret" ≡ "********et"
unfolding obfuscate obfuscate_from
obfuscated = refl

-- A server that is loading; the state counts the commands.
abbrev loading_server : Client ℕ
loading_server = record {
  settings = default_settings;
  connection = record {
    do_any = λ words n. (ok tt, n + 1);
    do_text = λ words n. (ok "loading:1", n + 1);
    do_number = λ words n. (ok (pos 0), n + 1);
    do_map = λ words n. (ok [], n + 1);
    close = λ n. (ok tt, n);
  };
}

abbrev no_text : Error → String
no_text e = ""

wait_until_redis_not_loading-rounds_example :
    wait_until_redis_not_loading no_text loading_server slept (pos 250) 0
    ≡ or_nil no_text loading_server slept (rounds (poll_loading no_text loading_server slept) 3 0)
wait_until_redis_not_loading-rounds_example =
    wait_until_redis_not_loading-rounds no_text loading_server slept (pos 250) 0

still_loading :
    (n : ℕ) → (v : ℕ) × (info_field no_text loading_server "loading" n ≡ (ok (some "1"), v))
unfolding info_field info info_fields lookup_alias trim_space entry put_alias
still_loading n = (n + 1, refl)

wait_until_redis_not_loading_gives_up_example :
    (wait_until_redis_not_loading no_text loading_server slept (pos 250) 0).0 ≡ ok (some tt)
wait_until_redis_not_loading_gives_up_example =
    wait_until_redis_not_loading_gives_up no_text loading_server slept still_loading (pos 250) 0

-- A server that has saved after two seconds.
abbrev saving_server : Client ℕ
saving_server = record loading_server {
  connection = record loading_server.connection { do_number = λ words n. (ok (pos n), n + 1) };
}

saved_in_time :
    wait_for_new_save_since saving_server (pos 0) (second ∷ second ∷ timer ∷ []) 0
    ≡ (some (ok tt), 2)
unfolding wait_for_new_save_since last_rdb_save_time
saved_in_time = refl

wait_for_new_save_since-HasNewer_example : HasNewer saving_server (pos 0) 2
wait_for_new_save_since-HasNewer_example =
    wait_for_new_save_since-HasNewer saving_server (pos 0) (second ∷ second ∷ timer ∷ []) 0 2
      saved_in_time

port_of_name : get_redis_port "redis-instance-6379" ≡ ok (pos 6379)
unfolding get_redis_port trailing_digits atoi
port_of_name = refl

no_port_in_name : get_redis_port "6379-redis" ≡ err (message "failed to get port")
unfolding get_redis_port trailing_digits
no_port_in_name = refl

-- A server that answers, and is asked without a password.
pong :
    ping_server
      (λ a tls n.
        (ok (record loading_server.connection { do_text = λ words n. (ok "PONG", n + 1) }), n + 1))
      (record { id = "one"; host = "10.0.0.1"; port = pos 7000; password = "" })
      0
    ≡ (ok tt, 2)
unfolding ping_server connect authenticate ping apply_options with_host with_port with_password
    lookup_alias trim_space entry
pong = refl
