-- ===== src/Tests/Config.antt =====
-- redisconf: runs, and the theorems at a small file.
use cf_redis_broker.Base.{◌*◌, ◌+◌, ◌≤◌}
use cf_redis_broker.Redisconf.Memory.{max_memory_lem, max_memory, to_float, unit, nearest}
use cf_redis_broker.Base.{
  map, ◌≡◌, refl, ap, ℕ, zero, suc, ◌≤◌, arith, size, has_byte, false, String, none, [], ◌∷◌, ◌<>◌,
  ok, pos,
}
use cf_redis_broker.Redisconf.{
  max_scan_token_size, Conf, decode, encode, get, set, port, command_aliases,
}
use cf_redis_broker.Redisconf.RoundTrip.{prepend, decode-encode-append, decode-encode_too_long}
use cf_redis_broker.Redisconf.Decoded.{decode-encode-decode, decode-IsPlain}
use cf_redis_broker.Redisconf.Access.{get-set}
use cf_redis_broker.Tests.Data.{defaults}

abbrev small : Conf
small = record { key = "port"; value = "6379" } ∷ record { key = "daemonize"; value = "yes" } ∷ []

decoded : decode defaults ≡ ok small
unfolding decode
decoded = refl

small_port : port small ≡ pos 6379
unfolding port
small_port = refl

alias_without_space :
    command_aliases (record { key = "rename-command"; value = "CONFIG" } ∷ []) ≡ none
unfolding command_aliases
alias_without_space = refl

decode-encode-append_example :
    decode (encode small <> "bind 127.0.0.1\n") ≡ prepend small (decode "bind 127.0.0.1\n")
decode-encode-append_example =
    decode-encode-append small "bind 127.0.0.1\n" (decode-IsPlain defaults small refl decoded)

decode-encode-decode_example : decode (encode small) ≡ ok small
decode-encode-decode_example = decode-encode-decode defaults small refl decoded

get-set_example : get "daemonize" (set "port" "0" small) ≡ get "daemonize" small
get-set_example = get-set "port" "0" "daemonize" small

-- A line of so many bytes.
letters : ℕ → String
letters zero = ""
letters (suc n) = String.◌∷◌ "x" (letters n)

size-letters : (n : ℕ) → size (letters n) ≡ n
unfolding letters
size-letters zero = refl
size-letters (suc n) = ap suc (size-letters n)

letters_lack_newline : (n : ℕ) → has_byte b'\n' (letters n) ≡ false
unfolding letters
letters_lack_newline zero = refl
letters_lack_newline (suc n) = letters_lack_newline n

long_enough : max_scan_token_size ≤ size (letters max_scan_token_size)
long_enough = rw (size-letters max_scan_token_size) (omega arith)

decode-encode_too_long_example :
    decode (encode small <> (letters max_scan_token_size <> "\n" <> "port 1\n")) ≡ ok small
decode-encode_too_long_example =
    decode-encode_too_long small (letters max_scan_token_size) "port 1\n"
      (decode-IsPlain defaults small refl decoded) (letters_lack_newline max_scan_token_size)
      long_enough

limits_of_memory :
    map max_memory
      (1 ∷ 3 ∷ 10 ∷ 8589934592 ∷ 17179881529 ∷ 9007199254740993 ∷ 3000000000000000007 ∷ [])
    ≡ 0 ∷ 1 ∷ 4 ∷ 3865470566 ∷ 7730946688 ∷ 4053239664633446 ∷ 1350000000000000000 ∷ []
unfolding max_memory to_float unit nearest
limits_of_memory = refl

max_memory_lem_example :
    (20 * max_memory 8589934592 * 100000000000000 ≤ 900000000000001 * 8589934592)
    × (899999999999999 * 8589934592
        ≤ 20 * max_memory 8589934592 * 100000000000000 + 20 * 100000000000000)
max_memory_lem_example = max_memory_lem 8589934592
