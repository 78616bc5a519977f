-- ===== src/Log.antt =====
-- log/cli_sink.go and log/logger.go: the sink that prints log entries for the command line, and the
-- logger.
use cf_redis_broker.Base.{
  ℕ, zero, suc, ◌-◌, String, ◌<>◌, Bool, false, ◌==◌, if◌then◌else◌, Option, none, some, List, ℤ,
  ltb_ℤ, size, split, last_or,
}
use cf_redis_broker.Redis.Client.{entry}

-- The fields of `lager.LogFormat` that the sink reads. A data without entries may be nil, which is
-- `none`; the values that the program logs under "event" are texts.
pub record LogFormat : Type 0 where
  pub log_level : ℤ
  pub message : String
  pub data_ : Option (List (String × String))

unfoldable pub split_lager_message : String → String
split_lager_message message = last_or "" (split b'.' message)

unfoldable pub spaces : ℕ → String
spaces zero = ""
spaces (suc n) = " " <> spaces n

-- `%s` of an interface value; nil prints so.
abbrev pub shown : Option String → String
shown none = "%!s(<nil>)"
shown (some s) = s

-- `%15s` pads on the left.
unfoldable pub prettify : String → Option String → String
prettify message event =
    spaces (15 - size (split_lager_message message))
    <> split_lager_message message
    <> " -> "
    <> shown event

-- `Data["event"] == ""` is false where the event is missing.
abbrev is_blank : Option String → Bool
is_blank none = false
is_blank (some s) = s == ""

abbrev line_of : String → Option (List (String × String)) → Option String
line_of message none = none
line_of message (some d) =
    if is_blank (entry "event" d) then none else some (prettify message (entry "event" d) <> "\n")

-- What the sink writes to is standard output.
pub record CliSink (Writer : Type 0) : Type 0 where
  pub writer : Writer
  pub min_log_level : ℤ

abbrev pub new_cli_sink : {Writer : Type 0} → Writer → ℤ → CliSink Writer
new_cli_sink stdout min_log_level = record { writer = stdout; min_log_level = min_log_level }

-- `Logger` of log/logger.go: the logger is made at the first call, and kept. `new_logger` is lager's.
unfoldable pub logger : {L : Type 0} → (String → L) → Option L → L × Option L
logger new_logger none = let made = new_logger "redis-broker" in (made, some made)
logger new_logger (some made) = (made, some made)

-- What `Log` writes, if it writes.
unfoldable pub log_line : ℤ → LogFormat → Option String
log_line min_log_level format =
    if ltb_ℤ format.log_level min_log_level
    then none
    else if format.message == ""
    then none
    else line_of format.message format.data_

-- `Log` of a sink, where `print` writes a line to a writer.
unfoldable pub log :
    {Writer S : Type 0} → (Writer → String → S → S) → CliSink Writer → LogFormat → S → S
unfolding log_line
log print sink format s = elim (log_line sink.min_log_level format) [
  | none ↦ s
  | some line ↦ print sink.writer line s
]
