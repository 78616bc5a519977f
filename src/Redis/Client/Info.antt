-- ===== src/Redis/Client/Info.antt =====
-- redis/client/client.go: what `INFO` says, and the waits for it.
pub mod Waits
pub mod Saved
use text.Mathlib.Text.{starts_with}
use cf_redis_broker.Base.{
  ℕ, zero, suc, ◌+◌, ◌-◌, ◌%◌, ◌^◌, String, ◌<>◌, Char, code, Bool, true, false, eqb, leb, ltb,
  ◌&&◌, not, ◌==◌, if◌then◌else◌, Option, none, some, List, [], ◌∷◌, ℤ, pos, negative, pos_part,
  ltb_ℤ, atoi, trim_space, split, Error, message, Result, ok, err,
}
use cf_redis_broker.Base.Act.{Act, inspect, pure, raise, ◌>>=◌}
use cf_redis_broker.Base.Loop.{for_below}
use cf_redis_broker.Redisconf.{put_alias}
use cf_redis_broker.Redis.Client.{Client, entry, lookup_alias, last_rdb_save_time}

abbrev pub Fields : Type 0
Fields = List (String × String)

abbrev is_comment : String → Bool
is_comment String.[] = true
is_comment (String.◌∷◌ c s) = eqb (code c) b'#'

-- `info[pair[0]] = pair[1]`; `none` is the panic where there is no second part.
abbrev add_pair : List String → Fields → Option Fields
add_pair (k ∷ v ∷ rest) info = some (put_alias k v info)
add_pair _ info = none

-- The loop over the entries.
unfoldable pub info_fields : List String → Fields → Option Fields
info_fields [] info = some info
info_fields (e ∷ es) info =
    if is_comment (trim_space e)
    then info_fields es info
    else elim (add_pair (split b':' (trim_space e)) info) [
      | none ↦ none
      | some info' ↦ info_fields es info'
    ]

-- The digits that a text starts with.
unfoldable pub leading_digits : String → String
leading_digits String.[] = ""
leading_digits (String.◌∷◌ c s) =
    let rest = leading_digits s in
    if leb 48 (code c) && leb (code c) 57 then String.◌∷◌ c rest else ""

abbrev drop : ℕ → String → String
drop zero s = s
drop (suc n) String.[] = ""
drop (suc n) (String.◌∷◌ c s) = drop n s

-- The first match of `keys=(\d+)`, its group.
unfoldable pub key_digits : String → Option String
key_digits String.[] = none
key_digits (String.◌∷◌ c s) =
    let rest = key_digits s in
    if starts_with (String.◌∷◌ c s) "keys=" && not (leading_digits (drop 4 s) == "")
    then some (leading_digits (drop 4 s))
    else rest

-- A signed 64-bit sum of natural numbers, from its value modulo 2^64.
unfoldable pub signed : ℕ → ℤ
signed n = if ltb n (2 ^ 63) then pos n else negative (2 ^ 64 - n)

-- A line without a match counts nothing, and neither does one whose number is out of range.
abbrev key_count : Option String → ℕ
key_count none = 0
key_count (some digits) = elim (atoi digits) [ ok n ↦ pos_part n | err e ↦ 0 ]

unfoldable pub sum_keys : ℕ → List String → ℕ
sum_keys total [] = total
sum_keys total (line ∷ lines) = sum_keys ((total + key_count (key_digits line)) % 2 ^ 64) lines

module _ {S : Type 0} (error_text : Error → String) (c : Client S) where
  -- `none` is a panic.
  unfoldable pub info : Act S (Option Fields)
  info = do
    response ← c.connection.do_text (lookup_alias c.settings "INFO" ∷ [])
    pure (info_fields (split b'\n' response) [])

  unfoldable pub global_key_count : Act S ℤ
  global_key_count = do
    keyspaces ← c.connection.do_text (lookup_alias c.settings "INFO" ∷ "keyspace" ∷ [])
    pure (signed (sum_keys 0 (split b'\n' keyspaces)))

  abbrev field_of : String → Option Fields → Act S (Option String)
  field_of field_name none = pure none
  field_of field_name (some fields) = elim (entry field_name fields) [
    | none ↦ raise (message ("Unknown field: " <> field_name))
    | some value ↦ pure (some value)
  ]

  -- The format of the error lacks its argument.
  unfoldable pub info_field : String → Act S (Option String)
  info_field field_name = inspect info (elim [
    | err e ↦ raise (message ("Error during redis info: %!s(MISSING)" <> error_text e))
    | ok fields ↦ field_of field_name fields
  ])

  module _ (sleep : ℕ → S → S) where
    -- One round: what is returned, if the loop is left; a break returns nil.
    abbrev after_field : Result (Option String) → S → Option (Result (Option (Unit {0}))) × S
    after_field (err e) s = (some (err e), s)
    after_field (ok none) s = (some (ok none), s)
    after_field (ok (some loading)) s =
        if loading == "0" then (some (ok (some tt)), s) else (none, sleep 100 s)

    unfoldable pub poll_loading : S → Option (Result (Option (Unit {0}))) × S
    poll_loading s = let (r, s') = info_field "loading" s in after_field r s'

    -- Nil is returned too where the time is over.
    abbrev pub or_nil : Option (Result (Option (Unit {0}))) × S → Result (Option (Unit {0})) × S
    or_nil (some r, s) = (r, s)
    or_nil (none, s) = (ok (some tt), s)

    unfoldable pub wait_until_redis_not_loading : ℤ → Act S (Option (Unit {0}))
    wait_until_redis_not_loading timeout_milliseconds s =
        or_nil (for_below poll_loading timeout_milliseconds 100 s)

-- What a `select` of the wait receives: a second has passed, or the timer has fired.
pub data Tick : Type 0 where
  second timer : Tick

module _ {S : Type 0} (c : Client S) (last_save_time : ℤ) where
  -- The loop, over what it receives; `none` where it has not returned yet.
  unfoldable pub wait_for_new_save_since : List Tick → S → Option (Result (Unit {0})) × S
  wait_for_new_save_since [] s = (none, s)
  wait_for_new_save_since (timer ∷ ticks) s =
      (some (err (message "Timed out waiting for background save to complete")), s)
  wait_for_new_save_since (second ∷ ticks) s =
      let (r, s') = last_rdb_save_time c s in
      elim r [
        | err e ↦ (some (err e), s')
        | ok latest ↦ elim (ltb_ℤ last_save_time latest) [
          | true ↦ (some (ok tt), s')
          | false ↦ wait_for_new_save_since ticks s'
        ]
      ]
