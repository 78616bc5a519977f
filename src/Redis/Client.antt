-- ===== src/Redis/Client.antt =====
-- redis/client/client.go: the client of a redis server. The connection is that of a package that the
-- program only calls: its commands are fields, together with the conversion of their replies.
pub mod Aliases
pub mod Info
use cf_redis_broker.Base.{
  String, ◌<>◌, Char, code, Bool, true, false, eqb, ◌==◌, if◌then◌else◌, Option, none, some, List,
  [], ◌∷◌, ℤ, pos, ltb_ℤ, itoa, trim_space, message, Result, ok, err,
}
use cf_redis_broker.Base.Act.{Act, inspect, pure, raise, ◌>>=◌, ◌>>◌}
use cf_redis_broker.Os.Paths.{FilePath, join}
use cf_redis_broker.Redisconf.{default_port, put_alias}

-- `do_any`, `do_text`, `do_number` and `do_map` send a command and its arguments; the reply is
-- dropped, or taken as a text, a number or a map.
pub record Connection (S : Type 0) : Type 0 where
  pub do_any : List String → Act S (Unit {0})
  pub do_text : List String → Act S String
  pub do_number : List String → Act S ℤ
  pub do_map : List String → Act S (List (String × String))
  pub close : Act S (Unit {0})

-- The fields that the options set.
pub record Settings : Type 0 where
  pub host : String
  pub port : ℤ
  pub password : String
  pub tls : Bool
  pub aliases : List (String × String)

pub record Client (S : Type 0) : Type 0 where
  pub settings : Settings
  pub connection : Connection S

-- An assignment of the letters of one text to those of another.
unfoldable pub letter_in : String → String → Char → Char
letter_in String.[] bs c = c
letter_in (String.◌∷◌ a as_) String.[] c = c
letter_in (String.◌∷◌ a as_) (String.◌∷◌ b bs) c =
    if eqb (code c) (code a) then b else letter_in as_ bs c

-- `strings.ToUpper`
unfoldable pub to_upper : String → String
unfolding letter_in
to_upper String.[] = ""
to_upper (String.◌∷◌ c s) =
    String.◌∷◌ (letter_in "abcdefghijklmnopqrstuvwxyz" "ABCDEFGHIJKLMNOPQRSTUVWXYZ" c) (to_upper s)

unfoldable pub entry : String → List (String × String) → Option String
entry k [] = none
entry k ((j, v) ∷ m) = if k == j then some v else entry k m

unfoldable pub register_alias : String → String → Settings → Settings
register_alias cmd alias c = record c { aliases = put_alias (to_upper cmd) alias c.aliases }

abbrev or_else : String → Option String → String
or_else d none = d
or_else d (some a) = a

unfoldable pub lookup_alias : Settings → String → String
lookup_alias c cmd = or_else cmd (entry (to_upper cmd) c.aliases)

-- The options of `Connect`.
unfoldable pub with_password : String → Settings → Settings
with_password password c = record c { password = password }

unfoldable pub with_port : ℤ → Settings → Settings
with_port port c = if ltb_ℤ (pos 0) port then record c { port = port } else c

unfoldable pub with_host : String → Settings → Settings
with_host host c = record c { host = host }

unfoldable pub with_tls : Bool → Settings → Settings
with_tls tls c = record c { tls = tls }

unfoldable pub register_aliases : List (String × String) → Settings → Settings
register_aliases [] c = c
register_aliases ((cmd, alias) ∷ rest) c = register_aliases rest (register_alias cmd alias c)

unfoldable pub cmd_aliases : List (String × String) → Settings → Settings
cmd_aliases aliases c = register_aliases aliases (record c { aliases = [] })

abbrev pub default_settings : Settings
default_settings = record {
  host = "0.0.0.0";
  port = default_port;
  password = "";
  tls = false;
  aliases = [];
}

unfoldable pub apply_options : List (Settings → Settings) → Settings → Settings
apply_options [] c = c
apply_options (opt ∷ opts) c = apply_options opts (opt c)

abbrev pub address_of : Settings → String
address_of c = c.host <> ":" <> itoa c.port

module _ {S : Type 0} where
  -- The password is sent only if there is one.
  unfoldable pub authenticate : Settings → Connection S → Act S (Unit {0})
  authenticate c connection =
      if c.password == ""
      then pure tt
      else inspect (connection.do_any ("AUTH" ∷ c.password ∷ []))
          (elim [ ok _ ↦ pure tt | err e ↦ inspect connection.close (λ _. raise e) ])

  unfoldable pub connect :
      (String → Bool → Act S (Connection S)) → List (Settings → Settings) → Act S (Client S)
  connect dial options = do
    connection ←
        dial (address_of (apply_options options default_settings))
          (apply_options options default_settings).tls
    authenticate (apply_options options default_settings) connection
    pure (record { settings = apply_options options default_settings; connection = connection })

module _ {S : Type 0} (c : Client S) where
  unfoldable pub disconnect : Act S (Unit {0})
  disconnect = c.connection.close

  unfoldable pub set_config : String → String → Act S (Unit {0})
  set_config key value =
      c.connection.do_any (lookup_alias c.settings "CONFIG" ∷ "SET" ∷ key ∷ value ∷ [])

  unfoldable pub enable_aof : Act S (Unit {0})
  enable_aof = set_config "appendonly" "yes"

  -- The command goes out as it is, without regard to its alias; the answer is left out.
  unfoldable pub exec : String → List String → Act S (Unit {0})
  exec command args = c.connection.do_any (command ∷ args)

  unfoldable pub run_bg_save : Act S (Unit {0})
  run_bg_save = c.connection.do_any (lookup_alias c.settings "BGSAVE" ∷ [])

  unfoldable pub last_rdb_save_time : Act S ℤ
  last_rdb_save_time = c.connection.do_number ("LASTSAVE" ∷ [])

  unfoldable pub get_config : String → Act S String
  get_config key = do
    output ← c.connection.do_map (lookup_alias c.settings "CONFIG" ∷ "GET" ∷ key ∷ [])
    elim (entry key output) [
      | none ↦ raise (message ("Key '" <> key <> "' not found"))
      | some value ↦ pure value
    ]

  unfoldable pub rdb_file : String → Act S FilePath
  rdb_file data_dir =
      if data_dir == ""
      then raise (message "Data dir not set")
      else do db_filename ← get_config "dbfilename"; pure (join (join [] data_dir) db_filename)

  unfoldable pub rdb_path : Act S FilePath
  rdb_path = do data_dir ← get_config "dir"; rdb_file data_dir

  unfoldable pub ping : Act S (Unit {0})
  ping = do
    response ← c.connection.do_text (lookup_alias c.settings "PING" ∷ [])
    if trim_space response == "PONG"
        then pure tt
        else raise (message ("ping resonded with `" <> response <> "`"))
