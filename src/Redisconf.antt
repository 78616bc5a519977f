-- ===== src/Redisconf.antt =====
-- redisconf/redisconf.go: the parameters of a redis.conf file, as data. Reading and writing the
-- files stands in Redisconf/Additions.antt.
pub mod Access
pub mod Lines
pub mod RoundTrip
pub mod Additions
pub mod Decoded
pub mod Added
pub mod Memory
use cf_redis_broker.Base.{
  ℕ, ◌≡◌, String, ◌<>◌, Char, code, Bool, true, false, ◌&&◌, ◌||◌, not, Option, none, some, List,
  [], ◌∷◌, ◌++◌, ltb, eqb, ◌==◌, if◌then◌else◌, ℤ, pos, eqb_ℤ, atoi, Error, message, Result, ok,
  err, map, split, cut, without_byte, size,
}

pub record Param : Type 0 where
  pub key : String
  pub value : String

abbrev pub Conf : Type 0
Conf = List Param

abbrev pub new : List Param → Conf
new params = params

abbrev pub default_host : String
default_host = "127.0.0.1"

abbrev pub default_port : ℤ
default_port = pos 6379

abbrev pub default_tls_port : ℤ
default_tls_port = pos 16379

-- `bufio.MaxScanTokenSize`: a line of this many bytes ends the scan.
abbrev pub max_scan_token_size : ℕ
max_scan_token_size = 65536

-- Behind the last newline there is a line only if there are bytes.
pub drop_last_empty : List String → List String
drop_last_empty [] = []
drop_last_empty (p ∷ []) = if p == "" then [] else p ∷ []
drop_last_empty (p ∷ q ∷ ps) = p ∷ drop_last_empty (q ∷ ps)

-- A scan ends without a further line where one does not fit the buffer; `decode` does not ask for
-- the scanner's error.
pub tokens_that_fit : List String → List String
tokens_that_fit [] = []
tokens_that_fit (p ∷ ps) =
    let rest = tokens_that_fit ps in if ltb (size p) max_scan_token_size then p ∷ rest else []

-- `bufio.ScanLines` drops one carriage return at the end of a line.
pub drop_cr : String → String
drop_cr String.[] = ""
drop_cr (String.◌∷◌ c s) =
    let rest = drop_cr s in if eqb (code c) b'\r' && s == "" then "" else String.◌∷◌ c rest

-- The tokens of a scanner with `bufio.ScanLines`.
pub scan_lines : String → List String
unfolding drop_last_empty tokens_that_fit drop_cr
scan_lines s = map drop_cr (tokens_that_fit (drop_last_empty (split b'\n' s)))

-- Empty lines, comments and indented lines.
pub skipped : String → Bool
skipped String.[] = true
skipped (String.◌∷◌ c s) =
    eqb (code c) b'#' || eqb (code c) b' ' || eqb (code c) b'\t' || eqb (code c) b'\n'

pub parse_param : String → Result Param
parse_param line = elim (cut b' ' line) [
  | none ↦ err (message ("Unable to split redis.conf parameter into key/value pair: " <> line))
  | some (k, v) ↦ ok (record { key = k; value = v })
]

-- What one round of the loop puts in front of the later rounds' parameters.
pub onto_params : Result Param → Result Conf → Result Conf
onto_params (err e) rest = err e
onto_params (ok p) (err e) = err e
onto_params (ok p) (ok ps) = ok (p ∷ ps)

pub decode_lines : List String → Result Conf
decode_lines [] = ok []
decode_lines (line ∷ lines) =
    let rest = decode_lines lines in
    if skipped line then rest else onto_params (parse_param line) rest

unfoldable pub decode : String → Result Conf
unfolding scan_lines decode_lines skipped parse_param onto_params
decode text = decode_lines (scan_lines text)

unfoldable pub encode : Conf → String
encode [] = ""
encode (p ∷ ps) = (p.key <> " " <> p.value <> "\n") <> encode ps

unfoldable pub get_all : String → Conf → List Param
get_all k [] = []
get_all k (p ∷ ps) = let rest = get_all k ps in if k == p.key then p ∷ rest else rest

pub first_value : List Param → String
first_value [] = ""
first_value (p ∷ ps) = p.value

unfoldable pub get : String → Conf → String
unfolding get_all first_value
get k conf = first_value (get_all k conf)

unfoldable pub has_key : String → Conf → Bool
has_key k [] = false
has_key k (p ∷ ps) = k == p.key || has_key k ps

-- The first parameter of the key is replaced, and where there is none one is added at the end.
unfoldable pub set : String → String → Conf → Conf
set k v [] = record { key = k; value = v } ∷ []
set k v (p ∷ ps) = if k == p.key then record { key = k; value = v } ∷ ps else p ∷ set k v ps

abbrev pub set_password : String → Conf → Conf
set_password password conf = set "requirepass" password conf

-- `new_uuid` is the choice of a random UUID, as a text.
abbrev pub set_random_password : {S : Type 0} → (S → String × S) → Conf → S → Conf × S
set_random_password new_uuid conf s =
    let (password, s') = new_uuid s in (set_password password conf, s')

unfoldable pub host : Conf → String
unfolding get
host conf = let h = get "bind" conf in if h == "" then default_host else h

pub port_or : ℤ → Result ℤ → ℤ
port_or d (ok p) = p
port_or d (err e) = d

unfoldable pub port : Conf → ℤ
unfolding get atoi port_or
port conf = elim (atoi (get "port" conf)) [
  | err e ↦ default_port
  | ok p ↦ if eqb_ℤ p (pos 0) then port_or default_tls_port (atoi (get "tls-port" conf)) else p
]

unfoldable pub tls : Conf → Bool
unfolding get
tls conf = not (get "tls-port" conf == "") && get "port" conf == "0"

unfoldable pub password : Conf → String
unfolding get
password conf = get "requirepass" conf

-- An assignment to a key of a Go map, as an association list.
unfoldable pub put_alias : String → String → List (String × String) → List (String × String)
put_alias k v [] = (k, v) ∷ []
put_alias k v ((j, w) ∷ m) = if k == j then (k, v) ∷ m else (j, w) ∷ put_alias k v m

-- The command's name and its alias; `none` is the panic of `args[1]`.
pub alias_of : String → Option (String × String)
alias_of value = elim (split b' ' value) [
  | [] ↦ none
  | original ∷ args ↦ elim args [ [] ↦ none | a ∷ _ ↦ some (original, without_byte b'"' a) ]
]

pub add_aliases : List Param → List (String × String) → Option (List (String × String))
add_aliases [] m = some m
add_aliases (p ∷ ps) m = elim (alias_of p.value) [
  | none ↦ none
  | some (original, a) ↦ add_aliases ps (put_alias original a m)
]

unfoldable pub command_aliases : Conf → Option (List (String × String))
unfolding get_all put_alias alias_of add_aliases
command_aliases conf = add_aliases (get_all "rename-command" conf) []
