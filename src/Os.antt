-- ===== src/Os.antt =====
-- The operating system as the program meets it through Go's `os` and `ioutil`: a tree of files,
-- the calls that the system refuses (for want of a permission or of space, say), and what was
-- logged. File modes are not modelled. A refused call changes nothing.
pub mod Paths
pub mod Files
pub mod Laws
pub mod Under
pub mod Frame
pub mod Names
use cf_redis_broker.Base.{
  String, Bool, true, false, Option, none, some, List, [], ◌∷◌, ◌++◌, Error, not_exist, os_error,
  Result, ok, err, if◌then◌else◌,
}
use cf_redis_broker.Base.Act.{Act}
use cf_redis_broker.Os.Paths.{FilePath}
use cf_redis_broker.Os.Files.{Node, file, dir, Tree}
use cf_redis_broker.Os.Files

pub data Call : Type 0 where
  stat read_file write_file remove remove_all mkdir_all read_dir : FilePath → Call

-- What lager is given: the action, the error of an error entry (Go's `nil` is `none`), the data.
pub data LogEntry : Type 0 where
  info : String → List (String × String) → LogEntry
  error : String → Option Error → List (String × String) → LogEntry

pub record World : Type 0 where
  pub tree : Tree
  pub refuses : Call → Option Error
  pub logs : List LogEntry

-- What stands at a path; the root is always there.
unfoldable pub node_at : FilePath → Tree → Option Node
node_at [] t = some dir
node_at (x ∷ p) t = Files.lookup (x ∷ p) t

-- The call, unless the system refuses it.
abbrev allowed {ℓ} :
    {A : Type ℓ} → Option Error → (World → Result A × World) → World → Result A × World
allowed (some e) f w = (err e, w)
allowed none f w = f w

found : Option Node → Result Node
found none = err not_exist
found (some n) = ok n

text_of : Option Node → Result String
text_of none = err not_exist
text_of (some dir) = err (os_error "is a directory")
text_of (some (file text)) = ok text

-- A new entry wants a directory to stand in.
in_directory : Option Node → Result Tree → Result Tree
in_directory none r = err not_exist
in_directory (some (file text)) r = err (os_error "not a directory")
in_directory (some dir) r = r

put_file : FilePath → String → Tree → Result Tree
put_file [] text t = err (os_error "is a directory")
put_file (x ∷ p) text t = in_directory (node_at p t) (elim (node_at (x ∷ p) t) [
  | some n ↦ elim n [
    | dir ↦ err (os_error "is a directory")
    | file _ ↦ ok (Files.insert (x ∷ p) (file text) t)
  ]
  | none ↦ ok (Files.insert (x ∷ p) (file text) t)
])

take_node : FilePath → Option Node → Tree → Result Tree
take_node p none t = err not_exist
take_node p (some (file text)) t = ok (Files.erase p t)
take_node p (some dir) t = elim (Files.names_in p t) [
  | [] ↦ ok (Files.erase p t)
  | _ ∷ _ ↦ err (os_error "directory not empty")
]

unfoldable pub put_dir : FilePath → Option Node → Result Tree → Tree → Result Tree
put_dir p (some dir) parents t = ok t
put_dir p (some (file text)) parents t = err (os_error "not a directory")
put_dir p none (ok t') t = ok (Files.insert p dir t')
put_dir p none (err e) t = err e

unfoldable pub make_dirs : FilePath → Tree → Result Tree
unfolding put_dir node_at
make_dirs [] t = ok t
make_dirs (x ∷ p) t = put_dir (x ∷ p) (node_at (x ∷ p) t) (make_dirs p t) t

list_dir : FilePath → Option Node → Tree → Result (List String)
list_dir p none t = err not_exist
list_dir p (some (file text)) t = err (os_error "not a directory")
list_dir p (some dir) t = ok (Files.sort (Files.names_in p t))

-- The new tree, or the error and the tree as it was.
replace_tree : Result Tree → World → Result (Unit {0}) × World
replace_tree (ok t) w = (ok tt, record w { tree = t })
replace_tree (err e) w = (err e, w)

-- `os.Stat`
unfoldable pub os_stat : FilePath → Act World Node
unfolding found node_at
os_stat p w = allowed (w.refuses (stat p)) (λ v. (found (node_at p v.tree), v)) w

-- `os.Open`, without the file
unfoldable pub os_open : FilePath → Act World Node
unfolding found node_at
os_open p w = allowed (w.refuses (read_file p)) (λ v. (found (node_at p v.tree), v)) w

-- `ioutil.ReadFile`
unfoldable pub read_text : FilePath → Act World String
unfolding text_of node_at
read_text p w = allowed (w.refuses (read_file p)) (λ v. (text_of (node_at p v.tree), v)) w

-- `ioutil.WriteFile`, and `os.Create` with the empty text
unfoldable pub write_text : FilePath → String → Act World (Unit {0})
unfolding put_file in_directory node_at replace_tree
write_text p text w =
    allowed (w.refuses (write_file p)) (λ v. replace_tree (put_file p text v.tree) v) w

-- `os.Remove`
unfoldable pub os_remove : FilePath → Act World (Unit {0})
unfolding take_node node_at replace_tree
os_remove p w =
    allowed (w.refuses (remove p)) (λ v. replace_tree (take_node p (node_at p v.tree) v.tree) v) w

-- `os.RemoveAll`: a path that is not there is no error.
unfoldable pub os_remove_all : FilePath → Act World (Unit {0})
os_remove_all p w =
    allowed (w.refuses (remove_all p))
      (λ v. (ok tt, record v { tree = Files.erase_under p v.tree })) w

-- `os.MkdirAll`
unfoldable pub os_mkdir_all : FilePath → Act World (Unit {0})
unfolding replace_tree
os_mkdir_all p w = allowed (w.refuses (mkdir_all p)) (λ v. replace_tree (make_dirs p v.tree) v) w

-- `ioutil.ReadDir`: the names in the directory, sorted
unfoldable pub os_read_dir : FilePath → Act World (List String)
unfolding list_dir node_at
os_read_dir p w =
    allowed (w.refuses (read_dir p)) (λ v. (list_dir p (node_at p v.tree) v.tree, v)) w

-- `logger.Info`
abbrev pub log_info : String → List (String × String) → World → World
log_info action details w = record w { logs = w.logs ++ info action details ∷ [] }

-- `logger.Error`
abbrev pub log_error : String → Option Error → List (String × String) → World → World
log_error action e details w = record w { logs = w.logs ++ error action e details ∷ [] }

-- The state is changed, and nothing can fail.
abbrev pub always : (World → World) → Act World (Unit {0})
always f w = (ok tt, f w)
