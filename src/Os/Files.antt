-- ===== src/Os/Files.antt =====
-- The tree of files: what stands at each path. The operations stay shut in proofs elsewhere, which
-- go by the laws of `lookup` and of `names_in`.
use text.Mathlib.Text.{is_lt}
use Prim.Native.String.{compare}
use cf_redis_broker.Base.{
  Bool, false, suc, length, refl, ◌≡◌, String, Option, none, some, List, [], ◌∷◌, arith,
  if◌then◌else◌,
}
use cf_redis_broker.Os.Paths.{FilePath, same, same_iff, is_under}

pub data Node : Type 0 where
  file : String → Node
  dir : Node

abbrev pub Tree : Type 0
Tree = List (FilePath × Node)

unfoldable pub lookup : FilePath → Tree → Option Node
unfolding same
lookup p [] = none
lookup p ((q, n) ∷ t) = if same p q then some n else lookup p t

unfoldable pub insert : FilePath → Node → Tree → Tree
unfolding same
insert p n [] = (p, n) ∷ []
insert p n ((q, m) ∷ t) = if same p q then (p, n) ∷ t else (q, m) ∷ insert p n t

unfoldable pub erase : FilePath → Tree → Tree
unfolding same
erase p [] = []
erase p ((q, m) ∷ t) = let rest = erase p t in if same p q then rest else (q, m) ∷ rest

-- Without a directory and all below it.
unfoldable pub erase_under : FilePath → Tree → Tree
unfolding is_under
erase_under d [] = []
erase_under d ((q, m) ∷ t) =
    let rest = erase_under d t in if is_under d q then rest else (q, m) ∷ rest

-- The name, if the path stands right in the directory.
pub name_in : FilePath → FilePath → List String → List String
name_in d [] names = names
name_in d (x ∷ q) names = if same d q then x ∷ names else names

unfoldable pub names_in : FilePath → Tree → List String
unfolding name_in same
names_in d [] = []
names_in d ((q, m) ∷ t) = name_in d q (names_in d t)

insert_sorted : String → List String → List String
insert_sorted x [] = x ∷ []
insert_sorted x (y ∷ ys) = if is_lt (compare y x) then y ∷ insert_sorted x ys else x ∷ y ∷ ys

-- In the order in which `ioutil.ReadDir` gives them.
unfoldable pub sort : List String → List String
unfolding insert_sorted
sort [] = []
sort (x ∷ xs) = insert_sorted x (sort xs)

-- The path stands right in the directory.
unfoldable pub is_in : FilePath → FilePath → Bool
unfolding same
is_in d [] = false
is_in d (x ∷ p) = same d p

pub name_in-length :
    (d q : FilePath) (names : List String)
    → length (name_in d q names) ≡ (if is_in d q then suc (length names) else length names)
unfolding name_in is_in
name_in-length d [] names = refl
name_in-length d (x ∷ q) names = ground arith

insert_sorted-length :
    (x : String) (ys : List String) → length (insert_sorted x ys) ≡ suc (length ys)
unfolding insert_sorted
insert_sorted-length x [] = refl
insert_sorted-length x (y ∷ ys) = ground (arith, insert_sorted-length x ys)

pub sort-length : (xs : List String) → length (sort xs) ≡ length xs
unfolding sort
sort-length [] = refl
sort-length (x ∷ xs) = omega (arith, insert_sorted-length x (sort xs), sort-length xs)

module _ (p q : FilePath) where
  pub lookup-insert :
      (n : Node) (t : Tree) → lookup q (insert p n t) ≡ (if same p q then some n else lookup q t)
  unfolding lookup insert
  lookup-insert n [] = ground (arith, same_iff p q, same_iff q p)
  lookup-insert n ((r, m) ∷ t) =
      ground (arith, same_iff p q, same_iff q p, same_iff p r, same_iff q r, lookup-insert n t)

  pub lookup-erase : (t : Tree) → lookup q (erase p t) ≡ (if same p q then none else lookup q t)
  unfolding lookup erase
  lookup-erase [] = ground arith
  lookup-erase ((r, m) ∷ t) =
      ground (arith, same_iff p q, same_iff p r, same_iff q r, lookup-erase t)

  pub lookup-erase_under :
      (t : Tree) → lookup q (erase_under p t) ≡ (if is_under p q then none else lookup q t)
  unfolding lookup erase_under
  lookup-erase_under [] = ground arith
  lookup-erase_under ((r, m) ∷ t) = ground (arith, same_iff q r, lookup-erase_under t)

pub lookup-insert_self : (p : FilePath) (n : Node) (t : Tree) → lookup p (insert p n t) ≡ some n
lookup-insert_self p n t = rw lookup-insert (ground (arith, same_iff p p))
