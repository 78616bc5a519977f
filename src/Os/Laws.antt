-- ===== src/Os/Laws.antt =====
-- What the calls of the operating system leave behind.
use cf_redis_broker.Base.{
  ap, ◌∙◌, false, Option-cases, Result-cases, ◌⊎◌, inl, inr, ◌≡◌, refl, String, none, some, [], ◌∷◌,
  arith, Error, Result, ok, err,
}
use cf_redis_broker.Os.{
  World, read_file, node_at, put_dir, make_dirs, read_text, write_text, os_remove, os_remove_all,
  os_mkdir_all,
}
use cf_redis_broker.Os.Paths.{same, FilePath, same_iff}
use cf_redis_broker.Os.Files.{
  Node, lookup-erase, erase, erase_under, file, dir, Tree, lookup, insert, lookup-insert,
}

module _ (p : FilePath) (text : String) (w : World) where
  -- A write that succeeds puts the file there, and changes nothing else.
  pub write_text_ok :
      (w' : World)
      → write_text p text w ≡ (ok tt, w')
      → w' ≡ record w { tree = insert p (file text) w.tree }
  unfolding write_text
  write_text_ok w' h = ground arith

  pub write_text_err : (e : Error) (w' : World) → write_text p text w ≡ (err e, w') → w' ≡ w
  unfolding write_text
  write_text_err e w' h = ground arith

pub read_text_reads : (p : FilePath) (w : World) → (read_text p w).1 ≡ w
unfolding read_text
read_text_reads p w = ground arith

pub read_text_file :
    (x : String) (p : FilePath) (text : String) (w : World)
    → w.refuses (read_file (x ∷ p)) ≡ none
    → lookup (x ∷ p) w.tree ≡ some (file text)
    → read_text (x ∷ p) w ≡ (ok text, w)
unfolding read_text
read_text_file x p text w free there = ground arith

-- What `read_text` returned stands there.
pub read_text_ok :
    (p : FilePath) (text : String) (w w' : World)
    → read_text p w ≡ (ok text, w')
    → (node_at p w.tree ≡ some (file text)) × (w.refuses (read_file p) ≡ none)
unfolding read_text
read_text_ok p text w w' h = ground arith

-- New directories replace no file.
put_dir_file :
    (q p : FilePath) (text : String) (r : Result Tree) (t t' : Tree)
    → lookup q t ≡ some (file text)
    → ((t₁ : Tree) → r ≡ ok t₁ → lookup q t₁ ≡ some (file text))
    → put_dir p (lookup p t) r t ≡ ok t'
    → lookup q t' ≡ some (file text)
unfolding put_dir
put_dir_file q p text (ok t₁) t t' there keep made =
    ground (arith, keep t₁ refl, lookup-insert p q dir t₁, same_iff p q)
put_dir_file q p text (err e) t t' there keep made = ground arith

make_dirs_file :
    (q : FilePath) (text : String) (p : FilePath) (t t' : Tree)
    → lookup q t ≡ some (file text)
    → make_dirs p t ≡ ok t'
    → lookup q t' ≡ some (file text)
unfolding make_dirs node_at
make_dirs_file q text [] t t' there made = ground arith
make_dirs_file q text (x ∷ p) t t' there made =
    put_dir_file q (x ∷ p) text (make_dirs p t) t t' there
      (λ t₁ h. make_dirs_file q text p t t₁ there h) made

pub mkdir_all_file :
    (q : FilePath) (text : String) (p : FilePath) (w w' : World)
    → lookup q w.tree ≡ some (file text)
    → os_mkdir_all p w ≡ (ok tt, w')
    → lookup q w'.tree ≡ some (file text)
unfolding os_mkdir_all
mkdir_all_file q text p w w' there made =
    ground (arith, make_dirs_file q text p w.tree w'.tree there)

-- Whatever the call returns, the refusals are as before.
pub mkdir_all_refuses : (p : FilePath) (w : World) → (os_mkdir_all p w).1.refuses ≡ w.refuses
unfolding os_mkdir_all
mkdir_all_refuses p w = ground arith

pub write_text_refuses :
    (p : FilePath) (text : String) (w : World) → (write_text p text w).1.refuses ≡ w.refuses
unfolding write_text
write_text_refuses p text w = ground arith

pub read_text_at :
    (p : FilePath) (text : String) (w : World)
    → node_at p w.tree ≡ some (file text)
    → (read_text p w ≡ (ok text, w)) ⊎ ((e : Error) × (read_text p w ≡ (err e, w)))
unfolding read_text
read_text_at p text w there = elim (Option-cases (w.refuses (read_file p))) [
  | inl free ↦ inl (ground arith)
  | inr (e, refused) ↦ inr (e, ground arith)
]

-- A file does not stand at the root, so the tree itself holds it.
pub node_at_file :
    (p : FilePath) (text : String) (t : Tree)
    → node_at p t ≡ some (file text)
    → (lookup p t ≡ some (file text))
unfolding node_at
node_at_file [] text t h = absurd (ground arith)
node_at_file (x ∷ p) text t h = h

pub node_at_moved :
    (p : FilePath) (text : String) (t t' : Tree)
    → node_at p t ≡ some (file text)
    → lookup p t' ≡ some (file text)
    → node_at p t' ≡ some (file text)
unfolding node_at
node_at_moved [] text t t' h h' = h
node_at_moved (x ∷ p) text t t' h h' = h'

pub remove_all_ok :
    (p : FilePath) (w w' : World)
    → os_remove_all p w ≡ (ok tt, w')
    → w' ≡ record w { tree = erase_under p w.tree }
unfolding os_remove_all
remove_all_ok p w w' h = ground arith

-- A removed path is gone and every other is as it was; a failed removal changes nothing.
pub remove_effect :
    (p : FilePath) (w : World)
    → ((os_remove p w).1 ≡ w) ⊎ ((os_remove p w).1 ≡ record w { tree = erase p w.tree })
unfolding os_remove
remove_effect p w = ground arith

-- A directory that is made is no file.
put_dir_no_file :
    (q p : FilePath) (text : String) (r : Result Tree) (t t' : Tree)
    → ((t₁ : Tree) → r ≡ ok t₁ → lookup q t₁ ≡ some (file text) → lookup q t ≡ some (file text))
    → put_dir p (lookup p t) r t ≡ ok t'
    → lookup q t' ≡ some (file text)
    → lookup q t ≡ some (file text)
unfolding put_dir
put_dir_no_file q p text (ok t₁) t t' keep made there =
    ground (arith, keep t₁ refl, lookup-insert p q dir t₁, same_iff p q)
put_dir_no_file q p text (err e) t t' keep made there = ground arith

make_dirs_no_file :
    (q : FilePath) (text : String) (p : FilePath) (t t' : Tree)
    → make_dirs p t ≡ ok t'
    → lookup q t' ≡ some (file text)
    → lookup q t ≡ some (file text)
unfolding make_dirs node_at
make_dirs_no_file q text [] t t' made there = ground arith
make_dirs_no_file q text (x ∷ p) t t' made there =
    put_dir_no_file q (x ∷ p) text (make_dirs p t) t t' (λ t₁ h. make_dirs_no_file q text p t t₁ h)
      made there

-- Whatever the call returns, a file that stands there afterwards stood there before.
pub mkdir_all_no_file :
    (q : FilePath) (text : String) (p : FilePath) (w : World)
    → lookup q (os_mkdir_all p w).1.tree ≡ some (file text)
    → lookup q w.tree ≡ some (file text)
unfolding os_mkdir_all
mkdir_all_no_file q text p w there = elim (Result-cases (make_dirs p w.tree)) [
  | inl (e, bad) ↦ ground arith
  | inr (t', made) ↦ ground (arith, make_dirs_no_file q text p w.tree t' made)
]

-- What a write leaves at another path is what stood there.
pub write_text_other :
    (p q : FilePath) (text : String) (w : World)
    → same p q ≡ false
    → lookup q (write_text p text w).1.tree ≡ lookup q w.tree
unfolding write_text
write_text_other p q text w apart = ground (arith, lookup-insert p q (file text) w.tree)

-- A write puts the file there, or fails and changes nothing.
pub write_text_effect :
    (p : FilePath) (text : String) (w : World)
    → (write_text p text w ≡ (ok tt, record w { tree = insert p (file text) w.tree }))
      ⊎ ((e : Error) × (write_text p text w ≡ (err e, w)))
write_text_effect p text w = elim (Result-cases (write_text p text w).0) [
  | inl (e, bad) ↦ inr (e, ground (arith, write_text_err p text w e (write_text p text w).1))
  | inr (u, good) ↦ inl (ground (arith, write_text_ok p text w (write_text p text w).1))
]

pub node_at-insert :
    (p q : FilePath) (n : Node) (t : Tree)
    → same p q ≡ false
    → node_at q (insert p n t) ≡ node_at q t
unfolding node_at
node_at-insert p [] n t apart = refl
node_at-insert p (x ∷ q) n t apart = rw (lookup-insert, apart)

pub node_at-lookup :
    (q : FilePath) (t t' : Tree) → lookup q t ≡ lookup q t' → node_at q t ≡ node_at q t'
unfolding node_at
node_at-lookup [] t t' e = refl
node_at-lookup (x ∷ q) t t' e = e

-- A file is written only into a directory.
pub write_text_parent :
    (x : String) (p : FilePath) (text : String) (w w' : World)
    → write_text (x ∷ p) text w ≡ (ok tt, w')
    → node_at p w.tree ≡ some dir
unfolding write_text
write_text_parent x p text w w' h = ground arith

pub remove_other :
    (p q : FilePath) (w : World)
    → same p q ≡ false
    → (lookup q (os_remove p w).1.tree ≡ lookup q w.tree) × ((os_remove p w).1.refuses ≡ w.refuses)
remove_other p q w apart = elim (remove_effect p w) [
  | inl e ↦ (ap (λ (v : World). lookup q v.tree) e, ap (λ (v : World). v.refuses) e)
  | inr e ↦ (
    ap (λ (v : World). lookup q v.tree) e ∙ rw (lookup-erase, apart),
    ap (λ (v : World). v.refuses) e,
  )
]

pub node_at-none :
    (x : String) (p : FilePath) (t : Tree) → lookup (x ∷ p) t ≡ none → node_at (x ∷ p) t ≡ none
unfolding node_at
node_at-none x p t h = h

-- A path that was removed is gone.
pub remove_ok :
    (p : FilePath) (w w' : World) → os_remove p w ≡ (ok tt, w') → lookup p w'.tree ≡ none
unfolding os_remove
remove_ok p w w' h = ground (arith, lookup-erase p p w.tree, (same_iff p p).1 refl)
