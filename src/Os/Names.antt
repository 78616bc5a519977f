-- ===== src/Os/Names.antt =====
-- How many names a directory has, before and after a call.
use cf_redis_broker.Base.{
  ◌∙◌, ◌⊎◌, Option, ℕ, suc, ◌≤◌, ◌≡◌, refl, ap, subst, String, Bool, false, Bool-cases, some, none,
  List, [], ◌∷◌, arith, length, inl, inr, Result, Result-cases, ok, err,
}
use cf_redis_broker.Os.{
  World, node_at, put_dir, make_dirs, os_read_dir, write_text, os_remove, os_remove_all,
  os_mkdir_all,
}
use cf_redis_broker.Os.Paths.{FilePath, same, same_iff, is_under}
use cf_redis_broker.Os.Under.{is_under_longer}
use cf_redis_broker.Os.Files.{
  Tree, Node, file, dir, lookup, names_in, name_in-length, is_in, insert, erase, erase_under,
  sort-length,
}
use cf_redis_broker.Os.Laws.{write_text_effect, remove_effect}

-- The number of the names in a directory.
unfoldable pub name_count : FilePath → Tree → ℕ
name_count d t = length (names_in d t)

-- The path stands below the directory.
unfoldable pub is_strictly_under : FilePath → FilePath → Bool
is_strictly_under d [] = false
is_strictly_under d (x ∷ p) = is_under d p

own_parents : (d : FilePath) → is_strictly_under d d ≡ false
unfolding is_strictly_under
own_parents [] = refl
own_parents (x ∷ d) = is_under_longer x d

pub not_strictly :
    (d p : FilePath) → is_under d p ≡ false → (same d p ≡ false) × (is_strictly_under d p ≡ false)
unfolding is_under is_strictly_under
not_strictly d [] h = ground arith
not_strictly d (x ∷ p) h = ground arith

put_dir_cases :
    (p : FilePath) (o : Option Node) (r : Result Tree) (t t' : Tree)
    → put_dir p o r t ≡ ok t'
    → (t' ≡ t) ⊎ ((t₁ : Tree) × (r ≡ ok t₁) × (t' ≡ insert p dir t₁))
unfolding put_dir
put_dir_cases p (some dir) r t t' made = inl (ground arith)
put_dir_cases p (some (file text)) r t t' made = absurd (ground arith)
put_dir_cases p none (ok t₁) t t' made = inr (t₁, refl, ground arith)
put_dir_cases p none (err e) t t' made = absurd (ground arith)

module _ (d : FilePath) where
  pub count-insert_other :
      (p : FilePath) (n : Node) (t : Tree)
      → is_in d p ≡ false
      → name_count d (insert p n t) ≡ name_count d t
  unfolding name_count names_in insert
  count-insert_other p n [] other = ground (arith, name_in-length d p [])
  count-insert_other p n ((q, m) ∷ t) other = ground (
    arith,
    same_iff p q,
    count-insert_other p n t other,
    name_in-length d p (names_in d t),
    name_in-length d q (names_in d t),
    name_in-length d q (names_in d (insert p n t)),
  )

  pub count-insert :
      (p : FilePath) (n : Node) (t : Tree) → name_count d (insert p n t) ≤ suc (name_count d t)
  unfolding name_count names_in insert
  count-insert p n [] = ground (arith, name_in-length d p [])
  count-insert p n ((q, m) ∷ t) = ground (
    arith,
    same_iff p q,
    count-insert p n t,
    name_in-length d p (names_in d t),
    name_in-length d q (names_in d t),
    name_in-length d q (names_in d (insert p n t)),
  )

  count-erase : (p : FilePath) (t : Tree) → name_count d (erase p t) ≤ name_count d t
  unfolding name_count names_in erase
  count-erase p [] = omega arith
  count-erase p ((q, m) ∷ t) = ground (
    arith,
    count-erase p t,
    name_in-length d q (names_in d t),
    name_in-length d q (names_in d (erase p t)),
  )

  count-erase_under : (p : FilePath) (t : Tree) → name_count d (erase_under p t) ≤ name_count d t
  unfolding name_count names_in erase_under
  count-erase_under p [] = omega arith
  count-erase_under p ((q, m) ∷ t) = ground (
    arith,
    count-erase_under p t,
    name_in-length d q (names_in d t),
    name_in-length d q (names_in d (erase_under p t)),
  )

  count-make_dirs_other :
      (p : FilePath) (t t' : Tree)
      → is_strictly_under d p ≡ false
      → make_dirs p t ≡ ok t'
      → name_count d t' ≡ name_count d t
  unfolding make_dirs node_at is_strictly_under is_in same
  count-make_dirs_other [] t t' other made = ground (arith, ap (name_count d))
  count-make_dirs_other (x ∷ p) t t' other made =
      elim (put_dir_cases (x ∷ p) (lookup (x ∷ p) t) (make_dirs p t) t t' made) [
        | inl e ↦ ap (name_count d) e
        | inr (t₁, parents, e) ↦
            let (not_in, not_below) = not_strictly d p other in
            ap (name_count d) e
            ∙ count-insert_other (x ∷ p) dir t₁ not_in
            ∙ count-make_dirs_other p t t₁ not_below parents
      ]

  count-make_dirs :
      (p : FilePath) (t t' : Tree) → make_dirs p t ≡ ok t' → name_count d t' ≤ suc (name_count d t)
  unfolding make_dirs node_at is_in same
  count-make_dirs [] t t' made = ground arith
  count-make_dirs (x ∷ p) t t' made =
      elim (put_dir_cases (x ∷ p) (lookup (x ∷ p) t) (make_dirs p t) t t' made) [
        | inl e ↦ omega (arith, ap (name_count d) e)
        | inr (t₁, parents, e) ↦ elim (Bool-cases (same d p)) [
          | inl at ↦
              let below : is_strictly_under d p ≡ false =
                subst (λ q. is_strictly_under d q ≡ false) ((same_iff d p).0 at) (own_parents d) in
              omega (
                arith,
                ap (name_count d) e,
                count-insert (x ∷ p) dir t₁,
                count-make_dirs_other p t t₁ below parents,
              )
          | inr other ↦ omega (
            arith,
            ap (name_count d) e,
            count-insert_other (x ∷ p) dir t₁ other,
            count-make_dirs p t t₁ parents,
          )
        ]
      ]

  -- Whatever the call returns.
  abbrev pub NoMore : World → World → Type 0
  NoMore w w' = name_count d w'.tree ≤ name_count d w.tree

  pub write_text-NoMore :
      (p : FilePath) (text : String) (w : World)
      → is_in d p ≡ false
      → NoMore w (write_text p text w).1
  write_text-NoMore p text w other = elim (write_text_effect p text w) [
    | inl e ↦ rw e (omega (arith, count-insert_other p (file text) w.tree other))
    | inr (x, e) ↦ rw e (omega arith)
  ]

  pub remove-NoMore : (p : FilePath) (w : World) → NoMore w (os_remove p w).1
  remove-NoMore p w = elim (remove_effect p w) [
    | inl e ↦ rw e (omega arith)
    | inr e ↦ rw e (count-erase p w.tree)
  ]

  pub remove_all-NoMore : (p : FilePath) (w : World) → NoMore w (os_remove_all p w).1
  unfolding os_remove_all
  remove_all-NoMore p w = ground (arith, count-erase_under p w.tree)

  pub mkdir_all-NoMore :
      (p : FilePath) (w : World) → is_strictly_under d p ≡ false → NoMore w (os_mkdir_all p w).1
  unfolding os_mkdir_all
  mkdir_all-NoMore p w other = elim (Result-cases (make_dirs p w.tree)) [
    | inl (e, bad) ↦ ground arith
    | inr (t', made) ↦ ground (arith, count-make_dirs_other p w.tree t' other made)
  ]

  -- One call adds at most one name, whatever the path is.
  pub mkdir_all_one :
      (p : FilePath) (w : World)
      → name_count d (os_mkdir_all p w).1.tree ≤ suc (name_count d w.tree)
  unfolding os_mkdir_all
  mkdir_all_one p w = elim (Result-cases (make_dirs p w.tree)) [
    | inl (e, bad) ↦ ground arith
    | inr (t', made) ↦ ground (arith, count-make_dirs p w.tree t' made)
  ]

  pub read_dir-length :
      (names : List String) (w : World)
      → (os_read_dir d w).0 ≡ ok names
      → length names ≡ name_count d w.tree
  unfolding os_read_dir name_count
  read_dir-length names w h = ground (arith, sort-length (names_in d w.tree))
