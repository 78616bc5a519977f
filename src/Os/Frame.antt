-- ===== src/Os/Frame.antt =====
-- What a call leaves as it was: the node at a path, and what the system refuses.
use cf_redis_broker.Base.{
  ◌≡◌, refl, ap, String, false, [], ◌∷◌, arith, inl, inr, Result, ok, err, Result-cases,
}
use cf_redis_broker.Base.Act.{Act}
use cf_redis_broker.Os.{
  World, node_at, put_dir, make_dirs, write_text, os_remove, os_remove_all, os_mkdir_all,
}
use cf_redis_broker.Os.Paths.{FilePath, same, is_under}
use cf_redis_broker.Os.Under.{is_under-cons_false}
use cf_redis_broker.Os.Files.{Tree, dir, lookup, lookup-insert, lookup-erase_under}
use cf_redis_broker.Os.Laws.{write_text_other, write_text_refuses, remove_other}

-- From the one world to the other, the node at `q` and the refusals stay.
abbrev pub Stays : FilePath → World → World → Type 0
Stays q w w' = (lookup q w'.tree ≡ lookup q w.tree) × (w'.refuses ≡ w.refuses)

abbrev pub Keeps : {A : Type 0} → FilePath → Act World A → Type 0
Keeps q m = (w : World) → Stays q w (m w).1

module _ (q : FilePath) where
  pub Keeps-write_text :
      (p : FilePath) (text : String) → same p q ≡ false → Keeps q (write_text p text)
  Keeps-write_text p text apart w = (write_text_other p q text w apart, write_text_refuses p text w)

  pub Keeps-os_remove : (p : FilePath) → same p q ≡ false → Keeps q (os_remove p)
  Keeps-os_remove p apart w = remove_other p q w apart

  pub Keeps-os_remove_all : (p : FilePath) → is_under p q ≡ false → Keeps q (os_remove_all p)
  unfolding os_remove_all
  Keeps-os_remove_all p apart w = ground (arith, lookup-erase_under p q w.tree)

  put_dir_other :
      (p : FilePath) (r : Result Tree) (t t' : Tree)
      → same p q ≡ false
      → ((t₁ : Tree) → r ≡ ok t₁ → lookup q t₁ ≡ lookup q t)
      → put_dir p (lookup p t) r t ≡ ok t'
      → lookup q t' ≡ lookup q t
  unfolding put_dir
  put_dir_other p (ok t₁) t t' apart keep made =
      ground (arith, keep t₁ refl, lookup-insert p q dir t₁)
  put_dir_other p (err e) t t' apart keep made = ground arith

  make_dirs_other :
      (p : FilePath) (t t' : Tree)
      → is_under q p ≡ false
      → make_dirs p t ≡ ok t'
      → lookup q t' ≡ lookup q t
  unfolding make_dirs node_at
  make_dirs_other [] t t' apart made = ground arith
  make_dirs_other (x ∷ p) t t' apart made =
      put_dir_other (x ∷ p) (make_dirs p t) t t' (is_under-cons_false q x p apart).0
        (λ t₁ h. make_dirs_other p t t₁ (is_under-cons_false q x p apart).1 h) made

  pub Keeps-os_mkdir_all : (p : FilePath) → is_under q p ≡ false → Keeps q (os_mkdir_all p)
  unfolding os_mkdir_all
  Keeps-os_mkdir_all p apart w = elim (Result-cases (make_dirs p w.tree)) [
    | inl (e, bad) ↦ ground arith
    | inr (t', made) ↦ ground (arith, make_dirs_other p w.tree t' apart made)
  ]

  pub Keeps-reads : {A : Type 0} (m : Act World A) → ((w : World) → (m w).1 ≡ w) → Keeps q m
  Keeps-reads m reads w =
      (ap (λ (v : World). lookup q v.tree) (reads w), ap (λ (v : World). v.refuses) (reads w))
