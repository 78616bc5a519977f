-- ===== src/Cmd/Turns/Unlocked/Guarded.antt =====
-- cmd/broker/main.go and cmd/processmonitor/main.go: each step of the two programs keeps the new
-- instance either unknown or locked.
use cf_redis_broker.Base.{
  subst, ◌≡◌, ap, ◌∙◌, true, false, Bool-cases, inl, inr, ◌==◌, eq_iff, Option, none, some, List,
  ◌∷◌, All, arith, ℤ, Error, Result, Result-cases, ok, err,
}
use cf_redis_broker.Os.{World, stat, node_at, os_stat}
use cf_redis_broker.Os.Paths.{FilePath, join}
use cf_redis_broker.Os.Files.{file, lookup}
use cf_redis_broker.Redis.Instance.{Instance}
use cf_redis_broker.Redis.Repository.{LocalRepository, instance_base_dir}
use cf_redis_broker.Cmd.Turns.Unlocked.Listed.{listing_differs}
use cf_redis_broker.Redis.Repository.Listing.{all_instances}
use cf_redis_broker.Redis.Process.{OsProcessController}
use cf_redis_broker.Cmd.Turns.{
  following, chosen_by, monitor_lists, monitor_looks, Phase, making, locking, configuring, starting,
  unlocking, finished, Turn, call, broker_moves,
}
use cf_redis_broker.Cmd.Turns.Unlocked.Calls.{
  lock_path, conf_path, IsKept, call_making, call_locking, call_locked, call_configuring,
  call_starting, call_unlocking, call_refuses, stat_reads, listed, conf_missing,
}

module _ (repo : LocalRepository) (controller : OsProcessController) (timeout : ℤ) (i : Instance)
    (kept : IsKept repo controller i) where
  -- The monitor is not about to start the new instance.
  abbrev pub IsOther : Instance → Type 0
  IsOther j = (j.id == i.id) ≡ false

  abbrev pub NotChosen : Option Instance → Type 0
  NotChosen none = Unit
  NotChosen (some j) = IsOther j

  -- Up to the lock the instance has no configuration, and the monitor does not know of it.
  abbrev pub IsUnknown : Turn → Type 0
  IsUnknown t =
      (lookup (conf_path repo i) t.world.tree ≡ none) × All IsOther t.round × NotChosen t.chosen

  -- Then its lock is there.
  abbrev pub IsHeld : Turn → Type 0
  IsHeld t = (lookup (lock_path repo i) t.world.tree ≡ some (file "")) × NotChosen t.chosen

  abbrev pub IsGuarded : Phase → Turn → Type 0
  IsGuarded making t = IsUnknown t
  IsGuarded locking t = IsUnknown t
  IsGuarded configuring t = IsHeld t
  IsGuarded starting t = IsHeld t
  IsGuarded unlocking t = IsHeld t
  IsGuarded finished t = Unit

  abbrev pub Invariant : Turn → Type 0
  Invariant t = (t.world.refuses (stat (lock_path repo i)) ≡ none) × IsGuarded t.phase t

  abbrev pub after : Phase → World → World
  after p w = (call repo controller timeout i p w).1

  pub IsGuarded-ok :
      (p : Phase) (t : Turn)
      → IsGuarded p t
      → (call repo controller timeout i p t.world).0 ≡ ok tt
      → IsGuarded (following p) (record t { world = after p t.world; phase = following p })
  IsGuarded-ok making t (missing, rest, chosen) done =
      ((call_making repo controller timeout i kept t.world).0 ∙ missing, rest, chosen)
  IsGuarded-ok locking t (missing, rest, chosen) done =
      (call_locked repo controller timeout i kept t.world done, chosen)
  IsGuarded-ok configuring t (held, chosen) done =
      ((call_configuring repo controller timeout i kept t.world).0 ∙ held, chosen)
  IsGuarded-ok starting t (held, chosen) done =
      ((call_starting repo controller timeout i kept t.world).0 ∙ held, chosen)
  IsGuarded-ok unlocking t guarded done = tt
  IsGuarded-ok finished t guarded done = tt

  pub IsGuarded-err :
      (p : Phase) (t : Turn) (e : Error)
      → IsGuarded p t
      → (call repo controller timeout i p t.world).0 ≡ err e
      → IsGuarded p (record t { world = after p t.world; failed = true })
  IsGuarded-err making t e (missing, rest, chosen) bad =
      ((call_making repo controller timeout i kept t.world).0 ∙ missing, rest, chosen)
  IsGuarded-err locking t e (missing, rest, chosen) bad =
      ((call_locking repo controller timeout i kept t.world).0 ∙ missing, rest, chosen)
  IsGuarded-err configuring t e (held, chosen) bad =
      ((call_configuring repo controller timeout i kept t.world).0 ∙ held, chosen)
  IsGuarded-err starting t e (held, chosen) bad =
      ((call_starting repo controller timeout i kept t.world).0 ∙ held, chosen)
  IsGuarded-err unlocking t e (held, chosen) bad = (
    ap (λ (w : World). lookup (lock_path repo i) w.tree)
          ((call_unlocking repo controller timeout i kept t.world).1 e bad)
        ∙ held,
    chosen,
  )
  IsGuarded-err finished t e guarded bad = tt

  pub broker-Invariant :
      (t : Turn) → Invariant t → Invariant (broker_moves repo controller timeout i t)
  broker-Invariant t (free, guarded) =
      let free' : (after t.phase t.world).refuses (stat (lock_path repo i)) ≡ none =
        ap (λ r. r (stat (lock_path repo i)))
          (call_refuses repo controller timeout i kept t.phase t.world)
        ∙ free in
      elim (Result-cases (call repo controller timeout i t.phase t.world).0) [
        | inl (e, bad) ↦ rw bad (free', IsGuarded-err t.phase t e guarded bad)
        | inr (u, done) ↦ rw done (free', IsGuarded-ok t.phase t guarded done)
      ]

  -- A change of the files that leaves both alone, with no instance chosen that was not.
  pub stays-IsGuarded :
      (p : Phase) (t u : Turn)
      → IsGuarded p t
      → lookup (lock_path repo i) u.world.tree ≡ lookup (lock_path repo i) t.world.tree
      → lookup (conf_path repo i) u.world.tree ≡ lookup (conf_path repo i) t.world.tree
      → (All IsOther t.round → All IsOther u.round)
      → (NotChosen t.chosen → NotChosen u.chosen)
      → IsGuarded p u
  stays-IsGuarded making t u (missing, rest, chosen) lock_stays conf_stays round_kept chosen_kept =
      (conf_stays ∙ missing, round_kept rest, chosen_kept chosen)
  stays-IsGuarded locking t u (missing, rest, chosen) lock_stays conf_stays round_kept chosen_kept =
      (conf_stays ∙ missing, round_kept rest, chosen_kept chosen)
  stays-IsGuarded configuring t u (held, chosen) lock_stays conf_stays round_kept chosen_kept =
      (lock_stays ∙ held, chosen_kept chosen)
  stays-IsGuarded starting t u (held, chosen) lock_stays conf_stays round_kept chosen_kept =
      (lock_stays ∙ held, chosen_kept chosen)
  stays-IsGuarded unlocking t u (held, chosen) lock_stays conf_stays round_kept chosen_kept =
      (lock_stays ∙ held, chosen_kept chosen)
  stays-IsGuarded finished t u guarded lock_stays conf_stays round_kept chosen_kept = tt

  pub other_chosen :
      {A : Type 0} (r : Result A) (j : Instance) → IsOther j → NotChosen (chosen_by r j)
  other_chosen (ok node) j other = tt
  other_chosen (err e) j other = other

  -- A lock that is there keeps the monitor off.
  pub lock_found :
      (j : Instance) (w : World)
      → w.refuses (stat (lock_path repo i)) ≡ none
      → lookup (lock_path repo i) w.tree ≡ some (file "")
      → j.id ≡ i.id
      → (os_stat (join (instance_base_dir repo j.id) "lock") w).0 ≡ ok (file "")
  unfolding os_stat node_at join
  lock_found j w free held same_id = rw same_id (ground (arith, free, held))

  pub held_chosen :
      (j : Instance) (w : World)
      → w.refuses (stat (lock_path repo i)) ≡ none
      → lookup (lock_path repo i) w.tree ≡ some (file "")
      → NotChosen (chosen_by (os_stat (join (instance_base_dir repo j.id) "lock") w).0 j)
  held_chosen j w free held = elim (Bool-cases (j.id == i.id)) [
    | inl e ↦ rw (lock_found j w free held ((eq_iff j.id i.id).0 e)) tt
    | inr e ↦ other_chosen (os_stat (join (instance_base_dir repo j.id) "lock") w).0 j e
  ]

  abbrev pub looked : Turn → Instance → World
  looked t j = (os_stat (join (instance_base_dir repo j.id) "lock") t.world).1

  pub looked_keeps :
      (q : FilePath) (t : Turn) (j : Instance) → lookup q (looked t j).tree ≡ lookup q t.world.tree
  looked_keeps q t j =
      ap (λ (w : World). lookup q w.tree) (stat_reads repo controller timeout i kept _ t.world)

  pub looks-IsGuarded :
      (p : Phase) (t : Turn) (j : Instance) (rest : List Instance)
      → t.world.refuses (stat (lock_path repo i)) ≡ none
      → t.round ≡ j ∷ rest
      → IsGuarded p t
      → IsGuarded p (monitor_looks repo controller timeout i j rest t)
  looks-IsGuarded making t j rest free at (missing, round, chosen) =
      let (other, others_rest) = subst (All IsOther) at round in
      (looked_keeps (conf_path repo i) t j ∙ missing, others_rest, other_chosen _ j other)
  looks-IsGuarded locking t j rest free at (missing, round, chosen) =
      let (other, others_rest) = subst (All IsOther) at round in
      (looked_keeps (conf_path repo i) t j ∙ missing, others_rest, other_chosen _ j other)
  looks-IsGuarded configuring t j rest free at (held, chosen) =
      (looked_keeps (lock_path repo i) t j ∙ held, held_chosen j t.world free held)
  looks-IsGuarded starting t j rest free at (held, chosen) =
      (looked_keeps (lock_path repo i) t j ∙ held, held_chosen j t.world free held)
  looks-IsGuarded unlocking t j rest free at (held, chosen) =
      (looked_keeps (lock_path repo i) t j ∙ held, held_chosen j t.world free held)
  looks-IsGuarded finished t j rest free at guarded = tt

  pub lists-IsGuarded :
      (p : Phase) (t : Turn)
      → IsGuarded p t
      → IsGuarded p (monitor_lists repo controller timeout i t)
  lists-IsGuarded making t (missing, round, chosen) = (
    ap (lookup (conf_path repo i)) (listed repo controller timeout i kept t.world).0 ∙ missing,
    unfold all_instances in
        listing_differs repo t.world i.id false
          (conf_missing repo controller timeout i kept t.world missing),
    chosen,
  )
  lists-IsGuarded locking t (missing, round, chosen) = (
    ap (lookup (conf_path repo i)) (listed repo controller timeout i kept t.world).0 ∙ missing,
    unfold all_instances in
        listing_differs repo t.world i.id false
          (conf_missing repo controller timeout i kept t.world missing),
    chosen,
  )
  lists-IsGuarded configuring t (held, chosen) = (
    ap (lookup (lock_path repo i)) (listed repo controller timeout i kept t.world).0 ∙ held,
    chosen,
  )
  lists-IsGuarded starting t (held, chosen) = (
    ap (lookup (lock_path repo i)) (listed repo controller timeout i kept t.world).0 ∙ held,
    chosen,
  )
  lists-IsGuarded unlocking t (held, chosen) = (
    ap (lookup (lock_path repo i)) (listed repo controller timeout i kept t.world).0 ∙ held,
    chosen,
  )
  lists-IsGuarded finished t guarded = tt
