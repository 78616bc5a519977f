-- ===== src/Cmd/Turns/Unlocked/Failed.antt =====
-- redis/local_instance_creator.go and cmd/processmonitor/main.go: a creation that failed.
use cf_redis_broker.Base.{
  ◌≡◌, ◌⊎◌, inl, inr, Bool, true, false, ◌==◌, none, some, ℤ, arith, subst, Error, Result-cases,
  err,
}
use cf_redis_broker.Os.{World, stat}
use cf_redis_broker.Os.Files.{file, lookup}
use cf_redis_broker.Redis.Instance.{Instance}
use cf_redis_broker.Redis.Repository.{LocalRepository}
use cf_redis_broker.Redis.Process.{OsProcessController}
use cf_redis_broker.Cmd.Turns.{
  at_first, Phase, making, locking, configuring, starting, unlocking, finished, Turn, call,
  broker_moves, Step, broker, lists, looks, starts, restarts, others, Reach, here, next,
}
use cf_redis_broker.Cmd.Turns.Unlocked.Calls.{lock_path, conf_path, IsKept}
use cf_redis_broker.Cmd.Turns.Unlocked.Guarded.{IsGuarded, NotChosen}
use cf_redis_broker.Cmd.Turns.Unlocked.{Reach-Invariant, not_chosen}

module _ (repo : LocalRepository) (controller : OsProcessController) (timeout : ℤ)
    (i : Instance) where
  -- A creation that has failed has not come to its end.
  abbrev IsEarly : Bool → Phase → Type 0
  IsEarly true finished = ⊥
  IsEarly _ _ = Unit

  err-IsEarly :
      (p : Phase) (w : World) (e : Error)
      → (call repo controller timeout i p w).0 ≡ err e
      → IsEarly true p
  unfolding call
  err-IsEarly making w e bad = tt
  err-IsEarly locking w e bad = tt
  err-IsEarly configuring w e bad = tt
  err-IsEarly starting w e bad = tt
  err-IsEarly unlocking w e bad = tt
  err-IsEarly finished w e bad = absurd (ground arith)

  not_failed : (b : Bool) (p : Phase) → b ≡ false → IsEarly b p
  not_failed true p h = absurd (ground arith)
  not_failed false p h = tt

  broker-IsEarly :
      (t : Turn)
      → t.failed ≡ false
      → IsEarly
          (broker_moves repo controller timeout i t).failed
          (broker_moves repo controller timeout i t).phase
  broker-IsEarly t going = elim (Result-cases (call repo controller timeout i t.phase t.world).0) [
    | inl (e, bad) ↦ rw bad (err-IsEarly t.phase t.world e bad)
    | inr (u, done) ↦ rw done (not_failed t.failed _ going)
  ]

  Step-IsEarly :
      {t u : Turn}
      → Step repo controller timeout i t u
      → IsEarly t.failed t.phase
      → IsEarly u.failed u.phase
  Step-IsEarly (broker t going) early = broker-IsEarly t going
  Step-IsEarly (lists t idle) early = early
  Step-IsEarly (looks t j rest idle at) early = early
  Step-IsEarly (starts t j picked own) early = early
  Step-IsEarly (restarts t names) early = early
  Step-IsEarly (others t w lock_kept conf_kept) early = early

  Reach-IsEarly :
      {s t : Turn}
      → IsEarly s.failed s.phase
      → Reach repo controller timeout i s t
      → IsEarly t.failed t.phase
  Reach-IsEarly early here = early
  Reach-IsEarly early (next r st) = Step-IsEarly st (Reach-IsEarly early r)

module _ (repo : LocalRepository) (controller : OsProcessController) (timeout : ℤ) (i : Instance)
    (kept : IsKept repo controller i) where
  -- The instance has no configuration, or its lock is there; and the monitor is not about to start it.
  abbrev pub IsOff : Turn → Type 0
  IsOff t =
      ((lookup (conf_path repo i) t.world.tree ≡ none)
        ⊎ (lookup (lock_path repo i) t.world.tree ≡ some (file "")))
      × ((j : Instance) → t.chosen ≡ some j → ¬ ((j.id == i.id) ≡ true))

  off :
      (t : Turn)
      → NotChosen repo controller timeout i kept t.chosen
      → (j : Instance) → t.chosen ≡ some j
      → ¬ ((j.id == i.id) ≡ true)
  off t chosen j picked =
      not_chosen repo controller timeout i kept j
        (subst (NotChosen repo controller timeout i kept) picked chosen)

  guarded-IsOff :
      (p : Phase) (t : Turn)
      → IsEarly repo controller timeout i true p
      → IsGuarded repo controller timeout i kept p t
      → IsOff t
  guarded-IsOff making t early (missing, round, chosen) = (inl missing, off t chosen)
  guarded-IsOff locking t early (missing, round, chosen) = (inl missing, off t chosen)
  guarded-IsOff configuring t early (held, chosen) = (inr held, off t chosen)
  guarded-IsOff starting t early (held, chosen) = (inr held, off t chosen)
  guarded-IsOff unlocking t early (held, chosen) = (inr held, off t chosen)
  guarded-IsOff finished t early guarded = absurd early

  -- Let a creation and the monitor, its starts and its rounds, take turns over the same files,
  -- whatever calls fail and with only plain names as the IDs that the monitor starts or meets at
  -- its start, and let anything else happen that leaves the new instance's lock and configuration
  -- alone, from a state where the instance has no configuration and the system lets the monitor
  -- look for the lock; the new ID is a plain name, the directories of the configuration lie
  -- apart, and servers leave the two files alone (`IsKept`). If the creation has failed, then the
  -- instance has no configuration or its lock is there, and the monitor is not about to start its
  -- server.
  pub Reach-IsOff :
      (w : World) (t : Turn)
      → lookup (conf_path repo i) w.tree ≡ none
      → w.refuses (stat (lock_path repo i)) ≡ none
      → Reach repo controller timeout i (at_first w) t
      → t.failed ≡ true
      → IsOff t
  Reach-IsOff w t missing free run failed =
      guarded-IsOff t.phase t
        (subst (λ b. IsEarly repo controller timeout i b t.phase) failed
          (Reach-IsEarly repo controller timeout i tt run))
        (Reach-Invariant repo controller timeout i kept (free, (missing, tt, tt)) run).1
