-- ===== src/Redis/Client/Info/Saved.antt =====
-- redis/client/client.go: what the wait for a save has seen.
use cf_redis_broker.Base.{
  ◌≡◌, Bool-cases, true, ltb_ℤ, some, List, [], ◌∷◌, arith, ℤ, Result-cases, ok, inl, inr,
}
use cf_redis_broker.Redis.Client.{Client, last_rdb_save_time}
use cf_redis_broker.Redis.Client.Info.{Tick, second, timer, wait_for_new_save_since}

module _ {S : Type 0} (c : Client S) (last_save_time : ℤ) where
  -- The last thing that the wait asked for was the time of a save that is newer.
  pub record HasNewer (s' : S) : Type 0 where
    pub asked : S
    pub latest : ℤ
    pub answer : last_rdb_save_time c asked ≡ (ok latest, s')
    pub newer : ltb_ℤ last_save_time latest ≡ true

  -- Whatever seconds and timers the wait for a save receives, if it returns nil, then the last
  -- thing that it did was to ask for the time of the last save, and the answer was later than the
  -- time that it was given.
  pub wait_for_new_save_since-HasNewer :
      (ticks : List Tick) (s s' : S)
      → wait_for_new_save_since c last_save_time ticks s ≡ (some (ok tt), s')
      → HasNewer s'
  unfolding wait_for_new_save_since
  wait_for_new_save_since-HasNewer [] s s' h = absurd (ground arith)
  wait_for_new_save_since-HasNewer (timer ∷ ticks) s s' h = absurd (ground arith)
  wait_for_new_save_since-HasNewer (second ∷ ticks) s s' h =
      let v : S = (last_rdb_save_time c s).1 in
      elim (Result-cases (last_rdb_save_time c s).0) [
        | inl (e, bad) ↦ absurd (ground arith)
        | inr (latest, good) ↦ elim (Bool-cases (ltb_ℤ last_save_time latest)) [
          | inl newer ↦ record { asked = s; latest = latest; answer = ground arith; newer = newer }
          | inr old ↦ wait_for_new_save_since-HasNewer ticks v s' (ground arith)
        ]
      ]
