-- ===== src/Redis/Client/Info/Waits.antt =====
-- redis/client/client.go: how long the waits go on.
use cf_redis_broker.Base.{
  ◌≡◌, refl, ap, ℕ, zero, suc, ◌+◌, ◌/◌, String, none, some, arith, ℤ, pos, negsuc, Error, ok,
}
use cf_redis_broker.Base.Loop.{rounds, for_below-rounds, for_below_negative}
use cf_redis_broker.Redis.Client.{Client}
use cf_redis_broker.Redis.Client.Info.{
  info_field, poll_loading, or_nil, wait_until_redis_not_loading,
}

-- The timeout in tenths of a second, rounded up.
abbrev pub polls : ℤ → ℕ
polls (pos n) = (n + 99) / 100
polls (negsuc n) = 0

module _ {S : Type 0} (error_text : Error → String) (c : Client S) (sleep : ℕ → S → S) where
  -- For every timeout, the wait for a loaded server asks as many times as the timeout has tenths
  -- of a second, rounded up, and never where it is negative, unless it ends before: it is that
  -- many rounds of the loop's body and then nil.
  pub wait_until_redis_not_loading-rounds :
      (timeout : ℤ) (s : S)
      → wait_until_redis_not_loading error_text c sleep timeout s
        ≡ or_nil error_text c sleep (rounds (poll_loading error_text c sleep) (polls timeout) s)
  unfolding wait_until_redis_not_loading
  wait_until_redis_not_loading-rounds (pos n) s = ap (or_nil error_text c sleep) (
      for_below-rounds (poll_loading error_text c sleep) n 100 ((n + 99) / 100) s (omega arith)
        (omega arith) (λ m e. omega arith))
  wait_until_redis_not_loading-rounds (negsuc n) s =
      ap (or_nil error_text c sleep) (for_below_negative (poll_loading error_text c sleep) n 100 s)

  -- A server that never stops loading.
  module _
      (loading : (s : S)
        → (v : S) × (info_field error_text c "loading" s ≡ (ok (some "1"), v))) where
    rounds_loading : (n : ℕ) (s : S) → (rounds (poll_loading error_text c sleep) n s).0 ≡ none
    unfolding rounds poll_loading
    rounds_loading zero s = refl
    rounds_loading (suc n) s =
        let (v, e) = loading s in ground (arith, e, rounds_loading n (sleep 100 v))

    -- Where the server says each time that it is still loading, the wait for a loaded server
    -- returns nil at its timeout, whatever the timeout is, as it does for a server that has
    -- loaded.
    pub wait_until_redis_not_loading_gives_up :
        (timeout : ℤ) (s : S)
        → (wait_until_redis_not_loading error_text c sleep timeout s).0 ≡ ok (some tt)
    wait_until_redis_not_loading_gives_up timeout s =
        rw wait_until_redis_not_loading-rounds (ground (arith, rounds_loading (polls timeout) s))
