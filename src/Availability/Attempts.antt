-- ===== src/Availability/Attempts.antt =====
-- availability/ports.go: how often a port is tried.
use cf_redis_broker.Base.{◌≡◌, ap, ℕ, ◌+◌, ◌/◌, arith, ℤ, pos, negsuc}
use cf_redis_broker.Base.Act.{Act}
use cf_redis_broker.Base.Loop.{rounds, for_below-rounds, for_below_negative}
use cf_redis_broker.Redis.Process.{TcpAddr}
use cf_redis_broker.Availability.{check_interval, or_timeout, attempt, check}

-- The timeout in intervals, rounded up; none where it is negative.
abbrev pub attempts : ℤ → ℕ
attempts (pos n) = (n + 9999999) / 10000000
attempts (negsuc n) = 0

module _ {S Conn : Type 0} (dial : TcpAddr → Act S Conn) (close : Conn → S → S) (sleep : ℕ → S → S)
    (address : TcpAddr) where
  -- For every timeout, `Check` tries the port as many times as the timeout has intervals of 10
  -- ms, rounded up, and never where it is negative, unless it is reached before: it is that many
  -- rounds of the loop's body and then the error of the timeout.
  pub check-rounds :
      (timeout : ℤ) (s : S)
      → check dial close sleep address timeout s
        ≡ or_timeout (rounds (attempt dial close sleep address) (attempts timeout) s)
  unfolding check
  check-rounds (pos n) s = ap or_timeout (
      for_below-rounds (attempt dial close sleep address) n check_interval
        ((n + 9999999) / 10000000) s (omega arith) (omega arith) (λ m e. omega arith))
  check-rounds (negsuc n) s =
      ap or_timeout (for_below_negative (attempt dial close sleep address) n check_interval s)
