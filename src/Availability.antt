-- ===== src/Availability.antt =====
-- availability/ports.go: waiting until a port can be reached. Dialling, closing and sleeping are
-- parameters, over any state.
pub mod Attempts
use cf_redis_broker.Base.{
  String, Bool, true, false, Option, none, some, ℕ, ℤ, pos, message, Result, ok, err,
}
use cf_redis_broker.Base.Act.{Act}
use cf_redis_broker.Base.Loop.{for_below}
use cf_redis_broker.Redis.Process.{TcpAddr}

-- 10 ms, in nanoseconds.
abbrev pub check_interval : ℕ
check_interval = 10000000

-- What is returned when the loop is left by its test.
abbrev pub or_timeout : {S : Type 0} → Option (Unit {0}) × S → Result (Unit {0}) × S
or_timeout (some u, s) = (ok tt, s)
or_timeout (none, s) = (err (message "timeout"), s)

module _ {S Conn : Type 0} (dial : TcpAddr → Act S Conn) (close : Conn → S → S)
    (sleep : ℕ → S → S) where
  -- A connection is returned where there is no error, and only there.
  unfoldable pub is_listening : TcpAddr → S → Bool × S
  is_listening address s =
      let (r, s') = dial address s in elim r [ ok c ↦ (true, close c s') | err e ↦ (false, s') ]

  -- The body of the loop.
  unfoldable pub attempt : TcpAddr → S → Option (Unit {0}) × S
  attempt address s =
      let (up, s') = is_listening address s in
      elim up [ true ↦ (some tt, s') | false ↦ (none, sleep check_interval s') ]

  unfoldable pub check : TcpAddr → ℤ → Act S (Unit {0})
  check address timeout s = or_timeout (for_below (attempt address) timeout check_interval s)

-- The same over a dial with TLS.
module _ {S Conn : Type 0} (dial_tls : TcpAddr → Act S Conn) (close : Conn → S → S)
    (sleep : ℕ → S → S) where
  abbrev pub is_listening_tls : TcpAddr → S → Bool × S
  is_listening_tls = is_listening dial_tls close sleep

  abbrev pub check_tls : TcpAddr → ℤ → Act S (Unit {0})
  check_tls = check dial_tls close sleep
