-- ===== src/System.antt =====
-- system/free_tcp_port.go: a port that is free at the time of the call.
pub mod Port
use cf_redis_broker.Base.{String, Option, none, some, ℤ, parse_int, split, last_or, Result, ok, err}
use cf_redis_broker.Base.Act.{Act, inspect, pure, lift, ◌>>=◌}

-- The text of an address has its port behind the last colon.
unfoldable pub get_port_from_addr : String → Result ℤ
get_port_from_addr addr = parse_int 31 (last_or "" (split b':' addr))

-- `listen` opens a listener on a free port and returns the text of its address, and `close` closes
-- it. The error of `net.Listen` is dropped: `none` is the panic on the listener that is nil then.
unfoldable pub find_free_port : {S : Type 0} → Act S String → (S → S) → Act S (Option ℤ)
find_free_port listen close = inspect listen (elim [
  | err e ↦ pure none
  | ok addr ↦ λ s. elim (get_port_from_addr addr) [
    | ok port ↦ (ok (some port), close s)
    | err e ↦ (err e, close s)
  ]
])
