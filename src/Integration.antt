-- ===== src/Integration.antt =====
-- integration/network.go: requests to the broker, and the addresses of the host. An assertion that
-- fails is an error.
pub mod Client
pub mod Uris
use cf_redis_broker.Base.{String, Bool, ◌&&◌, not, if◌then◌else◌, List, [], ◌∷◌, ◌++◌, ℤ}
use cf_redis_broker.Base.Act.{Act, pure, ◌>>=◌}

-- What is set of a request.
pub record HttpRequest : Type 0 where
  pub method : String
  pub uri : String
  pub username : String
  pub password : String
  pub api_version : String
  pub body : String

-- An address of an interface: whether it is an `IPNet`, and what Go's `net` says of it.
pub record InterfaceAddr : Type 0 where
  pub is_ip_net : Bool
  pub is_loopback : Bool
  pub is_ip4 : Bool
  pub ip_text : String

-- `send` makes the request, does it and reads the whole answer: a status and a body.
module _ {S : Type 0} (send : HttpRequest → Act S (ℤ × String)) where
  unfoldable pub execute_authenticated_http_request_with_body :
      String → String → String → String → String → Act S (ℤ × String)
  execute_authenticated_http_request_with_body method uri username password body = send (record {
    method = method;
    uri = uri;
    username = username;
    password = password;
    api_version = "2.13";
    body = body;
  })

  -- Without a body.
  unfoldable pub execute_authenticated_http_request :
      String → String → String → String → Act S (ℤ × String)
  unfolding execute_authenticated_http_request_with_body
  execute_authenticated_http_request method uri username password =
      execute_authenticated_http_request_with_body method uri username password ""

unfoldable pub ip4_addresses : List InterfaceAddr → List String
ip4_addresses [] = []
ip4_addresses (a ∷ rest_addrs) =
    let rest = ip4_addresses rest_addrs in
    if a.is_ip_net && not a.is_loopback && a.is_ip4 then a.ip_text ∷ rest else rest

unfoldable pub host_ip4_addresses : {S : Type 0} → Act S (List InterfaceAddr) → Act S (List String)
unfolding ip4_addresses
host_ip4_addresses interface_addrs = do addrs ← interface_addrs; pure (ip4_addresses addrs)
