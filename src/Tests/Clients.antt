-- ===== src/Tests/Clients.antt =====
-- The client of the integration tests.
use cf_redis_broker.Base.{split}
use cf_redis_broker.Integration.Uris.{split-binding_uri}
use cf_redis_broker.Base.{◌≡◌, refl, true, false, [], ◌∷◌, err, message}
use cf_redis_broker.Integration.{ip4_addresses}
use cf_redis_broker.Integration.Client.{BrokerClient, plan_id_of, instance_uri, binding_uri}
use cf_redis_broker.Tests.Data.{config}

abbrev client : BrokerClient
client = record { config = config }

uri_of_binding :
    binding_uri client "one" "app"
    ≡ "http://localhost:3000/v2/service_instances/one/service_bindings/app"
unfolding binding_uri instance_uri
uri_of_binding = refl

unknown_plan : plan_id_of "dedicated" ≡ err (message "invalid plan name:dedicated")
unfolding plan_id_of
unknown_plan = refl

outer_addresses :
    ip4_addresses (
      record { is_ip_net = true; is_loopback = true; is_ip4 = true; ip_text = "127.0.0.1" }
      ∷ record { is_ip_net = true; is_loopback = false; is_ip4 = true; ip_text = "10.0.0.1" }
      ∷ record { is_ip_net = true; is_loopback = false; is_ip4 = false; ip_text = "fe80::1" }
      ∷ [])
    ≡ "10.0.0.1" ∷ []
unfolding ip4_addresses
outer_addresses = refl

split-binding_uri_example :
    split b'/' (binding_uri client "one" "app")
    ≡ "http:" ∷ "" ∷ "localhost:3000" ∷ "v2" ∷ "service_instances" ∷ "one" ∷ "service_bindings"
      ∷ "app" ∷ []
split-binding_uri_example = split-binding_uri client "one" "app" refl refl refl
