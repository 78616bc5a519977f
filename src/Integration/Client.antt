-- ===== src/Integration/Client.antt =====
-- integration/broker_client.go: the client of the broker. A panic is an error.
use cf_redis_broker.Base.{String, ◌<>◌, ◌==◌, if◌then◌else◌, ℤ, pos, message, Result, ok, err}
use cf_redis_broker.Base.Act.{Act, inspect, pure, raise, lift, ◌>>=◌}
use cf_redis_broker.Brokerconfig.{Config}
use cf_redis_broker.Integration.{
  HttpRequest, execute_authenticated_http_request, execute_authenticated_http_request_with_body,
}

pub record BrokerClient : Type 0 where
  pub config : Config

-- The plans that the client knows; each of the four requests looks the plan up.
unfoldable pub plan_id_of : String → Result String
plan_id_of plan =
    if plan == "shared"
    then ok "C210CA06-E7E5-4F5D-A5AA-7A2C51CC290E"
    else err (message ("invalid plan name:" <> plan))

module _ (client : BrokerClient) where
  unfoldable pub instance_uri : String → String
  instance_uri instance_id =
      "http://localhost:" <> client.config.port <> "/v2/service_instances/" <> instance_id

  unfoldable pub binding_uri : String → String → String
  unfolding instance_uri
  binding_uri instance_id binding_id =
      instance_uri instance_id <> "/service_bindings/" <> binding_id

  -- The query of the requests that delete.
  abbrev pub query : String → String
  query plan_id =
      "?plan_id=" <> plan_id <> "&service_id=" <> client.config.redis_configuration.service_id

abbrev pub instance_id_from_host_uri : String → String
instance_id_from_host_uri host = "http://localhost:3000/instance?host=" <> host

-- `marshal` is the JSON of a plan's and a service's ID.
module _ {S : Type 0} (send : HttpRequest → Act S (ℤ × String))
    (marshal : String → String → Result String) (sleep : ℤ → S → S) (client : BrokerClient) where
  unfoldable pub execute_authenticated_request : String → String → Act S (ℤ × String)
  unfolding execute_authenticated_http_request
  execute_authenticated_request http_method url =
      execute_authenticated_http_request send http_method url
        client.config.auth_configuration.username client.config.auth_configuration.password

  -- A request that puts the IDs of the plan and of the service.
  unfoldable pub put : String → String → Act S (ℤ × String)
  unfolding plan_id_of execute_authenticated_http_request_with_body
  put url plan = do
    plan_id ← lift (plan_id_of plan)
    payload ← inspect (lift (marshal plan_id client.config.redis_configuration.service_id)) (elim [
      | ok payload ↦ pure payload
      | err e ↦ raise (message "unable to marshal the payload to provision instance")
    ])
    execute_authenticated_http_request_with_body send "PUT" url
        client.config.auth_configuration.username client.config.auth_configuration.password payload

  -- Behind the answer the client waits for two seconds.
  unfoldable pub provision_instance : String → String → Act S (ℤ × String)
  unfolding put instance_uri
  provision_instance instance_id plan = do
    answer ← put (instance_uri client instance_id) plan
    (λ s. (ok answer, sleep (pos 2000000000) s))

  unfoldable pub make_catalog_request : Act S (ℤ × String)
  make_catalog_request = execute_authenticated_request "GET" "http://localhost:3000/v2/catalog"

  unfoldable pub bind_instance : String → String → String → Act S (ℤ × String)
  unfolding put binding_uri
  bind_instance instance_id binding_id plan = put (binding_uri client instance_id binding_id) plan

  unfoldable pub unbind_instance : String → String → String → Act S (ℤ × String)
  unfolding plan_id_of binding_uri
  unbind_instance instance_id binding_id plan = do
    plan_id ← lift (plan_id_of plan)
    execute_authenticated_request "DELETE"
        (binding_uri client instance_id binding_id <> query client plan_id)

  unfoldable pub deprovision_instance : String → String → Act S (ℤ × String)
  unfolding plan_id_of instance_uri
  deprovision_instance instance_id plan = do
    plan_id ← lift (plan_id_of plan)
    execute_authenticated_request "DELETE" (instance_uri client instance_id <> query client plan_id)

  unfoldable pub instance_id_from_host : String → Act S (ℤ × String)
  instance_id_from_host host = execute_authenticated_request "GET" (instance_id_from_host_uri host)
