-- ===== src/Broker/Catalog.antt =====
-- broker/broker.go: the plans and the catalog that the broker offers.
use cf_redis_broker.Base.{String, ◌<>◌, Bool, true, if◌then◌else◌, List, [], ◌∷◌, map}
use cf_redis_broker.Brokerconfig.{Config, shared_enabled}

pub record ServicePlan : Type 0 where
  pub id : String
  pub name : String
  pub description : String
  pub bullets : List String
  pub display_name : String

pub record ServiceMetadata : Type 0 where
  pub display_name : String
  pub long_description : String
  pub documentation_url : String
  pub support_url : String
  pub image_url : String
  pub provider_display_name : String

pub record Service : Type 0 where
  pub id : String
  pub name : String
  pub description : String
  pub bindable : Bool
  pub plans : List ServicePlan
  pub metadata : ServiceMetadata
  pub tags : List String

abbrev pub plan_name_shared : String
plan_name_shared = "shared-vm"

shared_plan : Config → ServicePlan
shared_plan config = record {
  id = config.redis_configuration.shared_vm_plan_id;
  name = plan_name_shared;
  description = "This plan provides a Redis server on a shared VM configured for data persistence.";
  bullets =
      "Each instance shares the same VM" ∷ "Single dedicated Redis process"
      ∷ "Suitable for development & testing workloads" ∷ [];
  display_name = "Shared-VM";
}

unfoldable pub plans : Config → List (String × ServicePlan)
unfolding shared_plan shared_enabled
plans config = if shared_enabled config then ("shared", shared_plan config) ∷ [] else []

unfoldable pub services : Config → List Service
unfolding plans
services config =
    record {
      id = config.redis_configuration.service_id;
      name = config.redis_configuration.service_name;
      description = config.redis_configuration.description;
      bindable = true;
      plans = map (λ (_, plan). plan) (plans config);
      metadata = record {
        display_name = config.redis_configuration.display_name;
        long_description = config.redis_configuration.long_description;
        documentation_url = config.redis_configuration.documentation_url;
        support_url = config.redis_configuration.support_url;
        image_url = "data:image/png;base64," <> config.redis_configuration.icon_image;
        provider_display_name = config.redis_configuration.provider_display_name;
      };
      tags = "pivotal" ∷ "redis" ∷ [];
    }
    ∷ []
