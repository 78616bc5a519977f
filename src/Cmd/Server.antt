-- ===== src/Cmd/Server.antt =====
-- cmd/broker/main.go: how the broker is put together.
use cf_redis_broker.Base.{String, [], ◌∷◌, ℤ}
use cf_redis_broker.Base.Act.{Act}
use cf_redis_broker.Os.{World}
use cf_redis_broker.Brokerconfig.{Config}
use cf_redis_broker.Redis.Repository.{LocalRepository}
use cf_redis_broker.Redis.Repository
use cf_redis_broker.Redis.Creator.{LocalInstanceCreator, ProcessController}
use cf_redis_broker.Redis.Creator
use cf_redis_broker.Redis.Creator.Local.{local_instance_repository}
use cf_redis_broker.Broker.{RedisServiceBroker, InstanceCreator, InstanceBinder}

abbrev pub as_creator : {S : Type 0} → LocalInstanceCreator S → InstanceCreator S
as_creator c = record {
  create = Creator.create c;
  destroy = Creator.destroy c;
  instance_exists = c.repository.instance_exists;
}

abbrev pub as_binder : LocalRepository → InstanceBinder World
as_binder repo = record {
  bind = Repository.bind repo;
  unbind = Repository.unbind repo;
  instance_exists = Repository.instance_exists repo;
}

-- What the program takes from outside.
module _ (find_free_port : Act World ℤ) (new_password : World → String × World)
    (controller : ProcessController World) where
  abbrev pub local_creator : Config → LocalRepository → LocalInstanceCreator World
  local_creator config repo = record {
    repository = local_instance_repository repo;
    find_free_port = find_free_port;
    new_password = new_password;
    process_controller = controller;
    redis_configuration = config.redis_configuration;
  }

  abbrev pub service_broker : Config → LocalRepository → RedisServiceBroker World
  service_broker config repo = record {
    instance_creators = ("shared", as_creator (local_creator config repo)) ∷ [];
    instance_binders = ("shared", as_binder repo) ∷ [];
    config = config;
  }
