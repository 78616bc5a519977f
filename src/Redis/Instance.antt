-- ===== src/Redis/Instance.antt =====
-- redis/instance.go, and the credentials of broker/broker.go.
use cf_redis_broker.Base.{String, ℤ}

pub record Instance : Type 0 where
  pub id : String
  pub host : String
  pub port : ℤ
  pub password : String

pub record InstanceCredentials : Type 0 where
  pub host : String
  pub port : ℤ
  pub password : String
