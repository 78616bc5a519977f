-- ===== src/Broker.antt =====
-- broker/broker.go: the service broker over its creators and binders of instances. A creator and a
-- binder are interfaces in the program, and records over a state here. A Go map is a list of its
-- entries, in the order in which a run visits them. The request's unused fields are left out, and
-- so is the context.
pub mod Catalog
pub mod Laws
pub mod Offered
use cf_redis_broker.Base.{
  String, ◌<>◌, Bool, true, false, ◌==◌, if◌then◌else◌, Option, none, some, List, [], ◌∷◌, map,
  Error, message, instance_already_exists, instance_does_not_exist, binding_does_not_exist, Result,
  ok, err,
}
use cf_redis_broker.Base.Act.{Act, inspect, pure, raise, ◌>>=◌, ◌>>◌}
use cf_redis_broker.Brokerconfig.{Config, shared_enabled}
use cf_redis_broker.Redis.Instance.{InstanceCredentials}
use cf_redis_broker.Broker.Catalog.{ServicePlan, plans}

-- An `InstanceExists` that returns an error returns `false` with it, here and in the program.
pub record InstanceCreator (S : Type 0) : Type 0 where
  pub create : String → Act S (Unit {0})
  pub destroy : String → Act S (Unit {0})
  pub instance_exists : String → Act S Bool

pub record InstanceBinder (S : Type 0) : Type 0 where
  pub bind : String → String → Act S InstanceCredentials
  pub unbind : String → String → Act S (Unit {0})
  pub instance_exists : String → Act S Bool

pub record RedisServiceBroker (S : Type 0) : Type 0 where
  pub instance_creators : List (String × InstanceCreator S)
  pub instance_binders : List (String × InstanceBinder S)
  pub config : Config

pub record Binding : Type 0 where
  pub credentials : Option InstanceCredentials

-- `exists, _ := …`
abbrev pub value_of : Result Bool → Bool
value_of (ok b) = b
value_of (err e) = false

abbrev pub lookup {ℓ} : {A : Type ℓ} → String → List (String × A) → Option A
lookup k [] = none
lookup k ((j, a) ∷ m) = if k == j then some a else lookup k m

-- The loop that looks for the plan of an ID; the empty key stands for no plan.
unfoldable pub plan_key : String → List (String × ServicePlan) → String
plan_key plan_id [] = ""
plan_key plan_id ((key, plan) ∷ rest) = if plan.id == plan_id then key else plan_key plan_id rest

module _ {S I : Type 0} (instance_exists : I → Act S Bool) where
  -- The first entry that has the instance; the later ones are not asked.
  unfoldable pub first_with : List (String × I) → S → Option I × S
  first_with [] s = (none, s)
  first_with ((key, i) ∷ rest) s =
      let (r, s') = instance_exists i s in
      elim (value_of r) [ true ↦ (some i, s') | false ↦ first_with rest s' ]

module _ {S : Type 0} (broker : RedisServiceBroker S) where
  unfoldable pub creator_with : String → S → Option (InstanceCreator S) × S
  unfolding first_with
  creator_with instance_id =
      first_with (λ c. c.instance_exists instance_id) broker.instance_creators

  unfoldable pub binder_with : String → S → Option (InstanceBinder S) × S
  unfolding first_with
  binder_with instance_id = first_with (λ b. b.instance_exists instance_id) broker.instance_binders

  -- From the plan's key on.
  unfoldable pub create_with_key : String → String → Act S (Unit {0})
  create_with_key instance_id key =
      if key == ""
      then raise (message "plan_id not recognized")
      else elim (lookup key broker.instance_creators) [
        | none ↦ raise (message "instance creator not found for plan")
        | some creator ↦ creator.create instance_id
      ]

  -- From the plan's ID on.
  unfoldable pub create_with_plan : String → String → Act S (Unit {0})
  create_with_plan instance_id plan_id =
      if plan_id == ""
      then raise (message "plan_id required")
      else create_with_key instance_id (plan_key plan_id (plans broker.config))

  unfoldable pub provision : String → String → Act S (Unit {0})
  provision instance_id plan_id s =
      let (holder, s') = creator_with instance_id s in
      elim holder [
        | some _ ↦ (err instance_already_exists, s')
        | none ↦ create_with_plan instance_id plan_id s'
      ]

  unfoldable pub deprovision : String → Act S (Unit {0})
  deprovision instance_id s =
      let (holder, s') = creator_with instance_id s in
      elim holder [
        | some creator ↦ creator.destroy instance_id s'
        | none ↦ (err instance_does_not_exist, s')
      ]

  unfoldable pub bind : String → String → Act S Binding
  bind instance_id binding_id s =
      let (holder, s') = binder_with instance_id s in
      elim holder [
        | some binder ↦
            (do
              credentials ← binder.bind instance_id binding_id
              pure (record { credentials = some credentials }))
              s'
        | none ↦ (err instance_does_not_exist, s')
      ]

  unfoldable pub unbind : String → String → Act S (Unit {0})
  unbind instance_id binding_id s =
      let (holder, s') = binder_with instance_id s in
      elim holder [
        | some binder ↦
            inspect (binder.unbind instance_id binding_id)
              (elim [ ok _ ↦ pure tt | err _ ↦ raise binding_does_not_exist ]) s'
        | none ↦ (err instance_does_not_exist, s')
      ]

-- `LastOperation`, `Update`, `GetBinding`, `GetInstance` and `LastBindingOperation`
unfoldable pub unimplemented {ℓ} : {S A : Type ℓ} → Act S A
unimplemented = raise (message "not implemented")
