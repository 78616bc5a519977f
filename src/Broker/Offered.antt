-- ===== src/Broker/Offered.antt =====
-- broker/broker.go: the plans of the catalog, and those that `Provision` takes.
use cf_redis_broker.Base.{
  ap, any, Bool-cases, inl, inr, ◌∙◌, ◌≡◌, refl, String, Bool, true, false, ◌==◌, if◌then◌else◌,
  none, some, List, arith, message, err,
}
use cf_redis_broker.Brokerconfig.{Config}
use cf_redis_broker.Broker.{
  RedisServiceBroker, InstanceCreator, lookup, plan_key, creator_with, create_with_key,
  create_with_plan, provision,
}
use cf_redis_broker.Broker.Catalog.{Service, plans, services}

-- The ID is that of a plan of one of the services.
unfoldable pub is_offered : String → List Service → Bool
is_offered plan_id = any (λ service. any (λ plan. plan.id == plan_id) service.plans)

plan_key_offered :
    (config : Config) (plan_id : String)
    → plan_key plan_id (plans config)
      ≡ (if is_offered plan_id (services config) then "shared" else "")
unfolding plan_key plans services is_offered
plan_key_offered config plan_id = ground arith

module _ {S : Type 0} (broker : RedisServiceBroker S) (creator : InstanceCreator S)
    (there : lookup "shared" broker.instance_creators ≡ some creator) where
  -- Where no creator has the instance, and the creator of the shared plan is there, `Provision`
  -- fails for want of a plan's ID if that is empty; otherwise it is the creation of the instance
  -- if the ID is that of a plan of a service in the catalog, and fails with an ID that is not
  -- recognized if not.
  pub provision-services :
      (instance_id plan_id : String) (s s' : S)
      → creator_with broker instance_id s ≡ (none, s')
      → provision broker instance_id plan_id s ≡ (
          if plan_id == ""
          then (err (message "plan_id required"), s')
          else if is_offered plan_id (services broker.config)
          then creator.create instance_id s'
          else (err (message "plan_id not recognized"), s'))
  unfolding provision create_with_plan create_with_key
  provision-services instance_id plan_id s s' free =
      elim (Bool-cases (is_offered plan_id (services broker.config))) [
        | inl e ↦
            let key : plan_key plan_id (plans broker.config) ≡ "shared" =
              plan_key_offered broker.config plan_id ∙ rw e refl in
            let named : (plan_key plan_id (plans broker.config) == "") ≡ false =
              ap (λ k. k == "") key in
            ground (arith, free, e, key, named, there)
        | inr e ↦
            let key : plan_key plan_id (plans broker.config) ≡ "" =
              plan_key_offered broker.config plan_id ∙ rw e refl in
            let unnamed : (plan_key plan_id (plans broker.config) == "") ≡ true =
              ap (λ k. k == "") key in
            ground (arith, free, e, unnamed)
      ]
