-- ===== src/Cmd/Limited.antt =====
-- cmd/broker/main.go, with the packages broker and redis: the limit of instances.
use cf_redis_broker.Base.{
  ℕ, suc, ◌≤◌, ◌≡◌, refl, ap, ◌∙◌, subst, sym, String, Bool-cases, false, Option, List, [], ◌∷◌,
  All, arith, inl, inr, ℤ, pos, leb_ℤ, Error, Result-cases,
}
use cf_redis_broker.Base.Act.{Act}
use cf_redis_broker.Os.{World, Call}
use cf_redis_broker.Os.Files.{Tree}
use cf_redis_broker.Os.Names.{name_count}
use cf_redis_broker.Os.Paths.{FilePath, IsName}
use cf_redis_broker.Brokerconfig.{Config}
use cf_redis_broker.Redis.Instance.{Instance}
use cf_redis_broker.Redis.Repository.{LocalRepository, data_directory, find_by_id, lock, delete}
use cf_redis_broker.Redis.Repository.Reading.{find_by_id_reads, instance_exists_reads}
use cf_redis_broker.Redis.Repository.Listing.{instance_count, all_instances}
use cf_redis_broker.Redis.Repository.Listing.Count.{view-all_instances_with}
use cf_redis_broker.Redis.Repository.Listing.Found.{find_by_id-id}
use cf_redis_broker.Redis.Repository.Isolation.{AreApart}
use cf_redis_broker.Redis.Repository.Crowding.{
  crowd, crowd-delete, crowd-unlock, crowd-lock, crowd-setup, instance_count-crowd,
}
use cf_redis_broker.Redis.Repository
use cf_redis_broker.Redis.Creator.{
  LocalInstanceCreator, ProcessController, start_local_instance, create_new, create_counted, create,
  destroy,
}
use cf_redis_broker.Redis.Creator.Laws.{new_instance}
use cf_redis_broker.Broker.{RedisServiceBroker}
use cf_redis_broker.Broker
use cf_redis_broker.Cmd.Server.{local_creator, service_broker}

-- What the program relies on: none of these adds a name to the data directory.
pub record IsTidy (find_free_port : Act World ℤ) (new_password : World → String × World)
    (controller : ProcessController World) (repo : LocalRepository) : Type 0 where
  pub ports : (w : World) → crowd repo (find_free_port w).1 ≤ crowd repo w
  pub passwords : (w : World) → crowd repo (new_password w).1 ≤ crowd repo w
  pub starts :
      (i : Instance) (config data_dir log_file : FilePath) (timeout : ℤ) (w : World)
      → crowd repo (controller.start_and_wait_until_ready i config data_dir log_file timeout w).1
        ≤ crowd repo w
  pub kills : (i : Instance) (w : World) → crowd repo (controller.kill i w).1 ≤ crowd repo w

-- The requests of the platform.
pub data Request : Type 0 where
  to_provision to_bind to_unbind : String → String → Request
  to_deprovision : String → Request

abbrev pub IsNamed : Request → Type 0
IsNamed (to_provision id plan_id) = IsName id
IsNamed (to_bind id binding_id) = Unit
IsNamed (to_unbind id binding_id) = Unit
IsNamed (to_deprovision id) = IsName id

-- What a request leaves, whether it succeeds or not.
abbrev pub answer : RedisServiceBroker World → Request → World → World
answer broker (to_provision id plan_id) w = (Broker.provision broker id plan_id w).1
answer broker (to_bind id binding_id) w = (Broker.bind broker id binding_id w).1
answer broker (to_unbind id binding_id) w = (Broker.unbind broker id binding_id w).1
answer broker (to_deprovision id) w = (Broker.deprovision broker id w).1

abbrev pub answer_all : RedisServiceBroker World → List Request → World → World
answer_all broker [] w = w
answer_all broker (r ∷ rs) w = answer_all broker rs (answer broker r w)

module _ (find_free_port : Act World ℤ) (new_password : World → String × World)
    (controller : ProcessController World) (config : Config) (repo : LocalRepository)
    (tidy : IsTidy find_free_port new_password controller repo) (apart : AreApart repo) where
  abbrev creator : LocalInstanceCreator World
  creator = local_creator find_free_port new_password controller config repo

  crowd-start_local_instance :
      (i : Instance) (w : World) → crowd repo (start_local_instance creator i w).1 ≤ crowd repo w
  unfolding start_local_instance
  crowd-start_local_instance i w = tidy.starts i _ _ _ _ w

  crowd-create_new :
      (id : String) (w : World)
      → IsName id
      → crowd repo (create_new creator id w).1 ≤ suc (crowd repo w)
  unfolding create_new
  crowd-create_new id w name = elim (Result-cases (find_free_port w).0) [
    | inl (e, bad) ↦ ground (arith, tidy.ports w)
    | inr (port, good) ↦
        let w₁ : World = (find_free_port w).1 in
        let w₂ : World = (new_password w₁).1 in
        let i : Instance = new_instance creator id port (new_password w₁).0 in
        let w₃ : World = (Repository.setup repo i w₂).1 in
        let w₄ : World = (start_local_instance creator i w₃).1 in
        ground (
          arith,
          tidy.ports w,
          tidy.passwords w₁,
          crowd-setup repo apart i name w₂,
          crowd-start_local_instance i w₃,
          crowd-unlock repo i w₄,
        )
  ]

  crowd-instance_count : (w : World) → crowd repo (instance_count repo w).1 ≡ crowd repo w
  unfolding instance_count all_instances
  crowd-instance_count w =
      ap (λ (v : Tree × (Call → Option Error)). name_count (data_directory repo) v.0)
        (view-all_instances_with repo false w)

  crowd-create_counted :
      (limit n : ℕ) (errs : List Error) (id : String) (w : World)
      → config.redis_configuration.service_instance_limit ≡ pos limit
      → IsName id
      → crowd repo w ≤ limit
      → (errs ≡ [] → n ≡ crowd repo w)
      → crowd repo (create_counted creator (n, errs) id w).1 ≤ limit
  unfolding create_counted
  crowd-create_counted limit n (e ∷ es) id w at name fits count = fits
  crowd-create_counted limit n [] id w at name fits count =
      elim (Bool-cases (leb_ℤ (pos limit) (pos n))) [
        | inl full ↦ ground (arith, at)
        | inr free ↦ ground (arith, at, crowd-create_new id w name, count refl)
      ]

  crowd-create :
      (limit : ℕ) (id : String) (w : World)
      → config.redis_configuration.service_instance_limit ≡ pos limit
      → IsName id
      → crowd repo w ≤ limit
      → crowd repo (create creator id w).1 ≤ limit
  unfolding create
  crowd-create limit id w at name fits =
      crowd-create_counted limit _ _ id (instance_count repo w).1 at name
        (omega (arith, crowd-instance_count w, fits))
        (λ clean. instance_count-crowd repo w clean ∙ sym (crowd-instance_count w))

  crowd-destroy :
      (id : String) (w : World) → IsName id → crowd repo (destroy creator id w).1 ≤ crowd repo w
  unfolding destroy
  crowd-destroy id w name = elim (Result-cases (find_by_id repo id w).0) [
    | inl (e, bad) ↦ ground (arith, find_by_id_reads repo id w)
    | inr (i, found) ↦
        let own : IsName i.id = subst IsName (sym (find_by_id-id repo w id i found)) name in
        let w₁ : World = (lock repo i w).1 in
        let w₂ : World = (controller.kill i w₁).1 in
        ground (
          arith,
          find_by_id_reads repo id w,
          crowd-lock repo apart i own w,
          tidy.kills i w₁,
          crowd-delete repo id w₂,
        )
  ]

  abbrev broker : RedisServiceBroker World
  broker = service_broker find_free_port new_password controller config repo

  crowd-provision :
      (limit : ℕ) (id plan_id : String) (w : World)
      → config.redis_configuration.service_instance_limit ≡ pos limit
      → IsName id
      → crowd repo w ≤ limit
      → crowd repo (Broker.provision broker id plan_id w).1 ≤ limit
  unfolding Broker.provision Broker.creator_with Broker.first_with Broker.create_with_plan
      Broker.create_with_key
  crowd-provision limit id plan_id w at name fits =
      ground (arith, instance_exists_reads repo id w, crowd-create limit id w at name fits)

  crowd-deprovision :
      (id : String) (w : World)
      → IsName id
      → crowd repo (Broker.deprovision broker id w).1 ≤ crowd repo w
  unfolding Broker.deprovision Broker.creator_with Broker.first_with
  crowd-deprovision id w name =
      ground (arith, instance_exists_reads repo id w, crowd-destroy id w name)

  crowd-bind :
      (id binding_id : String) (w : World)
      → crowd repo (Broker.bind broker id binding_id w).1 ≡ crowd repo w
  unfolding Broker.bind Broker.binder_with Broker.first_with Repository.bind
  crowd-bind id binding_id w =
      ground (arith, instance_exists_reads repo id w, find_by_id_reads repo id w)

  crowd-unbind :
      (id binding_id : String) (w : World)
      → crowd repo (Broker.unbind broker id binding_id w).1 ≡ crowd repo w
  unfolding Broker.unbind Broker.binder_with Broker.first_with Repository.unbind
  crowd-unbind id binding_id w = ground (arith, instance_exists_reads repo id w)

  module _ (limit : ℕ) (at : config.redis_configuration.service_instance_limit ≡ pos limit) where
    crowd-answer :
        (r : Request) (w : World)
        → IsNamed r
        → crowd repo w ≤ limit
        → crowd repo (answer broker r w) ≤ limit
    crowd-answer (to_provision id plan_id) w name fits =
        crowd-provision limit id plan_id w at name fits
    crowd-answer (to_deprovision id) w name fits = omega (arith, crowd-deprovision id w name, fits)
    crowd-answer (to_bind id binding_id) w name fits =
        omega (arith, crowd-bind id binding_id w, fits)
    crowd-answer (to_unbind id binding_id) w name fits =
        omega (arith, crowd-unbind id binding_id w, fits)

    -- If the data directory has no more names than the limit of instances, then it has no more
    -- after any requests one after another, `Provision`, `Deprovision`, `Bind` and `Unbind`,
    -- however each of them ends. The conditions: the requests for instances have plain names as
    -- IDs, the directories of the configuration lie apart, and the port search, the password
    -- choice and the start and the end of a server add no name to the data directory (`IsTidy`).
    pub crowd-answer_all :
        (rs : List Request) (w : World)
        → All IsNamed rs
        → crowd repo w ≤ limit
        → crowd repo (answer_all broker rs w) ≤ limit
    crowd-answer_all [] w named fits = fits
    crowd-answer_all (r ∷ rs) w (named, rest) fits =
        crowd-answer_all rs (answer broker r w) rest (crowd-answer r w named fits)
