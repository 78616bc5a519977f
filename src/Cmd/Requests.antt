-- ===== src/Cmd/Requests.antt =====
-- cmd/broker/main.go, with the packages broker and redis: the requests one after another, down to
-- the files on the disk.
use mathlib.Core.Option.{some-injective}
use cf_redis_broker.Base.{
  subst, ◌≡◌, refl, ap, sym, ◌∙◌, String, Bool, true, false, Option, none, some, [], arith, ℤ,
  Error, Result, ok, err, instance_does_not_exist,
}
use cf_redis_broker.Base.Act.{Act}
use cf_redis_broker.Os.{World, Call, stat}
use cf_redis_broker.Os.Paths.{same, IsName}
use cf_redis_broker.Os.Files.{Tree}
use cf_redis_broker.Brokerconfig.{Config}
use cf_redis_broker.Redis.Instance.{Instance}
use cf_redis_broker.Redis.Repository.{
  LocalRepository, pidfile_directory, instance_base_dir, instance_config_path, lock_file_path,
  setup, unlock, find_by_id, instance_exists,
}
use cf_redis_broker.Redis.Repository
use cf_redis_broker.Redis.Repository.Reading.{instance_exists_reads}
use cf_redis_broker.Redis.Repository.Removing.{instance_exists-delete}
use cf_redis_broker.Redis.Creator.{ProcessController, start_local_instance}
use cf_redis_broker.Redis.Creator
use cf_redis_broker.Redis.Creator.Laws.{Creation, create_steps, destroy_iff}
use cf_redis_broker.Broker.{
  RedisServiceBroker, InstanceCreator, value_of, provision, deprovision, bind, unbind, creator_with,
  first_with,
}
use cf_redis_broker.Broker.Laws.{provision_iff, binder_first, bind_with, unknown_instance}
use cf_redis_broker.Cmd.Server.{local_creator, service_broker, as_binder}
use cf_redis_broker.Cmd.Lifecycle.{IsQuiet, IsReady, created, counted_view}

module _ (find_free_port : Act World ℤ) (new_password : World → String × World)
    (controller : ProcessController World) (quiet : IsQuiet find_free_port new_password controller)
    (config : Config) (repo : LocalRepository) where
  abbrev creator : Creator.LocalInstanceCreator World
  creator = local_creator find_free_port new_password controller config repo

  abbrev broker : RedisServiceBroker World
  broker = service_broker find_free_port new_password controller config repo

  probe_reads : (instance_id : String) (w : World) → (creator_with broker instance_id w).1 ≡ w
  unfolding creator_with first_with
  probe_reads instance_id w = ground (arith, instance_exists_reads repo instance_id w)

  provision_creates :
      (instance_id plan_id : String) (w w' : World)
      → provision broker instance_id plan_id w ≡ (ok tt, w')
      → Creator.create creator instance_id w ≡ (ok tt, w')
  provision_creates instance_id plan_id w w' h =
      let (fresh, on, same, given, c, at, run) =
        (provision_iff broker instance_id plan_id w w').0 h in
      let asked : (creator_with broker instance_id w).1 ≡ w = probe_reads instance_id w in
      subst (λ (d : InstanceCreator World). d.create instance_id w ≡ (ok tt, w'))
        (sym (some-injective _ c at)) (rw asked at run)

  repository_bind :
      (instance_id binding_id : String) (w : World) (i : Instance)
      → find_by_id repo instance_id w ≡ (ok i, w)
      → Repository.bind repo instance_id binding_id w
        ≡ (ok (record { host = i.host; port = i.port; password = i.password }), w)
  unfolding Repository.bind
  repository_bind instance_id binding_id w i found = rw found refl

  bound :
      (instance_id binding_id : String) (w : World) (i : Instance)
      → instance_exists repo instance_id w ≡ (ok true, w)
      → find_by_id repo instance_id w ≡ (ok i, w)
      → bind broker instance_id binding_id w ≡ (
        ok (record {
          credentials = some (record { host = i.host; port = i.port; password = i.password });
        }),
        w,
      )
  bound instance_id binding_id w i exists found =
      bind_with broker instance_id binding_id w w w (as_binder repo) _
        (binder_first broker instance_id "shared" (as_binder repo) [] w w refl exists)
        (repository_bind instance_id binding_id w i found)

  -- Where nothing that the requests read is refused, the default configuration is a text without
  -- carriage returns apart from the lock file, the values that are added are plain (`IsReady`),
  -- and the port search, the password choice and the start of a server leave the files as
  -- `IsQuiet` says: after a `Provision` that succeeds, `Bind` succeeds and changes nothing, and
  -- returns the configured host, the port that the search found and the password that was chosen,
  -- both sought on the files as they were.
  pub bind-provision :
      (instance_id plan_id binding_id text : String) (w w' : World)
      → IsReady find_free_port new_password controller quiet config repo instance_id text w
      → provision broker instance_id plan_id w ≡ (ok tt, w')
      → (v : World) × (port : ℤ) × (v.tree ≡ w.tree)
        × ((find_free_port v).0 ≡ ok port)
        × (bind broker instance_id binding_id w' ≡ (
          ok (record {
            credentials = some (record {
              host = repo.redis_conf.host;
              port = port;
              password = (new_password (find_free_port v).1).0;
            });
          }),
          w',
        ))
  bind-provision instance_id plan_id binding_id text w w' ready h =
      let c : Creation creator instance_id w w' =
        create_steps creator instance_id w w' (provision_creates instance_id plan_id w w' h) in
      let (exists, found) =
        created find_free_port new_password controller quiet config repo instance_id text w w' c
          ready in
      let password : c.password ≡ (new_password (find_free_port c.counted).1).0 =
        ap (λ (r : String × World). r.0) (sym c.password_ok)
        ∙ ap (λ (r : Result ℤ × World). (new_password r.1).0) (sym c.port_ok) in
      (
        c.counted,
        c.port,
        ap (λ (v : Tree × (Call → Option Error)). v.0)
            (counted_view find_free_port new_password controller quiet config repo instance_id w w'
              c),
        ap (λ (r : Result ℤ × World). r.0) c.port_ok,
        bound instance_id binding_id w' _ exists found
            ∙ ap
                (λ s. (
                  ok (record {
                    credentials =
                        some (record { host = repo.redis_conf.host; port = c.port; password = s });
                  }),
                  w',
                ))
                password,
      )

  deprovision_destroys :
      (instance_id : String) (w w' : World)
      → deprovision broker instance_id w ≡ (ok tt, w')
      → Creator.destroy creator instance_id w ≡ (ok tt, w')
  unfolding deprovision creator_with first_with
  deprovision_destroys instance_id w w' h = ground (arith, instance_exists_reads repo instance_id w)

  -- Where the port search, the password choice and the start of a server leave the files as
  -- `IsQuiet` says: after a `Deprovision` that succeeds, where the ID is a plain name and the
  -- system lets the broker look for the directory, `Deprovision`, `Bind` and `Unbind` of the same
  -- ID return that the instance does not exist, and change nothing.
  pub deprovision-unknown :
      (instance_id binding_id : String) (w w' : World)
      → IsName instance_id
      → w'.refuses (stat (instance_base_dir repo instance_id)) ≡ none
      → deprovision broker instance_id w ≡ (ok tt, w')
      → (deprovision broker instance_id w' ≡ (err instance_does_not_exist, w'))
        × (bind broker instance_id binding_id w' ≡ (err instance_does_not_exist, w'))
        × (unbind broker instance_id binding_id w' ≡ (err instance_does_not_exist, w'))
  deprovision-unknown instance_id binding_id w w' name free h =
      let (i, w₁, w₂, w₃, found, locked, killed, deleted) =
        (destroy_iff creator instance_id w w').0 (deprovision_destroys instance_id w w' h) in
      let gone : instance_exists repo instance_id w' ≡ (ok false, w') =
        instance_exists-delete repo instance_id w₃ w' name free deleted in
      let absent : value_of (instance_exists repo instance_id w').0 ≡ false =
        ap (λ (r : Result Bool × World). value_of r.0) gone in
      unknown_instance broker instance_id binding_id w' (instance_exists_reads repo instance_id, tt)
        (instance_exists_reads repo instance_id, tt) (absent, tt) (absent, tt)
