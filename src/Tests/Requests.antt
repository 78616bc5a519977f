-- ===== src/Tests/Requests.antt =====
-- The broker's requests on a small disk.
use cf_redis_broker.Base.{
  ◌≡◌, refl, itoa, ◌==◌, arith, message, if◌then◌else◌, ℤ, false, ◌↔◌, none, some, ok, err,
  instance_does_not_exist,
}
use cf_redis_broker.Os.{
  World, stat, os_stat, os_read_dir, read_text, write_text, os_remove, os_remove_all, os_mkdir_all,
  make_dirs, put_dir, node_at,
}
use cf_redis_broker.Os.Paths.{IsName, same, is_under, join, render, render_onto}
use cf_redis_broker.Os.Files.{lookup, insert, erase, erase_under, names_in, sort}
use cf_redis_broker.Redisconf.{decode, encode, get, set}
use cf_redis_broker.Redisconf.Additions.{load, save, with_additions, copy_with_instance_additions}
use cf_redis_broker.Redis.Repository.{
  deprovisioned, setup, lock, unlock, delete, find_by_id, instance_exists, instance_base_dir,
  ensure_directories_exist, write_config_file,
}
use cf_redis_broker.Redis.Repository.Listing.{
  instance_count, all_instances, all_instances_with, list_names, file_result, collect, announced,
  verbosely,
}
use cf_redis_broker.Redis.Creator.{
  LocalInstanceCreator, create, create_counted, create_new, start_local_instance, destroy,
}
use cf_redis_broker.Broker.{
  RedisServiceBroker, value_of, provision, deprovision, bind, unbind, creator_with,
  create_with_plan, create_with_key, plan_key, first_with,
}
use cf_redis_broker.Broker.Catalog.{plans, services}
use cf_redis_broker.Broker.Laws.{Provisions, provision_iff, unknown_instance}
use cf_redis_broker.Broker.Offered.{is_offered, provision-services}
use cf_redis_broker.Redis.Repository.Reading.{instance_exists_reads}
use cf_redis_broker.Cmd.Server.{as_creator, service_broker, local_creator}
use cf_redis_broker.Cmd.Lifecycle.{IsQuiet, IsReady}
use cf_redis_broker.Cmd.Requests.{bind-provision, deprovision-unknown}
use cf_redis_broker.Tests.Data.{
  config, repo, defaults, one_ArePlain, empty_disk, free_port, new_password, controller,
}

abbrev pub broker : RedisServiceBroker World
broker = service_broker free_port new_password controller config repo

abbrev creator : LocalInstanceCreator World
creator = local_creator free_port new_password controller config repo

provisioned : World
provisioned = (provision broker "one" "plan" empty_disk).1

emptied : World
emptied = (deprovision broker "one" provisioned).1

provision_ok : provision broker "one" "plan" empty_disk ≡ (ok tt, provisioned)
unfolding verbosely all_instances_with list_names file_result collect announced provisioned
    provision creator_with first_with instance_exists os_stat create_with_plan create_with_key
    plan_key plans create create_counted create_new start_local_instance instance_count
    all_instances setup unlock write_text os_remove os_mkdir_all make_dirs put_dir node_at same
    insert erase lookup names_in sort decode encode set load save with_additions
    copy_with_instance_additions lock ensure_directories_exist write_config_file os_read_dir
    read_text is_under join render render_onto
provision_ok = refl

quiet : IsQuiet free_port new_password controller
quiet = record {
  port_tree = λ w. refl;
  port_refuses = λ w. refl;
  password_tree = λ w. refl;
  password_refuses = λ w. refl;
  port_range = λ w port found. (7000, ground arith, omega arith);
  start_keeps = λ i x base config data_dir log_file timeout w at. (refl, refl);
  start_refuses = λ i config data_dir log_file timeout w. refl;
}

ready : IsReady free_port new_password controller quiet config repo "one" defaults empty_disk
unfolding node_at lookup join same render
ready = record {
  default_there = refl;
  default_plain = refl;
  default_apart = refl;
  values_plain = λ v. one_ArePlain;
  may_read = refl;
  may_stat = refl;
}

bind-provision_example :
    (v : World) × (port : ℤ) × (v.tree ≡ empty_disk.tree)
    × ((free_port v).0 ≡ ok port)
    × (bind broker "one" "binding" provisioned ≡ (
      ok (record {
        credentials = some (record { host = "10.0.0.1"; port = port; password = "pw" });
      }),
      provisioned,
    ))
bind-provision_example =
    bind-provision free_port new_password controller quiet config repo "one" "plan" "binding"
      defaults empty_disk provisioned ready provision_ok

deprovision_ok : deprovision broker "one" provisioned ≡ (ok tt, emptied)
unfolding deprovision emptied destroy find_by_id get delete os_remove_all erase_under itoa
    deprovisioned verbosely all_instances_with list_names file_result collect announced provisioned
    provision creator_with first_with instance_exists os_stat create_with_plan create_with_key
    plan_key plans create create_counted create_new start_local_instance instance_count
    all_instances setup unlock write_text os_remove os_mkdir_all make_dirs put_dir node_at same
    insert erase lookup names_in sort decode encode set load save with_additions
    copy_with_instance_additions lock ensure_directories_exist write_config_file os_read_dir
    read_text is_under join render render_onto
deprovision_ok = refl

one_IsName : IsName "one"
one_IsName = record { one = refl; not_empty = refl; not_dot = refl; not_dots = refl }

emptied_free : emptied.refuses (stat (instance_base_dir repo "one")) ≡ none
unfolding deprovision emptied destroy find_by_id get delete os_remove_all erase_under itoa
    deprovisioned verbosely all_instances_with list_names file_result collect announced provisioned
    provision creator_with first_with instance_exists os_stat create_with_plan create_with_key
    plan_key plans create create_counted create_new start_local_instance instance_count
    all_instances setup unlock write_text os_remove os_mkdir_all make_dirs put_dir node_at same
    insert erase lookup names_in sort decode encode set load save with_additions
    copy_with_instance_additions lock ensure_directories_exist write_config_file os_read_dir
    read_text is_under join render render_onto
emptied_free = refl

deprovision-unknown_example :
    (deprovision broker "one" emptied ≡ (err instance_does_not_exist, emptied))
    × (bind broker "one" "binding" emptied ≡ (err instance_does_not_exist, emptied))
    × (unbind broker "one" "binding" emptied ≡ (err instance_does_not_exist, emptied))
deprovision-unknown_example =
    deprovision-unknown free_port new_password controller quiet config repo "one" "binding"
      provisioned emptied one_IsName emptied_free deprovision_ok

provision_iff_example :
    (provision broker "one" "plan" empty_disk ≡ (ok tt, provisioned))
    ↔ Provisions broker "one" "plan" empty_disk provisioned
provision_iff_example = provision_iff broker "one" "plan" empty_disk provisioned

absent : value_of (instance_exists repo "one" empty_disk).0 ≡ false
unfolding instance_exists os_stat lookup node_at join same
absent = refl

unknown_instance_example :
    (deprovision broker "one" empty_disk ≡ (err instance_does_not_exist, empty_disk))
    × (bind broker "one" "binding" empty_disk ≡ (err instance_does_not_exist, empty_disk))
    × (unbind broker "one" "binding" empty_disk ≡ (err instance_does_not_exist, empty_disk))
unknown_instance_example =
    unknown_instance broker "one" "binding" empty_disk (instance_exists_reads repo "one", tt)
      (instance_exists_reads repo "one", tt) (absent, tt) (absent, tt)

absent_creator : creator_with broker "one" empty_disk ≡ (none, empty_disk)
unfolding creator_with first_with instance_exists os_stat lookup node_at join same
absent_creator = refl

provision-services_example : provision broker "one" "small" empty_disk ≡ (
    if "small" == ""
    then (err (message "plan_id required"), empty_disk)
    else if is_offered "small" (services config)
    then create creator "one" empty_disk
    else (err (message "plan_id not recognized"), empty_disk))
provision-services_example =
    provision-services broker (as_creator creator) refl "one" "small" empty_disk empty_disk
      absent_creator
