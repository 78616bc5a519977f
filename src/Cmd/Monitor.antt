-- ===== src/Cmd/Monitor.antt =====
-- cmd/processmonitor/main.go: what the process monitor does at its start, and in each round.
pub mod Watching
pub mod Restarted
use cf_redis_broker.Base.{String, Bool, true, false, some, List, [], ◌∷◌, Error, ok, err}
use cf_redis_broker.Base.Act.{Act, inspect, on_error, pure, ◌>>◌}
use cf_redis_broker.Os.{World, os_stat, log_info, log_error, always}
use cf_redis_broker.Os.Paths.{join}
use cf_redis_broker.Redis.Instance.{Instance}
use cf_redis_broker.Redis.Repository.{
  LocalRepository, instance_base_dir, instance_config_path, instance_data_dir,
  instance_pid_file_path, instance_log_file_path, ensure_directories_exist, write_config_file,
}
use cf_redis_broker.Redis.Repository.Listing.{all_instances, all_instances_verbose}
use cf_redis_broker.Redis.Process.{OsProcessController}
use cf_redis_broker.Redis.Process

abbrev instance_only : Instance → List (String × String)
instance_only instance' = ("instance", instance'.id) ∷ []

-- `logger.Fatal` ends the program: the error is raised past all that follows.
abbrev fatal : String → Instance → Error → World → World
fatal action instance' e = log_error action (some e) (instance_only instance')

module _ (repo : LocalRepository) where
  unfoldable pub copy_config_file : Instance → Act World (Unit {0})
  unfolding ensure_directories_exist write_config_file
  copy_config_file instance' = do
    on_error (ensure_directories_exist repo instance')
        (fatal "Error creating instance directories" instance')
    on_error (write_config_file repo instance') (fatal "Error writing redis config" instance')

  -- The loop at the start.
  unfoldable pub copy_config_files : List Instance → Act World (Unit {0})
  unfolding copy_config_file
  copy_config_files [] = pure tt
  copy_config_files (i ∷ is) = do copy_config_file i; copy_config_files is

  unfoldable pub start_up : Act World (Unit {0})
  unfolding copy_config_files all_instances_verbose
  start_up w =
      let (listing, w') = all_instances_verbose repo w in copy_config_files listing.instances w'

  module _ (controller : OsProcessController) where
    unfoldable pub ensure_running : Instance → Act World (Unit {0})
    unfolding Process.ensure_running
    ensure_running instance' =
        on_error
          (Process.ensure_running controller instance' (instance_config_path repo instance'.id)
            (instance_data_dir repo instance'.id) (instance_pid_file_path repo instance'.id)
            (instance_log_file_path repo instance'.id))
          (fatal "Error starting instance" instance')

    -- A failed `Stat` of the lock file, for whatever reason, means that there is no lock.
    unfoldable pub ensure_running_if_not_locked : Instance → Act World (Unit {0})
    unfolding ensure_running os_stat
    ensure_running_if_not_locked instance' =
        inspect (os_stat (join (instance_base_dir repo instance'.id) "lock"))
          (elim [ ok _ ↦ pure tt | err _ ↦ ensure_running instance' ])

    unfoldable pub ensure_each : List Instance → Act World (Unit {0})
    unfolding ensure_running_if_not_locked
    ensure_each [] = pure tt
    ensure_each (i ∷ is) = do ensure_running_if_not_locked i; ensure_each is

    -- A round of the endless loop, up to its sleep; `true` is the state after a SIGUSR1.
    unfoldable pub check_round : Bool → Act World (Unit {0})
    unfolding ensure_each all_instances
    check_round true w = always (log_info "Skipping instance check" []) w
    check_round false w =
        let (listing, w') = all_instances repo w in ensure_each listing.instances w'
