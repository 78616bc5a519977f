-- ===== src/Cmd/Turns.antt =====
-- cmd/broker/main.go and cmd/processmonitor/main.go: a creation in the broker and the rounds of the
-- process monitor, in turns over the same files.
pub mod Unlocked
pub mod Destroyed
use cf_redis_broker.Base.{
  All, String, Bool, true, false, Option, none, some, List, [], ◌∷◌, ◌≡◌, ℤ, Result, ok, err,
}
use cf_redis_broker.Base.Act.{Act, on_error, pure, ◌>>◌}
use cf_redis_broker.Os.{World, os_stat, log_info, log_error, always}
use cf_redis_broker.Os.Paths.{FilePath, IsName, join}
use cf_redis_broker.Os.Frame.{Stays}
use cf_redis_broker.Redis.Instance.{Instance}
use cf_redis_broker.Redis.Repository.{
  LocalRepository, instance_id_of, instance_base_dir, instance_config_path, instance_data_dir,
  instance_log_file_path, ensure_directories_exist, lock, unlock, write_config_file,
}
use cf_redis_broker.Redis.Repository.Listing.{all_instances, all_instances_verbose}
use cf_redis_broker.Redis.Process.{OsProcessController, start_and_wait_until_ready}
use cf_redis_broker.Cmd.Monitor.{ensure_running, start_up}

-- How far `Create` has come with a new instance: the call that comes next.
pub data Phase : Type 0 where
  making locking configuring starting unlocking finished : Phase

abbrev pub following : Phase → Phase
following making = locking
following locking = configuring
following configuring = starting
following starting = unlocking
following unlocking = finished
following finished = finished

-- `round` is what the monitor has still to look at, and `chosen` the instance whose lock it found
-- missing.
pub record Turn : Type 0 where
  pub world : World
  pub phase : Phase
  pub failed : Bool
  pub round : List Instance
  pub chosen : Option Instance

-- A failed `Stat`, for whatever reason, means that there is no lock.
abbrev pub chosen_by {ℓ} : {A : Type ℓ} → Result A → Instance → Option Instance
chosen_by (ok node) j = none
chosen_by (err e) j = some j

-- A creation that begins, and a monitor between two rounds.
abbrev pub at_first : World → Turn
at_first w = record { world = w; phase = making; failed = false; round = []; chosen = none }

module _ (repo : LocalRepository) (controller : OsProcessController) (timeout : ℤ)
    (i : Instance) where
  -- The calls of `Setup`, the start of the server, and the call that unlocks.
  unfoldable pub call : Phase → Act World (Unit {0})
  call making =
      on_error (ensure_directories_exist repo i)
        (λ e. log_error "ensure-dirs-exist" (some e) (instance_id_of i))
  call locking =
      on_error (lock repo i) (λ e. log_error "lock-shared-instance" (some e) (instance_id_of i))
  call configuring = do
    on_error (write_config_file repo i)
        (λ e. log_error "write-config-file" (some e) (instance_id_of i))
    always (
        log_info "provision-instance" (
          ("instance_id", i.id)
          ∷ ("plan", "shared-vm")
          ∷ ("message", "Successfully provisioned Redis instance")
          ∷ []))
  call starting =
      start_and_wait_until_ready controller i (instance_config_path repo i.id)
        (instance_data_dir repo i.id) (instance_log_file_path repo i.id) timeout
  call unlocking = unlock repo i
  call finished = pure tt

  -- A creation goes on after a success, and ends with an error.
  abbrev went_on : Result (Unit {0}) × World → Turn → Turn
  went_on (ok u, w) t = record t { world = w; phase = following t.phase }
  went_on (err e, w) t = record t { world = w; failed = true }

  abbrev pub broker_moves : Turn → Turn
  broker_moves t = went_on (call t.phase t.world) t

  abbrev pub monitor_lists : Turn → Turn
  monitor_lists t = record t {
    world = (all_instances repo t.world).1;
    round = (all_instances repo t.world).0.instances;
  }

  abbrev pub monitor_looks : Instance → List Instance → Turn → Turn
  monitor_looks j rest t =
      let (r, w) = os_stat (join (instance_base_dir repo j.id) "lock") t.world in
      record t { world = w; round = rest; chosen = chosen_by r j }

  abbrev pub monitor_starts : Instance → Turn → Turn
  monitor_starts j t = record t {
    world = (ensure_running repo controller j t.world).1;
    chosen = none;
  }

  -- The end of the monitor and its start, which writes the configuration of every instance.
  abbrev pub monitor_restarts : Turn → Turn
  monitor_restarts t = record t { world = (start_up repo t.world).1; round = []; chosen = none }

  -- A step of one of the programs, or of anything else, which leaves the lock and the configuration
  -- of the new instance alone. The IDs that the monitor has are names of a directory. It may list
  -- anew at any time, and end and start at any time.
  pub data Step : Turn → Turn → Type 0 where
    broker : (t : Turn) → t.failed ≡ false → Step t (broker_moves t)
    lists : (t : Turn) → t.chosen ≡ none → Step t (monitor_lists t)
    looks :
        (t : Turn) (j : Instance) (rest : List Instance)
        → t.chosen ≡ none
        → t.round ≡ j ∷ rest
        → Step t (monitor_looks j rest t)
    starts :
        (t : Turn) (j : Instance) → t.chosen ≡ some j → IsName j.id → Step t (monitor_starts j t)
    restarts :
        (t : Turn)
        → All (λ (j : Instance). IsName j.id) (all_instances_verbose repo t.world).0.instances
        → Step t (monitor_restarts t)
    others :
        (t : Turn) (w : World)
        → Stays ("lock" ∷ instance_base_dir repo i.id) t.world w
        → Stays ("redis.conf" ∷ instance_base_dir repo i.id) t.world w
        → Step t (record t { world = w })

  pub data Reach (s : Turn) : Turn → Type 0 where
    here : Reach s s
    next : {t u : Turn} → Reach s t → Step t u → Reach s u
