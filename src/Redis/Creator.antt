-- ===== src/Redis/Creator.antt =====
-- redis/local_instance_creator.go: creating and destroying instances, over any repository and any
-- process controller. Both are interfaces in the program, and records over a state here.
pub mod Local
pub mod Laws
use cf_redis_broker.Base.{
  ℕ, ◌*◌, suc, String, Bool, if◌then◌else◌, List, [], ◌∷◌, ℤ, pos, negsuc, negative, leb_ℤ, Error,
  message, instance_limit_met, Result, ok, err,
}
use cf_redis_broker.Base.Act.{Act, pure, raise, ◌>>=◌, ◌>>◌}
use cf_redis_broker.Os.Paths.{FilePath}
use cf_redis_broker.Brokerconfig.{ServiceConfiguration}
use cf_redis_broker.Redis.Instance.{Instance}

pub record ProcessController (S : Type 0) : Type 0 where
  pub start_and_wait_until_ready : Instance → FilePath → FilePath → FilePath → ℤ → Act S (Unit {0})
  pub kill : Instance → Act S (Unit {0})

pub record LocalInstanceRepository (S : Type 0) : Type 0 where
  pub find_by_id : String → Act S Instance
  pub instance_exists : String → Act S Bool
  pub setup : Instance → Act S (Unit {0})
  pub delete : String → Act S (Unit {0})
  pub instance_data_dir : String → FilePath
  pub instance_config_path : String → FilePath
  pub instance_log_file_path : String → FilePath
  pub instance_pid_file_path : String → FilePath
  pub instance_count : S → (ℕ × List Error) × S
  pub lock : Instance → Act S (Unit {0})
  pub unlock : Instance → Act S (Unit {0})

-- `new_password` is `uuid.NewRandom().String()`, of a package that the program only calls.
pub record LocalInstanceCreator (S : Type 0) : Type 0 where
  pub repository : LocalInstanceRepository S
  pub find_free_port : Act S ℤ
  pub new_password : S → String × S
  pub process_controller : ProcessController S
  pub redis_configuration : ServiceConfiguration

-- `time.Duration(n) * time.Second`, in nanoseconds.
abbrev pub seconds : ℤ → ℤ
seconds (pos n) = pos (n * 1000000000)
seconds (negsuc n) = negative (suc n * 1000000000)

module _ {S : Type 0} (creator : LocalInstanceCreator S) where
  open creator use {repository, process_controller, redis_configuration}

  unfoldable pub start_local_instance : Instance → Act S (Unit {0})
  start_local_instance instance' =
      process_controller.start_and_wait_until_ready instance'
        (repository.instance_config_path instance'.id) (repository.instance_data_dir instance'.id)
        (repository.instance_log_file_path instance'.id)
        (seconds redis_configuration.start_redis_timeout_seconds)

  -- From the search for a port on.
  unfoldable pub create_new : String → Act S (Unit {0})
  create_new instance_id = do
    port ← creator.find_free_port
    password ← (λ s. let (text, s') = creator.new_password s in (ok text, s'))
    let new : Instance = record {
      id = instance_id;
      host = redis_configuration.host;
      port = port;
      password = password;
    }
    repository.setup new
    start_local_instance new
    repository.unlock new

  -- What the count of instances allows.
  unfoldable pub create_counted : ℕ × List Error → String → Act S (Unit {0})
  create_counted (count, e ∷ es) instance_id =
      raise (message "Failed to determine current instance count, view broker logs for details")
  create_counted (count, []) instance_id =
      if leb_ℤ redis_configuration.service_instance_limit (pos count)
      then raise instance_limit_met
      else create_new instance_id

  unfoldable pub create : String → Act S (Unit {0})
  create instance_id s =
      let (counted, s') = repository.instance_count s in create_counted counted instance_id s'

  unfoldable pub destroy : String → Act S (Unit {0})
  destroy instance_id = do
    found ← repository.find_by_id instance_id
    repository.lock found
    process_controller.kill found
    repository.delete instance_id
