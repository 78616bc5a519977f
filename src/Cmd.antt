-- ===== src/Cmd.antt =====
-- The programs of cmd/.
pub mod Monitor
pub mod Server
pub mod Controller
pub mod Lifecycle
pub mod Requests
pub mod Turns
pub mod Programs
pub mod Limited
pub mod Destroying
use cf_redis_broker.Base.{String, Bool, ◌==◌, if◌then◌else◌}
use cf_redis_broker.Brokerconfig.{Config}
use cf_redis_broker.Redis.Repository.{LocalRepository, new_local_repository}

-- `setPidDir` of cmd/broker/main.go and cmd/processmonitor/main.go; the argument is the value of
-- the environment's variable SHARED_PID_DIR, empty if it is not set.
unfoldable pub set_pid_dir : String → LocalRepository → LocalRepository
set_pid_dir pid_dir repo =
    if pid_dir == ""
    then repo
    else record { redis_conf = record repo.redis_conf { pidfile_directory = pid_dir } }

-- The repository of both programs.
unfoldable pub local_repository : String → Config → LocalRepository
unfolding set_pid_dir new_local_repository
local_repository pid_dir config =
    set_pid_dir pid_dir (new_local_repository config.redis_configuration)
