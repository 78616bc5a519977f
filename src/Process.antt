-- ===== src/Process.antt =====
-- process/process.go: the processes of the system, through Go's `os.FindProcess` and `os.Process`,
-- which are parameters.
use cf_redis_broker.Base.{Bool, true, false, ℤ, atoi, trim_space, Result, ok, err}
use cf_redis_broker.Base.Act.{Act, inspect, pure, lift, ◌>>=◌, ◌>>◌}
use cf_redis_broker.Os.{World, read_text}
use cf_redis_broker.Os.Paths.{FilePath}

unfoldable pub read_pid : FilePath → Act World ℤ
read_pid pid_file_path = do contents ← read_text pid_file_path; lift (atoi (trim_space contents))

-- `signal_0` sends the signal 0, which only asks whether a process is there.
pub record Processes (S Handle : Type 0) : Type 0 where
  pub find_process : ℤ → Act S Handle
  pub signal_0 : Handle → Act S (Unit {0})
  pub kill_handle : Handle → Act S (Unit {0})
  pub wait : Handle → Act S (Unit {0})

abbrev succeeded {ℓ} : {A : Type ℓ} → Result A → Bool
succeeded (ok a) = true
succeeded (err e) = false

module _ {S Handle : Type 0} (processes : Processes S Handle) where
  open processes use {find_process, signal_0, kill_handle, wait}

  unfoldable pub is_alive : ℤ → S → Bool × S
  is_alive pid s =
      let (found, s') = find_process pid s in
      elim found [
        | err e ↦ (false, s')
        | ok handle ↦ let (answer, s'') = signal_0 handle s' in (succeeded answer, s'')
      ]

  -- The error of the wait is dropped.
  unfoldable pub kill_pid : ℤ → Act S (Unit {0})
  kill_pid pid = do
    handle ← find_process pid
    kill_handle handle
    inspect (wait handle) (λ _. pure tt)

  unfoldable pub kill_provided_pid : Act S ℤ → Act S (Unit {0})
  kill_provided_pid pid_provider = do pid ← pid_provider; kill_pid pid
