-- ===== src/Redis/Process/Server.antt =====
-- redis/process_controller.go: the ping of a server, and a controller from its parts.
use cf_redis_broker.Base.{
  true, leb, code, ◌&&◌, ◌==◌, if◌then◌else◌, atoi, message, Result, err, String, List, [], ◌∷◌, ℤ,
  Bool, Error,
}
use cf_redis_broker.Base.Act.{Act, ◌>>=◌}
use cf_redis_broker.Os.{World}
use cf_redis_broker.Redis.Instance.{Instance}
use cf_redis_broker.Redis.Client.{Connection, connect, ping, with_host, with_port, with_password}
use cf_redis_broker.Redis.Process.{OsProcessController, TcpAddr}

unfoldable pub ping_server :
    {S : Type 0} → (String → Bool → Act S (Connection S)) → Instance → Act S (Unit {0})
ping_server dial instance' = do
  c ←
      connect dial (
        with_host instance'.host ∷ with_port instance'.port ∷ with_password instance'.password ∷ [])
  ping c

-- The execution of commands is that of a package which the program only calls.
module _ (run : String → List String → Act World (Unit {0})) (error_text : Error → String) where
  abbrev pub new_os_process_controller :
      (String → Act World ℤ)
      → (ℤ → World → Bool)
      → (ℤ → Act World (Unit {0}))
      → (Instance → Act World (Unit {0}))
      → (TcpAddr → ℤ → Act World (Unit {0}))
      → String
      → OsProcessController
  new_os_process_controller instance_pid alive kill_process ping_func wait_func executable_path =
      record {
        instance_pid = instance_pid;
        alive = alive;
        kill_process = kill_process;
        ping = ping_func;
        wait_until_connectable = wait_func;
        redis_server_executable_path = executable_path;
        run = run;
        error_text = error_text;
      }

abbrev all_digits : String → Bool
all_digits String.[] = true
all_digits (String.◌∷◌ c s) =
    let rest = all_digits s in (leb 48 (code c) && leb (code c) 57) && rest

-- The first match of `\d+$`; empty if there is none.
unfoldable pub trailing_digits : String → String
trailing_digits String.[] = ""
trailing_digits (String.◌∷◌ c s) =
    let rest = trailing_digits s in if all_digits (String.◌∷◌ c s) then String.◌∷◌ c s else rest

unfoldable pub get_redis_port : String → Result ℤ
get_redis_port name =
    if trailing_digits name == ""
    then err (message "failed to get port")
    else atoi (trailing_digits name)
