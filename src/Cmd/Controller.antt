-- ===== src/Cmd/Controller.antt =====
-- cmd/broker/main.go and cmd/processmonitor/main.go: the process controller of both programs, from
-- what Go's packages offer for processes, connections and commands.
use cf_redis_broker.Base.{
  [], ◌∷◌, ◌≡◌, refl, String, Bool, List, ℕ, ℤ, arith, Error, Result-cases, ok, inl, inr,
}
use cf_redis_broker.Base.Act.{Act}
use cf_redis_broker.Base.Loop.{for_below, for_below_kept}
use cf_redis_broker.Os.{World}
use cf_redis_broker.Os.Paths.{FilePath}
use cf_redis_broker.Os.Frame.{Stays, Keeps}
use cf_redis_broker.Os.Laws.{read_text_reads}
use cf_redis_broker.Availability.{is_listening, attempt, check, check_interval}
use cf_redis_broker.Process.{Processes, is_alive, kill_pid}
use cf_redis_broker.Redis.Instance.{Instance}
use cf_redis_broker.Redis.Client.{
  Connection, Settings, apply_options, address_of, default_settings, lookup_alias, with_host,
  with_port, with_password, connect, authenticate, ping,
}
use cf_redis_broker.Redis.Repository.{LocalRepository, instance_pid, instance_pid_file_path}
use cf_redis_broker.Redis.Process.{OsProcessController, TcpAddr}
use cf_redis_broker.Redis.Process.Server.{ping_server, new_os_process_controller}
use cf_redis_broker.Redis.Process.Aside.{IsAside}

module _ {Handle Conn : Type 0} (processes : Processes World Handle)
    (dial : String → Bool → Act World (Connection World)) (dial_tcp : TcpAddr → Act World Conn)
    (close : Conn → World → World) (sleep : ℕ → World → World)
    (run : String → List String → Act World (Unit {0})) (error_text : Error → String)
    (repo : LocalRepository) where
  abbrev pub process_controller : OsProcessController
  process_controller =
      new_os_process_controller run error_text (instance_pid repo)
        (λ pid w. (is_alive processes pid w).0) (kill_pid processes) (ping_server dial)
        (check dial_tcp close sleep) ""

  -- What goes on outside leaves what stands at `q`.
  pub record IsOutside (q : FilePath) : Type 0 where
    pub dials : (a : String) (tls : Bool) → Keeps q (dial a tls)
    pub sends :
        (a : String) (tls : Bool) (w : World) (c : Connection World)
        → (dial a tls w).0 ≡ ok c
        → ((words : List String) → Keeps q (c.do_any words))
          × ((words : List String) → Keeps q (c.do_text words))
          × Keeps q c.close
    pub dials_tcp : (a : TcpAddr) → Keeps q (dial_tcp a)
    pub closes : (c : Conn) (w : World) → Stays q w (close c w)
    pub sleeps : (n : ℕ) (w : World) → Stays q w (sleep n w)
    pub runs : (name : String) (args : List String) → Keeps q (run name args)

  module _ (q : FilePath) (outside : IsOutside q) where
    is_listening-Keeps :
        (a : TcpAddr) (w : World) → Stays q w (is_listening dial_tcp close sleep a w).1
    unfolding is_listening
    is_listening-Keeps a w = elim (Result-cases (dial_tcp a w).0) [
      | inl (e, bad) ↦ ground (arith, outside.dials_tcp a w)
      | inr (c, good) ↦ ground (arith, outside.dials_tcp a w, outside.closes c (dial_tcp a w).1)
    ]

    attempt-Keeps : (a : TcpAddr) (w : World) → Stays q w (attempt dial_tcp close sleep a w).1
    unfolding attempt
    attempt-Keeps a w = ground (
      arith,
      is_listening-Keeps a w,
      outside.sleeps check_interval (is_listening dial_tcp close sleep a w).1,
    )

    check-Keeps : (a : TcpAddr) (timeout : ℤ) → Keeps q (check dial_tcp close sleep a timeout)
    unfolding check
    check-Keeps a timeout w =
        let kept : Stays q w
            (for_below (attempt dial_tcp close sleep a) timeout check_interval w).1 =
          for_below_kept (attempt dial_tcp close sleep a) timeout check_interval (Stays q w)
            (λ v h. ground (arith, h, attempt-Keeps a v)) w (refl, refl) in
        ground (arith, kept)

    module _ (a : String) (tls : Bool) (w : World) (connection : Connection World)
        (dialled : (dial a tls w).0 ≡ ok connection) where
      authenticate-Keeps : (c : Settings) → Keeps q (authenticate c connection)
      unfolding authenticate
      authenticate-Keeps c v =
          let (any, text, closed) = outside.sends a tls w connection dialled in
          let words : List String = "AUTH" ∷ c.password ∷ [] in
          ground (arith, any words v, closed (connection.do_any words v).1)

      ping-Keeps :
          (c : Settings) → Keeps q (ping (record { settings = c; connection = connection }))
      unfolding ping
      ping-Keeps c v =
          let (any, text, closed) = outside.sends a tls w connection dialled in
          ground (arith, text (lookup_alias c "PING" ∷ []) v)

    ping_server-Keeps : (i : Instance) → Keeps q (ping_server dial i)
    unfolding ping_server connect
    ping_server-Keeps i w =
        let c : Settings =
          apply_options (with_host i.host ∷ with_port i.port ∷ with_password i.password ∷ [])
            default_settings in
        elim (Result-cases (dial (address_of c) c.tls w).0) [
          | inl (e, bad) ↦ ground (arith, outside.dials (address_of c) c.tls w)
          | inr (connection, good) ↦
              let w₁ : World = (dial (address_of c) c.tls w).1 in
              let w₂ : World = (authenticate c connection w₁).1 in
              ground (
                arith,
                outside.dials (address_of c) c.tls w,
                authenticate-Keeps (address_of c) c.tls w connection good c w₁,
                ping-Keeps (address_of c) c.tls w connection good c w₂,
              )
        ]

    instance_pid-Keeps : (id : String) → Keeps q (instance_pid repo id)
    unfolding instance_pid
    instance_pid-Keeps id w = ground (arith, read_text_reads (instance_pid_file_path repo id) w)

    pub process_controller-IsAside : IsAside process_controller q
    process_controller-IsAside = record {
      finds = instance_pid-Keeps;
      pings = ping_server-Keeps;
      runs = outside.runs;
      waits = check-Keeps;
    }
