-- ===== src/Cmd/Programs/Serving.antt =====
-- cmd/broker/main.go.
use cf_redis_broker.Cmd.{set_pid_dir}
use cf_redis_broker.Redis.Repository.{new_local_repository}
use cf_redis_broker.Brokerconfig.{parse_config}
use cf_redis_broker.Base.{
  String, List, ◌∷◌, ◌==◌, eq_iff, if◌then◌else◌, ◌⊎◌, ◌≢◌, Bool-cases, Error, message, false,
  subst, ◌<>◌, true, some, [], arith, inl, inr, ◌≡◌, refl, Result-cases, ok, err,
}
use cf_redis_broker.Base.Act.{Act, pure, lift, ◌>>=◌, ◌>>◌}
use cf_redis_broker.Os.{World, log_info, log_error, always}
use cf_redis_broker.Brokerconfig.{Config}
use cf_redis_broker.Cmd.{local_repository}
use cf_redis_broker.Cmd.Programs.{Outside, config_path, config_or_fatal, controller_of}
use cf_redis_broker.Redis.Repository.{LocalRepository}
use cf_redis_broker.Redis.Repository.Listing.{all_instances_verbose}
use cf_redis_broker.Redis.Process.{as_process_controller}
use cf_redis_broker.Redis.Repository.Listing.Count.{view, view-all_instances_with}
use cf_redis_broker.Cmd.Programs.Settings.{settings, config_or_fatal_lem}
use cf_redis_broker.Broker.{RedisServiceBroker}
use cf_redis_broker.Cmd.Server.{service_broker}

-- The first text that is not empty, or the last one.
unfoldable pub first_named : List String → String → String
first_named [] default = default
first_named (t ∷ ts) default = if t == "" then first_named ts default else t

not_empty : (s : String) → (s == "") ≡ false → s ≢ ""
not_empty s named e = ground (arith, named, (eq_iff s "").1 e)

module _ {Handle Conn : Type 0} (outside : Outside Handle Conn) where
  -- Up to the listing of the instances.
  unfoldable pub read_settings : Act World Config
  unfolding config_path config_or_fatal all_instances_verbose
  read_settings = do
    path ← lift (config_path outside)
    always (log_info "Starting CF Redis broker" [])
    always (log_info ("Config File: " <> path) [])
    config ← config_or_fatal outside "Loading config file" "broker-config-path" path
    always (λ w.
        (all_instances_verbose (local_repository (outside.getenv "SHARED_PID_DIR") config) w).1)
    pure config

  abbrev pub broker_of : Config → LocalRepository → RedisServiceBroker World
  broker_of config repo =
      service_broker outside.find_free_port outside.new_password
        (as_process_controller (controller_of outside repo)) config repo

  unfoldable pub serve : Config → LocalRepository → Act World (Unit {0})
  serve config repo w =
      let (e, w') =
        outside.listen_and_serve (config.host <> ":" <> config.port) (broker_of config repo)
          config.auth_configuration.username config.auth_configuration.password w in
      (err e, log_error "http-listen" (some e) [] w')

  unfoldable pub main : Act World (Unit {0})
  main = do
    config ← read_settings
    serve config (local_repository (outside.getenv "SHARED_PID_DIR") config)

  -- What is done at a SIGTERM, before the program ends.
  unfoldable pub shut_down : LocalRepository → World → World
  unfolding all_instances_verbose
  shut_down repo w = (all_instances_verbose repo (log_info "Starting Redis Broker shutdown" [] w)).1

  verbose-view :
      (repo : LocalRepository) (w : World) → view (all_instances_verbose repo w).1 ≡ view w
  unfolding all_instances_verbose
  verbose-view repo w = view-all_instances_with repo true w

  read_settings_lem :
      (w : World) → ((read_settings w).0 ≡ settings outside w) × (view (read_settings w).1 ≡ view w)
  unfolding read_settings
  read_settings_lem w = elim (Result-cases (config_path outside)) [
    | inl (e, unset) ↦ ground arith
    | inr (path, there) ↦
        let w₁ : World =
          log_info ("Config File: " <> path) [] (log_info "Starting CF Redis broker" [] w) in
        let w₂ : World =
          (config_or_fatal outside "Loading config file" "broker-config-path" path w₁).1 in
        let (result, kept) =
          config_or_fatal_lem outside "Loading config file" "broker-config-path" path w₁ w refl
            there in
        elim (Result-cases (settings outside w)) [
          | inl (e, bad) ↦ ground (arith, result, kept, there)
          | inr (config, good) ↦ ground (
            arith,
            result,
            kept,
            there,
            verbose-view (local_repository (outside.getenv "SHARED_PID_DIR") config) w₂,
          )
        ]
  ]

  -- The repository of a configuration: its directory of pidfiles is the first that is named, by
  -- the environment, by the configuration, or by default.
  abbrev pub repository_of : Config → LocalRepository
  repository_of config = record {
    redis_conf = record config.redis_configuration {
      pidfile_directory =
          first_named
            (outside.getenv "SHARED_PID_DIR" ∷ config.redis_configuration.pidfile_directory ∷ [])
            "/var/vcap/sys/run/shared-instance-pidfiles";
    };
  }

  repository_lem :
      (config : Config)
      → local_repository (outside.getenv "SHARED_PID_DIR") config ≡ repository_of config
  unfolding local_repository set_pid_dir new_local_repository first_named
  repository_lem config = elim (Bool-cases (outside.getenv "SHARED_PID_DIR" == "")) [
    | inl e ↦ elim (Bool-cases (config.redis_configuration.pidfile_directory == "")) [
      | inl e' ↦ rw (e, e') refl
      | inr e' ↦ rw (e, e') refl
    ]
    | inr e ↦ elim (Bool-cases (config.redis_configuration.pidfile_directory == "")) [
      | inl e' ↦ rw (e, e') refl
      | inr e' ↦ rw (e, e') refl
    ]
  ]

  -- The service of requests, up to its end.
  serve_steps :
      (config : Config) (w v : World)
      → (read_settings w).0 ≡ ok config
      → (read_settings w).1 ≡ v
      → let (e, v') =
          outside.listen_and_serve
            (config.host <> ":" <> config.port)
            (broker_of config (repository_of config))
            config.auth_configuration.username
            config.auth_configuration.password
            v in
        main w ≡ (err e, log_error "http-listen" (some e) [] v')
  unfolding main serve
  serve_steps config w v read left =
      subst (λ repo. main w ≡ serve config repo v) (repository_lem config)
        (ground (arith, read, left))

  -- How `main` ends: without a configuration, without a valid one, or with the error of the server.
  abbrev pub Ends : World → Type 0
  Ends w =
      ((outside.getenv "BROKER_CONFIG_PATH" ≡ "")
        × (main w ≡ (err (message "BROKER_CONFIG_PATH not set"), w)))
      ⊎ ((e : Error) × (v : World) × (view v ≡ view w)
          × (outside.getenv "BROKER_CONFIG_PATH" ≢ "")
          × ((parse_config outside.decode_yaml (outside.getenv "BROKER_CONFIG_PATH") w).0 ≡ err e)
          × (main w ≡ (err e, v)))
      ⊎ ((config : Config) × (v v' : World) × (e : Error) × (view v ≡ view w)
          × (outside.getenv "BROKER_CONFIG_PATH" ≢ "")
          × ((parse_config outside.decode_yaml (outside.getenv "BROKER_CONFIG_PATH") w).0
              ≡ ok config)
          × (outside.listen_and_serve (config.host <> ":" <> config.port)
                (broker_of config (repository_of config)) config.auth_configuration.username
                config.auth_configuration.password v
              ≡ (e, v'))
          × (main w ≡ (err e, log_error "http-listen" (some e) [] v')))

  -- The broker changes no file before it serves requests, and one of three things holds.
  -- BROKER_CONFIG_PATH is empty or not set, and `main` ends with the error that says so and
  -- leaves all as it was; or it names a configuration that is not valid, and `main` ends with the
  -- error of its parsing, the files as they were; or it names a valid one, and `main` listens at
  -- the host and port of the configuration, with its user name and password and the files as they
  -- were, over the repository whose directory of pidfiles is the first that is not empty of
  -- SHARED_PID_DIR, the configuration's and the default one, and ends with the error that
  -- listening returned, which it logs.
  pub main_lem : (w : World) → Ends w
  unfolding main config_path read_settings
  main_lem w =
      let path : String = outside.getenv "BROKER_CONFIG_PATH" in
      elim (Bool-cases (path == "")) [
        | inl e ↦ inl ((eq_iff path "").0 e, ground (arith, e))
        | inr named ↦
            let there : config_path outside ≡ ok path = rw named refl in
            let v : World = (read_settings w).1 in
            let (result, kept) = read_settings_lem w in
            elim (Result-cases (parse_config outside.decode_yaml path w).0) [
              | inl (e, bad) ↦
                  inr (
                    inl (e, v, kept, not_empty path named, bad, ground (arith, result, there, bad)))
              | inr (config, good) ↦ inr (
                  inr (
                    config,
                    v,
                    _,
                    _,
                    kept,
                    not_empty path named,
                    good,
                    refl,
                    serve_steps config w v (ground (arith, result, there, good)) refl,
                  ))
            ]
      ]

  pub shut_down-view : (repo : LocalRepository) (w : World) → view (shut_down repo w) ≡ view w
  unfolding shut_down
  shut_down-view repo w = verbose-view repo (log_info "Starting Redis Broker shutdown" [] w)
