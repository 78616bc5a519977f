-- ===== src/Cmd/Programs/Monitoring.antt =====
-- cmd/processmonitor/main.go.
use cf_redis_broker.Base.{
  Bool, true, false, ◌||◌, List, [], ◌∷◌, ◌++◌, arith, inl, inr, ◌≡◌, refl, ap, ◌∙◌, ℕ, ℤ, pos,
  negsuc, Result, Result-cases, ok,
}
use cf_redis_broker.Base.Act.{Act, pure, lift, ◌>>=◌, ◌>>◌}
use cf_redis_broker.Os.{World, log_info, always}
use cf_redis_broker.Brokerconfig.{Config}
use cf_redis_broker.Cmd.{local_repository}
use cf_redis_broker.Cmd.Programs.{Outside, config_path, config_or_fatal, controller_of, sleep_for}
use cf_redis_broker.Redis.Repository.{LocalRepository}
use cf_redis_broker.Cmd.Monitor.{start_up, check_round}
use cf_redis_broker.Redis.Repository.Listing.Count.{view}
use cf_redis_broker.Redis.Creator.{seconds}

-- The first SIGUSR1 is logged, and no later one is received.
unfoldable pub trap : Bool → Bool → World → World
trap false true w = log_info "Trapped USR1, disabling process monitor" [] w
trap false false w = w
trap true signal w = w

module _ {Handle Conn : Type 0} (outside : Outside Handle Conn) where
  -- The endless loop, for as many rounds as the list is long. An entry tells whether SIGUSR1 has
  -- come in since the round before.
  unfoldable pub watch : Config → LocalRepository → Bool → List Bool → Act World (Unit {0})
  unfolding check_round trap
  watch config repo skip [] = pure tt
  watch config repo skip (signal ∷ signals) = do
    always (trap skip signal)
    check_round repo (controller_of outside repo) (skip || signal)
    always (sleep_for outside (seconds config.redis_configuration.process_check_interval_seconds))
    watch config repo (skip || signal) signals

  unfoldable pub main : List Bool → Act World (Unit {0})
  unfolding config_path config_or_fatal start_up
  main signals = do
    path ← lift (config_path outside)
    config ← config_or_fatal outside "could not parse config file" "config-path" path
    always (log_info "Starting process monitor" [])
    start_up (local_repository (outside.getenv "SHARED_PID_DIR") config)
    watch config (local_repository (outside.getenv "SHARED_PID_DIR") config) false signals

  module _ (sleeps : (n : ℕ) (w : World) → view (outside.sleep n w) ≡ view w) where
    sleep_for-view : (d : ℤ) (w : World) → view (sleep_for outside d w) ≡ view w
    sleep_for-view (pos n) w = sleeps n w
    sleep_for-view (negsuc n) w = refl

    watch_skipped :
        (config : Config) (repo : LocalRepository) (signals : List Bool) (w : World)
        → ((watch config repo true signals w).0 ≡ ok tt)
          × (view (watch config repo true signals w).1 ≡ view w)
    unfolding watch check_round trap
    watch_skipped config repo [] w = (refl, refl)
    watch_skipped config repo (signal ∷ signals) w =
        let interval : ℤ = seconds config.redis_configuration.process_check_interval_seconds in
        let w₁ : World = log_info "Skipping instance check" [] w in
        let w₂ : World = sleep_for outside interval w₁ in
        let (done, kept) = watch_skipped config repo signals w₂ in
        (done, kept ∙ sleep_for-view interval w₁)

    watch_after :
        (config : Config) (repo : LocalRepository) (skip : Bool) (signals : List Bool) (w : World)
        → ((watch config repo skip (true ∷ signals) w).0 ≡ ok tt)
          × (view (watch config repo skip (true ∷ signals) w).1 ≡ view w)
    unfolding watch trap
    watch_after config repo true signals w = watch_skipped config repo (true ∷ signals) w
    watch_after config repo false signals w =
        watch_skipped config repo (true ∷ signals) (trap false true w)

    -- Where the rounds of the monitor up to a SIGUSR1 succeed, and sleeping leaves the files
    -- alone, the rounds after it succeed too, however many there are, and leave the files as they
    -- were.
    pub watch_signalled :
        (config : Config) (repo : LocalRepository) (skip : Bool) (before after : List Bool)
        (w w' : World)
        → watch config repo skip before w ≡ (ok tt, w')
        → ((watch config repo skip (before ++ true ∷ after) w).0 ≡ ok tt)
          × (view (watch config repo skip (before ++ true ∷ after) w).1 ≡ view w')
    unfolding watch
    watch_signalled config repo skip [] after w w' done =
        let (ends, kept) = watch_after config repo skip after w in
        (ends, kept ∙ ap (λ (r : Result (Unit {0}) × World). view r.1) done)
    watch_signalled config repo skip (signal ∷ signals) after w w' done =
        let w₀ : World = trap skip signal w in
        let checked : Act World (Unit {0}) =
          check_round repo (controller_of outside repo) (skip || signal) in
        let slept : World =
          sleep_for outside (seconds config.redis_configuration.process_check_interval_seconds)
            (checked w₀).1 in
        elim (Result-cases (checked w₀).0) [
          | inl (e, bad) ↦ absurd (ground arith)
          | inr (u, good) ↦
              let rest : watch config repo (skip || signal) signals slept ≡ (ok tt, w') =
                ground arith in
              let (ends, kept) =
                watch_signalled config repo (skip || signal) signals after slept w' rest in
              rw good (ends, kept)
        ]
