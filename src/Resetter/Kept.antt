-- ===== src/Resetter/Kept.antt =====
-- resetter/resetter.go: what the steps of a reset leave alone.
use cf_redis_broker.Base.{
  itoa, ◌≡◌, refl, String, ◌<>◌, false, none, [], ◌∷◌, List, arith, inl, inr, Result, Result-cases,
  ok, err,
}
use cf_redis_broker.Os.{World, os_remove, read_text, node_at}
use cf_redis_broker.Os.Paths.{FilePath, same, join}
use cf_redis_broker.Os.Files.{lookup}
use cf_redis_broker.Os.Laws.{remove_ok}
use cf_redis_broker.Os.Frame.{Stays, Keeps, Keeps-os_remove, Keeps-write_text}
use cf_redis_broker.Redisconf.{Conf, decode, encode}
use cf_redis_broker.Redisconf
use cf_redis_broker.Redisconf.Additions.{load, save}
use cf_redis_broker.Redis.Repository.Setting.{load_reads}
use cf_redis_broker.Migrator.{try_remove}
use cf_redis_broker.Resetter.{
  Resetter, get_authenticated_redis_conn, script_killed, kill_script, stop_redis, delete_data,
  reset_config_with_new_password,
}

module _ {Conn : Type 0} (resetter : Resetter Conn) where
  -- The server, Monit and the search for an address leave what stands at `q`.
  pub record IsAside (q : FilePath) : Type 0 where
    pub dials : (address : String) → Keeps q (resetter.dial address)
    pub sends : (c : Conn) (words : List String) → Keeps q (resetter.do_command c words)
    pub closes : (c : Conn) (w : World) → Stays q w (resetter.close c w)
    pub stops : (name : String) → Keeps q (resetter.stop_and_wait name)
    pub starts : (name : String) → Keeps q (resetter.start_and_wait name)

  abbrev pub aof_file : FilePath
  aof_file = "appendonly.aof" ∷ resetter.working_dir

  abbrev pub dump_file : FilePath
  dump_file = "dump.rdb" ∷ resetter.working_dir

  script_killed_reads : (r : Result (Unit {0})) (w : World) → (script_killed resetter r w).1 ≡ w
  unfolding script_killed
  script_killed_reads (ok u) w = refl
  script_killed_reads (err e) w = ground arith

  module _ (q : FilePath) (aside : IsAside q) where
    get_authenticated_redis_conn-Keeps : Keeps q (get_authenticated_redis_conn resetter)
    unfolding get_authenticated_redis_conn
    get_authenticated_redis_conn-Keeps w = elim (Result-cases (load resetter.live_conf_path w).0) [
      | inl (e, bad) ↦ ground (arith, load_reads resetter.live_conf_path w)
      | inr (conf, good) ↦
          let address : String = Redisconf.host conf <> ":" <> itoa (Redisconf.port conf) in
          let w₁ : World = (resetter.dial address w).1 in
          elim (Result-cases (resetter.dial address w).0) [
            | inl (e, bad) ↦
                ground (arith, load_reads resetter.live_conf_path w, aside.dials address w)
            | inr (c, dialled) ↦
                let words : List String = "AUTH" ∷ Redisconf.password conf ∷ [] in
                ground (
                  arith,
                  load_reads resetter.live_conf_path w,
                  aside.dials address w,
                  aside.sends c words w₁,
                  aside.closes c (resetter.do_command c words w₁).1,
                )
          ]
    ]

    kill_script-Keeps : Keeps q (kill_script resetter)
    unfolding kill_script
    kill_script-Keeps w = elim (Result-cases (get_authenticated_redis_conn resetter w).0) [
      | inl (e, bad) ↦ ground (arith, get_authenticated_redis_conn-Keeps w)
      | inr (c, good) ↦
          let w₁ : World = (get_authenticated_redis_conn resetter w).1 in
          let words : List String = "SCRIPT" ∷ "KILL" ∷ [] in
          let answer : Result (Unit {0}) = (resetter.do_command c words w₁).0 in
          ground (
            arith,
            get_authenticated_redis_conn-Keeps w,
            aside.sends c words w₁,
            aside.closes c (resetter.do_command c words w₁).1,
            script_killed_reads answer (resetter.close c (resetter.do_command c words w₁).1),
          )
    ]

    pub stop_redis-Keeps : Keeps q (stop_redis resetter)
    unfolding stop_redis
    stop_redis-Keeps w =
        ground (arith, kill_script-Keeps w, aside.stops "redis" (kill_script resetter w).1)

    pub delete_data-Keeps :
        same aof_file q ≡ false → same dump_file q ≡ false → Keeps q (delete_data resetter)
    unfolding delete_data try_remove join
    delete_data-Keeps not_aof not_rdb w =
        let w₁ : World = (os_remove aof_file w).1 in
        ground (arith, Keeps-os_remove q aof_file not_aof w, Keeps-os_remove q dump_file not_rdb w₁)

  pub aof_gone :
      (w w' : World) → delete_data resetter w ≡ (ok tt, w') → lookup aof_file w'.tree ≡ none
  unfolding delete_data try_remove join
  aof_gone w w' h =
      let w₁ : World = (os_remove aof_file w).1 in
      let removed : os_remove aof_file w ≡ (ok tt, w₁) = ground arith in
      let kept : Stays aof_file w₁ (os_remove dump_file w₁).1 =
        Keeps-os_remove aof_file dump_file (unfold same in refl) w₁ in
      ground (arith, remove_ok aof_file w w₁ removed, kept)

  pub reset_config-Keeps :
      (q : FilePath)
      → same resetter.live_conf_path q ≡ false
      → Keeps q (reset_config_with_new_password resetter)
  unfolding reset_config_with_new_password save
  reset_config-Keeps q not_live w = elim (Result-cases (load resetter.default_conf_path w).0) [
    | inl (e, bad) ↦ ground (arith, load_reads resetter.default_conf_path w)
    | inr (conf, good) ↦ ground (
      arith,
      load_reads resetter.default_conf_path w,
      Keeps-write_text q resetter.live_conf_path (encode conf) not_live w,
    )
  ]

-- A load depends on its file alone.
pub load-Stays :
    (x : String) (p : FilePath) (w w' : World)
    → Stays (x ∷ p) w w'
    → (load (x ∷ p) w').0 ≡ (load (x ∷ p) w).0
unfolding load read_text node_at
load-Stays x p w w' (kept, refuses) = ground (arith, kept, refuses)
