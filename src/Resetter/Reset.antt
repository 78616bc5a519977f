-- ===== src/Resetter/Reset.antt =====
-- resetter/resetter.go: a whole reset.
use cf_redis_broker.Base.{
  ◌≡◌, refl, ap, ◌∙◌, String, ◌<>◌, false, none, some, ◌∷◌, arith, has_byte, inl, inr, Result,
  Result-cases, ok, pair_path,
}
use cf_redis_broker.Base.Act.{Act}
use cf_redis_broker.Os.{World, read_file}
use cf_redis_broker.Os.Paths.{FilePath, same}
use cf_redis_broker.Os.Files.{file, lookup}
use cf_redis_broker.Os.Frame.{Stays}
use cf_redis_broker.Redisconf.{Conf, decode, encode}
use cf_redis_broker.Redisconf
use cf_redis_broker.Redisconf.Additions.{load}
use cf_redis_broker.Redis.Repository.Setting.{load_reads}
use cf_redis_broker.Redis.Process.{TcpAddr}
use cf_redis_broker.Resetter.{
  Resetter, stop_redis, delete_data, reset_config_with_new_password, start_redis, reset_redis,
}
use cf_redis_broker.Resetter.Configured.{load-reset_config_with_new_password}
use cf_redis_broker.Resetter.Kept.{
  IsAside, aof_file, dump_file, stop_redis-Keeps, delete_data-Keeps, aof_gone, reset_config-Keeps,
  load-Stays,
}

module _ {Conn : Type 0} (resetter : Resetter Conn) where
  -- The steps of a reset that succeeds, in their order.
  pub record Reset (w w' : World) : Type 0 where
    pub stopped : World
    pub cleared : World
    pub configured : World
    pub started : World
    pub conf : Conf
    pub address : TcpAddr
    pub checked : World
    pub stop_ok : stop_redis resetter w ≡ (ok tt, stopped)
    pub delete_ok : delete_data resetter stopped ≡ (ok tt, cleared)
    pub config_ok : reset_config_with_new_password resetter cleared ≡ (ok tt, configured)
    pub start_ok : start_redis resetter configured ≡ (ok tt, started)
    pub load_ok : load resetter.live_conf_path started ≡ (ok conf, started)
    pub address_ok :
        resetter.resolve_tcp_addr ("127.0.0.1:" <> Redisconf.get "port" conf) started
        ≡ (ok address, checked)
    pub check_ok : resetter.port_check address resetter.timeout checked ≡ (ok tt, w')

  steps_taken : (w w' : World) → reset_redis resetter w ≡ (ok tt, w') → Reset w w'
  unfolding reset_redis
  steps_taken w w' h =
      let stopped : World = (stop_redis resetter w).1 in
      let cleared : World = (delete_data resetter stopped).1 in
      let configured : World = (reset_config_with_new_password resetter cleared).1 in
      let started : World = (start_redis resetter configured).1 in
      elim (Result-cases (load resetter.live_conf_path started).0) [
        | inl (e, bad) ↦ absurd (ground arith)
        | inr (conf, loaded) ↦
            let text : String = "127.0.0.1:" <> Redisconf.get "port" conf in
            elim (Result-cases (resetter.resolve_tcp_addr text started).0) [
              | inl (e, bad) ↦ absurd (ground (arith, load_reads resetter.live_conf_path started))
              | inr (address, resolved) ↦ record {
                stopped = stopped;
                cleared = cleared;
                configured = configured;
                started = started;
                conf = conf;
                address = address;
                checked = (resetter.resolve_tcp_addr text started).1;
                stop_ok = ground arith;
                delete_ok = ground arith;
                config_ok = ground arith;
                start_ok = ground arith;
                load_ok = pair_path loaded (load_reads resetter.live_conf_path started);
                address_ok = pair_path resolved refl;
                check_ok = ground (arith, load_reads resetter.live_conf_path started);
              }
            ]
      ]

-- The two configurations and the two files of data are at different paths, and the server leaves
-- the configurations alone.
pub record IsApart {Conn : Type 0} (resetter : Resetter Conn) (x y : String) (p q : FilePath)
    : Type 0 where
  pub default_at : resetter.default_conf_path ≡ x ∷ p
  pub live_at : resetter.live_conf_path ≡ y ∷ q
  pub aof_default : same (aof_file resetter) (x ∷ p) ≡ false
  pub rdb_default : same (dump_file resetter) (x ∷ p) ≡ false
  pub live_aof : same (y ∷ q) (aof_file resetter) ≡ false
  pub aof_live : same (aof_file resetter) (y ∷ q) ≡ false
  pub rdb_live : same (dump_file resetter) (y ∷ q) ≡ false
  pub default_aside : IsAside resetter (x ∷ p)
  pub live_aside : IsAside resetter (y ∷ q)

module _ {Conn : Type 0} (resetter : Resetter Conn) (x y : String) (p q : FilePath)
    (apart : IsApart resetter x y p q) (w w' : World) (r : Reset resetter w w') where
  left_by : (m : Act World (Unit {0})) (v v' : World) → m v ≡ (ok tt, v') → (m v).1 ≡ v'
  left_by m v v' done = ap (λ (a : Result (Unit {0}) × World). a.1) done

  cleared-Stays :
      (s : FilePath)
      → IsAside resetter s
      → same (aof_file resetter) s ≡ false
      → same (dump_file resetter) s ≡ false
      → Stays s w r.cleared
  cleared-Stays s aside not_aof not_rdb =
      let (one, one') = stop_redis-Keeps resetter s aside w in
      let (two, two') = delete_data-Keeps resetter s aside not_aof not_rdb r.stopped in
      ground (arith, r.stop_ok, r.delete_ok)

  configured_loads :
      (text : String) (conf : Conf)
      → w.refuses (read_file (x ∷ p)) ≡ none
      → w.refuses (read_file (y ∷ q)) ≡ none
      → lookup (x ∷ p) w.tree ≡ some (file text)
      → has_byte b'\r' text ≡ false
      → decode text ≡ ok conf
      → load (y ∷ q) r.configured ≡ (ok conf, r.configured)
  configured_loads text conf may_read may_read_live there plain decoded =
      let (default_kept, refuses) =
        cleared-Stays (x ∷ p) apart.default_aside apart.aof_default apart.rdb_default in
      rw (← apart.live_at) (
        load-reset_config_with_new_password resetter x y p q text conf r.cleared r.configured
          apart.default_at apart.live_at (ap (λ f. f (read_file (x ∷ p))) refuses ∙ may_read)
          (ap (λ f. f (read_file (y ∷ q))) refuses ∙ may_read_live) (default_kept ∙ there) plain
          decoded r.config_ok)

  configured_lacks_aof : lookup (aof_file resetter) r.configured.tree ≡ none
  configured_lacks_aof =
      let (kept, refuses) =
        reset_config-Keeps resetter (aof_file resetter) (rw apart.live_at apart.live_aof)
          r.cleared in
      ground (arith, r.config_ok, aof_gone resetter r.stopped r.cleared r.delete_ok)

  started_conf : (conf : Conf) → load (y ∷ q) r.configured ≡ (ok conf, r.configured) → r.conf ≡ conf
  unfolding start_redis
  started_conf conf loaded =
      let kept : Stays (y ∷ q) r.configured (resetter.start_and_wait "redis" r.configured).1 =
        apart.live_aside.starts "redis" r.configured in
      let same_load : (load (y ∷ q) r.started).0 ≡ (load (y ∷ q) r.configured).0 =
        load-Stays y q r.configured r.started (ground (arith, kept, r.start_ok)) in
      ground (arith, same_load, loaded, r.load_ok, apart.live_at)

module _ {Conn : Type 0} (resetter : Resetter Conn) (x y : String) (p q : FilePath) where
  -- A reset that succeeds consists of its steps in their order (`Reset`); in the state in which
  -- the server is started the append-only file is gone and the live configuration is loaded
  -- exactly as the default one, and that one is also the configuration whose port is checked. The
  -- conditions: the default configuration is a text without carriage returns that can be decoded,
  -- both configurations may be read, they and the two files of data have different paths, and the
  -- server and Monit leave the configurations alone (`IsApart`).
  pub reset_redis_lem :
      (text : String) (conf : Conf) (w w' : World)
      → IsApart resetter x y p q
      → w.refuses (read_file (x ∷ p)) ≡ none
      → w.refuses (read_file (y ∷ q)) ≡ none
      → lookup (x ∷ p) w.tree ≡ some (file text)
      → has_byte b'\r' text ≡ false
      → decode text ≡ ok conf
      → reset_redis resetter w ≡ (ok tt, w')
      → (r : Reset resetter w w') × (lookup (aof_file resetter) r.configured.tree ≡ none)
        × (load (y ∷ q) r.configured ≡ (ok conf, r.configured))
        × (r.conf ≡ conf)
  reset_redis_lem text conf w w' apart may_read may_read_live there plain decoded done =
      let r : Reset resetter w w' = steps_taken resetter w w' done in
      let loaded : load (y ∷ q) r.configured ≡ (ok conf, r.configured) =
        configured_loads resetter x y p q apart w w' r text conf may_read may_read_live there plain
          decoded in
      (
        r,
        configured_lacks_aof resetter x y p q apart w w' r,
        loaded,
        started_conf resetter x y p q apart w w' r conf loaded,
      )
