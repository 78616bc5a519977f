-- ===== src/Cmd/Lifecycle.antt =====
-- cmd/broker/main.go, with the packages broker and redis: what a creation leaves on the disk.
use cf_redis_broker.Base.{
  pair_path, ℕ, ◌≤◌, ◌≡◌, ap, sym, ◌∙◌, String, true, false, Option, none, some, ◌∷◌, has_byte, ℤ,
  pos, max_int, Error, Result, ok,
}
use cf_redis_broker.Base.Act.{Act}
use cf_redis_broker.Os.{World, Call, os_remove, stat, read_file, node_at}
use cf_redis_broker.Os.Paths.{FilePath, same, join, join_name}
use cf_redis_broker.Os.Files.{Tree, file, dir, lookup}
use cf_redis_broker.Os.Laws.{remove_other, node_at-lookup}
use cf_redis_broker.Brokerconfig.{Config, resolve}
use cf_redis_broker.Redisconf.Added.{ArePlain}
use cf_redis_broker.Redis.Instance.{Instance}
use cf_redis_broker.Redis.Repository.{
  LocalRepository, pidfile_directory, instance_base_dir, instance_config_path, lock_file_path,
  unlock, find_by_id, instance_exists,
}
use cf_redis_broker.Redis.Repository.Reading.{
  find_by_id_reads, instance_exists_reads, find_by_id-file, instance_exists_lem, is_there,
}
use cf_redis_broker.Redis.Repository.Listing.{instance_count, all_instances}
use cf_redis_broker.Redis.Repository.Listing.Count.{view, view-all_instances_with}
use cf_redis_broker.Redis.Repository.Setting.{
  find_by_id-setup, setup_base, setup_refuses, redis_conf-IsName,
}
use cf_redis_broker.Redis.Repository.Locking.{lock_apart}
use cf_redis_broker.Redis.Creator.{ProcessController, start_local_instance}
use cf_redis_broker.Redis.Creator
use cf_redis_broker.Redis.Creator.Laws.{Creation, new_instance}
use cf_redis_broker.Broker.{RedisServiceBroker}
use cf_redis_broker.Cmd.Server.{local_creator, service_broker}

-- What the program relies on in the parts that it does not implement.
pub record IsQuiet (find_free_port : Act World ℤ) (new_password : World → String × World)
    (controller : ProcessController World) : Type 0 where
  -- The search for a port and the choice of a password leave the files alone.
  pub port_tree : (w : World) → (find_free_port w).1.tree ≡ w.tree
  pub port_refuses : (w : World) → (find_free_port w).1.refuses ≡ w.refuses
  pub password_tree : (w : World) → (new_password w).1.tree ≡ w.tree
  pub password_refuses : (w : World) → (new_password w).1.refuses ≡ w.refuses
  -- A port that is found is a natural number in the range of `int`.
  pub port_range :
      (w : World) (port : ℤ)
      → (find_free_port w).0 ≡ ok port
      → (n : ℕ) × (port ≡ pos n) × (n ≤ max_int)
  -- A server that starts leaves its configuration file and the directory of that file in place.
  pub start_keeps :
      (i : Instance) (x : String) (base config data_dir log_file : FilePath) (timeout : ℤ)
      (w : World)
      → config ≡ x ∷ base
      → (lookup config
            (controller.start_and_wait_until_ready i config data_dir log_file timeout w).1.tree
          ≡ lookup config w.tree)
        × (lookup base
              (controller.start_and_wait_until_ready i config data_dir log_file timeout w).1.tree
            ≡ lookup base w.tree)
  pub start_refuses :
      (i : Instance) (config data_dir log_file : FilePath) (timeout : ℤ) (w : World)
      → (controller.start_and_wait_until_ready i config data_dir log_file timeout w).1.refuses
        ≡ w.refuses

module _ (find_free_port : Act World ℤ) (new_password : World → String × World)
    (controller : ProcessController World) (quiet : IsQuiet find_free_port new_password controller)
    (config : Config) (repo : LocalRepository) where
  abbrev creator : Creator.LocalInstanceCreator World
  creator = local_creator find_free_port new_password controller config repo

  abbrev broker : RedisServiceBroker World
  broker = service_broker find_free_port new_password controller config repo

  -- From the end of `Setup` to the end of `Create`: the configuration file and its directory stay.
  started_keeps :
      (i : Instance) (w w₁ w₂ : World)
      → start_local_instance creator i w ≡ (ok tt, w₁)
      → unlock repo i w₁ ≡ (ok tt, w₂)
      → (lookup (instance_config_path repo i.id) w₂.tree
          ≡ lookup (instance_config_path repo i.id) w.tree)
        × (lookup (instance_base_dir repo i.id) w₂.tree
            ≡ lookup (instance_base_dir repo i.id) w.tree)
        × (w₂.refuses ≡ w.refuses)
  unfolding start_local_instance unlock
  started_keeps i w w₁ w₂ started unlocked =
      let base : FilePath = instance_base_dir repo i.id in
      let at : instance_config_path repo i.id ≡ "redis.conf" ∷ base =
        join_name base "redis.conf" redis_conf-IsName in
      let started_at : World = (start_local_instance creator i w).1 in
      let e₁ : w₁ ≡ started_at = ap (λ (r : Result (Unit {0}) × World). r.1) (sym started) in
      let e₂ : w₂ ≡ (os_remove (lock_file_path repo i) w₁).1 =
        ap (λ (r : Result (Unit {0}) × World). r.1) (sym unlocked) in
      let kept : (lookup (instance_config_path repo i.id) started_at.tree
            ≡ lookup (instance_config_path repo i.id) w.tree)
          × (lookup base started_at.tree ≡ lookup base w.tree) =
        quiet.start_keeps i "redis.conf" base _ _ _ _ w at in
      let (apart₁, apart₂) = lock_apart repo i in
      let other : (q : FilePath)
          → same (lock_file_path repo i) q ≡ false
          → lookup q started_at.tree ≡ lookup q w.tree
          → lookup q w₂.tree ≡ lookup q w.tree =
        λ q apart same_q.
          ap (λ (v : World). lookup q v.tree) e₂
          ∙ (remove_other (lock_file_path repo i) q w₁ apart).0
          ∙ ap (λ (v : World). lookup q v.tree) e₁
          ∙ same_q in
      (
        other _ apart₁ kept.0,
        other _ apart₂ kept.1,
        ap (λ (v : World). v.refuses) e₂
            ∙ (remove_other (lock_file_path repo i) _ w₁ apart₁).1
            ∙ ap (λ (v : World). v.refuses) e₁
            ∙ quiet.start_refuses i _ _ _ _ w,
      )

  pub counted_view :
      (instance_id : String) (w w' : World) (c : Creation creator instance_id w w')
      → view c.counted ≡ view w
  unfolding instance_count all_instances
  counted_view instance_id w w' c = ap view (sym c.count_ok) ∙ view-all_instances_with repo false w

  -- Up to `Setup` a creation changes no file.
  untouched :
      (instance_id : String) (w w' : World) (c : Creation creator instance_id w w')
      → (c.with_password.tree ≡ w.tree) × (c.with_password.refuses ≡ w.refuses)
  untouched instance_id w w' c =
      let counted : view c.counted ≡ view w = counted_view instance_id w w' c in
      let e₁ : c.with_port ≡ (find_free_port c.counted).1 =
        ap (λ (r : Result ℤ × World). r.1) (sym c.port_ok) in
      let e₂ : c.with_password ≡ (new_password c.with_port).1 =
        ap (λ (r : String × World). r.1) (sym c.password_ok) in
      (
        ap (λ (v : World). v.tree) e₂
            ∙ quiet.password_tree c.with_port
            ∙ ap (λ (v : World). v.tree) e₁
            ∙ quiet.port_tree c.counted
            ∙ ap (λ (v : Tree × (Call → Option Error)). v.0) counted,
        ap (λ (v : World). v.refuses) e₂
            ∙ quiet.password_refuses c.with_port
            ∙ ap (λ (v : World). v.refuses) e₁
            ∙ quiet.port_refuses c.counted
            ∙ ap (λ (v : Tree × (Call → Option Error)). v.1) counted,
      )

  -- Where nothing on the way is refused, and the default configuration and the values that are
  -- added to it are plain.
  pub record IsReady (instance_id text : String) (w : World) : Type 0 where
    pub default_there :
        node_at (resolve repo.redis_conf.default_config_path) w.tree ≡ some (file text)
    pub default_plain : has_byte b'\r' text ≡ false
    pub default_apart :
        same
          (join (instance_base_dir repo instance_id) "lock")
          (resolve repo.redis_conf.default_config_path)
        ≡ false
    pub values_plain :
        (v : World) → ArePlain instance_id (new_password v).0 (pidfile_directory repo)
    pub may_read : w.refuses (read_file (instance_config_path repo instance_id)) ≡ none
    pub may_stat : w.refuses (stat (instance_base_dir repo instance_id)) ≡ none

  -- What a lookup returns when `Setup` is done.
  set_up_found :
      (instance_id text : String) (w w' : World) (c : Creation creator instance_id w w')
      → IsReady instance_id text w
      → find_by_id repo instance_id c.set_up ≡ (
        ok (record (new_instance creator instance_id c.port c.password) {
          host = repo.redis_conf.host;
        }),
        c.set_up,
      )
  set_up_found instance_id text w w' c ready =
      let (n, natural, le) =
        quiet.port_range c.counted c.port (ap (λ (r : Result ℤ × World). r.0) c.port_ok) in
      let (tree, refuses) = untouched instance_id w w' c in
      find_by_id-setup repo (new_instance creator instance_id c.port c.password) n text
        c.with_password c.set_up natural le (rw tree ready.default_there) ready.default_apart
        ready.default_plain
        (rw (ap (λ (r : String × World). r.0) (sym c.password_ok)) (ready.values_plain c.with_port))
        (rw refuses ready.may_read) c.setup_ok

  -- After a creation the instance is there, and is found with the port and the password that were
  -- chosen.
  pub created :
      (instance_id text : String) (w w' : World) (c : Creation creator instance_id w w')
      → IsReady instance_id text w
      → (instance_exists repo instance_id w' ≡ (ok true, w'))
        × (find_by_id repo instance_id w' ≡ (
          ok (record (new_instance creator instance_id c.port c.password) {
            host = repo.redis_conf.host;
          }),
          w',
        ))
  created instance_id text w w' c ready =
      let i : Instance = new_instance creator instance_id c.port c.password in
      let (tree, refuses) = untouched instance_id w w' c in
      let (file_kept, base_kept, refuses_kept) =
        started_keeps i c.set_up c.started w' c.start_ok c.unlock_ok in
      let base : FilePath = instance_base_dir repo instance_id in
      let there : node_at base w'.tree ≡ some dir =
        node_at-lookup base w'.tree c.set_up.tree base_kept
        ∙ setup_base repo i c.with_password c.set_up c.setup_ok in
      let free : w'.refuses (stat base) ≡ none =
        ap (λ r. r (stat base))
          (refuses_kept ∙ setup_refuses repo i c.with_password c.set_up c.setup_ok ∙ refuses)
        ∙ ready.may_stat in
      let found : (find_by_id repo instance_id w').0 ≡ (find_by_id repo instance_id c.set_up).0 =
        find_by_id-file repo instance_id w' c.set_up refuses_kept
          (node_at-lookup _ w'.tree c.set_up.tree file_kept) in
      (
        pair_path (instance_exists_lem repo instance_id w' free ∙ ap (λ n. ok (is_there n)) there)
            (instance_exists_reads repo instance_id w'),
        pair_path
            (found
              ∙ ap (λ (r : Result Instance × World). r.0)
                  (set_up_found instance_id text w w' c ready))
            (find_by_id_reads repo instance_id w'),
      )
