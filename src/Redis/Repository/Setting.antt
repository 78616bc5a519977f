-- ===== src/Redis/Repository/Setting.antt =====
-- redis/local_repository.go: what `Setup` leaves on the disk.
use cf_redis_broker.Base.{
  ℕ, ◌≤◌, ◌≡◌, refl, ap, sym, ◌∙◌, String, false, none, some, ◌∷◌, arith, All, has_byte, pos, itoa,
  atoi, atoi-itoa, max_int, Result, Result-cases, inl, inr, ok,
}
use cf_redis_broker.Os.{World, read_file, node_at, os_mkdir_all, write_text}
use cf_redis_broker.Os.Paths.{FilePath, same, same_longer, IsName, join_name}
use cf_redis_broker.Os.Files.{dir, file, lookup, insert, lookup-insert, lookup-insert_self}
use cf_redis_broker.Os.Laws.{
  write_text_ok, mkdir_all_file, mkdir_all_refuses, read_text_at, read_text_reads, node_at-insert,
  write_text_parent, read_text_file, node_at_file, node_at_moved,
}
use cf_redis_broker.Brokerconfig.{resolve}
use cf_redis_broker.Redisconf.{Conf, decode, encode, get}
use cf_redis_broker.Redisconf.RoundTrip.{IsPlain, decode-encode}
use cf_redis_broker.Redisconf.Decoded.{decode-IsPlain}
use cf_redis_broker.Redisconf.Additions.{load, save, with_additions, copy_with_instance_additions}
use cf_redis_broker.Redisconf.Added.{
  ArePlain, with_additions-IsPlain, get_port-with_additions, get_password-with_additions,
}
use cf_redis_broker.Redis.Instance.{Instance}
use cf_redis_broker.Redis.Repository.{
  LocalRepository, pidfile_directory, instance_base_dir, instance_config_path, instance_data_dir,
  instance_log_dir, lock_file_path, ensure_directories_exist, lock, write_config_file, setup,
  find_by_id,
}

pub redis_conf-IsName : IsName "redis.conf"
redis_conf-IsName = record { one = refl; not_empty = refl; not_dot = refl; not_dots = refl }

pub load_reads : (p : FilePath) (w : World) → (load p w).1 ≡ w
unfolding load
load_reads p w = ground (arith, read_text_reads p w)

module _ (repo : LocalRepository) (i : Instance) where
  abbrev default_path : FilePath
  default_path = resolve repo.redis_conf.default_config_path

  -- The worlds between the steps of a `Setup` that succeeded.
  setup_steps :
      (w w' : World)
      → setup repo i w ≡ (ok tt, w')
      → (w₁ : World) × (w₂ : World) × (w₃ : World) × (ensure_directories_exist repo i w
          ≡ (ok tt, w₁))
        × (lock repo i w₁ ≡ (ok tt, w₂))
        × (write_config_file repo i w₂ ≡ (ok tt, w₃))
        × (w'.tree ≡ w₃.tree)
        × (w'.refuses ≡ w₃.refuses)
  unfolding setup
  setup_steps w w' h =
      let w₁ : World = (ensure_directories_exist repo i w).1 in
      let w₂ : World = (lock repo i w₁).1 in
      let w₃ : World = (write_config_file repo i w₂).1 in
      (w₁, w₂, w₃, ground arith, ground arith, ground arith, ground arith, ground arith)

  pub ensure_keeps :
      (q : FilePath) (text : String) (w w' : World)
      → lookup q w.tree ≡ some (file text)
      → ensure_directories_exist repo i w ≡ (ok tt, w')
      → (lookup q w'.tree ≡ some (file text)) × (w'.refuses ≡ w.refuses)
  unfolding ensure_directories_exist
  ensure_keeps q text w w' there h =
      let d₁ : FilePath = instance_data_dir repo i.id in
      let d₂ : FilePath = pidfile_directory repo in
      let d₃ : FilePath = instance_log_dir repo i.id in
      let w₁ : World = (os_mkdir_all d₁ w).1 in
      let w₂ : World = (os_mkdir_all d₂ w₁).1 in
      ground (
        arith,
        mkdir_all_refuses d₁ w,
        mkdir_all_refuses d₂ w₁,
        mkdir_all_refuses d₃ w₂,
        mkdir_all_file q text d₁ w w₁ there,
        mkdir_all_file q text d₂ w₁ w₂,
        mkdir_all_file q text d₃ w₂ w',
      )

  -- The configuration that a successful write has put in place.
  pub write_config_steps :
      (text : String) (w w' : World)
      → node_at default_path w.tree ≡ some (file text)
      → write_config_file repo i w ≡ (ok tt, w')
      → (conf : Conf) × (decode text ≡ ok conf)
        × (w' ≡ record w {
          tree =
              insert
                (instance_config_path repo i.id)
                (file (
                  encode
                    (with_additions i.id (itoa i.port) i.password (pidfile_directory repo) conf)))
                w.tree;
        })
  unfolding write_config_file copy_with_instance_additions load save
  write_config_steps text w w' there h = elim (read_text_at default_path text w there) [
    | inr (e, refused) ↦ absurd (ground arith)
    | inl text_read ↦ elim (Result-cases (decode text)) [
      | inl (e, bad) ↦ absurd (ground arith)
      | inr (conf, good) ↦
          (conf, good, write_text_ok (instance_config_path repo i.id) _ w w' (ground arith))
    ]
  ]

  lock_steps :
      (w w' : World)
      → lock repo i w ≡ (ok tt, w')
      → w' ≡ record w { tree = insert (lock_file_path repo i) (file "") w.tree }
  unfolding lock
  lock_steps w w' h = write_text_ok (lock_file_path repo i) "" w w' h

  find_by_id_file :
      (x : String) (p : FilePath) (conf : Conf) (n : ℕ) (w : World)
      → instance_config_path repo i.id ≡ x ∷ p
      → w.refuses (read_file (x ∷ p)) ≡ none
      → lookup (x ∷ p) w.tree ≡ some (file (encode conf))
      → All IsPlain conf
      → atoi (get "port" conf) ≡ ok (pos n)
      → find_by_id repo i.id w ≡ (
        ok (record {
          id = i.id;
          host = repo.redis_conf.host;
          port = pos n;
          password = get "requirepass" conf;
        }),
        w,
      )
  find_by_id_file x p conf n w at free there plain port =
      unfold find_by_id load in
      rw (at, read_text_file x p (encode conf) w free there, decode-encode conf plain, port)

  abbrev written_conf : Conf → Conf
  written_conf = with_additions i.id (itoa i.port) i.password (pidfile_directory repo)

  -- The file that `Setup` writes last is what the lookup reads.
  pub find_by_id_written :
      (n : ℕ) (conf : Conf) (w : World)
      → i.port ≡ pos n
      → n ≤ max_int
      → All IsPlain conf
      → ArePlain i.id i.password (pidfile_directory repo)
      → w.refuses (read_file (instance_config_path repo i.id)) ≡ none
      → lookup (instance_config_path repo i.id) w.tree ≡ some (file (encode (written_conf conf)))
      → find_by_id repo i.id w ≡ (ok (record i { host = repo.redis_conf.host }), w)
  find_by_id_written n conf w port le plain given free there =
      let at : instance_config_path repo i.id ≡ "redis.conf" ∷ instance_base_dir repo i.id =
        join_name (instance_base_dir repo i.id) "redis.conf" redis_conf-IsName in
      find_by_id_file "redis.conf" (instance_base_dir repo i.id) (written_conf conf) n w at
        (rw at at free) (rw at at there)
        (rw port
          (with_additions-IsPlain i.id i.password (pidfile_directory repo) n conf le given plain))
        (rw (get_port-with_additions, port) (atoi-itoa n le))
      ∙ rw (get_password-with_additions, port) refl

  -- After a `Setup` that succeeds, `FindByID` returns the ID, the port and the password that were
  -- set up, and the configured host, and changes nothing; where the port is a natural number in
  -- the range of `int`, the default configuration is a text without carriage returns at a path
  -- other than the lock file's, the values that are added are plain, and the new file may be
  -- read.
  pub find_by_id-setup :
      (n : ℕ) (text : String) (w w' : World)
      → i.port ≡ pos n
      → n ≤ max_int
      → node_at default_path w.tree ≡ some (file text)
      → same (lock_file_path repo i) default_path ≡ false
      → has_byte b'\r' text ≡ false
      → ArePlain i.id i.password (pidfile_directory repo)
      → w.refuses (read_file (instance_config_path repo i.id)) ≡ none
      → setup repo i w ≡ (ok tt, w')
      → find_by_id repo i.id w' ≡ (ok (record i { host = repo.redis_conf.host }), w')
  find_by_id-setup n text w w' port le there apart no_cr given free h =
      let (w₁, w₂, w₃, made, locked, wrote, tree, refuses) = setup_steps w w' h in
      let kept₁ : (lookup default_path w₁.tree ≡ some (file text)) × (w₁.refuses ≡ w.refuses) =
        ensure_keeps default_path text w w₁ (node_at_file default_path text w.tree there) made in
      let e₂ : w₂ ≡ record w₁ { tree = insert (lock_file_path repo i) (file "") w₁.tree } =
        lock_steps w₁ w₂ locked in
      let kept₂ : lookup default_path w₂.tree ≡ some (file text) =
        rw (e₂, lookup-insert) (ground (arith, kept₁.0)) in
      let (conf, decoded, e₃) =
        write_config_steps text w₂ w₃ (node_at_moved default_path text w.tree w₂.tree there kept₂)
          wrote in
      find_by_id_written n conf w' port le (decode-IsPlain text conf no_cr decoded) given
        (ap (λ r. r (read_file (instance_config_path repo i.id)))
            (refuses
              ∙ ap (λ (v : World). v.refuses) e₃
              ∙ ap (λ (v : World). v.refuses) e₂
              ∙ kept₁.1)
          ∙ free)
        (ap (lookup (instance_config_path repo i.id)) tree
          ∙ ap (λ (v : World). lookup (instance_config_path repo i.id) v.tree) e₃
          ∙ lookup-insert_self (instance_config_path repo i.id) _ w₂.tree)

  write_config_saved :
      (w w' : World)
      → write_config_file repo i w ≡ (ok tt, w')
      → (text : String) × (write_text (instance_config_path repo i.id) text w ≡ (ok tt, w'))
  unfolding write_config_file copy_with_instance_additions save
  write_config_saved w w' h = elim (Result-cases (load default_path w).0) [
    | inl (e, bad) ↦ absurd (ground arith)
    | inr (conf, good) ↦ (encode (written_conf conf), ground (arith, load_reads default_path w))
  ]

  -- The directory of an instance that was set up is there.
  pub setup_base :
      (w w' : World)
      → setup repo i w ≡ (ok tt, w')
      → node_at (instance_base_dir repo i.id) w'.tree ≡ some dir
  setup_base w w' h =
      let (w₁, w₂, w₃, made, locked, wrote, tree, refuses) = setup_steps w w' h in
      let base : FilePath = instance_base_dir repo i.id in
      let (text, saved) = write_config_saved w₂ w₃ wrote in
      let at : instance_config_path repo i.id ≡ "redis.conf" ∷ base =
        join_name base "redis.conf" redis_conf-IsName in
      ap (node_at base) tree
      ∙ ap (λ (v : World). node_at base v.tree)
          (write_text_ok (instance_config_path repo i.id) text w₂ w₃ saved)
      ∙ node_at-insert (instance_config_path repo i.id) base (file text) w₂.tree
          (rw at (same_longer "redis.conf" base))
      ∙ write_text_parent "redis.conf" base text w₂ w₃ (rw at at saved)

  ensure_refuses : (w : World) → (ensure_directories_exist repo i w).1.refuses ≡ w.refuses
  unfolding ensure_directories_exist
  ensure_refuses w =
      let d₁ : FilePath = instance_data_dir repo i.id in
      let d₂ : FilePath = pidfile_directory repo in
      let w₁ : World = (os_mkdir_all d₁ w).1 in
      let w₂ : World = (os_mkdir_all d₂ w₁).1 in
      ground (
        arith,
        mkdir_all_refuses d₁ w,
        mkdir_all_refuses d₂ w₁,
        mkdir_all_refuses (instance_log_dir repo i.id) w₂,
      )

  pub setup_refuses : (w w' : World) → setup repo i w ≡ (ok tt, w') → w'.refuses ≡ w.refuses
  setup_refuses w w' h =
      let (w₁, w₂, w₃, made, locked, wrote, tree, refuses) = setup_steps w w' h in
      let (text, saved) = write_config_saved w₂ w₃ wrote in
      refuses
      ∙ ap (λ (v : World). v.refuses)
          (write_text_ok (instance_config_path repo i.id) text w₂ w₃ saved)
      ∙ ap (λ (v : World). v.refuses) (lock_steps w₁ w₂ locked)
      ∙ ap (λ (r : Result (Unit {0}) × World). r.1.refuses) (sym made)
      ∙ ensure_refuses w
