-- ===== src/Cmd/Monitor/Restarted.antt =====
-- cmd/processmonitor/main.go: the start of the monitor, which writes every configuration anew.
use cf_redis_broker.Base.{
  false, Option, ◌≡◌, refl, sym, ap, ◌∙◌, subst, String, true, Bool-cases, inl, inr, ◌==◌, eq_iff,
  some, List, [], ◌∷◌, All, arith, Error, Result, Result-cases, ok, pair_path,
}
use cf_redis_broker.Os.{World, Call, read_file}
use cf_redis_broker.Os.Files.{Tree, file, lookup, lookup-insert_self}
use cf_redis_broker.Os.Paths.{FilePath, IsName, same, is_under}
use cf_redis_broker.Os.Frame.{Stays, Keeps}
use cf_redis_broker.Os.Laws.{node_at-lookup, node_at_file, node_at_moved}
use cf_redis_broker.Brokerconfig.{resolve}
use cf_redis_broker.Redisconf.Decoded.{decode-IsPlain}
use cf_redis_broker.Redis.Instance.{Instance}
use cf_redis_broker.Redis.Repository.{
  LocalRepository, instance_data_dir, pidfile_directory, instance_log_dir, data_directory,
  instance_config_path, ensure_directories_exist, write_config_file, find_by_id,
}
use cf_redis_broker.Redis.Repository.Reading.{find_by_id-file}
use cf_redis_broker.Redis.Repository.Setting.{ensure_keeps, write_config_steps, find_by_id_written}
use cf_redis_broker.Redis.Repository.Isolation.{
  IsElsewhere, config_apart, ensure_directories_exist-Keeps, write_config_file-Keeps,
}
use cf_redis_broker.Redis.Repository.Isolation.Others.{IsElsewhere-file}
use cf_redis_broker.Redis.Repository.Isolation.Untouched.{config_at}
use cf_redis_broker.Redis.Repository.Refinement.{IsSound, IsHealthy, IsProper, IsHealthy-kept}
use cf_redis_broker.Redis.Repository.Listing.{all_instances_verbose, all_instances_with}
use cf_redis_broker.Redis.Repository.Listing.Count.{view, view-all_instances_with, find_by_id-view}
use cf_redis_broker.Redis.Repository.Listing.Found.{find_by_id-host, All-all_instances_with}
use cf_redis_broker.Cmd.Monitor.{copy_config_file, copy_config_files, start_up}

module _ (repo : LocalRepository) (i : Instance) where
  copy_steps :
      (w w' : World)
      → copy_config_file repo i w ≡ (ok tt, w')
      → (w₁ : World) × (ensure_directories_exist repo i w ≡ (ok tt, w₁))
        × (write_config_file repo i w₁ ≡ (ok tt, w'))
  unfolding copy_config_file
  copy_steps w w' h =
      let w₁ : World = (ensure_directories_exist repo i w).1 in (w₁, ground arith, ground arith)

  pub copy_config_file-Keeps :
      (q : FilePath)
      → is_under q (instance_data_dir repo i.id) ≡ false
      → is_under q (pidfile_directory repo) ≡ false
      → is_under q (instance_log_dir repo i.id) ≡ false
      → same (instance_config_path repo i.id) q ≡ false
      → Keeps q (copy_config_file repo i)
  unfolding copy_config_file
  copy_config_file-Keeps q dbs pids logs conf w =
      let w₁ : World = (ensure_directories_exist repo i w).1 in
      ground (
        arith,
        ensure_directories_exist-Keeps repo i q dbs pids logs w,
        write_config_file-Keeps repo i q conf w₁,
      )

  pub copy_config_file-IsElsewhere :
      (q : FilePath) → IsElsewhere repo i.id q → Keeps q (copy_config_file repo i)
  copy_config_file-IsElsewhere q elsewhere =
      copy_config_file-Keeps q elsewhere.data_dir elsewhere.pid_dir elsewhere.log_dir
        (config_apart repo i q elsewhere)

  -- The configuration that is written anew is found as the instance was.
  copied_found :
      (text : String) (w w' : World)
      → IsHealthy repo text w
      → IsProper repo i
      → w'.refuses ≡ w.refuses
      → copy_config_file repo i w ≡ (ok tt, w')
      → (find_by_id repo i.id w').0 ≡ ok (record i { host = repo.redis_conf.host })
  copied_found text w w' h proper same_refuses done =
      let (w₁, made, wrote) = copy_steps w w' done in
      let path : FilePath = resolve repo.redis_conf.default_config_path in
      let there : lookup path w.tree ≡ some (file text) =
        node_at_file path text w.tree h.default_there in
      let kept : (lookup path w₁.tree ≡ some (file text)) × (w₁.refuses ≡ w.refuses) =
        ensure_keeps repo i path text w w₁ there made in
      let (conf, decoded, e) =
        write_config_steps repo i text w₁ w'
          (node_at_moved path text w.tree w₁.tree h.default_there kept.0) wrote in
      ap (λ (r : Result Instance × World). r.0)
        (find_by_id_written repo i proper.number conf w' proper.port proper.in_range
          (decode-IsPlain text conf h.default_plain decoded) proper.plain
          (ap (λ r. r (read_file (instance_config_path repo i.id))) same_refuses
            ∙ h.may_read (instance_config_path repo i.id))
          (ap (λ (v : World). lookup (instance_config_path repo i.id) v.tree) e
            ∙ lookup-insert_self (instance_config_path repo i.id) _ w₁.tree))

module _ (repo : LocalRepository) (sound : IsSound repo) (text : String) where
  -- Every plain name is found as before.
  abbrev SameFound : World → World → Type 0
  SameFound w w' = (id : String) → IsName id → (find_by_id repo id w').0 ≡ (find_by_id repo id w).0

  -- An instance that is found as it stands, and whose values are in order.
  abbrev IsFound : World → Instance → Type 0
  IsFound w i = IsProper repo i × ((find_by_id repo i.id w).0 ≡ ok i)

  abbrev default_path : FilePath
  default_path = resolve repo.redis_conf.default_config_path

  copied-Stays :
      (i : Instance) (w : World)
      → IsProper repo i
      → Stays default_path w (copy_config_file repo i w).1
  copied-Stays i w proper =
      copy_config_file-IsElsewhere repo i default_path (sound.default_elsewhere i.id proper.name) w

  copied :
      (i : Instance) (w : World)
      → IsHealthy repo text w
      → IsFound w i
      → (copy_config_file repo i w).0 ≡ ok tt
      → SameFound w (copy_config_file repo i w).1
  copied i w h (proper, there) done id name =
      let w' : World = (copy_config_file repo i w).1 in
      elim (Bool-cases (i.id == id)) [
        | inl e ↦
            subst (λ n. (find_by_id repo n w').0 ≡ (find_by_id repo n w).0) ((eq_iff i.id id).0 e)
              (copied_found repo i text w w' h proper (copied-Stays i w proper).1
                  (pair_path done refl)
                ∙ ap ok (find_by_id-host repo w i.id i there)
                ∙ sym there)
        | inr e ↦
            let (conf_kept, refuses) =
              copy_config_file-IsElsewhere repo i ("redis.conf" ∷ id ∷ data_directory repo)
                (IsElsewhere-file repo sound.apart i.id id proper.name e "redis.conf") w in
            find_by_id-file repo id w' w refuses (
              rw (config_at repo id name)
                (node_at-lookup ("redis.conf" ∷ id ∷ data_directory repo) w'.tree w.tree conf_kept))
      ]

  All-IsFound :
      (w : World) (is : List Instance)
      → All (IsProper repo) is
      → All (λ (j : Instance). (find_by_id repo j.id w).0 ≡ ok j) is
      → All (IsFound w) is
  All-IsFound w [] proper there = tt
  All-IsFound w (i ∷ is) (first, proper) (found, there) =
      ((first, found), All-IsFound w is proper there)

  IsFound-still :
      (w w' : World) (is : List Instance)
      → SameFound w w'
      → All (IsFound w) is
      → All (IsFound w') is
  IsFound-still w w' [] same all = tt
  IsFound-still w w' (i ∷ is) same ((proper, there), all) =
      ((proper, same i.id proper.name ∙ there), IsFound-still w w' is same all)

  copied_all :
      (is : List Instance) (w w' : World)
      → IsHealthy repo text w
      → All (IsFound w) is
      → copy_config_files repo is w ≡ (ok tt, w')
      → SameFound w w'
  unfolding copy_config_files
  copied_all [] w w' h all done id name =
      ap (λ (r : Result (Unit {0}) × World). (find_by_id repo id r.1).0) (sym done)
  copied_all (i ∷ is) w w' h (first, all) done id name =
      elim (Result-cases (copy_config_file repo i w).0) [
        | inl (e, bad) ↦ absurd (ground arith)
        | inr (u, good) ↦
            let w₁ : World = (copy_config_file repo i w).1 in
            let same : SameFound w w₁ = copied i w h first good in
            let (default_kept, refuses) = copied-Stays i w first.0 in
            copied_all is w₁ w' (IsHealthy-kept repo sound text w w₁ h default_kept refuses)
              (IsFound-still w w₁ is same all) (ground arith) id name
            ∙ same id name
      ]

  -- A start of the monitor that succeeds, which writes the configuration of every instance anew
  -- from the default one, leaves what `FindByID` returns for each plain name, port and password
  -- included. The conditions: the configuration keeps its directories and the default file apart
  -- (`IsSound`), looking and reading are not refused and the default configuration is a text
  -- without carriage returns (`IsHealthy`), and the instances that are listed have plain names,
  -- ports in range and plain values (`IsProper`).
  pub find_by_id-start_up :
      (w w' : World) (id : String)
      → IsHealthy repo text w
      → All (IsProper repo) (all_instances_verbose repo w).0.instances
      → start_up repo w ≡ (ok tt, w')
      → IsName id
      → (find_by_id repo id w').0 ≡ (find_by_id repo id w).0
  unfolding start_up all_instances_verbose
  find_by_id-start_up w w' id h proper done name =
      let w₁ : World = (all_instances_with repo true w).1 in
      let same_view : view w₁ ≡ view w = view-all_instances_with repo true w in
      copied_all (all_instances_with repo true w).0.instances w₁ w'
        (IsHealthy-kept repo sound text w w₁ h
          (ap (λ (v : Tree × (Call → Option Error)). lookup default_path v.0) same_view)
          (ap (λ (v : Tree × (Call → Option Error)). v.1) same_view))
        (All-IsFound w₁ (all_instances_with repo true w).0.instances proper (
          All-all_instances_with repo w (λ (j : Instance). (find_by_id repo j.id w₁).0 ≡ ok j)
            (λ j there. find_by_id-view repo j.id w₁ w same_view ∙ there) true))
        done id name
      ∙ find_by_id-view repo id w₁ w same_view
