-- ===== src/Redis/Repository/Refinement.antt =====
-- redis/local_repository.go: the data directory as a map from the instances' IDs to the instances.
use cf_redis_broker.Base.{
  ℕ, ◌≤◌, ◌≡◌, refl, ap, ◌∙◌, pair_path, subst, String, Bool, true, false, Bool-cases, ◌==◌, eq_iff,
  if◌then◌else◌, Option, none, some, inl, inr, List, [], ◌∷◌, All, arith, has_byte, pos, max_int,
  Result, Result-cases, ok,
}
use cf_redis_broker.Base.Act.{Act, ◌>>◌, pure}
use cf_redis_broker.Os.{World, stat, read_file, node_at}
use cf_redis_broker.Os.Files.{file, lookup}
use cf_redis_broker.Os.Laws.{node_at-lookup}
use cf_redis_broker.Os.Paths.{FilePath, IsName, same}
use cf_redis_broker.Brokerconfig.{resolve}
use cf_redis_broker.Redisconf.Added.{ArePlain}
use cf_redis_broker.Redis.Instance.{Instance}
use cf_redis_broker.Redis.Repository.{
  LocalRepository, pidfile_directory, instance_base_dir, instance_config_path, lock_file_path,
  setup, delete, find_by_id, instance_exists,
}
use cf_redis_broker.Redis.Repository.Reading.{
  find_by_id_reads, instance_exists_reads, instance_exists_lem, is_there,
}
use cf_redis_broker.Redis.Repository.Setting.{find_by_id-setup, setup_base, setup_refuses}
use cf_redis_broker.Redis.Repository.Removing.{instance_exists-delete}
use cf_redis_broker.Redis.Repository.Isolation.{AreApart, IsElsewhere, setup-Keeps, delete-Keeps}
use cf_redis_broker.Redis.Repository.Isolation.Untouched.{lookups-setup, lookups-delete}

-- The calls that change instances.
pub data Event : Type 0 where
  set_up : Instance → Event
  deleted : String → Event

-- The abstract state: the instance of each ID, if there is one.
abbrev pub Instances : Type 0
Instances = String → Option Instance

module _ (repo : LocalRepository) where
  abbrev pub perform : Event → Act World (Unit {0})
  perform (set_up i) = setup repo i
  perform (deleted id) = delete repo id

  -- What the calls promise.
  abbrev pub update : Event → Instances → Instances
  update (set_up i) m id =
      if i.id == id then some (record i { host = repo.redis_conf.host }) else m id
  update (deleted d) m id = if d == id then none else m id

  abbrev pub perform_all : List Event → Act World (Unit {0})
  perform_all [] = pure tt
  perform_all (e ∷ es) = perform e >> perform_all es

  abbrev pub update_all : List Event → Instances → Instances
  update_all [] m = m
  update_all (e ∷ es) m = update_all es (update e m)

  -- What the broker sees of an ID is what the map holds.
  abbrev pub Shows : String → World → Option Instance → Type 0
  Shows id w none = instance_exists repo id w ≡ (ok false, w)
  Shows id w (some i) =
      (instance_exists repo id w ≡ (ok true, w)) × (find_by_id repo id w ≡ (ok i, w))

  abbrev pub Represents : Instances → World → Type 0
  Represents m w = (id : String) → IsName id → Shows id w (m id)

  -- The configuration of the broker keeps its files apart.
  pub record IsSound : Type 0 where
    pub apart : AreApart repo
    pub default_elsewhere :
        (id : String)
        → IsName id
        → IsElsewhere repo id (resolve repo.redis_conf.default_config_path)
    pub default_apart :
        (i : Instance)
        → IsName i.id
        → same (lock_file_path repo i) (resolve repo.redis_conf.default_config_path) ≡ false

  -- Reading is not refused, and the default configuration is a text without carriage returns.
  pub record IsHealthy (text : String) (w : World) : Type 0 where
    pub may_stat : (p : FilePath) → w.refuses (stat p) ≡ none
    pub may_read : (p : FilePath) → w.refuses (read_file p) ≡ none
    pub default_there :
        node_at (resolve repo.redis_conf.default_config_path) w.tree ≡ some (file text)
    pub default_plain : has_byte b'\r' text ≡ false

  -- The ID is a plain name, the port a natural number in range, the values plain.
  pub record IsProper (i : Instance) : Type 0 where
    pub name : IsName i.id
    pub number : ℕ
    pub port : i.port ≡ pos number
    pub in_range : number ≤ max_int
    pub plain : ArePlain i.id i.password (pidfile_directory repo)

  abbrev pub IsAllowed : Event → Type 0
  IsAllowed (set_up i) = IsProper i
  IsAllowed (deleted id) = IsName id

  Shows-kept :
      (id : String) (w w' : World) (o : Option Instance)
      → (find_by_id repo id w').0 ≡ (find_by_id repo id w).0
      → (instance_exists repo id w').0 ≡ (instance_exists repo id w).0
      → Shows id w o
      → Shows id w' o
  Shows-kept id w w' none found exists h =
      pair_path (exists ∙ ap (λ (r : Result Bool × World). r.0) h)
        (instance_exists_reads repo id w')
  Shows-kept id w w' (some i) found exists (h, h') = (
    pair_path (exists ∙ ap (λ (r : Result Bool × World). r.0) h) (instance_exists_reads repo id w'),
    pair_path (found ∙ ap (λ (r : Result Instance × World). r.0) h') (find_by_id_reads repo id w'),
  )

  module _ (sound : IsSound) (text : String) where
    open sound use {apart, default_elsewhere, default_apart}

    pub IsHealthy-kept :
        (w w' : World)
        → IsHealthy text w
        → (lookup (resolve repo.redis_conf.default_config_path) w'.tree
            ≡ lookup (resolve repo.redis_conf.default_config_path) w.tree)
        → w'.refuses ≡ w.refuses
        → IsHealthy text w'
    IsHealthy-kept w w' h same_default same_refuses = record {
      may_stat = λ p. ap (λ r. r (stat p)) same_refuses ∙ h.may_stat p;
      may_read = λ p. ap (λ r. r (read_file p)) same_refuses ∙ h.may_read p;
      default_there = node_at-lookup _ w'.tree w.tree same_default ∙ h.default_there;
      default_plain = h.default_plain;
    }

    set_up-Shows :
        (i : Instance) (w w' : World)
        → IsHealthy text w
        → IsProper i
        → setup repo i w ≡ (ok tt, w')
        → Shows i.id w' (some (record i { host = repo.redis_conf.host }))
    set_up-Shows i w w' h proper done = (
      pair_path
          (instance_exists_lem repo i.id w' (
              ap (λ r. r (stat (instance_base_dir repo i.id))) (setup_refuses repo i w w' done)
              ∙ h.may_stat (instance_base_dir repo i.id))
            ∙ ap (λ n. ok (is_there n)) (setup_base repo i w w' done))
          (instance_exists_reads repo i.id w'),
      find_by_id-setup repo i proper.number text w w' proper.port proper.in_range h.default_there
          (default_apart i proper.name) h.default_plain proper.plain
          (h.may_read (instance_config_path repo i.id)) done,
    )

    -- The state that a call leaves, where its result is known.
    left_by : (m : Act World (Unit {0})) (w w' : World) → m w ≡ (ok tt, w') → (m w).1 ≡ w'
    left_by m w w' done = ap (λ (r : Result (Unit {0}) × World). r.1) done

    set_up-Represents :
        (i : Instance) (m : Instances) (w w' : World)
        → Represents m w
        → IsHealthy text w
        → IsProper i
        → setup repo i w ≡ (ok tt, w')
        → Represents (update (set_up i) m) w'
    set_up-Represents i m w w' shows h proper done id name = elim (Bool-cases (i.id == id)) [
      | inl e ↦ rw e (
          subst (λ k. Shows k w' (some (record i { host = repo.redis_conf.host })))
            ((eq_iff i.id id).0 e) (set_up-Shows i w w' h proper done))
      | inr e ↦
          let (found, exists) = lookups-setup repo id name apart i w proper.name e in
          rw (e, ← left_by (setup repo i) w w' done)
            (Shows-kept id w (setup repo i w).1 (m id) found exists (shows id name))
    ]

    deleted-Represents :
        (d : String) (m : Instances) (w w' : World)
        → Represents m w
        → IsHealthy text w'
        → IsName d
        → delete repo d w ≡ (ok tt, w')
        → Represents (update (deleted d) m) w'
    deleted-Represents d m w w' shows h own done id name = elim (Bool-cases (d == id)) [
      | inl e ↦ rw e (
          subst (λ k. Shows k w' none) ((eq_iff d id).0 e)
            (instance_exists-delete repo d w w' own (h.may_stat (instance_base_dir repo d)) done))
      | inr e ↦
          let (found, exists) = lookups-delete repo id name apart d w own e in
          rw (e, ← left_by (delete repo d) w w' done)
            (Shows-kept id w (delete repo d w).1 (m id) found exists (shows id name))
    ]

    perform-IsHealthy :
        (e : Event) (w w' : World)
        → IsHealthy text w
        → IsAllowed e
        → perform e w ≡ (ok tt, w')
        → IsHealthy text w'
    perform-IsHealthy (set_up i) w w' h allowed done =
        let (same_default, same_refuses) =
          setup-Keeps repo i _ (default_elsewhere i.id allowed.name) w in
        rw (← left_by (setup repo i) w w' done)
          (IsHealthy-kept w (setup repo i w).1 h same_default same_refuses)
    perform-IsHealthy (deleted d) w w' h allowed done =
        let (same_default, same_refuses) = delete-Keeps repo d _ (default_elsewhere d allowed) w in
        rw (← left_by (delete repo d) w w' done)
          (IsHealthy-kept w (delete repo d w).1 h same_default same_refuses)

    perform-Represents :
        (e : Event) (m : Instances) (w w' : World)
        → Represents m w
        → IsHealthy text w
        → IsAllowed e
        → perform e w ≡ (ok tt, w')
        → Represents (update e m) w'
    perform-Represents (set_up i) m w w' shows h allowed done =
        set_up-Represents i m w w' shows h allowed done
    perform-Represents (deleted d) m w w' shows h allowed done =
        deleted-Represents d m w w' shows (perform-IsHealthy (deleted d) w w' h allowed done)
          allowed done

    -- The data directory implements a map from IDs to instances: where the files show the
    -- instances of a map to `InstanceExists` and `FindByID`, then after any sequence of `Setup`
    -- and `Delete` calls that all succeed they show those of the map on which the same calls were
    -- made as plain updates, each `Setup` storing the instance with the configured host. The
    -- conditions: the configuration keeps its directories and the default file apart (`IsSound`),
    -- looking and reading are not refused and the default configuration is a text without
    -- carriage returns (`IsHealthy`), and every call has a plain name as its ID and, for a
    -- `Setup`, a port in range and plain values (`IsAllowed`).
    pub perform_all-Represents :
        (es : List Event) (m : Instances) (w w' : World)
        → Represents m w
        → IsHealthy text w
        → All IsAllowed es
        → perform_all es w ≡ (ok tt, w')
        → Represents (update_all es m) w'
    perform_all-Represents [] m w w' shows h allowed done =
        rw (← ap (λ (r : Result (Unit {0}) × World). r.1) done) shows
    perform_all-Represents (e ∷ es) m w w' shows h (allowed, rest) done =
        elim (Result-cases (perform e w).0) [
          | inl (x, bad) ↦ absurd (ground arith)
          | inr (u, good) ↦
              let w₁ : World = (perform e w).1 in
              let here : perform e w ≡ (ok tt, w₁) = pair_path good refl in
              perform_all-Represents es (update e m) w₁ w'
                (perform-Represents e m w w₁ shows h allowed here)
                (perform-IsHealthy e w w₁ h allowed here) rest (ground arith)
        ]
