-- ===== src/Migrator/Whole/Every.antt =====
-- configmigrator/configmigrator.go: the migration of all instances.
use cf_redis_broker.Base.{
  ◌≡◌, refl, ap, inl, inr, subst, String, false, Bool-cases, ◌==◌, eq_iff, List, [], ◌∷◌, All,
  arith, Result, ok,
}
use cf_redis_broker.Os.{World, os_read_dir}
use cf_redis_broker.Os.Paths.{FilePath, same, IsName, join_name}
use cf_redis_broker.Os.Frame.{Stays, Keeps}
use cf_redis_broker.Redis.Repository.Listing.Count.{read_dir_reads}
use cf_redis_broker.Migrator.{
  redis_port_filename, redis_password_filename, migrate_instance, migrate_instances, migrate,
}
use cf_redis_broker.Migrator.Whole.{Holds-kept, Gives-kept}
use cf_redis_broker.Migrator.Whole.Instances.{
  Values, IsReady, HasValues, HasValues-IsReady, migrate_instance-Keeps, migrated,
}

-- Files of different instances are different.
other_dir :
    (i j x y : String) (data_dir : FilePath)
    → (i == j) ≡ false
    → same (x ∷ i ∷ data_dir) (y ∷ j ∷ data_dir) ≡ false
unfolding same
other_dir i j x y data_dir differ = ground arith

module _ (data_dir : FilePath) where
  other-Keeps :
      (i j y : String)
      → (i == j) ≡ false
      → Keeps (y ∷ j ∷ data_dir) (migrate_instance (i ∷ data_dir))
  other-Keeps i j y differ =
      migrate_instance-Keeps (i ∷ data_dir) (y ∷ j ∷ data_dir)
        (other_dir i j redis_port_filename y data_dir differ)
        (other_dir i j redis_password_filename y data_dir differ)
        (other_dir i j "redis.conf" y data_dir differ)

  module _ (i : String) (w w' : World)
      (done : migrate_instance (i ∷ data_dir) w ≡ (ok tt, w')) where
    left_by : (migrate_instance (i ∷ data_dir) w).1 ≡ w'
    left_by = ap (λ (r : Result (Unit {0}) × World). r.1) done

    other-Stays : (j y : String) → (i == j) ≡ false → Stays (y ∷ j ∷ data_dir) w w'
    other-Stays j y differ = subst (Stays (y ∷ j ∷ data_dir) w) left_by (other-Keeps i j y differ w)

    IsReady-kept :
        (j : String) (v : Values) → IsReady (j ∷ data_dir) v w → IsReady (j ∷ data_dir) v w'
    IsReady-kept j v h = elim (Bool-cases (i == j)) [
      | inl e ↦
          let same_name : i ≡ j = (eq_iff i j).0 e in
          HasValues-IsReady (j ∷ data_dir) v w' (
            migrated (j ∷ data_dir) v w w' h
              (subst (λ n. migrate_instance (n ∷ data_dir) w ≡ (ok tt, w')) same_name done))
      | inr differ ↦ record {
        conf = h.conf;
        holds =
            Holds-kept "redis.conf" (j ∷ data_dir) h.conf w w' (other-Stays j "redis.conf" differ)
              h.holds;
        port =
            Gives-kept "port" v.port redis_port_filename (j ∷ data_dir) h.conf h.conf w w' refl
              (other-Stays j redis_port_filename differ) h.port;
        password =
            Gives-kept "requirepass" v.password redis_password_filename (j ∷ data_dir) h.conf h.conf
              w w' refl (other-Stays j redis_password_filename differ) h.password;
      }
    ]

    HasValues-kept :
        (j : String) (v : Values) → HasValues (j ∷ data_dir) v w → HasValues (j ∷ data_dir) v w'
    HasValues-kept j v h = elim (Bool-cases (i == j)) [
      | inl e ↦
          migrated (j ∷ data_dir) v w w' (HasValues-IsReady (j ∷ data_dir) v w h)
            (subst (λ n. migrate_instance (n ∷ data_dir) w ≡ (ok tt, w')) ((eq_iff i j).0 e) done)
      | inr differ ↦ record {
        conf = h.conf;
        holds =
            Holds-kept "redis.conf" (j ∷ data_dir) h.conf w w' (other-Stays j "redis.conf" differ)
              h.holds;
        port = h.port;
        password = h.password;
      }
    ]

  instances_steps :
      (n : String) (ns : List String) (w w' : World)
      → IsName n
      → migrate_instances data_dir (n ∷ ns) w ≡ (ok tt, w')
      → (w₁ : World) × (migrate_instance (n ∷ data_dir) w ≡ (ok tt, w₁))
        × (migrate_instances data_dir ns w₁ ≡ (ok tt, w'))
  unfolding migrate_instances
  instances_steps n ns w w' name h =
      let w₁ : World = (migrate_instance (n ∷ data_dir) w).1 in
      (w₁, ground (arith, join_name data_dir n name), ground (arith, join_name data_dir n name))

  values_stay :
      (ns : List String) (j : String) (v : Values) (w w' : World)
      → All IsName ns
      → HasValues (j ∷ data_dir) v w
      → migrate_instances data_dir ns w ≡ (ok tt, w')
      → HasValues (j ∷ data_dir) v w'
  unfolding migrate_instances
  values_stay [] j v w w' names h done =
      subst (HasValues (j ∷ data_dir) v) (ap (λ (r : Result (Unit {0}) × World). r.1) done) h
  values_stay (n ∷ ns) j v w w' (name, names) h done =
      let (w₁, first, rest) = instances_steps n ns w w' name done in
      values_stay ns j v w₁ w' names (HasValues-kept n w w₁ first j v h) rest

  module _ (values : String → Values) where
    abbrev pub AreReady : List String → World → Type 0
    AreReady ns w = All (λ n. IsReady (n ∷ data_dir) (values n) w) ns

    abbrev pub HaveValues : List String → World → Type 0
    HaveValues ns w = All (λ n. HasValues (n ∷ data_dir) (values n) w) ns

    AreReady-kept :
        (n : String) (ns : List String) (w w₁ : World)
        → migrate_instance (n ∷ data_dir) w ≡ (ok tt, w₁)
        → AreReady ns w
        → AreReady ns w₁
    AreReady-kept n [] w w₁ done ready = tt
    AreReady-kept n (j ∷ js) w w₁ done (first, ready) =
        (IsReady-kept n w w₁ done j (values j) first, AreReady-kept n js w w₁ done ready)

    every_migrated :
        (ns : List String) (w w' : World)
        → All IsName ns
        → AreReady ns w
        → migrate_instances data_dir ns w ≡ (ok tt, w')
        → HaveValues ns w'
    every_migrated [] w w' names ready done = tt
    every_migrated (n ∷ ns) w w' (name, names) (first, ready) done =
        let (w₁, one, rest) = instances_steps n ns w w' name done in
        (
          values_stay ns n (values n) w₁ w' names
              (migrated (n ∷ data_dir) (values n) w w₁ first one) rest,
          every_migrated ns w₁ w' names (AreReady-kept n ns w w₁ one ready) rest,
        )

    pub migrate-HaveValues :
        (ns : List String) (w w' : World)
        → (os_read_dir data_dir w).0 ≡ ok ns
        → All IsName ns
        → AreReady ns w
        → migrate data_dir w ≡ (ok tt, w')
        → HaveValues ns w'
    unfolding migrate
    migrate-HaveValues ns w w' listed names ready done =
        every_migrated ns w w' names ready (ground (arith, listed, read_dir_reads data_dir w))
