-- ===== src/Migrator/Whole/Instances.antt =====
-- configmigrator/configmigrator.go: a migration of one instance.
use cf_redis_broker.Base.{
  ◌≡◌, refl, ap, ◌∙◌, inl, subst, String, false, ◌==◌, ◌∷◌, arith, Result, ok,
}
use cf_redis_broker.Os.{World}
use cf_redis_broker.Os.Paths.{FilePath, same, join}
use cf_redis_broker.Os.Frame.{Stays, Keeps}
use cf_redis_broker.Redisconf.{Conf, get}
use cf_redis_broker.Redisconf.Additions.{load}
use cf_redis_broker.Migrator.{
  redis_port_filename, redis_password_filename, move_data_for, migrate_instance,
}
use cf_redis_broker.Migrator.Moved.{load_file}
use cf_redis_broker.Migrator.Kept.{move_data_for-Keeps}
use cf_redis_broker.Migrator.Whole.{Holds, Gives, Gives-kept, HasMoved, moved}

-- A port and a password, neither empty.
pub record Values : Type 0 where
  pub port : String
  pub password : String
  pub has_port : (port == "") ≡ false
  pub has_password : (password == "") ≡ false

-- Both are found in the directory of an instance, each in the configuration or in its own file.
pub record IsReady (dir : FilePath) (v : Values) (w : World) : Type 0 where
  pub conf : Conf
  pub holds : Holds "redis.conf" dir conf w
  pub port : Gives "port" v.port redis_port_filename dir conf w
  pub password : Gives "requirepass" v.password redis_password_filename dir conf w

-- Both stand in the configuration.
pub record HasValues (dir : FilePath) (v : Values) (w : World) : Type 0 where
  pub conf : Conf
  pub holds : Holds "redis.conf" dir conf w
  pub port : get "port" conf ≡ v.port
  pub password : get "requirepass" conf ≡ v.password

pub HasValues-load :
    (dir : FilePath) (v : Values) (w : World) (h : HasValues dir v w)
    → load ("redis.conf" ∷ dir) w ≡ (ok h.conf, w)
HasValues-load dir v w h =
    load_file "redis.conf" dir h.holds.text h.conf w h.holds.may_read h.holds.there h.holds.decoded

pub HasValues-IsReady :
    (dir : FilePath) (v : Values) (w : World) → HasValues dir v w → IsReady dir v w
HasValues-IsReady dir v w h = record {
  conf = h.conf;
  holds = h.holds;
  port = inl h.port;
  password = inl h.password;
}

files_apart :
    (dir : FilePath)
    → (same (redis_port_filename ∷ dir) ("redis.conf" ∷ dir) ≡ false)
      × (same (redis_port_filename ∷ dir) (redis_password_filename ∷ dir) ≡ false)
      × (same (redis_password_filename ∷ dir) ("redis.conf" ∷ dir) ≡ false)
      × (same ("redis.conf" ∷ dir) (redis_password_filename ∷ dir) ≡ false)
unfolding same
files_apart dir = (refl, refl, refl, refl)

module _ (dir : FilePath) where
  migrate_steps :
      (w w' : World)
      → migrate_instance dir w ≡ (ok tt, w')
      → (w₁ : World) × (move_data_for "port" (redis_port_filename ∷ dir) ("redis.conf" ∷ dir) w
          ≡ (ok tt, w₁))
        × (move_data_for "requirepass" (redis_password_filename ∷ dir) ("redis.conf" ∷ dir) w₁
            ≡ (ok tt, w'))
  unfolding migrate_instance join
  migrate_steps w w' h =
      let w₁ : World =
        (move_data_for "port" (redis_port_filename ∷ dir) ("redis.conf" ∷ dir) w).1 in
      (w₁, ground arith, ground arith)

  pub migrate_instance-Keeps :
      (q : FilePath)
      → same (redis_port_filename ∷ dir) q ≡ false
      → same (redis_password_filename ∷ dir) q ≡ false
      → same ("redis.conf" ∷ dir) q ≡ false
      → Keeps q (migrate_instance dir)
  unfolding migrate_instance join
  migrate_instance-Keeps q not_port not_password not_conf w =
      let w₁ : World =
        (move_data_for "port" (redis_port_filename ∷ dir) ("redis.conf" ∷ dir) w).1 in
      ground (
        arith,
        move_data_for-Keeps "port" (redis_port_filename ∷ dir) ("redis.conf" ∷ dir) q not_port
            not_conf w,
        move_data_for-Keeps "requirepass" (redis_password_filename ∷ dir) ("redis.conf" ∷ dir) q
            not_password not_conf w₁,
      )

  -- The migration of one instance.
  pub migrated :
      (v : Values) (w w' : World)
      → IsReady dir v w
      → migrate_instance dir w ≡ (ok tt, w')
      → HasValues dir v w'
  migrated v w w' h done =
      let (w₁, first, second) = migrate_steps w w' done in
      let (port_conf, port_password, password_conf, conf_password) = files_apart dir in
      let one : HasMoved "port" v.port "redis.conf" dir h.conf w₁ =
        moved "port" v.port redis_port_filename "redis.conf" dir dir port_conf h.conf w w₁ h.holds
          h.port v.has_port first in
      let still : Stays (redis_password_filename ∷ dir) w w₁ =
        subst (Stays (redis_password_filename ∷ dir) w)
          (ap (λ (r : Result (Unit {0}) × World). r.1) first)
          (move_data_for-Keeps "port" (redis_port_filename ∷ dir) ("redis.conf" ∷ dir)
            (redis_password_filename ∷ dir) port_password conf_password w) in
      let two : HasMoved "requirepass" v.password "redis.conf" dir one.conf' w' =
        moved "requirepass" v.password redis_password_filename "redis.conf" dir dir password_conf
          one.conf' w₁ w' one.holds
          (Gives-kept "requirepass" v.password redis_password_filename dir h.conf one.conf' w w₁
            (one.others "requirepass" refl) still h.password)
          v.has_password second in
      record {
        conf = two.conf';
        holds = two.holds;
        port = two.others "port" refl ∙ one.has;
        password = two.has;
      }
