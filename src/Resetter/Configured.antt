-- ===== src/Resetter/Configured.antt =====
-- resetter/resetter.go: the configuration that a reset leaves.
use cf_redis_broker.Base.{◌≡◌, ap, ◌∙◌, String, false, none, some, ◌∷◌, arith, has_byte, ok}
use cf_redis_broker.Os.{World, read_file}
use cf_redis_broker.Os.Paths.{FilePath}
use cf_redis_broker.Os.Files.{file, insert, lookup, lookup-insert_self}
use cf_redis_broker.Os.Laws.{write_text_ok}
use cf_redis_broker.Redisconf.{Conf, decode, encode}
use cf_redis_broker.Redisconf.Decoded.{decode-encode-decode}
use cf_redis_broker.Redisconf.Additions.{load, save}
use cf_redis_broker.Migrator.Moved.{load_file}
use cf_redis_broker.Resetter.{Resetter, reset_config_with_new_password}

module _ {Conn : Type 0} (resetter : Resetter Conn) (x y : String) (p q : FilePath) where
  config_saved :
      (conf : Conf) (w w' : World)
      → load resetter.default_conf_path w ≡ (ok conf, w)
      → reset_config_with_new_password resetter w ≡ (ok tt, w')
      → save resetter.live_conf_path conf w ≡ (ok tt, w')
  unfolding reset_config_with_new_password
  config_saved conf w w' loaded h = ground arith

  saved :
      (conf : Conf) (w w' : World)
      → save (y ∷ q) conf w ≡ (ok tt, w')
      → w' ≡ record w { tree = insert (y ∷ q) (file (encode conf)) w.tree }
  unfolding save
  saved conf w w' h = write_text_ok (y ∷ q) (encode conf) w w' h

  -- After a reset of the configuration that succeeds, the live configuration is loaded exactly as
  -- the default one, its password included; where the default one is a text without carriage
  -- returns that can be decoded, and both files may be read.
  pub load-reset_config_with_new_password :
      (text : String) (conf : Conf) (w w' : World)
      → resetter.default_conf_path ≡ x ∷ p
      → resetter.live_conf_path ≡ y ∷ q
      → w.refuses (read_file (x ∷ p)) ≡ none
      → w.refuses (read_file (y ∷ q)) ≡ none
      → lookup (x ∷ p) w.tree ≡ some (file text)
      → has_byte b'\r' text ≡ false
      → decode text ≡ ok conf
      → reset_config_with_new_password resetter w ≡ (ok tt, w')
      → load resetter.live_conf_path w' ≡ (ok conf, w')
  load-reset_config_with_new_password text conf w w' default_at live_at may_read may_read_live there
        plain decoded h =
      let done : save (y ∷ q) conf w ≡ (ok tt, w') = rw live_at at (
        config_saved conf w w' (rw default_at (load_file x p text conf w may_read there decoded))
          h) in
      let e : w' ≡ record w { tree = insert (y ∷ q) (file (encode conf)) w.tree } =
        saved conf w w' done in
      rw live_at (
        load_file y q (encode conf) conf w'
          (ap (λ (v : World). v.refuses (read_file (y ∷ q))) e ∙ may_read_live)
          (ap (λ (v : World). lookup (y ∷ q) v.tree) e ∙ lookup-insert_self _ _ _)
          (decode-encode-decode text conf plain decoded))
