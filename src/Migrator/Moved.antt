-- ===== src/Migrator/Moved.antt =====
-- configmigrator/configmigrator.go: what a move leaves in the configuration.
use cf_redis_broker.Base.{
  ◌≡◌, ap, ◌∙◌, String, true, false, ◌==◌, eq_iff, none, some, ◌∷◌, arith, has_byte, ok,
}
use cf_redis_broker.Os.{World, read_file, read_text, os_remove}
use cf_redis_broker.Os.Paths.{FilePath, same}
use cf_redis_broker.Os.Files.{file, insert, lookup, lookup-insert_self}
use cf_redis_broker.Os.Laws.{write_text_ok, read_text_file, remove_other}
use cf_redis_broker.Redisconf.{Conf, decode, encode, get, set}
use cf_redis_broker.Redisconf.RoundTrip.{IsPlain, decode-encode}
use cf_redis_broker.Redisconf.Decoded.{decode-IsPlain}
use cf_redis_broker.Redisconf.Added.{set-IsPlain}
use cf_redis_broker.Redisconf.Additions.{load, save}
use cf_redis_broker.Migrator.{move_into, move_data_for, try_remove}

-- The file is read, and what it holds is decoded.
pub load_file :
    (x : String) (p : FilePath) (text : String) (conf : Conf) (w : World)
    → w.refuses (read_file (x ∷ p)) ≡ none
    → lookup (x ∷ p) w.tree ≡ some (file text)
    → decode text ≡ ok conf
    → load (x ∷ p) w ≡ (ok conf, w)
unfolding load
load_file x p text conf w free there decoded = ground (arith, read_text_file x p text w free there)

module _ (property : String) (source : FilePath) (x : String) (p : FilePath) where
  pub move_steps :
      (conf : Conf) (contents : String) (w w' : World)
      → load (x ∷ p) w ≡ (ok conf, w)
      → (get property conf == "") ≡ true
      → read_text source w ≡ (ok contents, w)
      → move_data_for property source (x ∷ p) w ≡ (ok tt, w')
      → (w₂ : World) × (save (x ∷ p) (set property contents conf) w ≡ (ok tt, w₂))
        × (w' ≡ (os_remove source w₂).1)
  unfolding move_data_for move_into try_remove
  move_steps conf contents w w' loaded lacks given h =
      let w₂ : World = (save (x ∷ p) (set property contents conf) w).1 in
      (w₂, ground arith, ground arith)

  pub saved :
      (conf : Conf) (w w₂ : World)
      → save (x ∷ p) conf w ≡ (ok tt, w₂)
      → w₂ ≡ record w { tree = insert (x ∷ p) (file (encode conf)) w.tree }
  unfolding save
  saved conf w w₂ h = write_text_ok (x ∷ p) (encode conf) w w₂ h

  -- After a move that succeeds, the configuration is loaded with the property set to what its own
  -- file held, and with all else as before; where it could be loaded and lacked the property, or
  -- had it empty, its text has no carriage returns, the property's file can be read, stands
  -- elsewhere and holds a plain value, and the configuration's file may be read.
  pub load-move_data_for :
      (text contents : String) (conf : Conf) (w w' : World)
      → same source (x ∷ p) ≡ false
      → w.refuses (read_file (x ∷ p)) ≡ none
      → lookup (x ∷ p) w.tree ≡ some (file text)
      → has_byte b'\r' text ≡ false
      → decode text ≡ ok conf
      → get property conf ≡ ""
      → read_text source w ≡ (ok contents, w)
      → IsPlain (record { key = property; value = contents })
      → move_data_for property source (x ∷ p) w ≡ (ok tt, w')
      → load (x ∷ p) w' ≡ (ok (set property contents conf), w')
  load-move_data_for text contents conf w w' apart free there plain decoded lacks given value h =
      let (w₂, done, last) =
        move_steps conf contents w w' (load_file x p text conf w free there decoded)
          ((eq_iff (get property conf) "").1 lacks) given h in
      let e : w₂
          ≡ record w { tree = insert (x ∷ p) (file (encode (set property contents conf))) w.tree } =
        saved (set property contents conf) w w₂ done in
      let (kept, refuses) = remove_other source (x ∷ p) w₂ apart in
      load_file x p (encode (set property contents conf)) (set property contents conf) w'
        (ap (λ (v : World). v.refuses (read_file (x ∷ p))) last
          ∙ ap (λ r. r (read_file (x ∷ p))) refuses
          ∙ ap (λ (v : World). v.refuses (read_file (x ∷ p))) e
          ∙ free)
        (ap (λ (v : World). lookup (x ∷ p) v.tree) last
          ∙ kept
          ∙ ap (λ (v : World). lookup (x ∷ p) v.tree) e
          ∙ lookup-insert_self _ _ _)
        (decode-encode _
          (set-IsPlain property contents conf value (decode-IsPlain text conf plain decoded)))
