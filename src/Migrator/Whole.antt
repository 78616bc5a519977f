-- ===== src/Migrator/Whole.antt =====
-- configmigrator/configmigrator.go: what a migration leaves of the ports and the passwords.
pub mod Instances
pub mod Every
use cf_redis_broker.Base.{
  ◌≡◌, refl, sym, ap, ◌∙◌, ◌⊎◌, inl, inr, String, true, false, Bool-cases, ◌==◌, eq_iff, none, some,
  List, [], ◌∷◌, All, arith, ok,
}
use cf_redis_broker.Os.{World, read_file, os_remove, read_text}
use cf_redis_broker.Os.Paths.{FilePath, same}
use cf_redis_broker.Os.Files.{file, insert, lookup, lookup-insert_self}
use cf_redis_broker.Os.Laws.{read_text_file, remove_other}
use cf_redis_broker.Os.Frame.{Stays}
use cf_redis_broker.Redisconf.{Conf, decode, encode, get, set}
use cf_redis_broker.Redisconf.Access.{get-set}
use cf_redis_broker.Redisconf.RoundTrip.{IsPlain, decode-encode}
use cf_redis_broker.Redisconf.Added.{set-IsPlain}
use cf_redis_broker.Redisconf.Additions.{load, save}
use cf_redis_broker.Migrator.{move_data_for, try_remove}
use cf_redis_broker.Migrator.Moved.{load_file, move_steps, saved}

-- The configuration that stands at a path, with plain parameters, and may be read.
pub record Holds (x : String) (p : FilePath) (conf : Conf) (w : World) : Type 0 where
  pub text : String
  pub there : lookup (x ∷ p) w.tree ≡ some (file text)
  pub decoded : decode text ≡ ok conf
  pub plain : All IsPlain conf
  pub may_read : w.refuses (read_file (x ∷ p)) ≡ none

-- The value stands in a file of its own, and the configuration lacks it.
pub record IsApart (property value y : String) (q : FilePath) (conf : Conf) (w : World)
    : Type 0 where
  pub lacking : get property conf ≡ ""
  pub there : lookup (y ∷ q) w.tree ≡ some (file value)
  pub may_read : w.refuses (read_file (y ∷ q)) ≡ none
  pub plain : IsPlain (record { key = property; value = value })

-- Where a value is found: in the configuration, or in its own file.
abbrev pub Gives : String → String → String → FilePath → Conf → World → Type 0
Gives property value y q conf w = (get property conf ≡ value) ⊎ IsApart property value y q conf w

pub Holds-kept :
    (x : String) (p : FilePath) (conf : Conf) (w w' : World)
    → Stays (x ∷ p) w w'
    → Holds x p conf w
    → Holds x p conf w'
Holds-kept x p conf w w' (kept, refuses) h = record {
  text = h.text;
  there = kept ∙ h.there;
  decoded = h.decoded;
  plain = h.plain;
  may_read = ap (λ r. r (read_file (x ∷ p))) refuses ∙ h.may_read;
}

pub Gives-kept :
    (property value y : String) (q : FilePath) (conf conf' : Conf) (w w' : World)
    → get property conf' ≡ get property conf
    → Stays (y ∷ q) w w'
    → Gives property value y q conf w
    → Gives property value y q conf' w'
Gives-kept property value y q conf conf' w w' same_value (kept, refuses) (inl e) =
    inl (same_value ∙ e)
Gives-kept property value y q conf conf' w w' same_value (kept, refuses) (inr h) = inr (record {
  lacking = same_value ∙ h.lacking;
  there = kept ∙ h.there;
  may_read = ap (λ r. r (read_file (y ∷ q))) refuses ∙ h.may_read;
  plain = h.plain;
})

-- The configuration that a move leaves: it has the value, and all else as before.
pub record HasMoved (property value x : String) (p : FilePath) (conf : Conf) (w' : World)
    : Type 0 where
  pub conf' : Conf
  pub holds : Holds x p conf' w'
  pub has : get property conf' ≡ value
  pub others : (j : String) → (property == j) ≡ false → get j conf' ≡ get j conf

module _ (property value y x : String) (q p : FilePath) (apart : same (y ∷ q) (x ∷ p) ≡ false)
    (conf : Conf) (w w' : World) (h : Holds x p conf w) where
  loaded : load (x ∷ p) w ≡ (ok conf, w)
  loaded = load_file x p h.text conf w h.may_read h.there h.decoded

  -- The configuration has the value already.
  removed :
      (get property conf == "") ≡ false
      → move_data_for property (y ∷ q) (x ∷ p) w ≡ (ok tt, w')
      → w' ≡ (os_remove (y ∷ q) w).1
  unfolding move_data_for try_remove
  removed has done = ground (arith, loaded)

  moved_has :
      get property conf ≡ value
      → (value == "") ≡ false
      → move_data_for property (y ∷ q) (x ∷ p) w ≡ (ok tt, w')
      → HasMoved property value x p conf w'
  moved_has has given done =
      let e : w' ≡ (os_remove (y ∷ q) w).1 = removed (rw has given) done in
      let (kept, refuses) = remove_other (y ∷ q) (x ∷ p) w apart in
      record {
        conf' = conf;
        holds = Holds-kept x p conf w w' (rw e (kept, refuses)) h;
        has = has;
        others = λ j other. refl;
      }

  moved_in :
      IsApart property value y q conf w
      → move_data_for property (y ∷ q) (x ∷ p) w ≡ (ok tt, w')
      → HasMoved property value x p conf w'
  moved_in given done =
      let (w₂, wrote, last) =
        move_steps property (y ∷ q) x p conf value w w' loaded
          ((eq_iff (get property conf) "").1 given.lacking)
          (read_text_file y q value w given.may_read given.there) done in
      let conf₂ : Conf = set property value conf in
      let e : w₂ ≡ record w { tree = insert (x ∷ p) (file (encode conf₂)) w.tree } =
        saved property (y ∷ q) x p conf₂ w w₂ wrote in
      let (kept, refuses) = remove_other (y ∷ q) (x ∷ p) w₂ apart in
      let plain : All IsPlain conf₂ = set-IsPlain property value conf given.plain h.plain in
      record {
        conf' = conf₂;
        holds = record {
          text = encode conf₂;
          there =
              ap (λ (v : World). lookup (x ∷ p) v.tree) last
              ∙ kept
              ∙ ap (λ (v : World). lookup (x ∷ p) v.tree) e
              ∙ lookup-insert_self _ _ _;
          decoded = decode-encode conf₂ plain;
          plain = plain;
          may_read =
              ap (λ (v : World). v.refuses (read_file (x ∷ p))) last
              ∙ ap (λ r. r (read_file (x ∷ p))) refuses
              ∙ ap (λ (v : World). v.refuses (read_file (x ∷ p))) e
              ∙ h.may_read;
        };
        has = get-set property value property conf ∙ rw ((eq_iff property property).1 refl) refl;
        others = λ j other. get-set property value j conf ∙ rw other refl;
      }

  pub moved :
      Gives property value y q conf w
      → (value == "") ≡ false
      → move_data_for property (y ∷ q) (x ∷ p) w ≡ (ok tt, w')
      → HasMoved property value x p conf w'
  moved (inl has) given done = moved_has has given done
  moved (inr given) nonempty done = moved_in given done
