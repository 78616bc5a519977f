-- ===== src/Redisconf/Access.antt =====
-- redisconf/redisconf.go: what `Get` and `HasKey` return after a `Set`.
use cf_redis_broker.Base.{
  ◌≡◌, refl, String, ◌||◌, [], ◌∷◌, ◌++◌, map, arith, ◌==◌, eq_iff, if◌then◌else◌,
}
use cf_redis_broker.Redisconf.{Param, Conf, get, has_key, set}

module _ (k v : String) where
  -- A parameter that is set is read back, and every other key reads as before.
  pub get-set :
      (j : String) (conf : Conf) → get j (set k v conf) ≡ (if k == j then v else get j conf)
  unfolding get set
  get-set j [] = ground (arith, eq_iff k j, eq_iff j k)
  get-set j (p ∷ ps) =
      ground (arith, eq_iff k j, eq_iff j k, eq_iff k p.key, eq_iff j p.key, get-set j ps)

  -- After a parameter is set there are its key and the keys that were there before, and no
  -- others.
  pub has_key-set :
      (j : String) (conf : Conf) → has_key j (set k v conf) ≡ (k == j || has_key j conf)
  unfolding has_key set
  has_key-set j [] = ground (arith, eq_iff k j, eq_iff j k)
  has_key-set j (p ∷ ps) =
      ground (arith, eq_iff k j, eq_iff j k, eq_iff k p.key, eq_iff j p.key, has_key-set j ps)

  -- Setting keeps the order of the keys: a key that was not there comes last, and otherwise the
  -- keys are the same.
  pub keys-set :
      (conf : Conf)
      → map (λ (p : Param). p.key) (set k v conf) ≡ (
          if has_key k conf
          then map (λ (p : Param). p.key) conf
          else map (λ (p : Param). p.key) conf ++ (k ∷ []))
  unfolding has_key set
  keys-set [] = refl
  keys-set (p ∷ ps) = ground (arith, eq_iff k p.key, keys-set ps)
