-- ===== src/Redisconf/Added.antt =====
-- redisconf/redisconf.go: the parameters that `CopyWithInstanceAdditions` adds.
use cf_redis_broker.Base.{
  ℕ, ◌≤◌, ◌≡◌, refl, String, ◌<>◌, [], ◌∷◌, arith, ◌==◌, All, Bool-cases, inl, inr, pos, itoa,
  max_int, itoa_bytes, size-itoa, digits_lack,
}
use cf_redis_broker.Os.Paths.{FilePath, join, render}
use cf_redis_broker.Redisconf.{Conf, set, get, skipped, drop_cr}
use cf_redis_broker.Redisconf.Access.{get-set}
use cf_redis_broker.Redisconf.RoundTrip.{IsPlain}
use cf_redis_broker.Redisconf.Decoded.{drop_cr_lacking}
use cf_redis_broker.Redisconf.Additions.{with_additions}

pub set-IsPlain :
    (k v : String) (conf : Conf)
    → IsPlain (record { key = k; value = v })
    → All IsPlain conf
    → All IsPlain (set k v conf)
unfolding set
set-IsPlain k v [] hp h = (hp, tt)
set-IsPlain k v (p ∷ ps) hp (h, hs) = elim (Bool-cases (k == p.key)) [
  | inl e ↦ rw e (hp, hs)
  | inr e ↦ rw e (h, set-IsPlain k v ps hp hs)
]

syslog_enabled-IsPlain : IsPlain (record { key = "syslog-enabled"; value = "yes" })
unfolding skipped drop_cr
syslog_enabled-IsPlain = record {
  key_starts = refl;
  key_has_no_space = refl;
  key_has_no_newline = refl;
  value_has_no_newline = refl;
  value_keeps_end = refl;
  fits = omega arith;
}

syslog_facility-IsPlain : IsPlain (record { key = "syslog-facility"; value = "local0" })
unfolding skipped drop_cr
syslog_facility-IsPlain = record {
  key_starts = refl;
  key_has_no_space = refl;
  key_has_no_newline = refl;
  value_has_no_newline = refl;
  value_keeps_end = refl;
  fits = omega arith;
}

port-IsPlain : (n : ℕ) → n ≤ max_int → IsPlain (record { key = "port"; value = itoa (pos n) })
unfolding skipped
port-IsPlain n h = record {
  key_starts = refl;
  key_has_no_space = refl;
  key_has_no_newline = refl;
  value_has_no_newline = digits_lack b'\n' _ (omega arith) (itoa_bytes n);
  value_keeps_end = drop_cr_lacking _ (digits_lack b'\r' _ (omega arith) (itoa_bytes n));
  fits = omega (arith, size-itoa n h);
}

-- The three parameters that the caller gives, each on a line of its own.
pub record ArePlain (instance_id password : String) (pid_dir : FilePath) : Type 0 where
  pub ident : IsPlain (record { key = "syslog-ident"; value = "redis-server-" <> instance_id })
  pub secret : IsPlain (record { key = "requirepass"; value = password })
  pub pidfile :
      IsPlain (record { key = "pidfile"; value = render (join pid_dir (instance_id <> ".pid")) })

module _ (instance_id password : String) (pid_dir : FilePath) where
  pub with_additions-IsPlain :
      (n : ℕ) (conf : Conf)
      → n ≤ max_int
      → ArePlain instance_id password pid_dir
      → All IsPlain conf
      → All IsPlain (with_additions instance_id (itoa (pos n)) password pid_dir conf)
  unfolding with_additions
  with_additions-IsPlain n conf le given h = set-IsPlain _ _ _ given.pidfile (
      set-IsPlain _ _ _ given.secret (
        set-IsPlain _ _ _ (port-IsPlain n le) (
          set-IsPlain _ _ _ syslog_facility-IsPlain
            (set-IsPlain _ _ _ given.ident (set-IsPlain _ _ _ syslog_enabled-IsPlain h)))))

  pub get_port-with_additions :
      (port : String) (conf : Conf)
      → get "port" (with_additions instance_id port password pid_dir conf) ≡ port
  unfolding with_additions
  get_port-with_additions port conf = simp get-set

  pub get_password-with_additions :
      (port : String) (conf : Conf)
      → get "requirepass" (with_additions instance_id port password pid_dir conf) ≡ password
  unfolding with_additions
  get_password-with_additions port conf = simp get-set
