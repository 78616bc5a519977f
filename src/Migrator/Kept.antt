-- ===== src/Migrator/Kept.antt =====
-- configmigrator/configmigrator.go: what a move leaves alone.
use cf_redis_broker.Base.{◌≡◌, String, false, inl, inr, arith, Result-cases}
use cf_redis_broker.Os.{read_text}
use cf_redis_broker.Os.Paths.{FilePath, same}
use cf_redis_broker.Os.Laws.{read_text_reads}
use cf_redis_broker.Os.Frame.{Keeps, Keeps-write_text, Keeps-os_remove}
use cf_redis_broker.Redisconf.{Conf, encode, set}
use cf_redis_broker.Redisconf.Additions.{load, save}
use cf_redis_broker.Redis.Repository.Setting.{load_reads}
use cf_redis_broker.Migrator.{move_into, move_data_for, try_remove}

module _ (property : String) (source conf_path q : FilePath) (not_source : same source q ≡ false)
    (not_conf : same conf_path q ≡ false) where
  pub try_remove-Keeps : Keeps q (try_remove source)
  unfolding try_remove
  try_remove-Keeps w = ground (arith, Keeps-os_remove q source not_source w)

  move_into-Keeps : (conf : Conf) → Keeps q (move_into property source conf_path conf)
  unfolding move_into save
  move_into-Keeps conf w = elim (Result-cases (read_text source w).0) [
    | inl (e, bad) ↦ ground (arith, read_text_reads source w)
    | inr (contents, good) ↦
        let text : String = encode (set property contents conf) in
        ground (
          arith,
          read_text_reads source w,
          Keeps-write_text q conf_path text not_conf w,
          try_remove-Keeps (save conf_path (set property contents conf) w).1,
        )
  ]

  pub move_data_for-Keeps : Keeps q (move_data_for property source conf_path)
  unfolding move_data_for
  move_data_for-Keeps w = elim (Result-cases (load conf_path w).0) [
    | inl (e, bad) ↦ ground (arith, load_reads conf_path w)
    | inr (conf, good) ↦
        ground (arith, load_reads conf_path w, move_into-Keeps conf w, try_remove-Keeps w)
  ]
