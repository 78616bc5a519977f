-- ===== src/S3/Bucket/Obfuscated.antt =====
-- s3/bucket.go: what an obfuscated text shows.
use Prim.Native.Char.{char}
use text.Mathlib.TextLemmas.{cons-append, nil-append}
use cf_redis_broker.Base.{
  ℕ, zero, suc, ◌+◌, ◌-◌, ◌*◌, ◌≤◌, ◌<◌, ◌≡◌, refl, String, ◌<>◌, arith, size,
}
use cf_redis_broker.Redisconf.Lines.{size-append}
use cf_redis_broker.S3.Bucket.{shown_bytes, obfuscate_from, obfuscate}

unfoldable pub stars : ℕ → String
stars zero = ""
stars (suc n) = String.◌∷◌ (char 42 tt) (stars n)

-- Behind the cutoff nothing is hidden.
shown_tail : (cutoff i : ℕ) (t : String) → 0 < cutoff → cutoff ≤ i → obfuscate_from cutoff i t ≡ t
unfolding obfuscate_from
shown_tail cutoff i String.[] some_hidden behind = refl
shown_tail cutoff i (String.◌∷◌ c t) some_hidden behind =
    ground (arith, shown_tail cutoff (i + 1) t)

hidden_head :
    (cutoff i : ℕ) (s t : String)
    → 0 < cutoff
    → i + size s ≡ cutoff
    → obfuscate_from cutoff i (s <> t) ≡ stars (size s) <> t
unfolding obfuscate_from stars
hidden_head cutoff i String.[] t some_hidden ends =
    rw nil-append (shown_tail cutoff i t some_hidden (omega arith))
hidden_head cutoff i (String.◌∷◌ c s) t some_hidden ends =
    rw (cons-append, cons-append) (ground (arith, hidden_head cutoff (i + 1) s t))

shown_few : (n : ℕ) → (shown_bytes n ≤ 4) × (4 * shown_bytes n ≤ n)
shown_few n = ground arith

no_bytes : (t : String) → size t ≡ 0 → t ≡ ""
no_bytes String.[] h = refl
no_bytes (String.◌∷◌ c t) h = absurd (omega arith)

hidden :
    (s t : String)
    → size t ≡ shown_bytes (size s + size t)
    → obfuscate_from (size s + size t - shown_bytes (size s + size t)) 0 (s <> t)
      ≡ stars (size s) <> t
unfolding obfuscate_from stars
hidden String.[] t shown =
    let empty : t ≡ "" = no_bytes t (omega (arith, shown, shown_few (0 + size t))) in
    rw (empty, nil-append) refl
hidden (String.◌∷◌ c s) t shown =
    hidden_head _ 0 (String.◌∷◌ c s) t (omega (arith, shown)) (omega (arith, shown))

-- Of a text whose last part has the length of a fourth of the whole, rounded down, and at most 4,
-- the obfuscated form is stars for all in front of that part, and the part itself, which is at
-- most 4 bytes long and at most a fourth of the text.
pub obfuscate_lem :
    (s t : String)
    → size t ≡ shown_bytes (size s + size t)
    → (obfuscate (s <> t) ≡ stars (size s) <> t) × (size t ≤ 4) × (4 * size t ≤ size s + size t)
unfolding obfuscate
obfuscate_lem s t shown =
    let few : _ = shown_few (size s + size t) in
    (rw size-append (hidden s t shown), omega (arith, few), omega (arith, few))
