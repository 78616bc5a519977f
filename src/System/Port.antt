-- ===== src/System/Port.antt =====
-- system/free_tcp_port.go: the port of an address.
use cf_redis_broker.Base.{
  ℕ, ◌≡◌, refl, ◌<◌, ◌^◌, String, ◌<>◌, Char, code, false, List, [], ◌∷◌, arith, pos, itoa, split,
  last_or, has_byte, ok, itoa_bytes, IsDigit, AllBytes, parse_int-itoa, ◌++◌, Bool-cases, eqb, inl,
  inr,
}
use Prim.Native.Char.{char}
use text.Mathlib.TextLemmas.{cons-append, nil-append}
use cf_redis_broker.Redisconf.Lines.{one_byte-append}
use cf_redis_broker.System.{get_port_from_addr}

pub split_one : (b : ℕ) (s : String) → has_byte b s ≡ false → split b s ≡ s ∷ []
split_one b String.[] h = refl
split_one b (String.◌∷◌ c s) h = ground (arith, split_one b s)

-- A text without the separator, behind a separator, is the last part.
split_last :
    (b : ℕ) (c : Char) (s t : String)
    → code c ≡ b
    → has_byte b t ≡ false
    → (p : String) × (ps : List String) × (split b (s <> String.◌∷◌ c t) ≡ p ∷ ps ++ t ∷ [])
split_last b c String.[] t e h = ("", [], rw (nil-append, split_one b t h) (ground arith))
split_last b c (String.◌∷◌ d s) t e h =
    let (p, ps, eq) = split_last b c s t e h in
    elim (Bool-cases (eqb (code d) b)) [
      | inl y ↦ ("", p ∷ ps, rw (cons-append, eq, y) refl)
      | inr n ↦ (String.◌∷◌ d p, ps, rw (cons-append, eq, n) refl)
    ]

last_or-append : (d t : String) (ps : List String) → last_or d (ps ++ t ∷ []) ≡ t
last_or-append d t [] = refl
last_or-append d t (p ∷ ps) = last_or-append p t ps

digits_lack_colon : (s : String) → AllBytes IsDigit s → has_byte b':' s ≡ false
digits_lack_colon String.[] h = refl
digits_lack_colon (String.◌∷◌ c s) (hc, h) = ground (arith, digits_lack_colon s h)

-- The port of an address is read back from its text, whatever host stands in front of the last
-- colon, for every port below 2^31.
pub get_port_from_addr-itoa :
    (host : String) (n : ℕ)
    → n < 2 ^ 31
    → get_port_from_addr (host <> ":" <> itoa (pos n)) ≡ ok (pos n)
unfolding get_port_from_addr
get_port_from_addr-itoa host n h =
    let lacks : has_byte b':' (itoa (pos n)) ≡ false =
      digits_lack_colon (itoa (pos n)) (itoa_bytes n) in
    let (p, ps, eq) = split_last b':' (char 58 tt) host (itoa (pos n)) refl lacks in
    rw (one_byte-append (char 58 tt) (itoa (pos n)), eq, last_or-append p (itoa (pos n)) ps)
      (parse_int-itoa 31 n (omega arith))
