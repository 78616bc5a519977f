-- ===== src/Base/Decimal/RoundTrip.antt =====
-- Printing a number and reading it: the lemmas on the two together.
use Prim.Native.Nat.{ℕ, zero, suc, ◌+◌, ◌-◌, ◌/◌, ◌%◌, ◌^◌, ◌≤◌, ◌<◌}
use Prim.Native.Char.{code}
use Prim.Native.String.{String}
use mathlib.Core.Path.{◌≡◌, refl}
use mathlib.Core.Bool.{true, false}
use mathlib.Core.Option.{some}
use mathlib.Core.Logic.{◌≢◌, inl, inr}
use text.Mathlib.TextLemmas.{cons-ne-nil}
use native.Mathlib.Omega.{arith}
use native.Mathlib.Nat.{pow-suc}
use cf_redis_broker.Base.Int.{pos}
use cf_redis_broker.Base.Text.{AllBytes, size, has_byte}
use cf_redis_broker.Base.Tests.{eqb, Bool-cases}
use cf_redis_broker.Base.Results.{ok}
use cf_redis_broker.Base.Decimal.Defs.{
  digit, emit, itoa_nat, itoa, scan, unsigned, bounded, parse_int, atoi, max_int,
}

code-digit : (d : ℕ) → d < 10 → code (digit d) ≡ 48 + d
unfolding digit
code-digit zero h = refl
code-digit (suc zero) h = refl
code-digit (suc (suc zero)) h = refl
code-digit (suc (suc (suc zero))) h = refl
code-digit (suc (suc (suc (suc zero)))) h = refl
code-digit (suc (suc (suc (suc (suc zero))))) h = refl
code-digit (suc (suc (suc (suc (suc (suc zero)))))) h = refl
code-digit (suc (suc (suc (suc (suc (suc (suc zero))))))) h = refl
code-digit (suc (suc (suc (suc (suc (suc (suc (suc zero)))))))) h = refl
code-digit (suc (suc (suc (suc (suc (suc (suc (suc (suc zero))))))))) h = refl
code-digit (suc (suc (suc (suc (suc (suc (suc (suc (suc (suc n)))))))))) h = absurd (omega arith)

-- Reading the last digit after the others gives the number.
scan_last : (n : ℕ) (out : String) → scan (String.◌∷◌ (digit (n % 10)) out) (n / 10) ≡ scan out n
unfolding scan
scan_last n out = ground (arith, code-digit (n % 10) (omega arith))

scan-emit : (f n : ℕ) (out : String) → n ≤ f → scan (emit f n out) 0 ≡ scan out n
unfolding emit
scan-emit zero n out h = ground arith
scan-emit (suc f) n out h =
    ground (arith, scan-emit f (n / 10) (String.◌∷◌ (digit (n % 10)) out), scan_last n out)

abbrev pub IsDigit : ℕ → Type 0
IsDigit c = (48 ≤ c) × (c ≤ 57)

emit-IsDigit : (f n : ℕ) (out : String) → AllBytes IsDigit out → AllBytes IsDigit (emit f n out)
unfolding emit
emit-IsDigit zero n out h = h
emit-IsDigit (suc f) n out h =
    let d : IsDigit (code (digit (n % 10))) = ground (arith, code-digit (n % 10) (omega arith)) in
    elim (Bool-cases (eqb n 0)) [
      | inl z ↦ rw z h
      | inr z ↦ rw z (emit-IsDigit f (n / 10) (String.◌∷◌ (digit (n % 10)) out) (d, h))
    ]

emit-ne-nil : (f n : ℕ) (out : String) → out ≢ "" → emit f n out ≢ ""
unfolding emit
emit-ne-nil zero n out h = h
emit-ne-nil (suc f) n out h = elim (Bool-cases (eqb n 0)) [
  | inl z ↦ rw z h
  | inr z ↦ rw z (emit-ne-nil f (n / 10) (String.◌∷◌ (digit (n % 10)) out) (cons-ne-nil _ out))
]

itoa_nat-IsDigit : (n : ℕ) → AllBytes IsDigit (itoa_nat n)
unfolding itoa_nat
itoa_nat-IsDigit n = elim (Bool-cases (eqb n 0)) [
  | inl z ↦ rw z (omega arith)
  | inr z ↦ rw z (emit-IsDigit n n "" tt)
]

emit_pos-ne-nil : (f n : ℕ) → n ≤ f → eqb n 0 ≡ false → emit f n "" ≢ ""
unfolding emit
emit_pos-ne-nil zero n le h = absurd (ground arith)
emit_pos-ne-nil (suc f) n le h =
    rw h (emit-ne-nil f (n / 10) (String.◌∷◌ (digit (n % 10)) "") (cons-ne-nil _ ""))

pub itoa-ne-nil : (n : ℕ) → itoa (pos n) ≢ ""
unfolding itoa
itoa-ne-nil n = elim (Bool-cases (eqb n 0)) [
  | inl z ↦ rw z (cons-ne-nil _ "")
  | inr z ↦ rw z (emit_pos-ne-nil n n (omega arith) z)
]

-- The bytes of a printed natural number are digits.
pub itoa_bytes : (n : ℕ) → AllBytes IsDigit (itoa (pos n))
unfolding itoa
itoa_bytes n = itoa_nat-IsDigit n

scan-itoa_nat : (n : ℕ) → scan (itoa_nat n) 0 ≡ some n
unfolding itoa_nat scan
scan-itoa_nat n = elim (Bool-cases (eqb n 0)) [
  | inl z ↦ rw z (ground arith)
  | inr z ↦ rw z (scan-emit n n "" (omega arith))
]

scan-itoa : (n : ℕ) → scan (itoa (pos n)) 0 ≡ some n
unfolding itoa
scan-itoa = scan-itoa_nat

parse_digits :
    (w : ℕ) (s : String)
    → s ≢ ""
    → AllBytes IsDigit s
    → parse_int w s ≡ bounded pos (2 ^ w - 1) s (scan s 0)
unfolding parse_int unsigned
parse_digits w String.[] h d = absurd (h refl)
parse_digits w (String.◌∷◌ c s) h d = ground arith

pub parse_int-itoa : (w n : ℕ) → n ≤ 2 ^ w - 1 → parse_int w (itoa (pos n)) ≡ ok (pos n)
unfolding bounded
parse_int-itoa w n h =
    rw (parse_digits w (itoa (pos n)) (itoa-ne-nil n) (itoa_bytes n)) (rw scan-itoa (ground arith))

-- A natural number in the range of `int` is read back from its decimal print.
pub atoi-itoa : (n : ℕ) → n ≤ max_int → atoi (itoa (pos n)) ≡ ok (pos n)
unfolding atoi
atoi-itoa n h = parse_int-itoa 63 n h

eqb_zero : (n : ℕ) → n ≡ 0 → eqb n 0 ≡ true
eqb_zero n h = ground arith

tenth : (k n : ℕ) → n < 10 ^ suc k → n / 10 < 10 ^ k
tenth k n h = omega (arith, pow-suc 10 k)

-- A number below 10^k has at most k digits.
emit-size : (k f n : ℕ) (out : String) → n < 10 ^ k → size (emit f n out) ≤ k + size out
unfolding emit
emit-size k zero n out h = omega arith
emit-size zero (suc f) n out h = rw (eqb_zero n (omega arith)) (omega arith)
emit-size (suc k) (suc f) n out h = elim (Bool-cases (eqb n 0)) [
  | inl z ↦ rw z (omega arith)
  | inr z ↦
      rw z (omega (arith, emit-size k f (n / 10) (String.◌∷◌ (digit (n % 10)) out) (tenth k n h)))
]

-- An `int` is printed in at most 19 digits.
pub size-itoa : (n : ℕ) → n ≤ max_int → size (itoa (pos n)) ≤ 19
unfolding itoa itoa_nat
size-itoa n h = elim (Bool-cases (eqb n 0)) [
  | inl z ↦ rw z (omega arith)
  | inr z ↦ rw z (emit-size 19 n n "" (omega arith))
]

-- A text of digits holds no byte below the digits.
pub digits_lack : (b : ℕ) (s : String) → b < 48 → AllBytes IsDigit s → has_byte b s ≡ false
digits_lack b String.[] lt h = refl
digits_lack b (String.◌∷◌ c s) lt (hc, h) = ground (arith, digits_lack b s lt h)
