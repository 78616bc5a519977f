-- ===== src/Base/Decimal/Defs.antt =====
-- Printing and reading decimal numbers, as `strconv` does.
use Prim.Native.Nat.{ℕ, zero, suc, ◌+◌, ◌-◌, ◌*◌, ◌/◌, ◌%◌, ◌^◌}
use Prim.Native.Char.{Char, char, code}
use Prim.Native.String.{String}
use mathlib.Core.Bool.{Bool, ◌&&◌}
use mathlib.Core.Option.{Option, none, some}
use cf_redis_broker.Base.Tests.{ltb, leb, eqb, if◌then◌else◌}
use cf_redis_broker.Base.Int.{ℤ, pos, negsuc, negative}
use cf_redis_broker.Base.Results.{Result, ok, err, syntax_error}

-- The digit of a number below ten.
unfoldable pub digit : ℕ → Char
digit zero = char 48 tt
digit (suc zero) = char 49 tt
digit (suc (suc zero)) = char 50 tt
digit (suc (suc (suc zero))) = char 51 tt
digit (suc (suc (suc (suc zero)))) = char 52 tt
digit (suc (suc (suc (suc (suc zero))))) = char 53 tt
digit (suc (suc (suc (suc (suc (suc zero)))))) = char 54 tt
digit (suc (suc (suc (suc (suc (suc (suc zero))))))) = char 55 tt
digit (suc (suc (suc (suc (suc (suc (suc (suc zero)))))))) = char 56 tt
digit _ = char 57 tt

-- The digits of `n` in front of `out`; a number has at most as many digits as its value.
unfoldable pub emit : ℕ → ℕ → String → String
emit zero n out = out
emit (suc f) n out =
    let rest = emit f (n / 10) (String.◌∷◌ (digit (n % 10)) out) in if eqb n 0 then out else rest

unfoldable pub itoa_nat : ℕ → String
itoa_nat n = if eqb n 0 then "0" else emit n n ""

-- `strconv.Itoa(n)`
unfoldable pub itoa : ℤ → String
unfolding itoa_nat emit digit
itoa (pos n) = itoa_nat n
itoa (negsuc n) = String.◌∷◌ (char 45 tt) (itoa_nat (suc n))

abbrev pub is_digit : ℕ → Bool
is_digit c = leb 48 c && leb c 57

unfoldable pub scan : String → ℕ → Option ℕ
scan String.[] n = some n
scan (String.◌∷◌ c s) n = if is_digit (code c) then scan s (n * 10 + (code c - 48)) else none

-- At least one digit is wanted.
unfoldable pub unsigned : String → Option ℕ
unsigned String.[] = none
unsigned (String.◌∷◌ c s) = scan (String.◌∷◌ c s) 0

-- A value past the bounds is an error too (`ErrRange`).
unfoldable pub bounded : (ℕ → ℤ) → ℕ → String → Option ℕ → Result ℤ
bounded sign bound s none = err (syntax_error s)
bounded sign bound s (some n) = if ltb bound n then err (syntax_error s) else ok (sign n)

-- `strconv.ParseInt(s, 10, w + 1)`
unfoldable pub parse_int : ℕ → String → Result ℤ
unfolding bounded unsigned scan
parse_int w String.[] = err (syntax_error "")
parse_int w (String.◌∷◌ c s) =
    if eqb (code c) b'-'
    then bounded negative (2 ^ w) (String.◌∷◌ c s) (unsigned s)
    else if eqb (code c) b'+'
    then bounded pos (2 ^ w - 1) (String.◌∷◌ c s) (unsigned s)
    else bounded pos (2 ^ w - 1) (String.◌∷◌ c s) (unsigned (String.◌∷◌ c s))

-- `strconv.Atoi(s)`, where `int` has 64 bits
unfoldable pub atoi : String → Result ℤ
unfolding parse_int
atoi = parse_int 63

abbrev pub max_int : ℕ
max_int = 2 ^ 63 - 1
