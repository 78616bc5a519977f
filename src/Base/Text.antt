-- ===== src/Base/Text.antt =====
-- What the program uses of Go's `strings` package. A Go string is a `String` with one character
-- for each byte, so the texts are taken to be ASCII.
use Prim.Native.Nat.{ℕ, suc}
use Prim.Native.Char.{Char, code}
use Prim.Native.String.{String}
use mathlib.Core.Bool.{Bool, false, ◌&&◌, ◌||◌}
use mathlib.Core.Option.{Option, none, some}
use mathlib.Core.List.{List, [], ◌∷◌}
use text.Mathlib.Text.{◌==◌, starts_with}
use cf_redis_broker.Base.Tests.{eqb, leb, if◌then◌else◌}

-- `len(s)`
abbrev pub size : String → ℕ
size String.[] = 0
size (String.◌∷◌ c s) = suc (size s)

-- Some byte of the text is `b`.
abbrev pub has_byte : ℕ → String → Bool
has_byte b String.[] = false
has_byte b (String.◌∷◌ c s) = eqb (code c) b || has_byte b s

-- A byte in front of the first part.
abbrev pub onto_first : Char → List String → List String
onto_first c [] = String.◌∷◌ c "" ∷ []
onto_first c (p ∷ ps) = String.◌∷◌ c p ∷ ps

-- `strings.Split(s, sep)` for a separator of one byte. There is always a first part.
abbrev pub split : ℕ → String → List String
split b String.[] = "" ∷ []
split b (String.◌∷◌ c s) =
    let rest = split b s in if eqb (code c) b then "" ∷ rest else onto_first c rest

-- The text before the first `sep` and the text behind it.
abbrev pub cut : ℕ → String → Option (String × String)
cut b String.[] = none
cut b (String.◌∷◌ c s) =
    let rest = cut b s in
    if eqb (code c) b
    then some ("", s)
    else elim rest [ none ↦ none | some (x, y) ↦ some (String.◌∷◌ c x, y) ]

abbrev pub is_space : ℕ → Bool
is_space n = eqb n 32 || (leb 9 n && leb n 13)

abbrev pub trim_left : String → String
trim_left String.[] = ""
trim_left (String.◌∷◌ c s) =
    let rest = trim_left s in if is_space (code c) then rest else String.◌∷◌ c s

abbrev pub trim_right : String → String
trim_right String.[] = ""
trim_right (String.◌∷◌ c s) =
    let rest = trim_right s in if is_space (code c) && rest == "" then "" else String.◌∷◌ c rest

-- `strings.TrimSpace(s)`
unfoldable pub trim_space : String → String
trim_space s = trim_right (trim_left s)

-- `strings.Replace(s, x, "", -1)` for a text `x` of one byte
abbrev pub without_byte : ℕ → String → String
without_byte b String.[] = ""
without_byte b (String.◌∷◌ c s) =
    let rest = without_byte b s in if eqb (code c) b then rest else String.◌∷◌ c rest

-- `strings.Contains(s, t)`
abbrev pub contains : String → String → Bool
contains String.[] t = t == ""
contains (String.◌∷◌ c s) t = starts_with (String.◌∷◌ c s) t || contains s t

-- `parts[len(parts)-1]`, with the value where there is no part.
abbrev pub last_or : String → List String → String
last_or s [] = s
last_or s (p ∷ ps) = last_or p ps

-- A predicate of every byte.
abbrev pub AllBytes {ℓ} : (ℕ → Type ℓ) → String → Type ℓ
AllBytes P String.[] = Unit
AllBytes P (String.◌∷◌ c s) = P (code c) × AllBytes P s
