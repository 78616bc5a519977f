-- ===== src/Redisconf/Lines.antt =====
-- How a text falls into lines and a line into a key and a value.
use Prim.Native.Char.{char}
use text.Mathlib.TextLemmas.{cons-append, nil-append, cons-ne-nil}
use cf_redis_broker.Base.{
  ℕ, ◌+◌, ◌<◌, ◌≤◌, ◌≡◌, ◌≢◌, refl, String, ◌<>◌, Char, code, false, ◌||◌, some, List, [], ◌∷◌,
  arith, eq_iff, size, has_byte, split, cut, onto_first,
}
use cf_redis_broker.Redisconf.{
  drop_last_empty, tokens_that_fit, drop_cr, scan_lines, max_scan_token_size,
}

onto_first-ne-nil : (c : Char) (ps : List String) → onto_first c ps ≢ []
onto_first-ne-nil c [] h = cc
onto_first-ne-nil c (p ∷ ps) h = cc

split-ne-nil : (b : ℕ) (s : String) → split b s ≢ []
split-ne-nil b String.[] h = cc
split-ne-nil b (String.◌∷◌ c s) h = ground (arith, onto_first-ne-nil c (split b s))

-- A text that lacks the separator is the first part.
pub split-append :
    (b : ℕ) (c : Char) (s rest : String)
    → code c ≡ b
    → has_byte b s ≡ false
    → split b (s <> String.◌∷◌ c rest) ≡ s ∷ split b rest
split-append b c String.[] rest e h = rw nil-append (ground arith)
split-append b c (String.◌∷◌ d s) rest e h =
    rw cons-append (ground (arith, split-append b c s rest e))

pub cut-append :
    (b : ℕ) (c : Char) (s rest : String)
    → code c ≡ b
    → has_byte b s ≡ false
    → cut b (s <> String.◌∷◌ c rest) ≡ some (s, rest)
cut-append b c String.[] rest e h = rw nil-append (ground arith)
cut-append b c (String.◌∷◌ d s) rest e h = rw cons-append (ground (arith, cut-append b c s rest e))

drop_last_empty-cons :
    (p : String) (ps : List String) → ps ≢ [] → drop_last_empty (p ∷ ps) ≡ p ∷ drop_last_empty ps
unfolding drop_last_empty
drop_last_empty-cons p [] h = absurd (h refl)
drop_last_empty-cons p (q ∷ ps) h = refl

pub one_byte-append : (c : Char) (rest : String) → (String.◌∷◌ c "" <> rest) ≡ String.◌∷◌ c rest
one_byte-append c rest = rw (cons-append, nil-append)

-- The scanner takes a line that fits its buffer off the text.
pub scan_lines-append :
    (s rest : String)
    → has_byte b'\n' s ≡ false
    → size s < max_scan_token_size
    → scan_lines (s <> "\n" <> rest) ≡ drop_cr s ∷ scan_lines rest
unfolding scan_lines
scan_lines-append s rest h fits =
    rw
      (
        one_byte-append (char 10 tt) rest,
        split-append b'\n' (char 10 tt) s rest refl h,
        drop_last_empty-cons s (split b'\n' rest) (split-ne-nil b'\n' rest),
      )
      (unfold tokens_that_fit in ground arith)

pub scan_lines-nil : scan_lines "" ≡ []
unfolding scan_lines
scan_lines-nil = refl

-- A line that does not fit ends the scan, and hides all that follows.
pub scan_lines_too_long :
    (s rest : String)
    → has_byte b'\n' s ≡ false
    → max_scan_token_size ≤ size s
    → scan_lines (s <> "\n" <> rest) ≡ []
unfolding scan_lines
scan_lines_too_long s rest h long =
    rw
      (
        one_byte-append (char 10 tt) rest,
        split-append b'\n' (char 10 tt) s rest refl h,
        drop_last_empty-cons s (split b'\n' rest) (split-ne-nil b'\n' rest),
      )
      (unfold tokens_that_fit in ground arith)

pub size-append : (s t : String) → size (s <> t) ≡ size s + size t
size-append String.[] t = rw nil-append (omega arith)
size-append (String.◌∷◌ c s) t = rw cons-append (omega (arith, size-append s t))

pub has_byte-append : (b : ℕ) (s t : String) → has_byte b (s <> t) ≡ (has_byte b s || has_byte b t)
has_byte-append b String.[] t = rw nil-append
has_byte-append b (String.◌∷◌ c s) t = rw cons-append (ground (arith, has_byte-append b s t))

pub append-ne-nil : (s t : String) → t ≢ "" → (s <> t) ≢ ""
append-ne-nil String.[] t h = rw nil-append h
append-ne-nil (String.◌∷◌ d s) t h = rw cons-append (cons-ne-nil d _)

-- A carriage return can only be dropped from the last part.
pub drop_cr-append : (s t : String) → t ≢ "" → drop_cr (s <> t) ≡ (s <> drop_cr t)
unfolding drop_cr
drop_cr-append String.[] t h = simp nil-append
drop_cr-append (String.◌∷◌ d s) t h =
    simp cons-append (ground (arith, drop_cr-append s t h, eq_iff (s <> t) "", append-ne-nil s t h))
