-- ===== src/Redisconf/RoundTrip.antt =====
-- redisconf/redisconf.go: `decode` on what `Encode` writes.
use text.Mathlib.TextLemmas.{append_assoc, cons-append, cons-ne-nil, append-nil, nil-append}
use Prim.Native.Char.{char}
use mathlib.Core.List as L
use cf_redis_broker.Base.{
  ◌+◌, ◌<◌, ◌≤◌, sym, ap, ◌∙◌, ◌≡◌, refl, String, ◌<>◌, false, [], ◌∷◌, ◌++◌, arith, size, has_byte,
  All, Result, ok, err,
}
use cf_redis_broker.Redisconf.{
  Param, Conf, drop_cr, skipped, parse_param, onto_params, decode, encode, max_scan_token_size,
}
use cf_redis_broker.Redisconf.Lines.{
  cut-append, scan_lines-append, scan_lines_too_long, size-append, has_byte-append, drop_cr-append,
  one_byte-append,
}

-- A parameter that stands on a line of its own: the key opens no comment and has no space, neither
-- side has a newline, the value ends in no carriage return, and the line fits the scanner's buffer.
pub record IsPlain (p : Param) : Type 0 where
  pub key_starts : skipped p.key ≡ false
  pub key_has_no_space : has_byte b' ' p.key ≡ false
  pub key_has_no_newline : has_byte b'\n' p.key ≡ false
  pub value_has_no_newline : has_byte b'\n' p.value ≡ false
  pub value_keeps_end : drop_cr p.value ≡ p.value
  pub fits : size p.key + size p.value + 1 < max_scan_token_size

-- The parameters in front of those that a text holds.
abbrev pub prepend : Conf → Result Conf → Result Conf
prepend conf (ok rest) = ok (conf ++ rest)
prepend conf (err e) = err e

skipped-append : (s t : String) → skipped s ≡ false → skipped (s <> t) ≡ false
unfolding skipped
skipped-append String.[] t h = cc
skipped-append (String.◌∷◌ c s) t h = rw cons-append h

drop_cr-space :
    (s : String) → drop_cr (String.◌∷◌ (char 32 tt) s) ≡ String.◌∷◌ (char 32 tt) (drop_cr s)
unfolding drop_cr
drop_cr-space s = refl

space-append : (s : String) → (" " <> s) ≡ String.◌∷◌ (char 32 tt) s
space-append s = one_byte-append (char 32 tt) s

onto_params-prepend : (p : Param) (r : Result Conf) → onto_params (ok p) r ≡ prepend (p ∷ []) r
unfolding onto_params
onto_params-prepend p (ok ps) = refl
onto_params-prepend p (err e) = refl

prepend-prepend :
    (p : Param) (ps : Conf) (r : Result Conf) → prepend (p ∷ []) (prepend ps r) ≡ prepend (p ∷ ps) r
prepend-prepend p ps (ok qs) = refl
prepend-prepend p ps (err e) = refl

prepend-nil : (r : Result Conf) → r ≡ prepend [] r
prepend-nil (ok qs) = refl
prepend-nil (err e) = refl

-- The line of a parameter.
line : Param → String
line p = p.key <> String.◌∷◌ (char 32 tt) p.value

module _ (p : Param) (plain : IsPlain p) where
  line_lacks_newline : has_byte b'\n' (line p) ≡ false
  unfolding line
  line_lacks_newline =
      rw has_byte-append (ground (arith, plain.key_has_no_newline, plain.value_has_no_newline))

  line_fits : size (line p) < max_scan_token_size
  unfolding line
  line_fits = rw size-append (omega (arith, plain.fits))

  drop_cr-line : drop_cr (line p) ≡ line p
  unfolding line
  drop_cr-line = rw (
    drop_cr-append p.key _ (cons-ne-nil (char 32 tt) p.value),
    drop_cr-space,
    plain.value_keeps_end,
  )

  skipped-line : skipped (line p) ≡ false
  unfolding line
  skipped-line = skipped-append p.key _ plain.key_starts

  parse_param-line : parse_param (line p) ≡ ok p
  unfolding parse_param line
  parse_param-line =
      rw (cut-append b' ' (char 32 tt) p.key p.value refl plain.key_has_no_space, parse_param)

  encode-cons :
      (ps : Conf) (text : String)
      → (encode (p ∷ ps) <> text) ≡ (line p <> "\n" <> (encode ps <> text))
  unfolding encode line
  encode-cons ps text = simp append_assoc (rw (space-append, cons-append (char 32 tt)))

  decode-cons : (text : String) → decode (line p <> "\n" <> text) ≡ prepend (p ∷ []) (decode text)
  unfolding decode
  decode-cons text =
      rw (scan_lines-append (line p) text line_lacks_newline line_fits, drop_cr-line)
        (rw (skipped-line, parse_param-line) (onto_params-prepend p _))

decode_too_long :
    (s rest : String)
    → has_byte b'\n' s ≡ false
    → max_scan_token_size ≤ size s
    → decode (s <> "\n" <> rest) ≡ ok []
unfolding decode
decode_too_long s rest lacks long = rw (scan_lines_too_long s rest lacks long)

-- Plain parameters that are written in front of a text are read back, in order, in front of what
-- the text itself holds; and if the text cannot be read, then neither can the whole.
pub decode-encode-append :
    (conf : Conf) (text : String)
    → All IsPlain conf
    → decode (encode conf <> text) ≡ prepend conf (decode text)
decode-encode-append [] text h = unfold encode in rw nil-append (prepend-nil (decode text))
decode-encode-append (p ∷ ps) text (plain, h) =
    rw
      (
        encode-cons p plain ps text,
        decode-cons p plain (encode ps <> text),
        decode-encode-append ps text h,
      )
      (prepend-prepend p ps (decode text))

decode-nil : decode "" ≡ ok []
unfolding decode
decode-nil = refl

-- Plain parameters are read back, all of them and in order.
pub decode-encode : (conf : Conf) → All IsPlain conf → decode (encode conf) ≡ ok conf
decode-encode conf h =
    sym (ap decode (append-nil (encode conf)))
    ∙ decode-encode-append conf "" h
    ∙ rw decode-nil (ap ok (L.append-nil conf))

-- Behind plain parameters, a line of 65536 bytes or more hides itself and all that follows: the
-- parameters in front of it are returned, and no error.
pub decode-encode_too_long :
    (conf : Conf) (s rest : String)
    → All IsPlain conf
    → has_byte b'\n' s ≡ false
    → max_scan_token_size ≤ size s
    → decode (encode conf <> (s <> "\n" <> rest)) ≡ ok conf
decode-encode_too_long conf s rest h lacks long =
    decode-encode-append conf _ h
    ∙ rw (decode_too_long s rest lacks long) (ap ok (L.append-nil conf))
