-- ===== src/Redisconf/Decoded.antt =====
-- redisconf/redisconf.go: the parameters that `decode` returns, and their text.
use Prim.Native.Char.{char}
use text.Mathlib.TextLemmas.{cons-append, nil-append}
use text.Mathlib.TextEquality.{Char-path}
use cf_redis_broker.Base.{
  ℕ, ◌<◌, ◌≡◌, refl, String, ◌<>◌, Char, code, true, false, some, List, [], ◌∷◌, arith, eqb, ltb,
  size, has_byte, split, cut, onto_first, All, map, Result, ok, err, Bool-cases, Option-cases, inl,
  inr, ◌⊎◌, sym, ap, ◌∙◌, ◌==◌,
}
use cf_redis_broker.Redisconf.{
  Param, Conf, drop_last_empty, tokens_that_fit, drop_cr, scan_lines, skipped, parse_param,
  onto_params, decode_lines, decode, encode, max_scan_token_size,
}
use mathlib.Core.Bool.{false≢true}
use cf_redis_broker.Redisconf.Lines.{size-append, has_byte-append}
use cf_redis_broker.Redisconf.RoundTrip.{IsPlain, decode-encode}

-- A text without a newline and a carriage return, short enough for the scanner.
record IsLine (s : String) : Type 0 where
  no_newline : has_byte b'\n' s ≡ false
  no_cr : has_byte b'\r' s ≡ false
  short : size s < max_scan_token_size

abbrev Lacks : ℕ → ℕ → String → Type 0
Lacks b d p = (has_byte b p ≡ false) × (has_byte d p ≡ false)

onto_first-Lacks :
    (b d : ℕ) (c : Char) (ps : List String)
    → eqb (code c) b ≡ false
    → eqb (code c) d ≡ false
    → All (Lacks b d) ps
    → All (Lacks b d) (onto_first c ps)
onto_first-Lacks b d c [] hb hd h = rw (hb, hd) ((refl, refl), tt)
onto_first-Lacks b d c (p ∷ ps) hb hd ((pb, pd), h) = rw (hb, hd) ((pb, pd), h)

-- No part of a split text holds the separator, nor a byte that the text lacks.
split-Lacks : (b d : ℕ) (s : String) → has_byte d s ≡ false → All (Lacks b d) (split b s)
split-Lacks b d String.[] h = ((refl, refl), tt)
split-Lacks b d (String.◌∷◌ c s) h =
    let tail : All (Lacks b d) (split b s) = split-Lacks b d s (ground arith) in
    elim (Bool-cases (eqb (code c) b)) [
      | inl e ↦ rw e ((refl, refl), tail)
      | inr e ↦ rw e (onto_first-Lacks b d c (split b s) e (ground arith) tail)
    ]

pub drop_cr_lacking : (s : String) → has_byte b'\r' s ≡ false → drop_cr s ≡ s
unfolding drop_cr
drop_cr_lacking String.[] h = refl
drop_cr_lacking (String.◌∷◌ c s) h = ground (arith, drop_cr_lacking s)

-- The two ways in which a text is cut.
cut_cases :
    (b : ℕ) (d : Char) (s k v : String)
    → cut b (String.◌∷◌ d s) ≡ some (k, v)
    → ((eqb (code d) b ≡ true) × (k ≡ "") × (v ≡ s))
      ⊎ ((eqb (code d) b ≡ false) × (x : String) × (cut b s ≡ some (x, v)) × (k ≡ String.◌∷◌ d x))
cut_cases b d s k v h = elim (Bool-cases (eqb (code d) b)) [
  | inl e ↦ inl (e, ground arith, ground arith)
  | inr e ↦ elim (Option-cases (cut b s)) [
    | inl n ↦ absurd (ground arith)
    | inr (xy, q) ↦ inr (e, xy.0, ground arith, ground arith)
  ]
]

cut_joins :
    (c : Char) (s k v : String)
    → cut (code c) s ≡ some (k, v)
    → (s ≡ (k <> String.◌∷◌ c v)) × (has_byte (code c) k ≡ false)
cut_joins c String.[] k v h = cc
cut_joins c (String.◌∷◌ d s) k v h = elim (cut_cases (code c) d s k v h) [
  | inl (e, ek, ev) ↦
      let same : d ≡ c = Char-path d c (ground arith) in
      rw (ek, ev, same) (sym (nil-append (String.◌∷◌ c s)), refl)
  | inr (e, x, q, ek) ↦
      let (joined, lacks) = cut_joins c s x v q in
      rw ek (ap (λ t. String.◌∷◌ d t) joined ∙ sym (cons-append d x (String.◌∷◌ c v)), rw e lacks)
]

skipped_key : (k v : String) → skipped (k <> String.◌∷◌ (char 32 tt) v) ≡ false → skipped k ≡ false
unfolding skipped
skipped_key String.[] v h = absurd (false≢true (sym (rw nil-append at h)))
skipped_key (String.◌∷◌ c k) v h = rw cons-append at h

-- A parameter that is cut from a line that is not skipped is plain.
parse_param-IsPlain :
    (s : String) (p : Param) → IsLine s → skipped s ≡ false → parse_param s ≡ ok p → IsPlain p
unfolding parse_param
parse_param-IsPlain s p l taken h = elim (Option-cases (cut b' ' s)) [
  | inl n ↦ absurd (ground arith)
  | inr ((k, v), q) ↦
      let (joined, lacks) = cut_joins (char 32 tt) s k v q in
      let l' : IsLine (k <> String.◌∷◌ (char 32 tt) v) = rw joined at l in
      let t' : skipped (k <> String.◌∷◌ (char 32 tt) v) ≡ false = rw joined at taken in
      let ep : p ≡ record { key = k; value = v } = ground arith in rw ep (plain_of k v lacks l' t')
]
  where
    plain_of :
        (k v : String)
        → has_byte b' ' k ≡ false
        → IsLine (k <> String.◌∷◌ (char 32 tt) v)
        → skipped (k <> String.◌∷◌ (char 32 tt) v) ≡ false
        → IsPlain (record { key = k; value = v })
    plain_of k v lacks l t = record {
      key_starts = skipped_key k v t;
      key_has_no_space = lacks;
      key_has_no_newline =
          ground (arith, has_byte-append b'\n' k (String.◌∷◌ (char 32 tt) v), l.no_newline);
      value_has_no_newline =
          ground (arith, has_byte-append b'\n' k (String.◌∷◌ (char 32 tt) v), l.no_newline);
      value_keeps_end =
          drop_cr_lacking v
            (ground (arith, has_byte-append b'\r' k (String.◌∷◌ (char 32 tt) v), l.no_cr));
      fits = omega (arith, size-append k (String.◌∷◌ (char 32 tt) v), l.short);
    }

onto_params_ok :
    (r : Result Param) (rest : Result Conf) (c : Conf)
    → onto_params r rest ≡ ok c
    → (p : Param) × (ps : Conf) × (r ≡ ok p) × (rest ≡ ok ps) × (c ≡ p ∷ ps)
unfolding onto_params
onto_params_ok (ok p) (ok ps) c e = (p, ps, refl, refl, ground arith)
onto_params_ok (ok p) (err x) c e = absurd (ground arith)
onto_params_ok (err x) rest c e = absurd (ground arith)

-- What the first line adds.
line_cases :
    (l : String) (ls : List String) (conf : Conf)
    → decode_lines (l ∷ ls) ≡ ok conf
    → ((skipped l ≡ true) × (decode_lines ls ≡ ok conf))
      ⊎ ((skipped l ≡ false)
          × (p : Param) × (ps : Conf) × (parse_param l ≡ ok p)
          × (decode_lines ls ≡ ok ps)
          × (conf ≡ p ∷ ps))
unfolding decode_lines
line_cases l ls conf h = elim (Bool-cases (skipped l)) [
  | inl e ↦ inl (e, ground arith)
  | inr e ↦
      let (p, ps, parsed, tail, same) =
        onto_params_ok (parse_param l) (decode_lines ls) conf (ground arith) in
      inr (e, p, ps, parsed, tail, same)
]

All-drop_last_empty :
    (P : String → Type 0) (ps : List String) → All P ps → All P (drop_last_empty ps)
unfolding drop_last_empty
All-drop_last_empty P [] h = tt
All-drop_last_empty P (p ∷ []) h = elim (Bool-cases (p == "")) [ inl e ↦ rw e tt | inr e ↦ rw e h ]
All-drop_last_empty P (p ∷ q ∷ ps) (hp, h) = (hp, All-drop_last_empty P (q ∷ ps) h)

tokens_IsLine : (ps : List String) → All (Lacks b'\n' b'\r') ps → All IsLine (tokens_that_fit ps)
unfolding tokens_that_fit
tokens_IsLine [] h = tt
tokens_IsLine (p ∷ ps) ((n, r), h) =
    let rest : All IsLine (tokens_that_fit ps) = tokens_IsLine ps h in
    elim (Bool-cases (ltb (size p) max_scan_token_size)) [
      | inl e ↦ rw e (record { no_newline = n; no_cr = r; short = ground arith }, rest)
      | inr e ↦ rw e tt
    ]

map-drop_cr : (ls : List String) → All IsLine ls → map drop_cr ls ≡ ls
map-drop_cr [] h = refl
map-drop_cr (l ∷ ls) (hl, h) = rw (drop_cr_lacking l hl.no_cr, map-drop_cr ls h)

-- The lines of a text without carriage returns.
scan_lines-IsLine : (s : String) → has_byte b'\r' s ≡ false → All IsLine (scan_lines s)
scan_lines-IsLine s h =
    let ls : List String = tokens_that_fit (drop_last_empty (split b'\n' s)) in
    let all : All IsLine ls =
      tokens_IsLine _ (All-drop_last_empty (Lacks b'\n' b'\r') _ (split-Lacks b'\n' b'\r' s h)) in
    unfold scan_lines in rw (map-drop_cr ls all) all

decode_lines-IsPlain :
    (ls : List String) (conf : Conf) → All IsLine ls → decode_lines ls ≡ ok conf → All IsPlain conf
decode_lines-IsPlain [] conf all h = rw (sym (nil_params conf h)) tt
  where
    nil_params : (c : Conf) → decode_lines [] ≡ ok c → [] ≡ c
    nil_params c e = unfold decode_lines in cc
decode_lines-IsPlain (l ∷ ls) conf (hl, all) h = elim (line_cases l ls conf h) [
  | inl (skip, tail) ↦ decode_lines-IsPlain ls conf all tail
  | inr (take, p, ps, parsed, tail, e) ↦
      rw e (parse_param-IsPlain l p hl take parsed, decode_lines-IsPlain ls ps all tail)
]

-- Without carriage returns in the text, every parameter that is read is plain.
pub decode-IsPlain :
    (text : String) (conf : Conf)
    → has_byte b'\r' text ≡ false
    → decode text ≡ ok conf
    → All IsPlain conf
unfolding decode
decode-IsPlain text conf h d =
    decode_lines-IsPlain (scan_lines text) conf (scan_lines-IsLine text h) d

-- A text without carriage returns that can be read is read the same after it was written out
-- again.
pub decode-encode-decode :
    (text : String) (conf : Conf)
    → has_byte b'\r' text ≡ false
    → decode text ≡ ok conf
    → decode (encode conf) ≡ ok conf
decode-encode-decode text conf h d = decode-encode conf (decode-IsPlain text conf h d)
