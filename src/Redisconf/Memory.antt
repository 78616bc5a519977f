-- ===== src/Redisconf/Memory.antt =====
-- redisconf/redisconf.go: the limit of memory, a product of floating-point numbers.
use cf_redis_broker.Base.{
  ℕ, zero, suc, ◌+◌, ◌*◌, ◌/◌, ◌%◌, ◌^◌, ◌≤◌, ◌<◌, ◌≡◌, refl, ap, subst, ◌∙◌, ltb, eqb,
  if◌then◌else◌, pos, itoa, arith, ◌⊎◌, inl, inr, Bool-cases,
}
use native.Mathlib.Nat.{div-add-mod, mod-one, mod-lt, pow-suc, mul_assoc}
use cf_redis_broker.Base.Act.{Act, ◌>>=◌, pure}
use cf_redis_broker.Redisconf.{Conf, set}

-- The unit of the last of 53 binary digits of a number, by doubling.
unfoldable pub unit : ℕ → ℕ → ℕ → ℕ
unit zero d n = d
unit (suc fuel) d n = let rest = unit fuel (2 * d) n in if ltb n (d * 2 ^ 53) then d else rest

-- The nearest multiple of `d`, and the even one of two that are as near.
unfoldable pub nearest : ℕ → ℕ → ℕ
nearest n d =
    if ltb (2 * (n % d)) d
    then d * (n / d)
    else if ltb d (2 * (n % d))
    then d * (n / d) + d
    else if eqb (n / d % 2) 0
    then d * (n / d)
    else d * (n / d) + d

-- A whole number as a `float64`, for numbers below 2^128.
unfoldable pub to_float : ℕ → ℕ
unfolding unit nearest
to_float n = nearest n (unit 128 1 n)

abbrev pub seed : ℕ
seed = 8106479329266893

-- The `float64` 0.45 is `seed` over 2^54. The product is rounded as the whole number that it is
-- over 2^54, and cut down to a whole number.
unfoldable pub max_memory : ℕ → ℕ
unfolding to_float
max_memory total = to_float (to_float total * seed) / 2 ^ 54

-- `memory` is what sigar says of the memory of the machine.
unfoldable pub calculate_max_memory : {S : Type 0} → Act S ℕ → Act S ℕ
unfolding max_memory
calculate_max_memory memory = do total ← memory; pure (max_memory total)

unfoldable pub set_max_memory : {S : Type 0} → Act S ℕ → Conf → Act S Conf
unfolding calculate_max_memory
set_max_memory memory conf = do
  max_mem ← calculate_max_memory memory
  pure (set "maxmemory" (itoa (pos max_mem)) conf)

-- Where the unit has grown, the number has 53 digits of it.
unit_lem : (fuel d n : ℕ) → (unit fuel d n ≡ d) ⊎ (unit fuel d n * 4503599627370496 ≤ n)
unfolding unit
unit_lem zero d n = inl refl
unit_lem (suc fuel) d n = elim (Bool-cases (ltb n (d * 2 ^ 53))) [
  | inl fits ↦ inl (ground (arith, fits))
  | inr more ↦ elim (unit_lem fuel (2 * d) n) [
    | inl e ↦ inr (ground (arith, more, e))
    | inr e ↦ inr (ground (arith, more, e))
  ]
]

doubled : (fuel d : ℕ) → 2 ^ suc fuel * (d * 2 ^ 53) ≡ 2 ^ fuel * (2 * d * 2 ^ 53)
doubled fuel d =
    ap (λ x. x * (d * 2 ^ 53)) (pow-suc 2 fuel)
    ∙ mul_assoc (2 ^ fuel) 2 (d * 2 ^ 53)
    ∙ ap (λ x. 2 ^ fuel * x) (omega arith)

-- The doubling ends: the number is below 2^53 units, if it is below so many after all doublings.
unit_fits : (fuel d n : ℕ) → n < 2 ^ fuel * (d * 2 ^ 53) → n < unit fuel d n * 2 ^ 53
unfolding unit
unit_fits zero d n h = ground (arith, h)
unit_fits (suc fuel) d n h = elim (Bool-cases (ltb n (d * 2 ^ 53))) [
  | inl fits ↦ ground (arith, fits)
  | inr more ↦
      ground (arith, more, unit_fits fuel (2 * d) n (subst (λ x. n < x) (doubled fuel d) h))
]

nearest_lem : (n d : ℕ) → nearest n d ≤ n + d
unfolding nearest
nearest_lem n d = ground (arith, div-add-mod n d)

nearest_above : (n d : ℕ) → 0 < d → n ≤ nearest n d + d
unfolding nearest
nearest_above n d some = ground (arith, div-add-mod n d, mod-lt n some)

unit_positive : (fuel d n : ℕ) → 0 < d → 0 < unit fuel d n
unfolding unit
unit_positive zero d n some = some
unit_positive (suc fuel) d n some =
    ground (arith, some, unit_positive fuel (2 * d) n (omega (arith, some)))

nearest_one : (n : ℕ) → nearest n 1 ≡ n
unfolding nearest
nearest_one n = ground (arith, div-add-mod n 1, mod-one n)

to_float_lem : (n : ℕ) → to_float n * 4503599627370496 ≤ n * 4503599627370496 + n
unfolding to_float
to_float_lem n = elim (unit_lem 128 1 n) [
  | inl e ↦ rw e (omega (arith, nearest_one n))
  | inr e ↦ omega (arith, e, nearest_lem n (unit 128 1 n))
]

to_float_above : (n : ℕ) → n * 4503599627370496 ≤ to_float n * 4503599627370496 + n
unfolding to_float
to_float_above n = elim (unit_lem 128 1 n) [
  | inl e ↦ rw e (omega (arith, nearest_one n))
  | inr e ↦ omega (arith, e, nearest_above n (unit 128 1 n) (unit_positive 128 1 n (omega arith)))
]

-- The limit of memory is 0.45 of the machine's memory, but for what is cut off to a whole number,
-- and for a part in 10^14 that the rounding of floating-point numbers may add or take.
pub max_memory_lem :
    (total : ℕ)
    → (20 * max_memory total * 100000000000000 ≤ 900000000000001 * total)
      × (899999999999999 * total ≤ 20 * max_memory total * 100000000000000 + 20 * 100000000000000)
unfolding max_memory
max_memory_lem total = (
  omega (arith, to_float_lem total, to_float_lem (to_float total * seed)),
  omega (arith, to_float_above total, to_float_above (to_float total * seed)),
)

-- Every number of a machine word, and every product of one, has digits enough.
pub to_float_fits : (n : ℕ) → n < 2 ^ 128 → n < unit 128 1 n * 2 ^ 53
to_float_fits n h = unit_fits 128 1 n (omega (arith, h))
