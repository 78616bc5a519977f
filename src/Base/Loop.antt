-- ===== src/Base/Loop.antt =====
-- The loops `for i := 0; i < limit; i += step` of the program, on fuel.
use Prim.Native.Nat.{ℕ, zero, suc, ◌+◌, ◌*◌, ◌≤◌, ◌<◌}
use mathlib.Core.Path.{◌≡◌, refl, ap, sym, subst}
use mathlib.Core.Option.{Option, none, some}
use mathlib.Core.Bool.{true, false}
use mathlib.Core.Logic.{inl, inr}
use cf_redis_broker.Base.Tests.{Bool-cases, Option-cases}
use native.Mathlib.Omega.{arith}
use cf_redis_broker.Base.Int.{ℤ, pos, negsuc, pos_part, ltb_ℤ}
use native.Mathlib.Nat.{suc-mul}

module _ {S A : Type 0} (body : S → Option A × S) where
  -- So many rounds, unless the body returns before.
  unfoldable pub rounds : ℕ → S → Option A × S
  rounds zero s = (none, s)
  rounds (suc n) s = let (r, s') = body s in elim r [ some a ↦ (some a, s') | none ↦ rounds n s' ]

  module _ (limit : ℤ) (step : ℕ) where
    -- A round is entered with the counter at `i`.
    pub for_from : ℕ → ℕ → S → Option A × S
    for_from zero i s = (none, s)
    for_from (suc fuel) i s = elim (ltb_ℤ (pos i) limit) [
      | false ↦ (none, s)
      | true ↦
          let (r, s') = body s in
          elim r [ some a ↦ (some a, s') | none ↦ for_from fuel (i + step) s' ]
    ]

    -- There are no more rounds than the limit says, since a step is at least 1.
    unfoldable pub for_below : S → Option A × S
    unfolding for_from
    for_below = for_from (pos_part limit) 0

    -- What every round keeps is kept.
    for_from_kept :
        (I : S → Type 0)
        → ((s : S) → I s → I (body s).1)
        → (fuel i : ℕ) (s : S) → I s
        → I (for_from fuel i s).1
    unfolding for_from
    for_from_kept I each zero i s h = h
    for_from_kept I each (suc fuel) i s h =
        let later : I (for_from fuel (i + step) (body s).1).1 =
          for_from_kept I each fuel (i + step) (body s).1 (each s h) in
        elim (Bool-cases (ltb_ℤ (pos i) limit)) [
          | inr over ↦ let e : (for_from (suc fuel) i s).1 ≡ s = ground arith in subst I (sym e) h
          | inl inside ↦ elim (Option-cases (body s).0) [
            | inl goes_on ↦
                let e : (for_from (suc fuel) i s).1 ≡ (for_from fuel (i + step) (body s).1).1 =
                  ground arith in
                subst I (sym e) later
            | inr (a, left) ↦
                let e : (for_from (suc fuel) i s).1 ≡ (body s).1 = ground arith in
                subst I (sym e) (each s h)
          ]
        ]

    pub for_below_kept :
        (I : S → Type 0) → ((s : S) → I s → I (body s).1) → (s : S) → I s → I (for_below s).1
    unfolding for_below
    for_below_kept I each s h = for_from_kept I each (pos_part limit) 0 s h

  module _ (limit step : ℕ) where
    for_from-rounds :
        (n fuel i : ℕ) (s : S)
        → n ≤ fuel
        → limit ≤ i + n * step
        → ((m : ℕ) → n ≡ suc m → i + m * step < limit)
        → for_from (pos limit) step fuel i s ≡ rounds n s
    unfolding for_from rounds
    for_from-rounds zero zero i s enough covers last = refl
    for_from-rounds zero (suc fuel) i s enough covers last = ground arith
    for_from-rounds (suc n) zero i s enough covers last = absurd (omega arith)
    for_from-rounds (suc n) (suc fuel) i s enough covers last =
        let inside : i < limit = omega (arith, last n refl) in
        let later : (s' : S) → for_from (pos limit) step fuel (i + step) s' ≡ rounds n s' = λ s'.
          for_from-rounds n fuel (i + step) s' (omega arith) (omega (arith, suc-mul n step))
            (λ m e. omega (arith, last (suc m) (ap suc e), suc-mul m step)) in
        ground (arith, later (body s).1)

    -- The number of rounds is the limit divided by the step, rounded up.
    pub for_below-rounds :
        (n : ℕ) (s : S)
        → n ≤ limit
        → limit ≤ n * step
        → ((m : ℕ) → n ≡ suc m → m * step < limit)
        → for_below (pos limit) step s ≡ rounds n s
    unfolding for_below
    for_below-rounds n s enough covers last =
        for_from-rounds n limit 0 s enough (omega arith) (λ m e. omega (arith, last m e))

  pub for_below_negative : (n step : ℕ) (s : S) → for_below (negsuc n) step s ≡ rounds 0 s
  unfolding for_below rounds
  for_below_negative n step s = refl
