-- ===== src/Os/Under.antt =====
-- Which paths lie below which.
use cf_redis_broker.Base.{
  ◌≡◌, ap, ◌≤◌, String, Bool, true, false, Bool-cases, inl, inr, ◌==◌, [], ◌∷◌, arith, length,
}
use cf_redis_broker.Os.Paths.{FilePath, same, same_iff, is_under, is_under_self}

-- A Boolean that implies what is false is false.
pub not_true : {b : Bool} → ¬ (b ≡ true) → b ≡ false
not_true {b} h = elim (Bool-cases b) [ inl e ↦ absurd (h e) | inr e ↦ e ]

same-length : (p q : FilePath) → same p q ≡ true → length p ≡ length q
same-length p q h = ap length ((same_iff p q).0 h)

pub is_under-length : (p q : FilePath) → is_under p q ≡ true → length p ≤ length q
unfolding is_under
is_under-length p [] h = omega (arith, same-length p [] h)
is_under-length p (x ∷ q) h = ground (arith, same-length p (x ∷ q), is_under-length p q)

module _ (x : String) (d : FilePath) where
  pub is_under_longer : is_under (x ∷ d) d ≡ false
  is_under_longer = not_true (λ h. omega (arith, is_under-length (x ∷ d) d h))

  pub is_under_cons : (p : FilePath) → is_under (x ∷ d) p ≡ true → is_under d p ≡ true
  unfolding is_under same
  is_under_cons [] h = ground arith
  is_under_cons (y ∷ p) h = ground (arith, is_under_cons p, same_iff d p, is_under_self p)

  pub is_under_cons_both :
      (y : String) (p : FilePath) → is_under (x ∷ d) (y ∷ p) ≡ true → is_under d p ≡ true
  unfolding is_under same
  is_under_cons_both y p h = ground (arith, is_under_cons p, same_iff d p, is_under_self p)

pub is_under-cons_false :
    (q : FilePath) (x : String) (p : FilePath)
    → is_under q (x ∷ p) ≡ false
    → (same (x ∷ p) q ≡ false) × (is_under q p ≡ false)
unfolding is_under
is_under-cons_false q x p h =
    (not_true (λ s. ground (arith, same_iff (x ∷ p) q, same_iff q (x ∷ p))), ground arith)

pub same_shorter : (x : String) (p : FilePath) → same p (x ∷ p) ≡ false
same_shorter x p = not_true (λ e. omega (arith, same-length p (x ∷ p) e))

-- Two names in one directory: nothing of the one lies below the other.
module _ (i j : String) (d : FilePath) (differ : (i == j) ≡ false) where
  pub below_other : is_under (i ∷ d) (j ∷ d) ≡ false
  unfolding is_under same
  below_other = ground (arith, differ, is_under_longer i d)

  pub below_other_child : (x : String) → is_under (i ∷ d) (x ∷ j ∷ d) ≡ false
  unfolding is_under same
  below_other_child x = ground (arith, below_other, same_shorter j d)
