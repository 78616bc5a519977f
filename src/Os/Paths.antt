-- ===== src/Os/Paths.antt =====
-- Paths of files, as Go's `path` and `path/filepath` treat them. A path is the list of the names
-- on the way to it from the root, the last name first; a relative path stands for the absolute one.
use cf_redis_broker.Base.{
  ◌≡◌, refl, ◌↔◌, String, ◌<>◌, Bool, true, false, ◌&&◌, ◌||◌, List, [], ◌∷◌, arith, ◌==◌, eq_iff,
  if◌then◌else◌, ℕ, split, has_byte,
}

abbrev pub FilePath : Type 0
FilePath = List String

unfoldable pub same : FilePath → FilePath → Bool
same [] [] = true
same [] (y ∷ q) = false
same (x ∷ p) [] = false
same (x ∷ p) (y ∷ q) = x == y && same p q

pub same_iff : (p q : FilePath) → (same p q ≡ true) ↔ (p ≡ q)
unfolding same
same_iff [] [] = (λ h. refl, λ h. refl)
same_iff [] (y ∷ q) = (λ h. cc, λ h. cc)
same_iff (x ∷ p) [] = (λ h. cc, λ h. cc)
same_iff (x ∷ p) (y ∷ q) = ground (arith, eq_iff x y, same_iff p q)

-- The path is the directory, or lies below it.
unfoldable pub is_under : FilePath → FilePath → Bool
unfolding same
is_under d [] = same d []
is_under d (x ∷ p) = same d (x ∷ p) || is_under d p

abbrev parent : FilePath → FilePath
parent [] = []
parent (x ∷ p) = p

-- One element of a path, cleaned lexically.
step_into : FilePath → String → FilePath
step_into d name =
    if name == "" || name == "." then d else if name == ".." then parent d else name ∷ d

steps_into : FilePath → List String → FilePath
steps_into d [] = d
steps_into d (name ∷ names) = steps_into (step_into d name) names

-- `path.Join(d, s)`, which cleans its result
unfoldable pub join : FilePath → String → FilePath
unfolding step_into steps_into
join d s = steps_into d (split b'/' s)

-- The text of an absolute path.
unfoldable pub render_onto : FilePath → String → String
render_onto [] s = s
render_onto (x ∷ p) s = render_onto p ("/" <> x <> s)

unfoldable pub render : FilePath → String
unfolding render_onto
render [] = "/"
render (x ∷ p) = render_onto (x ∷ p) ""

-- A name that is one element of a path, and no dots.
pub record IsName (s : String) : Type 0 where
  pub one : has_byte b'/' s ≡ false
  pub not_empty : (s == "") ≡ false
  pub not_dot : (s == ".") ≡ false
  pub not_dots : (s == "..") ≡ false

split_one : (b : ℕ) (s : String) → has_byte b s ≡ false → split b s ≡ s ∷ []
split_one b String.[] h = refl
split_one b (String.◌∷◌ c s) h = ground (arith, split_one b s)

-- A name is joined as the last element.
pub join_name : (d : FilePath) (s : String) → IsName s → join d s ≡ s ∷ d
unfolding join
join_name d s h = rw (split_one b'/' s h.one) (ground (arith, h.not_empty, h.not_dot, h.not_dots))

-- A path below a directory is not the directory.
pub same_longer : (x : String) (p : FilePath) → same (x ∷ p) p ≡ false
unfolding same
same_longer x [] = refl
same_longer x (y ∷ p) = ground (arith, same_longer y p)

pub is_under_self : (p : FilePath) → is_under p p ≡ true
unfolding is_under
is_under_self [] = (same_iff [] []).1 refl
is_under_self (x ∷ p) = rw ((same_iff (x ∷ p) (x ∷ p)).1 refl) refl
