-- ===== src/Utils/Moved.antt =====
-- utils/files.go: what a move leaves at its two paths.
use cf_redis_broker.Base.{
  ◌≡◌, ap, ◌∙◌, sym, String, false, some, none, ◌∷◌, arith, inl, inr, Result, Result-cases, ok,
}
use cf_redis_broker.Os.{World, read_file, os_open, read_text, write_text, os_remove}
use cf_redis_broker.Os.Files.{file, insert, lookup, lookup-insert, lookup-insert_self}
use cf_redis_broker.Os.Paths.{FilePath, same, same_iff}
use cf_redis_broker.Os.Laws.{
  write_text_ok, read_text_file, read_text_reads, remove_ok, remove_other,
}
use cf_redis_broker.Os.Under.{not_true}
use cf_redis_broker.Utils.{move_file}

module _ (x y : String) (p q : FilePath) (apart : same (x ∷ p) (y ∷ q) ≡ false) where
  apart' : same (y ∷ q) (x ∷ p) ≡ false
  apart' = not_true (λ e. ground (arith, apart, same_iff (x ∷ p) (y ∷ q), same_iff (y ∷ q) (x ∷ p)))

  pub open_reads : (w : World) → (os_open (x ∷ p) w).1 ≡ w
  unfolding os_open
  open_reads w = ground arith

  -- The steps of a move that succeeds.
  move_steps :
      (w w' : World)
      → move_file (x ∷ p) (y ∷ q) w ≡ (ok tt, w')
      → (w₁ : World) × (w₂ : World) × (content : String) × (write_text (y ∷ q) "" w ≡ (ok tt, w₁))
        × ((read_text (x ∷ p) w₁).0 ≡ ok content)
        × (write_text (y ∷ q) content w₁ ≡ (ok tt, w₂))
        × (os_remove (x ∷ p) w₂ ≡ (ok tt, w'))
  unfolding move_file
  move_steps w w' h =
      let w₁ : World = (write_text (y ∷ q) "" w).1 in
      elim (Result-cases (read_text (x ∷ p) w₁).0) [
        | inl (e, bad) ↦ absurd (ground (arith, open_reads w))
        | inr (content, good) ↦
            let w₂ : World = (write_text (y ∷ q) content w₁).1 in
            (
              w₁,
              w₂,
              content,
              ground (arith, open_reads w),
              good,
              ground (arith, open_reads w, read_text_reads (x ∷ p) w₁),
              ground (arith, open_reads w, read_text_reads (x ∷ p) w₁),
            )
      ]

  -- After a move between two different paths that succeeds, where the source was a text that may
  -- be read, the text stands at the destination, and nothing at the source.
  pub lookup-move_file :
      (text : String) (w w' : World)
      → lookup (x ∷ p) w.tree ≡ some (file text)
      → w.refuses (read_file (x ∷ p)) ≡ none
      → move_file (x ∷ p) (y ∷ q) w ≡ (ok tt, w')
      → (lookup (y ∷ q) w'.tree ≡ some (file text)) × (lookup (x ∷ p) w'.tree ≡ none)
  lookup-move_file text w w' there free h =
      let (w₁, w₂, content, emptied, copied, written, removed) = move_steps w w' h in
      let e₁ : w₁ ≡ record w { tree = insert (y ∷ q) (file "") w.tree } =
        write_text_ok (y ∷ q) "" w w₁ emptied in
      let e₂ : w₂ ≡ record w₁ { tree = insert (y ∷ q) (file content) w₁.tree } =
        write_text_ok (y ∷ q) content w₁ w₂ written in
      let kept : lookup (x ∷ p) w₁.tree ≡ some (file text) = rw (e₁, lookup-insert, apart') there in
      let read : read_text (x ∷ p) w₁ ≡ (ok text, w₁) =
        read_text_file x p text w₁ (ap (λ (v : World). v.refuses (read_file (x ∷ p))) e₁ ∙ free)
          kept in
      let same_content : content ≡ text = ground (arith, read) in
      (
        ap (λ (r : Result (Unit {0}) × World). lookup (y ∷ q) r.1.tree) (sym removed)
            ∙ (remove_other (x ∷ p) (y ∷ q) w₂ apart).0
            ∙ ap (λ (v : World). lookup (y ∷ q) v.tree) e₂
            ∙ lookup-insert_self (y ∷ q) (file content) w₁.tree
            ∙ ap (λ t. some (file t)) same_content,
        remove_ok (x ∷ p) w₂ w' removed,
      )
