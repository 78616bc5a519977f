-- ===== src/Base/Act.antt =====
-- Go functions that change a state and may return an error. What was changed before an error was
-- returned stays changed, so the state comes back beside the error too.
use cf_redis_broker.Base.Results.{Error, Result, ok, err}

abbrev pub Act {ℓ} : Type ℓ → Type ℓ → Type ℓ
Act S A = S → Result A × S

module _ {ℓ} {S A : Type ℓ} where
  abbrev pub pure : A → Act S A
  pure a s = (ok a, s)

  abbrev pub raise : Error → Act S A
  raise e s = (err e, s)

  abbrev pub lift : Result A → Act S A
  lift r s = (r, s)

module _ {ℓ} {S A B : Type ℓ} where
  abbrev pub continue : Result A → (A → Act S B) → Act S B
  continue (ok a) f s = f a s
  continue (err e) f s = (err e, s)

  infixl 10 ◌>>=◌ ◌>>◌
  abbrev pub ◌>>=◌ : Act S A → (A → Act S B) → Act S B
  ◌>>=◌ m f s = continue (m s).0 f (m s).1

  abbrev pub ◌>>◌ : Act S A → Act S B → Act S B
  m >> n = m >>= λ _. n

  -- `v, err := m()`, with the error in the hands of the rest
  abbrev pub inspect : Act S A → (Result A → Act S B) → Act S B
  inspect m f s = f (m s).0 (m s).1

module _ {ℓ} {S A : Type ℓ} where
  -- `if err != nil { log; return err }`
  abbrev pub on_error : Act S A → (Error → S → S) → Act S A
  on_error m log = inspect m (elim [ ok a ↦ pure a | err e ↦ λ s. (err e, log e s) ])
