-- ===== src/Action.antt =====
-- Go's calls that change a store and may fail. What was written before an error stays written, so
-- the state comes back beside the error too.
pub mod Along
pub mod Done
use baobab_iam.Base.{Bool, Option, none, some}
use baobab_iam.Result.{Result, ok, err}

abbrev pub Action : Type 0 → Type 0 → Type 0 → Type 0
Action E S A = S → Result E A × S

module _ {E S A : Type 0} where
  abbrev pub pure : A → Action E S A
  pure a s = (ok a, s)

  abbrev pub raise : E → Action E S A
  raise e s = (err e, s)

  -- A call that reads and writes nothing.
  abbrev pub lift : Result E A → Action E S A
  lift r s = (r, s)

  abbrev pub gets : (S → A) → Action E S A
  gets f s = (ok (f s), s)

  -- The result of a call as a value, for code that looks at the error and goes on.
  abbrev pub attempt : Action E S A → Action E S (Result E A)
  attempt m s = (ok (m s).0, (m s).1)

module _ {E S A B : Type 0} where
  -- What follows a call, by how the call ended.
  abbrev pub resume : Result E A → (A → Action E S B) → Action E S B
  resume (ok a) f s = f a s
  resume (err e) f s = (err e, s)

  infixl 10 ◌>>=◌ ◌>>◌
  abbrev pub ◌>>=◌ : Action E S A → (A → Action E S B) → Action E S B
  ◌>>=◌ m f s = resume (m s).0 f (m s).1

  abbrev pub ◌>>◌ : Action E S A → Action E S B → Action E S B
  m >> k = m >>= λ _. k
