-- ===== src/Action/Done.antt =====
-- What the first step of an action returned, when the whole action has succeeded.
use baobab_iam.Base.{◌≡◌, refl}
use baobab_iam.Result.{Result, ok, err}
use baobab_iam.Action.{Action, resume, ◌>>=◌}

module _ {E S A B : Type 0} where
  resume-ok :
      (p : Result E A × S) (f : A → Action E S B) (b : B) (s : S)
      → resume p.0 f p.1 ≡ (ok b, s)
      → (a : A) × (p.0 ≡ ok a) × (f a p.1 ≡ (ok b, s))
  resume-ok (ok a, t) f b s h = (a, refl, h)
  resume-ok (err e, t) f b s h = cc

  pub bind-ok :
      (m : Action E S A) (f : A → Action E S B) (b : B) (s t : S)
      → (m >>= f) s ≡ (ok b, t)
      → (a : A) × ((m s).0 ≡ ok a) × (f a (m s).1 ≡ (ok b, t))
  bind-ok m f b s t h = resume-ok (m s) f b t h
