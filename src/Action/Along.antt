-- ===== src/Action/Along.antt =====
-- A relation that every step of an action respects, whether the action succeeds or fails: one rule
-- for each way to build an action. An invariant `P` is the relation `P s → P s'`.
use baobab_iam.Base.{Bool, true, false, if◌then◌else◌}
use baobab_iam.Result.{Result, ok, err}
use baobab_iam.Action.{Action, pure, raise, lift, gets, attempt, resume, ◌>>=◌}

pub record IsPreorder {S : Type 0} (R : S → S → Type 0) : Type 0 where
  pub same : (s : S) → R s s
  pub trans : (s t u : S) → R s t → R t u → R s u

pub record Along {E S A : Type 0} (R : S → S → Type 0) (m : Action E S A) : Type 0 where
  pub at : (s : S) → R s (m s).1

module _ {E S A : Type 0} {R : S → S → Type 0} (order : IsPreorder R) where
  pub Along-pure : (a : A) → Along {E = E} R (pure a)
  Along-pure a = record { at = order.same }

  pub Along-raise : (e : E) → Along {A = A} R (raise e)
  Along-raise e = record { at = order.same }

  pub Along-lift : (r : Result E A) → Along R (lift r)
  Along-lift r = record { at = order.same }

  pub Along-gets : (f : S → A) → Along {E = E} R (gets f)
  Along-gets f = record { at = order.same }

module _ {E S A : Type 0} {R : S → S → Type 0} where
  pub Along-attempt : (m : Action E S A) → Along R m → Along R (attempt m)
  Along-attempt m h = record { at = h.at }

  pub Along-if :
      (b : Bool) (m n : Action E S A) → Along R m → Along R n → Along R (if b then m else n)
  Along-if true m n hm hn = hm
  Along-if false m n hm hn = hn

module _ {E S A B : Type 0} {R : S → S → Type 0} (order : IsPreorder R) where
  Along-resume :
      (r : Result E A) (f : A → Action E S B) → ((a : A) → Along R (f a)) → Along R (resume r f)
  Along-resume (ok a) f h = record { at = λ s. (h a).at s }
  Along-resume (err e) f h = record { at = order.same }

  pub Along-bind :
      (m : Action E S A) (f : A → Action E S B)
      → Along R m
      → ((a : A) → Along R (f a))
      → Along R (m >>= f)
  Along-bind m f hm hf = record {
    at = λ s.
        order.trans s (m s).1 ((m >>= f) s).1 (hm.at s) ((Along-resume (m s).0 f hf).at (m s).1);
  }

pub ruleset along_rules =
    (Along-pure, Along-raise, Along-lift, Along-gets, Along-attempt, Along-if, Along-bind)
