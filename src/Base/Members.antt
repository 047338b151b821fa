-- ===== src/Base/Members.antt =====
-- Go's `slices.Contains`, association lists for Go's maps, and the test that a loop over a list makes.
use mathlib.Core.Path.{◌≡◌}
use mathlib.Core.Logic.{inl, inr, ∥∥₁_elim}
use mathlib.Core.HLevel.{⊥_prop}
use mathlib.Core.Bool.{Bool, true, false, ◌||◌}
use mathlib.Core.Option.{Option, none, some}
use mathlib.Core.List.{List, [], ◌∷◌, Mem, mem-cons, not-mem-nil}
use Prim.Native.String.{String}
use text.Mathlib.TextEquality.{eq_iff}
use native.Mathlib.Omega.{arith}
use baobab_iam.Base.Tests.{str_eq, if◌then◌else◌, Bool-cases}

-- `slices.Contains(xs, s)`
unfoldable pub contains : List String → String → Bool
contains [] s = false
contains (x ∷ xs) s = str_eq s x || contains xs s

-- A lookup in a Go map with texts for keys.
unfoldable pub find_key : {A : Type 0} → String → List (String × A) → Option A
find_key k [] = none
find_key k ((j, v) ∷ m) = let rest = find_key k m in if str_eq k j then some v else rest

pub Mem-of_contains : (xs : List String) (s : String) → contains xs s ≡ true → Mem s xs
unfolding contains
Mem-of_contains [] s h = cc
Mem-of_contains (x ∷ xs) s h = elim (Bool-cases (str_eq s x)) [
  | inl e ↦ mem-cons.1 ∣ inl ((eq_iff s x).0 e) ∣₁
  | inr e ↦ mem-cons.1 ∣ inr (Mem-of_contains xs s (ground (arith, e, h))) ∣₁
]

pub contains-of_Mem : (xs : List String) (s : String) → Mem s xs → contains xs s ≡ true
unfolding contains
contains-of_Mem [] s m = absurd (not-mem-nil m)
contains-of_Mem (x ∷ xs) s m = elim (Bool-cases (contains (x ∷ xs) s)) [
  | inl e ↦ e
  | inr e ↦ absurd (
      ∥∥₁_elim (mem-cons.0 m) ⊥_prop (λ o. elim o [
        | inl p ↦ let q = (eq_iff s x).1 p in ground (arith, q, e)
        | inr n ↦ let q = contains-of_Mem xs s n in ground (arith, q, e)
      ]))
]
