-- ===== src/Token/Split.antt =====
-- Go's `strings.Split` undoes `strings.Join`.
use Prim.Native.Char.{Char, code}
use Prim.Native.String.{◌++◌}
use Prim.Native.String.append
use baobab_iam.Base.{
  String, true, false, List, [], ◌∷◌, ◌≡◌, refl, ap, ◌∙◌, ◌==◌, arith, has_code, join, split,
}
use baobab_iam.Result.{Every}

split-plain : (d : Char) (s : String) → has_code (code d) s ≡ false → split d s ≡ s ∷ []
unfolding split has_code
split-plain d String.[] h = refl
split-plain d (String.◌∷◌ c s) h =
    let ih = split-plain d s (ground arith) in
    let q : (code c == code d) ≡ false = ground arith in rw (q, ih) refl

split-append :
    (d : Char) (s t : String)
    → has_code (code d) s ≡ false
    → split d (s ++ String.◌∷◌ d t) ≡ s ∷ split d t
unfolding split has_code
split-append d String.[] t h =
    let q : (code d == code d) ≡ true = ground arith in rw append.nil (rw q refl)
split-append d (String.◌∷◌ c s) t h =
    let ih = split-append d s t (ground arith) in
    let q : (code c == code d) ≡ false = ground arith in rw append.cons (rw (q, ih) refl)

-- Splitting at a character what was joined with it gives the pieces back, if there are any and the
-- character stands in none of them.
pub split-join :
    (d : Char) (x : String) (xs : List String)
    → Every (λ s. has_code (code d) s ≡ false) (x ∷ xs)
    → split d (join d (x ∷ xs)) ≡ x ∷ xs
unfolding join
split-join d x [] h = split-plain d x h.0
split-join d x (y ∷ rest) h =
    split-append d x (join d (y ∷ rest)) h.0 ∙ ap (λ l. x ∷ l) (split-join d y rest h.1)
