-- ===== src/Base/Words.antt =====
-- More of Go's `strings` package: prefixes, characters of a text, joining and splitting.
use Prim.Native.Nat.{ℕ}
use Prim.Native.Char.{Char, code}
use Prim.Native.String.{String, ◌++◌}
use mathlib.Core.Bool.{Bool, true, false, ◌&&◌, ◌||◌}
use mathlib.Core.List.{List, [], ◌∷◌}
use baobab_iam.Base.Tests.{◌==◌, if◌then◌else◌}

-- `strings.HasPrefix(s, prefix)`
unfoldable pub has_prefix : String → String → Bool
has_prefix s String.[] = true
has_prefix String.[] (String.◌∷◌ d p) = false
has_prefix (String.◌∷◌ c s) (String.◌∷◌ d p) = code c == code d && has_prefix s p

-- A character stands in a text.
unfoldable pub has_code : ℕ → String → Bool
has_code n String.[] = false
has_code n (String.◌∷◌ c s) = n == code c || has_code n s

-- `strings.ContainsAny(s, chars)`
unfoldable pub contains_any : String → String → Bool
unfolding has_code
contains_any String.[] chars = false
contains_any (String.◌∷◌ c s) chars = has_code (code c) chars || contains_any s chars

-- `strings.Join(xs, sep)` for a separator of one character.
unfoldable pub join : Char → List String → String
join d [] = String.[]
join d (x ∷ []) = x
join d (x ∷ (y ∷ rest)) = x ++ String.◌∷◌ d (join d (y ∷ rest))

-- Puts a character in front of the first piece.
abbrev pub onto_first : Char → List String → List String
onto_first c [] = String.◌∷◌ c String.[] ∷ []
onto_first c (x ∷ xs) = String.◌∷◌ c x ∷ xs

-- `strings.Split(s, sep)` for a separator of one character.
unfoldable pub split : Char → String → List String
split d String.[] = String.[] ∷ []
split d (String.◌∷◌ c s) =
    let rest = split d s in if code c == code d then String.[] ∷ rest else onto_first c rest

-- Every character of a text passes a test.
unfoldable pub all_codes : (ℕ → Bool) → String → Bool
all_codes f String.[] = true
all_codes f (String.◌∷◌ c s) = f (code c) && all_codes f s
