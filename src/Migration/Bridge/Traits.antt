-- ===== src/Migration/Bridge/Traits.antt =====
-- internal/migration/bridge.go: `validateHumanTraits`. The mail parser of Go's standard library is the
-- parameter `parse_address`: the bare address, or `none` for an error.
use Prim.Native.String.{len, count}
use baobab_iam.Base.{
  String, Bool, true, false, not, ◌&&◌, ◌||◌, Option, none, some, List, [], ◌∷◌, ltb, str_eq,
}
use baobab_iam.Result.{Result, ◌>>◌, refuse_if}
use baobab_iam.Migration.Errors.{Error, invalid_traits}
use baobab_iam.Provider.Specs.{Value, text, object, other, Object}
use baobab_iam.Provider.Validate.{value_at}

abbrev is_parsed : Option String → String → Bool
is_parsed none email = false
is_parsed (some address) email = str_eq address email

-- `email, ok := traits["email"].(string)` and the checks on it.
abbrev email_accepted : (String → Option String) → Option Value → Bool
email_accepted parse_address (some (text email)) =
    is_parsed (parse_address email) email && not (ltb (len email) 3) && not (ltb 320 (len email))
email_accepted parse_address _ = false

-- The loop over the keys of the traits.
unfoldable pub only_known_traits : Object → Bool
only_known_traits [] = true
only_known_traits ((k, v) ∷ o) = (str_eq k "email" || str_eq k "name") && only_known_traits o

abbrev name_field_accepted : String → Option String → Bool
name_field_accepted k none = false
name_field_accepted k (some v) = (str_eq k "first" || str_eq k "last") && not (ltb 128 (count v))

-- The loop over the fields of the name.
unfoldable pub only_name_fields : List (String × Option String) → Bool
only_name_fields [] = true
only_name_fields ((k, v) ∷ o) = name_field_accepted k v && only_name_fields o

abbrev name_accepted : Option Value → Bool
name_accepted none = true
name_accepted (some (object fields)) = only_name_fields fields
name_accepted (some (text s)) = false
name_accepted (some other) = false

-- `validateHumanTraits`
unfoldable pub validate_human_traits : (String → Option String) → Object → Result Error (Unit {0})
validate_human_traits parse_address traits = do
  refuse_if (not (email_accepted parse_address (value_at "email" traits))) invalid_traits
  refuse_if (not (only_known_traits traits)) invalid_traits
  refuse_if (not (name_accepted (value_at "name" traits))) invalid_traits
