-- ===== src/Federation/Grammar.antt =====
-- internal/federation/validate.go: the patterns of identifiers, as tests.
use Prim.Native.Char.{char, code}
use Prim.Native.String.{len, count}
use baobab_iam.Base.{
  ℕ, String, Bool, true, false, not, ◌&&◌, ◌||◌, List, [], ◌∷◌, Option, none, some, leb, ◌==◌,
  str_eq, is_empty, trim_space, all_codes, split,
}
use baobab_iam.Federation.Types.{ProviderTrustBinding}
use baobab_iam.Federation.Ports.{Scope}

-- `[a-z0-9]`
unfoldable pub is_small : ℕ → Bool
is_small c = (leb 97 c && leb c 122) || (leb 48 c && leb c 57)

-- `[A-Za-z0-9]`
unfoldable pub is_alnum : ℕ → Bool
unfolding is_small
is_alnum c = is_small c || (leb 65 c && leb c 90)

-- `[A-Za-z0-9._:-]`
unfoldable pub is_entity_code : ℕ → Bool
unfolding is_alnum
is_entity_code c = is_alnum c || c == 46 || c == 95 || c == 58 || c == 45

-- `[a-fA-F0-9]`
unfoldable pub is_hex : ℕ → Bool
is_hex c = (leb 97 c && leb c 102) || (leb 65 c && leb c 70) || (leb 48 c && leb c 57)

-- `[a-f0-9]`
unfoldable pub is_small_hex : ℕ → Bool
is_small_hex c = (leb 97 c && leb c 102) || (leb 48 c && leb c 57)

-- Pieces of hexadecimal digits of the given lengths.
unfoldable pub hex_pieces : List ℕ → List String → Bool
unfolding is_hex
hex_pieces [] [] = true
hex_pieces [] (s ∷ rest) = false
hex_pieces (n ∷ ns) [] = false
hex_pieces (n ∷ ns) (s ∷ rest) = count s == n && all_codes is_hex s && hex_pieces ns rest

-- `uuidPattern`
unfoldable pub is_uuid : String → Bool
unfolding hex_pieces
is_uuid s = hex_pieces (8 ∷ 4 ∷ 4 ∷ 4 ∷ 12 ∷ []) (split (char 45 tt) s)

-- What follows a prefix, if a text has it.
unfoldable pub after_prefix : String → String → Option String
after_prefix String.[] s = some s
after_prefix (String.◌∷◌ d p) String.[] = none
after_prefix (String.◌∷◌ d p) (String.◌∷◌ c s) =
    let rest = after_prefix p s in elim (code c == code d) [ true ↦ rest | false ↦ none ]

-- One or more characters of a class.
abbrev pub some_codes : (ℕ → Bool) → Option String → Bool
some_codes f none = false
some_codes f (some s) = not (is_empty s) && all_codes f s

-- `validRef`, with `refPattern`
unfoldable pub valid_ref : String → Bool
unfolding after_prefix is_small
valid_ref s = leb 8 (len s) && leb (len s) 63 && some_codes is_small (after_prefix "ref_" s)

-- `exact`
unfoldable pub exact : String → Bool
exact s = not (is_empty s) && leb (len s) 512 && str_eq (trim_space s) s

-- The provider and the instance, with `providerPattern` and `instancePattern`.
unfoldable pub valid_provider : String → Bool
unfolding after_prefix is_small
valid_provider s =
    leb 10 (len s) && leb (len s) 63 && some_codes is_small (after_prefix "provider_" s)

unfoldable pub valid_instance : String → Bool
unfolding after_prefix is_small
valid_instance s = leb 6 (len s) && leb (len s) 63 && some_codes is_small (after_prefix "ei_" s)

-- `validBinding`
unfoldable pub valid_binding : ProviderTrustBinding → Bool
unfolding valid_provider valid_instance valid_ref
valid_binding b =
    valid_provider b.provider_id
    && valid_instance b.engine_instance_id
    && valid_ref b.configuration_reference
    && valid_ref b.trust_material_reference

-- `entityPattern`
unfoldable pub is_entity : String → Bool
unfolding is_alnum is_entity_code
is_entity String.[] = false
is_entity (String.◌∷◌ c s) = is_alnum (code c) && all_codes is_entity_code s

abbrev small_pieces : List String → Bool
small_pieces [] = true
small_pieces (s ∷ rest) = some_codes is_small (some s) && small_pieces rest

abbrev begins_small : String → Bool
begins_small String.[] = false
begins_small (String.◌∷◌ c s) = leb 97 (code c) && leb (code c) 122

-- `estatePattern`: pieces of small letters and digits with `_` between, beginning with a letter.
unfoldable pub is_estate : String → Bool
unfolding is_small
is_estate s = begins_small s && small_pieces (split (char 95 tt) s)

-- `digestPattern`
unfoldable pub is_digest : String → Bool
unfolding after_prefix is_small_hex
is_digest s = count s == 71 && some_codes is_small_hex (after_prefix "sha256:" s)

-- `validScope`
unfoldable pub valid_scope : Scope → Bool
unfolding is_entity is_estate
valid_scope s =
    not (is_empty s.organisation_id)
    && leb (len s.organisation_id) 128
    && is_entity s.organisation_id
    && leb 3 (len s.estate_id)
    && leb (len s.estate_id) 63
    && is_estate s.estate_id
