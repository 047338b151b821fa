-- ===== src/Token/Canonical.antt =====
-- internal/tokenprofile: the grammars of the names, scopes and audiences.
use Prim.Native.Char.{char}
use Prim.Native.String.{len, count}
use baobab_iam.Base.{
  ℕ, String, Bool, true, false, not, ◌&&◌, ◌||◌, List, [], ◌∷◌, ltb, leb, ◌==◌, str_eq, is_empty,
  trim_space, contains, contains_any, all_codes, split, length, if◌then◌else◌,
}
use baobab_iam.Result.{Result, ok, ◌>>◌, refuse_if}
use baobab_iam.Token.Errors.{TokenError}

abbrev pub Check : Type 0
Check = Result TokenError (Unit {0})

-- `[a-z]`
abbrev pub is_lower : ℕ → Bool
is_lower c = leb 97 c && leb c 122

abbrev is_digit : ℕ → Bool
is_digit c = leb 48 c && leb c 57

-- `[a-z0-9-]`
unfoldable pub is_key_code : ℕ → Bool
is_key_code c = is_lower c || is_digit c || c == 45

-- `[a-f0-9]`
unfoldable pub is_hex_code : ℕ → Bool
is_hex_code c = (leb 97 c && leb c 102) || is_digit c

-- `^[a-f0-9]{40}$`
unfoldable pub is_commit : String → Bool
unfolding is_hex_code
is_commit s = count s == 40 && all_codes is_hex_code s

-- `workloadKey`: `^[a-z][a-z0-9-]*$`
unfoldable pub is_workload_key : String → Bool
unfolding is_key_code
is_workload_key String.[] = false
is_workload_key (String.◌∷◌ c s) = is_lower (Prim.Native.Char.code c) && all_codes is_key_code s

-- `workloadClientID`: `^[a-z][a-z0-9-]{2,62}$`
unfoldable pub is_workload_client_id : String → Bool
unfolding is_workload_key
is_workload_client_id s = is_workload_key s && leb 3 (count s) && leb (count s) 63

abbrev all_keys : List String → Bool
all_keys [] = true
all_keys (s ∷ rest) = is_workload_key s && all_keys rest

-- `scopeKey`: `^[a-z][a-z0-9-]*(?::[a-z][a-z0-9-]*)+$`, two or more keys with colons between.
unfoldable pub is_scope_key : String → Bool
unfolding is_workload_key
is_scope_key s = leb 2 (length (split (char 58 tt) s)) && all_keys (split (char 58 tt) s)

-- A character that `singleIssuanceToken` lets pass.
unfoldable pub is_token_code : ℕ → Bool
is_token_code c = not (leb c 32 || leb 127 c || c == 42 || c == 34 || c == 92)

-- `singleIssuanceToken`
unfoldable pub single_issuance_token : String → Bool
unfolding is_token_code
single_issuance_token value =
    if len value == 0 || ltb 256 (len value) then false else all_codes is_token_code value

-- `value == "" || strings.TrimSpace(value) != value || strings.ContainsAny(value, " \t\r\n*")`
unfoldable pub is_noncanonical : String → Bool
is_noncanonical value =
    is_empty value || not (str_eq (trim_space value) value) || contains_any value " \t\r\n*"

-- The loop over values that must be canonical and differ, with those that it has passed.
unfoldable pub each_canonical : TokenError → List String → List String → Check
unfolding is_noncanonical
each_canonical e seen [] = ok tt
each_canonical e seen (value ∷ rest) = do
  refuse_if (is_noncanonical value || contains seen value) e
  each_canonical e (value ∷ seen) rest
