-- ===== src/Resource/New.antt =====
-- pkg/workloadresource/gate.go: `New`, which refuses a profile that is broad or ambiguous. What
-- `url.Parse` returns is a parameter.
use baobab_iam.Base.{
  ℕ, ℤ, pos, negsuc, String, Bool, true, false, not, ◌&&◌, ◌||◌, ◌++◌, Option, none, some, str_eq,
  is_empty, trim_space, has_prefix, ltb, ◌==◌,
}
use baobab_iam.Result.{Result, ok, err, ◌>>◌, refuse_if, for_each}
use baobab_iam.Provider.Validate.{is_nil}
use baobab_iam.Token.Canonical.{is_noncanonical}
use baobab_iam.Resource.Sets.{distinct}
use baobab_iam.Resource.Types.{
  GateError, denied, GateProfile, SignedTokenVerifier, IssuerStatusReader, CurrentAuthority, Gate,
  Url,
}

-- `15 * time.Minute`
abbrev pub quarter_hour : ℕ
quarter_hour = 900000000000

-- `age <= 0 || age > 15*time.Minute`
abbrev pub age_refused : ℤ → Bool
age_refused (pos n) = n == 0 || ltb quarter_hour n
age_refused (negsuc n) = true

-- `parseErr != nil || parsed.Hostname() == "" || ...`
abbrev pub issuer_refused : Option Url → Bool
issuer_refused none = true
issuer_refused (some u) =
    is_empty u.hostname || u.has_user || not (is_empty u.raw_query) || not (is_empty u.fragment)

abbrev pub profile_refused : Bool → GateProfile → Bool
profile_refused loopback p =
    (not (has_prefix p.issuer "https://")
      && not (loopback && str_eq p.issuer "http://127.0.0.1:4444"))
    || is_empty p.audience
    || is_nil p.required_scopes
    || is_nil p.allowed_clients
    || age_refused p.max_token_age
    || not (distinct p.required_scopes)
    || not (distinct p.allowed_clients)
    || not (str_eq (trim_space p.audience) p.audience)

-- The profile's checks of `newGate`; the ports that it is given are told to be there by the caller.
unfoldable pub check_profile :
    (String → Option Url) → Bool → GateProfile → Result GateError (Unit {0})
check_profile parse loopback p = do
  refuse_if (issuer_refused (parse p.issuer)) denied
  refuse_if (profile_refused loopback p) denied
  for_each (p.required_scopes ++ p.allowed_clients) (λ v. refuse_if (is_noncanonical v) denied)

module _ {S : Type 0} (now : S → ℕ) (cancelled : S → Bool) (parse : String → Option Url) where
  -- `newGate`; a port that is absent is `none`.
  unfoldable pub new_gate :
      GateProfile
      → Option (SignedTokenVerifier S)
      → Option (IssuerStatusReader S)
      → Option (CurrentAuthority S)
      → Bool
      → Result GateError (Gate S)
  unfolding check_profile
  new_gate p (some verified) (some issuer) (some authority) loopback =
      check_profile parse loopback p
      >> ok record {
        p = p;
        verified = verified;
        issuer = issuer;
        authority = authority;
        now = now;
        cancelled = cancelled;
      }
  new_gate p (some verified) (some issuer) none loopback = err denied
  new_gate p (some verified) none authority loopback = err denied
  new_gate p none issuer authority loopback = err denied

  -- `New`
  unfoldable pub new :
      GateProfile
      → Option (SignedTokenVerifier S)
      → Option (IssuerStatusReader S)
      → Option (CurrentAuthority S)
      → Result GateError (Gate S)
  unfolding new_gate
  new p verified issuer authority = new_gate p verified issuer authority false
