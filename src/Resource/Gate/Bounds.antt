-- ===== src/Resource/Gate/Bounds.antt =====
-- pkg/workloadresource/gate.go: how old a token can be that a gate of `New` lets through.
use baobab_iam.Base.{
  ℕ, ℤ, pos, negsuc, String, Bool, false, Option, none, some, ◌≡◌, sym, ap, ◌∙◌, ◌<◌, ◌≤◌, ◌+◌,
  arith, ◌++◌,
}
use baobab_iam.Result.{ok, refuse_if, refuse_done, for_each, check_then}
use baobab_iam.Token.Canonical.{is_noncanonical}
use baobab_iam.Resource.Types.{
  denied, GateProfile, SignedClaims, Operation, SignedTokenVerifier, IssuerStatusReader,
  CurrentAuthority, Gate, Url,
}
use baobab_iam.Resource.New.{
  age_refused, issuer_refused, profile_refused, check_profile, new_gate, new, quarter_hour,
}
use baobab_iam.Resource.Gate.{sub_time, longer, authorize}
use baobab_iam.Resource.Gate.Laws.{authorize_lem}

-- A time that is not longer than a quarter of an hour after another.
short_age :
    (t u : ℕ) (age : ℤ)
    → age_refused age ≡ false
    → longer (sub_time t u) age ≡ false
    → t ≤ u + quarter_hour
unfolding sub_time longer
short_age t u (pos n) h k = ground arith
short_age t u (negsuc n) h k = cc

module _ {S : Type 0} (now : S → ℕ) (cancelled : S → Bool) (parse : String → Option Url) where
  -- A gate of `New` has the profile that was given and checked.
  new_profile :
      (p : GateProfile) (v : Option (SignedTokenVerifier S)) (i : Option (IssuerStatusReader S))
      (a : Option (CurrentAuthority S)) (g : Gate S)
      → new now cancelled parse p v i a ≡ ok g
      → (profile_refused false p ≡ false) × (g.p ≡ p)
  unfolding new new_gate check_profile
  new_profile p none i a g h = cc
  new_profile p (some v) none a g h = cc
  new_profile p (some v) (some i) none g h = cc
  new_profile p (some v) (some i) (some a) g h =
      let (c, d) = check_then (check_profile parse false p) _ g h in
      let (_, e) = check_then (refuse_if (issuer_refused (parse p.issuer)) denied) _ tt c in
      let (f, _) =
        check_then (refuse_if (profile_refused false p) denied)
          (for_each (p.required_scopes ++ p.allowed_clients)
            (λ v. refuse_if (is_noncanonical v) denied))
          tt e in
      (refuse_done (profile_refused false p) denied f, cc)

  -- A gate that `New` has made lets an operation through only on a token that was issued by the time
  -- it was verified, and only at a time before the token's end and less than 15 minutes after its
  -- issue.
  pub authorize_bounds :
      (p : GateProfile) (v : Option (SignedTokenVerifier S)) (i : Option (IssuerStatusReader S))
      (a : Option (CurrentAuthority S)) (g : Gate S) (bearer : String) (operation : Operation)
      (s t : S)
      → new now cancelled parse p v i a ≡ ok g
      → authorize g bearer operation s ≡ (ok tt, t)
      → (signed : SignedClaims) × ((g.verified bearer s).0 ≡ ok signed)
        × (signed.issued_at ≤ g.now (g.verified bearer s).1)
        × (g.now t < signed.expires_at)
        × (g.now t < signed.issued_at + quarter_hour)
  authorize_bounds p v i a g bearer operation s t made h =
      let (kept, same) = new_profile p v i a g made in
      let (signed, allowed) = authorize_lem g bearer operation s t h in
      let over = rw (sym allowed.ends) at allowed.after.not_over in
      let short =
        short_age signed.expires_at signed.issued_at p.max_token_age (ground (arith, kept)) (
          ap
            (λ (q : GateProfile).
              longer (sub_time signed.expires_at signed.issued_at) q.max_token_age)
            (sym same)
          ∙ allowed.accepted.age) in
      (signed, allowed.verified, allowed.accepted.issued.0, over, omega (arith, short, over))
