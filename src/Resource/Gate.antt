-- ===== src/Resource/Gate.antt =====
-- pkg/workloadresource/gate.go: `current` and `Authorize`.
pub mod Laws
pub mod Bounds
use Prim.Native.String.{len}
use baobab_iam.Base.{
  ℕ, ◌-◌, ℤ, pos, negsuc, max_int64, String, Bool, true, false, not, ◌||◌, [], ◌∷◌, str_eq,
  is_empty, trim_space, contains, ltb, ◌==◌, if◌then◌else◌,
}
use baobab_iam.Result.{Result, ok, err, refuse_if}
use baobab_iam.Action.{Action, lift, gets, attempt, ◌>>=◌, ◌>>◌}
use baobab_iam.Resource.Sets.{same_members, contains_all}
use baobab_iam.Resource.Types.{GateError, denied, SignedClaims, LiveStatus, Operation, Gate}

-- `t.Sub(u)`, which stops at the greatest and the least duration.
unfoldable pub sub_time : ℕ → ℕ → ℤ
sub_time t u =
    if ltb t u
    then (if ltb max_int64 (u - t - 1) then negsuc max_int64 else negsuc (u - t - 1))
    else if ltb max_int64 (t - u)
    then pos max_int64
    else pos (t - u)

-- `a > b` on durations.
unfoldable pub longer : ℤ → ℤ → Bool
longer (pos a) (pos b) = ltb b a
longer (pos a) (negsuc b) = true
longer (negsuc a) (pos b) = false
longer (negsuc a) (negsuc b) = ltb a b

module _ {S : Type 0} (g : Gate S) where
  -- `current`: whether the live status, read at this state, is that of the signed claims.
  abbrev pub is_stale : SignedClaims → S → Result GateError LiveStatus → Bool
  is_stale signed s (err e) = true
  is_stale signed s (ok status) =
      g.cancelled s
      || not status.active
      || not (str_eq status.issuer signed.issuer)
      || not (str_eq status.subject signed.subject)
      || not (str_eq status.client_id signed.client_id)
      || not (same_members status.audience signed.audience)
      || not (same_members status.scopes signed.scopes)
      || not (status.expires_at == signed.expires_at)
      || not (ltb (g.now s) status.expires_at)

  unfoldable pub current : String → SignedClaims → Action GateError S (Unit {0})
  current raw signed = do
    status ← attempt (g.issuer raw)
    stale ← gets (λ s. is_stale signed s status)
    lift (refuse_if stale denied)

  -- The conditions on the call.
  abbrev pub call_refused : String → Operation → S → Bool
  call_refused bearer operation s =
      g.cancelled s
      || ltb (len bearer) 20
      || ltb 16384 (len bearer)
      || not (str_eq (trim_space bearer) bearer)
      || is_empty operation.context_id
      || is_empty operation.tenant_id
      || is_empty operation.resource_operation

  -- The conditions on the signed claims, at a time.
  unfoldable pub claims_refused : ℕ → SignedClaims → Bool
  unfolding sub_time longer
  claims_refused now signed =
      not (str_eq signed.issuer g.p.issuer)
      || is_empty signed.subject
      || is_empty signed.client_id
      || not (str_eq signed.actor_type "workload")
      || not (contains g.p.allowed_clients signed.client_id)
      || not (same_members signed.audience (g.p.audience ∷ []))
      || not (contains_all signed.scopes g.p.required_scopes)
      || signed.issued_at == 0
      || signed.expires_at == 0
      || ltb now signed.issued_at
      || ltb now signed.not_before
      || not (ltb now signed.expires_at)
      || longer (sub_time signed.expires_at signed.issued_at) g.p.max_token_age
      || not (longer (sub_time signed.expires_at signed.issued_at) (pos 0))

  -- `err != nil || ctx.Err() != nil || ...` after `VerifySigned`, and else the claims.
  abbrev pub signed_claims : Result GateError SignedClaims → S → Result GateError SignedClaims
  signed_claims (err e) s = err denied
  signed_claims (ok signed) s =
      if g.cancelled s || claims_refused (g.now s) signed then err denied else ok signed

  -- `err != nil || ctx.Err() != nil` after `AuthorizeCurrent`.
  abbrev pub veto : Result GateError (Unit {0}) → S → Result GateError (Unit {0})
  veto (err e) s = err denied
  veto (ok u) s = refuse_if (g.cancelled s) denied

  -- `Authorize`
  unfoldable pub authorize : String → Operation → Action GateError S (Unit {0})
  unfolding current claims_refused
  authorize bearer operation = do
    wrong ← gets (λ s. call_refused bearer operation s)
    lift (refuse_if wrong denied)
    answer ← attempt (g.verified bearer)
    checked ← gets (λ s. signed_claims answer s)
    signed ← lift checked
    current bearer signed
    decision ← attempt (g.authority bearer signed operation)
    allowed ← gets (λ s. veto decision s)
    lift allowed
    current bearer signed
