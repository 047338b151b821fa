-- ===== src/Token/Profile/Laws.antt =====
-- internal/tokenprofile/profile.go: what holds of every token for which `Claims` returns claims.
use mathlib.Core.List
use mathlib.Core.List.{Nodup, Perm, Subset}
use baobab_iam.Base.{
  String, Bool, true, false, not, ◌&&◌, ◌||◌, List, [], ◌∷◌, ◌≡◌, refl, ap, ◌∙◌, ◌⊎◌, inl, inr,
  str_eq, contains, has_code, split, join, all_codes, arith, eq_iff, Bool-cases,
}
use baobab_iam.Result.{
  ok, Result-cases, refuse_if, for_each, for_each-Every, Every, Every-map, then_done, refuse_done,
}
use baobab_iam.Provider.Validate.{is_nil}
use baobab_iam.Token.Errors.{
  reserved_scope, reserved_requester, noncanonical_token, issuance_denied, scope_mismatch,
  audience_mismatch, not_for_trade_alone,
}
use baobab_iam.Token.Types.{Config, Evidence, WorkloadClaims}
use baobab_iam.Token.Canonical.{single_issuance_token, is_token_code}
use baobab_iam.Token.Sets.{same_set}
use baobab_iam.Token.Sets.Laws.{subset_iff, same_set_iff}
use baobab_iam.Token.Split.{split-join}
use baobab_iam.Token.Hold.{
  tms_proposal_hold, tms_grant_hold, single, open_scope, open_audience, reserved_tms_scope,
  reserved_tms_audience, reserved_tms_client,
}
use baobab_iam.Token.Native.{
  native_commitment_token_scoped, native_commitment_submit_scope, native_commitment_audience,
  is_only,
}
use baobab_iam.Token.Profile.{
  workload_of, is_registered, check_evidence, check_credential, claims, space, is_out_of_service,
  is_abroad, scopes_refused, audiences_refused,
}

-- A scope that may be granted: one token, not one of TMS.
pub record IsOpenScope (s : String) : Type 0 where
  pub single_token : single_issuance_token s ≡ true
  pub not_tms : reserved_tms_scope s ≡ false

pub record IsOpenAudience (s : String) : Type 0 where
  pub single_token : single_issuance_token s ≡ true
  pub not_tms : reserved_tms_audience s ≡ false

single_done : (s : String) → single s ≡ ok tt → single_issuance_token s ≡ true
single_done s h =
    let q = refuse_done (not (single_issuance_token s)) noncanonical_token h in ground (arith, q)

open_scope-IsOpenScope : (s : String) → open_scope s ≡ ok tt → IsOpenScope s
open_scope-IsOpenScope s h =
    let (a, b) = then_done (single s) (refuse_if (reserved_tms_scope s) reserved_scope) h in
    record {
      single_token = single_done s a;
      not_tms = refuse_done (reserved_tms_scope s) reserved_scope b;
    }

open_audience-IsOpenAudience : (s : String) → open_audience s ≡ ok tt → IsOpenAudience s
open_audience-IsOpenAudience s h =
    let (a, b) = then_done (single s) _ h in
    record { single_token = single_done s a; not_tms = refuse_done (reserved_tms_audience s) _ b }

-- What `tmsGrantHold` leaves.
pub record IsOpenGrant (e : Evidence) : Type 0 where
  pub client : reserved_tms_client e.client_id ≡ false
  pub audiences : Every IsOpenAudience e.granted_audiences
  pub requested : Every IsOpenScope e.requested_scopes
  pub granted : Every IsOpenScope e.granted_scopes

pub tms_grant_hold-IsOpenGrant : (e : Evidence) → tms_grant_hold e ≡ ok tt → IsOpenGrant e
unfolding tms_grant_hold
tms_grant_hold-IsOpenGrant e h =
    let (c, a) = then_done (refuse_if (reserved_tms_client e.client_id) reserved_requester) _ h in
    let (d, b) = then_done (for_each e.granted_audiences open_audience) _ a in
    let (r, g) = then_done (for_each e.requested_scopes open_scope) _ b in
    let scopes = λ (xs : List String) (q : for_each xs open_scope ≡ ok tt).
      Every-map xs open_scope-IsOpenScope (for_each-Every xs open_scope q) in
    record {
      client = refuse_done _ reserved_requester c;
      audiences =
          Every-map e.granted_audiences open_audience-IsOpenAudience
            (for_each-Every e.granted_audiences open_audience d);
      requested = scopes e.requested_scopes r;
      granted = scopes e.granted_scopes g;
    }

-- The registration behind a token, its grant and its scope claim.
pub record IsIssued (c : Config) (e : Evidence) (r : WorkloadClaims) : Type 0 where
  pub registered : is_registered c e.client_id ≡ true
  pub in_service :
      ((workload_of c e.client_id).status ≡ "ACTIVE")
      ⊎ ((workload_of c e.client_id).status ≡ "PROVISIONED")
  pub at_home : (workload_of c e.client_id).environment ≡ c.environment
  pub open_grant : IsOpenGrant e
  pub scopes_distinct : Nodup e.granted_scopes
  pub scopes_as_asked : Perm e.granted_scopes e.requested_scopes
  pub scopes_within : Subset e.granted_scopes (workload_of c e.client_id).scopes
  pub audiences_distinct : Nodup e.granted_audiences
  pub audiences_within : Subset e.granted_audiences (workload_of c e.client_id).audiences
  pub names_client : r.azp ≡ e.client_id
  pub some_scope : is_nil e.granted_scopes ≡ false
  pub some_audience : is_nil e.granted_audiences ≡ false
  pub names_scopes : r.scope ≡ join space e.granted_scopes
  pub for_trade_alone :
      contains e.granted_scopes native_commitment_submit_scope ≡ true
      → e.granted_audiences ≡ native_commitment_audience ∷ []

same_set-is_nil : (a b : List String) → same_set a b ≡ true → is_nil b ≡ false → is_nil a ≡ false
unfolding same_set
same_set-is_nil (x ∷ a) b h q = refl
same_set-is_nil [] (y ∷ b) h q = ground arith
same_set-is_nil [] [] h q = cc

is_only-≡ : (s : String) (xs : List String) → is_only s xs ≡ true → xs ≡ s ∷ []
is_only-≡ s [] h = cc
is_only-≡ s (x ∷ []) h = ap (λ (y : String). y ∷ []) ((eq_iff x s).0 h)
is_only-≡ s (x ∷ (y ∷ rest)) h = cc

native_commitment_token_scoped_lem :
    (e : Evidence)
    → native_commitment_token_scoped e ≡ true
    → contains e.granted_scopes native_commitment_submit_scope ≡ true
    → e.granted_audiences ≡ native_commitment_audience ∷ []
unfolding native_commitment_token_scoped
native_commitment_token_scoped_lem e h q =
    is_only-≡ native_commitment_audience e.granted_audiences (rw q at h)

status_lem :
    (registered : Bool) (s : String)
    → (not registered || (not (str_eq s "ACTIVE") && not (str_eq s "PROVISIONED"))) ≡ false
    → (registered ≡ true) × ((s ≡ "ACTIVE") ⊎ (s ≡ "PROVISIONED"))
status_lem registered s h = (
  ground arith,
  elim (Bool-cases (str_eq s "ACTIVE")) [
    | inl e ↦ inl ((eq_iff s "ACTIVE").0 e)
    | inr e ↦ inr ((eq_iff s "PROVISIONED").0 (ground (arith, e, h)))
  ],
)

-- A token for which `Claims` returns claims is for a registered workload that is ACTIVE or
-- PROVISIONED in the issuer's own environment. Its scopes are those asked for, each once, and within
-- the registration, as its audiences are; no client, scope or audience of TMS is among them; and the
-- claim names the client. A token with the scope to submit native commitments is for Trade alone.
pub claims_lem :
    (c : Config) (e : Evidence) (r : WorkloadClaims) → claims c e ≡ ok r → IsIssued c e r
unfolding claims check_evidence
claims_lem c e r h =
    let p = workload_of c e.client_id in
    elim (Result-cases (check_evidence c e)) [
      | inr (x, q) ↦ absurd (let z = rw q at h in cc)
      | inl (u, q) ↦
          let (_, a) = then_done (tms_proposal_hold e.client_id p) _ q in
          let (grant, b) = then_done (tms_grant_hold e) _ a in
          let (status, d) = then_done (refuse_if (is_out_of_service c e) issuance_denied) _ b in
          let (home, f) = then_done (refuse_if (is_abroad c p) issuance_denied) _ d in
          let (_, g) = then_done (check_credential c p e) _ f in
          let (scopes, i) = then_done (refuse_if (scopes_refused p e) scope_mismatch) _ g in
          let (audiences, trade) =
            then_done (refuse_if (audiences_refused p e) audience_mismatch)
              (refuse_if (not (native_commitment_token_scoped e)) not_for_trade_alone) i in
          let (registered, service) =
            status_lem (is_registered c e.client_id) p.status
              (refuse_done (is_out_of_service c e) issuance_denied status) in
          let at_home = refuse_done (is_abroad c p) issuance_denied home in
          let s = refuse_done (scopes_refused p e) scope_mismatch scopes in
          let t = refuse_done (audiences_refused p e) audience_mismatch audiences in
          let (sd, sw) = (subset_iff e.requested_scopes p.scopes).0 (ground (arith, s)) in
          let (gd, gp) = (same_set_iff e.granted_scopes e.requested_scopes).0 (ground (arith, s)) in
          let (ad, aw) = (subset_iff e.granted_audiences p.audiences).0 (ground (arith, t)) in
          record {
            registered = registered;
            in_service = service;
            at_home = (eq_iff p.environment c.environment).0 (ground (arith, at_home));
            open_grant = tms_grant_hold-IsOpenGrant e grant;
            scopes_distinct = gd;
            scopes_as_asked = gp;
            scopes_within = λ v m. sw v (List.Perm.subset gp v m);
            audiences_distinct = ad;
            audiences_within = aw;
            names_client = cc;
            some_scope =
                same_set-is_nil e.granted_scopes e.requested_scopes (ground (arith, s))
                  (ground (arith, s));
            some_audience = ground (arith, t);
            names_scopes = cc;
            for_trade_alone = native_commitment_token_scoped_lem e (
                let z =
                  refuse_done (not (native_commitment_token_scoped e)) not_for_trade_alone trade in
                ground (arith, z));
          }
    ]

all_codes-plain : (s : String) → all_codes is_token_code s ≡ true → has_code 32 s ≡ false
unfolding all_codes has_code is_token_code
all_codes-plain String.[] h = refl
all_codes-plain (String.◌∷◌ c s) h = let ih = all_codes-plain s (ground arith) in ground (arith, ih)

single_issuance_token-plain : (s : String) → single_issuance_token s ≡ true → has_code 32 s ≡ false
unfolding single_issuance_token
single_issuance_token-plain s h = all_codes-plain s (ground arith)

pub split-join-space :
    (xs : List String) → is_nil xs ≡ false → Every IsOpenScope xs → split space (join space xs) ≡ xs
split-join-space [] h q = cc
split-join-space (x ∷ xs) h q =
    split-join space x xs
      (Every-map (x ∷ xs) (λ s o. single_issuance_token-plain s o.single_token) q)

-- The scope claim of a token that is issued, split at its spaces, is the list of the scopes granted:
-- no scope hides another behind a space.
pub claims-split :
    (c : Config) (e : Evidence) (r : WorkloadClaims)
    → claims c e ≡ ok r
    → split space r.scope ≡ e.granted_scopes
claims-split c e r h =
    let i = claims_lem c e r h in
    ap (split space) i.names_scopes
    ∙ split-join-space e.granted_scopes i.some_scope i.open_grant.granted
