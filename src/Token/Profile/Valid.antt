-- ===== src/Token/Profile/Valid.antt =====
-- internal/tokenprofile/profile.go: what a configuration that `Validate` accepts keeps apart.
use mathlib.Core.List.{Nodup, Nodup-nil, Nodup-cons}
use baobab_iam.Base.{
  String, true, false, not, ◌&&◌, ◌||◌, List, [], ◌∷◌, Option, none, some, ◌≡◌, refl, arith, eq_iff,
  eq_refl, str_eq, is_empty, trim_space, contains, contains-of_Mem,
}
use baobab_iam.Result.{
  ok, refuse_if, for_each, for_each-Every, Every, Every-map, then_done, refuse_done,
}
use baobab_iam.Provider.Validate.{is_nil}
use baobab_iam.Token.Errors.{
  TokenError, exact_projection_required, unknown_environment, invalid_workload_profile,
  unsupported_credential, unknown_lifecycle, noncanonical_value, foreign_environment,
  human_commitment_scope, not_a_client_id, two_provenances, no_trade_audience, invalid_binding,
}
use baobab_iam.Token.Types.{Workload, Binding, Config}
use baobab_iam.Token.Canonical.{is_noncanonical, each_canonical, is_workload_client_id, is_commit}
use baobab_iam.Token.Hold.{tms_proposal_hold}
use baobab_iam.Token.Native.{
  buyer_handoff_scope, native_commitment_submit_scope, native_commitment_audience, is_some,
  profile_has_scope, validate_native_commitment_submitter,
}
use baobab_iam.Token.Profile.{
  environments, lifecycles, validate_human_part, validate_workload, validate_bindings,
  validate_config, binding_seen, is_registered, workload_of, is_bad_binding,
}

-- Canonical values, each once.
pub record IsCanonical (values : List String) : Type 0 where
  pub distinct : Nodup values
  pub canonical : Every (λ v. is_noncanonical v ≡ false) values

each_canonical-fresh :
    (e : TokenError) (seen values : List String)
    → each_canonical e seen values ≡ ok tt
    → IsCanonical values × ((v : String) → contains values v ≡ true → contains seen v ≡ false)
unfolding each_canonical contains
each_canonical-fresh e seen [] h = (record { distinct = Nodup-nil; canonical = tt }, λ v p. cc)
each_canonical-fresh e seen (x ∷ rest) h =
    let (a, b) = then_done (refuse_if (is_noncanonical x || contains seen x) e) _ h in
    let q = refuse_done (is_noncanonical x || contains seen x) e a in
    let (later, fresh) = each_canonical-fresh e (x ∷ seen) rest b in
    (
      record {
        distinct = Nodup-cons.1 (
          λ m.
              let z = fresh x (contains-of_Mem rest x m) in
              let w = eq_refl x in ground (arith, z, w),
          later.distinct,
        );
        canonical = (ground (arith, q), later.canonical);
      },
      λ v p. let z = fresh v in ground (arith, z, q, eq_iff v x),
    )

-- A workload that may submit native commitments is a workload only, and Trade is in its audiences.
pub record IsSubmitter (id : String) (p : Workload) : Type 0 where
  pub canonical_id : is_workload_client_id id ≡ true
  pub no_human_profile : p.human_token_profile ≡ none
  pub no_handoff : contains p.scopes buyer_handoff_scope ≡ false
  pub for_trade : contains p.audiences native_commitment_audience ≡ true

is_some-none : {A : Type 0} (o : Option A) → is_some o ≡ false → o ≡ none
is_some-none none h = refl
is_some-none (some a) h = cc

commitment-IsSubmitter :
    (id : String) (p : Workload)
    → validate_native_commitment_submitter id p ≡ ok tt
    → contains p.scopes native_commitment_submit_scope ≡ true
    → IsSubmitter id p
unfolding validate_native_commitment_submitter
commitment-IsSubmitter id p h q =
    let (_, a) =
      then_done
        (refuse_if (profile_has_scope p.human_token_profile native_commitment_submit_scope)
          (human_commitment_scope id))
        _ h in
    let b = rw q at a in
    let (c, d) = then_done (refuse_if (not (is_workload_client_id id)) (not_a_client_id id)) _ b in
    let (e, f) =
      then_done
        (refuse_if (is_some p.human_token_profile || contains p.scopes buyer_handoff_scope)
          (two_provenances id))
        (refuse_if (not (contains p.audiences native_commitment_audience)) (no_trade_audience id))
        d in
    let c' = refuse_done (not (is_workload_client_id id)) (not_a_client_id id) c in
    let e' =
      refuse_done (is_some p.human_token_profile || contains p.scopes buyer_handoff_scope)
        (two_provenances id) e in
    let f' =
      refuse_done (not (contains p.audiences native_commitment_audience)) (no_trade_audience id)
        f in
    record {
      canonical_id = ground (arith, c');
      no_human_profile = is_some-none p.human_token_profile (ground (arith, e'));
      no_handoff = ground (arith, e');
      for_trade = ground (arith, f');
    }

-- What `Validate` finds of one workload.
pub record IsSound (c : Config) (w : String × Workload) : Type 0 where
  pub at_home : w.1.environment ≡ c.environment
  pub known_lifecycle : contains lifecycles w.1.status ≡ true
  pub scopes : IsCanonical w.1.scopes
  pub audiences : IsCanonical w.1.audiences
  pub narrow : contains w.1.scopes native_commitment_submit_scope ≡ true → IsSubmitter w.0 w.1

validate_workload-IsSound :
    (c : Config) (w : String × Workload) → validate_workload c w ≡ ok tt → IsSound c w
unfolding validate_workload
validate_workload-IsSound c (id, p) h =
    let home = not (str_eq p.environment c.environment) in
    let (_, a) = then_done (tms_proposal_hold id p) _ h in
    let (b, d) = then_done (refuse_if home (foreign_environment id)) _ a in
    let (_, e) =
      then_done
        (refuse_if
          (is_empty id || not (str_eq (trim_space id) id) || is_nil p.scopes || is_nil p.audiences)
          invalid_workload_profile)
        _ d in
    let (_, f) =
      then_done
        (refuse_if
          (not (str_eq p.credential_type "client_credentials")
            && not (str_eq p.credential_type "federated_workload_token"))
          unsupported_credential)
        _ e in
    let (g, i) = then_done (refuse_if (not (contains lifecycles p.status)) unknown_lifecycle) _ f in
    let (j, k) = then_done (each_canonical noncanonical_value [] p.scopes) _ i in
    let (l, m) = then_done (each_canonical noncanonical_value [] p.audiences) _ k in
    let (_, n) = then_done (validate_human_part id p p.human_token_profile) _ m in
    let b' = refuse_done home (foreign_environment id) b in
    let g' = refuse_done (not (contains lifecycles p.status)) unknown_lifecycle g in
    record {
      at_home = (eq_iff p.environment c.environment).0 (ground (arith, b'));
      known_lifecycle = ground (arith, g');
      scopes = (each_canonical-fresh noncanonical_value [] p.scopes j).0;
      audiences = (each_canonical-fresh noncanonical_value [] p.audiences l).0;
      narrow = commitment-IsSubmitter id p n;
    }

-- Every binding is for a registered federated workload and differs from those before it.
abbrev pub AreBound : Config → List Binding → List (String × Binding) → Type 0
AreBound c seen [] = Unit
AreBound c seen ((id, b) ∷ rest) =
    (is_registered c id ≡ true)
    × ((workload_of c id).credential_type ≡ "federated_workload_token")
    × (binding_seen seen b ≡ false)
    × AreBound c (b ∷ seen) rest

validate_bindings-AreBound :
    (c : Config) (seen : List Binding) (bindings : List (String × Binding))
    → validate_bindings c seen bindings ≡ ok tt
    → AreBound c seen bindings
unfolding validate_bindings
validate_bindings-AreBound c seen [] h = tt
validate_bindings-AreBound c seen ((id, b) ∷ rest) h =
    let (a, d) = then_done (refuse_if (is_bad_binding c seen id b) invalid_binding) _ h in
    let q = refuse_done (is_bad_binding c seen id b) invalid_binding a in
    (
      ground (arith, q),
      (eq_iff (workload_of c id).credential_type "federated_workload_token").0 (ground (arith, q)),
      ground (arith, q),
      validate_bindings-AreBound c (b ∷ seen) rest d,
    )

-- In a configuration that is accepted, every workload belongs to the one environment, has a known
-- lifecycle, and its scopes and audiences are canonical, each once. One that may submit native
-- commitments has a canonical client id, no human profile and no handoff scope, and names Trade.
-- Every binding is of a registered federated workload, and no two bindings are alike.
pub validate_config_lem :
    (c : Config)
    → validate_config c ≡ ok tt
    → Every (IsSound c) c.workloads × AreBound c [] c.bindings
unfolding validate_config
validate_config_lem c h =
    let (_, a) =
      then_done
        (refuse_if (not (is_commit c.shared_commit) || is_nil c.workloads)
          exact_projection_required)
        _ h in
    let (_, b) =
      then_done (refuse_if (not (contains environments c.environment)) unknown_environment) _ a in
    let (d, e) = then_done (for_each c.workloads (validate_workload c)) _ b in
    (
      Every-map c.workloads (validate_workload-IsSound c)
          (for_each-Every c.workloads (validate_workload c) d),
      validate_bindings-AreBound c [] c.bindings e,
    )
