-- ===== src/Token/Native.antt =====
-- internal/tokenprofile/native_commitment.go: who may submit native commitments to Trade.
use baobab_iam.Base.{
  String, Bool, true, false, not, ◌||◌, List, [], ◌∷◌, Option, none, some, str_eq, contains,
  if◌then◌else◌,
}
use baobab_iam.Result.{ok, ◌>>◌, refuse_if}
use baobab_iam.Token.Errors.{
  human_commitment_scope, not_a_client_id, two_provenances, no_trade_audience,
}
use baobab_iam.Token.Types.{HumanTokenProfile, Workload, Evidence}
use baobab_iam.Token.Canonical.{Check, is_workload_client_id}

-- `buyerHandoffScope` of human.go
abbrev pub buyer_handoff_scope : String
buyer_handoff_scope = "trade:buyer-handoff"

abbrev pub native_commitment_submit_scope : String
native_commitment_submit_scope = "trade:native-commitment:submit"

abbrev pub native_commitment_audience : String
native_commitment_audience = "baobab-trade"

abbrev pub is_some : {A : Type 0} → Option A → Bool
is_some none = false
is_some (some a) = true

-- `p != nil && slices.Contains(p.Scopes, scope)`
abbrev pub profile_has_scope : Option HumanTokenProfile → String → Bool
profile_has_scope none scope = false
profile_has_scope (some h) scope = contains h.scopes scope

-- `validateNativeCommitmentSubmitter`
unfoldable pub validate_native_commitment_submitter : String → Workload → Check
validate_native_commitment_submitter id p = do
  refuse_if (profile_has_scope p.human_token_profile native_commitment_submit_scope)
      (human_commitment_scope id)
  if not (contains p.scopes native_commitment_submit_scope) then ok tt else do
    refuse_if (not (is_workload_client_id id)) (not_a_client_id id)
    refuse_if (is_some p.human_token_profile || contains p.scopes buyer_handoff_scope)
        (two_provenances id)
    refuse_if (not (contains p.audiences native_commitment_audience)) (no_trade_audience id)

-- `len(xs) == 1 && xs[0] == s`
abbrev pub is_only : String → List String → Bool
is_only s [] = false
is_only s (x ∷ []) = str_eq x s
is_only s (x ∷ (y ∷ rest)) = false

-- `nativeCommitmentTokenScoped`
unfoldable pub native_commitment_token_scoped : Evidence → Bool
native_commitment_token_scoped e =
    not (contains e.granted_scopes native_commitment_submit_scope)
    || is_only native_commitment_audience e.granted_audiences
