-- ===== src/Federation/Ledger/Propose.antt =====
-- internal/federation/trust_ledger.go and approvals.go: `read`, `Propose`, `validExpectation`.
use Prim.Native.String.{len}
use baobab_iam.Base.{
  ℕ, String, Bool, true, false, not, ◌&&◌, ◌||◌, List, [], ◌∷◌, Option, none, some, ltb, leb, ◌==◌,
  str_eq, is_empty, trim_space, contains, find_key, if◌then◌else◌,
}
use baobab_iam.Result.{Result, ok, err}
use baobab_iam.Action.{pure, lift, gets, attempt, ◌>>=◌, ◌>>◌}
use baobab_iam.Federation.Types.{
  FederationError, unsupported, unverified, denied, unavailable, invalid, adapter,
}
use baobab_iam.Federation.Ports.{TrustSnapshot, ReferenceExpectation}
use baobab_iam.Federation.Grammar.{
  is_uuid, valid_ref, valid_provider, valid_instance, valid_scope, is_digest, exact,
}
use baobab_iam.Federation.Validate.{validate_trust, levels}
use baobab_iam.Federation.Ledger.{TrustProposal, CommittedTrust, Disk, ApprovalActor, TrustLedger}
use baobab_iam.Federation.Ledger.Tx.{
  Call, reported, refuse, read_clock, is_cancelled, still_before, view_disk, update, write,
  observe_clock, actor, is_present,
}
use baobab_iam.Federation.Ledger.Transition.{
  is_ok, bad_committed, revision_of, snapshot_of, has_moved, may_follow,
}

abbrev plain_kinds : List String
plain_kinds =
    "federation_configuration" ∷ "federation_trust_material" ∷ "assurance_policy"
    ∷ "attribute_mapping" ∷ "provisioning_policy" ∷ "federation_activation"
    ∷ "identity_runtime_profile" ∷ "identity_runtime_support" ∷ "identity_security_domain" ∷ []

-- `validExpectation`
unfoldable pub valid_expectation : ReferenceExpectation → Bool
valid_expectation w =
    valid_ref w.id
    && is_uuid w.trust_id
    && not (is_empty w.snapshot_id)
    && leb (len w.snapshot_id) 128
    && str_eq (trim_space w.snapshot_id) w.snapshot_id
    && not (w.trust_revision == 0)
    && valid_scope w.scope
    && valid_provider w.provider_id
    && valid_instance w.engine_instance_id
    && (if contains plain_kinds w.kind
        then is_empty w.event_id
          && is_empty w.issuer
          && is_empty w.subject
          && is_empty w.level
          && is_empty w.evidence_digest
          && is_empty w.principal_id
          && is_empty w.external_identity_id
        else if str_eq w.kind "assurance_mapping_decision"
        then not (is_empty w.issuer)
          && leb (len w.issuer) 2048
          && is_uuid w.event_id
          && exact w.subject
          && contains levels w.level
          && is_digest w.evidence_digest
          && is_empty w.principal_id
          && is_empty w.external_identity_id
        else if str_eq w.kind "canonical_identity_mapping"
        then not (is_empty w.issuer)
          && leb (len w.issuer) 2048
          && exact w.subject
          && is_uuid w.principal_id
          && is_uuid w.external_identity_id
          && is_empty w.event_id
          && is_empty w.level
          && is_empty w.evidence_digest
        else false)

-- `len(ids) != 1 || ids[0] != id`
abbrev is_not_only : List String → String → Bool
is_not_only [] id = true
is_not_only (x ∷ []) id = not (str_eq x id)
is_not_only (x ∷ (y ∷ rest)) id = true

-- A value that is there, and else an error.
abbrev pub found_or : {A : Type 0} → FederationError → Option A → Result FederationError A
found_or e none = err e
found_or e (some a) = ok a

-- `read` that found nothing is no error here.
abbrev pub or_absent :
    Result FederationError CommittedTrust → Result FederationError (Option CommittedTrust)
or_absent (ok v) = ok (some v)
or_absent (err unverified) = ok none
or_absent (err unsupported) = err unsupported
or_absent (err denied) = err denied
or_absent (err unavailable) = err unavailable
or_absent (err invalid) = err invalid
or_absent (err (adapter s)) = err (adapter s)

-- `err != nil || currentActor.PrincipalID != actor.PrincipalID`
abbrev pub same_actor :
    ApprovalActor → Result FederationError ApprovalActor → Result FederationError ApprovalActor
same_actor a (err e) = err denied
same_actor a (ok b) = if str_eq b.principal_id a.principal_id then ok b else err denied

-- The proposal that `Propose` makes.
unfoldable pub pending :
    String
    → TrustSnapshot
    → ReferenceExpectation
    → String
    → Option CommittedTrust
    → ApprovalActor
    → ℕ
    → TrustProposal
pending id candidate want digest previous a now = record {
  id = id;
  snapshot = candidate;
  target = want;
  target_digest = digest;
  previous_revision = revision_of previous;
  previous_snapshot_id = snapshot_of previous;
  maker = a.principal_id;
  checker = "";
  status = "PENDING";
  proposed_at = now;
  decided_at = 0;
}

abbrev pub put_proposal : String → TrustProposal → Disk → Disk
put_proposal id p d = record d { proposals = (id, p) ∷ d.proposals }

module _ {W : Type 0} (l : TrustLedger W) where
  -- The first condition of `Propose`.
  unfoldable pub candidate_refused : String → TrustSnapshot → ReferenceExpectation → Bool
  candidate_refused id c want =
      not (is_uuid id)
      || not (is_ok (validate_trust l.parse c.trust))
      || not (valid_expectation want)
      || not (str_eq want.kind "federation_activation")
      || not (str_eq want.trust_id c.trust.id)
      || not (want.trust_revision == c.trust.revision)
      || not (str_eq want.snapshot_id c.snapshot_id)
      || not (str_eq want.provider_id c.trust.provider_binding.provider_id)
      || not (str_eq want.engine_instance_id c.trust.provider_binding.engine_instance_id)
      || not (exact c.snapshot_id)
      || not (c.approved_revision == c.trust.revision)
      || is_not_only c.trust.organisation_ids want.scope.organisation_id
      || is_not_only c.trust.estate_ids want.scope.estate_id

  -- `read`
  unfoldable pub read : String → Call W CommittedTrust
  unfolding find_key
  read id = do
    over ← is_cancelled l
    refuse (over || not (is_uuid id)) invalid
    v ← reported (view_disk l (λ d. found_or unverified (find_key id d.trusts)))
    refuse (bad_committed l.parse id v) invalid
    pure v

  -- What the transaction of `Propose` does once it may.
  unfoldable pub write_proposal : TrustProposal → Call W (Unit {0})
  unfolding find_key
  write_proposal p = do
    taken ← gets (λ s. is_present (find_key p.id s.disk.proposals))
    refuse taken denied
    current ← gets (λ s. find_key p.snapshot.trust.id s.disk.trusts)
    refuse (has_moved current p.previous_revision p.previous_snapshot_id) denied
    write (put_proposal p.id p)

  -- The transaction of `Propose`.
  unfoldable pub store_proposal : ApprovalActor → TrustProposal → Call W (Unit {0})
  unfolding observe_clock write_proposal
  store_proposal a p = do
    observe_clock l
    over ← is_cancelled l
    refuse over denied
    still_before l a.valid_until
    still_before l p.snapshot.valid_until
    write_proposal p

  -- `Propose`
  unfoldable pub propose : String → TrustSnapshot → ReferenceExpectation → Call W TrustProposal
  unfolding actor read store_proposal pending
  propose id candidate want = do
    refuse (candidate_refused id candidate want) invalid
    a ← actor l "PROPOSE" want
    now ← read_clock l
    refuse (ltb now candidate.trust.updated_at || not (ltb now candidate.valid_until)) denied
    found ← attempt (read candidate.trust.id)
    previous ← lift (or_absent found)
    refuse (not (may_follow previous candidate.trust)) denied
    digest ← reported (l.targets want)
    refuse (not (str_eq digest (l.digest candidate))) unverified
    again ← attempt (actor l "PROPOSE" want)
    b ← lift (same_actor a again)
    let p = pending id candidate want digest previous a now
    reported (update l (store_proposal b p))
    pure p
