-- ===== src/Federation/Ledger/Decide.antt =====
-- internal/federation/trust_ledger.go: `Decide`, `Trust`, `Contain`, and reading the history.
use baobab_iam.Base.{
  ℕ, String, Bool, true, false, not, ◌&&◌, ◌||◌, List, [], ◌∷◌, Option, none, some, ltb, ◌==◌,
  str_eq, find_key, if◌then◌else◌,
}
use baobab_iam.Action.{pure, lift, gets, attempt, ◌>>=◌, ◌>>◌}
use baobab_iam.Federation.Types.{unverified, denied, invalid, Trust, Trust-discrete}
use baobab_iam.Federation.Ports.{
  Scope, TrustSnapshot, ReferenceExpectation, ReferenceExpectation-discrete, ApprovedReference,
}
use baobab_iam.Federation.Grammar.{is_uuid}
use baobab_iam.Federation.Validate.{validate_trust, fresh}
use baobab_iam.Federation.Ledger.{
  TrustProposal, CommittedTrust, find_revision, ApprovalActor, TrustLedger,
}
use baobab_iam.Federation.Ledger.Tx.{
  Call, reported, refuse, read_clock, is_cancelled, still_before, view_disk, update, write,
  observe_clock, fence, put_trust_revision, actor,
}
use baobab_iam.Federation.Ledger.Transition.{is_ok, next_uint64, trust_transition, has_moved}
use baobab_iam.Federation.Ledger.Propose.{read, found_or, same_actor, put_proposal}

-- Whether a decision of equality is "equal".
abbrev pub is_yes : {P : Type 0} → Dec P → Bool
is_yes (yes p) = true
is_yes (no n) = false

-- `sameSnapshot`
unfoldable pub same_snapshot : TrustSnapshot → TrustSnapshot → Bool
same_snapshot a b =
    a.approved_revision == b.approved_revision
    && str_eq a.snapshot_id b.snapshot_id
    && a.valid_until == b.valid_until
    && is_yes (Trust-discrete a.trust b.trust)

-- The references of a trust, each with its kind.
abbrev pub trust_references : Trust → List (String × String)
trust_references t =
    (t.provider_binding.configuration_reference, "federation_configuration")
    ∷ (t.provider_binding.trust_material_reference, "federation_trust_material")
    ∷ (t.assurance_policy_reference, "assurance_policy")
    ∷ (t.attribute_mapping_reference, "attribute_mapping")
    ∷ (t.provisioning_policy_reference, "provisioning_policy")
    ∷ (t.activation_evidence_reference, "federation_activation")
    ∷ []

-- What is expected of a reference of a snapshot.
unfoldable pub expected : TrustSnapshot → Scope → String → String → ReferenceExpectation
expected s scope id kind = record {
  id = id;
  kind = kind;
  trust_id = s.trust.id;
  snapshot_id = s.snapshot_id;
  trust_revision = s.approved_revision;
  provider_id = s.trust.provider_binding.provider_id;
  engine_instance_id = s.trust.provider_binding.engine_instance_id;
  scope = scope;
  event_id = "";
  issuer = "";
  subject = "";
  level = "";
  evidence_digest = "";
  principal_id = "";
  external_identity_id = "";
}

-- `receipt.Expectation != want || receipt.Status != "APPROVED" || !receipt.NonSecret || !fresh(...)`
unfoldable pub receipt_refused : ReferenceExpectation → ApprovedReference → ℕ → Bool
unfolding fresh
receipt_refused want r now =
    not (is_yes (ReferenceExpectation-discrete r.expectation want))
    || not (str_eq r.status "APPROVED")
    || not r.non_secret
    || not (fresh r.valid_from r.expires_at now)

-- The proposal once it is decided.
unfoldable pub decided : TrustProposal → ApprovalActor → ℕ → Bool → TrustProposal
decided p a now approve = record p {
  checker = a.principal_id;
  decided_at = now;
  status = if approve then "APPROVED" else "REJECTED";
}

-- What is committed of an approved proposal.
unfoldable pub committed : TrustProposal → CommittedTrust
committed p = record {
  snapshot = p.snapshot;
  scope = p.target.scope;
  proposal_id = p.id;
  maker = p.maker;
  checker = p.checker;
  decided_at = p.decided_at;
  containment_actor = "";
  contained_at = none;
}

-- `raw != nil && !trustTransition(...)`
abbrev pub breaks_off : Option CommittedTrust → Trust → Bool
breaks_off none t = false
breaks_off (some v) t = not (trust_transition v.snapshot.trust t)

-- The proposal is not there, or not PENDING.
abbrev pub not_pending : Option TrustProposal → Bool
not_pending none = true
not_pending (some p) = not (str_eq p.status "PENDING")

-- The committed trust after an emergency: the next revision, suspended or revoked.
unfoldable pub contained_trust : Trust → String → ℕ → Trust
contained_trust t status now = record t {
  revision = next_uint64 t.revision;
  status = status;
  updated_at = now;
  revoked_at = if str_eq status "REVOKED" then some now else t.revoked_at;
}

unfoldable pub contained : CommittedTrust → String → String → String → ℕ → CommittedTrust
unfolding contained_trust
contained v snapshot_id status by now =
    let t = contained_trust v.snapshot.trust status now in
    record v {
      snapshot = record v.snapshot {
        trust = t;
        approved_revision = t.revision;
        snapshot_id = snapshot_id;
      };
      containment_actor = by;
      contained_at = some now;
    }

-- `s.ApprovedRevision != revision || s.Trust.Status == "REVOKED" || ...`
abbrev pub containment_refused : CommittedTrust → ℕ → String → Bool
containment_refused v revision status =
    not (v.snapshot.approved_revision == revision)
    || str_eq v.snapshot.trust.status "REVOKED"
    || (str_eq status "SUSPENDED" && not (str_eq v.snapshot.trust.status "ACTIVE"))

-- The live trust is not there, or not the one that was read.
abbrev pub not_live : Option CommittedTrust → ℕ → String → Bool
not_live none revision snapshot_id = true
not_live (some v) revision snapshot_id =
    not (v.snapshot.approved_revision == revision)
    || not (str_eq v.snapshot.snapshot_id snapshot_id)

module _ {W : Type 0} (l : TrustLedger W) where
  -- `proposal`
  unfoldable pub proposal : String → Call W TrustProposal
  unfolding find_key
  proposal id = do
    over ← is_cancelled l
    refuse (over || not (is_uuid id)) invalid
    reported (view_disk l (λ d. found_or invalid (find_key id d.proposals)))

  -- The loop of `activation`.
  unfoldable pub each_reference : TrustSnapshot → Scope → List (String × String) → Call W (Unit {0})
  unfolding expected receipt_refused
  each_reference s scope [] = pure tt
  each_reference s scope ((id, kind) ∷ rest) = do
    receipt ← reported (l.references (expected s scope id kind))
    now ← read_clock l
    refuse
        (receipt_refused (expected s scope id kind) receipt now
          || ltb receipt.expires_at s.valid_until)
        unverified
    each_reference s scope rest

  -- `activation`
  unfoldable pub activation : TrustSnapshot → Scope → Call W (Unit {0})
  unfolding each_reference
  activation s scope =
      if not (str_eq s.trust.status "ACTIVE")
      then pure tt
      else each_reference s scope (trust_references s.trust)

  -- What a decision to approve writes.
  unfoldable pub commit_proposal : TrustProposal → Call W (Unit {0})
  unfolding find_key put_trust_revision committed
  commit_proposal p = do
    current ← gets (λ s. find_key p.snapshot.trust.id s.disk.trusts)
    refuse (has_moved current p.previous_revision p.previous_snapshot_id) denied
    refuse (breaks_off current p.snapshot.trust) denied
    put_trust_revision l p.snapshot.trust.id p.snapshot.approved_revision (committed p)

  -- What the transaction of `Decide` does once it may: the new revision, and the decided proposal.
  unfoldable pub write_decision : String → Bool → TrustProposal → Call W (Unit {0})
  unfolding find_key commit_proposal
  write_decision id approve p = do
    done ← gets (λ s. not_pending (find_key id s.disk.proposals))
    refuse done denied
    if approve then commit_proposal p else pure tt
    write (put_proposal id p)

  -- The transaction of `Decide`.
  unfoldable pub store_decision : ApprovalActor → String → Bool → TrustProposal → Call W (Unit {0})
  unfolding observe_clock write_decision
  store_decision a id approve p = do
    observe_clock l
    over ← is_cancelled l
    refuse over denied
    still_before l a.valid_until
    still_before l p.snapshot.valid_until
    write_decision id approve p

  -- `Decide`
  unfoldable pub decide : String → String → Bool → Call W TrustProposal
  unfolding proposal actor activation decided store_decision
  decide id digest approve = do
    p ← proposal id
    refuse (not (str_eq p.status "PENDING") || not (str_eq p.target_digest digest)) denied
    a ← actor l "DECIDE" p.target
    refuse (str_eq a.principal_id p.maker) denied
    actual ← reported (l.targets p.target)
    refuse (not (str_eq actual digest) || not (str_eq actual (l.digest p.snapshot))) unverified
    if approve then activation p.snapshot p.target.scope else pure tt
    again ← attempt (actor l "DECIDE" p.target)
    b ← lift (same_actor a again)
    now ← read_clock l
    reported (update l (store_decision b id approve (decided p a now approve)))
    pure (decided p a now approve)

  -- `Trust`
  unfoldable pub trust : String → Call W TrustSnapshot
  unfolding read fence activation same_snapshot
  trust id = do
    v ← read l id
    fence l
    now ← read_clock l
    refuse
        (not (ltb now v.snapshot.valid_until)
          || not (is_ok (validate_trust l.parse v.snapshot.trust)))
        unverified
    activation v.snapshot v.scope
    fence l
    current ← read l id
    later ← read_clock l
    refuse
        (not (ltb later v.snapshot.valid_until) || not (same_snapshot v.snapshot current.snapshot))
        unverified
    pure v.snapshot

  -- `randomUUID`
  abbrev pub fresh_id : Call W String
  fresh_id s = ((l.random_uuid s.outside).0, record s { outside = (l.random_uuid s.outside).1 })

  -- The transaction of `Contain`.
  unfoldable pub store_containment :
      ApprovalActor → String → ℕ → String → CommittedTrust → Call W (Unit {0})
  unfolding observe_clock find_key put_trust_revision
  store_containment a id revision snapshot_id v = do
    observe_clock l
    over ← is_cancelled l
    refuse over denied
    still_before l a.valid_until
    gone ← gets (λ s. not_live (find_key id s.disk.trusts) revision snapshot_id)
    refuse gone denied
    put_trust_revision l id v.snapshot.approved_revision v

  -- `Contain`
  unfoldable pub contain : String → ℕ → String → Call W (Unit {0})
  unfolding read actor expected contained store_containment
  contain id revision status = do
    refuse (not (str_eq status "SUSPENDED") && not (str_eq status "REVOKED")) invalid
    v ← read l id
    refuse (containment_refused v revision status) denied
    a ← actor l "REVOKE" (
        expected v.snapshot v.scope v.snapshot.trust.provider_binding.configuration_reference
          "federation_configuration")
    now ← read_clock l
    snapshot_id ← fresh_id
    let w = contained v snapshot_id status a.principal_id now
    refuse
        (not (trust_transition v.snapshot.trust w.snapshot.trust)
          || not (is_ok (validate_trust l.parse w.snapshot.trust)))
        denied
    reported (update l (store_containment a id revision v.snapshot.snapshot_id w))

  -- `historicalRevision`
  unfoldable pub historical_revision : String → ℕ → Call W CommittedTrust
  unfolding find_revision
  historical_revision id revision = do
    over ← is_cancelled l
    refuse (over || not (is_uuid id) || revision == 0) invalid
    reported (view_disk l (λ d. found_or invalid (find_revision id revision d.history)))

  -- `Reference`
  unfoldable pub reference : ReferenceExpectation → Call W ApprovedReference
  reference want = l.references want
