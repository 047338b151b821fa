-- ===== src/Federation/Ledger.antt =====
-- internal/federation/trust_ledger.go: the records, the disk and the ports of the trust ledger.
pub mod Tx
pub mod Sound
pub mod Writes
pub mod Keeps
pub mod Guards
pub mod Stored
pub mod Reading
pub mod Operations
pub mod Containment
pub mod Calls
pub mod Transition
pub mod Propose
pub mod Decide
use baobab_iam.Base.{
  ℕ, String, Bool, List, [], ◌∷◌, Option, none, some, str_eq, ◌==◌, ◌&&◌, if◌then◌else◌,
}
use baobab_iam.Result.{Result}
use baobab_iam.Action.{Action}
use baobab_iam.Resource.Types.{Url}
use baobab_iam.Federation.Types.{FederationError}
use baobab_iam.Federation.Ports.{Scope, TrustSnapshot, ReferenceExpectation, ApprovedReference}

-- `TrustProposal`
pub record TrustProposal : Type 0 where
  pub id : String
  pub snapshot : TrustSnapshot
  pub target : ReferenceExpectation
  pub target_digest : String
  pub previous_revision : ℕ
  pub previous_snapshot_id : String
  pub maker : String
  pub checker : String
  pub status : String
  pub proposed_at : ℕ
  pub decided_at : ℕ

-- `committedTrust`
pub record CommittedTrust : Type 0 where
  pub snapshot : TrustSnapshot
  pub scope : Scope
  pub proposal_id : String
  pub maker : String
  pub checker : String
  pub decided_at : ℕ
  pub containment_actor : String
  pub contained_at : Option ℕ

-- An entry of the history, under its trust and its revision.
pub record Revision : Type 0 where
  pub trust_id : String
  pub number : ℕ
  pub value : CommittedTrust

-- The four buckets of the database.
pub record Disk : Type 0 where
  pub trusts : List (String × CommittedTrust)
  pub proposals : List (String × TrustProposal)
  pub history : List Revision
  pub clock : Option ℕ

-- The history at a trust and a revision.
unfoldable pub find_revision : String → ℕ → List Revision → Option CommittedTrust
find_revision id n [] = none
find_revision id n (r ∷ rest) =
    let later = find_revision id n rest in
    if str_eq id r.trust_id && n == r.number then some r.value else later

-- The disk, and all that is outside.
pub record World (W : Type 0) : Type 0 where
  pub disk : Disk
  pub outside : W

-- `ApprovalActor`
pub record ApprovalActor : Type 0 where
  pub principal_id : String
  pub valid_until : ℕ

-- `TrustLedger`: its ports, the clock, the source of fresh ids, the context's error, whether the
-- database answers, `TrustSnapshotDigest` and `url.Parse`.
pub record TrustLedger (W : Type 0) : Type 0 where
  pub actors : String → ReferenceExpectation → Action FederationError (World W) ApprovalActor
  pub targets : ReferenceExpectation → Action FederationError (World W) String
  pub references : ReferenceExpectation → Action FederationError (World W) ApprovedReference
  pub now : W → ℕ × W
  pub random_uuid : W → Result FederationError String × W
  pub cancelled : W → Bool
  pub broken : W → Bool
  pub digest : TrustSnapshot → String
  pub parse : String → Option Url
