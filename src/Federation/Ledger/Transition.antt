-- ===== src/Federation/Ledger/Transition.antt =====
-- internal/federation/trust_ledger.go: `trustTransition`, and the checks on what is stored.
use baobab_iam.Base.{
  ℕ, ◌+◌, ◌%◌, String, Bool, true, false, not, ◌&&◌, ◌||◌, List, [], ◌∷◌, Option, none, some, ltb,
  ◌==◌, str_eq, contains, if◌then◌else◌,
}
use baobab_iam.Result.{ok, err}
use baobab_iam.Resource.Types.{Url}
use baobab_iam.Token.Human.Seal.{equal_texts}
use baobab_iam.Federation.Types.{Trust}
use baobab_iam.Federation.Grammar.{is_uuid, exact, valid_scope}
use baobab_iam.Federation.Validate.{Check, validate_trust}
use baobab_iam.Federation.Ledger.{CommittedTrust}

-- `^uint64(0)`
abbrev pub max_uint64 : ℕ
max_uint64 = 18446744073709551615

-- `n + 1` on a `uint64`.
abbrev pub next_uint64 : ℕ → ℕ
next_uint64 n = (n + 1) % 18446744073709551616

-- The edges of the map in `trustTransition`.
unfoldable pub allowed_statuses : String → List String
allowed_statuses s =
    if str_eq s "REQUESTED"
    then "CONFIGURING" ∷ "REVOKED" ∷ []
    else if str_eq s "CONFIGURING"
    then "VERIFYING" ∷ "REVOKED" ∷ []
    else if str_eq s "VERIFYING"
    then "CONFIGURING" ∷ "ACTIVE" ∷ "REVOKED" ∷ []
    else if str_eq s "ACTIVE"
    then "SUSPENDED" ∷ "ROTATING" ∷ "REVOKED" ∷ []
    else if str_eq s "SUSPENDED"
    then "VERIFYING" ∷ "REVOKED" ∷ []
    else if str_eq s "ROTATING"
    then "VERIFYING" ∷ "REVOKED" ∷ []
    else []

-- What a new revision must not change, and the revision's number.
unfoldable pub changes_identity : Trust → Trust → Bool
unfolding equal_texts
changes_identity previous current =
    not (equal_texts current.organisation_ids previous.organisation_ids)
    || not (equal_texts current.estate_ids previous.estate_ids)
    || not (str_eq current.provider_binding.provider_id previous.provider_binding.provider_id)
    || not (
        str_eq current.provider_binding.engine_instance_id
          previous.provider_binding.engine_instance_id)
    || not (str_eq current.id previous.id)
    || not (str_eq current.protocol previous.protocol)
    || not (str_eq current.upstream_issuer previous.upstream_issuer)
    || not (current.created_at == previous.created_at)

-- `trustTransition`
unfoldable pub trust_transition : Trust → Trust → Bool
unfolding changes_identity allowed_statuses
trust_transition previous current =
    if changes_identity previous current
      || previous.revision == max_uint64
      || not (current.revision == next_uint64 previous.revision)
      || ltb current.updated_at previous.updated_at
      || str_eq previous.status "REVOKED"
    then false
    else if str_eq previous.status current.status
    then not (str_eq previous.status "ACTIVE")
    else contains (allowed_statuses previous.status) current.status

abbrev pub is_ok : Check → Bool
is_ok (ok u) = true
is_ok (err e) = false

-- The checks of `read` on a committed trust.
unfoldable pub bad_committed : (String → Option Url) → String → CommittedTrust → Bool
bad_committed parse id v =
    not (str_eq v.snapshot.trust.id id)
    || not (v.snapshot.approved_revision == v.snapshot.trust.revision)
    || not (exact v.snapshot.snapshot_id)
    || not (is_ok (validate_trust parse v.snapshot.trust))
    || not (valid_scope v.scope)
    || not (is_uuid v.maker)
    || not (is_uuid v.checker)
    || str_eq v.maker v.checker

-- The revision and the snapshot id of what is committed, zero where nothing is.
abbrev pub revision_of : Option CommittedTrust → ℕ
revision_of none = 0
revision_of (some v) = v.snapshot.approved_revision

abbrev pub snapshot_of : Option CommittedTrust → String
snapshot_of none = ""
snapshot_of (some v) = v.snapshot.snapshot_id

-- `current.Snapshot.ApprovedRevision != ... || current.Snapshot.SnapshotID != ...`
abbrev pub has_moved : Option CommittedTrust → ℕ → String → Bool
has_moved current revision snapshot_id =
    not (revision_of current == revision) || not (str_eq (snapshot_of current) snapshot_id)

-- What may follow nothing, or a committed trust.
abbrev pub may_follow : Option CommittedTrust → Trust → Bool
may_follow none candidate = str_eq candidate.status "REQUESTED" && candidate.revision == 1
may_follow (some v) candidate = trust_transition v.snapshot.trust candidate
