-- ===== src/Federation/Ledger/Guards.antt =====
-- internal/federation/trust_ledger.go: what the guards of `Propose` and `Decide` establish.
use baobab_iam.Base.{
  ℕ, ◌+◌, ◌≤◌, ◌<◌, String, true, false, Option, none, some, ◌≡◌, ◌≢◌, refl, sym, inl, inr,
  Bool-cases, arith, eq_iff, ◌==◌, find_key,
}
use baobab_iam.Resource.Types.{Url}
use baobab_iam.Federation.Types.{Trust}
use baobab_iam.Federation.Ports.{TrustSnapshot, ReferenceExpectation}
use baobab_iam.Federation.Validate.{validate_trust, identity_refused}
use baobab_iam.Federation.Ledger.{
  TrustProposal, CommittedTrust, Disk, find_revision, ApprovalActor, TrustLedger,
}
use baobab_iam.Federation.Ledger.Tx.{is_present}
use baobab_iam.Federation.Ledger.Transition.{
  is_ok, max_uint64, next_uint64, trust_transition, changes_identity, bad_committed, has_moved,
  may_follow,
}
use baobab_iam.Federation.Ledger.Propose.{candidate_refused, pending}
use baobab_iam.Federation.Ledger.Decide.{committed, breaks_off}
use baobab_iam.Federation.Ledger.Sound.{IsProposal, IsSound}
use baobab_iam.Federation.Ledger.Writes.{IsNext}

-- A trust that `ValidateTrust` accepts has a revision.
valid_number :
    (parse : String → Option Url) (t : Trust)
    → is_ok (validate_trust parse t) ≡ true
    → 0 < t.revision
unfolding validate_trust identity_refused
valid_number parse t h = elim (Bool-cases (t.revision == 0)) [
  | inl e ↦ absurd (ground (arith, e, h))
  | inr e ↦ ground (arith, e)
]

-- A transition goes from a trust that is not revoked to the next revision.
pub record IsTransition (previous current : Trust) : Type 0 where
  pub alive : previous.status ≢ "REVOKED"
  pub next : previous.revision ≤ max_uint64 → current.revision ≡ previous.revision + 1
  pub bounded : current.revision ≤ max_uint64
  pub same_id : current.id ≡ previous.id

pub trust_transition-IsTransition :
    (previous current : Trust)
    → trust_transition previous current ≡ true
    → IsTransition previous current
unfolding trust_transition changes_identity
trust_transition-IsTransition previous current h =
    let same = eq_iff current.id previous.id in
    let gone = eq_iff previous.status "REVOKED" in
    record {
      alive = λ p. let q = gone.1 p in ground (arith, h, q);
      next = λ b.
          let q : current.revision ≡ next_uint64 previous.revision = ground (arith, h) in
          let r : previous.revision ≢ max_uint64 = ground (arith, h) in omega (arith, q, r, b);
      bounded =
          let q : current.revision ≡ next_uint64 previous.revision = ground (arith, h) in
          omega (arith, q);
      same_id = same.0 (ground (arith, h));
    }

candidate_numbers :
    {W : Type 0} (l : TrustLedger W) (id : String) (c : TrustSnapshot) (want : ReferenceExpectation)
    → candidate_refused l id c want ≡ false
    → (c.approved_revision ≡ c.trust.revision) × (0 < c.trust.revision)
unfolding candidate_refused
candidate_numbers l id c want h =
    (ground (arith, h), valid_number l.parse c.trust (ground (arith, h)))

-- The numbers of a committed trust that `read` lets pass.
committed_numbers :
    (parse : String → Option Url) (id : String) (v : CommittedTrust)
    → bad_committed parse id v ≡ false
    → (v.snapshot.approved_revision ≡ v.snapshot.trust.revision) × (0 < v.snapshot.trust.revision)
unfolding bad_committed
committed_numbers parse id v h =
    (ground (arith, h), valid_number parse v.snapshot.trust (ground (arith, h)))

-- What `Propose` writes is a proposal.
pub pending-IsProposal :
    {W : Type 0} (l : TrustLedger W) (id : String) (c : TrustSnapshot) (want : ReferenceExpectation)
    (digest : String) (previous : Option CommittedTrust) (a : ApprovalActor) (now : ℕ)
    → candidate_refused l id c want ≡ false
    → ((v : CommittedTrust) → previous ≡ some v → bad_committed l.parse c.trust.id v ≡ false)
    → may_follow previous c.trust ≡ true
    → IsProposal id (pending id c want digest previous a now)
unfolding pending
pending-IsProposal l id c want digest none a now h k m = record {
  approved = (candidate_numbers l id c want h).0;
  numbered = (ground (arith, m), ground (arith, m));
  first = λ z. ground (arith, m);
}
pending-IsProposal l id c want digest (some v) a now h k m =
    let t = trust_transition-IsTransition v.snapshot.trust c.trust m in
    let (e, n) = committed_numbers l.parse c.trust.id v (k v refl) in
    let (approved, positive) = candidate_numbers l id c want h in
    record {
      approved = approved;
      numbered = (positive, t.bounded);
      first = λ z. absurd (omega (arith, z, e, n));
    }

pub is_present-none : {A : Type 0} (o : Option A) → is_present o ≡ false → o ≡ none
is_present-none none h = refl
is_present-none (some a) h = cc

-- What an approval may write next.
pub committed-IsNext :
    (id : String) (p : TrustProposal) (d : Disk)
    → IsProposal id p
    → p.maker ≢ p.checker
    → has_moved (find_key p.snapshot.trust.id d.trusts) p.previous_revision p.previous_snapshot_id
      ≡ false
    → breaks_off (find_key p.snapshot.trust.id d.trusts) p.snapshot.trust ≡ false
    → is_present (find_revision p.snapshot.trust.id p.snapshot.approved_revision d.history) ≡ false
    → IsSound d
    → IsNext p.snapshot.trust.id (committed p) d
unfolding committed
committed-IsNext id p d good eyes moved off taken s = record {
  committed = record {
    four_eyes = eyes;
    approved = good.approved;
    same_id = refl;
    numbered = good.numbered;
  };
  free = rw (sym good.approved) (is_present-none _ taken);
  later = λ w f.
      let q : trust_transition w.snapshot.trust p.snapshot.trust ≡ true =
        let z = rw f at off in ground (arith, z) in
      let t = trust_transition-IsTransition w.snapshot.trust p.snapshot.trust q in
      let n = ((s.in_force p.snapshot.trust.id w f).0).numbered.1 in
      let e = t.next n in (omega (arith, e), t.alive);
}
