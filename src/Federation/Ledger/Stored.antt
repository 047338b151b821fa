-- ===== src/Federation/Ledger/Stored.antt =====
-- internal/federation/trust_ledger.go: the transactions of `Propose` and `Decide` keep a disk sound.
use mathlib.Core.Path.{subst}
use baobab_iam.Base.{
  ℕ, String, Bool, true, false, Option, none, some, ◌≡◌, ◌≢◌, refl, sym, ap, ◌∙◌, inl, inr,
  Bool-cases, Option-cases, arith, eq_iff, find_key,
}
use baobab_iam.Result.{Result-cases}
use baobab_iam.Action.Along.{Along, along_rules, Along-bind}
use baobab_iam.Federation.Types.{denied}
use baobab_iam.Federation.Ledger.{
  TrustProposal, Disk, find_revision, World, ApprovalActor, TrustLedger,
}
use baobab_iam.Federation.Ledger.Tx.{
  refuse, is_cancelled, still_before, observe_clock, put_trust_revision, is_present, with_revision,
}
use baobab_iam.Federation.Ledger.Transition.{has_moved}
use baobab_iam.Federation.Ledger.Propose.{put_proposal, write_proposal, store_proposal}
use baobab_iam.Federation.Ledger.Decide.{
  committed, breaks_off, not_pending, commit_proposal, write_decision, store_decision,
}
use baobab_iam.Federation.Ledger.Sound.{
  IsProposal, IsSound, Follows, Follows-refl, Follows-trans, Keeps, Keeps-order,
}
use baobab_iam.Federation.Ledger.Writes.{put_proposal-Follows, with_revision-Follows}
use baobab_iam.Federation.Ledger.Guards.{committed-IsNext}
use baobab_iam.Federation.Ledger.Keeps.{Along-observe_clock, Along-is_cancelled, Along-still_before}

-- A disk that is sound and follows another.
abbrev pub Kept : Disk → Disk → Type 0
Kept d e = IsSound e × Follows d e

module _ {W : Type 0} (l : TrustLedger W) (d : Disk) where
  pub Along-write_proposal :
      (p : TrustProposal) → IsProposal p.id p → Along (Keeps d) (write_proposal l p)
  unfolding write_proposal
  Along-write_proposal p good = record {
    at = λ s sound from. elim (Option-cases (find_key p.id s.disk.proposals)) [
      | inr (q, e) ↦ rw e (sound, Follows-refl s.disk)
      | inl e ↦
          elim (Bool-cases (
            has_moved (find_key p.snapshot.trust.id s.disk.trusts) p.previous_revision
              p.previous_snapshot_id)) [
                | inl m ↦ rw (e, m) (sound, Follows-refl s.disk)
                | inr m ↦
                    rw (e, m)
                      (put_proposal-Follows p.id p s.disk good
                        (λ q h. absurd (let z = rw e at h in cc)) sound)
              ]
    ];
  }

  -- Steps before the writes of a transaction.
  pub Along-store_proposal :
      (a : ApprovalActor) (p : TrustProposal)
      → IsProposal p.id p
      → Along (Keeps d) (store_proposal l a p)
  unfolding store_proposal
  Along-store_proposal a p good =
      Along-bind (Keeps-order d) (observe_clock l) _ (Along-observe_clock l d) (λ u.
        Along-bind (Keeps-order d) (is_cancelled l) _ (Along-is_cancelled l d) (λ over.
          Along-bind (Keeps-order d) (refuse over denied) _
            (search (along_rules, Keeps-order d) depth 5)
            (λ u.
              Along-bind (Keeps-order d) (still_before l a.valid_until) _
                (Along-still_before l d a.valid_until)
                (λ u.
                  Along-bind (Keeps-order d) (still_before l p.snapshot.valid_until) _
                    (Along-still_before l d p.snapshot.valid_until)
                    (λ u. Along-write_proposal p good)))))

  -- What the part of a decision that commits a revision leaves.
  commit_proposal-Kept :
      (id : String) (p : TrustProposal) (s : World W)
      → IsProposal id p
      → p.maker ≢ p.checker
      → IsSound s.disk
      → Kept s.disk (commit_proposal l p s).1.disk
        × ((commit_proposal l p s).1.disk.proposals ≡ s.disk.proposals)
  unfolding commit_proposal put_trust_revision
  commit_proposal-Kept id p s good eyes sound =
      let now = find_key p.snapshot.trust.id s.disk.trusts in
      elim (Bool-cases (has_moved now p.previous_revision p.previous_snapshot_id)) [
        | inl a ↦ rw a ((sound, Follows-refl s.disk), refl)
        | inr a ↦ elim (Bool-cases (breaks_off now p.snapshot.trust)) [
          | inl b ↦ rw (a, b) ((sound, Follows-refl s.disk), refl)
          | inr b ↦
              elim (Bool-cases (
                is_present (
                  find_revision p.snapshot.trust.id p.snapshot.approved_revision s.disk.history))) [
                    | inl c ↦ rw (a, b, c) ((sound, Follows-refl s.disk), refl)
                    | inr c ↦
                        rw (a, b, c)
                          (
                            subst
                                (λ (n : ℕ).
                                  Kept s.disk
                                    (with_revision p.snapshot.trust.id n (committed p) s.disk))
                                (sym good.approved)
                                (with_revision-Follows p.snapshot.trust.id (committed p) s.disk
                                  (committed-IsNext id p s.disk good eyes a b c sound) sound),
                            refl,
                          )
                  ]
        ]
      ]

  pending_there :
      (o : Option TrustProposal)
      → not_pending o ≡ false
      → (q : TrustProposal) → o ≡ some q
      → q.status ≡ "PENDING"
  pending_there none h q e = cc
  pending_there (some p) h q e =
      let same : p ≡ q = cc in
      ap (λ (r : TrustProposal). r.status) (sym same)
      ∙ (eq_iff p.status "PENDING").0 (ground (arith, h))

  pub Along-write_decision :
      (id : String) (approve : Bool) (p : TrustProposal)
      → IsProposal id p
      → p.maker ≢ p.checker
      → Along (Keeps d) (write_decision l id approve p)
  unfolding write_decision
  Along-write_decision id false p good eyes = record {
    at = λ s sound from. elim (Bool-cases (not_pending (find_key id s.disk.proposals))) [
      | inl b ↦ rw b (sound, Follows-refl s.disk)
      | inr b ↦ rw b (
          put_proposal-Follows id p s.disk good (pending_there (find_key id s.disk.proposals) b)
            sound)
    ];
  }
  Along-write_decision id true p good eyes = record {
    at = λ s sound from. elim (Bool-cases (not_pending (find_key id s.disk.proposals))) [
      | inl b ↦ rw b (sound, Follows-refl s.disk)
      | inr b ↦
          let t = (commit_proposal l p s).1 in
          let ((sound', after), same) = commit_proposal-Kept id p s good eyes sound in
          elim (Result-cases (commit_proposal l p s).0) [
            | inr (e, q) ↦ rw (b, q) (sound', after)
            | inl (u, q) ↦
                let (w, v) =
                  put_proposal-Follows id p t.disk good
                    (pending_there (find_key id t.disk.proposals)
                      (ap (λ x. not_pending (find_key id x)) same ∙ b))
                    sound' in
                rw (b, q) (w, Follows-trans s.disk t.disk (put_proposal id p t.disk) after v)
          ]
    ];
  }

  pub Along-store_decision :
      (a : ApprovalActor) (id : String) (approve : Bool) (p : TrustProposal)
      → IsProposal id p
      → p.maker ≢ p.checker
      → Along (Keeps d) (store_decision l a id approve p)
  unfolding store_decision
  Along-store_decision a id approve p good eyes =
      Along-bind (Keeps-order d) (observe_clock l) _ (Along-observe_clock l d) (λ u.
        Along-bind (Keeps-order d) (is_cancelled l) _ (Along-is_cancelled l d) (λ over.
          Along-bind (Keeps-order d) (refuse over denied) _
            (search (along_rules, Keeps-order d) depth 5)
            (λ u.
              Along-bind (Keeps-order d) (still_before l a.valid_until) _
                (Along-still_before l d a.valid_until)
                (λ u.
                  Along-bind (Keeps-order d) (still_before l p.snapshot.valid_until) _
                    (Along-still_before l d p.snapshot.valid_until)
                    (λ u. Along-write_decision id approve p good eyes)))))
