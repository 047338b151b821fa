-- ===== src/Federation/Ledger/Reading.antt =====
-- internal/federation/trust_ledger.go: what the readings of the ledger return.
use baobab_iam.Base.{
  String, Bool, false, not, ◌||◌, Option, none, some, ◌≡◌, refl, sym, ap, ◌∙◌, inl, inr, Bool-cases,
  find_key,
}
use baobab_iam.Result.{Result, ok, Result-cases, refuse_done}
use baobab_iam.Action.Done.{bind-ok}
use baobab_iam.Action.Along.{Along, Along-bind, Along-pure}
use baobab_iam.Federation.Types.{FederationError, invalid, unverified}
use baobab_iam.Federation.Grammar.{is_uuid}
use baobab_iam.Federation.Ledger.{TrustProposal, CommittedTrust, Disk, World, TrustLedger}
use baobab_iam.Federation.Ledger.Tx.{reported, refuse, is_cancelled, view_disk}
use baobab_iam.Federation.Ledger.Transition.{bad_committed}
use baobab_iam.Federation.Ledger.Propose.{read, found_or}
use baobab_iam.Federation.Ledger.Decide.{proposal}
use baobab_iam.Federation.Ledger.Keeps.{SameDisk, SameDisk-order, Along-reported}

pub same_refuse :
    {W : Type 0} (bad : Bool) (e : FederationError) → Along {S = World W} SameDisk (refuse bad e)
same_refuse bad e = record { at = λ s. refl }

module _ {W : Type 0} (l : TrustLedger W) where
  pub view_same :
      {A : Type 0} (f : Disk → Result FederationError A) → Along SameDisk (reported (view_disk l f))
  view_same f = Along-reported (view_disk l f) (record {
    at = λ s. elim (Bool-cases (l.broken s.outside)) [ inl b ↦ rw b refl | inr b ↦ rw b refl ];
  })

  pub same_cancelled : Along SameDisk (is_cancelled l)
  unfolding is_cancelled
  same_cancelled = record { at = λ s. refl }

  pub view_found :
      {A : Type 0} (f : Disk → Result FederationError A) (s : World W) (a : A)
      → (reported (view_disk l f) s).0 ≡ ok a
      → f s.disk ≡ ok a
  unfolding reported
  view_found f s a h = elim (Bool-cases (l.broken s.outside)) [
    | inl b ↦ absurd (let q = rw b at h in cc)
    | inr b ↦ elim (Result-cases (f s.disk)) [
      | inl (x, e) ↦ let q = rw (b, e) at h in let same : x ≡ a = cc in e ∙ ap ok same
      | inr (x, e) ↦ absurd (let q = rw (b, e) at h in cc)
    ]
  ]

  pub found_done :
      {A : Type 0} (e : FederationError) (o : Option A) (a : A) → found_or e o ≡ ok a → o ≡ some a
  found_done e none a h = cc
  found_done e (some x) a h = let same : x ≡ a = cc in ap some same

  abbrev looked_up : String → Disk → Result FederationError CommittedTrust
  looked_up id d = found_or unverified (find_key id d.trusts)

  pub read-same : (id : String) → Along SameDisk (read l id)
  unfolding read
  read-same id = Along-bind SameDisk-order (is_cancelled l) _ same_cancelled (λ over.
      Along-bind SameDisk-order (refuse (over || not (is_uuid id)) invalid) _
        (same_refuse (over || not (is_uuid id)) invalid)
        (λ u.
          Along-bind SameDisk-order (reported (view_disk l (looked_up id))) _
            (view_same (looked_up id))
            (λ v.
              Along-bind SameDisk-order (refuse (bad_committed l.parse id v) invalid) _
                (same_refuse (bad_committed l.parse id v) invalid)
                (λ u. Along-pure SameDisk-order v))))

  -- What `read` returns has passed its checks, and is what is stored.
  pub read-good :
      (id : String) (s : World W) (v : CommittedTrust)
      → (read l id s).0 ≡ ok v
      → (bad_committed l.parse id v ≡ false) × (find_key id s.disk.trusts ≡ some v)
  unfolding read is_cancelled
  read-good id s v h =
      let t = (read l id s).1 in
      let (_, _, a) =
        bind-ok (refuse (l.cancelled s.outside || not (is_uuid id)) invalid) _ v s t
          (ap (λ (r : Result FederationError CommittedTrust). (r, t)) h) in
      let m = reported (view_disk l (looked_up id)) in
      let (w, q, b) = bind-ok m _ v s t a in
      let u = (m s).1 in
      let (_, g, c) = bind-ok (refuse (bad_committed l.parse id w) invalid) _ v u t b in
      let same : w ≡ v = cc in
      let fine = refuse_done (bad_committed l.parse id w) invalid g in
      (
        ap (bad_committed l.parse id) (sym same) ∙ fine,
        found_done unverified (find_key id s.disk.trusts) w (view_found (looked_up id) s w q)
            ∙ ap some same,
      )

  abbrev proposal_at : String → Disk → Result FederationError TrustProposal
  proposal_at id d = found_or invalid (find_key id d.proposals)

  pub proposal-same : (id : String) → Along SameDisk (proposal l id)
  unfolding proposal
  proposal-same id = Along-bind SameDisk-order (is_cancelled l) _ same_cancelled (λ over.
      Along-bind SameDisk-order (refuse (over || not (is_uuid id)) invalid) _
        (same_refuse (over || not (is_uuid id)) invalid) (λ u. view_same (proposal_at id)))

  pub proposal-good :
      (id : String) (s : World W) (p : TrustProposal)
      → (proposal l id s).0 ≡ ok p
      → find_key id s.disk.proposals ≡ some p
  unfolding proposal is_cancelled
  proposal-good id s p h =
      let t = (proposal l id s).1 in
      let (_, _, a) =
        bind-ok (refuse (l.cancelled s.outside || not (is_uuid id)) invalid) _ p s t
          (ap (λ (r : Result FederationError TrustProposal). (r, t)) h) in
      found_done invalid (find_key id s.disk.proposals) p (
        view_found (proposal_at id) s p
          (ap (λ (r : Result FederationError TrustProposal × World W). r.0) a))
